-- ===== src/Apiserver/Admin.antt =====
-- The handlers of internal/apiserver/twofa.go, and me and getMetrics of server.go.
pub mod Switching
use wordpress_manager_operat.Prelude.{
  String, Bool, true, false, Option, none, some, List, Error, code_invalid, message, Result, ok,
  err, Exec, if◌then◌else◌,
}
use wordpress_manager_operat.Metrics.{ClusterMetrics, SiteUsage, Provider}
use wordpress_manager_operat.Apiserver.Interface.{Reply, json, problem, Handler}
use wordpress_manager_operat.Apiserver.Login.{TwoFactor}

-- The answer of getMetrics.
pub record Usage : Type 0 where
  pub cluster : ClusterMetrics
  pub sites : List SiteUsage

-- errors.Is(err, errCodeInvalid)
abbrev pub is_code_invalid : Error → Bool
is_code_invalid code_invalid = true
is_code_invalid _ = false

abbrev pub mutation_error : Error → String
mutation_error e = if is_code_invalid e then "mã 2FA không đúng" else message e

abbrev pub reply_usage : ClusterMetrics → Result (List SiteUsage) → Reply Usage
reply_usage cluster (err e) = problem 500 (message e)
reply_usage cluster (ok sites) = json 200 (record { cluster = cluster; sites = sites })

abbrev pub reply_setup : Result (String × (String × String)) → Reply (String × (String × String))
reply_setup (err e) = problem 500 (message e)
reply_setup (ok key) = json 200 key

module _ {W : Type 0} where
  unfoldable pub me : String → Handler W String
  me user w = (json 200 user, w)

  abbrev pub after_cluster : Provider W → Result ClusterMetrics → Handler W Usage
  after_cluster p (err e) w = (problem 500 (message e), w)
  after_cluster p (ok cluster) w = (reply_usage cluster (p.sites w).0, (p.sites w).1)

  unfoldable pub get_metrics : Option (Provider W) → Handler W Usage
  get_metrics none w = (problem 503 "metrics not configured", w)
  get_metrics (some p) w = after_cluster p (p.cluster w).0 (p.cluster w).1

  unfoldable pub two_fa_status : Option (TwoFactor W) → Handler W Bool
  two_fa_status none w = (json 200 false, w)
  two_fa_status (some f) w = (json 200 (f.enabled w).0, (f.enabled w).1)

  unfoldable pub two_fa_setup : Option (TwoFactor W) → Handler W (String × (String × String))
  two_fa_setup none w = (problem 503 "2FA not configured", w)
  two_fa_setup (some f) w = (reply_setup (f.setup w).0, (f.setup w).1)

  abbrev pub after_mutation : TwoFactor W → Result (Unit {0}) → Handler W Bool
  after_mutation f (err e) w = (problem 400 (mutation_error e), w)
  after_mutation f (ok _) w = (json 200 (f.enabled w).0, (f.enabled w).1)

  -- `fn` is the method that the closure calls, and the body the code that decodes.
  unfoldable pub two_fa_mutate :
      (TwoFactor W → String → Exec W (Unit {0}))
      → Option (TwoFactor W)
      → Option String
      → Handler W Bool
  two_fa_mutate fn none body w = (problem 503 "2FA not configured", w)
  two_fa_mutate fn (some f) none w = (problem 400 "invalid JSON", w)
  two_fa_mutate fn (some f) (some code) w = after_mutation f (fn f code w).0 (fn f code w).1

  unfoldable pub two_fa_enable : Option (TwoFactor W) → Option String → Handler W Bool
  unfolding two_fa_mutate
  two_fa_enable f body w = two_fa_mutate (λ g. g.enable) f body w

  unfoldable pub two_fa_disable : Option (TwoFactor W) → Option String → Handler W Bool
  unfolding two_fa_mutate
  two_fa_disable f body w = two_fa_mutate (λ g. g.disable) f body w
