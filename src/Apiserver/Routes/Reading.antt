-- ===== src/Apiserver/Routes/Reading.antt =====
-- The requests that change no site and no Secret.
use wordpress_manager_operat.Prelude.{
  String, Bool, true, false, Bool-cases, inl, inr, Option, none, some, Result, ok, err,
}
use wordpress_manager_operat.Text.{is_empty, strip_prefix}
use wordpress_manager_operat.Api.{WordPressSite}
use wordpress_manager_operat.Controller.Interface.{ObjectKey}
use wordpress_manager_operat.Metrics.{ClusterMetrics, Provider}
use wordpress_manager_operat.Apiserver.Interface.{Handler}
use wordpress_manager_operat.Apiserver.Login.{
  TwoFactor, LoginBody, verify_password, issue_token, after_validate, after_enabled, second_factor,
  login, with_user, with_token, middleware, parse,
}
use wordpress_manager_operat.Apiserver.Sites.{SiteDto, fetch, list_sites, get_site}
use wordpress_manager_operat.Apiserver.Documents.{preview_yaml, after_read, get_site_yaml}
use wordpress_manager_operat.Apiserver.Status.{after_site, get_site_status}
use wordpress_manager_operat.Apiserver.Admin.{me, after_cluster, get_metrics, two_fa_status}
use wordpress_manager_operat.Apiserver.Routes.{
  Guarded, get_sites, post_preview, get_one, get_yaml, get_status, get_usage, get_me, get_two_fa,
  Route, get_healthz, post_login, guarded, App, handle, serve,
}

-- A call or a handler that keeps `P`.
abbrev pub Stays : {W B : Type 0} → (W → Type 0) → (W → B × W) → Type 0
Stays {W = W} P m = (w : W) → P w → P (m w).1

-- The guarded routes that only read.
pub data IsRead : Guarded → Type 0 where
  of_sites : IsRead get_sites
  of_preview : {b : Result SiteDto} → IsRead (post_preview b)
  of_one : {n : String} → IsRead (get_one n)
  of_yaml : {n : String} → IsRead (get_yaml n)
  of_status : {n : String} → IsRead (get_status n)
  of_usage : IsRead get_usage
  of_me : IsRead get_me
  of_two_fa : IsRead get_two_fa

-- What the part of a server that may be missing keeps.
abbrev pub MetricsStay : {W : Type 0} → (W → Type 0) → Option (Provider W) → Type 0
MetricsStay P none = Unit
MetricsStay P (some p) = Stays P p.cluster × Stays P p.sites

abbrev pub FactorStays : {W : Type 0} → (W → Type 0) → Option (TwoFactor W) → Type 0
FactorStays P none = Unit
FactorStays P (some f) = Stays P f.enabled × ((code : String) → Stays P (f.validate code))

module _ {W : Type 0} (P : W → Type 0) (a : App W) where
  -- The reads of the cluster keep `P`.
  pub record ReadsStay : Type 0 where
    pub get_site : (k : ObjectKey) → Stays P (a.client.get_site k)
    pub list_sites : (n : String) → Stays P (a.client.list_sites n)
    pub list_pods : (n l v : String) → Stays P (a.diagnostics.list_pods n l v)
    pub list_events : (n : String) → Stays P (a.diagnostics.list_events n)
    pub metrics : MetricsStay P a.metrics
    pub factor : FactorStays P a.two_fa

  after_read-Stays :
      (r : Result WordPressSite)
      → Stays P (after_read a.client a.server a.yaml a.sha256 a.defaults r)
  after_read-Stays (ok site) w h = h
  after_read-Stays (err e) w h = h

  preview_yaml-Stays :
      (b : Result SiteDto) → Stays P (preview_yaml a.client a.server a.yaml a.sha256 a.defaults b)
  unfolding preview_yaml
  preview_yaml-Stays (ok d) w h = h
  preview_yaml-Stays (err e) w h = h

  status-Stays :
      (k : ReadsStay) (r : Result WordPressSite)
      → Stays P (after_site a.client a.server a.diagnostics a.format a.sort r)
  status-Stays k (ok site) w h = k.list_events _ _ (k.list_pods _ _ _ w h)
  status-Stays k (err e) w h = h

  after_cluster-Stays :
      (p : Provider W) (r : Result ClusterMetrics) → Stays P p.sites → Stays P (after_cluster p r)
  after_cluster-Stays p (ok c) k w h = k w h
  after_cluster-Stays p (err e) k w h = h

  get_metrics-Stays : (m : Option (Provider W)) → MetricsStay P m → Stays P (get_metrics m)
  unfolding get_metrics
  get_metrics-Stays none k w h = h
  get_metrics-Stays (some p) (cluster, sites) w h =
      after_cluster-Stays p (p.cluster w).0 sites _ (cluster w h)

  two_fa_status-Stays : (f : Option (TwoFactor W)) → FactorStays P f → Stays P (two_fa_status f)
  unfolding two_fa_status
  two_fa_status-Stays none k w h = h
  two_fa_status-Stays (some f) (enabled, _) w h = enabled w h

  pub handle-Stays :
      (k : ReadsStay) {g : Guarded} → IsRead g → (user : String) → Stays P (handle a g user)
  unfolding handle list_sites get_site fetch get_site_yaml get_site_status me
  handle-Stays k of_sites user w h = k.list_sites _ w h
  handle-Stays k (of_preview {b}) user w h = preview_yaml-Stays b w h
  handle-Stays k (of_one {n}) user w h = k.get_site _ w h
  handle-Stays k (of_yaml {n}) user w h =
      after_read-Stays (fetch a.client a.server n w).0 _ (k.get_site _ w h)
  handle-Stays k (of_status {n}) user w h =
      status-Stays k (fetch a.client a.server n w).0 _ (k.get_site _ w h)
  handle-Stays k of_usage user w h = get_metrics-Stays a.metrics k.metrics w h
  handle-Stays k of_me user w h = h
  handle-Stays k of_two_fa user w h = two_fa_status-Stays a.two_fa k.factor w h

  with_user-Stays :
      {B : Type 0} (next : String → Handler W B) (r : Result String)
      → ((user : String) → Stays P (next user))
      → Stays P (with_user next r)
  with_user-Stays next (ok user) k w h = k user w h
  with_user-Stays next (err e) k w h = h

  with_token-Stays :
      {B : Type 0} (next : String → Handler W B) (t : Option String)
      → ((user : String) → Stays P (next user))
      → Stays P (with_token a.crypto a.auth a.now next t)
  with_token-Stays next (some t) k w h =
      with_user-Stays next (parse a.crypto a.auth (a.now w) t) k w h
  with_token-Stays next none k w h = h

  pub middleware-Stays :
      {B : Type 0} (next : String → Handler W B) (header : String)
      → ((user : String) → Stays P (next user))
      → Stays P (middleware a.crypto a.auth a.now next header)
  unfolding middleware
  middleware-Stays next header k w h = with_token-Stays next (strip_prefix "Bearer " header) k w h

  after_validate-Stays :
      (body : LoginBody) (valid : Bool) → Stays P (after_validate a.crypto a.auth a.now body valid)
  unfolding issue_token
  after_validate-Stays body true w h = h
  after_validate-Stays body false w h = h

  after_enabled-Stays :
      (f : TwoFactor W) (body : LoginBody) (on : Bool)
      → ((code : String) → Stays P (f.validate code))
      → Stays P (after_enabled a.crypto a.auth a.now f body on)
  unfolding issue_token
  after_enabled-Stays f body false k w h = h
  after_enabled-Stays f body true k w h = elim (Bool-cases (is_empty body.totp)) [
    | inl e ↦ rw e h
    | inr e ↦ rw e (after_validate-Stays body (f.validate body.totp w).0 _ (k body.totp w h))
  ]

  second_factor-Stays :
      (f : Option (TwoFactor W)) (body : LoginBody)
      → FactorStays P f
      → Stays P (second_factor a.crypto a.auth a.now f body)
  unfolding second_factor issue_token
  second_factor-Stays none body k w h = h
  second_factor-Stays (some f) body (enabled, validate) w h =
      after_enabled-Stays f body (f.enabled w).0 validate _ (enabled w h)

  pub login-Stays :
      (f : Option (TwoFactor W)) (body : Option LoginBody)
      → FactorStays P f
      → Stays P (login a.crypto a.auth a.now f body)
  unfolding login
  login-Stays f none k w h = h
  login-Stays f (some body) k w h =
      elim (Bool-cases (verify_password a.crypto a.auth body.username body.password)) [
        | inl e ↦ rw e (second_factor-Stays f body k w h)
        | inr e ↦ rw e h
      ]

  -- The routes that only read, with those that need no token.
  abbrev pub IsReadRoute : Route → Type 0
  IsReadRoute get_healthz = Unit
  IsReadRoute (post_login b) = Unit
  IsReadRoute (guarded g) = IsRead g

  -- What the reads of the cluster, of the metrics and of the second factor keep, every request keeps
  -- that is a health check, a login, or for one of the reading routes, whatever its header.
  pub serve-Stays :
      (k : ReadsStay) (header : String) (r : Route) → IsReadRoute r → Stays P (serve a header r)
  unfolding serve
  serve-Stays k header get_healthz i w h = h
  serve-Stays k header (post_login body) i w h = login-Stays a.two_fa body k.factor w h
  serve-Stays k header (guarded g) i w h =
      middleware-Stays (handle a g) header (λ user. handle-Stays k i user) w h
