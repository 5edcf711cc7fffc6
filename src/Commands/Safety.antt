-- ===== src/Commands/Safety.antt =====
-- What the settings promise.
use wordpress_manager_operat.Prelude.{
  ℕ, String, ◌≡◌, ◌≢◌, ◌⊎◌, refl, ap, sym, inl, inr, false, Bool-cases, ==-false_of_ne, eq_iff,
  List, Result, ok, err, Exec, >>=-ok, ok_injective,
}
use wordpress_manager_operat.Text.{is_empty}
use wordpress_manager_operat.Controller.{reconcile}
use wordpress_manager_operat.Controller.Interface.{ObjectKey, Cluster, Database}
use wordpress_manager_operat.Controller.Kept.{IsKept}
use wordpress_manager_operat.Controller.DataSafety.{reconcile-Keeps}
use wordpress_manager_operat.Mysql.{or_wrap}
use wordpress_manager_operat.Apiserver.Login.{
  Authenticator, new_authenticator, with_hash, after_hash,
}
use wordpress_manager_operat.Apiserver.Routes.{App}
use wordpress_manager_operat.Commands.{
  Environment, env, operator, Platform, backend, authenticator, app_of, apiserver,
}

not_dropping :
    (sha256 : String → List ℕ) (getenv : Environment)
    → getenv "DROP_DATA_ON_DELETE" ≢ "true"
    → (operator sha256 getenv).reconciler.drop_data_on_delete ≡ false
unfolding operator env
not_dropping sha256 getenv h = elim (Bool-cases (is_empty (getenv "DROP_DATA_ON_DELETE"))) [
  | inl unset ↦ rw unset refl
  | inr set ↦ rw (set, ==-false_of_ne (getenv "DROP_DATA_ON_DELETE") "true" h) refl
]

-- Unless the environment of the operator says exactly "true" for DROP_DATA_ON_DELETE, its reconciler
-- keeps every property of the world that the calls other than DropDatabase keep, also when a site is
-- deleted.
pub operator-Keeps :
    {W : Type 0} (c : Cluster W) (db : Database W) (sha256 : String → List ℕ) (getenv : Environment)
    (P : W → Type 0) (k : IsKept c db P) (key : ObjectKey) (w : W)
    → getenv "DROP_DATA_ON_DELETE" ≢ "true"
    → P w
    → P (reconcile c db (operator sha256 getenv).reconciler key w).1
operator-Keeps c db sha256 getenv P k key w h =
    reconcile-Keeps c db (operator sha256 getenv).reconciler P k key w
      (λ s _. inl (not_dropping sha256 getenv h))

-- A server of the admin API that can authenticate its admin.
pub record IsSecured (getenv : Environment) (a : Authenticator) : Type 0 where
  pub secret : getenv "JWT_SECRET" ≢ ""
  pub password : (getenv "ADMIN_PASSWORD_HASH" ≢ "") ⊎ (getenv "ADMIN_PASSWORD" ≢ "")
  pub signs : a.jwt_secret ≡ getenv "JWT_SECRET"

full_of : (s : String) → is_empty s ≡ false → s ≢ ""
full_of s h e = let empty = (eq_iff s "").1 e in cc

authenticator_secret : Result Authenticator → String
authenticator_secret (ok a) = a.jwt_secret
authenticator_secret (err e) = ""

with_hash-ok :
    (user jwt hash : String) (ttl : ℕ) (a : Authenticator)
    → with_hash user jwt ttl hash ≡ ok a
    → (jwt ≢ "") × (a.jwt_secret ≡ jwt)
unfolding authenticator_secret
with_hash-ok user jwt hash ttl a h = elim (Bool-cases (is_empty jwt)) [
  | inl e ↦ let bad = rw e at h in cc
  | inr e ↦ (full_of jwt e, sym (ap authenticator_secret (rw e at h)))
]

after_hash-ok :
    (user jwt : String) (ttl : ℕ) (r : Result String) (a : Authenticator)
    → after_hash user jwt ttl r ≡ ok a
    → (jwt ≢ "") × (a.jwt_secret ≡ jwt)
after_hash-ok user jwt ttl (ok hash) a h = with_hash-ok user jwt hash ttl a h
after_hash-ok user jwt ttl (err e) a h = cc

new_authenticator-ok :
    (hashed : String → Result String) (user hash plain jwt : String) (ttl : ℕ) (a : Authenticator)
    → new_authenticator hashed user hash plain jwt ttl ≡ ok a
    → (jwt ≢ "") × ((hash ≢ "") ⊎ (plain ≢ "")) × (a.jwt_secret ≡ jwt)
unfolding new_authenticator
new_authenticator-ok hashed user hash plain jwt ttl a h = elim (Bool-cases (is_empty hash)) [
  | inr full ↦
      let (s, e) = with_hash-ok user jwt hash ttl a (rw full at h) in
      (s, inl (full_of hash full), e)
  | inl none_given ↦ elim (Bool-cases (is_empty plain)) [
    | inl e ↦ let bad = rw (none_given, e) at h in cc
    | inr full ↦
        let (s, e) = after_hash-ok user jwt ttl (hashed plain) a (rw (none_given, full) at h) in
        (s, inr (full_of plain full), e)
  ]
]

or_wrap-ok :
    {W A B : Type 0} (context : String) (f : A → Exec W B) (r : Result A) (w w' : W) (b : B)
    → or_wrap context f r w ≡ (ok b, w')
    → (a : A) × (r ≡ ok a) × (f a w ≡ (ok b, w'))
or_wrap-ok context f (ok a) w w' b h = (a, refl, h)
or_wrap-ok context f (err e) w w' b h = let bad = ap (λ p. p.0) h in cc

-- The API server starts only with a JWT secret, with which it signs, and with a password or a hash of
-- one.
pub apiserver-IsSecured :
    {W Conn : Type 0} (p : Platform W Conn) (getenv : Environment) (app : App W) (w w' : W)
    → apiserver p getenv w ≡ (ok app, w')
    → IsSecured getenv app.auth
unfolding apiserver app_of authenticator
apiserver-IsSecured p getenv app w w' h =
    let (b, w1, chosen, rest) = >>=-ok (backend p getenv) _ w h in
    let (auth, made, started) =
      or_wrap-ok "auth setup: " _ (authenticator p getenv) w1 w' app rest in
    let (secret, password, signs) = new_authenticator-ok p.hashed _ _ _ _ _ auth made in
    let same : app_of p getenv b auth ≡ app = ok_injective started in
    let same_auth : auth ≡ app.auth = ap (λ (x : App _). x.auth) same in
    record { secret = secret; password = password; signs = rw (← same_auth) signs }
