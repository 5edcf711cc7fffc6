-- ===== src/Apiserver/Factors.antt =====
-- Who is let in: a login needs both factors, a request needs the token of a login.
use Prim.Native.String.{◌++◌}
use wordpress_manager_operat.Prelude.{
  ℕ, String, ◌≡◌, refl, ap, ◌+◌, ◌<◌, ◌⊎◌, inl, inr, Bool, true, false, Bool-cases, Option, none,
  some, Option-cases, ◌==◌, eq_iff, Error, is_not_found, Result, ok, err,
}
use wordpress_manager_operat.Text.{is_empty, strip_prefix}
use wordpress_manager_operat.Text.Prefix.{strip_prefix-append}
use wordpress_manager_operat.Apiserver.Interface.{Client, Reply, json, problem, Handler}
use wordpress_manager_operat.Apiserver.TwoFa.{
  Totp, KubeTwoFa, secret_key_of, load, enabled, setup, enable, disable, validate, is_enabled,
}
use wordpress_manager_operat.Apiserver.Login.{
  Claims, Crypto, Authenticator, TwoFactor, LoginBody, verify_password, issue, subject_of, parse,
  token_reply, issue_token, after_validate, after_enabled, second_factor, login, with_user,
  middleware,
}

-- KubeTwoFA as the interface TwoFA.
abbrev pub kube_two_factor : {W : Type 0} → Client W → Totp W → KubeTwoFa → TwoFactor W
kube_two_factor c totp t = record {
  enabled = enabled c totp t;
  setup = setup c totp t;
  enable = enable c totp t;
  disable = disable c totp t;
  validate = validate c totp t;
}

-- The second factor was off, or its code was valid.
abbrev pub Passed : {W : Type 0} → Option (TwoFactor W) → LoginBody → W → Type 0
Passed none body w = Unit
Passed (some f) body w =
    ((f.enabled w).0 ≡ false)
    ⊎ (((f.enabled w).0 ≡ true)
        × (is_empty body.totp ≡ false)
        × ((f.validate body.totp (f.enabled w).1).0 ≡ true))

abbrev reply_token : Reply String → String
reply_token (json n t) = t
reply_token (problem n m) = ""

-- What the JWT library documents: a token that was signed is read back, with the same secret, as
-- the claims that it was made of, until it expires.
pub record IsSound (crypto : Crypto) : Type 0 where
  pub sign-parse :
      (claims : Claims) (secret token : String) (now : ℕ)
      → crypto.sign claims secret ≡ ok token
      → now < claims.expires_at
      → crypto.parse now token secret ≡ ok claims

module _ {W : Type 0} (crypto : Crypto) (a : Authenticator) (now : W → ℕ) where
  -- A login that was let in, with its token and the world in which that was issued.
  pub record Granted (f : Option (TwoFactor W)) (body : LoginBody) (token : String) (w w' : W)
      : Type 0 where
    pub user : body.username ≡ a.username
    pub password : crypto.compare a.password_hash body.password ≡ true
    pub factor : Passed f body w
    pub issued : issue crypto a (now w') body.username ≡ ok token

  token_reply-json :
      (r : Result String) (token : String) → token_reply r ≡ json 200 token → r ≡ ok token
  token_reply-json (ok s) token h = ap (λ r. ok (reply_token r)) h
  token_reply-json (err e) token h = cc

  issue_token-ok :
      (user token : String) (w w' : W)
      → issue_token crypto a now user w ≡ (json 200 token, w')
      → issue crypto a (now w') user ≡ ok token
  unfolding issue_token
  issue_token-ok user token w w' h =
      rw (← ap (λ p. p.1) h)
        (token_reply-json (issue crypto a (now w) user) token (ap (λ p. p.0) h))

  after_validate-ok :
      (body : LoginBody) (valid : Bool) (token : String) (w w' : W)
      → after_validate crypto a now body valid w ≡ (json 200 token, w')
      → (valid ≡ true) × (issue crypto a (now w') body.username ≡ ok token)
  after_validate-ok body true token w w' h = (refl, issue_token-ok body.username token w w' h)
  after_validate-ok body false token w w' h = let bad = ap (λ p. p.0) h in cc

  after_enabled-ok :
      (f : TwoFactor W) (body : LoginBody) (on : Bool) (token : String) (w w' : W)
      → after_enabled crypto a now f body on w ≡ (json 200 token, w')
      → ((on ≡ false)
          ⊎ ((on ≡ true) × (is_empty body.totp ≡ false) × ((f.validate body.totp w).0 ≡ true)))
        × (issue crypto a (now w') body.username ≡ ok token)
  after_enabled-ok f body false token w w' h = (inl refl, issue_token-ok body.username token w w' h)
  after_enabled-ok f body true token w w' h = elim (Bool-cases (is_empty body.totp)) [
    | inl missing ↦ let bad = ap (λ p. p.0) (rw missing at h) in cc
    | inr given ↦
        let (valid, issued) =
          after_validate-ok body (f.validate body.totp w).0 token _ w' (rw given at h) in
        (inr (refl, given, valid), issued)
  ]

  second_factor-ok :
      (f : Option (TwoFactor W)) (body : LoginBody) (token : String) (w w' : W)
      → second_factor crypto a now f body w ≡ (json 200 token, w')
      → Passed f body w × (issue crypto a (now w') body.username ≡ ok token)
  unfolding second_factor
  second_factor-ok none body token w w' h = (tt, issue_token-ok body.username token w w' h)
  second_factor-ok (some f) body token w w' h =
      after_enabled-ok f body (f.enabled w).0 token (f.enabled w).1 w' h

  -- A login that answers 200 had the name and the password of the admin, and the second factor was
  -- off or its code was valid.
  pub login-Granted :
      (f : Option (TwoFactor W)) (body : LoginBody) (token : String) (w w' : W)
      → login crypto a now f (some body) w ≡ (json 200 token, w')
      → Granted f body token w w'
  unfolding login verify_password
  login-Granted f body token w w' h = elim (Bool-cases (body.username == a.username)) [
    | inr other ↦ let bad = ap (λ p. p.0) (rw other at h) in cc
    | inl same ↦ elim (Bool-cases (crypto.compare a.password_hash body.password)) [
      | inr wrong ↦ let bad = ap (λ p. p.0) (rw (same, wrong) at h) in cc
      | inl right ↦
          let (passed, issued) = second_factor-ok f body token w w' (rw (same, right) at h) in
          record { user = (eq_iff _ _).0 same; password = right; factor = passed; issued = issued }
    ]
  ]

  -- With a JWT library that reads back what it signed, the token of a login that answers 200 admits
  -- every request that carries it, as the user of the login, until its time is over.
  pub login-middleware :
      {A : Type 0} (sound : IsSound crypto) (f : Option (TwoFactor W)) (body : LoginBody)
      (token : String) (next : String → Handler W A) (w issued later : W)
      → login crypto a now f (some body) w ≡ (json 200 token, issued)
      → now later < now issued + a.ttl
      → middleware crypto a now next ("Bearer " ++ token) later ≡ next body.username later
  unfolding middleware parse issue
  login-middleware sound f body token next w issued later h fresh =
      let granted = login-Granted f body token w issued h in
      rw (
        strip_prefix-append "Bearer " token,
        sound.sign-parse _ a.jwt_secret token (now later) granted.issued fresh,
      )

  -- A header that carries a token which the JWT library accepts with the secret, at the time of the
  -- request, with claims of which the user is the subject.
  abbrev pub Authorised : String → W → String → Type 0
  Authorised header w user =
      (token : String) × (strip_prefix "Bearer " header ≡ some token)
      × (claims : Claims) × (crypto.parse (now w) token a.jwt_secret ≡ ok claims)
      × (claims.subject ≡ user)

  with_user-subject_of :
      {A : Type 0} (next : String → Handler W A) (r : Result Claims) (w : W)
      → ((claims : Claims) × (r ≡ ok claims)
          × (with_user next (subject_of r) w ≡ next claims.subject w))
        ⊎ (with_user next (subject_of r) w ≡ (problem 401 "invalid token", w))
  with_user-subject_of next (ok claims) w = inl (claims, refl, refl)
  with_user-subject_of next (err e) w = inr refl

  -- A request is passed on to its handler only with a token in its header that the JWT library
  -- accepts, as the subject of its claims; every other is answered with 401, and nothing else happens.
  pub middleware-Authorised :
      {A : Type 0} (next : String → Handler W A) (header : String) (w : W)
      → ((user : String) × Authorised header w user
          × (middleware crypto a now next header w ≡ next user w))
        ⊎ ((m : String) × (middleware crypto a now next header w ≡ (problem 401 m, w)))
  unfolding middleware parse
  middleware-Authorised next header w = elim (Option-cases (strip_prefix "Bearer " header)) [
    | inl missing ↦ inr ("missing bearer token", rw missing)
    | inr (token, found) ↦
        elim (with_user-subject_of next (crypto.parse (now w) token a.jwt_secret) w) [
          | inl (claims, accepted, passed) ↦
              inl (claims.subject, (token, found, claims, accepted, refl), rw found passed)
          | inr refused ↦ inr ("invalid token", rw found refused)
        ]
  ]

  -- Where the Secret of the second factor cannot be read, for any reason, a login with the password
  -- is answered as if the second factor were off: no code is asked for.
  pub login_fails_open :
      (c : Client W) (totp : Totp W) (t : KubeTwoFa) (body : LoginBody) (w w' : W) (e : Error)
      → verify_password crypto a body.username body.password ≡ true
      → c.get_secret (secret_key_of c totp t) w ≡ (err e, w')
      → login crypto a now (some (kube_two_factor c totp t)) (some body) w
        ≡ issue_token crypto a now body.username w'
  unfolding login second_factor enabled load is_enabled
  login_fails_open c totp t body w w' e right failed = elim (Bool-cases (is_not_found e)) [
    | inl missing ↦ rw (right, failed, missing)
    | inr other ↦ rw (right, failed, other)
  ]
