-- ===== src/Apiserver/Login.antt =====
-- internal/apiserver/auth.go and the login handler of server.go. bcrypt, the JWT library and the
-- clock are parameters.
use wordpress_manager_operat.Prelude.{
  ℕ, String, Bool, true, false, ◌==◌, ◌+◌, Option, none, some, failure, Result, ok, err, Exec,
  if◌then◌else◌,
}
use wordpress_manager_operat.Text.{is_empty, strip_prefix}
use wordpress_manager_operat.Apiserver.Interface.{Reply, json, problem, Handler}

-- jwt.RegisteredClaims
pub record Claims : Type 0 where
  pub subject : String
  pub expires_at : ℕ
  pub issued_at : ℕ
  pub issuer : String

-- bcrypt's two functions (the hash is drawn at random, so it is a call), the signing of a JWT with
-- HS256, and ParseWithClaims with the check that the method is HMAC, at a time.
pub record Crypto : Type 0 where
  pub compare : String → String → Bool
  pub sign : Claims → String → Result String
  pub parse : ℕ → String → String → Result Claims

pub record Authenticator : Type 0 where
  pub username : String
  pub password_hash : String
  pub jwt_secret : String
  pub ttl : ℕ

abbrev pub with_hash : String → String → ℕ → String → Result Authenticator
with_hash username jwt_secret ttl hash =
    if is_empty jwt_secret
    then err (failure "JWT_SECRET is required")
    else ok
        (record { username = username; password_hash = hash; jwt_secret = jwt_secret; ttl = ttl })

abbrev pub after_hash : String → String → ℕ → Result String → Result Authenticator
after_hash username jwt_secret ttl (ok hash) = with_hash username jwt_secret ttl hash
after_hash username jwt_secret ttl (err e) = err e

-- `hashed` is what GenerateFromPassword returns for the plain text.
unfoldable pub new_authenticator :
    (String → Result String) → String → String → String → String → ℕ → Result Authenticator
new_authenticator hashed username password_hash plaintext jwt_secret ttl =
    if is_empty password_hash
    then (if is_empty plaintext
        then err (failure "no admin password configured")
        else after_hash username jwt_secret ttl (hashed plaintext))
    else with_hash username jwt_secret ttl password_hash

unfoldable pub verify_password : Crypto → Authenticator → String → String → Bool
verify_password crypto a username password =
    if username == a.username then crypto.compare a.password_hash password else false

unfoldable pub issue : Crypto → Authenticator → ℕ → String → Result String
issue crypto a now username =
    crypto.sign
      (record {
        subject = username;
        expires_at = now + a.ttl;
        issued_at = now;
        issuer = "wordpress-manager";
      })
      a.jwt_secret

abbrev pub subject_of : Result Claims → Result String
subject_of (ok claims) = ok claims.subject
subject_of (err e) = err e

unfoldable pub parse : Crypto → Authenticator → ℕ → String → Result String
parse crypto a now token = subject_of (crypto.parse now token a.jwt_secret)

-- The interface TwoFA; `setup` returns the secret, the URL and the QR code.
pub record TwoFactor (W : Type 0) : Type 0 where
  pub enabled : W → Bool × W
  pub setup : Exec W (String × (String × String))
  pub enable : String → Exec W (Unit {0})
  pub disable : String → Exec W (Unit {0})
  pub validate : String → W → Bool × W

pub record LoginBody : Type 0 where
  pub username : String
  pub password : String
  pub totp : String

abbrev pub token_reply : Result String → Reply String
token_reply (ok token) = json 200 token
token_reply (err e) = problem 500 "could not issue token"

abbrev pub with_user : {W A : Type 0} → (String → Handler W A) → Result String → Handler W A
with_user next (ok user) w = next user w
with_user next (err e) w = (problem 401 "invalid token", w)

module _ {W : Type 0} (crypto : Crypto) (a : Authenticator) (now : W → ℕ) where
  unfoldable pub issue_token : String → Handler W String
  unfolding issue
  issue_token username w = (token_reply (issue crypto a (now w) username), w)

  abbrev pub after_validate : LoginBody → Bool → Handler W String
  after_validate body true w = issue_token body.username w
  after_validate body false w = (problem 401 "invalid 2FA code", w)

  abbrev pub after_enabled : TwoFactor W → LoginBody → Bool → Handler W String
  after_enabled f body true w =
      if is_empty body.totp
      then (problem 401 "totp_required", w)
      else after_validate body (f.validate body.totp w).0 (f.validate body.totp w).1
  after_enabled f body false w = issue_token body.username w

  unfoldable pub second_factor : Option (TwoFactor W) → LoginBody → Handler W String
  unfolding issue_token
  second_factor none body w = issue_token body.username w
  second_factor (some f) body w = after_enabled f body (f.enabled w).0 (f.enabled w).1

  -- `none` is a body that does not decode.
  unfoldable pub login : Option (TwoFactor W) → Option LoginBody → Handler W String
  unfolding second_factor verify_password
  login f none w = (problem 400 "invalid JSON", w)
  login f (some body) w =
      if verify_password crypto a body.username body.password
      then second_factor f body w
      else (problem 401 "invalid credentials", w)

  abbrev pub with_token : {A : Type 0} → (String → Handler W A) → Option String → Handler W A
  with_token next none w = (problem 401 "missing bearer token", w)
  with_token next (some token) w = with_user next (parse crypto a (now w) token) w

  unfoldable pub middleware : {A : Type 0} → (String → Handler W A) → String → Handler W A
  unfolding parse strip_prefix
  middleware next header w = with_token next (strip_prefix "Bearer " header) w
