-- ===== src/Apiserver/TwoFa.antt =====
-- internal/apiserver/twofa.go: the second factor of the admin, kept in a Secret.
use Prim.Native.String.{◌++◌}
use wordpress_manager_operat.Text.Base64.{std_encode}
use wordpress_manager_operat.Prelude.{
  ℕ, List, String, Bool, false, not, ◌&&◌, ◌==◌, Option, none, some, [], ◌∷◌, failure, code_invalid,
  is_not_found, Result, ok, err, Exec, attempt, ◌>>=◌, ◌>>◌, pure, raise, lift, if◌then◌else◌,
}
use wordpress_manager_operat.Text.{is_empty}
use wordpress_manager_operat.Maps.{Map, insert, copy}
use wordpress_manager_operat.Resources.Objects.{Secret, new_meta}
use wordpress_manager_operat.Resources.Secret.{value_at, existing_data}
use wordpress_manager_operat.Controller.Interface.{ObjectKey}
use wordpress_manager_operat.Apiserver.Interface.{Client}

-- otp.Key, with the secret in base32.
pub record OtpKey : Type 0 where
  pub secret : String
  pub url : String

-- The TOTP library: Generate draws a key for an issuer and an account, Validate compares a code
-- with a secret at the present time; key.Image renders a key in a width and a height, and here
-- png.Encode follows it, with the error of either.
pub record Totp (W : Type 0) : Type 0 where
  pub generate : String → String → Exec W OtpKey
  pub validate : String → String → W → Bool
  pub image : OtpKey → ℕ → ℕ → Result (List ℕ)

pub record KubeTwoFa : Type 0 where
  pub namespace : String
  pub secret_name : String
  pub issuer : String
  pub account : String

abbrev pub key_secret : String
key_secret = "secret"

abbrev pub key_enabled : String
key_enabled = "enabled"

abbrev pub key_pending : String
key_pending = "pending"

-- What Enabled reads in the Secret: an error counts as no.
unfoldable pub is_enabled : Result (Option Secret) → Bool
is_enabled (ok (some s)) =
    (value_at key_enabled s.entries == "true") && not (is_empty (value_at key_secret s.entries))
is_enabled (ok none) = false
is_enabled (err e) = false

-- The data that Setup, Enable and Disable write.
unfoldable pub setup_data : Option Secret → String → Map String
setup_data s pending = insert key_pending pending (copy [] (existing_data s))

abbrev pub enable_data : String → Map String
enable_data pending = (key_secret, pending) ∷ (key_enabled, "true") ∷ []

abbrev pub disable_data : Map String
disable_data = (key_enabled, "false") ∷ []

-- The bytes of the image as a data URI.
abbrev pub data_uri : Result (List ℕ) → Result String
data_uri (ok bytes) = ok ("data:image/png;base64," ++ std_encode bytes)
data_uri (err e) = err e

unfoldable pub qr_data_uri : {W : Type 0} → Totp W → OtpKey → Result String
qr_data_uri totp key = data_uri (totp.image key 220 220)

module _ {W : Type 0} (c : Client W) (totp : Totp W) (t : KubeTwoFa) where
  abbrev pub secret_key_of : ObjectKey
  secret_key_of = record { namespace = t.namespace; name = t.secret_name }

  abbrev pub after_get : Result Secret → Exec W (Option Secret)
  after_get (ok s) = pure (some s)
  after_get (err e) = if is_not_found e then pure none else raise e

  unfoldable pub load : Exec W (Option Secret)
  load = attempt (c.get_secret secret_key_of) after_get

  unfoldable pub save : Option Secret → Map String → Exec W (Unit {0})
  save none entries =
      c.create_secret
        (record { meta = new_meta t.secret_name t.namespace [] []; entries = entries })
      >>= λ _. pure tt
  save (some existing) entries =
      c.update_secret (record existing { entries = entries }) >>= λ _. pure tt

  unfoldable pub enabled : W → Bool × W
  unfolding is_enabled
  enabled w = (is_enabled (load w).0, (load w).1)

  unfoldable pub setup : Exec W (String × (String × String))
  unfolding load save setup_data qr_data_uri
  setup = do
    key ← totp.generate t.issuer t.account
    s ← load
    save s (setup_data s key.secret)
    qr ← lift (qr_data_uri totp key)
    pure (key.secret, (key.url, qr))

  unfoldable pub enable_from : String → Option Secret → Exec W (Unit {0})
  unfolding save
  enable_from code none w = raise (failure "run setup first") w
  enable_from code (some s) w =
      let pending = value_at key_pending s.entries in
      (if is_empty pending
          then raise (failure "run setup first")
          else if totp.validate code pending w
          then save (some s) (enable_data pending)
          else raise code_invalid)
        w

  unfoldable pub enable : String → Exec W (Unit {0})
  unfolding load enable_from
  enable code = load >>= enable_from code

  unfoldable pub disable_from : String → Option Secret → Exec W (Unit {0})
  unfolding save
  disable_from code none w = pure tt w
  disable_from code (some s) w =
      let active = value_at key_secret s.entries in
      (if is_empty active
          then pure tt
          else if totp.validate code active w
          then save (some s) disable_data
          else raise code_invalid)
        w

  unfoldable pub disable : String → Exec W (Unit {0})
  unfolding load disable_from
  disable code = load >>= disable_from code

  -- The code is checked in the world that the read left.
  abbrev pub validate_from : String → Result (Option Secret) → W → Bool
  validate_from code (ok (some s)) w = totp.validate code (value_at key_secret s.entries) w
  validate_from code (ok none) w = false
  validate_from code (err e) w = false

  unfoldable pub validate : String → W → Bool × W
  validate code w = (validate_from code (load w).0 (load w).1, (load w).1)
