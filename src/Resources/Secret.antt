-- ===== src/Resources/Secret.antt =====
-- internal/resources/secret.go: the site's database password and WordPress salts. The random source
-- (crypto/rand) is a parameter.
pub mod Kept
pub mod Drawing
use wordpress_manager_operat.Prelude.{
  ℕ, String, Option, none, some, List, [], ◌∷◌, if◌then◌else◌, value_or,
}
use wordpress_manager_operat.Text.{is_empty}
use wordpress_manager_operat.Text.Encoding.{raw_url_encode}
use wordpress_manager_operat.Maps.{Map, lookup, insert, copy}
use wordpress_manager_operat.Api.{WordPressSite}
use wordpress_manager_operat.Resources.Names.{secret_name, labels}
use wordpress_manager_operat.Resources.Objects as Objects
use wordpress_manager_operat.Resources.Objects.{new_meta}

abbrev pub salt_keys : List String
salt_keys =
    "WORDPRESS_AUTH_KEY" ∷ "WORDPRESS_SECURE_AUTH_KEY" ∷ "WORDPRESS_LOGGED_IN_KEY"
    ∷ "WORDPRESS_NONCE_KEY" ∷ "WORDPRESS_AUTH_SALT" ∷ "WORDPRESS_SECURE_AUTH_SALT"
    ∷ "WORDPRESS_LOGGED_IN_SALT" ∷ "WORDPRESS_NONCE_SALT" ∷ []

abbrev pub password_key : String
password_key = "WORDPRESS_DB_PASSWORD"

-- data[k], the zero value where the key is missing
abbrev pub value_at : String → Map String → String
value_at k m = value_or (lookup k m) ""

-- rand.Read of `n` bytes, which never fails
abbrev pub Random : Type 0 → Type 0
Random W = ℕ → W → List ℕ × W

abbrev pub existing_data : Option Objects.Secret → Map String
existing_data none = []
existing_data (some s) = s.entries

module _ {W : Type 0} (random : Random W) where
  unfoldable pub random_password : ℕ → W → String × W
  random_password n w = (raw_url_encode (random n w).0, (random n w).1)

  -- `if len(data[k]) == 0 { data[k] = []byte(RandomPassword(n)) }`
  unfoldable pub fill : ℕ → String → Map String → W → Map String × W
  fill n k m w =
      if is_empty (value_at k m)
      then (insert k (random_password n w).0 m, (random_password n w).1)
      else (m, w)

  unfoldable pub fill_all : List String → Map String → W → Map String × W
  fill_all [] m w = (m, w)
  fill_all (k ∷ ks) m w = fill_all ks (fill 48 k m w).0 (fill 48 k m w).1

  unfoldable pub secret_data : Map String → W → Map String × W
  secret_data m w = let (m', w') = fill 24 password_key (copy [] m) w in fill_all salt_keys m' w'

  unfoldable pub desired_secret : WordPressSite → Option Objects.Secret → W → Objects.Secret × W
  desired_secret site existing w =
      let (m, w') = secret_data (existing_data existing) w in
      (
        record {
          meta = new_meta (secret_name site) site.meta.namespace (labels site) [];
          entries = m;
        },
        w',
      )
