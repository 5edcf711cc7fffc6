-- ===== src/Resources/Names.antt =====
-- internal/resources/names.go: the names that a site's objects, database and user have.
pub mod Idents
pub mod Collisions
pub mod Distinct
pub mod SharedUsers
use Prim.Native.Char.{Char, code}
use Prim.Native.String.{◌++◌}
use wordpress_manager_operat.Prelude.{ℕ, String, Bool, ◌||◌, List, [], ◌∷◌, nat_eq, if◌then◌else◌}
use wordpress_manager_operat.Text.{
  between, lower_char, map_chars, trim_left, trim_right, truncate, is_empty,
}
use wordpress_manager_operat.Maps.{Map}
use wordpress_manager_operat.Api.{WordPressSite}

-- The operator-wide variables, which the commands set at startup.
pub record Defaults : Type 0 where
  pub shared_pvc_name : String
  pub ingress_class : String

-- The complement of the class of `invalid`, [a-z0-9_].
abbrev pub is_token_char : ℕ → Bool
is_token_char n = between b'a' b'z' n || between b'0' b'9' n || nat_eq n b'_'

-- One character of strings.ToLower followed by invalid.ReplaceAllString(…, "_").
unfoldable pub clean_char : Char → Char
clean_char c = let d = lower_char c in if is_token_char (code d) then d else "_"

unfoldable pub sanitize : String → String
unfolding map_chars trim_left trim_right
sanitize name = trim_right (trim_left (map_chars clean_char name))

unfoldable pub shared_pvc_name : Defaults → WordPressSite → String
shared_pvc_name d site =
    let own = site.spec.storage.shared_pvc_name in if is_empty own then d.shared_pvc_name else own

-- The names that are generated where the spec gives none.
unfoldable pub generated_name : String → String
unfolding sanitize truncate
generated_name name = truncate ("wp_" ++ sanitize name) 64

unfoldable pub generated_user : String → String
unfolding sanitize truncate
generated_user name = truncate ("wpu_" ++ sanitize name) 32

unfoldable pub database_name : WordPressSite → String
unfolding generated_name
database_name site =
    if is_empty site.spec.database.name
    then generated_name site.meta.name
    else site.spec.database.name

unfoldable pub database_user : WordPressSite → String
unfolding generated_user
database_user site =
    if is_empty site.spec.database.user
    then generated_user site.meta.name
    else site.spec.database.user

unfoldable pub database_host : WordPressSite → String
database_host site = if is_empty site.spec.database.host then "%" else site.spec.database.host

unfoldable pub secret_name : WordPressSite → String
secret_name site = site.meta.name ++ "-wp"

unfoldable pub sub_path : WordPressSite → String
sub_path site =
    if is_empty site.spec.storage.sub_path then site.meta.name else site.spec.storage.sub_path

unfoldable pub tls_secret_name : WordPressSite → String
tls_secret_name site =
    if is_empty site.spec.tls.secret_name
    then site.meta.name ++ "-tls"
    else site.spec.tls.secret_name

unfoldable pub hosts : WordPressSite → List String
hosts site = site.spec.domain ∷ site.spec.aliases

unfoldable pub labels : WordPressSite → Map String
labels site =
    ("app.kubernetes.io/managed-by", "wordpress-manager-operator")
    ∷ ("app.kubernetes.io/name", "wordpress")
    ∷ ("app.kubernetes.io/instance", site.meta.name)
    ∷ ("wp.benji.dev/site", site.meta.name)
    ∷ []

unfoldable pub url : WordPressSite → String
url site = (if site.spec.tls.enabled then "https" else "http") ++ "://" ++ site.spec.domain
