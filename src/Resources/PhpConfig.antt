-- ===== src/Resources/PhpConfig.antt =====
-- internal/resources/configmap.go: the php.ini of a site and the ConfigMap that carries it. The
-- hash (crypto/sha256) is a parameter.

use Prim.Native.String.{slice, ◌++◌}
use wordpress_manager_operat.Prelude.{ℕ, String, List, [], ◌∷◌, if◌then◌else◌}
use wordpress_manager_operat.Text.{is_empty}
use wordpress_manager_operat.Text.Encoding.{hex_encode}
use wordpress_manager_operat.Api.{WordPressSite}
use wordpress_manager_operat.Resources.Names.{labels}
use wordpress_manager_operat.Resources.Objects.{ConfigMap, new_meta}

abbrev pub php_ini_file_name : String
php_ini_file_name = "zz-wpmgr.ini"

abbrev pub php_mount_path : String
php_mount_path = "/usr/local/etc/php/conf.d/zz-wpmgr.ini"

abbrev pub default_php_ini : String
default_php_ini =
    "file_uploads = On\nmemory_limit = 256M\nupload_max_filesize = 500M\npost_max_size = 500M\nmax_execution_time = 300\n\n; Ensure mysqli is enabled\nextension=mysqli\n"

-- ForwardedProtoFile, ForwardedProtoMount, ForceHTTPSSnippet and the marker are constants of
-- internal/resources/deployment.go.
abbrev pub forwarded_proto_file : String
forwarded_proto_file = "forwarded-proto.php"

abbrev pub forwarded_proto_mount : String
forwarded_proto_mount = "/etc/wpmgr/forwarded-proto.php"

abbrev pub force_https_snippet : String
force_https_snippet = "$_SERVER['HTTP_X_FORWARDED_PROTO'] = 'https';"

abbrev pub forwarded_proto_marker : String
forwarded_proto_marker = "wpmgr-forwarded-proto"

unfoldable pub php_config_map_name : WordPressSite → String
php_config_map_name site = site.meta.name ++ "-php"

unfoldable pub effective_php_ini : WordPressSite → String
effective_php_ini site = if is_empty site.spec.php_ini then default_php_ini else site.spec.php_ini

-- The first 16 characters of the hash in hexadecimal.
unfoldable pub php_ini_hash : (String → List ℕ) → WordPressSite → String
php_ini_hash sha256 site = slice (hex_encode (sha256 (effective_php_ini site))) 0 16

unfoldable pub desired_php_config_map : WordPressSite → ConfigMap
desired_php_config_map site = record {
  meta = new_meta (php_config_map_name site) site.meta.namespace (labels site) [];
  entries =
      (php_ini_file_name, effective_php_ini site)
      ∷ (forwarded_proto_file, force_https_snippet ++ " // " ++ forwarded_proto_marker ++ "\n")
      ∷ [];
}
