-- ===== src/Resources/Deployment.antt =====
-- internal/resources/deployment.go and service.go: the WordPress Deployment and its Service.
use Prim.Native.String
use wordpress_manager_operat.Prelude.{
  ℕ, String, Bool, true, false, Option, none, some, List, [], ◌∷◌, ◌++◌, map, if◌then◌else◌,
  value_or,
}
use wordpress_manager_operat.Text.{is_empty}
use wordpress_manager_operat.Maps.{Map}
use wordpress_manager_operat.Api.{WordPressSite, EnvVar, literal, secret_key}
use wordpress_manager_operat.Resources.Names.{
  Defaults, database_name, database_user, secret_name, sub_path, shared_pvc_name, labels,
}
use wordpress_manager_operat.Resources.Objects.{
  Probe, VolumeMount, Volume, claim, config_map, recreate, Service, new_meta,
}
use wordpress_manager_operat.Resources.Objects as Objects
use wordpress_manager_operat.Resources.Secret.{salt_keys, password_key}
use wordpress_manager_operat.Resources.PhpConfig.{
  php_ini_hash, php_config_map_name, php_mount_path, php_ini_file_name, forwarded_proto_file,
  forwarded_proto_mount,
}

-- The command of the postStart hook.
abbrev pub forwarded_proto_post_start : String
forwarded_proto_post_start =
    "f=\"${WPMGR_WPCONFIG:-/var/www/html/wp-config.php}\"; snip=\"${WPMGR_SNIPPET:-/etc/wpmgr/forwarded-proto.php}\"; for i in $(seq 1 60); do [ -f \"$f\" ] && break; sleep 1; done; if [ -f \"$f\" ] && ! grep -q wpmgr-forwarded-proto \"$f\"; then sed \"/^<?php/r $snip\" \"$f\" > \"$f.wpmgr\" && mv \"$f.wpmgr\" \"$f\"; fi; exit 0"

unfoldable pub force_https_enabled : WordPressSite → Bool
force_https_enabled site = value_or site.spec.force_https true

unfoldable pub secret_env : String → String → String → EnvVar
secret_env name secret key = record { name = name; source = secret_key secret key }

abbrev pub plain_env : String → String → EnvVar
plain_env name value = record { name = name; source = literal value }

unfoldable pub selector : WordPressSite → Map String
selector site = ("wp.benji.dev/site", site.meta.name) ∷ []

unfoldable pub replica_count : WordPressSite → ℕ
replica_count site = if site.spec.suspend then 0 else value_or site.spec.replicas 1

-- `a`, or `b` where it is empty
abbrev pub or_default : String → String → String
or_default a b = if is_empty a then b else a

-- The variables that every site has.
unfoldable pub fixed_env : WordPressSite → String → String → List EnvVar
fixed_env site db_host db_port =
    plain_env "WORDPRESS_DB_HOST" (String.◌++◌ db_host (String.◌++◌ ":" db_port))
    ∷ plain_env "WORDPRESS_DB_NAME" (database_name site)
    ∷ plain_env "WORDPRESS_DB_USER" (database_user site)
    ∷ plain_env "WORDPRESS_TABLE_PREFIX" (or_default site.spec.table_prefix "wp_")
    ∷ secret_env "WORDPRESS_DB_PASSWORD" (secret_name site) password_key
    ∷ map (λ k. secret_env k (secret_name site) k) salt_keys

unfoldable pub config_extra_env : WordPressSite → List EnvVar
config_extra_env site =
    if is_empty site.spec.php_config
    then []
    else plain_env "WORDPRESS_CONFIG_EXTRA" site.spec.php_config ∷ []

-- The entries that the operator generates, in front of those of the spec.
unfoldable pub generated_env : WordPressSite → String → String → List EnvVar
generated_env site db_host db_port = fixed_env site db_host db_port ++ config_extra_env site

unfoldable pub probe : ℕ → Probe
probe initial = record {
  path = "/wp-login.php";
  port = 80;
  initial_delay = initial;
  period = 15;
  timeout = 5;
  failure_threshold = 6;
}

unfoldable pub volume_mounts : WordPressSite → List VolumeMount
volume_mounts site =
    record {
      name = "site-data";
      mount_path = "/var/www/html";
      sub_path = sub_path site;
      read_only = false;
    }
    ∷ record {
      name = "php-config";
      mount_path = php_mount_path;
      sub_path = php_ini_file_name;
      read_only = true;
    }
    ∷ (if force_https_enabled site
        then record {
          name = "php-config";
          mount_path = forwarded_proto_mount;
          sub_path = forwarded_proto_file;
          read_only = true;
        }
          ∷ []
        else [])

unfoldable pub volumes : Defaults → WordPressSite → List Volume
volumes d site =
    record { name = "site-data"; source = claim (shared_pvc_name d site) }
    ∷ record { name = "php-config"; source = config_map (php_config_map_name site) }
    ∷ []

unfoldable pub post_start : WordPressSite → Option (List String)
post_start site =
    if force_https_enabled site then some ("sh" ∷ "-c" ∷ forwarded_proto_post_start ∷ []) else none

unfoldable pub desired_deployment :
    (String → List ℕ) → Defaults → WordPressSite → String → String → Objects.Deployment
unfolding volume_mounts volumes post_start probe selector
desired_deployment sha256 d site db_host db_port = record {
  meta = new_meta site.meta.name site.meta.namespace (labels site) [];
  replicas = replica_count site;
  selector = selector site;
  strategy = recreate;
  pod_labels = labels site;
  pod_annotations = ("wp.benji.dev/php-ini-hash", php_ini_hash sha256 site) ∷ [];
  container = record {
    name = "wordpress";
    image = or_default site.spec.image "wordpress:latest";
    port = 80;
    env = generated_env site db_host db_port ++ site.spec.env;
    volume_mounts = volume_mounts site;
    resources = site.spec.resources;
    readiness = probe 20;
    liveness = probe 60;
    post_start = post_start site;
  };
  volumes = volumes d site;
}

-- DesiredService of service.go
unfoldable pub desired_service : WordPressSite → Service
unfolding selector
desired_service site = record {
  meta = new_meta site.meta.name site.meta.namespace (labels site) [];
  kind = "ClusterIP";
  selector = selector site;
  port_name = "http";
  port = 80;
  target_port = 80;
  protocol = "TCP";
}
