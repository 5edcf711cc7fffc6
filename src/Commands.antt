-- ===== src/Commands.antt =====
-- cmd/operator/main.go and cmd/apiserver/main.go: the settings that the commands take from the
-- environment, and how they put the components together. The clients of Kubernetes and the libraries
-- are parameters; serving, signals and logging are left out.
pub mod Safety
pub mod Development
pub mod Rendering
use wordpress_manager_operat.Prelude.{
  ℕ, String, Bool, true, false, ◌==◌, Option, none, some, List, Result, Exec, attempt, ◌>>=◌, lift,
  pure, if◌then◌else◌,
}
use wordpress_manager_operat.Text.{is_empty}
use wordpress_manager_operat.Maps.{Map}
use wordpress_manager_operat.Resources.Names.{Defaults}
use wordpress_manager_operat.Controller.{reconcile}
use wordpress_manager_operat.Controller.Interface.{Cluster, Database, Reconciler}
use wordpress_manager_operat.Metrics.{Amounts, Listing, Provider}
use wordpress_manager_operat.Metrics.Kube.{kube_provider}
use wordpress_manager_operat.Metrics.Dev.{new_dev_provider, dev_provider}
use wordpress_manager_operat.Mysql.{Config, or_wrap}
use wordpress_manager_operat.Sqlite
use wordpress_manager_operat.Apiserver.Interface.{Client}
use wordpress_manager_operat.Apiserver.TwoFa.{Totp, KubeTwoFa}
use wordpress_manager_operat.Apiserver.Login.{Crypto, Authenticator, new_authenticator}
use wordpress_manager_operat.Apiserver.Factors.{kube_two_factor}
use wordpress_manager_operat.Apiserver.Documents.{Yaml}
use wordpress_manager_operat.Apiserver.Status.{EventDto, Format, Diagnostics}
use wordpress_manager_operat.Apiserver.Routes.{App}

-- os.Getenv
abbrev pub Environment : Type 0
Environment = String → String

unfoldable pub env : Environment → String → String → String
env getenv key def = if is_empty (getenv key) then def else getenv key

-- The variables of internal/resources as they are declared.
abbrev pub declared_defaults : Defaults
declared_defaults = record { shared_pvc_name = "wordpress-shared"; ingress_class = "nginx" }

-- What the operator's main sets up.
pub record Operator : Type 0 where
  pub log_dev : Bool
  pub metrics_addr : String
  pub health_addr : String
  pub leader_elect : Bool
  pub mysql : Config
  pub reconciler : Reconciler

unfoldable pub operator : (String → List ℕ) → Environment → Operator
unfolding env
operator sha256 getenv = record {
  log_dev = env getenv "LOG_DEV" "false" == "true";
  metrics_addr = env getenv "METRICS_ADDR" ":8080";
  health_addr = env getenv "HEALTH_ADDR" ":8081";
  leader_elect = env getenv "LEADER_ELECT" "true" == "true";
  mysql = record {
    host = env getenv "MYSQL_HOST" "mysql";
    port = env getenv "MYSQL_PORT" "3306";
    user = env getenv "MYSQL_ADMIN_USER" "root";
    password = getenv "MYSQL_ADMIN_PASSWORD";
  };
  reconciler = record {
    db_host = env getenv "MYSQL_HOST" "mysql";
    db_port = env getenv "MYSQL_PORT" "3306";
    drop_data_on_delete = env getenv "DROP_DATA_ON_DELETE" "false" == "true";
    no_server_side_apply = false;
    defaults = record {
      shared_pvc_name = env getenv "SHARED_PVC_NAME" "wordpress-shared";
      ingress_class = env getenv "INGRESS_CLASS" "nginx";
    };
    sha256 = sha256;
  };
}

-- The reconciler of the development mode.
unfoldable pub dev_reconciler : (String → List ℕ) → Environment → Reconciler
unfolding env
dev_reconciler sha256 getenv = record {
  db_host = "127.0.0.1";
  db_port = env getenv "MYSQL_PORT" "3306";
  drop_data_on_delete = false;
  no_server_side_apply = true;
  defaults = declared_defaults;
  sha256 = sha256;
}

-- One client of Kubernetes, as each component uses it.
pub record Kube (W : Type 0) : Type 0 where
  pub cluster : Cluster W
  pub client : Client W
  pub listing : Listing W
  pub diagnostics : Diagnostics W

-- What the API server is built on: the fake client, ctrl.GetConfig and client.New, and the libraries.
pub record Platform (W Conn : Type 0) : Type 0 where
  pub fake : Kube W
  pub get_config : Exec W String
  pub new_client : String → Exec W (Kube W)
  pub sqlite : Sqlite.Driver W Conn
  pub hashed : String → Result String
  pub crypto : Crypto
  pub totp : Totp W
  pub now : W → ℕ
  pub yaml : Yaml
  pub sha256 : String → List ℕ
  pub order : Map Amounts → Map Amounts
  pub format : Format
  pub sort : (EventDto → EventDto → Bool) → List EventDto → List EventDto

-- What the first half of main chooses: a client, the reconciler of the development mode, and a provider
-- of metrics.
pub record Backend (W : Type 0) : Type 0 where
  pub kube : Kube W
  pub reconcile : Option (String → String → Exec W (Unit {0}))
  pub metrics : Provider W

unfoldable pub two_fa : Environment → KubeTwoFa
unfolding env
two_fa getenv = record {
  namespace = env getenv "TWOFA_NAMESPACE" "wordpress-system";
  secret_name = env getenv "TWOFA_SECRET_NAME" "wordpress-admin-2fa";
  issuer = env getenv "TWOFA_ISSUER" "WordPress Manager";
  account = env getenv "ADMIN_USERNAME" "admin";
}

module _ {W Conn : Type 0} (p : Platform W Conn) (getenv : Environment) where
  abbrev pub sites_namespace : String
  sites_namespace = env getenv "SITES_NAMESPACE" "wordpress-sites"

  -- The provisioner as the interface `Database`.
  abbrev pub sqlite_database : Sqlite.Provisioner → Database W
  sqlite_database prov = record {
    ensure_database = Sqlite.ensure_database p.sqlite prov;
    drop_database = Sqlite.drop_database p.sqlite prov;
  }

  abbrev pub dev_backend : Sqlite.Provisioner → Backend W
  dev_backend prov = record {
    kube = p.fake;
    reconcile = some (λ ns name.
        reconcile p.fake.cluster (sqlite_database prov) (dev_reconciler p.sha256 getenv)
          (record { namespace = ns; name = name })
        >>= λ _. pure tt);
    metrics = dev_provider p.fake.listing (new_dev_provider sites_namespace);
  }

  abbrev pub kube_backend : Kube W → Backend W
  kube_backend k = record {
    kube = k;
    reconcile = none;
    metrics = kube_provider k.listing p.order sites_namespace;
  }

  -- A failure is fatal, with a text in front.
  unfoldable pub backend : Exec W (Backend W)
  unfolding env
  backend =
      if env getenv "DEV_MODE" "" == "true"
      then attempt (Sqlite.new_provisioner p.sqlite (env getenv "SQLITE_DIR" "./.dev/sqlite"))
          (or_wrap "sqlite provisioner: " (λ prov. pure (dev_backend prov)))
      else attempt p.get_config (
          or_wrap "load kubeconfig: " (λ cfg.
            attempt (p.new_client cfg)
              (or_wrap "create k8s client: " (λ k. pure (kube_backend k)))))

  -- 24 hours is the life of a token.
  unfoldable pub authenticator : Result Authenticator
  unfolding env
  authenticator =
      new_authenticator p.hashed (env getenv "ADMIN_USERNAME" "admin")
        (getenv "ADMIN_PASSWORD_HASH") (getenv "ADMIN_PASSWORD") (getenv "JWT_SECRET") 86400

  unfoldable pub app_of : Backend W → Authenticator → App W
  unfolding two_fa env
  app_of b auth = record {
    client = b.kube.client;
    server = record {
      namespace = sites_namespace;
      db_host = env getenv "MYSQL_HOST" "mysql";
      db_port = env getenv "MYSQL_PORT" "3306";
      reconcile = b.reconcile;
    };
    auth = auth;
    metrics = some b.metrics;
    two_fa = some (kube_two_factor b.kube.client p.totp (two_fa getenv));
    crypto = p.crypto;
    now = p.now;
    yaml = p.yaml;
    sha256 = p.sha256;
    defaults = declared_defaults;
    diagnostics = b.kube.diagnostics;
    format = p.format;
    sort = p.sort;
  }

  unfoldable pub apiserver : Exec W (App W)
  unfolding backend authenticator app_of
  apiserver = backend >>= λ b.
      attempt (lift authenticator) (or_wrap "auth setup: " (λ auth. pure (app_of b auth)))
