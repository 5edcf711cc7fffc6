-- ===== src/Controller/Provisioning.antt =====
-- The reconciler with the MySQL provisioner as its database.

use wordpress_manager_operat.Prelude.{◌≡◌, false, ok}
use wordpress_manager_operat.Api.{WordPressSite}
use wordpress_manager_operat.Resources.Names.{database_name, database_user, database_host}
use wordpress_manager_operat.Resources.Objects.{Secret}
use wordpress_manager_operat.Resources.Secret.{value_at, password_key}
use wordpress_manager_operat.Controller.{ensure_secret, ensure_site_database, reconcile_live, done}
use wordpress_manager_operat.Controller.Interface.{Cluster, Database, Reconciler}
use wordpress_manager_operat.Controller.Progress.{reconcile_live_iff}
use wordpress_manager_operat.Controller.Secrets.{KeepsData, IsComplete, ensure_secret-IsComplete}
use wordpress_manager_operat.Mysql.{
  Config, Driver, escape_string, ensure_stmts, ensure_database, drop_database,
}
use wordpress_manager_operat.Mysql.Runs.{Finished, ensure_database_iff}

-- The provisioner as the interface `Database`.
abbrev pub mysql_database : {W Conn : Type 0} → Driver W Conn → Config → Database W
mysql_database d cfg = record {
  ensure_database = ensure_database d cfg;
  drop_database = drop_database d cfg;
}

module _ {W Conn : Type 0} (c : Cluster W) (d : Driver W Conn) (cfg : Config) (r : Reconciler)
    (k : KeepsData c) where
  -- A complete Secret was read or made, and then the database and the user of the site were created on
  -- the server, with the password of that Secret.
  pub record Provisioned (site : WordPressSite) (w : W) : Type 0 where
    pub secret : Secret
    pub w1 : W
    pub w2 : W
    pub ensured : ensure_secret c (mysql_database d cfg) r site w ≡ (ok secret, w1)
    pub complete : IsComplete secret
    pub statements :
        Finished d cfg
          (database_name site)
          (database_user site)
          (ensure_stmts
            (database_name site)
            (database_user site)
            (database_host site)
            (escape_string (value_at password_key secret.entries)))
          w1
          w2

  -- With a client that keeps the data of Secrets, a reconciliation of a site that is not suspended ends,
  -- with no error and no retry, only after the five statements ran on the MySQL server, with the names
  -- of the site and the password of a complete Secret.
  pub reconcile_live-Provisioned :
      (site : WordPressSite) (w w' : W)
      → site.spec.suspend ≡ false
      → reconcile_live c (mysql_database d cfg) r site w ≡ (ok done, w')
      → Provisioned site w
  unfolding ensure_site_database
  reconcile_live-Provisioned site w w' live h =
      let q = (reconcile_live_iff c (mysql_database d cfg) r site w w' live).0 h in
      record {
        secret = q.secret;
        w1 = q.w1;
        w2 = q.w2;
        ensured = q.ensured;
        complete =
            ensure_secret-IsComplete c (mysql_database d cfg) r k site q.secret w q.w1 q.ensured;
        statements =
            (ensure_database_iff d cfg (database_name site) (database_user site)
                (database_host site) (value_at password_key q.secret.entries) q.w1 q.w2).0
              q.database;
      }
