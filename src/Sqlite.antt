-- ===== src/Sqlite.antt =====
-- internal/sqlite/provisioner.go: one database file for each site. The SQL driver, the file system and
-- the order in which Go ranges over a map are parameters.
pub mod Paths
pub mod Records
use Prim.Native.String.{◌++◌}
use wordpress_manager_operat.Prelude.{
  ℕ, String, Bool, ◌||◌, nat_eq, List, [], ◌∷◌, Error, failure, Result, ok, err, Exec, ◌>>=◌, ◌>>◌,
  attempt, lift, pure, raise, if◌then◌else◌,
}
use wordpress_manager_operat.Text.{is_empty, contains_any}
use wordpress_manager_operat.Maps.{Map}
use wordpress_manager_operat.Mysql.{or_wrap}

-- os.MkdirAll, os.Remove and os.IsNotExist, filepath.Join, fmt's %q, database/sql with its statements and
-- their arguments, and the order of a range over a map.
pub record Driver (W Conn : Type 0) : Type 0 where
  pub mkdir_all : String → Exec W (Unit {0})
  pub remove : String → Exec W (Unit {0})
  pub is_not_exist : Error → Bool
  pub join : String → String → String
  pub quote : String → String
  pub sql_open : String → Exec W Conn
  pub exec : Conn → String → List String → Exec W (Unit {0})
  pub close : Conn → W → W
  pub range : W → Map String → Map String

pub record Provisioner : Type 0 where
  pub dir : String

abbrev pub create_meta : String
create_meta = "CREATE TABLE IF NOT EXISTS _wpmgr_meta (k TEXT PRIMARY KEY, v TEXT)"

abbrev pub upsert_meta : String
upsert_meta = "INSERT INTO _wpmgr_meta(k, v) VALUES(?, ?) ON CONFLICT(k) DO UPDATE SET v=excluded.v"

abbrev pub is_path_char : ℕ → Bool
is_path_char n = nat_eq n b'/' || nat_eq n 92 || nat_eq n b'.'

-- The map that EnsureDatabase ranges over.
abbrev pub owner : String → String → Map String
owner user host = ("db_user", user) ∷ ("db_host", host) ∷ []

module _ {W Conn : Type 0} (d : Driver W Conn) where
  -- New
  unfoldable pub new_provisioner : String → Exec W Provisioner
  new_provisioner dir =
      attempt (d.mkdir_all dir) (or_wrap "create sqlite dir: " (λ _. pure (record { dir = dir })))

  unfoldable pub path : Provisioner → String → Result String
  path p db_name =
      if is_empty db_name || contains_any is_path_char db_name
      then err (failure ("invalid sqlite database name " ++ d.quote db_name))
      else ok (d.join p.dir (db_name ++ ".db"))

  -- The loop over the map, in the order of the range.
  unfoldable pub record_all : Conn → Map String → Exec W (Unit {0})
  record_all db [] = pure tt
  record_all db ((k, v) ∷ rest) = d.exec db upsert_meta (k ∷ v ∷ []) >> record_all db rest

  unfoldable pub record_owner : Conn → String → String → Exec W (Unit {0})
  unfolding record_all
  record_owner db user host =
      d.exec db create_meta [] >> λ w. record_all db (d.range w (owner user host)) w

  -- `defer db.Close()` round the statements.
  unfoldable pub with_file : String → String → Conn → Exec W (Unit {0})
  unfolding record_owner
  with_file user host db w =
      ((record_owner db user host w).0, d.close db (record_owner db user host w).1)

  unfoldable pub ensure_database :
      Provisioner → String → String → String → String → Exec W (Unit {0})
  unfolding path with_file
  ensure_database p db_name user host password = do
    file ← lift (path p db_name)
    db ← d.sql_open file
    with_file user host db

  abbrev pub after_remove : Result (Unit {0}) → Exec W (Unit {0})
  after_remove (ok _) = pure tt
  after_remove (err e) = if d.is_not_exist e then pure tt else raise e

  unfoldable pub drop_database : Provisioner → String → String → String → Exec W (Unit {0})
  unfolding path
  drop_database p db_name user host = do
    file ← lift (path p db_name)
    attempt (d.remove file) after_remove
