-- ===== src/Mysql.antt =====
-- internal/mysql/provisioner.go: a database and a user for each site on the shared MySQL server.
-- The SQL driver (database/sql with go-sql-driver/mysql) is a parameter.
pub mod Literals
pub mod Idents
pub mod Account
pub mod Runs
pub mod Server
use Prim.Native.Char.{Char, code}
use Prim.Native.String
use Prim.Native.String.{◌++◌, len}
use wordpress_manager_operat.Prelude.{
  ℕ, String, Bool, ◌||◌, List, [], ◌∷◌, ltb, nat_eq, if◌then◌else◌, Error, failure, message, Result,
  ok, err, Exec, attempt, ◌>>=◌, ◌>>◌, lift,
}
use wordpress_manager_operat.Text.{between, is_empty}

-- fmt.Errorf with %w: an SQL error with a text in front. Nothing tests the kind of such an error.
abbrev pub wrap : String → Error → Error
wrap context e = failure (context ++ message e)

-- One character of `escapeString`, in front of the rest of its result.
unfoldable pub escape_char : Char → String → String
escape_char c rest =
    if nat_eq (code c) 39 || nat_eq (code c) 92
    then String.◌∷◌ "\\" (String.◌∷◌ c rest)
    else if nat_eq (code c) 0
    then String.◌∷◌ "\\" (String.◌∷◌ "0" rest)
    else if nat_eq (code c) 10
    then String.◌∷◌ "\\" (String.◌∷◌ "n" rest)
    else if nat_eq (code c) 13
    then String.◌∷◌ "\\" (String.◌∷◌ "r" rest)
    else String.◌∷◌ c rest

unfoldable pub escape_string : String → String
unfolding escape_char
escape_string String.[] = ""
escape_string (String.◌∷◌ c s) = escape_char c (escape_string s)

abbrev pub is_ident_char : ℕ → Bool
is_ident_char r = between b'a' b'z' r || between b'A' b'Z' r || between b'0' b'9' r || nat_eq r b'_'

-- The loop of `validateIdent`; `whole` is the text that the message quotes.
unfoldable pub check_chars : (String → String) → String → String → Result (Unit {0})
check_chars quote whole String.[] = ok tt
check_chars quote whole (String.◌∷◌ r s) =
    if is_ident_char (code r)
    then check_chars quote whole s
    else err (failure ("invalid character in identifier " ++ quote whole))

-- `quote` is fmt's %q.
unfoldable pub validate_ident : (String → String) → String → Result (Unit {0})
unfolding check_chars
validate_ident quote s =
    if is_empty s || ltb 64 (len s)
    then err (failure ("invalid identifier " ++ quote s))
    else check_chars quote s s

pub record Config : Type 0 where
  pub host : String
  pub port : String
  pub user : String
  pub password : String

unfoldable pub dsn : Config → String
dsn c =
    c.user ++ ":" ++ c.password ++ "@tcp(" ++ c.host ++ ":" ++ c.port
    ++ ")/?parseTime=true&multiStatements=false"

-- The driver: sql.Open, PingContext (under its timeout), Close, ExecContext, and fmt's %q.
pub record Driver (W Conn : Type 0) : Type 0 where
  pub sql_open : String → Exec W Conn
  pub ping : Conn → Exec W (Unit {0})
  pub close : Conn → W → W
  pub exec : Conn → String → Exec W (Unit {0})
  pub quote : String → String

-- A statement and the label that stands for it in an error.
abbrev pub Stmt : Type 0
Stmt = String × String

unfoldable pub create_user_sql : String → String → String → String
create_user_sql user host esc_pass =
    "CREATE USER IF NOT EXISTS '" ++ user ++ "'@'" ++ host ++ "' IDENTIFIED BY '" ++ esc_pass ++ "'"

-- The statements of EnsureDatabase, `esc_pass` already escaped.
unfoldable pub ensure_stmts : String → String → String → String → List Stmt
unfolding create_user_sql
ensure_stmts db_name user host esc_pass =
    (
      "CREATE DATABASE IF NOT EXISTS `" ++ db_name
          ++ "` CHARACTER SET utf8mb4 COLLATE utf8mb4_unicode_ci",
      "mysql create database: ",
    )
    ∷ (create_user_sql user host esc_pass, "mysql create user: ")
    ∷ (
      "ALTER USER '" ++ user ++ "'@'" ++ host ++ "' IDENTIFIED BY '" ++ esc_pass ++ "'",
      "mysql alter user: ",
    )
    ∷ (
      "GRANT ALL PRIVILEGES ON `" ++ db_name ++ "`.* TO '" ++ user ++ "'@'" ++ host ++ "'",
      "mysql grant: ",
    )
    ∷ ("FLUSH PRIVILEGES", "mysql flush privileges: ")
    ∷ []

-- The statements of DropDatabase; a failure quotes the statement itself.
unfoldable pub drop_stmts : (String → String) → String → String → String → List Stmt
drop_stmts quote db_name user host =
    let drop_db = "DROP DATABASE IF EXISTS `" ++ db_name ++ "`" in
    let drop_user = "DROP USER IF EXISTS '" ++ user ++ "'@'" ++ host ++ "'" in
    (drop_db, "mysql exec " ++ quote drop_db ++ ": ")
    ∷ (drop_user, "mysql exec " ++ quote drop_user ++ ": ")
    ∷ ("FLUSH PRIVILEGES", "mysql exec " ++ quote "FLUSH PRIVILEGES" ++ ": ")
    ∷ []

-- A failure is reported with a text in front, and ends the caller.
abbrev pub or_wrap {ℓ} : {W A B : Type ℓ} → String → (A → Exec W B) → Result A → Exec W B
or_wrap context f (ok a) w = f a w
or_wrap context f (err e) w = (err (wrap context e), w)

module _ {W Conn : Type 0} (d : Driver W Conn) where
  -- The loop over the statements: it stops at the first that fails.
  unfoldable pub run_stmts : Conn → List Stmt → Exec W (Unit {0})
  run_stmts db [] w = (ok tt, w)
  run_stmts db ((sql, context) ∷ rest) w =
      attempt (d.exec db sql) (or_wrap context (λ _. run_stmts db rest)) w

  -- A connection that does not answer is closed.
  abbrev after_ping : Conn → Result (Unit {0}) → Exec W Conn
  after_ping db (ok _) w = (ok db, w)
  after_ping db (err e) w = (err (wrap "ping mysql: " e), d.close db w)

  unfoldable pub open_conn : Config → Exec W Conn
  open_conn cfg = do db ← d.sql_open (dsn cfg); attempt (d.ping db) (after_ping db)

  -- `defer db.Close()` round the statements.
  unfoldable pub with_conn : Conn → List Stmt → Exec W (Unit {0})
  unfolding run_stmts
  with_conn db stmts w = ((run_stmts db stmts w).0, d.close db (run_stmts db stmts w).1)

  unfoldable pub ensure_database : Config → String → String → String → String → Exec W (Unit {0})
  unfolding validate_ident open_conn with_conn ensure_stmts
  ensure_database cfg db_name user host password = do
    lift (validate_ident d.quote db_name)
    lift (validate_ident d.quote user)
    db ← open_conn cfg
    with_conn db (ensure_stmts db_name user host (escape_string password))

  unfoldable pub drop_database : Config → String → String → String → Exec W (Unit {0})
  unfolding validate_ident open_conn with_conn drop_stmts
  drop_database cfg db_name user host = do
    lift (validate_ident d.quote db_name)
    lift (validate_ident d.quote user)
    db ← open_conn cfg
    with_conn db (drop_stmts d.quote db_name user host)
