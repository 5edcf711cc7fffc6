-- ===== src/Tests/Mysql.antt =====
-- The theorems on the provisioner, with a server that logs its statements.
use Prim.Native.String.{◌++◌, len}
use wordpress_manager_operat.Prelude.{
  String, ◌≡◌, ◌≢◌, ◌↔◌, ◌≤◌, refl, some, List, [], ◌∷◌, ◌==◌, Error, failure, ok, err,
  if◌then◌else◌,
}
use wordpress_manager_operat.Resources.Names.{database_name, database_user}
use wordpress_manager_operat.Mysql.{
  Config, Driver, wrap, escape_string, validate_ident, check_chars, create_user_sql, ensure_stmts,
  drop_stmts, open_conn, run_stmts, with_conn, ensure_database, drop_database,
}
use wordpress_manager_operat.Mysql.Literals.{scan, plain, scan-escape_string}
use wordpress_manager_operat.Mysql.Account.{read_account, read_account-ne_of_quote}
use wordpress_manager_operat.Mysql.Idents.{validate_ident-generated}
use wordpress_manager_operat.Mysql.Runs.{Finished, ensure_database_iff}
use wordpress_manager_operat.Tests.Sites.{blog}

abbrev pub quote : String → String
quote s = "\"" ++ s ++ "\""

abbrev Log : Type 0
Log = List String

-- A server that fails at one statement and runs every other.
abbrev pub driver : String → Driver Log (Unit {0})
driver broken = record {
  sql_open = λ dsn w. (ok tt, "open" ∷ w);
  ping = λ db w. (ok tt, w);
  close = λ db w. "close" ∷ w;
  exec = λ db sql w. (if sql == broken then err (failure "lost connection") else ok tt, sql ∷ w);
  quote = quote;
}

abbrev pub config : Config
config = record { host = "mysql"; port = "3306"; user = "root"; password = "root" }

scan-escape_string_example :
    scan plain (escape_string "it's \\ \n" ++ "' AND") ≡ some ("it's \\ \n", " AND")
scan-escape_string_example = scan-escape_string "it's \\ \n" " AND" refl

read_account-ne_of_quote_example :
    read_account (create_user_sql "u" "%' IDENTIFIED BY 'x" (escape_string "p"))
    ≢ some (record { user = "u"; host = "%' IDENTIFIED BY 'x"; password = "p" })
read_account-ne_of_quote_example =
    read_account-ne_of_quote "u" "%" " " "IDENTIFIED BY 'x" "p" (refl, tt) (refl, tt) refl

abbrev ident : String
ident = "wp_blog"

validate_ident-generated_example :
    (validate_ident quote (database_name blog) ≡ ok tt)
    × (validate_ident quote (database_user blog) ≡ ok tt)
    × (len (database_user blog) ≤ 32)
validate_ident-generated_example = validate_ident-generated quote blog refl refl

abbrev drop_log : Log
drop_log =
    "close" ∷ "FLUSH PRIVILEGES" ∷ "DROP USER IF EXISTS 'wpu_blog'@'%'"
    ∷ "DROP DATABASE IF EXISTS `wp_blog`" ∷ "open" ∷ []

drop_database-runs :
    drop_database (driver "") config "wp_blog" "wpu_blog" "%" [] ≡ (ok tt, drop_log)
unfolding drop_database validate_ident check_chars open_conn with_conn run_stmts drop_stmts
drop_database-runs = refl

abbrev ensure_log : Log
ensure_log = (ensure_database (driver "") config "wp_blog" "wpu_blog" "%" "p'w" []).1

ensure_database_iff_example :
    (ensure_database (driver "") config "wp_blog" "wpu_blog" "%" "p'w" [] ≡ (ok tt, ensure_log))
    ↔ Finished
        (driver "")
        config
        "wp_blog"
        "wpu_blog"
        (ensure_stmts "wp_blog" "wpu_blog" "%" (escape_string "p'w"))
        []
        ensure_log
ensure_database_iff_example =
    ensure_database_iff (driver "") config "wp_blog" "wpu_blog" "%" "p'w" [] ensure_log

abbrev stopped_log : Log
stopped_log =
    "CREATE DATABASE IF NOT EXISTS `wp_blog` CHARACTER SET utf8mb4 COLLATE utf8mb4_unicode_ci"
    ∷ "open" ∷ []

abbrev first_statement : String
first_statement =
    "CREATE DATABASE IF NOT EXISTS `wp_blog` CHARACTER SET utf8mb4 COLLATE utf8mb4_unicode_ci"

abbrev lost : Error
lost = wrap "mysql create database: " (failure "lost connection")
