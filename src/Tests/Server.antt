-- ===== src/Tests/Server.antt =====
-- The theorems on what the provisioner leaves on the server, with a server that knows the statements
-- for one site.
use wordpress_manager_operat.Prelude.{
  String, ◌≡◌, ◌==◌, refl, sym, ap, true, false, none, List, [], ◌∷◌, failure, Result, ok, err,
  if◌then◌else◌,
}
use wordpress_manager_operat.Mysql.{
  Driver, create_user_sql, escape_string, escape_char, ensure_database, drop_database, ensure_stmts,
  drop_stmts, validate_ident, open_conn, with_conn, run_stmts,
}
use wordpress_manager_operat.Mysql.Server.{
  Server, Statement, print, execute, IsServer, ensure_statements, drop_statements, provision,
  unprovision, ensure_database_refines, drop_database_refines,
}
use wordpress_manager_operat.Mysql.Server.Wildcards.{ensure_database_beyond}
use wordpress_manager_operat.Tests.Mysql.{quote, config}

abbrev pub run : List Statement → String → Server → Result (Unit {0}) × Server
run [] sql v = (err (failure "syntax error"), v)
run (s ∷ ss) sql v = if sql == print s then (ok tt, execute s v) else run ss sql v

abbrev pub knowing : List Statement → Driver Server (Unit {0})
knowing ss = record {
  sql_open = λ dsn v. (ok tt, v);
  ping = λ db v. (ok tt, v);
  close = λ db v. v;
  exec = λ db sql v. run ss sql v;
  quote = quote;
}

abbrev pub nothing : Server
nothing = record { databases = λ m. false; password = λ v g. none; granted = λ m v g. false }

abbrev creating : List Statement
creating = ensure_statements "wp_blog" "wpu_blog" "%" "pw"

abbrev dropping : List Statement
dropping = drop_statements "wp_blog" "wpu_blog" "%"

creating-IsServer : IsServer (knowing creating) (λ v. v) creating
unfolding create_user_sql escape_string escape_char
creating-IsServer = record {
  opens = λ dsn w. refl;
  pings = λ db w. refl;
  closes = λ db w. refl;
  executes = (
    λ db w w' safe e. sym (ap (λ q. q.1) e),
    (
      λ db w w' safe e. sym (ap (λ q. q.1) e),
      (
        λ db w w' safe e. sym (ap (λ q. q.1) e),
        (λ db w w' safe e. sym (ap (λ q. q.1) e), (λ db w w' safe e. sym (ap (λ q. q.1) e), tt)),
      ),
    ),
  );
}

dropping-IsServer : IsServer (knowing dropping) (λ v. v) dropping
dropping-IsServer = record {
  opens = λ dsn w. refl;
  pings = λ db w. refl;
  closes = λ db w. refl;
  executes = (
    λ db w w' safe e. sym (ap (λ q. q.1) e),
    (λ db w w' safe e. sym (ap (λ q. q.1) e), (λ db w w' safe e. sym (ap (λ q. q.1) e), tt)),
  );
}

abbrev created : Server
created = provision "wp_blog" "wpu_blog" "%" "pw" nothing

ensure_database_refines_example :
    (ensure_database (knowing creating) config "wp_blog" "wpu_blog" "%" "pw" nothing).1 ≡ created
unfolding ensure_database ensure_stmts create_user_sql escape_string validate_ident open_conn
    with_conn run_stmts
ensure_database_refines_example =
    ensure_database_refines (knowing creating) (λ v. v) config "wp_blog" "wpu_blog" "%" "pw" nothing
      (ensure_database (knowing creating) config "wp_blog" "wpu_blog" "%" "pw" nothing).1
      creating-IsServer (refl, tt) refl

abbrev wild : List Statement
wild = ensure_statements "wp_a_b" "wpu_a_b" "%" "pw"

wild-IsServer : IsServer (knowing wild) (λ v. v) wild
unfolding create_user_sql escape_string escape_char
wild-IsServer = record {
  opens = λ dsn w. refl;
  pings = λ db w. refl;
  closes = λ db w. refl;
  executes = (
    λ db w w' safe e. sym (ap (λ q. q.1) e),
    (
      λ db w w' safe e. sym (ap (λ q. q.1) e),
      (
        λ db w w' safe e. sym (ap (λ q. q.1) e),
        (λ db w w' safe e. sym (ap (λ q. q.1) e), (λ db w w' safe e. sym (ap (λ q. q.1) e), tt)),
      ),
    ),
  );
}

ensure_database_beyond_example :
    ((ensure_database (knowing wild) config "wp_a_b" "wpu_a_b" "%" "pw" nothing).1).granted "wp_acb"
      "wpu_a_b" "%"
    ≡ true
unfolding ensure_database ensure_stmts create_user_sql escape_string validate_ident open_conn
    with_conn run_stmts
ensure_database_beyond_example =
    ensure_database_beyond (knowing wild) (λ v. v) config "wp_a" "b" "wpu_a_b" "%" "pw" "c" nothing
      (ensure_database (knowing wild) config "wp_a_b" "wpu_a_b" "%" "pw" nothing).1 wild-IsServer
      (refl, tt) refl

drop_database_refines_example :
    (drop_database (knowing dropping) config "wp_blog" "wpu_blog" "%" created).1
    ≡ unprovision "wp_blog" "wpu_blog" "%" created
unfolding drop_database drop_stmts validate_ident open_conn with_conn run_stmts
drop_database_refines_example =
    drop_database_refines (knowing dropping) (λ v. v) config "wp_blog" "wpu_blog" "%" created
      (drop_database (knowing dropping) config "wp_blog" "wpu_blog" "%" created).1 dropping-IsServer
      (refl, tt) refl
