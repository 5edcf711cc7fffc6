-- ===== src/Mysql/Server.antt =====
-- What the statements of the provisioner do to the server: an abstract state of databases, accounts
-- and privileges, and EnsureDatabase and DropDatabase as one step each on it.
pub mod Sharing
pub mod Wildcards
use Prim.Native.String
use Prim.Native.String.{◌++◌}
use Prim.Native.Char.{code}
use wordpress_manager_operat.Prelude.{
  String, nat_eq, ◌≡◌, refl, sym, ap, ◌∙◌, >>=-ok, Bool, not, ◌&&◌, ◌||◌, ◌==◌, true, false, Option,
  none, some, value_or, List, [], ◌∷◌, All, Result, ok, err, if◌then◌else◌,
}
use wordpress_manager_operat.Text.{AllChars}
use wordpress_manager_operat.Mysql.{
  Driver, Config, Stmt, create_user_sql, ensure_stmts, drop_stmts, escape_string, ensure_database,
  drop_database, validate_ident, open_conn, dsn, after_ping,
}
use wordpress_manager_operat.Mysql.Account.{IsOrdinary}
use wordpress_manager_operat.Mysql.Runs.{
  Ran, ran_all, ran_one, Finished, ensure_database_iff, drop_database_iff,
}

-- Which databases there are, the password of each account, by its user and its host, and whether an
-- account was granted all privileges by a name that fits the name of a database.
pub record Server : Type 0 where
  pub databases : String → Bool
  pub password : String → String → Option String
  pub granted : String → String → String → Bool

-- The statements, as MySQL documents them.
pub data Statement : Type 0 where
  create_database : String → Statement
  create_user alter_user : String → String → String → Statement
  grant : String → String → String → Statement
  drop_database_if : String → Statement
  drop_user : String → String → Statement
  flush : Statement

abbrev pub any_suffix : (String → Bool) → String → Bool
any_suffix f String.[] = f String.[]
any_suffix f (String.◌∷◌ d t) = let rest = any_suffix f t in f (String.◌∷◌ d t) || rest

-- The name of a database in a GRANT is a pattern: `_` stands for any character and `%` for any
-- characters. An identifier has no backslash, so that neither is escaped.
unfoldable pub fits : String → String → Bool
fits String.[] String.[] = true
fits String.[] (String.◌∷◌ d t) = false
fits (String.◌∷◌ c p) String.[] = nat_eq (code c) (code "%") && fits p String.[]
fits (String.◌∷◌ c p) (String.◌∷◌ d t) =
    let rest = λ (s : String). fits p s in
    if nat_eq (code c) (code "%")
    then any_suffix rest (String.◌∷◌ d t)
    else ((nat_eq (code c) (code "_") || nat_eq (code c) (code d)) && rest t)

abbrev pub is_account : String → String → String → String → Bool
is_account user host v g = (v == user) && (g == host)

abbrev pub execute : Statement → Server → Server
execute (create_database n) s = record s { databases = λ m. (m == n) || s.databases m }
execute (create_user user host p) s = record s {
  password = λ v g.
      if is_account user host v g then some (value_or (s.password v g) p) else s.password v g;
}
execute (alter_user user host p) s = record s {
  password = λ v g. if is_account user host v g then some p else s.password v g;
}
execute (grant n user host) s = record s {
  granted = λ m v g. (fits n m && is_account user host v g) || s.granted m v g;
}
execute (drop_database_if n) s = record s { databases = λ m. not (m == n) && s.databases m }
execute (drop_user user host) s = record s {
  password = λ v g. if is_account user host v g then none else s.password v g;
  granted = λ m v g. not (is_account user host v g) && s.granted m v g;
}
execute flush s = s

abbrev pub IsIdent : (String → String) → String → Type 0
IsIdent quote n = validate_ident quote n ≡ ok tt

-- The text of a statement.
abbrev pub print : Statement → String
print (create_database n) =
    "CREATE DATABASE IF NOT EXISTS `" ++ n ++ "` CHARACTER SET utf8mb4 COLLATE utf8mb4_unicode_ci"
print (create_user user host p) = create_user_sql user host (escape_string p)
print (alter_user user host p) =
    "ALTER USER '" ++ user ++ "'@'" ++ host ++ "' IDENTIFIED BY '" ++ escape_string p ++ "'"
print (grant n user host) =
    "GRANT ALL PRIVILEGES ON `" ++ n ++ "`.* TO '" ++ user ++ "'@'" ++ host ++ "'"
print (drop_database_if n) = "DROP DATABASE IF EXISTS `" ++ n ++ "`"
print (drop_user user host) = "DROP USER IF EXISTS '" ++ user ++ "'@'" ++ host ++ "'"
print flush = "FLUSH PRIVILEGES"

-- Names and users are identifiers, and the host closes no literal.
abbrev pub IsSafe : (String → String) → Statement → Type 0
IsSafe quote (create_database n) = IsIdent quote n
IsSafe quote (create_user user host p) = IsIdent quote user × AllChars IsOrdinary host
IsSafe quote (alter_user user host p) = IsIdent quote user × AllChars IsOrdinary host
IsSafe quote (grant n user host) = IsIdent quote n × IsIdent quote user × AllChars IsOrdinary host
IsSafe quote (drop_database_if n) = IsIdent quote n
IsSafe quote (drop_user user host) = IsIdent quote user × AllChars IsOrdinary host
IsSafe quote flush = Unit

-- What a statement that succeeds does to what there is.
abbrev pub Executes : {W Conn : Type 0} → Driver W Conn → (W → Server) → Statement → Type 0
Executes {W} {Conn} d view s =
    (db : Conn) (w w' : W)
    → IsSafe d.quote s
    → d.exec db (print s) w ≡ (ok tt, w')
    → view w' ≡ execute s (view w)

-- A MySQL server, as far as it is given the statements `ss`: opening and closing connections change
-- nothing of what there is.
pub record IsServer {W Conn : Type 0} (d : Driver W Conn) (view : W → Server) (ss : List Statement)
    : Type 0 where
  pub opens : (dsn : String) (w : W) → view (d.sql_open dsn w).1 ≡ view w
  pub pings : (db : Conn) (w : W) → view (d.ping db w).1 ≡ view w
  pub closes : (db : Conn) (w : W) → view (d.close db w) ≡ view w
  pub executes : All (Executes d view) ss

abbrev pub ensure_statements : String → String → String → String → List Statement
ensure_statements n user host p =
    create_database n
    ∷ create_user user host p
    ∷ alter_user user host p
    ∷ grant n user host
    ∷ flush
    ∷ []

abbrev pub drop_statements : String → String → String → List Statement
drop_statements n user host = drop_database_if n ∷ drop_user user host ∷ flush ∷ []

-- EnsureDatabase in one step: the database is there, the account has the password, whether it was
-- there or not, and all privileges on every database whose name the name fits; nothing else changes.
abbrev pub provision : String → String → String → String → Server → Server
provision n user host p s = record {
  databases = λ m. (m == n) || s.databases m;
  password = λ v g. if is_account user host v g then some p else s.password v g;
  granted = λ m v g. (fits n m && is_account user host v g) || s.granted m v g;
}

-- DropDatabase in one step.
abbrev pub unprovision : String → String → String → Server → Server
unprovision n user host s = record {
  databases = λ m. not (m == n) && s.databases m;
  password = λ v g. if is_account user host v g then none else s.password v g;
  granted = λ m v g. not (is_account user host v g) && s.granted m v g;
}

if_again :
    (b : Bool) (x y z : Option String)
    → (if b then x else (if b then y else z)) ≡ (if b then x else z)
if_again true x y z = refl
if_again false x y z = refl

ensure_steps :
    (n user host p : String) (s : Server)
    → execute (grant n user host) (
        execute
          (alter_user user host p)
          (execute (create_user user host p) (execute (create_database n) s)))
      ≡ provision n user host p s
ensure_steps n user host p s = λ i. record {
  databases = λ m. (m == n) || s.databases m;
  password = λ v g.
      if_again (is_account user host v g) (some p) (some (value_or (s.password v g) p))
        (s.password v g) i;
  granted = λ m v g. (fits n m && is_account user host v g) || s.granted m v g;
}

-- The texts of statements, each with a label beside it.
abbrev Prints : (String → String) → List Stmt → List Statement → Type 0
Prints quote [] [] = Unit
Prints quote ((sql, label) ∷ rest) (s ∷ ss) =
    (sql ≡ print s) × IsSafe quote s × Prints quote rest ss
Prints quote _ _ = ⊥

execute_all : List Statement → Server → Server
execute_all [] v = v
execute_all (s ∷ ss) v = execute_all ss (execute s v)

module _ {W Conn : Type 0} (d : Driver W Conn) (view : W → Server) where
  Ran-view :
      (db : Conn) (stmts : List Stmt) (ss : List Statement) {w w' : W}
      → Ran d db stmts w w'
      → All (Executes d view) ss
      → Prints d.quote stmts ss
      → view w' ≡ execute_all ss (view w)
  unfolding execute_all
  Ran-view db [] [] ran_all k h = refl
  Ran-view db [] (s ∷ ss) ran_all k h = absurd h
  Ran-view db ((sql, label) ∷ rest) [] (ran_one e r) k h = absurd h
  Ran-view db ((sql, label) ∷ rest) (s ∷ ss) {w} (ran_one e r) (runs, k) (text, safe, more) =
      Ran-view db rest ss r k more
      ∙ ap (execute_all ss) (runs db w _ safe (ap (λ q. d.exec db q w) (sym text) ∙ e))

  after_ping_stays :
      (db db' : Conn) (r : Result (Unit {0})) (w w' : W)
      → after_ping d db r w ≡ (ok db', w')
      → w' ≡ w
  after_ping_stays db db' (ok u) w w' h = sym (ap (λ p. p.1) h)
  after_ping_stays db db' (err e) w w' h = let bad = ap (λ p. p.0) h in cc

  open_conn-view :
      (cfg : Config) (ss : List Statement) (db : Conn) (w w' : W)
      → IsServer d view ss
      → open_conn d cfg w ≡ (ok db, w')
      → view w' ≡ view w
  unfolding open_conn
  open_conn-view cfg ss db w w' k h =
      let (conn, w1, opened, rest) = >>=-ok (d.sql_open (dsn cfg)) _ w h in
      let left = after_ping_stays conn db (d.ping conn w1).0 (d.ping conn w1).1 w' rest in
      ap view left ∙ (k.pings conn w1 ∙ (ap (λ q. view q.1) (sym opened) ∙ k.opens (dsn cfg) w))

  Finished-view :
      (cfg : Config) (n user : String) (stmts : List Stmt) (ss : List Statement) (w w' : W)
      → IsServer d view ss
      → Finished d cfg n user stmts w w'
      → Prints d.quote stmts ss
      → view w' ≡ execute_all ss (view w)
  Finished-view cfg n user stmts ss w w' k f h =
      ap view f.closed
      ∙ (k.closes f.db f.finished
          ∙ (Ran-view f.db stmts ss f.ran k.executes h
              ∙ ap (execute_all ss) (open_conn-view cfg ss f.db w f.opened k f.open_ok)))

  -- On a server that does what MySQL documents of the statements, if EnsureDatabase succeeds, with a
  -- host without quotes and backslashes, then the database is there, and the account of the user and
  -- the host has the password, whether there was one or not, and all privileges on every database whose
  -- name the name of this one fits as a pattern; nothing else has changed.
  pub ensure_database_refines :
      (cfg : Config) (n user host p : String) (w w' : W)
      → IsServer d view (ensure_statements n user host p)
      → AllChars IsOrdinary host
      → ensure_database d cfg n user host p w ≡ (ok tt, w')
      → view w' ≡ provision n user host p (view w)
  unfolding ensure_stmts execute_all
  ensure_database_refines cfg n user host p w w' k safe h =
      let f = (ensure_database_iff d cfg n user host p w w').0 h in
      Finished-view cfg n user (ensure_stmts n user host (escape_string p))
        (ensure_statements n user host p) w w' k f
        (
          refl,
          f.name_valid,
          (
            refl,
            (f.user_valid, safe),
            (
              refl,
              (f.user_valid, safe),
              (refl, (f.name_valid, f.user_valid, safe), (refl, tt, tt)),
            ),
          ),
        )
      ∙ ensure_steps n user host p (view w)

  -- On a server that does what MySQL documents of the statements, if DropDatabase succeeds, with a
  -- host without quotes and backslashes, then the database is gone, and the account of the user and
  -- the host with its privileges; nothing else has changed.
  pub drop_database_refines :
      (cfg : Config) (n user host : String) (w w' : W)
      → IsServer d view (drop_statements n user host)
      → AllChars IsOrdinary host
      → drop_database d cfg n user host w ≡ (ok tt, w')
      → view w' ≡ unprovision n user host (view w)
  unfolding drop_stmts execute_all
  drop_database_refines cfg n user host w w' k safe h =
      let f = (drop_database_iff d cfg n user host w w').0 h in
      Finished-view cfg n user (drop_stmts d.quote n user host) (drop_statements n user host) w w' k
        f (refl, f.name_valid, (refl, (f.user_valid, safe), (refl, tt, tt)))
