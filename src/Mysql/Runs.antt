-- ===== src/Mysql/Runs.antt =====
-- What the provisioner runs on the server: all statements in order, or none behind a failure.
use mathlib.Core.Path.{subst}
use wordpress_manager_operat.Prelude.{
  String, ◌≡◌, refl, ap, sym, ◌∙◌, ◌≢◌, err_injective, >>=-ok, continue_ok, ◌>>=◌, ◌>>◌, lift, ◌↔◌,
  List, [], ◌∷◌, ◌++◌, Error, Result, ok, err, Exec, ◌⊎◌, inl, inr,
}
use wordpress_manager_operat.Mysql.{
  Driver, Stmt, Config, wrap, validate_ident, escape_string, ensure_stmts, drop_stmts, run_stmts,
  open_conn, with_conn, ensure_database, drop_database,
}

module _ {W Conn : Type 0} (d : Driver W Conn) where
  -- Every statement of a list was run, in order, and succeeded.
  pub data Ran (db : Conn) : List Stmt → W → W → Type 0 where
    ran_all : {w : W} → Ran db [] w w
    ran_one :
        {sql label : String} {rest : List Stmt} {w w' w'' : W}
        → d.exec db sql w ≡ (ok tt, w')
        → Ran db rest w' w''
        → Ran db ((sql, label) ∷ rest) w w''

  -- A statement failed, and those in front of it had run.
  pub record Stopped (db : Conn) (stmts : List Stmt) (w w' : W) (e : Error) : Type 0 where
    pub before : List Stmt
    pub sql : String
    pub label : String
    pub after : List Stmt
    pub reached : W
    pub cause : Error
    pub order : stmts ≡ before ++ (sql, label) ∷ after
    pub ran : Ran db before w reached
    pub failed : d.exec db sql reached ≡ (err cause, w')
    pub reported : e ≡ wrap label cause

  run_ok :
      (db : Conn) (stmts : List Stmt) (w w' : W)
      → run_stmts d db stmts w ≡ (ok tt, w')
      → Ran db stmts w w'
  unfolding run_stmts
  run_ok db [] w w' h = subst (λ x. Ran db [] w x) (ap (λ p. p.1) h) ran_all
  run_ok db ((sql, label) ∷ rest) w w' h = go (d.exec db sql w) refl (λ w1. run_ok db rest w1 w')
    where
      go :
          (r : Result (Unit {0}) × W)
          → d.exec db sql w ≡ r
          → ((w1 : W) → run_stmts d db rest w1 ≡ (ok tt, w') → Ran db rest w1 w')
          → Ran db ((sql, label) ∷ rest) w w'
      go (ok u, w1) e ih = ran_one e (ih w1 (rw e at h))
      go (err x, w1) e ih = let bad = ap (λ p. p.0) (rw e at h) in cc

  run_of_Ran :
      (db : Conn) {stmts : List Stmt} {w w' : W}
      → Ran db stmts w w'
      → run_stmts d db stmts w ≡ (ok tt, w')
  unfolding run_stmts
  run_of_Ran db ran_all = refl
  run_of_Ran db (ran_one e r) = rw e (run_of_Ran db r)

  run_err :
      (db : Conn) (stmts : List Stmt) (w w' : W) (e : Error)
      → run_stmts d db stmts w ≡ (err e, w')
      → Stopped db stmts w w' e
  unfolding run_stmts
  run_err db [] w w' e h = let bad = ap (λ p. p.0) h in cc
  run_err db ((sql, label) ∷ rest) w w' e h =
      go (d.exec db sql w) refl (λ w1. run_err db rest w1 w' e)
    where
      later :
          (w1 : W)
          → d.exec db sql w ≡ (ok tt, w1)
          → Stopped db rest w1 w' e
          → Stopped db ((sql, label) ∷ rest) w w' e
      later w1 here s = record {
        before = (sql, label) ∷ s.before;
        sql = s.sql;
        label = s.label;
        after = s.after;
        reached = s.reached;
        cause = s.cause;
        order = ap (λ r. (sql, label) ∷ r) s.order;
        ran = ran_one here s.ran;
        failed = s.failed;
        reported = s.reported;
      }

      go :
          (r : Result (Unit {0}) × W)
          → d.exec db sql w ≡ r
          → ((w1 : W) → run_stmts d db rest w1 ≡ (err e, w') → Stopped db rest w1 w' e)
          → Stopped db ((sql, label) ∷ rest) w w' e
      go (ok u, w1) here ih = later w1 here (ih w1 (rw here at h))
      go (err x, w1) here ih =
          let same = rw here at h in
          record {
            before = [];
            sql = sql;
            label = label;
            after = rest;
            reached = w;
            cause = x;
            order = refl;
            ran = ran_all;
            failed = here ∙ ap (λ v. (err x, v)) (ap (λ p. p.1) same);
            reported = sym (err_injective same);
          }

  -- A call succeeded: both identifiers are valid, a connection was opened, all the statements ran
  -- on it in order, and it was closed.
  pub record Finished (cfg : Config) (db_name user : String) (stmts : List Stmt) (w w' : W)
      : Type 0 where
    pub name_valid : validate_ident d.quote db_name ≡ ok tt
    pub user_valid : validate_ident d.quote user ≡ ok tt
    pub db : Conn
    pub opened : W
    pub finished : W
    pub open_ok : open_conn d cfg w ≡ (ok db, opened)
    pub ran : Ran db stmts opened finished
    pub closed : w' ≡ d.close db finished

  with_conn_inv :
      (db : Conn) (stmts : List Stmt) (w w' : W)
      → with_conn d db stmts w ≡ (ok tt, w')
      → (finished : W) × Ran db stmts w finished × (w' ≡ d.close db finished)
  unfolding with_conn
  with_conn_inv db stmts w w' h =
      let ended : run_stmts d db stmts w ≡ (ok tt, (run_stmts d db stmts w).1) =
        λ i. ((h i).0, (run_stmts d db stmts w).1) in
      (_, run_ok db stmts w _ ended, sym (ap (λ p. p.1) h))

  -- What both operations do with their statements.
  abbrev provision : Config → String → String → List Stmt → Exec W (Unit {0})
  provision cfg db_name user stmts = do
    lift (validate_ident d.quote db_name)
    lift (validate_ident d.quote user)
    db ← open_conn d cfg
    with_conn d db stmts

  provision_inv :
      (cfg : Config) (db_name user : String) (stmts : List Stmt) (w w' : W)
      → provision cfg db_name user stmts w ≡ (ok tt, w')
      → Finished cfg db_name user stmts w w'
  provision_inv cfg db_name user stmts w w' h =
      let (_, named, h1) = continue_ok _ (validate_ident d.quote db_name) w h in
      let (_, used, h2) = continue_ok _ (validate_ident d.quote user) w h1 in
      let (db, w1, open_ok, h3) = >>=-ok (open_conn d cfg) _ w h2 in
      let (w2, ran, closed) = with_conn_inv db stmts w1 w' h3 in
      record {
        name_valid = named;
        user_valid = used;
        db = db;
        opened = w1;
        finished = w2;
        open_ok = open_ok;
        ran = ran;
        closed = closed;
      }

  provision_of_Finished :
      (cfg : Config) (db_name user : String) (stmts : List Stmt) (w w' : W)
      → Finished cfg db_name user stmts w w'
      → provision cfg db_name user stmts w ≡ (ok tt, w')
  unfolding with_conn
  provision_of_Finished cfg db_name user stmts w w' f =
      rw (f.name_valid, f.user_valid, f.open_ok, run_of_Ran f.db f.ran, f.closed)

  provision_invalid :
      (cfg : Config) (db_name user : String) (stmts : List Stmt) (w : W)
      → (validate_ident d.quote db_name ≢ ok tt) ⊎ (validate_ident d.quote user ≢ ok tt)
      → ((provision cfg db_name user stmts w).1 ≡ w)
        × ((provision cfg db_name user stmts w).0 ≢ ok tt)
  provision_invalid cfg db_name user stmts w h =
      both (validate_ident d.quote db_name) (validate_ident d.quote user) h
    where
      both :
          (r s : Result (Unit {0}))
          → (r ≢ ok tt) ⊎ (s ≢ ok tt)
          → let m = (lift r >> (lift s >> (open_conn d cfg >>= λ db. with_conn d db stmts))) w in
            (m.1 ≡ w) × (m.0 ≢ ok tt)
      both (err e) s k = (refl, λ q. cc)
      both (ok u) (err e) k = (refl, λ q. cc)
      both (ok u) (ok v) (inl k) = absurd (k refl)
      both (ok u) (ok v) (inr k) = absurd (k refl)

  -- EnsureDatabase succeeds exactly when both identifiers are valid and a connection can be opened
  -- on which its five statements run, in order; then the connection is closed.
  pub ensure_database_iff :
      (cfg : Config) (db_name user host password : String) (w w' : W)
      → (ensure_database d cfg db_name user host password w ≡ (ok tt, w'))
        ↔ Finished cfg db_name user (ensure_stmts db_name user host (escape_string password)) w w'
  unfolding ensure_database
  ensure_database_iff cfg db_name user host password w w' =
      let stmts = ensure_stmts db_name user host (escape_string password) in
      (provision_inv cfg db_name user stmts w w', provision_of_Finished cfg db_name user stmts w w')

  -- DropDatabase succeeds exactly when both identifiers are valid and a connection can be opened on
  -- which its three statements run, in order; then the connection is closed.
  pub drop_database_iff :
      (cfg : Config) (db_name user host : String) (w w' : W)
      → (drop_database d cfg db_name user host w ≡ (ok tt, w'))
        ↔ Finished cfg db_name user (drop_stmts d.quote db_name user host) w w'
  unfolding drop_database
  drop_database_iff cfg db_name user host w w' =
      let stmts = drop_stmts d.quote db_name user host in
      (provision_inv cfg db_name user stmts w w', provision_of_Finished cfg db_name user stmts w w')

  -- Where the database name or the user is no identifier, EnsureDatabase and DropDatabase fail and
  -- leave the world as it is: no connection is opened and no statement is run.
  pub invalid_runs_nothing :
      (cfg : Config) (db_name user host password : String) (w : W)
      → (validate_ident d.quote db_name ≢ ok tt) ⊎ (validate_ident d.quote user ≢ ok tt)
      → ((ensure_database d cfg db_name user host password w).1 ≡ w)
        × ((ensure_database d cfg db_name user host password w).0 ≢ ok tt)
        × ((drop_database d cfg db_name user host w).1 ≡ w)
        × ((drop_database d cfg db_name user host w).0 ≢ ok tt)
  unfolding ensure_database drop_database
  invalid_runs_nothing cfg db_name user host password w h =
      let ensure = ensure_stmts db_name user host (escape_string password) in
      let drop = drop_stmts d.quote db_name user host in
      let (kept, failed) = provision_invalid cfg db_name user ensure w h in
      let (kept', failed') = provision_invalid cfg db_name user drop w h in
      (kept, failed, kept', failed')

  -- If EnsureDatabase fails once a connection is open, one of its statements failed: those in front
  -- of it had run, none behind it was run, and the connection was closed.
  pub ensure_database_stops :
      (cfg : Config) (db_name user host password : String) (w opened w' : W) (db : Conn) (e : Error)
      → validate_ident d.quote db_name ≡ ok tt
      → validate_ident d.quote user ≡ ok tt
      → open_conn d cfg w ≡ (ok db, opened)
      → ensure_database d cfg db_name user host password w ≡ (err e, w')
      → (finished : W) × Stopped db
          (ensure_stmts db_name user host (escape_string password))
          opened
          finished
          e
        × (w' ≡ d.close db finished)
  unfolding ensure_database with_conn
  ensure_database_stops cfg db_name user host password w opened w' db e hn hu ho h =
      let stmts = ensure_stmts db_name user host (escape_string password) in
      let h' = rw (hn, hu, ho) at h in
      let finished = (run_stmts d db stmts opened).1 in
      (
        finished,
        run_err db stmts opened finished e (λ i. ((h' i).0, finished)),
        sym (ap (λ p. p.1) h'),
      )
