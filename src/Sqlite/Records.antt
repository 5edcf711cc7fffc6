-- ===== src/Sqlite/Records.antt =====
-- What the provisioner does to the file of a site.
use wordpress_manager_operat.Prelude.{
  String, ◌≡◌, ◌↔◌, ap, sym, ◌∙◌, true, Bool-cases, inl, inr, [], ◌∷◌, Result, ok, err, >>=-ok,
  lift,
}
use mathlib.Core.List.{Perm}
use wordpress_manager_operat.Maps.{Map}
use wordpress_manager_operat.Sqlite.{
  Driver, Provisioner, create_meta, upsert_meta, owner, path, record_all, record_owner, with_file,
  ensure_database, after_remove, drop_database,
}

module _ {W Conn : Type 0} (d : Driver W Conn) where
  -- Rows that were written, one after another.
  pub data Recorded (db : Conn) : Map String → W → W → Type 0 where
    no_row : {w : W} → Recorded db [] w w
    row :
        {k v : String} {rest : Map String} {w w1 w2 : W}
        → d.exec db upsert_meta (k ∷ v ∷ []) w ≡ (ok tt, w1)
        → Recorded db rest w1 w2
        → Recorded db ((k, v) ∷ rest) w w2

  record_all-Recorded :
      (db : Conn) (m : Map String) {w w' : W}
      → record_all d db m w ≡ (ok tt, w')
      → Recorded db m w w'
  unfolding record_all
  record_all-Recorded db [] {w} h = let e = ap (λ p. p.1) h in rw (← e) no_row
  record_all-Recorded db ((k, v) ∷ rest) {w} h =
      let (_, w1, first, others) =
        >>=-ok (d.exec db upsert_meta (k ∷ v ∷ [])) (λ _. record_all d db rest) w h in
      row first (record_all-Recorded db rest others)

  -- The file was opened, and the owner was written into it, in some order of its two rows.
  pub record Provisioned (p : Provisioner) (db_name user host : String) (w w' : W) : Type 0 where
    pub file : String
    pub db : Conn
    pub opened : W
    pub created : W
    pub finished : W
    pub rows : Map String
    pub path_ok : path d p db_name ≡ ok file
    pub open_ok : d.sql_open file w ≡ (ok db, opened)
    pub create_ok : d.exec db create_meta [] opened ≡ (ok tt, created)
    pub owned : Perm rows (owner user host)
    pub recorded : Recorded db rows created finished
    pub closed : w' ≡ d.close db finished

  -- With a range over a map that meets every entry once, EnsureDatabase succeeds only when the name has
  -- a file, which it opened and in which it wrote the user and the host of the site; then it was closed.
  pub ensure_database-Provisioned :
      (range : (w : W) (m : Map String) → Perm (d.range w m) m) (p : Provisioner)
      (db_name user host password : String) (w w' : W)
      → ensure_database d p db_name user host password w ≡ (ok tt, w')
      → Provisioned p db_name user host w w'
  unfolding ensure_database with_file record_owner
  ensure_database-Provisioned range p db_name user host password w w' h =
      let (file, w0, found, h0) = >>=-ok (lift (path d p db_name)) _ w h in
      let (db, w1, opened, h1) = >>=-ok (d.sql_open file) _ w0 h0 in
      let same : w ≡ w0 = ap (λ q. q.1) found in
      let ran : record_owner d db user host w1 ≡ (ok tt, (record_owner d db user host w1).1) =
        λ i. ((h1 i).0, (record_owner d db user host w1).1) in
      let (_, w2, made, h2) =
        >>=-ok (d.exec db create_meta []) (λ _ v. record_all d db (d.range v (owner user host)) v)
          w1 ran in
      record {
        file = file;
        db = db;
        opened = w1;
        created = w2;
        finished = (record_owner d db user host w1).1;
        rows = d.range w2 (owner user host);
        path_ok = ap (λ q. q.0) found;
        open_ok = rw same opened;
        create_ok = made;
        owned = range w2 (owner user host);
        recorded = record_all-Recorded db _ h2;
        closed = sym (ap (λ q. q.1) h1);
      }

  -- A file that was removed, or was not there.
  abbrev pub Gone : Result (Unit {0}) → Type 0
  Gone (ok _) = Unit
  Gone (err e) = d.is_not_exist e ≡ true

  after_remove_iff :
      (r : Result (Unit {0})) (w w' : W) → (after_remove d r w ≡ (ok tt, w')) ↔ (Gone r × (w ≡ w'))
  after_remove_iff (ok _) w w' = (λ h. (tt, ap (λ p. p.1) h), λ (_, e). ap (λ v. (ok tt, v)) e)
  after_remove_iff (err e) w w' = elim (Bool-cases (d.is_not_exist e)) [
    | inl missing ↦ (
      λ h. (missing, ap (λ p. p.1) (rw missing at h)),
      λ (_, s). rw missing (ap (λ v. (ok tt, v)) s),
    )
    | inr other ↦ (
      λ h. let bad = ap (λ p. p.0) (rw other at h) in cc,
      λ (gone, s). let bad = sym other ∙ gone in cc,
    )
  ]

  -- DropDatabase succeeds exactly when the name has a file that it removed, or that was not there.
  pub drop_database_iff :
      (p : Provisioner) (db_name user host : String) (w w' : W)
      → (drop_database d p db_name user host w ≡ (ok tt, w')) ↔ (
          (file : String) × (path d p db_name ≡ ok file)
          × Gone (d.remove file w).0
          × ((d.remove file w).1 ≡ w'))
  unfolding drop_database
  drop_database_iff p db_name user host w w' = (
    λ h.
        let (file, w0, found, rest) = >>=-ok (lift (path d p db_name)) _ w h in
        let same : w ≡ w0 = ap (λ q. q.1) found in
        let (gone, left) = (after_remove_iff _ _ w').0 rest in
        (file, ap (λ q. q.0) found, rw same gone, rw same left),
    λ (file, found, gone, left). rw found ((after_remove_iff _ _ w').1 (gone, left)),
  )
