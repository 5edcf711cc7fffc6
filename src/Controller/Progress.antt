-- ===== src/Controller/Progress.antt =====
-- What a reconciliation of a site that is not suspended went through when it ends, and what it
-- reports when a stage fails.
use Prim.Native.String.{◌++◌}
use wordpress_manager_operat.Prelude.{
  ◌≡◌, ◌↔◌, false, refl, ap, ◌∙◌, Error, message, Result, ok, err, List, [], ◌∷◌, Exec, >>=-ok,
  pure,
}
use wordpress_manager_operat.Api.{WordPressSite, phase_ready, phase_provisioning, phase_error}
use wordpress_manager_operat.Resources.Objects.{Object, Secret}
use wordpress_manager_operat.Controller.Interface.{Cluster, Database, Reconciler}
use wordpress_manager_operat.Controller.{
  done, retry, fail, set_phase, with_status, apply, apply_all, workload_objects, reconcile_workload,
  ensure_secret, ensure_site_database, after_ensured, after_database, after_workload,
  reconcile_live,
}
use wordpress_manager_operat.Controller.Deletion.{retry-ne-done}

-- The objects of the list were applied without an error, in order and each in the world that the
-- one before it left.
pub data Applied {W : Type 0} (run : Object → Exec W (Unit {0}))
    : List Object → W → W → Type 0 where
  nothing : {w : W} → Applied run [] w w
  next :
      {o : Object} {os : List Object} {w w1 w2 : W}
      → run o w ≡ (ok tt, w1)
      → Applied run os w1 w2
      → Applied run (o ∷ os) w w2

module _ {W : Type 0} (c : Cluster W) (db : Database W) (r : Reconciler) where
  -- The stages of a reconciliation that ends, each in the world that the one before it left.
  pub record Ready (site : WordPressSite) (w w' : W) : Type 0 where
    pub secret : Secret
    pub w1 : W
    pub w2 : W
    pub w3 : W
    pub ensured : ensure_secret c db r site w ≡ (ok secret, w1)
    pub database : ensure_site_database c db r site secret w1 ≡ (ok tt, w2)
    pub applied : Applied (apply c db r site) (workload_objects c db r site) w2 w3
    pub reported :
        set_phase c db r (with_status site) phase_ready "Site reconciled" w3 ≡ (ok tt, w')

  apply_all-Applied :
      (site : WordPressSite) (os : List Object) {w w' : W}
      → apply_all c db r site os w ≡ (ok tt, w')
      → Applied (apply c db r site) os w w'
  unfolding apply_all
  apply_all-Applied site [] {w} h = let e = ap (λ p. p.1) h in rw (← e) nothing
  apply_all-Applied site (o ∷ os) {w} h =
      let (_, w1, first, rest) = >>=-ok (apply c db r site o) (λ _. apply_all c db r site os) w h in
      next first (apply_all-Applied site os rest)

  Applied-apply_all :
      (site : WordPressSite) {os : List Object} {w w' : W}
      → Applied (apply c db r site) os w w'
      → apply_all c db r site os w ≡ (ok tt, w')
  unfolding apply_all
  Applied-apply_all site nothing = refl
  Applied-apply_all site (next first rest) = rw first (Applied-apply_all site rest)

  after_database-Ready :
      (site : WordPressSite) (res : Result (Unit {0})) (w w' : W)
      → after_database c db r site res w ≡ (ok done, w')
      → (res ≡ ok tt)
        × (reconcile_workload c db r site w ≡ (ok tt, (reconcile_workload c db r site w).1))
        × (set_phase c db r
              (with_status site)
              phase_ready
              "Site reconciled"
              (reconcile_workload c db r site w).1
            ≡ (ok tt, w'))
  unfolding fail
  after_database-Ready site (err e) w w' h = absurd (retry-ne-done c db r h)
  after_database-Ready site (ok u) w w' h =
      finish (reconcile_workload c db r site w).0 (reconcile_workload c db r site w).1 h
    where
      finish :
          (x : Result (Unit {0})) (w2 : W)
          → after_workload c db r site x w2 ≡ (ok done, w')
          → (Path (Result (Unit {0})) (ok u) (ok tt))
            × (Path (Result (Unit {0}) × W) (x, w2) (ok tt, w2))
            × (set_phase c db r (with_status site) phase_ready "Site reconciled" w2 ≡ (ok tt, w'))
      finish (err e) w2 h = let bad = ap (λ p. p.0) h in cc
      finish (ok v) w2 h =
          let (_, w3, said, ended) =
            >>=-ok (set_phase c db r (with_status site) phase_ready "Site reconciled")
              (λ _. pure done) w2 h in
          (refl, refl, said ∙ (λ i. (ok tt, (ended i).1)))

  after_ensured-Ready :
      (site : WordPressSite) (res : Result Secret) (w w1 w' : W)
      → ensure_secret c db r site w ≡ (res, w1)
      → after_ensured c db r site res w1 ≡ (ok done, w')
      → Ready site w w'
  unfolding reconcile_workload fail
  after_ensured-Ready site (err e) w w1 w' s h = let bad = ap (λ p. p.0) h in cc
  after_ensured-Ready site (ok secret) w w1 w' s h =
      let d = ensure_site_database c db r site secret in
      let (fine, worked, said) = after_database-Ready site (d w1).0 (d w1).1 w' h in
      record {
        secret = secret;
        w1 = w1;
        w2 = (d w1).1;
        w3 = (reconcile_workload c db r site (d w1).1).1;
        ensured = s;
        database = λ i. (fine i, (d w1).1);
        applied = apply_all-Applied site (workload_objects c db r site) worked;
        reported = said;
      }

  -- A reconciliation of a site that is not suspended ends, with no error and no retry, exactly when
  -- the Secret was ensured, then the database with the password of that Secret, then every object
  -- of the workload was applied, and then the status was written with the phase Ready.
  pub reconcile_live_iff :
      (site : WordPressSite) (w w' : W)
      → site.spec.suspend ≡ false
      → (reconcile_live c db r site w ≡ (ok done, w')) ↔ Ready site w w'
  unfolding reconcile_live reconcile_workload
  reconcile_live_iff site w w' live = (
    λ h.
        after_ensured-Ready site (ensure_secret c db r site w).0 w (ensure_secret c db r site w).1
          w' refl (simp live at h),
    λ q. simp (live, q.ensured, q.database, Applied-apply_all site q.applied, q.reported),
  )

  -- Where the database cannot be ensured, the workload is left alone: the status is written with
  -- the phase Provisioning, and the site is tried again after 15 seconds even if that write fails.
  pub reconcile_live-retry :
      (site : WordPressSite) (secret : Secret) (w w1 w2 : W) (e : Error)
      → site.spec.suspend ≡ false
      → ensure_secret c db r site w ≡ (ok secret, w1)
      → ensure_site_database c db r site secret w1 ≡ (err e, w2)
      → reconcile_live c db r site w ≡ (
        ok retry,
        (set_phase c db r site phase_provisioning ("Waiting for MySQL: " ++ message e) w2).1,
      )
  unfolding reconcile_live
  reconcile_live-retry site secret w w1 w2 e live ensured failed = simp (live, ensured, failed)

  -- Where the workload cannot be applied, the error is reported twice: the status is written with
  -- the phase Error and the error behind the name of the stage, and the error is returned even if
  -- that write fails.
  pub reconcile_live-fail :
      (site : WordPressSite) (secret : Secret) (w w1 w2 w3 : W) (e : Error)
      → site.spec.suspend ≡ false
      → ensure_secret c db r site w ≡ (ok secret, w1)
      → ensure_site_database c db r site secret w1 ≡ (ok tt, w2)
      → reconcile_workload c db r site w2 ≡ (err e, w3)
      → reconcile_live c db r site w
        ≡ (err e, (set_phase c db r site phase_error ("workload" ++ ": " ++ message e) w3).1)
  unfolding reconcile_live fail
  reconcile_live-fail site secret w w1 w2 w3 e live ensured ready failed =
      simp (live, ensured, ready, failed) refl
