-- ===== src/Controller/Deletion.antt =====
-- Deleting a site: its data is dropped first, if it is to be dropped at all, and only then is the
-- finalizer removed.
use wordpress_manager_operat.Prelude.{
  ◌≡◌, refl, arith, ap, ◌∙◌, true, Error, Result, ok, err, >>=-ok, pure, ok_injective,
}
use wordpress_manager_operat.Api.{WordPressSite, finalizer}
use wordpress_manager_operat.Controller.Interface.{Cluster, Database, Reconciler, Outcome}
use wordpress_manager_operat.Controller.{done, retry, drop_data, after_drop, reconcile_delete}

module _ {W : Type 0} (c : Cluster W) (db : Database W) (r : Reconciler) where
  -- What a deletion that is complete went through: the data was dropped, or was to be kept, and in
  -- the world that this left the site was written without the finalizer.
  pub record Released (site : WordPressSite) (w w' : W) : Type 0 where
    pub between : W
    pub written : WordPressSite
    pub dropped : drop_data c db r site w ≡ (ok tt, between)
    pub released : c.update_site (c.remove_finalizer site finalizer) between ≡ (ok written, w')

  pub retry-ne-done : {w w' : W} → Path (Result Outcome × W) (ok retry, w) (ok done, w') → ⊥
  retry-ne-done e = let same = ap (λ (o : Outcome). o.requeue_after) (ok_injective e) in omega arith

  after_drop_inv :
      (site : WordPressSite) (res : Result (Unit {0})) (w w1 w' : W)
      → drop_data c db r site w ≡ (res, w1)
      → after_drop c db r site res w1 ≡ (ok done, w')
      → Released site w w'
  after_drop_inv site (err e) w w1 w' d h = absurd (retry-ne-done h)
  after_drop_inv site (ok u) w w1 w' d h =
      let (written, w2, released, ended) =
        >>=-ok (c.update_site (c.remove_finalizer site finalizer)) (λ _. pure done) w1 h in
      record {
        between = w1;
        written = written;
        dropped = d;
        released = released ∙ (λ i. (ok written, (ended i).1));
      }

  -- Where the finalizer is set, a deletion ends, with no error and no retry, only if the data was
  -- dropped (or is to be kept) without an error before the finalizer was removed.
  pub reconcile_delete-Released :
      (site : WordPressSite) (w w' : W)
      → c.contains_finalizer site finalizer ≡ true
      → reconcile_delete c db r site w ≡ (ok done, w')
      → Released site w w'
  unfolding reconcile_delete
  reconcile_delete-Released site w w' has h =
      after_drop_inv site (drop_data c db r site w).0 w (drop_data c db r site w).1 w' refl
        (rw has at h)

  -- Where the finalizer is set and the drop fails, the site is not written: the deletion is tried
  -- again after 15 seconds, from the world that the failed drop left.
  pub reconcile_delete-retry :
      (site : WordPressSite) (w w' : W) (e : Error)
      → c.contains_finalizer site finalizer ≡ true
      → drop_data c db r site w ≡ (err e, w')
      → reconcile_delete c db r site w ≡ (ok retry, w')
  unfolding reconcile_delete
  reconcile_delete-retry site w w' e has failed = rw (has, failed)
