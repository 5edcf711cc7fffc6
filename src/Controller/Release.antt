-- ===== src/Controller/Release.antt =====
-- What becomes of a deleted site while its database cannot be dropped, and once it can.
use Prim.Native.Nat.{suc}
use wordpress_manager_operat.Prelude.{
  ℕ, String, ◌≡◌, refl, ◌≤◌, true, false, nat_eq, Error, ok, err, attempt, continue, ◌>>=◌, pure,
}
use wordpress_manager_operat.Api.{WordPressSite, finalizer}
use wordpress_manager_operat.Resources.Names.{database_name, database_user, database_host}
use wordpress_manager_operat.Controller.Interface.{
  ObjectKey, Cluster, Database, Reconciler, Outcome,
}
use wordpress_manager_operat.Controller.Stages.{
  Runs, Any, Runs-attempt, Runs-pure, Runs-then, Runs-else,
}
use wordpress_manager_operat.Controller.Requeue.{IsDone, IsRetry, requeued, requeued-Runs}
use wordpress_manager_operat.Controller.{
  done, retry, drop_data, after_drop, reconcile_live, reconcile_delete, ensure_finalizer,
  after_site, reconcile,
}

-- A site that is being deleted and has the finalizer of the operator.
pub record IsDeleting {W : Type 0} (c : Cluster W) (s : WordPressSite) : Type 0 where
  pub deleted : nat_eq s.meta.deletion_timestamp 0 ≡ false
  pub held : c.contains_finalizer s finalizer ≡ true

-- `P n` holds of the worlds in which the site under the key is being deleted and the database server
-- refuses the next `n` calls to drop its database; `Q` holds once the finalizer is removed.
pub record IsReleasable {W : Type 0} (c : Cluster W) (db : Database W) (key : ObjectKey)
    (P : ℕ → W → Type 0) (Q : W → Type 0) : Type 0 where
  pub get_site : (n : ℕ) → Runs (P n) (P n) (IsDeleting c) (c.get_site key)
  pub refuses :
      (n : ℕ) (name user host : String) (w : W)
      → P (suc n) w
      → (e : Error) × (w' : W) × (db.drop_database name user host w ≡ (err e, w')) × P n w'
  pub drops : (name user host : String) → Runs (P 0) (P 0) Any (db.drop_database name user host)
  pub releases :
      (s : WordPressSite)
      → IsDeleting c s
      → Runs (P 0) Q Any (c.update_site (c.remove_finalizer s finalizer))

module _ {W : Type 0} (c : Cluster W) (db : Database W) (r : Reconciler) (key : ObjectKey)
    (P : ℕ → W → Type 0) (Q : W → Type 0) (k : IsReleasable c db key P Q)
    (dropping : r.drop_data_on_delete ≡ true) where
  refused-IsRetry :
      (n : ℕ) (s : WordPressSite)
      → Runs (P (suc n)) (P n) IsRetry (attempt (drop_data c db r s) (after_drop c db r s))
  unfolding drop_data
  refused-IsRetry n s w h =
      let (e, w1, refused, q) =
        k.refuses n (database_name s) (database_user s) (database_host s) w h in
      (retry, w1, rw (dropping, refused) refl, refl, q)

  dropped-IsDone :
      (s : WordPressSite)
      → IsDeleting c s
      → Runs (P 0) Q IsDone (attempt (drop_data c db r s) (after_drop c db r s))
  unfolding drop_data
  dropped-IsDone s deleting =
      Runs-attempt (P 0) (P 0) Q Any IsDone (drop_data c db r s) (after_drop c db r s)
        (Runs-then (P 0) (P 0) Any _ (pure tt) r.drop_data_on_delete dropping (k.drops _ _ _))
        (λ _ _.
          Runs-attempt (P 0) Q Q Any IsDone (c.update_site (c.remove_finalizer s finalizer))
            (continue (λ _. pure done)) (k.releases s deleting)
            (λ _ _. Runs-pure Q IsDone done refl))

  reconcile-Runs :
      (n : ℕ) (S : W → Type 0) (R : Outcome → Type 0)
      → ((s : WordPressSite)
          → IsDeleting c s
          → Runs (P n) S R (attempt (drop_data c db r s) (after_drop c db r s)))
      → Runs (P n) S R (reconcile c db r key)
  unfolding reconcile reconcile_delete
  reconcile-Runs n S R f =
      Runs-attempt (P n) (P n) S (IsDeleting c) R (c.get_site key) (after_site c db r)
        (k.get_site n)
        (λ s d.
          Runs-else (P n) S R (ensure_finalizer c db r s >>= reconcile_live c db r)
            (reconcile_delete c db r s) (nat_eq s.meta.deletion_timestamp 0) d.deleted
            (Runs-then (P n) S R _ (pure done) (c.contains_finalizer s finalizer) d.held (f s d)))

  -- Where the operator is set to drop data, the site under the key is being deleted and has the
  -- finalizer, and the database server refuses the next `n` calls to drop its database and works after
  -- that, waiting changing none of this, a caller that does what Reconcile asks for ends with the
  -- finalizer removed, if it may retry `n` times or more.
  pub requeued_releases :
      (wait : ℕ → W → W) (waits : (n t : ℕ) (w : W) → P n w → P n (wait t w)) (fuel n : ℕ) (w : W)
      → n ≤ fuel
      → P n w
      → (w' : W) × (requeued wait (reconcile c db r key) fuel w ≡ (ok done, w')) × Q w'
  requeued_releases wait waits fuel n w fits h =
      requeued-Runs P Q (reconcile c db r key)
        (λ m. reconcile-Runs (suc m) (P m) IsRetry (λ s _. refused-IsRetry m s))
        (reconcile-Runs 0 Q IsDone dropped-IsDone) wait waits fuel n w fits h
