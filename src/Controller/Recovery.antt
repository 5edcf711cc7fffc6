-- ===== src/Controller/Recovery.antt =====
-- What becomes of a site while its database cannot be reached, and once it can.
use Prim.Native.Nat.{suc}
use Prim.Native.String.{◌++◌}
use wordpress_manager_operat.Prelude.{
  ℕ, String, ◌≡◌, refl, ◌≤◌, nat_eq, Error, message, ok, err, attempt, continue, pure,
}
use wordpress_manager_operat.Api.{WordPressSite, phase_ready, phase_provisioning}
use wordpress_manager_operat.Resources.Names.{database_name, database_user, database_host}
use wordpress_manager_operat.Resources.Secret.{value_at, password_key}
use wordpress_manager_operat.Resources.Objects.{Secret}
use wordpress_manager_operat.Controller.Interface.{
  ObjectKey, Cluster, Database, Reconciler, Outcome,
}
use wordpress_manager_operat.Controller.Stages.{
  Runs, Any, Live, IsUp, Runs-attempt, Runs-pure, Runs-then, Runs-else, set_phase-Runs,
  apply_all-Runs, ensure_secret-Runs, ensure_finalizer-Runs,
}
use wordpress_manager_operat.Controller.Requeue.{IsDone, IsRetry, requeued, requeued-Runs}
use wordpress_manager_operat.Controller.{
  set_phase, with_status, workload_objects, done, retry, reconcile_workload, ensure_secret,
  after_workload, after_database, ensure_site_database, after_ensured, reconcile_live,
  reconcile_suspended, reconcile_delete, ensure_finalizer, after_site, reconcile,
}

-- `P n` holds of the worlds in which the database server refuses the next `n` calls, and works after
-- that.
pub record Recovers {W : Type 0} (db : Database W) (P : ℕ → W → Type 0) : Type 0 where
  pub refuses :
      (n : ℕ) (name user host password : String) (w : W)
      → P (suc n) w
      → (e : Error) × (w' : W) × (db.ensure_database name user host password w ≡ (err e, w'))
        × P n w'
  pub works :
      (name user host password : String)
      → Runs (P 0) (P 0) Any (db.ensure_database name user host password)

module _ {W : Type 0} (c : Cluster W) (db : Database W) (r : Reconciler) (key : ObjectKey)
    (P : ℕ → W → Type 0) (k : (n : ℕ) → IsUp c key (P n)) (d : Recovers db P) where
  workload-IsDone :
      (s : WordPressSite)
      → Runs (P 0) (P 0) IsDone (attempt (reconcile_workload c db r s) (after_workload c db r s))
  unfolding reconcile_workload
  workload-IsDone s =
      Runs-attempt (P 0) (P 0) (P 0) Any IsDone (reconcile_workload c db r s)
        (after_workload c db r s)
        (apply_all-Runs c db r key (P 0) (k 0) s (workload_objects c db r s))
        (λ _ _.
          Runs-attempt (P 0) (P 0) (P 0) Any IsDone
            (set_phase c db r (with_status s) phase_ready "Site reconciled")
            (continue (λ _. pure done))
            (set_phase-Runs c db r key (P 0) (k 0) (with_status s) phase_ready "Site reconciled")
            (λ _ _. Runs-pure (P 0) IsDone done refl))

  live-IsDone : (s : WordPressSite) → Live s → Runs (P 0) (P 0) IsDone (reconcile_live c db r s)
  unfolding reconcile_live ensure_site_database
  live-IsDone s (live, _) =
      Runs-else (P 0) (P 0) IsDone (reconcile_suspended c db r s) _ s.spec.suspend live (
        Runs-attempt (P 0) (P 0) (P 0) Any IsDone (ensure_secret c db r s) (after_ensured c db r s)
          (ensure_secret-Runs c db r key (P 0) (k 0) s)
          (λ x _.
            Runs-attempt (P 0) (P 0) (P 0) Any IsDone (ensure_site_database c db r s x)
              (after_database c db r s) (d.works _ _ _ _) (λ _ _. workload-IsDone s)))

  -- The refusal is reported and asks for a retry.
  refused-IsRetry :
      (n : ℕ) (s : WordPressSite) (x : Secret)
      → Runs
          (P (suc n))
          (P n)
          IsRetry
          (attempt (ensure_site_database c db r s x) (after_database c db r s))
  unfolding ensure_site_database
  refused-IsRetry n s x w h =
      let (e, w1, refused, q) =
        d.refuses n (database_name s) (database_user s) (database_host s)
          (value_at password_key x.entries) w h in
      let (_, w2, told, _, q') =
        set_phase-Runs c db r key (P n) (k n) s phase_provisioning
          ("Waiting for MySQL: " ++ message e) w1 q in
      (retry, w2, rw (refused, told) refl, refl, q')

  live-IsRetry :
      (n : ℕ) (s : WordPressSite)
      → Live s
      → Runs (P (suc n)) (P n) IsRetry (reconcile_live c db r s)
  unfolding reconcile_live
  live-IsRetry n s (live, _) =
      Runs-else (P (suc n)) (P n) IsRetry (reconcile_suspended c db r s) _ s.spec.suspend live (
        Runs-attempt (P (suc n)) (P (suc n)) (P n) Any IsRetry (ensure_secret c db r s)
          (after_ensured c db r s) (ensure_secret-Runs c db r key (P (suc n)) (k (suc n)) s)
          (λ x _. refused-IsRetry n s x))

  reconcile-Runs :
      (n m : ℕ) (R : Outcome → Type 0)
      → ((s : WordPressSite) → Live s → Runs (P n) (P m) R (reconcile_live c db r s))
      → Runs (P n) (P m) R (reconcile c db r key)
  unfolding reconcile
  reconcile-Runs n m R f =
      Runs-attempt (P n) (P n) (P m) Live R (c.get_site key) (after_site c db r) (k n).get_site
        (λ s (live, kept).
          Runs-then (P n) (P m) R _ (reconcile_delete c db r s) (nat_eq s.meta.deletion_timestamp 0)
            (rw kept refl)
            (Runs-attempt (P n) (P n) (P m) Live R (ensure_finalizer c db r s)
              (continue (reconcile_live c db r))
              (ensure_finalizer-Runs c db r key (P n) (k n) s (live, kept)) f))

  -- In a cluster that answers every call and has a live site under the key, where the database server
  -- refuses the next `n` calls and works after that, and waiting changes none of this, a caller that
  -- does what Reconcile asks for ends with the site done, if it may retry `n` times or more.
  pub requeued_ends :
      (wait : ℕ → W → W) (waits : (n t : ℕ) (w : W) → P n w → P n (wait t w)) (fuel n : ℕ) (w : W)
      → n ≤ fuel
      → P n w
      → (w' : W) × (requeued wait (reconcile c db r key) fuel w ≡ (ok done, w')) × P 0 w'
  requeued_ends wait waits fuel n w fits h =
      requeued-Runs P (P 0) (reconcile c db r key)
        (λ m. reconcile-Runs (suc m) m IsRetry (live-IsRetry m))
        (reconcile-Runs 0 0 IsDone live-IsDone) wait waits fuel n w fits h
