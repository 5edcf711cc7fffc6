-- ===== src/Controller/DataSafety.antt =====
-- The reconciler never drops a database that it is not told to drop.
use wordpress_manager_operat.Prelude.{◌≡◌, false, ◌⊎◌, inl, inr, ok, Keeps, nat_eq, nat_eq→ne}
use wordpress_manager_operat.Api.{WordPressSite}
use wordpress_manager_operat.Controller.Kept.{IsKept, IsStable}
use wordpress_manager_operat.Controller.Kept.Steps.{reconcile_keeps_for}
use wordpress_manager_operat.Controller.Interface.{ObjectKey, Cluster, Database, Reconciler}
use wordpress_manager_operat.Controller.{drop_data, reconcile}

any_write : {W : Type 0} (c : Cluster W) → IsStable c (λ s. Unit)
any_write c = record {
  phased = λ s p m t g. tt;
  reported = λ s g. tt;
  added = λ s g. tt;
  removed = λ s g. tt;
  written = λ s t w g e. tt;
}

module _ {W : Type 0} (c : Cluster W) (db : Database W) (r : Reconciler) (P : W → Type 0)
    (k : IsKept c db P) where
  pub reconcile_keeps_with :
      (key : ObjectKey) (w : W)
      → ((s : WordPressSite)
          → (c.get_site key w).0 ≡ ok s
          → nat_eq s.meta.deletion_timestamp 0 ≡ false
          → Keeps P (drop_data c db r s))
      → P w
      → P (reconcile c db r key w).1
  reconcile_keeps_with key w kept h =
      reconcile_keeps_for c db r P (λ s. Unit) k (any_write c) key w (λ s e. tt) kept h

  not_dropped :
      (s : WordPressSite)
      → (r.drop_data_on_delete ≡ false) ⊎ (s.meta.deletion_timestamp ≡ 0)
      → nat_eq s.meta.deletion_timestamp 0 ≡ false
      → Keeps P (drop_data c db r s)
  unfolding drop_data
  not_dropped s (inl off) deleted w h = simp off h
  not_dropped s (inr live) deleted w h = absurd (nat_eq→ne _ _ deleted live)

  -- Unless it is set to drop data and the site that it reads is being deleted, a reconciliation,
  -- whatever calls fail in it, keeps every property of the world that the calls other than
  -- DropDatabase keep.
  pub reconcile-Keeps :
      (key : ObjectKey) (w : W)
      → ((s : WordPressSite)
          → (c.get_site key w).0 ≡ ok s
          → (r.drop_data_on_delete ≡ false) ⊎ (s.meta.deletion_timestamp ≡ 0))
      → P w
      → P (reconcile c db r key w).1
  reconcile-Keeps key w safe = reconcile_keeps_with key w (λ s read. not_dropped s (safe s read))
