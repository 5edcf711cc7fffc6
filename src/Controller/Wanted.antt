-- ===== src/Controller/Wanted.antt =====
-- The reconciler writes sites, but never another spec than it has read.
use wordpress_manager_operat.Prelude.{String, ◌≡◌, sym, ap, ◌∙◌, Bool-cases, inl, inr, Keeps, ok}
use wordpress_manager_operat.Api.{WordPressSite, WordPressSiteSpec, finalizer}
use wordpress_manager_operat.Resources.Names.{database_name, database_user, database_host}
use wordpress_manager_operat.Controller.{with_phase, with_status, drop_data, reconcile}
use wordpress_manager_operat.Controller.Interface.{ObjectKey, Cluster, Database, Reconciler}
use wordpress_manager_operat.Controller.Kept.{IsKeptFor, IsStable}
use wordpress_manager_operat.Controller.Kept.Steps.{reconcile_keeps_for}

abbrev pub key_of : WordPressSite → ObjectKey
key_of s = record { namespace = s.meta.namespace; name = s.meta.name }

-- The same name, namespace and spec.
pub record IsSame (s t : WordPressSite) : Type 0 where
  pub key : key_of t ≡ key_of s
  pub spec : t.spec ≡ s.spec

-- AddFinalizer and RemoveFinalizer write the finalizers of an object only, and a write returns what it
-- wrote, with metadata that the server sets.
pub record KeepsSites {W : Type 0} (c : Cluster W) : Type 0 where
  pub added : (s : WordPressSite) (f : String) → IsSame s (c.add_finalizer s f).0
  pub removed : (s : WordPressSite) (f : String) → IsSame s (c.remove_finalizer s f)
  pub written : (s t : WordPressSite) (w : W) → (c.update_site s w).0 ≡ ok t → IsSame s t

-- A site with the spec that `specs` wants at its key.
abbrev pub IsWanted : (ObjectKey → WordPressSiteSpec) → WordPressSite → Type 0
IsWanted specs s = s.spec ≡ specs (key_of s)

IsSame-IsWanted :
    (specs : ObjectKey → WordPressSiteSpec) (s t : WordPressSite)
    → IsSame s t
    → IsWanted specs s
    → IsWanted specs t
IsSame-IsWanted specs s t same wanted = same.spec ∙ (wanted ∙ ap specs (sym same.key))

module _ {W : Type 0} (c : Cluster W) (db : Database W) (r : Reconciler) where
  IsWanted-IsStable :
      (specs : ObjectKey → WordPressSiteSpec) → KeepsSites c → IsStable c (IsWanted specs)
  unfolding with_phase with_status
  IsWanted-IsStable specs k = record {
    phased = λ s p m t g. g;
    reported = λ s g. g;
    added = λ s g. IsSame-IsWanted specs s _ (k.added s finalizer) g;
    removed = λ s g. IsSame-IsWanted specs s _ (k.removed s finalizer) g;
    written = λ s t w g e. IsSame-IsWanted specs s t (k.written s t w e) g;
  }

  drop_data_stays :
      (P : W → Type 0) (s : WordPressSite)
      → ((name user host : String) → Keeps P (db.drop_database name user host))
      → Keeps P (drop_data c db r s)
  unfolding drop_data
  drop_data_stays P s k w h = elim (Bool-cases r.drop_data_on_delete) [
    | inl t ↦ rw t (k (database_name s) (database_user s) (database_host s) w h)
    | inr f ↦ rw f h
  ]

  -- What all calls keep that write only sites with the spec that is wanted at their key, a
  -- reconciliation keeps, if the site that it reads has that spec.
  pub reconcile_keeps_specs :
      (specs : ObjectKey → WordPressSiteSpec) (P : W → Type 0) (key : ObjectKey) (w : W)
      → KeepsSites c
      → IsKeptFor c db P (IsWanted specs)
      → ((name user host : String) → Keeps P (db.drop_database name user host))
      → ((s : WordPressSite) → (c.get_site key w).0 ≡ ok s → IsWanted specs s)
      → P w
      → P (reconcile c db r key w).1
  reconcile_keeps_specs specs P key w sites k drop wanted =
      reconcile_keeps_for c db r P (IsWanted specs) k (IsWanted-IsStable specs sites) key w wanted
        (λ s _ _. drop_data_stays P s drop)
