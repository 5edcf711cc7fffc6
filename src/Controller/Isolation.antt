-- ===== src/Controller/Isolation.antt =====
-- Deleting a site leaves the databases of other sites alone.
use Prim.Native.String.{len}
use wordpress_manager_operat.Prelude.{
  String, refl, sym, ◌∙◌, ◌≤◌, ◌≡◌, ◌≢◌, Bool-cases, inl, inr, Keeps, ok,
}
use wordpress_manager_operat.Api.{WordPressSite}
use wordpress_manager_operat.Resources.Names.{
  database_name, database_user, database_host, generated_name,
}
use wordpress_manager_operat.Resources.Names.Distinct.{IsLabel, generated_name_distinct}
use wordpress_manager_operat.Controller.{drop_data, reconcile}
use wordpress_manager_operat.Controller.Interface.{ObjectKey, Cluster, Database, Reconciler}
use wordpress_manager_operat.Controller.Kept.{IsKept}
use wordpress_manager_operat.Controller.DataSafety.{reconcile_keeps_with}

-- `P` is a property of the database `held`, such as that it exists: dropping another one keeps it.
abbrev pub IsHeld : {W : Type 0} → Database W → (W → Type 0) → String → Type 0
IsHeld db P held =
    (name user host : String) → name ≢ held → Keeps P (db.drop_database name user host)

module _ {W : Type 0} (c : Cluster W) (db : Database W) (r : Reconciler) (P : W → Type 0) where
  drop_data_keeps_other :
      (held : String) (s : WordPressSite)
      → IsHeld db P held
      → database_name s ≢ held
      → Keeps P (drop_data c db r s)
  unfolding drop_data
  drop_data_keeps_other held s k other w h = elim (Bool-cases r.drop_data_on_delete) [
    | inl t ↦ rw t (k (database_name s) (database_user s) (database_host s) other w h)
    | inr f ↦ rw f h
  ]

  -- A reconciliation of a site, also of one that is being deleted with its data, keeps every property
  -- of the database of another name that the calls other than DropDatabase keep, and that dropping a
  -- database of another name keeps.
  reconcile_keeps_other :
      (held : String) (key : ObjectKey) (w : W)
      → IsKept c db P
      → IsHeld db P held
      → ((s : WordPressSite) → (c.get_site key w).0 ≡ ok s → database_name s ≢ held)
      → P w
      → P (reconcile c db r key w).1
  reconcile_keeps_other held key w k h other =
      reconcile_keeps_with c db r P k key w
        (λ s read _. drop_data_keeps_other held s h (other s read))

-- A site whose database has the generated name, made of a name that is a DNS label of at most 61
-- bytes.
pub record IsNamed (s : WordPressSite) : Type 0 where
  pub label : IsLabel s.meta.name
  pub short : len s.meta.name ≤ 61
  pub generated : s.spec.database.name ≡ ""

database_name_of_IsNamed :
    (s : WordPressSite) → IsNamed s → database_name s ≡ generated_name s.meta.name
unfolding database_name
database_name_of_IsNamed s n = rw n.generated refl

module _ {W : Type 0} (c : Cluster W) (db : Database W) (r : Reconciler) (P : W → Type 0) where
  -- A reconciliation of a site, also of one that is being deleted with its data, keeps every property
  -- of the database of another site that the calls other than DropDatabase keep, and that dropping a
  -- database of another name keeps, if both databases have their generated names and the names of the
  -- sites are different DNS labels of at most 61 bytes.
  pub reconcile_keeps_site :
      (held : WordPressSite) (key : ObjectKey) (w : W)
      → IsKept c db P
      → IsHeld db P (database_name held)
      → IsNamed held
      → ((s : WordPressSite)
          → (c.get_site key w).0 ≡ ok s
          → IsNamed s × (s.meta.name ≢ held.meta.name))
      → P w
      → P (reconcile c db r key w).1
  reconcile_keeps_site held key w k h n other =
      reconcile_keeps_other c db r P (database_name held) key w k h (λ s read same.
        generated_name_distinct (other s read).0.label n.label (other s read).0.short n.short
          (other s read).1
          (sym (database_name_of_IsNamed s (other s read).0)
            ∙ (same ∙ database_name_of_IsNamed held n)))
