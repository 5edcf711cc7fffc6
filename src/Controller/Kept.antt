-- ===== src/Controller/Kept.antt =====
-- What the calls of the reconciler keep, and what it may make of a site.
pub mod Steps
use wordpress_manager_operat.Prelude.{ℕ, String, ◌≡◌, ok, ◌>>=◌, Keeps}
use wordpress_manager_operat.Api.{WordPressSite, finalizer}
use wordpress_manager_operat.Resources.Objects.{Object, Secret}
use wordpress_manager_operat.Controller.Interface.{ObjectKey, Cluster, Database}
use wordpress_manager_operat.Controller.{with_phase, with_status}

-- Every call but DropDatabase keeps `P`, a property of the world such as "the databases of these
-- sites exist", and so does drawing random bytes; a write of a site keeps it if it is one of `Good`.
pub record IsKeptFor {W : Type 0} (c : Cluster W) (db : Database W) (P : W → Type 0)
    (Good : WordPressSite → Type 0) : Type 0 where
  pub get_site : (k : ObjectKey) → Keeps P (c.get_site k)
  pub update_site : (s : WordPressSite) → Good s → Keeps P (c.update_site s)
  pub update_status : (s : WordPressSite) → Good s → Keeps P (c.update_status s)
  pub get_secret : (k : ObjectKey) → Keeps P (c.get_secret k)
  pub create_secret : (s : Secret) → Keeps P (c.create_secret s)
  pub update_secret : (s : Secret) → Keeps P (c.update_secret s)
  pub get_object : (o : Object) → Keeps P (c.get_object o)
  pub create_object : (o : Object) → Keeps P (c.create_object o)
  pub update_object : (o : Object) → Keeps P (c.update_object o)
  pub patch_object : (o : Object) → Keeps P (c.patch_object o)
  pub ensure_database :
      (name user host password : String) → Keeps P (db.ensure_database name user host password)
  pub random : (n : ℕ) (w : W) → P w → P (c.random n w).1

-- The same of any write of a site.
abbrev pub IsKept : {W : Type 0} → Cluster W → Database W → (W → Type 0) → Type 0
IsKept c db P = IsKeptFor c db P (λ s. Unit)

-- What the reconciler does to a site that it has read leaves it one of `Good`: it sets the status and
-- the finalizers, and goes on with what a write returns.
pub record IsStable {W : Type 0} (c : Cluster W) (Good : WordPressSite → Type 0) : Type 0 where
  pub phased :
      (s : WordPressSite) (phase msg : String) (now : ℕ)
      → Good s
      → Good (with_phase s phase msg now)
  pub reported : (s : WordPressSite) → Good s → Good (with_status s)
  pub added : (s : WordPressSite) → Good s → Good (c.add_finalizer s finalizer).0
  pub removed : (s : WordPressSite) → Good s → Good (c.remove_finalizer s finalizer)
  pub written : (s t : WordPressSite) (w : W) → Good s → (c.update_site s w).0 ≡ ok t → Good t
