-- ===== src/Controller/Interface.antt =====
-- What the reconciler takes from outside: the Kubernetes client, the helpers of controller-runtime,
-- the clock, the random source and a database server.
use wordpress_manager_operat.Prelude.{ℕ, String, Bool, List, Result, Exec}
use wordpress_manager_operat.Api.{WordPressSite}
use wordpress_manager_operat.Resources.Names.{Defaults}
use wordpress_manager_operat.Resources.Objects.{Object, Secret}
use wordpress_manager_operat.Resources.Secret.{Random}

-- types.NamespacedName
pub record ObjectKey : Type 0 where
  pub namespace : String
  pub name : String

-- A call that writes returns the object as the server has it. `get_object` reads the object that
-- stands at the kind and the key of its argument, `patch_object` is a server-side apply, and the
-- last seven are metav1.Now, crypto/rand, controllerutil and apiutil.
pub record Cluster (W : Type 0) : Type 0 where
  pub get_site : ObjectKey → Exec W WordPressSite
  pub update_site : WordPressSite → Exec W WordPressSite
  pub update_status : WordPressSite → Exec W WordPressSite
  pub get_secret : ObjectKey → Exec W Secret
  pub create_secret : Secret → Exec W Secret
  pub update_secret : Secret → Exec W Secret
  pub get_object : Object → Exec W Object
  pub create_object : Object → Exec W Object
  pub update_object : Object → Exec W Object
  pub patch_object : Object → Exec W Object
  pub now : W → ℕ
  pub random : Random W
  pub add_finalizer : WordPressSite → String → WordPressSite × Bool
  pub remove_finalizer : WordPressSite → String → WordPressSite
  pub contains_finalizer : WordPressSite → String → Bool
  pub set_owner : WordPressSite → Object → Result Object
  pub set_secret_owner : WordPressSite → Secret → Result Secret
  pub gvk_for_object : Object → Result (Unit {0})

-- The interface `Database`: a name, a user, a host and, to ensure, a password.
pub record Database (W : Type 0) : Type 0 where
  pub ensure_database : String → String → String → String → Exec W (Unit {0})
  pub drop_database : String → String → String → Exec W (Unit {0})

-- The settings of WordPressSiteReconciler, with the operator-wide defaults and the hash that the
-- builders use.
pub record Reconciler : Type 0 where
  pub db_host : String
  pub db_port : String
  pub drop_data_on_delete : Bool
  pub no_server_side_apply : Bool
  pub defaults : Defaults
  pub sha256 : String → List ℕ

-- ctrl.Result, in seconds; 0 asks for no requeue.
pub record Outcome : Type 0 where
  pub requeue_after : ℕ
