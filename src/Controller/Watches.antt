-- ===== src/Controller/Watches.antt =====
-- SetupWithManager of internal/controller/wordpresssite_controller.go: which objects the reconciler
-- is called for.
use wordpress_manager_operat.Prelude.{List, [], ◌∷◌, map}
use mathlib.Core.List.{Perm}
use mathlib.Core.List.Perm
use wordpress_manager_operat.Api.{WordPressSite}
use wordpress_manager_operat.Resources.Objects.{
  Object, of_config_map, of_deployment, of_service, of_ingress,
}
use wordpress_manager_operat.Controller.{workload_objects}
use wordpress_manager_operat.Controller.Interface.{Cluster, Database, Reconciler}

-- The types that the builder is given.
pub data Watched : Type 0 where
  word_press_site deployment service secret config_map ingress : Watched

-- What For and Owns leave in the builder.
pub record Watches : Type 0 where
  pub main : Watched
  pub owned : List Watched

unfoldable pub setup_with_manager : Watches
setup_with_manager = record {
  main = word_press_site;
  owned = deployment ∷ service ∷ secret ∷ config_map ∷ ingress ∷ [];
}

abbrev pub type_of : Object → Watched
type_of (of_config_map o) = config_map
type_of (of_deployment o) = deployment
type_of (of_service o) = service
type_of (of_ingress o) = ingress

-- The types of the objects that the builder says a site owns are those of its Secret and of the
-- objects that the reconciler applies for it, each once: the reconciler is called again when one of
-- these changes, and for no other type.
pub setup_with_manager-workload_objects :
    {W : Type 0} (c : Cluster W) (db : Database W) (r : Reconciler) (site : WordPressSite)
    → Perm setup_with_manager.owned (secret ∷ map type_of (workload_objects c db r site))
unfolding setup_with_manager workload_objects
setup_with_manager-workload_objects c db r site =
    let (s, i) : List Watched × List Watched = (service ∷ ingress ∷ [], ingress ∷ []) in
    Perm.trans (Perm.cons deployment (Perm.swap secret service (config_map ∷ i))) (
      Perm.trans (Perm.swap secret deployment (service ∷ config_map ∷ i)) (
        Perm.trans (Perm.cons secret (Perm.cons deployment (Perm.swap config_map service i)))
          (Perm.cons secret (Perm.swap config_map deployment s))))
