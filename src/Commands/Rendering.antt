-- ===== src/Commands/Rendering.antt =====
-- The manifests that the API server shows, against those that the operator applies.
use wordpress_manager_operat.Prelude.{
  String, ◌≡◌, ◌≢◌, refl, sym, true, false, ==-false_of_ne, List, [], ◌∷◌, map,
}
use wordpress_manager_operat.Text.{is_empty}
use wordpress_manager_operat.Api.{WordPressSite}
use wordpress_manager_operat.Resources.Names.{shared_pvc_name}
use wordpress_manager_operat.Resources.Objects.{
  Object, of_config_map, of_deployment, Volume, claim, config_map,
}
use wordpress_manager_operat.Resources.PhpConfig.{desired_php_config_map}
use wordpress_manager_operat.Resources.Deployment.{desired_deployment, volumes}
use wordpress_manager_operat.Controller.{workload_objects}
use wordpress_manager_operat.Controller.Interface.{Cluster, Database}
use wordpress_manager_operat.Apiserver.Login.{Authenticator}
use wordpress_manager_operat.Apiserver.Routes.{App}
use wordpress_manager_operat.Apiserver.Documents.{TypedObject, manifests}
use wordpress_manager_operat.Commands.{Environment, env, operator, Platform, Backend, app_of}

-- The objects that getSiteYAML renders of a site.
abbrev pub shown : {W : Type 0} → App W → WordPressSite → List Object
shown a site =
    map (λ (o : TypedObject). o.object)
      (manifests a.sha256 a.defaults site a.server.db_host a.server.db_port)

abbrev pub volume_claim : List Volume → String
volume_claim [] = ""
volume_claim (v ∷ vs) = elim v.source [ claim n ↦ n | config_map n ↦ "" ]

-- The claim that the first volume of the Deployment is.
abbrev pub claim_name : List Object → String
claim_name (of_config_map m ∷ os) = claim_name os
claim_name (of_deployment o ∷ os) = volume_claim o.volumes
claim_name _ = ""

module _ {W Conn : Type 0} (p : Platform W Conn) (getenv : Environment) (b : Backend W)
    (auth : Authenticator) (c : Cluster W) (db : Database W) where
  -- Where both commands run in one environment that sets neither of the operator-wide variables, the
  -- API server shows what the operator applies: all but the ConfigMap, in the same order.
  pub shown-workload_objects :
      (site : WordPressSite)
      → getenv "SHARED_PVC_NAME" ≡ ""
      → getenv "INGRESS_CLASS" ≡ ""
      → workload_objects c db (operator p.sha256 getenv).reconciler site
        ≡ of_config_map (desired_php_config_map site) ∷ shown (app_of p getenv b auth) site
  unfolding workload_objects operator app_of env
  shown-workload_objects site pvc class = rw (pvc, class) refl

  -- Where the operator is given another shared claim than the built-in one, the Deployment of a site
  -- that names none is shown with the built-in claim as its volume, and is applied with the one that
  -- the operator was given.
  pub shown-ne_workload_objects :
      (site : WordPressSite)
      → is_empty site.spec.storage.shared_pvc_name ≡ true
      → getenv "SHARED_PVC_NAME" ≢ ""
      → getenv "SHARED_PVC_NAME" ≢ "wordpress-shared"
      → (claim_name (shown (app_of p getenv b auth) site) ≡ "wordpress-shared")
        × (claim_name (workload_objects c db (operator p.sha256 getenv).reconciler site)
            ≡ getenv "SHARED_PVC_NAME")
        × (claim_name (shown (app_of p getenv b auth) site)
            ≢ claim_name (workload_objects c db (operator p.sha256 getenv).reconciler site))
  unfolding workload_objects operator app_of env desired_deployment volumes shared_pvc_name
  shown-ne_workload_objects site own set other =
      let given : is_empty (getenv "SHARED_PVC_NAME") ≡ false =
        ==-false_of_ne (getenv "SHARED_PVC_NAME") "" set in
      rw (own, given) (refl, refl, λ h. other (sym h))
