-- ===== src/Resources/Objects.antt =====
-- The Kubernetes objects that the builders of internal/resources return, with the fields that they
-- set. An integer of the API is a natural number; a pointer that the builders always set is a
-- value.
use wordpress_manager_operat.Prelude.{ℕ, String, Bool, Option, List, []}
use wordpress_manager_operat.Maps.{Map}
use wordpress_manager_operat.Api.{ObjectMeta, EnvVar, ResourceRequirements}

-- corev1.Secret of type Opaque; a value of its data is a text.
pub record Secret : Type 0 where
  pub meta : ObjectMeta
  pub entries : Map String

pub record ConfigMap : Type 0 where
  pub meta : ObjectMeta
  pub entries : Map String

-- corev1.Probe with an HTTPGet handler
pub record Probe : Type 0 where
  pub path : String
  pub port : ℕ
  pub initial_delay : ℕ
  pub period : ℕ
  pub timeout : ℕ
  pub failure_threshold : ℕ

pub record VolumeMount : Type 0 where
  pub name : String
  pub mount_path : String
  pub sub_path : String
  pub read_only : Bool

pub data VolumeSource : Type 0 where
  claim : String → VolumeSource
  config_map : String → VolumeSource

pub record Volume : Type 0 where
  pub name : String
  pub source : VolumeSource

pub record Container : Type 0 where
  pub name : String
  pub image : String
  pub port : ℕ
  pub env : List EnvVar
  pub volume_mounts : List VolumeMount
  pub resources : ResourceRequirements
  pub readiness : Probe
  pub liveness : Probe
  pub post_start : Option (List String)

pub data Strategy : Type 0 where
  recreate rolling_update : Strategy

pub record Deployment : Type 0 where
  pub meta : ObjectMeta
  pub replicas : ℕ
  pub selector : Map String
  pub strategy : Strategy
  pub pod_labels : Map String
  pub pod_annotations : Map String
  pub container : Container
  pub volumes : List Volume

pub record Service : Type 0 where
  pub meta : ObjectMeta
  pub kind : String
  pub selector : Map String
  pub port_name : String
  pub port : ℕ
  pub target_port : ℕ
  pub protocol : String

-- A rule with the path "/" of type Prefix and a service as its backend.
pub record IngressRule : Type 0 where
  pub host : String
  pub service : String
  pub port : ℕ

pub record IngressTls : Type 0 where
  pub hosts : List String
  pub secret_name : String

pub record Ingress : Type 0 where
  pub meta : ObjectMeta
  pub class_name : String
  pub rules : List IngressRule
  pub tls : List IngressTls

-- The objects that the reconciler applies.
pub data Object : Type 0 where
  of_config_map : ConfigMap → Object
  of_deployment : Deployment → Object
  of_service : Service → Object
  of_ingress : Ingress → Object

abbrev pub object_meta : Object → ObjectMeta
object_meta (of_config_map o) = o.meta
object_meta (of_deployment o) = o.meta
object_meta (of_service o) = o.meta
object_meta (of_ingress o) = o.meta

abbrev pub set_object_meta : Object → ObjectMeta → Object
set_object_meta (of_config_map o) m = of_config_map (record o { meta = m })
set_object_meta (of_deployment o) m = of_deployment (record o { meta = m })
set_object_meta (of_service o) m = of_service (record o { meta = m })
set_object_meta (of_ingress o) m = of_ingress (record o { meta = m })

-- The metadata of an object that is built anew.
abbrev pub new_meta : String → String → Map String → Map String → ObjectMeta
new_meta name namespace labels annotations = record {
  name = name;
  namespace = namespace;
  labels = labels;
  annotations = annotations;
  finalizers = [];
  resource_version = "";
  generation = 0;
  deletion_timestamp = 0;
}
