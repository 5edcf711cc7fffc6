-- ===== src/Api.antt =====
-- api/v1alpha1/wordpresssite_types.go: the custom resource, its phases and its finalizer, with the
-- parts of the Kubernetes metadata that the program reads or writes.
pub mod Memory
pub mod DeepCopy
use wordpress_manager_operat.Prelude.{ℕ, String, Bool, Option, List, []}
use wordpress_manager_operat.Maps.{Map}

-- The value of a corev1.EnvVar: a literal, or what it is taken from (EnvVarSource): a key of a Secret
-- or of a ConfigMap, a field of the pod (with the version of its schema), or a resource of a container
-- (with its divisor).
pub data EnvSource : Type 0 where
  literal : String → EnvSource
  secret_key config_map_key : String → String → EnvSource
  field : String → String → EnvSource
  resource_field : String → String → String → EnvSource

pub record EnvVar : Type 0 where
  pub name : String
  pub source : EnvSource

-- resource.Quantity, by its MilliValue and its Value.
pub record Quantity : Type 0 where
  pub milli_value : ℕ
  pub value : ℕ

-- corev1.ResourceClaim
pub record ResourceClaim : Type 0 where
  pub name : String
  pub request : String

-- corev1.ResourceRequirements
pub record ResourceRequirements : Type 0 where
  pub limits : Map Quantity
  pub requests : Map Quantity
  pub claims : List ResourceClaim

abbrev pub no_resources : ResourceRequirements
no_resources = record { limits = []; requests = []; claims = [] }

pub record StorageSpec : Type 0 where
  pub shared_pvc_name : String
  pub sub_path : String

pub record DatabaseSpec : Type 0 where
  pub name : String
  pub user : String
  pub host : String

pub record TlsSpec : Type 0 where
  pub enabled : Bool
  pub issuer : String
  pub secret_name : String

pub record WordPressSiteSpec : Type 0 where
  pub domain : String
  pub aliases : List String
  pub image : String
  pub replicas : Option ℕ
  pub resources : ResourceRequirements
  pub storage : StorageSpec
  pub database : DatabaseSpec
  pub tls : TlsSpec
  pub ingress_class_name : String
  pub ingress_annotations : Map String
  pub env : List EnvVar
  pub php_config : String
  pub php_ini : String
  pub table_prefix : String
  pub force_https : Option Bool
  pub suspend : Bool

-- metav1.Condition; a time is a number of seconds, 0 where it is the zero time.
pub record Condition : Type 0 where
  pub kind : String
  pub status : String
  pub reason : String
  pub message : String
  pub observed_generation : ℕ
  pub last_transition_time : ℕ

pub record WordPressSiteStatus : Type 0 where
  pub phase : String
  pub url : String
  pub database_name : String
  pub database_user : String
  pub secret_name : String
  pub observed_generation : ℕ
  pub conditions : List Condition

-- metav1.ObjectMeta
pub record ObjectMeta : Type 0 where
  pub name : String
  pub namespace : String
  pub labels : Map String
  pub annotations : Map String
  pub finalizers : List String
  pub resource_version : String
  pub generation : ℕ
  pub deletion_timestamp : ℕ

pub record WordPressSite : Type 0 where
  pub meta : ObjectMeta
  pub spec : WordPressSiteSpec
  pub status : WordPressSiteStatus

abbrev pub phase_provisioning : String
phase_provisioning = "Provisioning"

abbrev pub phase_ready : String
phase_ready = "Ready"

abbrev pub phase_suspended : String
phase_suspended = "Suspended"

abbrev pub phase_error : String
phase_error = "Error"

abbrev pub finalizer : String
finalizer = "wp.benji.dev/finalizer"
