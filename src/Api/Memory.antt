-- ===== src/Api/Memory.antt =====
-- The structs of api/v1alpha1 in memory: their slices, maps and pointers are addresses of cells, a
-- slice that of its elements.
use wordpress_manager_operat.Prelude.{ℕ, String, Bool, false, refl, Option, none, List, []}
use wordpress_manager_operat.Api.{StorageSpec, DatabaseSpec, TlsSpec}
use wordpress_manager_operat.Maps.{Map}
use wordpress_manager_operat.Heap.{Kind}

-- WordPressSiteSpec; the types of the fields that have pointers are left open, since a struct in
-- memory has addresses there, and what it means has values.
pub record SpecOf (Aliases Replicas Force Resources Annotations Env : Type 0) : Type 0 where
  pub domain : String
  pub aliases : Aliases
  pub image : String
  pub replicas : Replicas
  pub resources : Resources
  pub storage : StorageSpec
  pub database : DatabaseSpec
  pub tls : TlsSpec
  pub ingress_class_name : String
  pub ingress_annotations : Annotations
  pub env : Env
  pub php_config : String
  pub php_ini : String
  pub table_prefix : String
  pub force_https : Force
  pub suspend : Bool

pub record StatusOf (Conditions : Type 0) : Type 0 where
  pub phase : String
  pub url : String
  pub database_name : String
  pub database_user : String
  pub secret_name : String
  pub observed_generation : ℕ
  pub conditions : Conditions

-- metav1.TypeMeta
abbrev pub TypeMeta : Type 0
TypeMeta = String × String

pub record SiteOf (Meta Spec Status : Type 0) : Type 0 where
  pub type_meta : TypeMeta
  pub meta : Meta
  pub spec : Spec
  pub status : Status

pub record ListOf (Meta Items : Type 0) : Type 0 where
  pub type_meta : TypeMeta
  pub meta : Meta
  pub items : Items

-- The structs of the Kubernetes libraries in memory, with the zero values of those that stand in a
-- struct, and what else these libraries have in memory.
pub record Types : Type 1 where
  pub Meta : Type 0
  pub Resources : Type 0
  pub EnvVar : Type 0
  pub Condition : Type 0
  pub ListMeta : Type 0
  pub Other : Type 0
  pub zero_meta : Meta
  pub zero_resources : Resources
  pub zero_list_meta : ListMeta

module _ (t : Types) where
  abbrev pub Spec : Type 0
  Spec = SpecOf (Option ℕ) (Option ℕ) (Option ℕ) t.Resources (Option ℕ) (Option ℕ)

  abbrev pub Status : Type 0
  Status = StatusOf (Option ℕ)

  abbrev pub Site : Type 0
  Site = SiteOf t.Meta Spec Status

  abbrev pub SiteList : Type 0
  SiteList = ListOf t.ListMeta (Option ℕ)

  -- What an address may have.
  pub data Cell : Type 0 where
    strings : List String → Cell
    number : ℕ → Cell
    flag : Bool → Cell
    entries : Map String → Cell
    envs : List t.EnvVar → Cell
    conditions : List t.Condition → Cell
    items : List Site → Cell
    spec : Spec → Cell
    status : Status → Cell
    site : Site → Cell
    site_list : SiteList → Cell
    other : t.Other → Cell

  -- The kinds of the cells. Reading a cell as another kind, which no program does, gives the zero
  -- value.
  abbrev pub strings_kind : Kind Cell (List String)
  strings_kind = record {
    wrap = strings;
    unwrap = λ c. elim c [ strings l ↦ l | _ ↦ [] ];
    unwrap-wrap = λ l. refl;
  }

  abbrev pub number_kind : Kind Cell ℕ
  number_kind = record {
    wrap = number;
    unwrap = λ c. elim c [ number n ↦ n | _ ↦ 0 ];
    unwrap-wrap = λ n. refl;
  }

  abbrev pub flag_kind : Kind Cell Bool
  flag_kind = record {
    wrap = flag;
    unwrap = λ c. elim c [ flag b ↦ b | _ ↦ false ];
    unwrap-wrap = λ b. refl;
  }

  abbrev pub entries_kind : Kind Cell (Map String)
  entries_kind = record {
    wrap = entries;
    unwrap = λ c. elim c [ entries m ↦ m | _ ↦ [] ];
    unwrap-wrap = λ m. refl;
  }

  abbrev pub envs_kind : Kind Cell (List t.EnvVar)
  envs_kind = record {
    wrap = envs;
    unwrap = λ c. elim c [ envs l ↦ l | _ ↦ [] ];
    unwrap-wrap = λ l. refl;
  }

  abbrev pub conditions_kind : Kind Cell (List t.Condition)
  conditions_kind = record {
    wrap = conditions;
    unwrap = λ c. elim c [ conditions l ↦ l | _ ↦ [] ];
    unwrap-wrap = λ l. refl;
  }

  abbrev pub items_kind : Kind Cell (List Site)
  items_kind = record {
    wrap = items;
    unwrap = λ c. elim c [ items l ↦ l | _ ↦ [] ];
    unwrap-wrap = λ l. refl;
  }

  abbrev zero_spec : Spec
  zero_spec = record {
    domain = "";
    aliases = none;
    image = "";
    replicas = none;
    resources = t.zero_resources;
    storage = record { shared_pvc_name = ""; sub_path = "" };
    database = record { name = ""; user = ""; host = "" };
    tls = record { enabled = false; issuer = ""; secret_name = "" };
    ingress_class_name = "";
    ingress_annotations = none;
    env = none;
    php_config = "";
    php_ini = "";
    table_prefix = "";
    force_https = none;
    suspend = false;
  }

  abbrev zero_status : Status
  zero_status = record {
    phase = "";
    url = "";
    database_name = "";
    database_user = "";
    secret_name = "";
    observed_generation = 0;
    conditions = none;
  }

  abbrev zero_site : Site
  zero_site = record {
    type_meta = ("", "");
    meta = t.zero_meta;
    spec = zero_spec;
    status = zero_status;
  }

  abbrev zero_list : SiteList
  zero_list = record { type_meta = ("", ""); meta = t.zero_list_meta; items = none }

  abbrev pub spec_kind : Kind Cell Spec
  spec_kind = record {
    wrap = spec;
    unwrap = λ c. elim c [ spec s ↦ s | _ ↦ zero_spec ];
    unwrap-wrap = λ s. refl;
  }

  abbrev pub status_kind : Kind Cell Status
  status_kind = record {
    wrap = status;
    unwrap = λ c. elim c [ status s ↦ s | _ ↦ zero_status ];
    unwrap-wrap = λ s. refl;
  }

  abbrev pub site_kind : Kind Cell Site
  site_kind = record {
    wrap = site;
    unwrap = λ c. elim c [ site s ↦ s | _ ↦ zero_site ];
    unwrap-wrap = λ s. refl;
  }

  abbrev pub list_kind : Kind Cell SiteList
  list_kind = record {
    wrap = site_list;
    unwrap = λ c. elim c [ site_list l ↦ l | _ ↦ zero_list ];
    unwrap-wrap = λ l. refl;
  }
