-- ===== src/Api/DeepCopy/Meaning.antt =====
-- What a struct of the API means, with all that it points to.
use wordpress_manager_operat.Prelude.{ℕ, String, Bool, Option, none, some, List, []}
use wordpress_manager_operat.Maps.{lookup, copy}
use wordpress_manager_operat.Heap.{Heap, Copier, plain, rebuilt, both, elements, pointer, struct_of}
use wordpress_manager_operat.Api.Memory.{
  SpecOf, StatusOf, SiteOf, ListOf, Types, Spec, Status, Site, SiteList, Cell, strings_kind,
  number_kind, flag_kind, entries_kind, envs_kind, conditions_kind, items_kind, site_kind,
  list_kind,
}
use wordpress_manager_operat.Api.DeepCopy.{Library, Object, site_object, list_object, copy_aliases}

module _ (t : Types) (l : Library t) where
  -- Aliases are what a range over them sees: none in a nil slice.
  abbrev pub view_aliases : Heap (Cell t) → Option ℕ → List String
  view_aliases h none = []
  view_aliases h (some p) = (strings_kind t).unwrap (h.cell p)

  abbrev pub ReachAliases : (ℕ → Type 0) → Option ℕ → Type 0
  ReachAliases Q none = Unit
  ReachAliases Q (some p) = Q p

  abbrev pub aliases : Copier (Cell t) (Option ℕ) (List String)
  aliases = record {
    copy = copy_aliases t l;
    view = view_aliases;
    Reach = λ Q h x. ReachAliases Q x;
  }

  abbrev pub replicas : Copier (Cell t) (Option ℕ) (Option ℕ)
  replicas = pointer plain (number_kind t)

  abbrev pub force_https : Copier (Cell t) (Option ℕ) (Option Bool)
  force_https = pointer plain (flag_kind t)

  -- Annotations are read by their keys.
  abbrev pub annotations : Copier (Cell t) (Option ℕ) (Option (String → Option String))
  annotations = pointer (rebuilt (copy []) (λ m k. lookup k m)) (entries_kind t)

  abbrev pub env : Copier (Cell t) (Option ℕ) (Option (List l.EnvVarValue))
  env = pointer (elements l.env_var) (envs_kind t)

  abbrev pub SpecValue : Type 0
  SpecValue =
      SpecOf (List String) (Option ℕ) (Option Bool) l.ResourcesValue
        (Option (String → Option String)) (Option (List l.EnvVarValue))

  -- The fields of a struct that have pointers, in the order in which they are copied; a struct with
  -- others in their place; and one with what these mean.
  abbrev pub SpecRefs : Type 0
  SpecRefs = Option ℕ × (Option ℕ × (Option ℕ × (t.Resources × (Option ℕ × Option ℕ))))

  abbrev pub spec_refs : Spec t → SpecRefs
  spec_refs s =
      (s.aliases, (s.replicas, (s.force_https, (s.resources, (s.ingress_annotations, s.env)))))

  abbrev pub fill_spec : Spec t → SpecRefs → Spec t
  fill_spec s (aliases, (replicas, (force_https, (resources, (annotations, env))))) = record s {
    aliases = aliases;
    replicas = replicas;
    force_https = force_https;
    resources = resources;
    ingress_annotations = annotations;
    env = env;
  }

  abbrev pub SpecFields : Type 0
  SpecFields =
      List String
      × (Option ℕ
          × (Option Bool
              × (l.ResourcesValue
                  × (Option (String → Option String) × Option (List l.EnvVarValue)))))

  abbrev pub show_spec : Spec t → SpecFields → SpecValue
  show_spec s (aliases, (replicas, (force_https, (resources, (annotations, env))))) = record {
    domain = s.domain;
    aliases = aliases;
    image = s.image;
    replicas = replicas;
    resources = resources;
    storage = s.storage;
    database = s.database;
    tls = s.tls;
    ingress_class_name = s.ingress_class_name;
    ingress_annotations = annotations;
    env = env;
    php_config = s.php_config;
    php_ini = s.php_ini;
    table_prefix = s.table_prefix;
    force_https = force_https;
    suspend = s.suspend;
  }

  abbrev pub spec_fields : Copier (Cell t) SpecRefs SpecFields
  spec_fields =
      both aliases (both replicas (both force_https (both l.resources (both annotations env))))

  abbrev pub spec_struct : Copier (Cell t) (Spec t) SpecValue
  spec_struct = struct_of spec_fields spec_refs fill_spec show_spec

  abbrev pub conditions : Copier (Cell t) (Option ℕ) (Option (List l.ConditionValue))
  conditions = pointer (elements l.condition) (conditions_kind t)

  abbrev pub StatusValue : Type 0
  StatusValue = StatusOf (Option (List l.ConditionValue))

  abbrev pub fill_status : Status t → Option ℕ → Status t
  fill_status s conditions = record s { conditions = conditions }

  abbrev pub show_status : Status t → Option (List l.ConditionValue) → StatusValue
  show_status s conditions = record {
    phase = s.phase;
    url = s.url;
    database_name = s.database_name;
    database_user = s.database_user;
    secret_name = s.secret_name;
    observed_generation = s.observed_generation;
    conditions = conditions;
  }

  abbrev pub status_struct : Copier (Cell t) (Status t) StatusValue
  status_struct = struct_of conditions (λ s. s.conditions) fill_status show_status

  abbrev pub SiteValue : Type 0
  SiteValue = SiteOf l.MetaValue SpecValue StatusValue

  abbrev pub fill_site : Site t → t.Meta × (Spec t × Status t) → Site t
  fill_site s (meta, (spec, status)) = record s { meta = meta; spec = spec; status = status }

  abbrev pub show_site : Site t → l.MetaValue × (SpecValue × StatusValue) → SiteValue
  show_site s (meta, (spec, status)) = record {
    type_meta = s.type_meta;
    meta = meta;
    spec = spec;
    status = status;
  }

  abbrev pub site_struct : Copier (Cell t) (Site t) SiteValue
  site_struct =
      struct_of (both l.meta (both spec_struct status_struct)) (λ s. (s.meta, (s.spec, s.status)))
        fill_site show_site

  abbrev pub site_items : Copier (Cell t) (Option ℕ) (Option (List SiteValue))
  site_items = pointer (elements site_struct) (items_kind t)

  abbrev pub ListValue : Type 0
  ListValue = ListOf l.ListMetaValue (Option (List SiteValue))

  abbrev pub fill_list : SiteList t → t.ListMeta × Option ℕ → SiteList t
  fill_list s (meta, items) = record s { meta = meta; items = items }

  abbrev pub show_list : SiteList t → l.ListMetaValue × Option (List SiteValue) → ListValue
  show_list s (meta, items) = record { type_meta = s.type_meta; meta = meta; items = items }

  abbrev pub list_struct : Copier (Cell t) (SiteList t) ListValue
  list_struct = struct_of (both l.list_meta site_items) (λ s. (s.meta, s.items)) fill_list show_list

  -- Pointers to the structs.
  abbrev pub sites : Copier (Cell t) (Option ℕ) (Option SiteValue)
  sites = pointer site_struct (site_kind t)

  abbrev pub lists : Copier (Cell t) (Option ℕ) (Option ListValue)
  lists = pointer list_struct (list_kind t)

  -- What a runtime.Object means, and what one of a kind is where there is one.
  pub data ObjectValue : Type 0 where
    site_value : SiteValue → ObjectValue
    list_value : ListValue → ObjectValue

  abbrev pub view_object : Heap (Cell t) → Option Object → Option ObjectValue
  view_object h none = none
  view_object h (some (site_object p)) =
      some (site_value (site_struct.view h ((site_kind t).unwrap (h.cell p))))
  view_object h (some (list_object p)) =
      some (list_value (list_struct.view h ((list_kind t).unwrap (h.cell p))))
