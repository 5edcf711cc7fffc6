-- ===== src/Api/DeepCopy.antt =====
-- api/v1alpha1/zz_generated.deepcopy.go: the deep copies of the custom resource, on structs in
-- memory. The copy of a slice is allocated behind what its elements allocate.
pub mod Meaning
pub mod Independent
use wordpress_manager_operat.Prelude.{ℕ, String, Option, none, some, List, [], ◌∷◌}
use wordpress_manager_operat.Maps.{copy}
use wordpress_manager_operat.Heap.{Alloc, Copier, stay, ◌>>>=◌, alloc, copy_elements, copy_pointer}
use wordpress_manager_operat.Api.Memory.{
  Types, Spec, Status, Site, SiteList, Cell, strings_kind, number_kind, flag_kind, entries_kind,
  envs_kind, conditions_kind, items_kind, spec_kind, status_kind, site_kind, list_kind,
}

-- The deep copies of the Kubernetes libraries, with what their structs mean.
pub record Library (t : Types) : Type 1 where
  pub MetaValue : Type 0
  pub ResourcesValue : Type 0
  pub EnvVarValue : Type 0
  pub ConditionValue : Type 0
  pub ListMetaValue : Type 0
  pub meta : Copier (Cell t) t.Meta MetaValue
  pub resources : Copier (Cell t) t.Resources ResourcesValue
  pub env_var : Copier (Cell t) t.EnvVar EnvVarValue
  pub condition : Copier (Cell t) t.Condition ConditionValue
  pub list_meta : Copier (Cell t) t.ListMeta ListMetaValue

-- A runtime.Object that is not nil.
pub data Object : Type 0 where
  site_object : ℕ → Object
  list_object : ℕ → Object

-- `if c := in.DeepCopy(); c != nil { return c }; return nil`
abbrev pub as_object : (ℕ → Object) → Option ℕ → Option Object
as_object f none = none
as_object f (some p) = some (f p)

module _ (t : Types) (l : Library t) where
  -- append([]string(nil), names...) is nil where there are no names.
  abbrev pub appended : List String → Alloc (Cell t) (Option ℕ)
  appended [] h = (none, h)
  appended (x ∷ xs) h = let (p, h1) = alloc (strings_kind t) (x ∷ xs) h in (some p, h1)

  unfoldable pub copy_aliases : Option ℕ → Alloc (Cell t) (Option ℕ)
  copy_aliases none h = (none, h)
  copy_aliases (some p) h = appended ((strings_kind t).unwrap (h.cell p)) h

  -- (*WordPressSiteSpec).DeepCopyInto; the result is what stands in `out`.
  unfoldable pub spec_deep_copy_into : Spec t → Alloc (Cell t) (Spec t)
  unfolding copy_aliases
  spec_deep_copy_into s = copy_aliases s.aliases >>>= λ aliases.
      copy_pointer stay (number_kind t) s.replicas >>>= λ replicas.
      copy_pointer stay (flag_kind t) s.force_https >>>= λ force_https.
      l.resources.copy s.resources >>>= λ resources.
      copy_pointer (λ m. stay (copy [] m)) (entries_kind t) s.ingress_annotations
      >>>= λ annotations.
          copy_pointer (copy_elements l.env_var.copy) (envs_kind t) s.env >>>= λ env.
          stay (record s {
            aliases = aliases;
            replicas = replicas;
            force_https = force_https;
            resources = resources;
            ingress_annotations = annotations;
            env = env;
          })

  -- (*WordPressSiteStatus).DeepCopyInto
  unfoldable pub status_deep_copy_into : Status t → Alloc (Cell t) (Status t)
  status_deep_copy_into s =
      copy_pointer (copy_elements l.condition.copy) (conditions_kind t) s.conditions
      >>>= λ conditions. stay (record s { conditions = conditions })

  -- (*WordPressSite).DeepCopyInto
  unfoldable pub site_deep_copy_into : Site t → Alloc (Cell t) (Site t)
  unfolding spec_deep_copy_into status_deep_copy_into
  site_deep_copy_into s = l.meta.copy s.meta >>>= λ meta. spec_deep_copy_into s.spec >>>= λ spec.
      status_deep_copy_into s.status >>>= λ status.
      stay (record s { meta = meta; spec = spec; status = status })

  -- (*WordPressSiteList).DeepCopyInto
  unfoldable pub list_deep_copy_into : SiteList t → Alloc (Cell t) (SiteList t)
  unfolding site_deep_copy_into
  list_deep_copy_into s = l.list_meta.copy s.meta >>>= λ meta.
      copy_pointer (copy_elements site_deep_copy_into) (items_kind t) s.items >>>= λ items.
      stay (record s { meta = meta; items = items })

  -- DeepCopy of each struct: nil for nil, and otherwise a new struct that is copied into.
  unfoldable pub spec_deep_copy : Option ℕ → Alloc (Cell t) (Option ℕ)
  unfolding spec_deep_copy_into
  spec_deep_copy p h = copy_pointer spec_deep_copy_into (spec_kind t) p h

  unfoldable pub status_deep_copy : Option ℕ → Alloc (Cell t) (Option ℕ)
  unfolding status_deep_copy_into
  status_deep_copy p h = copy_pointer status_deep_copy_into (status_kind t) p h

  unfoldable pub site_deep_copy : Option ℕ → Alloc (Cell t) (Option ℕ)
  unfolding site_deep_copy_into
  site_deep_copy p h = copy_pointer site_deep_copy_into (site_kind t) p h

  unfoldable pub list_deep_copy : Option ℕ → Alloc (Cell t) (Option ℕ)
  unfolding list_deep_copy_into
  list_deep_copy p h = copy_pointer list_deep_copy_into (list_kind t) p h

  unfoldable pub site_deep_copy_object : Option ℕ → Alloc (Cell t) (Option Object)
  unfolding site_deep_copy
  site_deep_copy_object p = site_deep_copy p >>>= λ c. stay (as_object site_object c)

  unfoldable pub list_deep_copy_object : Option ℕ → Alloc (Cell t) (Option Object)
  unfolding list_deep_copy
  list_deep_copy_object p = list_deep_copy p >>>= λ c. stay (as_object list_object c)
