-- ===== src/Tests/DeepCopy.antt =====
-- The theorem on deep copies, at a list of one site whose only variable points to a key.
use wordpress_manager_operat.Prelude.{
  ℕ, String, true, false, ◌≡◌, refl, Option, none, some, List, [], ◌∷◌, arith, leb, nat_eq, ◌-◌,
  if◌then◌else◌,
}
use mathlib.Core.Option.{map as option_map}
use wordpress_manager_operat.Heap.{Heap, Kind, plain, pointer}
use wordpress_manager_operat.Heap.Copies.{plain-IsDeep, pointer-IsDeep}
use wordpress_manager_operat.Api.Memory.{
  Types, Spec, Site, SiteList, Cell, strings, number, entries, envs, items, site_list, other,
}
use wordpress_manager_operat.Api.DeepCopy.{Library, list_deep_copy_object}
use wordpress_manager_operat.Api.DeepCopy.Meaning.{lists, list_value, view_object}
use wordpress_manager_operat.Api.DeepCopy.Independent.{
  LibraryIsDeep, list_deep_copy_object_independent,
}

-- An environment variable is a pointer to its text, and the other structs are texts.
abbrev types : Types
types = record {
  Meta = String;
  Resources = String;
  EnvVar = Option ℕ;
  Condition = String;
  ListMeta = String;
  Other = String;
  zero_meta = "";
  zero_resources = "";
  zero_list_meta = "";
}

abbrev text_kind : Kind (Cell types) String
text_kind = record {
  wrap = other;
  unwrap = λ c. elim c [ other s ↦ s | _ ↦ "" ];
  unwrap-wrap = λ s. refl;
}

abbrev library : Library types
library = record {
  MetaValue = String;
  ResourcesValue = String;
  EnvVarValue = Option String;
  ConditionValue = String;
  ListMetaValue = String;
  meta = plain;
  resources = plain;
  env_var = pointer plain text_kind;
  condition = plain;
  list_meta = plain;
}

library-IsDeep : LibraryIsDeep types library
library-IsDeep = record {
  meta = plain-IsDeep;
  resources = plain-IsDeep;
  env_var = pointer-IsDeep plain plain-IsDeep text_kind;
  condition = plain-IsDeep;
  list_meta = plain-IsDeep;
}

abbrev spec : Spec types
spec = record {
  domain = "blog.example.com";
  aliases = some 0;
  image = "";
  replicas = some 1;
  resources = "";
  storage = record { shared_pvc_name = ""; sub_path = "" };
  database = record { name = ""; user = ""; host = "" };
  tls = record { enabled = true; issuer = "letsencrypt"; secret_name = "" };
  ingress_class_name = "";
  ingress_annotations = some 4;
  env = some 3;
  php_config = "";
  php_ini = "";
  table_prefix = "wp_";
  force_https = none;
  suspend = false;
}

abbrev site : Site types
site = record {
  type_meta = ("WordPressSite", "wp.benji.dev/v1alpha1");
  meta = "my-blog";
  spec = spec;
  status = record {
    phase = "Ready";
    url = "";
    database_name = "";
    database_user = "";
    secret_name = "";
    observed_generation = 1;
    conditions = none;
  };
}

abbrev listed : SiteList types
listed = record {
  type_meta = ("WordPressSiteList", "wp.benji.dev/v1alpha1");
  meta = "";
  items = some 5;
}

abbrev nth : List (Cell types) → ℕ → Cell types
nth [] n = other ""
nth (c ∷ cs) n = if nat_eq n 0 then c else nth cs (n - 1)

abbrev cells : List (Cell types)
cells =
    strings ("www.example.com" ∷ [])
    ∷ number 2
    ∷ other "key"
    ∷ envs (some 2 ∷ [])
    ∷ entries (("limit", "10") ∷ [])
    ∷ items (site ∷ [])
    ∷ site_list listed
    ∷ []

abbrev heap : Heap (Cell types)
heap = record { next = 7; cell = nth cells }

abbrev copied : Heap (Cell types)
copied = (list_deep_copy_object types library (some 6) heap).1

-- The heaps where all that the copy allocated is overwritten, and where all the rest is.
abbrev over : Heap (Cell types)
over = record copied { cell = λ p. if leb 7 p then other "" else copied.cell p }

abbrev under : Heap (Cell types)
under = record copied { cell = λ p. if leb 7 p then copied.cell p else other "" }

list_deep_copy_object_independent_example :
    ((lists types library).view over (some 6) ≡ (lists types library).view heap (some 6))
    × (view_object types library under (list_deep_copy_object types library (some 6) heap).0
        ≡ option_map (λ v. list_value v) ((lists types library).view heap (some 6)))
list_deep_copy_object_independent_example =
    list_deep_copy_object_independent types library library-IsDeep heap (some 6) over under
      (
        omega arith,
        (
          tt,
          (
            omega arith,
            (
              (
                tt,
                (
                  (
                    omega arith,
                    (
                      (omega arith, tt),
                      (tt, (tt, ((omega arith, tt), (omega arith, ((omega arith, tt), tt))))),
                    ),
                  ),
                  tt,
                ),
              ),
              tt,
            ),
          ),
        ),
      )
      (λ p b. ground (arith, b)) (λ p b. ground (arith, b))
