-- ===== src/Apiserver/Documents.antt =====
-- internal/apiserver/handlers.go, from crYAML to getSiteYAML: a site and its objects as YAML. The YAML
-- library is a parameter.
pub mod Edited
pub mod Pages
use Prim.Native.String.{◌++◌}
use wordpress_manager_operat.Prelude.{
  ℕ, String, Bool, true, false, Option, none, some, List, [], ◌∷◌, message, Result, ok, err,
}
use wordpress_manager_operat.Maps.{Map}
use wordpress_manager_operat.Api.{WordPressSite, WordPressSiteSpec}
use wordpress_manager_operat.Resources.Names.{Defaults}
use wordpress_manager_operat.Resources.Objects.{Object, of_deployment, of_service, of_ingress}
use wordpress_manager_operat.Resources.Deployment.{desired_deployment, desired_service}
use wordpress_manager_operat.Resources.Ingress.{desired_ingress}
use wordpress_manager_operat.Apiserver.Interface.{
  Client, Reply, json, problem, Handler, not_found_or_500,
}
use wordpress_manager_operat.Apiserver.Sites.{SiteDto, ParsedSite, Server, to_site, fetch}

-- The map of crYAML, whose key `annotations` may be missing.
pub record Document : Type 0 where
  pub api_version : String
  pub kind : String
  pub name : String
  pub namespace : String
  pub annotations : Option (Map String)
  pub spec : WordPressSiteSpec

-- metav1.TypeMeta with the object that it is set on.
pub record TypedObject : Type 0 where
  pub api_version : String
  pub kind : String
  pub object : Object

-- yaml.Marshal of a document and of an object, and yaml.Unmarshal into a WordPressSite.
pub record Yaml : Type 0 where
  pub marshal_document : Document → Result String
  pub marshal_object : TypedObject → Result String
  pub unmarshal : String → Result ParsedSite

abbrev pub if_any : Map String → Option (Map String)
if_any [] = none
if_any (e ∷ m) = some (e ∷ m)

unfoldable pub site_document : WordPressSite → Document
site_document site = record {
  api_version = "wp.benji.dev/v1alpha1";
  kind = "WordPressSite";
  name = site.meta.name;
  namespace = site.meta.namespace;
  annotations = if_any site.meta.annotations;
  spec = site.spec;
}

-- The two texts that getSiteYAML answers with.
pub record Page : Type 0 where
  pub source : String
  pub rendered : String

abbrev pub separator : String
separator = "---\n"

module _ (yaml : Yaml) where
  unfoldable pub cr_yaml : WordPressSite → Result String
  unfolding site_document
  cr_yaml site = yaml.marshal_document (site_document site)

  -- The loop of renderManifests, with what is written so far; `first` is `i == 0`.
  abbrev pub render_next : (String → Result String) → Bool → String → Result String → Result String
  render_next rest first written (err e) = err e
  render_next rest true written (ok y) = rest (written ++ y)
  render_next rest false written (ok y) = rest ((written ++ separator) ++ y)

  unfoldable pub render_objects : Bool → String → List TypedObject → Result String
  render_objects first written [] = ok written
  render_objects first written (o ∷ os) =
      render_next (λ next. render_objects false next os) first written (yaml.marshal_object o)

module _ (sha256 : String → List ℕ) (d : Defaults) where
  abbrev pub manifests : WordPressSite → String → String → List TypedObject
  manifests site db_host db_port =
      record {
        api_version = "apps/v1";
        kind = "Deployment";
        object = of_deployment (desired_deployment sha256 d site db_host db_port);
      }
      ∷ record { api_version = "v1"; kind = "Service"; object = of_service (desired_service site) }
      ∷ record {
        api_version = "networking.k8s.io/v1";
        kind = "Ingress";
        object = of_ingress (desired_ingress d site);
      }
      ∷ []

module _ {W : Type 0} (c : Client W) (s : Server W) (yaml : Yaml) (sha256 : String → List ℕ)
    (d : Defaults) where
  unfoldable pub render_manifests : WordPressSite → Result String
  unfolding render_objects
  render_manifests site = render_objects yaml true "" (manifests sha256 d site s.db_host s.db_port)

  abbrev pub with_rendered : String → Result String → Reply Page
  with_rendered source (err e) = problem 500 (message e)
  with_rendered source (ok text) = json 200 (record { source = source; rendered = text })

  abbrev pub with_source : WordPressSite → Result String → Reply Page
  with_source site (err e) = problem 500 (message e)
  with_source site (ok source) = with_rendered source (render_manifests site)

  -- The two renderings, in their order, as both handlers make them.
  unfoldable pub page_of : WordPressSite → Reply Page
  unfolding cr_yaml render_manifests
  page_of site = with_source site (cr_yaml yaml site)

  -- The three writes of previewYAML.
  abbrev pub written : Reply Page → Reply String
  written (problem n m) = problem n m
  written (json n p) = json n ((p.source ++ separator) ++ p.rendered)

  unfoldable pub preview_yaml : Result SiteDto → Handler W String
  unfolding page_of
  preview_yaml (err e) w = (problem 400 ("invalid JSON: " ++ message e), w)
  preview_yaml (ok dto) w = (written (page_of (to_site s.namespace dto)), w)

  abbrev pub after_read : Result WordPressSite → Handler W Page
  after_read (err e) w = (not_found_or_500 e, w)
  after_read (ok site) w = (page_of site, w)

  unfoldable pub get_site_yaml : String → Handler W Page
  unfolding fetch page_of
  get_site_yaml name w = after_read (fetch c s name w).0 (fetch c s name w).1
