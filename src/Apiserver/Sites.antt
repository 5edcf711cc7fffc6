-- ===== src/Apiserver/Sites.antt =====
-- internal/apiserver/handlers.go: the sites as the UI sees them, and the handlers that read and
-- write them.
use Prim.Native.String.{◌++◌}
use wordpress_manager_operat.Prelude.{
  ℕ, String, Bool, false, not, ◌||◌, ◌&&◌, ◌==◌, ltb, nat_eq, Option, none, some, value_or, List,
  [], ◌∷◌, map, message, is_already_exists, Result, ok, err, Exec, if◌then◌else◌,
}
use wordpress_manager_operat.Text.{is_empty}
use wordpress_manager_operat.Maps.{Map}
use wordpress_manager_operat.Api.{WordPressSite, WordPressSiteSpec, no_resources, Condition}
use wordpress_manager_operat.Resources.Objects.{new_meta}
use wordpress_manager_operat.Resources.Deployment.{force_https_enabled}
use wordpress_manager_operat.Controller.Interface.{ObjectKey}
use wordpress_manager_operat.Apiserver.Interface.{
  Client, Reply, json, problem, Handler, not_found_or_500,
}

pub record SiteDto : Type 0 where
  pub name : String
  pub domain : String
  pub aliases : List String
  pub image : String
  pub replicas : ℕ
  pub tls_enabled : Bool
  pub tls_issuer : String
  pub ingress_class : String
  pub table_prefix : String
  pub php_config : String
  pub php_ini : String
  pub force_https : Option Bool
  pub suspended : Bool
  pub phase : String
  pub message : String
  pub url : String
  pub database_name : String
  pub database_user : String

-- The second half of latestConditionMessage: the message of the last condition.
abbrev pub last_message : List Condition → String
last_message [] = ""
last_message (c ∷ []) = c.message
last_message (c ∷ d ∷ ds) = last_message (d ∷ ds)

-- Its loop, where `all` is the whole list.
abbrev pub ready_message : List Condition → List Condition → String
ready_message all [] = last_message all
ready_message all (c ∷ cs) = if c.kind == "Ready" then c.message else ready_message all cs

unfoldable pub latest_condition_message : WordPressSite → String
latest_condition_message s = ready_message s.status.conditions s.status.conditions

unfoldable pub to_dto : WordPressSite → SiteDto
to_dto s = record {
  name = s.meta.name;
  domain = s.spec.domain;
  aliases = s.spec.aliases;
  image = s.spec.image;
  replicas = value_or s.spec.replicas 1;
  tls_enabled = s.spec.tls.enabled;
  tls_issuer = s.spec.tls.issuer;
  ingress_class = s.spec.ingress_class_name;
  table_prefix = s.spec.table_prefix;
  php_config = s.spec.php_config;
  php_ini = s.spec.php_ini;
  force_https = some (force_https_enabled s);
  suspended = s.spec.suspend;
  phase = s.status.phase;
  message = latest_condition_message s;
  url = s.status.url;
  database_name = s.status.database_name;
  database_user = s.status.database_user;
}

unfoldable pub to_site : String → SiteDto → WordPressSite
to_site namespace d = record {
  meta = new_meta d.name namespace [] [];
  spec = record {
    domain = d.domain;
    aliases = d.aliases;
    image = d.image;
    replicas = some (if nat_eq d.replicas 0 then 1 else d.replicas);
    resources = no_resources;
    storage = record { shared_pvc_name = ""; sub_path = "" };
    database = record { name = ""; user = ""; host = "" };
    tls = record { enabled = d.tls_enabled; issuer = d.tls_issuer; secret_name = "" };
    ingress_class_name = d.ingress_class;
    ingress_annotations = [];
    env = [];
    php_config = d.php_config;
    php_ini = d.php_ini;
    table_prefix = d.table_prefix;
    force_https = d.force_https;
    suspend = false;
  };
  status = record {
    phase = "";
    url = "";
    database_name = "";
    database_user = "";
    secret_name = "";
    observed_generation = 0;
    conditions = [];
  };
}

abbrev pub or_kept : Option Bool → Option Bool → Option Bool
or_kept none old = old
or_kept (some b) old = some b

-- The assignments of updateSite.
unfoldable pub patch_spec : SiteDto → WordPressSiteSpec → WordPressSiteSpec
patch_spec d sp = record sp {
  domain = d.domain;
  aliases = d.aliases;
  image = d.image;
  replicas = if ltb 0 d.replicas then some d.replicas else sp.replicas;
  ingress_class_name = d.ingress_class;
  table_prefix = d.table_prefix;
  php_config = d.php_config;
  php_ini = d.php_ini;
  force_https = or_kept d.force_https sp.force_https;
  tls = record { enabled = d.tls_enabled; issuer = d.tls_issuer; secret_name = "" };
}

unfoldable pub patch_site : SiteDto → WordPressSite → WordPressSite
patch_site d site = record site { spec = patch_spec d site.spec }

-- What updateSiteYAML takes from the document; its annotations are `none` where it has none.
pub record ParsedSite : Type 0 where
  pub name : String
  pub annotations : Option (Map String)
  pub spec : WordPressSiteSpec

abbrev pub with_annotations : Option (Map String) → WordPressSite → WordPressSite
with_annotations none site = site
with_annotations (some m) site = record site { meta = record (site.meta) { annotations = m } }

unfoldable pub replace_site : ParsedSite → WordPressSite → WordPressSite
replace_site p site = with_annotations p.annotations (record site { spec = p.spec })

-- The server's namespace, the address of the database that it prints, and, in the development mode,
-- the reconciler that it runs itself.
pub record Server (W : Type 0) : Type 0 where
  pub namespace : String
  pub db_host : String
  pub db_port : String
  pub reconcile : Option (String → String → Exec W (Unit {0}))

abbrev pub site_key : WordPressSite → ObjectKey
site_key s = record { namespace = s.meta.namespace; name = s.meta.name }

abbrev pub got_or : WordPressSite → Result WordPressSite → WordPressSite
got_or site (ok s) = s
got_or site (err e) = site

module _ {W : Type 0} (c : Client W) (s : Server W) where
  unfoldable pub fetch : String → Exec W WordPressSite
  fetch name = c.get_site (record { namespace = s.namespace; name = name })

  -- maybeReconcile, and the read behind it, which keeps the site where it fails.
  abbrev pub settle_with :
      Option (String → String → Exec W (Unit {0})) → WordPressSite → W → WordPressSite × W
  settle_with none site w = (site, w)
  settle_with (some run) site w =
      let w1 = (run s.namespace site.meta.name w).1 in
      (got_or site (c.get_site (site_key site) w1).0, (c.get_site (site_key site) w1).1)

  unfoldable pub settle : WordPressSite → W → WordPressSite × W
  settle site w = settle_with s.reconcile site w

  abbrev pub after_update : Result WordPressSite → Handler W SiteDto
  after_update (err e) w = (problem 500 (message e), w)
  after_update (ok site) w = (json 200 (to_dto (settle site w).0), (settle site w).1)

  abbrev pub after_fetch :
      (WordPressSite → WordPressSite) → Result WordPressSite → Handler W SiteDto
  after_fetch edit (err e) w = (not_found_or_500 e, w)
  after_fetch edit (ok site) w =
      after_update (c.update_site (edit site) w).0 (c.update_site (edit site) w).1

  -- The common end of updateSite, setSuspend and updateSiteYAML: read, edit, write, answer.
  unfoldable pub edit_site : (WordPressSite → WordPressSite) → String → Handler W SiteDto
  unfolding fetch settle
  edit_site edit name w = after_fetch edit (fetch name w).0 (fetch name w).1

  -- The body as the JSON decoder returns it.
  unfoldable pub update_site : String → Result SiteDto → Handler W SiteDto
  unfolding edit_site
  update_site name (err e) w = (problem 400 ("invalid JSON: " ++ message e), w)
  update_site name (ok d) w =
      if is_empty d.domain
      then (problem 400 "domain is required", w)
      else edit_site (patch_site d) name w

  unfoldable pub set_suspend : Bool → String → Handler W SiteDto
  unfolding edit_site
  set_suspend b name w =
      edit_site (λ site. record site { spec = record (site.spec) { suspend = b } }) name w

  -- The body as it is read, up to a mebibyte, and then as the YAML decoder returns it.
  unfoldable pub update_site_yaml : String → Result (Result ParsedSite) → Handler W SiteDto
  unfolding edit_site
  update_site_yaml name (err e) w = (problem 400 ("read body: " ++ message e), w)
  update_site_yaml name (ok (err e)) w = (problem 400 ("invalid YAML: " ++ message e), w)
  update_site_yaml name (ok (ok p)) w =
      if not (is_empty p.name) && not (p.name == name)
      then (problem 400 "metadata.name must match the host being edited", w)
      else if is_empty p.spec.domain
      then (problem 400 "spec.domain is required", w)
      else edit_site (replace_site p) name w

  abbrev pub after_create : Result WordPressSite → Handler W SiteDto
  after_create (err e) w =
      if is_already_exists e
      then (problem 409 "site already exists", w)
      else (problem 500 (message e), w)
  after_create (ok site) w = (json 201 (to_dto (settle site w).0), (settle site w).1)

  unfoldable pub create_site : Result SiteDto → Handler W SiteDto
  unfolding settle
  create_site (err e) w = (problem 400 ("invalid JSON: " ++ message e), w)
  create_site (ok d) w =
      if is_empty d.name || is_empty d.domain
      then (problem 400 "name and domain are required", w)
      else after_create (c.create_site (to_site s.namespace d) w).0
          (c.create_site (to_site s.namespace d) w).1

  abbrev pub reply_dto : Result WordPressSite → Reply SiteDto
  reply_dto (ok site) = json 200 (to_dto site)
  reply_dto (err e) = not_found_or_500 e

  unfoldable pub get_site : String → Handler W SiteDto
  unfolding fetch
  get_site name w = (reply_dto (fetch name w).0, (fetch name w).1)

  abbrev pub reply_list : Result (List WordPressSite) → Reply (List SiteDto)
  reply_list (ok sites) = json 200 (map to_dto sites)
  reply_list (err e) = problem 500 (message e)

  unfoldable pub list_sites : Handler W (List SiteDto)
  list_sites w = (reply_list (c.list_sites s.namespace w).0, (c.list_sites s.namespace w).1)

  abbrev pub run_reconcile : Option (String → String → Exec W (Unit {0})) → String → W → W
  run_reconcile none name w = w
  run_reconcile (some run) name w = (run s.namespace name w).1

  abbrev pub after_delete : String → Result (Unit {0}) → Handler W (Unit {0})
  after_delete name (err e) w = (problem 500 (message e), w)
  after_delete name (ok _) w = (json 204 tt, run_reconcile s.reconcile name w)

  abbrev pub after_fetched : Result WordPressSite → Handler W (Unit {0})
  after_fetched (err e) w = (not_found_or_500 e, w)
  after_fetched (ok site) w =
      after_delete site.meta.name (c.delete_site site w).0 (c.delete_site site w).1

  unfoldable pub delete_site : String → Handler W (Unit {0})
  unfolding fetch
  delete_site name w = after_fetched (fetch name w).0 (fetch name w).1
