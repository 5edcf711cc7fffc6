-- ===== src/Tests/App.antt =====
-- The theorems on the router, the documents and the commands, with one API server.
use wordpress_manager_operat.Maps.{lookup}
use Prim.Native.String.{◌++◌}
use wordpress_manager_operat.Prelude.{
  ℕ, String, ◌≡◌, ◌≢◌, ◌⊎◌, arith, refl, true, false, ◌==◌, ne_of_==-false, some, none, List, [],
  ◌∷◌, ok, result_injective, if◌then◌else◌,
}
use wordpress_manager_operat.Controller.{workload_objects}
use wordpress_manager_operat.Controller.Interface.{Database}
use wordpress_manager_operat.Apiserver.Interface.{problem}
use wordpress_manager_operat.Apiserver.Login.{
  LoginBody, Authenticator, login, verify_password, second_factor, issue_token, issue,
  new_authenticator,
}
use wordpress_manager_operat.Apiserver.TwoFa.{
  validate, enable, enable_from, enabled, load, save, is_enabled,
}
use wordpress_manager_operat.Apiserver.Factors.{Authorised, kube_two_factor}
use wordpress_manager_operat.Apiserver.Sites.{Server, update_site_yaml, fetch, after_update}
use wordpress_manager_operat.Apiserver.Documents.{Yaml, site_document, cr_yaml}
use wordpress_manager_operat.Apiserver.Documents.Edited.{parsed_of, update_site_yaml-cr_yaml}
use wordpress_manager_operat.Apiserver.Admin.{two_fa_enable, two_fa_mutate}
use wordpress_manager_operat.Apiserver.Admin.Switching.{two_fa_enable-login}
use wordpress_manager_operat.Apiserver.Routes.{App, get_me, get_sites, guarded, handle, serve}
use wordpress_manager_operat.Apiserver.Routes.Guard.{serve-Authorised, serve-login}
use wordpress_manager_operat.Commands.{
  sqlite_database, Environment, env, Kube, Platform, Backend, kube_backend, operator, app_of,
  apiserver, backend, authenticator,
}
use wordpress_manager_operat.Commands.Safety.{IsSecured, apiserver-IsSecured}
use wordpress_manager_operat.Commands.Rendering.{shown, claim_name, shown-ne_workload_objects}
use wordpress_manager_operat.Tests.Sites.{blog, cluster_defaults}
use wordpress_manager_operat.Api.{WordPressSite}
use wordpress_manager_operat.Tests.Controller.{key}
use wordpress_manager_operat.Tests.Stores.{
  Slot, slot, store, store-IsStore, admin_factor, one_code, one_token, one_token-IsSound, admin,
}
use wordpress_manager_operat.Tests.Recovery.{calm}
use wordpress_manager_operat.Tests.Status.{format, diagnostics, swapped}

-- The site with an edited domain.
abbrev moved : WordPressSite
moved = record blog { spec = record (blog.spec) { domain = "new.example.com" } }

abbrev pub yaml : Yaml
yaml = record {
  marshal_document = λ d. ok d.spec.domain;
  marshal_object = λ o. ok o.kind;
  unmarshal =
      λ text. ok (parsed_of (site_document (if text == "new.example.com" then moved else blog)));
}

abbrev pub hash : String → List ℕ
hash text = 1 ∷ []

abbrev api : Server Slot
api = record { namespace = "sites"; db_host = "mysql"; db_port = "3306"; reconcile = none }

abbrev app : App Slot
app = record {
  client = store;
  server = api;
  auth = admin;
  metrics = none;
  two_fa = some (kube_two_factor store one_code admin_factor);
  crypto = one_token;
  now = λ w. 100;
  yaml = yaml;
  sha256 = hash;
  defaults = cluster_defaults;
  diagnostics = diagnostics;
  format = format;
  sort = swapped;
}

abbrev protected : Slot
protected = slot (("secret", "NEW") ∷ ("enabled", "true") ∷ [])

abbrev body : LoginBody
body = record { username = "admin"; password = "pw"; totp = "123456" }

serve-Authorised_example :
    ((user : String) × Authorised one_token admin (λ w. 100) "Bearer token" protected user
      × (serve app "Bearer token" (guarded get_sites) protected
          ≡ handle app get_sites user protected))
    ⊎ ((m : String) × (serve app "Bearer token" (guarded get_sites) protected
          ≡ (problem 401 m, protected)))
serve-Authorised_example = serve-Authorised app get_sites "Bearer token" protected

serve-login_example :
    serve app ("Bearer " ++ "token") (guarded get_me) protected
    ≡ handle app get_me "admin" protected
unfolding serve login verify_password second_factor enabled is_enabled load issue_token issue lookup
    validate
serve-login_example =
    serve-login app one_token-IsSound body "token" "" get_me protected protected protected refl
      (omega arith)

abbrev pending : Slot
pending = slot (("pending", "NEW") ∷ [])

two_fa_enable-login_example :
    login one_token admin
      (λ w. 100)
      (some (kube_two_factor store one_code admin_factor))
      (some (record { username = "admin"; password = "pw"; totp = "" }))
      protected
    ≡ (problem 401 "totp_required", protected)
unfolding two_fa_enable two_fa_mutate enable enable_from enabled load save is_enabled
    verify_password lookup
two_fa_enable-login_example =
    two_fa_enable-login store one_code admin_factor store-IsStore one_token admin (λ w. 100)
      "123456" "admin" "pw" true pending protected refl refl

update_site_yaml-cr_yaml_example :
    update_site_yaml store api "my-blog" (ok (yaml.unmarshal "new.example.com")) none
    ≡ after_update store api (ok moved) none
unfolding cr_yaml site_document fetch
update_site_yaml-cr_yaml_example =
    update_site_yaml-cr_yaml store api yaml "new.example.com" blog moved none none refl
      (λ t h. rw (← result_injective h) refl) refl refl refl

-- An environment with what the API server needs, and one variable more.
abbrev pub setting : String → String → Environment
setting key value name =
    if name == "JWT_SECRET"
    then "key"
    else if name == "ADMIN_PASSWORD"
    then "pw"
    else if name == key
    then value
    else ""

abbrev kube : Kube Slot
kube = record {
  cluster = calm;
  client = store;
  listing = record {
    list_nodes = λ w. (ok [], w);
    list_node_metrics = λ w. (ok [], w);
    list_pod_metrics = λ n w. (ok [], w);
    list_sites = λ n w. (ok [], w);
  };
  diagnostics = diagnostics;
}

abbrev platform : Platform Slot (Unit {0})
platform = record {
  fake = kube;
  get_config = λ w. (ok "kubeconfig", w);
  new_client = λ cfg w. (ok kube, w);
  sqlite = record {
    mkdir_all = λ dir w. (ok tt, w);
    remove = λ file w. (ok tt, w);
    is_not_exist = λ e. false;
    join = λ dir file. dir ++ "/" ++ file;
    quote = λ text. text;
    sql_open = λ file w. (ok tt, w);
    exec = λ db sql args w. (ok tt, w);
    close = λ db w. w;
    range = λ w m. m;
  };
  hashed = λ text. ok text;
  crypto = one_token;
  totp = one_code;
  now = λ w. 100;
  yaml = yaml;
  sha256 = hash;
  order = λ m. m;
  format = format;
  sort = swapped;
}

abbrev production : Backend Slot
production = kube_backend platform (setting "" "") kube

abbrev signer : Authenticator
signer = record { username = "admin"; password_hash = "pw"; jwt_secret = "key"; ttl = 86400 }

apiserver-IsSecured_example :
    IsSecured (setting "" "") (app_of platform (setting "" "") production signer).auth
unfolding apiserver backend env authenticator new_authenticator
apiserver-IsSecured_example =
    apiserver-IsSecured platform (setting "" "") (app_of platform (setting "" "") production signer)
      none none refl

abbrev files : Database Slot
files = sqlite_database platform (setting "" "") (record { dir = ".dev" })

abbrev other_claim : Environment
other_claim = setting "SHARED_PVC_NAME" "nfs"

shown-ne_workload_objects_example :
    (claim_name (shown (app_of platform other_claim production signer) blog) ≡ "wordpress-shared")
    × (claim_name (workload_objects calm files (operator hash other_claim).reconciler blog) ≡ "nfs")
    × (claim_name (shown (app_of platform other_claim production signer) blog)
        ≢ claim_name (workload_objects calm files (operator hash other_claim).reconciler blog))
shown-ne_workload_objects_example =
    shown-ne_workload_objects platform other_claim production signer calm files blog refl
      (ne_of_==-false "nfs" "" refl) (ne_of_==-false "nfs" "wordpress-shared" refl)
