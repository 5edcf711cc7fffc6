-- ===== src/Tests/Development.antt =====
-- The theorem on the development mode: an admin deletes the site, and the server reconciles it.
use wordpress_manager_operat.Prelude.{◌==◌, refl, [], ◌∷◌, false, ok}
use Prim.Native.String.{◌++◌}
use wordpress_manager_operat.Apiserver.Interface.{Client}
use wordpress_manager_operat.Apiserver.Routes.{App, Route, delete_one, guarded, serve}
use wordpress_manager_operat.Commands.{Environment, Kube, Platform, dev_backend, app_of}
use wordpress_manager_operat.Commands.Development.{CallsKeep}
use wordpress_manager_operat.Commands.Development.Requests.{stop, next, app_of-Keeps}
use wordpress_manager_operat.Sqlite as Sqlite
use wordpress_manager_operat.Tests.Sites.{blog}
use wordpress_manager_operat.Tests.Clusters.{Log, cluster, no_secret, logged}
use wordpress_manager_operat.Tests.Controller.{NoDrop, cluster-IsKept, deleted, full_secret}
use wordpress_manager_operat.Tests.Stores.{one_token, admin}
use wordpress_manager_operat.Tests.Status.{format, swapped}
use wordpress_manager_operat.Tests.App.{yaml, hash, setting}

abbrev client : Client Log
client = record {
  get_site = λ k w. (ok blog, w);
  list_sites = λ n w. (ok (blog ∷ []), w);
  create_site = λ s. logged "create site" s;
  update_site = λ s. logged "update site" s;
  delete_site = λ s. logged "delete site" tt;
  get_secret = λ k w. (ok full_secret, w);
  create_secret = λ s. logged "create secret" s;
  update_secret = λ s. logged "update secret" s;
}

abbrev fake : Kube Log
fake = record {
  cluster = cluster (ok deleted) no_secret;
  client = client;
  listing = record {
    list_nodes = λ w. (ok [], w);
    list_node_metrics = λ w. (ok [], w);
    list_pod_metrics = λ n w. (ok [], w);
    list_sites = λ n w. (ok (blog ∷ []), w);
  };
  diagnostics = record { list_pods = λ n l v w. (ok [], w); list_events = λ n w. (ok [], w) };
}

-- The removal of a file is what the log calls the drop of a database.
abbrev platform : Platform Log (Unit {0})
platform = record {
  fake = fake;
  get_config = λ w. (ok "kubeconfig", w);
  new_client = λ cfg w. (ok fake, w);
  sqlite = record {
    mkdir_all = λ dir w. (ok tt, w);
    remove = λ file. logged "drop database" tt;
    is_not_exist = λ e. false;
    join = λ dir file. dir ++ "/" ++ file;
    quote = λ text. text;
    sql_open = λ file. logged "open" tt;
    exec = λ db sql args. logged "execute" tt;
    close = λ db w. "close" ∷ w;
    range = λ w m. m;
  };
  hashed = λ text. ok text;
  crypto = one_token;
  totp = record {
    generate = λ issuer account w. (ok (record { secret = "NEW"; url = "otpauth://totp/x" }), w);
    validate = λ code secret w. code == "123456";
    image = λ key width height. ok [];
  };
  now = λ w. 100;
  yaml = yaml;
  sha256 = hash;
  order = λ m. m;
  format = format;
  sort = swapped;
}

platform-CallsKeep : CallsKeep platform NoDrop
platform-CallsKeep =
    let kept = cluster-IsKept (ok deleted) no_secret in
    record {
      cluster = record {
        get_site = kept.get_site;
        update_site = kept.update_site;
        update_status = kept.update_status;
        get_secret = kept.get_secret;
        create_secret = kept.create_secret;
        update_secret = kept.update_secret;
        get_object = kept.get_object;
        create_object = kept.create_object;
        update_object = kept.update_object;
        patch_object = kept.patch_object;
        ensure_database = λ name user host password w h. h;
        random = kept.random;
      };
      get_site = λ k w h. h;
      list_sites = λ n w h. h;
      create_site = λ s w h. h;
      update_site = λ s w h. h;
      delete_site = λ s w h. h;
      get_secret = λ k w h. h;
      create_secret = λ s w h. h;
      update_secret = λ s w h. h;
      list_pods = λ n l v w h. h;
      list_events = λ n w h. h;
      listed_sites = λ n w h. h;
      generate = λ i a w h. h;
      sql_open = λ file w h. h;
      exec = λ db sql args w h. h;
      close = λ db w h. h;
    }

abbrev development : Environment
development = setting "DEV_MODE" "true"

abbrev prov : Sqlite.Provisioner
prov = record { dir = ".dev" }

abbrev app : App Log
app = app_of platform development (dev_backend platform development prov) admin

abbrev removal : Route
removal = guarded (delete_one "my-blog")

app_of-Keeps_example : NoDrop (serve app "Bearer token" removal []).1
app_of-Keeps_example =
    app_of-Keeps platform NoDrop platform-CallsKeep development prov admin
      (next "Bearer token" removal (stop (serve app "Bearer token" removal []).1)) refl
