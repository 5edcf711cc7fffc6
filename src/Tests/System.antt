-- ===== src/Tests/System.antt =====
-- The theorem on the two programs at work on one cluster: somebody without a token tries to suspend the
-- site, and the operator goes over it.
use wordpress_manager_operat.Prelude.{◌≡◌, true, result_injective, refl, none, [], ◌∷◌, false, ok}
use wordpress_manager_operat.Text.{strip_prefix}
use wordpress_manager_operat.Api.{WordPressSite}
use wordpress_manager_operat.Controller.Kept.{IsKeptFor}
use wordpress_manager_operat.Controller.Wanted.{KeepsSites}
use wordpress_manager_operat.Controller.{reconcile}
use wordpress_manager_operat.Controller.Interface.{Cluster, Database}
use wordpress_manager_operat.Apiserver.Routes.{App, Route, post_suspend, guarded, serve}
use wordpress_manager_operat.System.{stop, next, request, pass, Stranger, Run_stranger-IsWanted}
use wordpress_manager_operat.Tests.Sites.{blog, cluster_defaults}
use wordpress_manager_operat.Tests.Clusters.{reconciler}
use wordpress_manager_operat.Tests.Controller.{key, full_secret}
use wordpress_manager_operat.Tests.Stores.{one_token, admin}
use wordpress_manager_operat.Tests.Status.{format, swapped}
use wordpress_manager_operat.Tests.App.{yaml, hash}

-- A cluster that is the one site which it has.
abbrev shelf : Cluster WordPressSite
shelf = record {
  get_site = λ k w. (ok w, w);
  update_site = λ s w. (ok s, s);
  update_status = λ s w. (ok s, s);
  get_secret = λ k w. (ok full_secret, w);
  create_secret = λ s w. (ok s, w);
  update_secret = λ s w. (ok s, w);
  get_object = λ o w. (ok o, w);
  create_object = λ o w. (ok o, w);
  update_object = λ o w. (ok o, w);
  patch_object = λ o w. (ok o, w);
  now = λ w. 1000;
  random = λ n w. ([], w);
  add_finalizer = λ s f. (record s { meta = record (s.meta) { finalizers = f ∷ [] } }, true);
  remove_finalizer = λ s f. record s { meta = record (s.meta) { finalizers = [] } };
  contains_finalizer = λ s f. true;
  set_owner = λ s o. ok o;
  set_secret_owner = λ s o. ok o;
  gvk_for_object = λ o. ok tt;
}

abbrev willing : Database WordPressSite
willing = record {
  ensure_database = λ name user host password w. (ok tt, w);
  drop_database = λ name user host w. (ok tt, w);
}

abbrev shelf_app : App WordPressSite
shelf_app = record {
  client = record {
    get_site = λ k w. (ok w, w);
    list_sites = λ n w. (ok (w ∷ []), w);
    create_site = λ s w. (ok s, s);
    update_site = λ s w. (ok s, s);
    delete_site = λ s w. (ok tt, w);
    get_secret = λ k w. (ok full_secret, w);
    create_secret = λ s w. (ok s, w);
    update_secret = λ s w. (ok s, w);
  };
  server = record { namespace = "sites"; db_host = "mysql"; db_port = "3306"; reconcile = none };
  auth = admin;
  metrics = none;
  two_fa = none;
  crypto = one_token;
  now = λ w. 100;
  yaml = yaml;
  sha256 = hash;
  defaults = cluster_defaults;
  diagnostics = record { list_pods = λ n l v w. (ok [], w); list_events = λ n w. (ok [], w) };
  format = format;
  sort = swapped;
}

abbrev HasSpec : WordPressSite → Type 0
HasSpec w = w.spec ≡ blog.spec

shelf-KeepsSites : KeepsSites shelf
shelf-KeepsSites = record {
  added = λ s f. record { key = refl; spec = refl };
  removed = λ s f. record { key = refl; spec = refl };
  written = λ s t w e. rw (← result_injective e) (record { key = refl; spec = refl });
}

shelf-IsKeptFor : IsKeptFor shelf willing HasSpec HasSpec
shelf-IsKeptFor = record {
  get_site = λ k w h. h;
  update_site = λ s g w h. g;
  update_status = λ s g w h. g;
  get_secret = λ k w h. h;
  create_secret = λ s w h. h;
  update_secret = λ s w h. h;
  get_object = λ o w h. h;
  create_object = λ o w h. h;
  update_object = λ o w h. h;
  patch_object = λ o w h. h;
  ensure_database = λ name user host password w h. h;
  random = λ n w h. h;
}

no_token : (w : WordPressSite) → Stranger shelf_app shelf willing (reconciler false) "" w
unfolding strip_prefix
no_token w user (token, found, claims, parsed, same) = cc

abbrev suspend_route : Route
suspend_route = guarded (post_suspend "my-blog")

abbrev suspended : WordPressSite
suspended = (serve shelf_app "" suspend_route blog).1

abbrev settled : WordPressSite
settled = (reconcile shelf willing (reconciler false) key suspended).1

Run_stranger-IsWanted_example : settled.spec ≡ blog.spec
Run_stranger-IsWanted_example =
    Run_stranger-IsWanted shelf_app shelf willing (reconciler false) (λ k. blog.spec) HasSpec
      shelf-KeepsSites shelf-IsKeptFor (λ name user host w h. h)
      (λ k w h s e. rw (← result_injective e) h) tt
      (next (request "" suspend_route blog (no_token blog))
        (next (pass key suspended) (stop settled)))
      refl
