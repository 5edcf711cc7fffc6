-- ===== src/Tests/Controller.antt =====
-- The theorems on the reconciler, with a cluster that logs its writes.
use wordpress_manager_operat.Prelude.{
  Bool, ◌||◌, ◌==◌, ◌≡◌, ◌↔◌, refl, true, false, inl, none, [], ◌∷◌, Error, failure, Result, ok,
  err,
}
use wordpress_manager_operat.Api.{WordPressSite}
use wordpress_manager_operat.Resources.Objects.{Secret, new_meta}
use wordpress_manager_operat.Resources.Secret.{desired_secret}
use wordpress_manager_operat.Controller.Interface.{ObjectKey, Cluster}
use wordpress_manager_operat.Controller.{
  done, drop_data, reconcile_delete, reconcile_live, reconcile,
}
use wordpress_manager_operat.Controller.Secrets.{KeepsData}
use wordpress_manager_operat.Controller.Deletion.{Released, reconcile_delete-Released}
use wordpress_manager_operat.Controller.Kept.{IsKept}
use wordpress_manager_operat.Controller.DataSafety.{reconcile-Keeps}
use wordpress_manager_operat.Controller.Progress.{Ready, reconcile_live_iff}
use wordpress_manager_operat.Tests.Sites.{blog, full_entries}
use wordpress_manager_operat.Tests.Clusters.{
  Log, cluster, no_secret, cluster-KeepsData, server, reconciler,
}

abbrev empty_cluster : Cluster Log
empty_cluster = cluster (ok blog) no_secret

abbrev pub full_secret : Secret
full_secret = record { meta = new_meta "my-blog-wp" "sites" [] []; entries = full_entries }

abbrev pub full_cluster : Cluster Log
full_cluster = cluster (ok blog) (ok full_secret)

abbrev first_secret : Secret
first_secret = (desired_secret empty_cluster.random blog none []).0

reconcile_delete-Released_example :
    Released empty_cluster
      (server (ok tt))
      (reconciler true)
      blog
      []
      ("update site" ∷ "drop database" ∷ [])
unfolding reconcile_delete drop_data
reconcile_delete-Released_example =
    reconcile_delete-Released empty_cluster (server (ok tt)) (reconciler true) blog []
      ("update site" ∷ "drop database" ∷ []) refl refl

abbrev ready_log : Log
ready_log =
    "update status" ∷ "patch object" ∷ "patch object" ∷ "patch object" ∷ "patch object"
    ∷ "ensure database" ∷ []

reconcile_live_iff_example :
    (reconcile_live full_cluster (server (ok tt)) (reconciler true) blog [] ≡ (ok done, ready_log))
    ↔ Ready full_cluster (server (ok tt)) (reconciler true) blog [] ready_log
reconcile_live_iff_example =
    reconcile_live_iff full_cluster (server (ok tt)) (reconciler true) blog [] ready_log refl

-- A cluster whose API server does not know the kinds.
abbrev unknown : Error
unknown = failure "no kind is registered"

abbrev old_cluster : Cluster Log
old_cluster = record full_cluster { gvk_for_object = λ o. err unknown }

old_cluster-KeepsData : KeepsData old_cluster
old_cluster-KeepsData =
    let k = cluster-KeepsData (ok blog) (ok full_secret) in
    record { owned = k.owned; created = k.created; updated = k.updated; random = k.random }

abbrev has_drop : Log → Bool
has_drop [] = false
has_drop (x ∷ xs) = (x == "drop database") || has_drop xs

abbrev pub NoDrop : Log → Type 0
NoDrop w = has_drop w ≡ false

pub cluster-IsKept :
    (site : Result WordPressSite) (secret : Result Secret)
    → IsKept (cluster site secret) (server (ok tt)) NoDrop
cluster-IsKept site secret = record {
  get_site = λ k w h. h;
  update_site = λ s g w h. h;
  update_status = λ s g w h. h;
  get_secret = λ k w h. h;
  create_secret = λ s w h. h;
  update_secret = λ s w h. h;
  get_object = λ o w h. h;
  create_object = λ o w h. h;
  update_object = λ o w h. h;
  patch_object = λ o w h. h;
  ensure_database = λ name user host password w h. h;
  random = λ n w h. h;
}

abbrev pub deleted : WordPressSite
deleted = record blog { meta = record (blog.meta) { deletion_timestamp = 500 } }

abbrev pub key : ObjectKey
key = record { namespace = "sites"; name = "my-blog" }

reconcile-Keeps_example :
    NoDrop (reconcile (cluster (ok deleted) no_secret) (server (ok tt)) (reconciler false) key []).1
reconcile-Keeps_example =
    reconcile-Keeps (cluster (ok deleted) no_secret) (server (ok tt)) (reconciler false) NoDrop
      (cluster-IsKept (ok deleted) no_secret) key [] (λ s read. inl refl) refl
