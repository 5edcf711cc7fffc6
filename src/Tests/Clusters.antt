-- ===== src/Tests/Clusters.antt =====
-- A cluster that logs the writes that it is sent and accepts all of them, and a database server
-- that answers every call alike.
use wordpress_manager_operat.Prelude.{
  String, Bool, true, false, List, [], ◌∷◌, failure, not_found, Result, ok, err, Exec,
}
use wordpress_manager_operat.Api.{WordPressSite}
use wordpress_manager_operat.Resources.Objects.{Secret}
use wordpress_manager_operat.Controller.Interface.{Cluster, Database, Reconciler}
use wordpress_manager_operat.Controller.Secrets.{KeepsData}
use wordpress_manager_operat.Tests.Sites.{dice, dice-IsRandom, cluster_defaults}

abbrev pub Log : Type 0
Log = List String

abbrev pub logged : {A : Type 0} → String → A → Exec Log A
logged entry a w = (ok a, entry ∷ w)

-- The site and the Secret that the cluster has.
abbrev pub cluster : Result WordPressSite → Result Secret → Cluster Log
cluster site secret = record {
  get_site = λ key w. (site, w);
  update_site = λ s. logged "update site" s;
  update_status = λ s. logged "update status" s;
  get_secret = λ key w. (secret, w);
  create_secret = λ s. logged "create secret" s;
  update_secret = λ s. logged "update secret" s;
  get_object = λ o w. (err (not_found "no such object"), w);
  create_object = λ o. logged "create object" o;
  update_object = λ o. logged "update object" o;
  patch_object = λ o. logged "patch object" o;
  now = λ w. 1000;
  random = dice;
  add_finalizer = λ s f. (s, false);
  remove_finalizer = λ s f. record s { meta = record (s.meta) { finalizers = [] } };
  contains_finalizer = λ s f. true;
  set_owner = λ s o. ok o;
  set_secret_owner = λ s o. ok o;
  gvk_for_object = λ o. ok tt;
}

abbrev pub no_site : Result WordPressSite
no_site = err (not_found "no such site")

abbrev pub no_secret : Result Secret
no_secret = err (not_found "no such secret")

pub cluster-KeepsData :
    (site : Result WordPressSite) (secret : Result Secret) → KeepsData (cluster site secret)
cluster-KeepsData site secret = record {
  owned = λ s a b e. let same : Path (Result Secret) (ok a) (ok b) = e in cc;
  created = λ a b w e. let same : Path (Result Secret) (ok a) (ok b) = e in cc;
  updated = λ a b w e. let same : Path (Result Secret) (ok a) (ok b) = e in cc;
  random = dice-IsRandom;
}

abbrev pub server : Result (Unit {0}) → Database Log
server answer = record {
  ensure_database = λ name user host password w. (answer, "ensure database" ∷ w);
  drop_database = λ name user host w. (answer, "drop database" ∷ w);
}

abbrev pub refused : Result (Unit {0})
refused = err (failure "connection refused")

-- The production settings, with or without the dropping of data.
abbrev pub reconciler : Bool → Reconciler
reconciler drop = record {
  db_host = "mysql";
  db_port = "3306";
  drop_data_on_delete = drop;
  no_server_side_apply = false;
  defaults = cluster_defaults;
  sha256 = λ text. 1 ∷ [];
}
