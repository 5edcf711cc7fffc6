-- ===== src/Tests/Recovery.antt =====
-- The reconciler with a database server that comes back, and with the MySQL provisioner.
use wordpress_manager_operat.Text.{lower_char}
use wordpress_manager_operat.Resources.Names.{
  database_name, clean_char, database_user, database_host,
}
use wordpress_manager_operat.Resources.Secret.{desired_secret, secret_data, fill_all, fill}
use wordpress_manager_operat.Maps.{deep_equal, lookup, copy, insert}
use wordpress_manager_operat.Prelude.{
  ◌>>=◌, pure, Option, none, some, ℕ, ◌≡◌, refl, arith, inl, zero, suc, true, false, [], failure,
  ok, err, Exec,
}
use wordpress_manager_operat.Api.{phase_ready}
use wordpress_manager_operat.Controller.Interface.{ObjectKey, Cluster, Database}
use wordpress_manager_operat.Controller.{
  with_status, reconcile, reconcile_live, ensure_secret, secret_from, write_secret,
  ensure_site_database, reconcile_workload, apply_all, apply, apply_owned, workload_objects,
  set_phase, done,
}
use wordpress_manager_operat.Controller.Stages.{IsUp}
use wordpress_manager_operat.Controller.Requeue.{requeued}
use wordpress_manager_operat.Controller.Recovery.{Recovers, requeued_ends}
use wordpress_manager_operat.Controller.Release.{IsReleasable, requeued_releases}
use wordpress_manager_operat.Controller.Settling.{reported, set_phase_settled}
use wordpress_manager_operat.Controller.Provisioning.{
  mysql_database, Provisioned, reconcile_live-Provisioned,
}
use wordpress_manager_operat.Mysql.{
  ensure_database, validate_ident, check_chars, open_conn, with_conn, run_stmts, ensure_stmts,
  escape_string,
}
use wordpress_manager_operat.Tests.Sites.{blog, dice}
use wordpress_manager_operat.Tests.Clusters.{server, cluster-KeepsData, reconciler}
use wordpress_manager_operat.Tests.Controller.{deleted, full_secret, full_cluster}
use wordpress_manager_operat.Tests.Mysql.{driver, config}

-- A cluster that answers every call and changes nothing.
abbrev pub calm : {W : Type 0} → Cluster W
calm = record {
  get_site = λ key w. (ok blog, w);
  update_site = λ s w. (ok s, w);
  update_status = λ s w. (ok s, w);
  get_secret = λ key w. (ok full_secret, w);
  create_secret = λ s w. (ok s, w);
  update_secret = λ s w. (ok s, w);
  get_object = λ o w. (ok o, w);
  create_object = λ o w. (ok o, w);
  update_object = λ o w. (ok o, w);
  patch_object = λ o w. (ok o, w);
  now = λ w. 1000;
  random = dice;
  add_finalizer = λ s f. (s, false);
  remove_finalizer = λ s f. s;
  contains_finalizer = λ s f. true;
  set_owner = λ s o. ok o;
  set_secret_owner = λ s o. ok o;
  gvk_for_object = λ o. ok tt;
}

-- The world is the number of calls that the database server still refuses.
abbrev counting : Cluster ℕ
counting = calm

abbrev refuse : Exec ℕ (Unit {0})
refuse zero = (ok tt, zero)
refuse (suc n) = (err (failure "connection refused"), n)

abbrev returning : Database ℕ
returning = record {
  ensure_database = λ name user host password w. refuse w;
  drop_database = λ name user host w. (ok tt, w);
}

abbrev key : ObjectKey
key = record { namespace = "sites"; name = "my-blog" }

abbrev Left : ℕ → ℕ → Type 0
Left n w = w ≡ n

counting-IsUp : (n : ℕ) → IsUp counting key (Left n)
counting-IsUp n = record {
  get_site = λ w h. (blog, w, refl, (refl, refl), h);
  update_site = λ s live w h. (s, w, refl, live, h);
  update_status = λ s w h. (s, w, refl, tt, h);
  get_secret = λ k w h. inl (full_secret, w, refl, h);
  create_secret = λ s w h. (s, w, refl, tt, h);
  update_secret = λ s w h. (s, w, refl, tt, h);
  get_object = λ o w h. inl (o, w, refl, h);
  create_object = λ o w h. (o, w, refl, tt, h);
  update_object = λ o w h. (o, w, refl, tt, h);
  patch_object = λ o w h. (o, w, refl, tt, h);
  random = λ n w h. h;
  add_finalizer = λ s live. live;
  set_owner = λ s o. (o, refl);
  set_secret_owner = λ s o. (o, refl);
  gvk_for_object = λ o. refl;
}

returning-Recovers : Recovers returning Left
returning-Recovers = record {
  refuses = λ n name user host password w h. (failure "connection refused", n, rw h refl, refl);
  works = λ name user host password w h. (tt, 0, rw h refl, tt, refl);
}

requeued_ends_example :
    (w' : ℕ) × (requeued (λ t w. w) (reconcile counting returning (reconciler false) key) 5 3
      ≡ (ok done, w'))
    × (w' ≡ 0)
requeued_ends_example =
    requeued_ends counting returning (reconciler false) key Left counting-IsUp returning-Recovers
      (λ t w. w) (λ n t w h. h) 5 3 3 (omega arith) refl

reconcile_live-Provisioned_example :
    Provisioned full_cluster
      (driver "")
      config
      (reconciler true)
      (cluster-KeepsData (ok blog) (ok full_secret))
      blog
      []
unfolding reconcile_live ensure_secret secret_from write_secret ensure_site_database
    reconcile_workload apply_all apply apply_owned workload_objects set_phase ensure_database
    validate_ident check_chars open_conn with_conn run_stmts ensure_stmts deep_equal lookup
    desired_secret secret_data fill_all fill copy insert database_name clean_char lower_char
    database_user database_host escape_string
reconcile_live-Provisioned_example =
    reconcile_live-Provisioned full_cluster (driver "") config (reconciler true)
      (cluster-KeepsData (ok blog) (ok full_secret)) blog []
      (reconcile_live full_cluster (mysql_database (driver "") config) (reconciler true) blog []).1
      refl refl

-- The calls that the database server still refuses, or nothing once the finalizer is gone.
abbrev Pending : Type 0
Pending = Option ℕ

abbrev refuse_drop : Exec Pending (Unit {0})
refuse_drop none = (ok tt, none)
refuse_drop (some zero) = (ok tt, some zero)
refuse_drop (some (suc n)) = (err (failure "connection refused"), some n)

abbrev releasing : Cluster Pending
releasing = record calm { get_site = λ key w. (ok deleted, w); update_site = λ s w. (ok s, none) }

abbrev dropping : Database Pending
dropping = record {
  ensure_database = λ name user host password w. (ok tt, w);
  drop_database = λ name user host w. refuse_drop w;
}

releasing-IsReleasable : IsReleasable releasing dropping key (λ n w. w ≡ some n) (λ w. w ≡ none)
releasing-IsReleasable = record {
  get_site = λ n w h. (deleted, w, refl, record { deleted = refl; held = refl }, h);
  refuses = λ n name user host w h. (failure "connection refused", some n, rw h refl, refl);
  drops = λ name user host w h. (tt, some 0, rw h refl, tt, refl);
  releases = λ s d w h. (_, none, refl, tt, refl);
}

requeued_releases_example :
    (w' : Pending) × (requeued
        (λ t w. w)
        (reconcile releasing dropping (reconciler true) key)
        5
        (some 3)
      ≡ (ok done, w'))
    × (w' ≡ none)
requeued_releases_example =
    requeued_releases releasing dropping (reconciler true) key (λ n w. w ≡ some n) (λ w. w ≡ none)
      releasing-IsReleasable refl (λ t w. w) (λ n t w h. h) 5 3 (some 3) (omega arith) refl

set_phase_settled_example :
    set_phase full_cluster
      (server (ok tt))
      (reconciler true)
      (with_status (reported blog 7))
      phase_ready
      "Site reconciled"
      []
    ≡ (full_cluster.update_status (reported blog 7) >>= λ _. pure tt) []
set_phase_settled_example =
    set_phase_settled full_cluster (server (ok tt)) (reconciler true) blog 7 []
