-- ===== src/Controller.antt =====
-- internal/controller/wordpresssite_controller.go: the reconciler of sites. The Kubernetes client,
-- the controller utilities, the clock, the random source and the database are parameters.
pub mod Provisioning
pub mod Interface
pub mod Conditions
pub mod Secrets
pub mod Deletion
pub mod Progress
pub mod Kept
pub mod DataSafety
pub mod Stages
pub mod Requeue
pub mod Recovery
pub mod Release
pub mod Settling
pub mod Isolation
pub mod Wanted
pub mod Watches
use Prim.Native.String
use Prim.Native.String.{◌++◌}
use wordpress_manager_operat.Prelude.{
  ℕ, String, Option, none, some, List, [], ◌∷◌, nat_eq, if◌then◌else◌, ◌==◌, Error, message,
  is_not_found, Result, ok, err, Exec, attempt, ◌>>=◌, ◌>>◌, pure, raise, lift,
}
use wordpress_manager_operat.Maps.{deep_equal}
use wordpress_manager_operat.Api.{
  WordPressSite, Condition, phase_provisioning, phase_ready, phase_suspended, phase_error,
  finalizer,
}
use wordpress_manager_operat.Resources.Names.{
  database_name, database_user, database_host, secret_name, url,
}
use wordpress_manager_operat.Resources.Objects.{
  Object, of_config_map, of_deployment, of_service, of_ingress, object_meta, set_object_meta,
  Secret,
}
use wordpress_manager_operat.Resources.Secret.{password_key, value_at, desired_secret}
use wordpress_manager_operat.Resources.PhpConfig.{desired_php_config_map}
use wordpress_manager_operat.Resources.Deployment.{desired_deployment, desired_service}
use wordpress_manager_operat.Resources.Ingress.{desired_ingress}
use wordpress_manager_operat.Controller.Interface.{
  ObjectKey, Cluster, Database, Reconciler, Outcome,
}

-- The loop of `setCondition`: the condition of the same type is replaced in place, and keeps its
-- transition time if the status is the same; where there is none, the condition is appended.
unfoldable pub set_condition : List Condition → Condition → List Condition
set_condition [] c = c ∷ []
set_condition (d ∷ ds) c =
    if d.kind == c.kind
    then (if d.status == c.status
        then record c { last_transition_time = d.last_transition_time }
        else c)
      ∷ ds
    else d ∷ set_condition ds c

unfoldable pub ready_condition : WordPressSite → String → String → ℕ → Condition
ready_condition site phase msg now = record {
  kind = "Ready";
  status = if phase == phase_ready then "True" else "False";
  reason = phase;
  message = msg;
  observed_generation = site.meta.generation;
  last_transition_time = now;
}

-- The site that `setPhase` hands to the status update.
unfoldable pub with_phase : WordPressSite → String → String → ℕ → WordPressSite
with_phase site phase msg now = record site {
  status = record (site.status) {
    phase = phase;
    conditions = set_condition site.status.conditions (ready_condition site phase msg now);
  };
}

-- Step 4 of Reconcile.
unfoldable pub with_status : WordPressSite → WordPressSite
with_status site = record site {
  status = record (site.status) {
    database_name = database_name site;
    database_user = database_user site;
    secret_name = secret_name site;
    url = url site;
    observed_generation = site.meta.generation;
  };
}

abbrev pub done : Outcome
done = record { requeue_after = 0 }

-- RequeueAfter: 15 * time.Second
abbrev pub retry : Outcome
retry = record { requeue_after = 15 }

module _ {W : Type 0} (c : Cluster W) (db : Database W) (r : Reconciler) where
  unfoldable pub set_phase : WordPressSite → String → String → Exec W (Unit {0})
  set_phase site phase msg w =
      (c.update_status (with_phase site phase msg (c.now w)) >>= λ _. pure tt) w

  unfoldable pub fail : WordPressSite → String → Error → Exec W Outcome
  fail site stage e =
      attempt (set_phase site phase_error (stage ++ ": " ++ message e)) (λ _. raise e)

  -- The plain create-or-update of the development mode.
  abbrev pub after_found : Object → Result Object → Exec W (Unit {0})
  after_found desired (err e) =
      if is_not_found e then (c.create_object desired >>= λ _. pure tt) else raise e
  after_found desired (ok found) =
      let version = (object_meta found).resource_version in
      c.update_object
        (set_object_meta desired (record (object_meta desired) { resource_version = version }))
      >>= λ _. pure tt

  -- `apply` behind the owner reference.
  unfoldable pub apply_owned : Object → Exec W (Unit {0})
  apply_owned owned =
      if r.no_server_side_apply
      then attempt (c.get_object owned) (after_found owned)
      else (lift (c.gvk_for_object owned) >> (c.patch_object owned >>= λ _. pure tt))

  unfoldable pub apply : WordPressSite → Object → Exec W (Unit {0})
  unfolding apply_owned
  apply site desired = lift (c.set_owner site desired) >>= apply_owned

  -- One after another, up to the first that fails.
  unfoldable pub apply_all : WordPressSite → List Object → Exec W (Unit {0})
  apply_all site [] = pure tt
  apply_all site (o ∷ os) = apply site o >> apply_all site os

  unfoldable pub workload_objects : WordPressSite → List Object
  workload_objects site =
      of_config_map (desired_php_config_map site)
      ∷ of_deployment (desired_deployment r.sha256 r.defaults site r.db_host r.db_port)
      ∷ of_service (desired_service site)
      ∷ of_ingress (desired_ingress r.defaults site)
      ∷ []

  unfoldable pub reconcile_workload : WordPressSite → Exec W (Unit {0})
  unfolding apply_all workload_objects
  reconcile_workload site = apply_all site (workload_objects site)

  -- The write of `ensureSecret`, skipped where the data is the same.
  unfoldable pub write_secret : Option Secret → Secret → Exec W Secret
  write_secret none desired = c.create_secret desired
  write_secret (some existing) desired =
      if deep_equal existing.entries desired.entries
      then pure existing
      else c.update_secret (record desired {
        meta = record (desired.meta) { resource_version = existing.meta.resource_version };
      })

  unfoldable pub secret_from : WordPressSite → Option Secret → Exec W Secret
  secret_from site existing w =
      let (desired, w') = desired_secret c.random site existing w in
      (lift (c.set_secret_owner site desired) >>= write_secret existing) w'

  abbrev pub after_secret : WordPressSite → Result Secret → Exec W Secret
  after_secret site (ok existing) = secret_from site (some existing)
  after_secret site (err e) = if is_not_found e then secret_from site none else raise e

  abbrev pub secret_key_of : WordPressSite → ObjectKey
  secret_key_of site = record { namespace = site.meta.namespace; name = secret_name site }

  unfoldable pub ensure_secret : WordPressSite → Exec W Secret
  ensure_secret site = attempt (c.get_secret (secret_key_of site)) (after_secret site)

  abbrev pub after_drop : WordPressSite → Result (Unit {0}) → Exec W Outcome
  after_drop site (err e) = pure retry
  after_drop site (ok _) = c.update_site (c.remove_finalizer site finalizer) >>= λ _. pure done

  unfoldable pub drop_data : WordPressSite → Exec W (Unit {0})
  drop_data site =
      if r.drop_data_on_delete
      then db.drop_database (database_name site) (database_user site) (database_host site)
      else pure tt

  unfoldable pub reconcile_delete : WordPressSite → Exec W Outcome
  reconcile_delete site =
      if c.contains_finalizer site finalizer
      then attempt (drop_data site) (after_drop site)
      else pure done

  abbrev pub after_workload : WordPressSite → Result (Unit {0}) → Exec W Outcome
  after_workload site (err e) = fail site "workload" e
  after_workload site (ok _) = do
    set_phase (with_status site) phase_ready "Site reconciled"
    pure done

  abbrev pub after_database : WordPressSite → Result (Unit {0}) → Exec W Outcome
  after_database site (err e) =
      attempt (set_phase site phase_provisioning ("Waiting for MySQL: " ++ message e))
        (λ _. pure retry)
  after_database site (ok _) = attempt (reconcile_workload site) (after_workload site)

  -- DB.EnsureDatabase with the password that the Secret holds.
  unfoldable pub ensure_site_database : WordPressSite → Secret → Exec W (Unit {0})
  ensure_site_database site secret =
      db.ensure_database (database_name site) (database_user site) (database_host site)
        (value_at password_key secret.entries)

  abbrev pub after_ensured : WordPressSite → Result Secret → Exec W Outcome
  after_ensured site (err e) = fail site "secret" e
  after_ensured site (ok secret) = attempt (ensure_site_database site secret) (after_database site)

  -- A suspended site has only its workload applied.
  unfoldable pub reconcile_suspended : WordPressSite → Exec W Outcome
  reconcile_suspended site = do
    reconcile_workload site
    set_phase site phase_suspended "Site suspended"
    pure done

  -- Reconcile behind the finalizer.
  unfoldable pub reconcile_live : WordPressSite → Exec W Outcome
  reconcile_live site =
      if site.spec.suspend
      then reconcile_suspended site
      else attempt (ensure_secret site) (after_ensured site)

  unfoldable pub ensure_finalizer : WordPressSite → Exec W WordPressSite
  ensure_finalizer site =
      let (added, changed) = c.add_finalizer site finalizer in
      if changed then c.update_site added else pure added

  abbrev pub after_site : Result WordPressSite → Exec W Outcome
  after_site (err e) = if is_not_found e then pure done else raise e
  after_site (ok site) =
      if nat_eq site.meta.deletion_timestamp 0
      then ensure_finalizer site >>= reconcile_live
      else reconcile_delete site

  unfoldable pub reconcile : ObjectKey → Exec W Outcome
  reconcile key = attempt (c.get_site key) after_site
