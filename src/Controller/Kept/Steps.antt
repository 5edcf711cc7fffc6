-- ===== src/Controller/Kept/Steps.antt =====
-- What a reconciliation keeps, call by call.
use wordpress_manager_operat.Prelude.{
  String, ◌≡◌, refl, Bool, true, false, inl, inr, Option, none, some, List, [], ◌∷◌, Error,
  is_not_found, Result, ok, err, Exec, attempt, ◌>>=◌, pure, raise, lift, Keeps, Keeps-bind,
  Keeps-continue, result_injective, Bool-cases, nat_eq, if◌then◌else◌,
}
use wordpress_manager_operat.Api.{WordPressSite, finalizer, phase_ready, phase_suspended}
use wordpress_manager_operat.Resources.Objects.{Object, Secret}
use wordpress_manager_operat.Maps.{deep_equal}
use wordpress_manager_operat.Resources.Secret.Drawing.{Keeps-desired_secret}
use wordpress_manager_operat.Controller.Interface.{
  ObjectKey, Cluster, Database, Reconciler, Outcome,
}
use wordpress_manager_operat.Controller.{
  set_phase, with_status, fail, apply_owned, apply, apply_all, workload_objects, after_found,
  reconcile_suspended, done, reconcile_workload, write_secret, secret_from, after_secret,
  ensure_secret, after_drop, drop_data, reconcile_delete, after_workload, after_database,
  ensure_site_database, after_ensured, reconcile_live, ensure_finalizer, after_site, reconcile,
}
use wordpress_manager_operat.Controller.Kept.{IsKeptFor, IsStable}

module _ {W : Type 0} (c : Cluster W) (db : Database W) (r : Reconciler) (P : W → Type 0)
    (Good : WordPressSite → Type 0) (k : IsKeptFor c db P Good) (st : IsStable c Good) where
  Keeps-set_phase : (s : WordPressSite) (p m : String) → Good s → Keeps P (set_phase c db r s p m)
  unfolding set_phase
  Keeps-set_phase s p m g w h =
      Keeps-bind P (c.update_status _) (λ _. pure tt)
        (k.update_status _ (st.phased s p m (c.now w) g)) (λ a w h. h) w h

  Keeps-fail : (s : WordPressSite) (p : String) (e : Error) → Good s → Keeps P (fail c db r s p e)
  unfolding fail
  Keeps-fail s p e g w h = Keeps-set_phase s _ _ g w h

  Keeps-after_found : (o : Object) (x : Result Object) → Keeps P (after_found c db r o x)
  Keeps-after_found o (ok f) w h =
      Keeps-bind P (c.update_object _) (λ _. pure tt) (k.update_object _) (λ a w h. h) w h
  Keeps-after_found o (err e) w h = elim (Bool-cases (is_not_found e)) [
    | inl t ↦
        rw t (Keeps-bind P (c.create_object o) (λ _. pure tt) (k.create_object o) (λ a w h. h) w h)
    | inr f ↦ rw f h
  ]

  Keeps-apply_owned : (o : Object) → Keeps P (apply_owned c db r o)
  unfolding apply_owned
  Keeps-apply_owned o w h = elim (Bool-cases r.no_server_side_apply) [
    | inl t ↦
        rw t (Keeps-after_found o (c.get_object o w).0 (c.get_object o w).1 (k.get_object o w h))
    | inr f ↦ rw f (
        Keeps-bind P (lift (c.gvk_for_object o)) (λ _. c.patch_object o >>= λ _. pure tt) (λ w h. h)
          (λ _. Keeps-bind P (c.patch_object o) (λ _. pure tt) (k.patch_object o) (λ a w h. h)) w h)
  ]

  Keeps-apply : (s : WordPressSite) (o : Object) → Keeps P (apply c db r s o)
  unfolding apply
  Keeps-apply s o =
      Keeps-bind P (lift (c.set_owner s o)) (apply_owned c db r) (λ w h. h) Keeps-apply_owned

  Keeps-apply_all : (s : WordPressSite) (os : List Object) → Keeps P (apply_all c db r s os)
  unfolding apply_all
  Keeps-apply_all s [] w h = h
  Keeps-apply_all s (o ∷ os) w h =
      Keeps-bind P (apply c db r s o) (λ _. apply_all c db r s os) (Keeps-apply s o)
        (λ _. Keeps-apply_all s os) w h

  Keeps-workload : (s : WordPressSite) → Keeps P (reconcile_workload c db r s)
  unfolding reconcile_workload
  Keeps-workload s = Keeps-apply_all s (workload_objects c db r s)

  Keeps-phase_then :
      (s : WordPressSite) (p m : String) (o : Outcome)
      → Good s
      → Keeps P (set_phase c db r s p m >>= λ _. pure o)
  Keeps-phase_then s p m o g =
      Keeps-bind P (set_phase c db r s p m) (λ _. pure o) (Keeps-set_phase s p m g) (λ _ w h. h)

  Keeps-write_secret : (x : Option Secret) (s : Secret) → Keeps P (write_secret c db r x s)
  unfolding write_secret
  Keeps-write_secret none s w h = k.create_secret s w h
  Keeps-write_secret (some x) s w h = elim (Bool-cases (deep_equal x.entries s.entries)) [
    | inl t ↦ rw t h
    | inr f ↦ rw f (k.update_secret _ w h)
  ]

  Keeps-secret_from : (s : WordPressSite) (x : Option Secret) → Keeps P (secret_from c db r s x)
  unfolding secret_from
  Keeps-secret_from s x w h =
      let drawn = Keeps-desired_secret c.random P k.random s x w h in
      Keeps-bind P (lift (c.set_secret_owner s _)) (write_secret c db r x) (λ w h. h)
        (Keeps-write_secret x) _ drawn

  Keeps-after_secret : (s : WordPressSite) (x : Result Secret) → Keeps P (after_secret c db r s x)
  Keeps-after_secret s (ok x) w h = Keeps-secret_from s (some x) w h
  Keeps-after_secret s (err e) w h = elim (Bool-cases (is_not_found e)) [
    | inl t ↦ rw t (Keeps-secret_from s none w h)
    | inr f ↦ rw f h
  ]

  Keeps-ensure_secret : (s : WordPressSite) → Keeps P (ensure_secret c db r s)
  unfolding ensure_secret
  Keeps-ensure_secret s w h = Keeps-after_secret s _ _ (k.get_secret _ w h)

  Keeps-after_workload :
      (s : WordPressSite) (x : Result (Unit {0})) → Good s → Keeps P (after_workload c db r s x)
  Keeps-after_workload s (err e) g w h = Keeps-fail s _ e g w h
  Keeps-after_workload s (ok u) g w h =
      Keeps-phase_then (with_status s) phase_ready "Site reconciled" done (st.reported s g) w h

  Keeps-after_database :
      (s : WordPressSite) (x : Result (Unit {0})) → Good s → Keeps P (after_database c db r s x)
  Keeps-after_database s (err e) g w h = Keeps-set_phase s _ _ g w h
  Keeps-after_database s (ok u) g w h = Keeps-after_workload s _ g _ (Keeps-workload s w h)

  Keeps-after_ensured :
      (s : WordPressSite) (x : Result Secret) → Good s → Keeps P (after_ensured c db r s x)
  unfolding ensure_site_database
  Keeps-after_ensured s (err e) g w h = Keeps-fail s _ e g w h
  Keeps-after_ensured s (ok x) g w h = Keeps-after_database s _ g _ (k.ensure_database _ _ _ _ w h)

  -- Each branch may count on the outcome of the test.
  Keeps-if :
      (test : Bool) (hit miss : Exec W Outcome)
      → (test ≡ true → Keeps P hit)
      → (test ≡ false → Keeps P miss)
      → Keeps P (if test then hit else miss)
  Keeps-if true hit miss kept other w h = kept refl w h
  Keeps-if false hit miss other kept w h = kept refl w h

  Keeps-reconcile_suspended : (s : WordPressSite) → Good s → Keeps P (reconcile_suspended c db r s)
  unfolding reconcile_suspended
  Keeps-reconcile_suspended s g =
      Keeps-bind P (reconcile_workload c db r s)
        (λ _. set_phase c db r s phase_suspended "Site suspended" >>= λ _. pure done)
        (Keeps-workload s) (λ _. Keeps-phase_then s phase_suspended "Site suspended" done g)

  Keeps-reconcile_live : (s : WordPressSite) → Good s → Keeps P (reconcile_live c db r s)
  unfolding reconcile_live
  Keeps-reconcile_live s g =
      Keeps-if s.spec.suspend (reconcile_suspended c db r s)
        (attempt (ensure_secret c db r s) (after_ensured c db r s))
        (λ _. Keeps-reconcile_suspended s g)
        (λ _ w h. Keeps-after_ensured s _ g _ (Keeps-ensure_secret s w h))

  Keeps-ensure_finalizer : (s : WordPressSite) → Good s → Keeps P (ensure_finalizer c db r s)
  unfolding ensure_finalizer
  Keeps-ensure_finalizer s g w h = elim (Bool-cases (c.add_finalizer s finalizer).1) [
    | inl t ↦ rw t (k.update_site _ (st.added s g) w h)
    | inr f ↦ rw f h
  ]

  ensure_finalizer-Good :
      (s t : WordPressSite) (w : W) → Good s → (ensure_finalizer c db r s w).0 ≡ ok t → Good t
  unfolding ensure_finalizer
  ensure_finalizer-Good s t w g e = elim (Bool-cases (c.add_finalizer s finalizer).1) [
    | inl y ↦ st.written (c.add_finalizer s finalizer).0 t w (st.added s g) (rw y at e)
    | inr n ↦ rw (← result_injective (rw n at e)) (st.added s g)
  ]

  Keeps-finalized :
      (s : WordPressSite) → Good s → Keeps P (ensure_finalizer c db r s >>= reconcile_live c db r)
  Keeps-finalized s g w h =
      Keeps-continue P (reconcile_live c db r) (ensure_finalizer c db r s w).0
        (λ t e. Keeps-reconcile_live t (ensure_finalizer-Good s t w g e)) _
        (Keeps-ensure_finalizer s g w h)

  Keeps-after_drop :
      (s : WordPressSite) (x : Result (Unit {0})) → Good s → Keeps P (after_drop c db r s x)
  Keeps-after_drop s (err e) g w h = h
  Keeps-after_drop s (ok u) g w h =
      Keeps-bind P (c.update_site (c.remove_finalizer s finalizer)) (λ _. pure done)
        (k.update_site _ (st.removed s g)) (λ _ w h. h) w h

  Keeps-reconcile_delete :
      (s : WordPressSite)
      → Good s
      → Keeps P (drop_data c db r s)
      → Keeps P (reconcile_delete c db r s)
  unfolding reconcile_delete
  Keeps-reconcile_delete s g kept =
      Keeps-if (c.contains_finalizer s finalizer)
        (attempt (drop_data c db r s) (after_drop c db r s)) (pure done)
        (λ _ w h. Keeps-after_drop s _ g _ (kept w h)) (λ _ w h. h)

  Keeps-after_site :
      (x : Result WordPressSite)
      → ((s : WordPressSite) → x ≡ ok s → Good s)
      → ((s : WordPressSite)
          → x ≡ ok s
          → nat_eq s.meta.deletion_timestamp 0 ≡ false
          → Keeps P (drop_data c db r s))
      → Keeps P (after_site c db r x)
  Keeps-after_site (err e) good kept =
      Keeps-if (is_not_found e) (pure done) (raise e) (λ _ w h. h) (λ _ w h. h)
  Keeps-after_site (ok s) good kept =
      Keeps-if (nat_eq s.meta.deletion_timestamp 0)
        (ensure_finalizer c db r s >>= reconcile_live c db r) (reconcile_delete c db r s)
        (λ _. Keeps-finalized s (good s refl))
        (λ deleted. Keeps-reconcile_delete s (good s refl) (kept s refl deleted))

  -- What the calls other than DropDatabase keep, which write sites of `Good` only, and dropping the
  -- data of the site that is read and being deleted keeps too, a reconciliation of such a site keeps,
  -- whatever calls fail in it.
  pub reconcile_keeps_for :
      (key : ObjectKey) (w : W)
      → ((s : WordPressSite) → (c.get_site key w).0 ≡ ok s → Good s)
      → ((s : WordPressSite)
          → (c.get_site key w).0 ≡ ok s
          → nat_eq s.meta.deletion_timestamp 0 ≡ false
          → Keeps P (drop_data c db r s))
      → P w
      → P (reconcile c db r key w).1
  unfolding reconcile
  reconcile_keeps_for key w good kept h = Keeps-after_site _ good kept _ (k.get_site key w h)
