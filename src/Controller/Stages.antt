-- ===== src/Controller/Stages.antt =====
-- The stages of a reconciliation in a cluster that answers every call.
use wordpress_manager_operat.Prelude.{
  if◌then◌else◌, Bool, true, false, ℕ, String, ◌≡◌, refl, Bool-cases, inl, inr, ◌⊎◌, Option, none,
  some, List, [], ◌∷◌, not_found, Result, ok, err, Exec, attempt, continue, ◌>>=◌, pure,
}
use wordpress_manager_operat.Maps.{deep_equal}
use wordpress_manager_operat.Api.{WordPressSite, finalizer}
use wordpress_manager_operat.Resources.Objects.{Object, Secret, object_meta, set_object_meta}
use wordpress_manager_operat.Resources.Secret.{desired_secret}
use wordpress_manager_operat.Resources.Secret.Drawing.{Keeps-desired_secret}
use wordpress_manager_operat.Controller.Interface.{ObjectKey, Cluster, Database, Reconciler}
use wordpress_manager_operat.Controller.{
  set_phase, apply_owned, apply, apply_all, write_secret, secret_from, ensure_secret, secret_key_of,
  ensure_finalizer,
}

-- From a world with `P`, the call returns a result with `R`, in a world with `Q`.
abbrev pub Runs : {W A : Type 0} → (W → Type 0) → (W → Type 0) → (A → Type 0) → Exec W A → Type 0
Runs {W = W} {A = A} P Q R m = (w : W) → P w → (a : A) × (w' : W) × (m w ≡ (ok a, w')) × R a × Q w'

abbrev pub Any : {A : Type 0} → A → Type 0
Any a = Unit

module _ {W A B : Type 0} (P Q S : W → Type 0) (R : A → Type 0) (T : B → Type 0) where
  pub Runs-attempt :
      (m : Exec W A) (f : Result A → Exec W B)
      → Runs P Q R m
      → ((a : A) → R a → Runs Q S T (f (ok a)))
      → Runs P S T (attempt m f)
  Runs-attempt m f k kf w h =
      let (a, w1, e, r, q) = k w h in let (b, w2, e', t, s) = kf a r w1 q in (b, w2, rw e e', t, s)

module _ {W A : Type 0} (P : W → Type 0) where
  pub Runs-pure : (R : A → Type 0) (a : A) → R a → Runs P P R (pure a)
  Runs-pure R a r w h = (a, w, refl, r, h)

  -- A result that does not matter is dropped.
  Runs-drop : (m : Exec W A) → Runs P P Any m → Runs P P Any (m >>= λ _. pure tt)
  Runs-drop m k w h = let (a, w1, e, _, q) = k w h in (tt, w1, rw e, tt, q)

  -- A read that finds an object or tells that there is none.
  abbrev pub Reads : Exec W A → Type 0
  Reads m =
      (w : W)
      → P w
      → ((a : A) × (w' : W) × (m w ≡ (ok a, w')) × P w')
        ⊎ ((t : String) × (w' : W) × (m w ≡ (err (not_found t), w')) × P w')

module _ {W A : Type 0} (P Q : W → Type 0) (R : A → Type 0) (m n : Exec W A) where
  pub Runs-then : (b : Bool) → b ≡ true → Runs P Q R m → Runs P Q R (if b then m else n)
  Runs-then b e k = rw e k

  pub Runs-else : (b : Bool) → b ≡ false → Runs P Q R n → Runs P Q R (if b then m else n)
  Runs-else b e k = rw e k

-- A site that is neither suspended nor being deleted.
abbrev pub Live : WordPressSite → Type 0
Live s = (s.spec.suspend ≡ false) × (s.meta.deletion_timestamp ≡ 0)

-- The cluster answers every call, and has a live site under the key.
pub record IsUp {W : Type 0} (c : Cluster W) (key : ObjectKey) (P : W → Type 0) : Type 0 where
  pub get_site : Runs P P Live (c.get_site key)
  pub update_site : (s : WordPressSite) → Live s → Runs P P Live (c.update_site s)
  pub update_status : (s : WordPressSite) → Runs P P Any (c.update_status s)
  pub get_secret : (k : ObjectKey) → Reads P (c.get_secret k)
  pub create_secret : (s : Secret) → Runs P P Any (c.create_secret s)
  pub update_secret : (s : Secret) → Runs P P Any (c.update_secret s)
  pub get_object : (o : Object) → Reads P (c.get_object o)
  pub create_object : (o : Object) → Runs P P Any (c.create_object o)
  pub update_object : (o : Object) → Runs P P Any (c.update_object o)
  pub patch_object : (o : Object) → Runs P P Any (c.patch_object o)
  pub random : (n : ℕ) (w : W) → P w → P (c.random n w).1
  pub add_finalizer : (s : WordPressSite) → Live s → Live (c.add_finalizer s finalizer).0
  pub set_owner : (s : WordPressSite) (o : Object) → (o' : Object) × (c.set_owner s o ≡ ok o')
  pub set_secret_owner :
      (s : WordPressSite) (x : Secret) → (x' : Secret) × (c.set_secret_owner s x ≡ ok x')
  pub gvk_for_object : (o : Object) → c.gvk_for_object o ≡ ok tt

module _ {W : Type 0} (c : Cluster W) (db : Database W) (r : Reconciler) (key : ObjectKey)
    (P : W → Type 0) (k : IsUp c key P) where
  abbrev versioned : Object → Object → Object
  versioned o found =
      set_object_meta o
        (record (object_meta o) { resource_version = (object_meta found).resource_version })

  pub set_phase-Runs : (s : WordPressSite) (p m : String) → Runs P P Any (set_phase c db r s p m)
  unfolding set_phase
  set_phase-Runs s p m w h = Runs-drop P (c.update_status _) (k.update_status _) w h

  apply_owned-Runs : (o : Object) → Runs P P Any (apply_owned c db r o)
  unfolding apply_owned
  apply_owned-Runs o w h = elim (Bool-cases r.no_server_side_apply) [
    | inl plain ↦ elim (k.get_object o w h) [
      | inl (a, w1, e, q) ↦
          let (t, w2, e', _, s) =
            Runs-drop P (c.update_object (versioned o a)) (k.update_object (versioned o a)) w1 q in
          (t, w2, rw (plain, e) e', tt, s)
      | inr (m, w1, e, q) ↦
          let (t, w2, e', _, s) = Runs-drop P (c.create_object o) (k.create_object o) w1 q in
          (t, w2, rw (plain, e) e', tt, s)
    ]
    | inr ssa ↦
        let (t, w2, e', _, s) = Runs-drop P (c.patch_object o) (k.patch_object o) w h in
        (t, w2, rw (ssa, k.gvk_for_object o) e', tt, s)
  ]

  apply-Runs : (s : WordPressSite) (o : Object) → Runs P P Any (apply c db r s o)
  unfolding apply
  apply-Runs s o w h =
      let (o', e) = k.set_owner s o in
      let (t, w2, e', _, q) = apply_owned-Runs o' w h in (t, w2, rw e e', tt, q)

  pub apply_all-Runs : (s : WordPressSite) (os : List Object) → Runs P P Any (apply_all c db r s os)
  unfolding apply_all
  apply_all-Runs s [] = Runs-pure P Any tt tt
  apply_all-Runs s (o ∷ os) =
      Runs-attempt P P P Any Any (apply c db r s o) (continue (λ _. apply_all c db r s os))
        (apply-Runs s o) (λ _ _. apply_all-Runs s os)

  write_secret-Runs : (x : Option Secret) (s : Secret) → Runs P P Any (write_secret c db r x s)
  unfolding write_secret
  write_secret-Runs none s w h = k.create_secret s w h
  write_secret-Runs (some x) s w h = elim (Bool-cases (deep_equal x.entries s.entries)) [
    | inl t ↦ rw t (x, w, refl, tt, h)
    | inr f ↦ rw f (k.update_secret _ w h)
  ]

  secret_from-Runs : (s : WordPressSite) (x : Option Secret) → Runs P P Any (secret_from c db r s x)
  unfolding secret_from
  secret_from-Runs s x w h =
      let drawn = Keeps-desired_secret c.random P k.random s x w h in
      let (owned, e) = k.set_secret_owner s (desired_secret c.random s x w).0 in
      let (t, w2, e', _, q) = write_secret-Runs x owned _ drawn in (t, w2, rw e e', tt, q)

  pub ensure_secret-Runs : (s : WordPressSite) → Runs P P Any (ensure_secret c db r s)
  unfolding ensure_secret
  ensure_secret-Runs s w h = elim (k.get_secret (secret_key_of c db r s) w h) [
    | inl (x, w1, e, q) ↦
        let (t, w2, e', _, p) = secret_from-Runs s (some x) w1 q in (t, w2, rw e e', tt, p)
    | inr (m, w1, e, q) ↦
        let (t, w2, e', _, p) = secret_from-Runs s none w1 q in (t, w2, rw e e', tt, p)
  ]

  pub ensure_finalizer-Runs :
      (s : WordPressSite) → Live s → Runs P P Live (ensure_finalizer c db r s)
  unfolding ensure_finalizer
  ensure_finalizer-Runs s live w h = elim (Bool-cases (c.add_finalizer s finalizer).1) [
    | inl t ↦ rw t (k.update_site _ (k.add_finalizer s live) w h)
    | inr f ↦ rw f (_, w, refl, k.add_finalizer s live, h)
  ]
