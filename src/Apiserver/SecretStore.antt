-- ===== src/Apiserver/SecretStore.antt =====
-- Reading and writing the Secret of the second factor.
use wordpress_manager_operat.Prelude.{
  String, ◌≡◌, refl, ap, sym, ◌∙◌, Option, none, some, inl, inr, Bool-cases, is_not_found,
  ok_injective, Result, ok, err, >>=-ok, pure,
}
use wordpress_manager_operat.Maps.{Map}
use wordpress_manager_operat.Resources.Objects.{Secret}
use wordpress_manager_operat.Controller.Interface.{ObjectKey}
use wordpress_manager_operat.Apiserver.Interface.{Client}
use wordpress_manager_operat.Apiserver.TwoFa.{Totp, KubeTwoFa, secret_key_of, after_get, load, save}

abbrev pub address : Secret → ObjectKey
address s = record { namespace = s.meta.namespace; name = s.meta.name }

-- What the API server documents of Secrets: a read finds the object that stands at its key, a read
-- that is done again finds the same, and a write that succeeds is found by the next read.
pub record IsStore {W : Type 0} (c : Client W) : Type 0 where
  pub addressed :
      (k : ObjectKey) (s : Secret) (w w' : W) → c.get_secret k w ≡ (ok s, w') → address s ≡ k
  pub repeated : (k : ObjectKey) (w : W) → c.get_secret k (c.get_secret k w).1 ≡ c.get_secret k w
  pub created :
      (s t : Secret) (w w' : W)
      → c.create_secret s w ≡ (ok t, w')
      → (u : Secret) × (c.get_secret (address s) w' ≡ (ok u, w')) × (u.entries ≡ s.entries)
  pub updated :
      (s t : Secret) (w w' : W)
      → c.update_secret s w ≡ (ok t, w')
      → (u : Secret) × (c.get_secret (address s) w' ≡ (ok u, w')) × (u.entries ≡ s.entries)

module _ {W : Type 0} (c : Client W) (totp : Totp W) (t : KubeTwoFa) (k : IsStore c) where
  -- The Secret that `save` is given stands at the key of the second factor.
  abbrev pub IsOurs : Option Secret → Type 0
  IsOurs none = Unit
  IsOurs (some s) = address s ≡ secret_key_of c totp t

  after_get-IsOurs :
      (r : Result Secret) (w w1 w' : W) (o : Option Secret)
      → c.get_secret (secret_key_of c totp t) w ≡ (r, w1)
      → after_get c totp t r w1 ≡ (ok o, w')
      → IsOurs o
  after_get-IsOurs (ok s) w w1 w' o got h = rw (← ok_injective h) (k.addressed _ s w w1 got)
  after_get-IsOurs (err e) w w1 w' o got h = elim (Bool-cases (is_not_found e)) [
    | inl missing ↦ rw (← ok_injective (rw missing at h)) tt
    | inr other ↦ let bad = ap (λ p. p.0) (rw other at h) in cc
  ]

  -- What the next read finds behind a save.
  pub save-load :
      (o : Option Secret) (entries : Map String) (w w' : W)
      → IsOurs o
      → save c totp t o entries w ≡ (ok tt, w')
      → (u : Secret) × (load c totp t w' ≡ (ok (some u), w')) × (u.entries ≡ entries)
  unfolding save load
  save-load none entries w w' ours h =
      let (x, w1, wrote, ended) = >>=-ok (c.create_secret _) (λ _. pure tt) w h in
      let (u, got, same) = k.created _ x w w' (wrote ∙ ap (λ v. (ok x, v)) (ap (λ p. p.1) ended)) in
      (u, rw got, same)
  save-load (some s) entries w w' ours h =
      let (x, w1, wrote, ended) = >>=-ok (c.update_secret _) (λ _. pure tt) w h in
      let (u, got, same) = k.updated _ x w w' (wrote ∙ ap (λ v. (ok x, v)) (ap (λ p. p.1) ended)) in
      (u, rw (← ours, got), same)

  pub load-IsOurs : (w w' : W) (o : Option Secret) → load c totp t w ≡ (ok o, w') → IsOurs o
  unfolding load
  load-IsOurs w w' o h =
      after_get-IsOurs (c.get_secret (secret_key_of c totp t) w).0 w _ w' o refl h

  after_get_stays : (r : Result Secret) (w : W) → (after_get c totp t r w).1 ≡ w
  after_get_stays (ok s) w = refl
  after_get_stays (err e) w = elim (Bool-cases (is_not_found e)) [
    | inl missing ↦ rw missing
    | inr other ↦ rw other
  ]

  pub load-load :
      (w w' : W) (o : Option Secret) → load c totp t w ≡ (ok o, w') → load c totp t w' ≡ (ok o, w')
  unfolding load
  load-load w w' o h =
      let got = c.get_secret (secret_key_of c totp t) w in
      let stayed : got.1 ≡ w' = sym (after_get_stays got.0 got.1) ∙ ap (λ p. p.1) h in
      rw (← stayed, k.repeated (secret_key_of c totp t) w) (rw (← stayed) at h)

  after_get_result :
      (r : Result Secret) (w w' : W) → (after_get c totp t r w).0 ≡ (after_get c totp t r w').0
  after_get_result (ok s) w w' = refl
  after_get_result (err e) w w' = elim (Bool-cases (is_not_found e)) [
    | inl missing ↦ rw missing
    | inr other ↦ rw other
  ]

  -- A read finds the same in two worlds that have the same Secrets.
  pub load_result :
      (w w' : W)
      → (c.get_secret (secret_key_of c totp t) w').0 ≡ (c.get_secret (secret_key_of c totp t) w).0
      → (load c totp t w').0 ≡ (load c totp t w).0
  unfolding load
  load_result w w' same =
      ap (λ r. (after_get c totp t r (c.get_secret (secret_key_of c totp t) w').1).0) same
      ∙ after_get_result (c.get_secret (secret_key_of c totp t) w).0 _ _
