-- ===== src/Controller/Secrets.antt =====
-- `ensureSecret` writes only what is missing, and returns a complete Secret.
use wordpress_manager_operat.Prelude.{
  String, ◌≡◌, sym, ap, ◌∙◌, true, Option, none, some, ◌∷◌, All, Bool-cases, inl, inr, Result, ok,
  err, is_not_found, continue_ok, ok_injective,
}
use wordpress_manager_operat.Maps.{lookup, deep_equal, deep_equal_of_lookup, deep_equal_sound}
use wordpress_manager_operat.Api.{WordPressSite}
use wordpress_manager_operat.Resources.Objects.{Secret}
use wordpress_manager_operat.Resources.Secret.{password_key, salt_keys, desired_secret}
use wordpress_manager_operat.Resources.Secret.Kept.{
  All-map, IsRandom, IsSetAt, desired_secret_complete, desired_secret-settled,
}
use wordpress_manager_operat.Controller.Interface.{Cluster, Database, Reconciler}
use wordpress_manager_operat.Controller.{
  write_secret, secret_from, secret_key_of, ensure_secret, after_secret,
}

abbrev pub IsComplete : Secret → Type 0
IsComplete s = All (IsSetAt s.entries) (password_key ∷ salt_keys)

-- What the client and controllerutil document: an owner reference leaves the data alone, and a
-- Secret that is written comes back with the data that was sent.
pub record KeepsData {W : Type 0} (c : Cluster W) : Type 0 where
  pub owned :
      (site : WordPressSite) (s t : Secret)
      → c.set_secret_owner site s ≡ ok t
      → t.entries ≡ s.entries
  pub created : (s t : Secret) (w : W) → (c.create_secret s w).0 ≡ ok t → t.entries ≡ s.entries
  pub updated : (s t : Secret) (w : W) → (c.update_secret s w).0 ≡ ok t → t.entries ≡ s.entries
  pub random : IsRandom c.random

module _ {W : Type 0} (c : Cluster W) (db : Database W) (r : Reconciler) (k : KeepsData c) where
  -- With a client that keeps the data of Secrets, where the site's Secret has a password and all
  -- salts and can be owned, `ensureSecret` returns it as it is: nothing is written, and no random
  -- byte is drawn.
  pub ensure_secret-settled :
      (site : WordPressSite) (s owned : Secret) (w : W)
      → c.get_secret (secret_key_of c db r site) w ≡ (ok s, w)
      → IsComplete s
      → c.set_secret_owner site (desired_secret c.random site (some s) w).0 ≡ ok owned
      → ensure_secret c db r site w ≡ (ok s, w)
  unfolding ensure_secret secret_from write_secret
  ensure_secret-settled site s owned w found complete ownable =
      let kept = (desired_secret-settled c.random site s password_key w complete).0 in
      let same : (j : String) → _ = λ j. (desired_secret-settled c.random site s j w complete).1 in
      let equal : deep_equal s.entries owned.entries ≡ true =
        deep_equal_of_lookup s.entries owned.entries
          (λ j. sym (ap (lookup j) (k.owned site _ owned ownable) ∙ same j)) in
      rw (found, ownable, equal, kept)

  IsComplete-of_eq : (s t : Secret) → t.entries ≡ s.entries → IsComplete s → IsComplete t
  IsComplete-of_eq s t e h = rw e h

  write_secret-IsComplete :
      (existing : Option Secret) (s t : Secret) (w w' : W)
      → IsComplete s
      → write_secret c db r existing s w ≡ (ok t, w')
      → IsComplete t
  unfolding write_secret
  write_secret-IsComplete none s t w w' h e =
      IsComplete-of_eq s t (k.created s t w (ap (λ p. p.0) e)) h
  write_secret-IsComplete (some x) s t w w' h e =
      elim (Bool-cases (deep_equal x.entries s.entries)) [
        | inl same ↦
            let kept : x ≡ t = ok_injective (rw same at e) in
            rw (← kept) (
              All-map {P = IsSetAt s.entries} {Q = IsSetAt x.entries}
                (λ j set. rw (deep_equal_sound x.entries s.entries j same) set)
                (password_key ∷ salt_keys) h)
        | inr other ↦ IsComplete-of_eq s t (k.updated _ t w (ap (λ p. p.0) (rw other at e))) h
      ]

  secret_from-IsComplete :
      (site : WordPressSite) (existing : Option Secret) (t : Secret) (w w' : W)
      → secret_from c db r site existing w ≡ (ok t, w')
      → IsComplete t
  unfolding secret_from
  secret_from-IsComplete site existing t w w' e =
      let (desired, w1) = desired_secret c.random site existing w in
      let (owned, own, written) =
        continue_ok (write_secret c db r existing) (c.set_secret_owner site desired) w1 e in
      let full = desired_secret_complete c.random k.random site existing w in
      write_secret-IsComplete existing owned t w1 w'
        (IsComplete-of_eq desired owned (k.owned site desired owned own) full) written

  after_secret-IsComplete :
      (site : WordPressSite) (found : Result Secret) (t : Secret) (w w' : W)
      → after_secret c db r site found w ≡ (ok t, w')
      → IsComplete t
  after_secret-IsComplete site (ok s) t w w' e = secret_from-IsComplete site (some s) t w w' e
  after_secret-IsComplete site (err x) t w w' e = elim (Bool-cases (is_not_found x)) [
    | inl missing ↦ secret_from-IsComplete site none t w w' (rw missing at e)
    | inr other ↦ let bad = ap (λ p. p.0) (rw other at e) in cc
  ]

  -- With a client that keeps the data of Secrets, whatever Secret there was, or none, one that
  -- `ensureSecret` returns has a password and all salts.
  pub ensure_secret-IsComplete :
      (site : WordPressSite) (s : Secret) (w w' : W)
      → ensure_secret c db r site w ≡ (ok s, w')
      → IsComplete s
  unfolding ensure_secret
  ensure_secret-IsComplete site s w w' e = after_secret-IsComplete site _ s _ w' e
