-- ===== src/Resources/Secret/Kept.antt =====
-- DesiredSecret keeps what is there, fills in what is missing, and draws nothing when nothing is.
use Prim.Native.String.{len}
use Prim.Native.String.len
use wordpress_manager_operat.Prelude.{
  ℕ, String, ◌≡◌, refl, sym, ap, ◌∙◌, ◌≢◌, ◌<◌, Option, none, some, Option-cases, List, [], ◌∷◌,
  arith, All, length, Bool-cases, inl, inr, eq_iff, eq_refl, ==-false_of_ne, ne_of_==-false,
  value_or, ◌==◌, ◌+◌, ◌*◌, ◌/◌,
}
use wordpress_manager_operat.Text.{AllChars, is_empty}
use wordpress_manager_operat.Text.Encoding.{
  IsByte, IsUrlChar, raw_url_encode-IsUrlChar, len-raw_url_encode,
}
use wordpress_manager_operat.Maps.{Map, lookup, lookup-insert, lookup-copy, copy, or_else}
use wordpress_manager_operat.Api.{WordPressSite}
use wordpress_manager_operat.Resources.Objects as Objects
use wordpress_manager_operat.Resources.Secret.{
  salt_keys, password_key, value_at, Random, random_password, fill, fill_all, secret_data,
  desired_secret, existing_data,
}

-- What crypto/rand documents: as many bytes as are asked for.
pub record IsRandom {W : Type 0} (random : Random W) : Type 0 where
  pub size : (n : ℕ) (w : W) → length (random n w).0 ≡ n
  pub bytes : (n : ℕ) (w : W) → All IsByte (random n w).0

abbrev pub IsSetAt : Map String → String → Type 0
IsSetAt m k = value_at k m ≢ ""

pub lookup-copied : (j : String) (m : Map String) → lookup j (copy [] m) ≡ lookup j m
unfolding lookup
lookup-copied j m = rw lookup-copy (or_none (lookup j m))
  where
    or_none : (o : Option String) → or_else o none ≡ o
    or_none none = refl
    or_none (some v) = refl

IsSetAt-copied : (m : Map String) (k : String) → IsSetAt m k → IsSetAt (copy [] m) k
IsSetAt-copied m k h = rw (lookup-copied k m) h

pub All-map :
    {A : Type 0} {P Q : A → Type 0} (f : (a : A) → P a → Q a) (xs : List A) → All P xs → All Q xs
All-map f [] h = tt
All-map f (x ∷ xs) (p, h) = (f x p, All-map f xs h)

module _ {W : Type 0} (random : Random W) where
  -- With a random source that gives bytes, as many as it is asked for, a random password has four
  -- characters for three bytes, rounded up, all of the URL-safe alphabet.
  pub random_password_lem :
      IsRandom random
      → (n : ℕ) (w : W)
      → (len (random_password random n w).0 ≡ (n * 4 + 2) / 3)
        × AllChars IsUrlChar (random_password random n w).0
  unfolding random_password
  random_password_lem r n w = (
    len-raw_url_encode (random n w).0 (r.bytes n w) ∙ ap (λ k. (k * 4 + 2) / 3) (r.size n w),
    raw_url_encode-IsUrlChar (random n w).0 (r.bytes n w),
  )

  fill_keeps :
      (n : ℕ) (k j v : String) (m : Map String) (w : W)
      → lookup j m ≡ some v
      → v ≢ ""
      → lookup j (fill random n k m w).0 ≡ some v
  unfolding fill
  fill_keeps n k j v m w e h = elim (Bool-cases (is_empty (value_at k m))) [
    | inl empty ↦ elim (Bool-cases (k == j)) [
      | inl same ↦
          let was_empty = (eq_iff (value_at k m) "").0 empty in
          let moved = ap (λ i. value_at i m) ((eq_iff k j).0 same) in
          let held : value_at j m ≡ v = ap (λ o. value_or o "") e in
          absurd (h (sym (moved ∙ held) ∙ was_empty))
      | inr other ↦ rw (empty, lookup-insert k j (random_password random n w).0 m, other) e
    ]
    | inr full ↦ rw full e
  ]

  fill_other :
      (n : ℕ) (k j : String) (m : Map String) (w : W)
      → k ≢ j
      → lookup j (fill random n k m w).0 ≡ lookup j m
  unfolding fill
  fill_other n k j m w h = elim (Bool-cases (is_empty (value_at k m))) [
    | inl empty ↦
        rw (empty, lookup-insert k j (random_password random n w).0 m, ==-false_of_ne k j h)
    | inr full ↦ rw full
  ]

  fill_sets :
      IsRandom random
      → (n : ℕ) (k : String) (m : Map String) (w : W) → 0 < n
      → IsSetAt (fill random n k m w).0 k
  unfolding fill
  fill_sets r n k m w h = elim (Bool-cases (is_empty (value_at k m))) [
    | inl empty ↦
        rw (empty, lookup-insert k k (random_password random n w).0 m, eq_refl k)
          (λ e. omega (arith, (random_password_lem r n w).0, ap len e, len.nil))
    | inr full ↦ rw full (ne_of_==-false (value_at k m) "" full)
  ]

  fill_settled :
      (n : ℕ) (k : String) (m : Map String) (w : W) → IsSetAt m k → fill random n k m w ≡ (m, w)
  unfolding fill
  fill_settled n k m w h = rw (==-false_of_ne (value_at k m) "" h)

  fill_all_keeps :
      (ks : List String) (j v : String) (m : Map String) (w : W)
      → lookup j m ≡ some v
      → v ≢ ""
      → lookup j (fill_all random ks m w).0 ≡ some v
  unfolding fill_all
  fill_all_keeps [] j v m w e h = e
  fill_all_keeps (k ∷ ks) j v m w e h =
      fill_all_keeps ks j v (fill random 48 k m w).0 (fill random 48 k m w).1
        (fill_keeps 48 k j v m w e h) h

  fill_all_other :
      (ks : List String) (j : String) (m : Map String) (w : W)
      → All (λ k. k ≢ j) ks
      → lookup j (fill_all random ks m w).0 ≡ lookup j m
  unfolding fill_all
  fill_all_other [] j m w h = refl
  fill_all_other (k ∷ ks) j m w (p, h) =
      fill_all_other ks j (fill random 48 k m w).0 (fill random 48 k m w).1 h
      ∙ fill_other 48 k j m w p

  -- What is set stays set.
  fill_all-IsSetAt :
      (ks : List String) (j : String) (m : Map String) (w : W)
      → IsSetAt m j
      → IsSetAt (fill_all random ks m w).0 j
  fill_all-IsSetAt ks j m w h = elim (Option-cases (lookup j m)) [
    | inl e ↦ absurd (h (ap (λ o. value_or o "") e))
    | inr (v, e) ↦
        let held : v ≢ "" = λ q. h (ap (λ o. value_or o "") e ∙ q) in
        rw (fill_all_keeps ks j v m w e held) held
  ]

  fill_all_sets :
      IsRandom random
      → (ks : List String) (m : Map String) (w : W) → All (IsSetAt (fill_all random ks m w).0) ks
  unfolding fill_all
  fill_all_sets r [] m w = tt
  fill_all_sets r (k ∷ ks) m w =
      let (m', w') = fill random 48 k m w in
      (fill_all-IsSetAt ks k m' w' (fill_sets r 48 k m w (omega arith)), fill_all_sets r ks m' w')

  fill_all_settled :
      (ks : List String) (m : Map String) (w : W)
      → All (IsSetAt m) ks
      → fill_all random ks m w ≡ (m, w)
  unfolding fill_all
  fill_all_settled [] m w h = refl
  fill_all_settled (k ∷ ks) m w (p, h) = rw (fill_settled 48 k m w p) (fill_all_settled ks m w h)

  secret_data-keeps :
      (k v : String) (m : Map String) (w : W)
      → lookup k m ≡ some v
      → v ≢ ""
      → lookup k (secret_data random m w).0 ≡ some v
  unfolding secret_data
  secret_data-keeps k v m w e h =
      fill_all_keeps salt_keys k v (fill random 24 password_key (copy [] m) w).0
        (fill random 24 password_key (copy [] m) w).1
        (fill_keeps 24 password_key k v (copy [] m) w (lookup-copied k m ∙ e) h) h

  secret_data_complete :
      IsRandom random
      → (m : Map String) (w : W)
      → All (IsSetAt (secret_data random m w).0) (password_key ∷ salt_keys)
  unfolding secret_data
  secret_data_complete r m w =
      let first = fill random 24 password_key (copy [] m) w in
      (
        fill_all-IsSetAt salt_keys password_key first.0 first.1
            (fill_sets r 24 password_key (copy [] m) w (omega arith)),
        fill_all_sets r salt_keys first.0 first.1,
      )

  secret_data-settled :
      (m : Map String) (w : W)
      → All (IsSetAt m) (password_key ∷ salt_keys)
      → secret_data random m w ≡ (copy [] m, w)
  unfolding secret_data
  secret_data-settled m w (p, h) =
      rw (fill_settled 24 password_key (copy [] m) w (IsSetAt-copied m password_key p))
        (fill_all_settled salt_keys (copy [] m) w (All-map (IsSetAt-copied m) salt_keys h))

  -- With a random source that gives bytes, as many as it is asked for, the desired Secret has a
  -- non-empty password and salts, whatever Secret there was, or none.
  pub desired_secret_complete :
      IsRandom random
      → (site : WordPressSite) (existing : Option Objects.Secret) (w : W)
      → All (IsSetAt (desired_secret random site existing w).0.entries) (password_key ∷ salt_keys)
  unfolding desired_secret
  desired_secret_complete r site existing w = secret_data_complete r (existing_data existing) w

  -- A value that the existing Secret has and that is not empty, under any key, is kept.
  pub desired_secret-keeps :
      (site : WordPressSite) (s : Objects.Secret) (k v : String) (w : W)
      → lookup k s.entries ≡ some v
      → v ≢ ""
      → lookup k (desired_secret random site (some s) w).0.entries ≡ some v
  unfolding desired_secret
  desired_secret-keeps site s k v w e h = secret_data-keeps k v (existing_data (some s)) w e h

  -- If the existing Secret has the password and all salts, nothing is drawn and every key is read
  -- as before.
  pub desired_secret-settled :
      (site : WordPressSite) (s : Objects.Secret) (k : String) (w : W)
      → All (IsSetAt s.entries) (password_key ∷ salt_keys)
      → ((desired_secret random site (some s) w).1 ≡ w)
        × (lookup k (desired_secret random site (some s) w).0.entries ≡ lookup k s.entries)
  unfolding desired_secret
  desired_secret-settled site s k w h =
      rw (secret_data-settled s.entries w h) (refl, lookup-copied k s.entries)
