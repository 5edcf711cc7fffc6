-- ===== src/Maps.antt =====
-- Go's maps with string keys, as association lists without order or repetition in view: a map is
-- read by `lookup`, written by `insert`, and copied into another by `copy` (maps.Copy).
use Prim.Native.String.{String}
use wordpress_manager_operat.Prelude.{
  ◌≡◌, refl, Bool, true, false, ◌&&◌, Option, none, some, List, [], ◌∷◌, arith, ◌==◌, eq_iff,
  eq_refl, ap, sym, ◌∙◌, Bool-cases, and-eq-true_iff, inl, inr, if◌then◌else◌,
}

abbrev pub Map {ℓ} : Type ℓ → Type ℓ
Map V = List (String × V)

module _ {ℓ} {V : Type ℓ} where
  unfoldable pub lookup : String → Map V → Option V
  lookup k [] = none
  lookup k ((j, v) ∷ m) = if j == k then some v else lookup k m

  -- m[k] = v
  unfoldable pub insert : String → V → Map V → Map V
  insert key new [] = (key, new) ∷ []
  insert key new ((k, old) ∷ rest) =
      if k == key then (k, new) ∷ rest else (k, old) ∷ insert key new rest

  -- maps.Copy(dst, src): a key of both keeps the value of `src`. The entries of `src` are written
  -- from its last to its first, so that a key that the list repeats has the value that `lookup`
  -- reads.
  unfoldable pub copy : Map V → Map V → Map V
  copy dst [] = dst
  copy dst ((k, v) ∷ src) = insert k v (copy dst src)

  -- What is read at a key behind a write at another, or the same.
  pub lookup-insert :
      (key j : String) (new : V) (entries : Map V)
      → lookup j (insert key new entries) ≡ (if key == j then some new else lookup j entries)
  unfolding lookup insert
  lookup-insert key j new [] = refl
  lookup-insert key j new ((k, old) ∷ rest) =
      let later = lookup-insert key j new rest in
      ground (arith, later, eq_iff key j, eq_iff k key, eq_iff k j)

abbrev pub or_else {ℓ} : {V : Type ℓ} → Option V → Option V → Option V
or_else none o = o
or_else (some v) o = some v

module _ {ℓ} {V : Type ℓ} where
  -- A copied map is read in `src` first.
  pub lookup-copy :
      (k : String) (dst src : Map V)
      → lookup k (copy dst src) ≡ or_else (lookup k src) (lookup k dst)
  unfolding lookup copy
  lookup-copy k dst [] = refl
  lookup-copy k dst ((j, v) ∷ src) =
      ground (arith, lookup-insert j k v (copy dst src), lookup-copy k dst src)

abbrev same_value : Option String → Option String → Bool
same_value none none = true
same_value (some v) (some w) = v == w
same_value _ _ = false

-- Whether two maps agree at each key that a third has.
unfoldable pub same_on : Map String → Map String → Map String → Bool
same_on m n [] = true
same_on m n ((k, _) ∷ r) = same_value (lookup k m) (lookup k n) && same_on m n r

-- reflect.DeepEqual(m, n), of maps that are not nil
unfoldable pub deep_equal : Map String → Map String → Bool
unfolding same_on
deep_equal m n = same_on m n m && same_on m n n

same_value_refl : (o : Option String) → same_value o o ≡ true
same_value_refl none = refl
same_value_refl (some v) = eq_refl v

same_on_of_lookup :
    (m n r : Map String) → ((k : String) → lookup k m ≡ lookup k n) → same_on m n r ≡ true
unfolding same_on
same_on_of_lookup m n [] h = refl
same_on_of_lookup m n ((k, v) ∷ r) h =
    rw (h k, same_value_refl (lookup k n)) (same_on_of_lookup m n r h)

pub deep_equal_of_lookup :
    (m n : Map String) → ((k : String) → lookup k m ≡ lookup k n) → deep_equal m n ≡ true
unfolding deep_equal
deep_equal_of_lookup m n h = rw (same_on_of_lookup m n m h, same_on_of_lookup m n n h)

same_value_sound : (o p : Option String) → same_value o p ≡ true → o ≡ p
same_value_sound none none h = refl
same_value_sound (some v) (some w) h = ap some ((eq_iff v w).0 h)
same_value_sound none (some w) h = cc
same_value_sound (some v) none h = cc

same_on_sound :
    (m n r : Map String) (k v : String)
    → same_on m n r ≡ true
    → lookup k r ≡ some v
    → lookup k m ≡ lookup k n
unfolding same_on lookup
same_on_sound m n [] k v h e = cc
same_on_sound m n ((j, w) ∷ r) k v h e = elim (Bool-cases (j == k)) [
  | inl t ↦
      let here = same_value_sound (lookup j m) (lookup j n) ((and-eq-true_iff _ _).0 h).0 in
      rw ((eq_iff j k).0 t) at here
  | inr t ↦ same_on_sound m n r k v ((and-eq-true_iff _ _).0 h).1 (rw t at e)
]

deep_equal_cases :
    (m n : Map String) (k : String) (o p : Option String)
    → deep_equal m n ≡ true
    → lookup k m ≡ o
    → lookup k n ≡ p
    → lookup k m ≡ lookup k n
unfolding deep_equal
deep_equal_cases m n k none none h em en = em ∙ sym en
deep_equal_cases m n k (some v) p h em en = same_on_sound m n m k v ((and-eq-true_iff _ _).0 h).0 em
deep_equal_cases m n k none (some w) h em en =
    same_on_sound m n n k w ((and-eq-true_iff _ _).0 h).1 en

-- Maps that compare equal are read alike at every key.
pub deep_equal_sound :
    (m n : Map String) (k : String) → deep_equal m n ≡ true → lookup k m ≡ lookup k n
deep_equal_sound m n k h = deep_equal_cases m n k _ _ h refl refl
