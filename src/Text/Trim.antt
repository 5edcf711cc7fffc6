-- ===== src/Text/Trim.antt =====
-- Trimming underscores off both ends of a text.
use Prim.Native.Char.{Char, code}
use Prim.Native.String.{[], ◌∷◌}
use wordpress_manager_operat.Prelude.{
  ℕ, String, ◌≡◌, refl, ◌≢◌, arith, nat_eq, nat_eq→ne, Bool-cases, inl, inr,
}
use wordpress_manager_operat.Text.{AllChars, trim_left, trim_right, push_trimmed}

module _ {ℓ} (P : ℕ → Type ℓ) where
  pub AllChars-trim_left : (s : String) → AllChars P s → AllChars P (trim_left s)
  unfolding trim_left
  AllChars-trim_left [] h = tt
  AllChars-trim_left (c ∷ s) (p, h) = elim (Bool-cases (nat_eq (code c) b'_')) [
    | inl e ↦ rw e (AllChars-trim_left s h)
    | inr e ↦ rw e (p, h)
  ]

  AllChars-push :
      (c : Char) (s : String) → P (code c) → AllChars P s → AllChars P (push_trimmed c s)
  unfolding push_trimmed
  AllChars-push c [] p h = elim (Bool-cases (nat_eq (code c) b'_')) [
    | inl e ↦ rw e tt
    | inr e ↦ rw e (p, tt)
  ]
  AllChars-push c (d ∷ s) p h = (p, h)

  pub AllChars-trim_right : (s : String) → AllChars P s → AllChars P (trim_right s)
  unfolding trim_right
  AllChars-trim_right [] h = tt
  AllChars-trim_right (c ∷ s) (p, h) = AllChars-push c (trim_right s) p (AllChars-trim_right s h)

-- No underscore at the front.
abbrev pub StartsClean : String → Type 0
StartsClean [] = Unit
StartsClean (c ∷ s) = code c ≢ b'_'

-- No underscore at the end.
abbrev pub EndsClean : String → Type 0
EndsClean [] = Unit
EndsClean (c ∷ []) = code c ≢ b'_'
EndsClean (c ∷ d ∷ s) = EndsClean (d ∷ s)

pub trim_left-StartsClean : (s : String) → StartsClean (trim_left s)
unfolding trim_left
trim_left-StartsClean [] = tt
trim_left-StartsClean (c ∷ s) = elim (Bool-cases (nat_eq (code c) b'_')) [
  | inl e ↦ rw e (trim_left-StartsClean s)
  | inr e ↦ rw e (nat_eq→ne _ _ e)
]

StartsClean-push : (c : Char) (s : String) → code c ≢ b'_' → StartsClean (push_trimmed c s)
unfolding push_trimmed
StartsClean-push c [] h = elim (Bool-cases (nat_eq (code c) b'_')) [
  | inl e ↦ rw e tt
  | inr e ↦ rw e h
]
StartsClean-push c (d ∷ s) h = h

pub StartsClean-trim_right : (s : String) → StartsClean s → StartsClean (trim_right s)
unfolding trim_right
StartsClean-trim_right [] h = tt
StartsClean-trim_right (c ∷ s) h = StartsClean-push c (trim_right s) h

EndsClean-push : (c : Char) (s : String) → EndsClean s → EndsClean (push_trimmed c s)
unfolding push_trimmed
EndsClean-push c [] h = elim (Bool-cases (nat_eq (code c) b'_')) [
  | inl e ↦ rw e tt
  | inr e ↦ rw e (nat_eq→ne _ _ e)
]
EndsClean-push c (d ∷ s) h = h

pub trim_right-EndsClean : (s : String) → EndsClean (trim_right s)
unfolding trim_right
trim_right-EndsClean [] = tt
trim_right-EndsClean (c ∷ s) = EndsClean-push c (trim_right s) (trim_right-EndsClean s)

pub trim_left_of_StartsClean : (s : String) → StartsClean s → trim_left s ≡ s
unfolding trim_left
trim_left_of_StartsClean [] h = refl
trim_left_of_StartsClean (c ∷ s) h = ground arith

pub trim_right_of_EndsClean : (s : String) → EndsClean s → trim_right s ≡ s
unfolding trim_right
trim_right_of_EndsClean [] h = refl
trim_right_of_EndsClean (c ∷ []) h = ground arith
trim_right_of_EndsClean (c ∷ d ∷ s) h = rw (trim_right_of_EndsClean (d ∷ s) h, push_trimmed)
