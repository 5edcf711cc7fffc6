-- ===== src/Text/Bytes.antt =====
-- Byte lengths of texts, and of the texts that `truncate` cuts.
use Prim.Native.Nat.{compare, Ordering}
use Prim.Native.Char.{Char, code, len_utf8, len_utf8_def, width}
use Prim.Native.String.{[], ◌∷◌, len, slice, fits}
use Prim.Native.String.len
use Prim.Native.String.slice
use wordpress_manager_operat.Prelude.{
  ℕ, ◌+◌, ◌-◌, ◌≤◌, ◌<◌, String, ◌≡◌, ◌≢◌, refl, ◌∙◌, ap, arith, true, leb, leb→le, Bool-cases, inl,
  inr, if◌then◌else◌,
}
use wordpress_manager_operat.Text.{AllChars, truncate}

width_small : (n : ℕ) (o p : Ordering) → n < 128 → width (compare n 128) o p ≡ 1
width_small n o p h = ground arith

pub len_utf8_ascii : (c : Char) → code c < 128 → len_utf8 c ≡ 1
len_utf8_ascii c h = len_utf8_def c ∙ width_small (code c) _ _ h

pub len-cons : (c : Char) (s : String) → len (c ∷ s) ≡ len_utf8 c + len s
len-cons c s = len.cons c s

fits-if :
    (w b : ℕ) (c : Char) (s : String) → fits (compare w b) c s ≡ (if leb w b then c ∷ s else [])
fits-if w b c s = ground arith

fits_bound :
    (w b : ℕ) (c : Char) (s : String)
    → len_utf8 c ≡ w
    → len s ≤ b - w
    → len (fits (compare w b) c s) ≤ b
fits_bound w b c s e h = rw fits-if (elim (Bool-cases (leb w b)) [
  | inl t ↦ rw t (omega (arith, len.cons c s, leb→le w b t))
  | inr t ↦ rw t (omega (arith, len.nil))
])

pub len-slice-le : (s : String) (n : ℕ) → len (slice s 0 n) ≤ n
len-slice-le [] n = omega (arith, ap len (slice.nil 0 n), len.nil)
len-slice-le (c ∷ s) n = omega (
  arith,
  ap len (slice.cons-zero c s n),
  fits_bound (len_utf8 c) n c (slice s 0 (n - len_utf8 c)) refl (len-slice-le s (n - len_utf8 c)),
)

-- A truncated text has at most `n` bytes.
pub len-truncate-le : (s : String) (n : ℕ) → len (truncate s n) ≤ n
unfolding truncate
len-truncate-le s n = ground (arith, len-slice-le s n)

module _ {ℓ} (P : ℕ → Type ℓ) where
  AllChars-fits :
      (o : Ordering) (c : Char) (s : String) → P (code c) → AllChars P s → AllChars P (fits o c s)
  AllChars-fits Ordering.lt c s p h = (p, h)
  AllChars-fits Ordering.eq c s p h = (p, h)
  AllChars-fits Ordering.gt c s p h = tt

  AllChars-slice : (s : String) (n : ℕ) → AllChars P s → AllChars P (slice s 0 n)
  AllChars-slice [] n h = rw (slice.nil 0 n) tt
  AllChars-slice (c ∷ s) n (p, h) =
      rw (slice.cons-zero c s n) (AllChars-fits _ c _ p (AllChars-slice s (n - len_utf8 c) h))

  -- What holds of every character holds of every one that `truncate` keeps.
  pub AllChars-truncate : (s : String) (n : ℕ) → AllChars P s → AllChars P (truncate s n)
  unfolding truncate
  AllChars-truncate s n h = elim (Bool-cases (leb (len s) n)) [
    | inl e ↦ rw e h
    | inr e ↦ rw e (AllChars-slice s n h)
  ]

slice-ne-nil : (c : Char) (s : String) (n : ℕ) → code c < 128 → 0 < n → slice (c ∷ s) 0 n ≢ ""
slice-ne-nil c s n h p =
    let one : leb 1 n ≡ true = ground arith in
    rw (slice.cons-zero c s n, fits-if, len_utf8_ascii c h, one) (λ q. cc)

-- A cut text is not empty if it begins with an ASCII character.
pub truncate-ne-nil :
    (c : Char) (s : String) (n : ℕ) → code c < 128 → 0 < n → truncate (c ∷ s) n ≢ ""
unfolding truncate
truncate-ne-nil c s n h p = elim (Bool-cases (leb (len (c ∷ s)) n)) [
  | inl e ↦ rw e (λ q. cc)
  | inr e ↦ rw e (slice-ne-nil c s n h p)
]

pub truncate_of_le : (s : String) (n : ℕ) → len s ≤ n → truncate s n ≡ s
unfolding truncate
truncate_of_le s n h = ground arith
