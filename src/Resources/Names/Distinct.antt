-- ===== src/Resources/Names/Distinct.antt =====
-- Site names that are DNS labels have different generated database names.
use Prim.Native.Char.{Char, code, len_utf8}
use Prim.Native.String.{[], ◌∷◌, ◌++◌, len}
use text.Mathlib.TextEquality.{Char-path}
use mathlib.Core.Option.{some-injective}
use mathlib.Core.Option.{map as option_map}
use text.Mathlib.TextPositions.{len-append}
use wordpress_manager_operat.Prelude.{
  ℕ, ◌+◌, ◌≤◌, String, Bool-cases, nat_eq→ne, ◌⊎◌, inl, inr, ◌≡◌, ◌≢◌, refl, sym, ◌∙◌, ap, arith,
  Bool, true, ◌||◌, Option, some, nat_eq, if◌then◌else◌,
}
use wordpress_manager_operat.Text.{AllChars, between, lower_char, map_chars, strip_prefix}
use wordpress_manager_operat.Text.Bytes.{len-cons, truncate_of_le}
use wordpress_manager_operat.Text.Prefix.{strip_prefix-append}
use wordpress_manager_operat.Text.Trim.{
  StartsClean, EndsClean, trim_left_of_StartsClean, trim_right_of_EndsClean,
}
use wordpress_manager_operat.Resources.Names.{clean_char, sanitize, generated_name}

-- [a-z0-9-]
abbrev pub is_label_char : ℕ → Bool
is_label_char n = between b'a' b'z' n || between b'0' b'9' n || nat_eq n b'-'

abbrev pub IsLabelChar : ℕ → Type 0
IsLabelChar n = is_label_char n ≡ true

abbrev pub StartsPlain : String → Type 0
StartsPlain [] = Unit
StartsPlain (c ∷ s) = code c ≢ b'-'

abbrev pub EndsPlain : String → Type 0
EndsPlain [] = Unit
EndsPlain (c ∷ []) = code c ≢ b'-'
EndsPlain (c ∷ d ∷ s) = EndsPlain (d ∷ s)

-- A DNS label, [a-z0-9]([-a-z0-9]*[a-z0-9])?, or the empty text.
pub record IsLabel (s : String) : Type 0 where
  pub chars : AllChars IsLabelChar s
  pub starts : StartsPlain s
  pub ends : EndsPlain s

-- The character that a label has where its sanitised name has `c`.
abbrev unclean_char : Char → Char
unclean_char c = if nat_eq (code c) b'_' then "-" else c

-- A character of a label is a dash, which becomes an underscore, or it is kept.
clean_char_cases :
    (c : Char)
    → IsLabelChar (code c)
    → (c ≡ "-") ⊎ ((clean_char c ≡ c) × (code c ≢ b'_') × (code c ≢ b'-'))
unfolding clean_char lower_char
clean_char_cases c h = elim (Bool-cases (nat_eq (code c) b'-')) [
  | inl t ↦ inl (Char-path c "-" (ground arith))
  | inr f ↦ inr (ground arith, ground arith, nat_eq→ne _ _ f)
]

clean_char_dash : clean_char "-" ≡ "_"
unfolding clean_char lower_char
clean_char_dash = refl

unclean_char-clean_char : (c : Char) → IsLabelChar (code c) → unclean_char (clean_char c) ≡ c
unclean_char-clean_char c h = elim (clean_char_cases c h) [
  | inl e ↦ rw (e, clean_char_dash) refl
  | inr (e, p, q) ↦ rw e (ground arith)
]

map_chars-unclean :
    (s : String) → AllChars IsLabelChar s → map_chars unclean_char (map_chars clean_char s) ≡ s
unfolding map_chars
map_chars-unclean [] h = refl
map_chars-unclean (c ∷ s) (p, h) = rw (unclean_char-clean_char c p, map_chars-unclean s h)

len_utf8-clean_char : (c : Char) → IsLabelChar (code c) → len_utf8 (clean_char c) ≡ len_utf8 c
len_utf8-clean_char c h = elim (clean_char_cases c h) [
  | inl e ↦ rw (e, clean_char_dash) refl
  | inr (e, p, q) ↦ rw e refl
]

pub len-map_chars : (s : String) → AllChars IsLabelChar s → len (map_chars clean_char s) ≡ len s
unfolding map_chars
len-map_chars [] h = refl
len-map_chars (c ∷ s) (p, h) = omega (
  arith,
  len-cons c s,
  len-cons (clean_char c) (map_chars clean_char s),
  len_utf8-clean_char c p,
  len-map_chars s h,
)

clean_char_plain : (c : Char) → IsLabelChar (code c) → code c ≢ b'-' → code (clean_char c) ≢ b'_'
clean_char_plain c h plain = elim (clean_char_cases c h) [
  | inl e ↦ absurd (plain (ap code e))
  | inr (e, p, q) ↦ rw e p
]

map_chars-StartsClean :
    (s : String) → AllChars IsLabelChar s → StartsPlain s → StartsClean (map_chars clean_char s)
unfolding map_chars
map_chars-StartsClean [] h k = tt
map_chars-StartsClean (c ∷ s) (p, h) k = clean_char_plain c p k

map_chars-EndsClean :
    (s : String) → AllChars IsLabelChar s → EndsPlain s → EndsClean (map_chars clean_char s)
unfolding map_chars
map_chars-EndsClean [] h k = tt
map_chars-EndsClean (c ∷ []) (p, h) k = clean_char_plain c p k
map_chars-EndsClean (c ∷ d ∷ s) (p, h) k = map_chars-EndsClean (d ∷ s) h k

pub sanitize_of_IsLabel : (s : String) → IsLabel s → sanitize s ≡ map_chars clean_char s
unfolding sanitize
sanitize_of_IsLabel s l = rw (
  trim_left_of_StartsClean (map_chars clean_char s) (map_chars-StartsClean s l.chars l.starts),
  trim_right_of_EndsClean (map_chars clean_char s) (map_chars-EndsClean s l.chars l.ends),
)

-- The site that a generated name is of.
unfoldable pub site_of : String → Option String
site_of d = option_map (map_chars unclean_char) (strip_prefix "wp_" d)

len_prefixed : (s : String) → len ("wp_" ++ s) ≡ 3 + len s
len_prefixed s = len-append "wp_" s

-- The site of a generated name can be read off it if the site's name is a DNS label of at most 61
-- bytes.
pub site_of-generated_name :
    (s : String) → IsLabel s → len s ≤ 61 → site_of (generated_name s) ≡ some s
unfolding site_of generated_name
site_of-generated_name s l k =
    rw
      (
        sanitize_of_IsLabel s l,
        truncate_of_le ("wp_" ++ map_chars clean_char s) 64
            (omega (arith, len_prefixed (map_chars clean_char s), len-map_chars s l.chars)),
        strip_prefix-append "wp_" (map_chars clean_char s),
      )
      (ap some (map_chars-unclean s l.chars))

-- Two sites whose names are different DNS labels of at most 61 bytes have different generated
-- database names.
pub generated_name_distinct :
    {s t : String}
    → IsLabel s
    → IsLabel t
    → len s ≤ 61
    → len t ≤ 61
    → s ≢ t
    → generated_name s ≢ generated_name t
generated_name_distinct {s} {t} l m j k different same = different (
    some-injective _ _
      (sym (site_of-generated_name s l j) ∙ (ap site_of same ∙ site_of-generated_name t m k)))
