-- ===== src/Text.antt =====
-- What the program uses of Go's `strings`: a Go string is a UTF-8 text, `len` counts its bytes.
pub mod Bytes
pub mod Trim
pub mod Encoding
pub mod Base64
pub mod Prefix
use Prim.Native.Char.{Char, code}
use Prim.Native.String.{[], ◌∷◌, len, slice, char_at}
use wordpress_manager_operat.Prelude.{
  Option, none, some, ℕ, ◌-◌, String, Bool, false, ◌&&◌, ◌||◌, ◌==◌, leb, nat_eq, if◌then◌else◌,
}

-- A predicate on every character, by its number.
abbrev pub AllChars {ℓ} : (ℕ → Type ℓ) → String → Type ℓ
AllChars P [] = Unit
AllChars P (c ∷ s) = P (code c) × AllChars P s

abbrev pub between : ℕ → ℕ → ℕ → Bool
between lo hi n = leb lo n && leb n hi

-- One character of strings.ToLower, as far as its result is ASCII: besides A-Z only U+0130 and
-- U+212A have an ASCII letter for their lower case. A character that is kept here has itself or
-- another character outside ASCII for it.
unfoldable pub lower_char : Char → Char
lower_char c =
    if between b'A' b'Z' (code c)
    then char_at "abcdefghijklmnopqrstuvwxyz" (code c - b'A')
    else if nat_eq (code c) 0x130
    then "i"
    else if nat_eq (code c) 0x212a
    then "k"
    else c

unfoldable pub map_chars : (Char → Char) → String → String
map_chars f [] = []
map_chars f (c ∷ s) = f c ∷ map_chars f s

-- strings.TrimLeft(s, "_")
unfoldable pub trim_left : String → String
trim_left [] = []
trim_left (c ∷ s) = let rest = trim_left s in if nat_eq (code c) b'_' then rest else c ∷ s

-- A character in front of a text whose end is trimmed.
unfoldable pub push_trimmed : Char → String → String
push_trimmed c [] = if nat_eq (code c) b'_' then [] else c ∷ []
push_trimmed c (d ∷ s) = c ∷ d ∷ s

-- strings.TrimRight(s, "_")
unfoldable pub trim_right : String → String
unfolding push_trimmed
trim_right [] = []
trim_right (c ∷ s) = push_trimmed c (trim_right s)

-- strings.ContainsAny(s, chars), with the test on one character
unfoldable pub contains_any : (ℕ → Bool) → String → Bool
contains_any p [] = false
contains_any p (c ∷ s) = p (code c) || contains_any p s

-- s[:n] where len(s) > n
unfoldable pub truncate : String → ℕ → String
truncate s n = if leb (len s) n then s else slice s 0 n

abbrev pub is_empty : String → Bool
is_empty s = s == ""

-- strings.HasPrefix followed by strings.TrimPrefix: the text behind a prefix.
unfoldable pub strip_prefix : String → String → Option String
strip_prefix String.[] t = some t
strip_prefix (String.◌∷◌ c p) String.[] = none
strip_prefix (String.◌∷◌ c p) (String.◌∷◌ d t) =
    if nat_eq (code c) (code d) then strip_prefix p t else none
