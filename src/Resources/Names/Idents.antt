-- ===== src/Resources/Names/Idents.antt =====
-- Generated database names and users are identifiers, short enough for MySQL.
use Prim.Native.Char.{Char, code}
use Prim.Native.String.{[], ◌∷◌, ◌++◌, len}
use text.Mathlib.TextLemmas.{nil-append, cons-append}
use wordpress_manager_operat.Prelude.{ℕ, ◌≤◌, String, ◌≡◌, refl, true, arith, Bool-cases, inl, inr}
use wordpress_manager_operat.Text.{AllChars, lower_char, map_chars, trim_left}
use wordpress_manager_operat.Text.Bytes.{len-truncate-le, AllChars-truncate}
use wordpress_manager_operat.Text.Trim.{
  AllChars-trim_left, AllChars-trim_right, StartsClean, EndsClean, trim_left-StartsClean,
  StartsClean-trim_right, trim_right-EndsClean, trim_left_of_StartsClean, trim_right_of_EndsClean,
}
use wordpress_manager_operat.Resources.Names.{
  is_token_char, clean_char, sanitize, generated_name, generated_user,
}

abbrev pub IsToken : ℕ → Type 0
IsToken n = is_token_char n ≡ true

clean_char-IsToken : (c : Char) → IsToken (code (clean_char c))
unfolding clean_char
clean_char-IsToken c = elim (Bool-cases (is_token_char (code (lower_char c)))) [
  | inl e ↦ rw e e
  | inr e ↦ rw e refl
]

map_chars-IsToken : (s : String) → AllChars IsToken (map_chars clean_char s)
unfolding map_chars
map_chars-IsToken [] = tt
map_chars-IsToken (c ∷ s) = (clean_char-IsToken c, map_chars-IsToken s)

pub sanitize-IsToken : (s : String) → AllChars IsToken (sanitize s)
unfolding sanitize
sanitize-IsToken s =
    AllChars-trim_right IsToken (trim_left (map_chars clean_char s))
      (AllChars-trim_left IsToken (map_chars clean_char s) (map_chars-IsToken s))

sanitize-StartsClean : (s : String) → StartsClean (sanitize s)
unfolding sanitize
sanitize-StartsClean s =
    StartsClean-trim_right (trim_left (map_chars clean_char s))
      (trim_left-StartsClean (map_chars clean_char s))

lower_char_of_IsToken : (c : Char) → IsToken (code c) → lower_char c ≡ c
unfolding lower_char
lower_char_of_IsToken c h = ground arith

clean_char_of_IsToken : (c : Char) → IsToken (code c) → clean_char c ≡ c
unfolding clean_char
clean_char_of_IsToken c h = rw (lower_char_of_IsToken c h, h)

map_chars_of_IsToken : (s : String) → AllChars IsToken s → map_chars clean_char s ≡ s
unfolding map_chars
map_chars_of_IsToken [] h = refl
map_chars_of_IsToken (c ∷ s) (p, h) = rw (clean_char_of_IsToken c p, map_chars_of_IsToken s h)

sanitize_of_IsToken :
    (t : String) → AllChars IsToken t → StartsClean t → EndsClean t → sanitize t ≡ t
unfolding sanitize
sanitize_of_IsToken t h l r =
    rw (map_chars_of_IsToken t h, trim_left_of_StartsClean t l, trim_right_of_EndsClean t r)

-- A sanitised name is not changed by sanitising it again.
pub sanitize_idempotent : (s : String) → sanitize (sanitize s) ≡ sanitize s
sanitize_idempotent s =
    sanitize_of_IsToken (sanitize s) (sanitize-IsToken s) (sanitize-StartsClean s)
      (unfold sanitize in trim_right-EndsClean (trim_left (map_chars clean_char s)))

AllChars-append {ℓ} :
    (P : ℕ → Type ℓ) (s t : String) → AllChars P s → AllChars P t → AllChars P (s ++ t)
AllChars-append P [] t h k = rw nil-append k
AllChars-append P (c ∷ s) t (p, h) k = rw cons-append (p, AllChars-append P s t h k)

pub generated_name-IsToken : (name : String) → AllChars IsToken (generated_name name)
unfolding generated_name
generated_name-IsToken name = AllChars-truncate IsToken ("wp_" ++ sanitize name) 64 (
    AllChars-append IsToken "wp_" (sanitize name) (refl, (refl, (refl, tt)))
      (sanitize-IsToken name))

pub generated_user-IsToken : (name : String) → AllChars IsToken (generated_user name)
unfolding generated_user
generated_user-IsToken name = AllChars-truncate IsToken ("wpu_" ++ sanitize name) 32 (
    AllChars-append IsToken "wpu_" (sanitize name) (refl, (refl, (refl, (refl, tt))))
      (sanitize-IsToken name))

pub len-generated_name-le : (name : String) → len (generated_name name) ≤ 64
unfolding generated_name
len-generated_name-le name = len-truncate-le ("wp_" ++ sanitize name) 64

pub len-generated_user-le : (name : String) → len (generated_user name) ≤ 32
unfolding generated_user
len-generated_user-le name = len-truncate-le ("wpu_" ++ sanitize name) 32
