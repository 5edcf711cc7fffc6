-- ===== src/Resources/Names/Collisions.antt =====
-- When two site names have one generated database name.
use Prim.Native.Char.{Char, code}
use Prim.Native.String.{[], ◌∷◌}
use wordpress_manager_operat.Prelude.{String, ◌≡◌, refl, false}
use wordpress_manager_operat.Text.{lower_char, map_chars}
use wordpress_manager_operat.Resources.Names.{
  is_token_char, clean_char, sanitize, generated_name, generated_user,
}

-- A character that `sanitize` replaces.
abbrev pub IsReplaced : Char → Type 0
IsReplaced c = is_token_char (code (lower_char c)) ≡ false

-- Two names that differ only where both have a character that is replaced.
pub data Alike : String → String → Type 0 where
  alike_end : Alike [] []
  alike_same : (c : Char) {s t : String} → Alike s t → Alike (c ∷ s) (c ∷ t)
  alike_replaced :
      (c d : Char) {s t : String} → IsReplaced c → IsReplaced d → Alike s t → Alike (c ∷ s) (d ∷ t)

clean_char_of_IsReplaced : (c : Char) → IsReplaced c → clean_char c ≡ "_"
unfolding clean_char
clean_char_of_IsReplaced c h = rw h

map_chars_of_Alike : {s t : String} → Alike s t → map_chars clean_char s ≡ map_chars clean_char t
unfolding map_chars
map_chars_of_Alike alike_end = refl
map_chars_of_Alike (alike_same c a) = rw (map_chars_of_Alike a)
map_chars_of_Alike (alike_replaced c d p q a) =
    rw (clean_char_of_IsReplaced c p, clean_char_of_IsReplaced d q, map_chars_of_Alike a)

sanitize_of_Alike : {s t : String} → Alike s t → sanitize s ≡ sanitize t
unfolding sanitize
sanitize_of_Alike a = rw (map_chars_of_Alike a)

-- Two site names that differ only in replaced characters, such as "a-b" and "a.b", have the same
-- generated database name and the same generated user.
pub generated_collide :
    {s t : String}
    → Alike s t
    → (generated_name s ≡ generated_name t) × (generated_user s ≡ generated_user t)
unfolding generated_name generated_user
generated_collide a = (rw (sanitize_of_Alike a), rw (sanitize_of_Alike a))
