-- ===== src/Resources/Names/SharedUsers.antt =====
-- Sites with different databases and one user: MySQL's limit of 32 bytes cuts their names.
use Prim.Native.Char.{Char}
use Prim.Native.String.{[], ◌∷◌, ◌++◌, len}
use text.Mathlib.TextLemmas.{nil-append, cons-append, append-nil, append_assoc}
use text.Mathlib.TextPositions.{len-append, len_utf8-pos, slice-append_left}
use wordpress_manager_operat.Prelude.{◌≤◌, String, ◌≡◌, ◌≢◌, sym, ◌∙◌, ap, arith, leb, false}
use wordpress_manager_operat.Text.{AllChars, map_chars, truncate}
use wordpress_manager_operat.Text.Bytes.{len-cons}
use wordpress_manager_operat.Resources.Names.{clean_char, generated_name, generated_user}
use wordpress_manager_operat.Resources.Names.Distinct.{
  IsLabel, IsLabelChar, sanitize_of_IsLabel, len-map_chars, generated_name_distinct,
}

map_chars-append :
    (f : Char → Char) (s t : String) → map_chars f (s ++ t) ≡ map_chars f s ++ map_chars f t
unfolding map_chars
map_chars-append f [] t = ap (map_chars f) (nil-append t) ∙ sym (nil-append (map_chars f t))
map_chars-append f (c ∷ s) t =
    ap (map_chars f) (cons-append c s t)
    ∙ ap (λ u. f c ∷ u) (map_chars-append f s t)
    ∙ sym (cons-append (f c) (map_chars f s) (map_chars f t))

-- Cutting a text where its first part ends gives that part.
truncate-append : (s t : String) → truncate (s ++ t) (len s) ≡ s
unfolding truncate
truncate-append s [] = rw (append-nil s) (ground arith)
truncate-append s (c ∷ t) =
    let (k, pos) = len_utf8-pos c in
    let cut : leb (len (s ++ (c ∷ t))) (len s) ≡ false =
      ground (arith, len-append s (c ∷ t), len-cons c t, pos) in
    rw cut (slice-append_left s (c ∷ t))

-- The user of a site whose name begins with `p`, which has 28 bytes, is made of `p` alone.
generated_user-append :
    (p x : String)
    → len p ≡ 28
    → IsLabel (p ++ x)
    → AllChars IsLabelChar p
    → generated_user (p ++ x) ≡ "wpu_" ++ map_chars clean_char p
unfolding generated_user
generated_user-append p x k l h =
    let (user, rest) : String × String =
      ("wpu_" ++ map_chars clean_char p, map_chars clean_char x) in
    let width : 32 ≡ len ("wpu_" ++ map_chars clean_char p) =
      omega (arith, len-append "wpu_" (map_chars clean_char p), len-map_chars p h, k) in
    ap (λ u. truncate ("wpu_" ++ u) 32)
      (sanitize_of_IsLabel (p ++ x) l ∙ map_chars-append clean_char p x)
    ∙ ap (λ u. truncate u 32) (sym (append_assoc "wpu_" (map_chars clean_char p) rest))
    ∙ ap (truncate (user ++ rest)) width
    ∙ truncate-append user rest

-- Two sites whose names are different DNS labels of at most 61 bytes with the same first 28 bytes
-- have different generated databases and one generated user.
pub generated_user_shared :
    (p x y : String)
    → len p ≡ 28
    → AllChars IsLabelChar p
    → IsLabel (p ++ x)
    → IsLabel (p ++ y)
    → len (p ++ x) ≤ 61
    → len (p ++ y) ≤ 61
    → p ++ x ≢ p ++ y
    → (generated_user (p ++ x) ≡ generated_user (p ++ y))
      × (generated_name (p ++ x) ≢ generated_name (p ++ y))
generated_user_shared p x y k h l m i j different = (
  generated_user-append p x k l h ∙ sym (generated_user-append p y k m h),
  generated_name_distinct l m i j different,
)
