-- ===== src/Text/Prefix.antt =====
-- What stands behind a prefix.
use Prim.Native.Char.{code}
use Prim.Native.String.{[], ◌∷◌, ◌++◌}
use text.Mathlib.TextLemmas.{nil-append, cons-append}
use wordpress_manager_operat.Prelude.{ℕ, String, ◌≡◌, true, some, arith, nat_eq}
use wordpress_manager_operat.Text.{strip_prefix}

pub nat_eq_refl : (n : ℕ) → nat_eq n n ≡ true
nat_eq_refl n = ground arith

pub strip_prefix-append : (p t : String) → strip_prefix p (p ++ t) ≡ some t
unfolding strip_prefix
strip_prefix-append [] t = rw nil-append
strip_prefix-append (c ∷ p) t = rw (cons-append, nat_eq_refl (code c)) (strip_prefix-append p t)
