-- ===== src/Sqlite/Paths.antt =====
-- Which database names have a file.
use Prim.Native.Char.{code}
use Prim.Native.String.{[], ◌∷◌, ◌++◌}
use wordpress_manager_operat.Prelude.{ℕ, String, ◌≡◌, refl, arith, false, ok, ==-false_of_ne}
use wordpress_manager_operat.Text.{AllChars, is_empty, contains_any}
use wordpress_manager_operat.Mysql.{validate_ident}
use wordpress_manager_operat.Mysql.Idents.{IsIdentChar, validate_ident_iff}
use wordpress_manager_operat.Sqlite.{Driver, Provisioner, is_path_char, path}

ident_is_no_path : (n : ℕ) → IsIdentChar n → is_path_char n ≡ false
ident_is_no_path n h = ground arith

contains_any-AllChars : (s : String) → AllChars IsIdentChar s → contains_any is_path_char s ≡ false
unfolding contains_any
contains_any-AllChars [] h = refl
contains_any-AllChars (c ∷ s) (h, hs) =
    rw (ident_is_no_path (code c) h, contains_any-AllChars s hs) refl

-- Every name that the MySQL provisioner accepts has a file in the directory of the other one.
pub path-validate_ident :
    {W Conn : Type 0} (d : Driver W Conn) (p : Provisioner) (quote : String → String)
    (name : String)
    → validate_ident quote name ≡ ok tt
    → path d p name ≡ ok (d.join p.dir (name ++ ".db"))
unfolding path
path-validate_ident d p quote name h =
    let (full, _, chars) = (validate_ident_iff quote name).0 h in
    let named : is_empty name ≡ false = ==-false_of_ne name "" full in
    rw (named, contains_any-AllChars name chars) refl
