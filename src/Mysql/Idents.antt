-- ===== src/Mysql/Idents.antt =====
-- Which identifiers `validateIdent` accepts, and that it accepts every generated one.
use Prim.Native.Char.{code}
use Prim.Native.String.{[], ◌∷◌, len}
use native.Mathlib.Nat.{le_trans}
use text.Mathlib.TextLemmas.{cons-append}
use wordpress_manager_operat.Prelude.{
  ℕ, String, ◌≡◌, refl, ◌≢◌, ◌≤◌, ◌↔◌, true, false, ◌||◌, arith, Bool-cases, inl, inr,
  ==-false_of_ne, eq_iff, ok, ltb,
}
use wordpress_manager_operat.Text.{AllChars, is_empty}
use wordpress_manager_operat.Text.Bytes.{truncate-ne-nil}
use wordpress_manager_operat.Api.{WordPressSite}
use wordpress_manager_operat.Resources.Names.{
  database_name, database_user, generated_name, generated_user, sanitize,
}
use wordpress_manager_operat.Resources.Names.Idents.{
  IsToken, generated_name-IsToken, generated_user-IsToken, len-generated_name-le,
  len-generated_user-le,
}
use wordpress_manager_operat.Mysql.{is_ident_char, check_chars, validate_ident}
use wordpress_manager_operat.Mysql.Account.{IsOrdinary}

abbrev pub IsIdentChar : ℕ → Type 0
IsIdentChar n = is_ident_char n ≡ true

AllChars-mono {ℓ κ} :
    {P : ℕ → Type ℓ} {Q : ℕ → Type κ} (f : (n : ℕ) → P n → Q n) (s : String)
    → AllChars P s
    → AllChars Q s
AllChars-mono f [] h = tt
AllChars-mono f (c ∷ s) (p, h) = (f (code c) p, AllChars-mono f s h)

module _ (quote : String → String) where
  check_chars_sound :
      (whole s : String) → check_chars quote whole s ≡ ok tt → AllChars IsIdentChar s
  unfolding check_chars
  check_chars_sound whole [] h = tt
  check_chars_sound whole (c ∷ s) h = elim (Bool-cases (is_ident_char (code c))) [
    | inl e ↦ (e, check_chars_sound whole s (rw e at h))
    | inr e ↦ let bad = rw e at h in cc
  ]

  check_chars_complete :
      (whole s : String) → AllChars IsIdentChar s → check_chars quote whole s ≡ ok tt
  unfolding check_chars
  check_chars_complete whole [] h = refl
  check_chars_complete whole (c ∷ s) (p, h) = rw p (check_chars_complete whole s h)

  validate_ident_sound :
      (s : String)
      → validate_ident quote s ≡ ok tt
      → (s ≢ "") × (len s ≤ 64) × AllChars IsIdentChar s
  unfolding validate_ident
  validate_ident_sound s h = elim (Bool-cases (is_empty s || ltb 64 (len s))) [
    | inl e ↦ let bad = rw e at h in cc
    | inr e ↦
        let full : is_empty s ≡ false = ground arith in
        let fits : ltb 64 (len s) ≡ false = ground arith in
        (
          λ q. let empty = (eq_iff s "").1 q in cc,
          (unfold validate_ident in ground arith),
          check_chars_sound s s (rw e at h),
        )
  ]

  -- An identifier is accepted exactly when it is not empty, has at most 64 bytes, and has no
  -- character but ASCII letters, digits and the underscore.
  pub validate_ident_iff :
      (s : String)
      → (validate_ident quote s ≡ ok tt) ↔ ((s ≢ "") × (len s ≤ 64) × AllChars IsIdentChar s)
  validate_ident_iff s = (
    validate_ident_sound s,
    λ (full, fits, chars).
        unfold validate_ident in
        let not_empty : is_empty s ≡ false = ==-false_of_ne s "" full in
        let not_long : ltb 64 (len s) ≡ false = ground arith in
        rw (not_empty, not_long) (check_chars_complete s s chars),
  )

token-IsIdentChar : (n : ℕ) → IsToken n → IsIdentChar n
token-IsIdentChar n h = ground arith

pub ident-IsOrdinary : (n : ℕ) → IsIdentChar n → IsOrdinary n
ident-IsOrdinary n h = ground arith

module _ (quote : String → String) where
  generated_name-ok : (name : String) → validate_ident quote (generated_name name) ≡ ok tt
  generated_name-ok name = (validate_ident_iff quote (generated_name name)).1 (
    unfold generated_name in
        rw (cons-append "w" "p_" (sanitize name))
          (truncate-ne-nil "w" _ 64 (omega arith) (omega arith)),
    len-generated_name-le name,
    AllChars-mono token-IsIdentChar (generated_name name) (generated_name-IsToken name),
  )

  generated_user-ok : (name : String) → validate_ident quote (generated_user name) ≡ ok tt
  generated_user-ok name = (validate_ident_iff quote (generated_user name)).1 (
    unfold generated_user in
        rw (cons-append "w" "pu_" (sanitize name))
          (truncate-ne-nil "w" _ 32 (omega arith) (omega arith)),
    le_trans (len-generated_user-le name) (omega arith),
    AllChars-mono token-IsIdentChar (generated_user name) (generated_user-IsToken name),
  )

  -- Where the spec names neither, the database and the user of every site, whatever its name, are
  -- accepted as identifiers, and the user has at most MySQL's 32 bytes.
  pub validate_ident-generated :
      (site : WordPressSite)
      → site.spec.database.name ≡ ""
      → site.spec.database.user ≡ ""
      → (validate_ident quote (database_name site) ≡ ok tt)
        × (validate_ident quote (database_user site) ≡ ok tt)
        × (len (database_user site) ≤ 32)
  unfolding database_name database_user
  validate_ident-generated site hn hu =
      let no_name : is_empty site.spec.database.name ≡ true = (eq_iff _ _).1 hn in
      let no_user : is_empty site.spec.database.user ≡ true = (eq_iff _ _).1 hu in
      (
        rw no_name (generated_name-ok site.meta.name),
        rw no_user (generated_user-ok site.meta.name),
        rw no_user (len-generated_user-le site.meta.name),
      )
