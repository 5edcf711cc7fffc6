-- ===== src/Mysql/Server/Wildcards.antt =====
-- What the wildcards of a database name make of the privileges of the account.
use Prim.Native.String.{◌++◌, ◌∷◌, []}
use Prim.Native.Char.{Char, code}
use text.Mathlib.TextLemmas.{cons-append, nil-append}
use wordpress_manager_operat.Prelude.{
  String, ◌≡◌, refl, Bool-cases, inl, inr, Bool, true, false, ◌||◌, nat_eq, ok,
}
use wordpress_manager_operat.Text.{AllChars}
use wordpress_manager_operat.Text.Prefix.{nat_eq_refl}
use wordpress_manager_operat.Mysql.{Driver, Config, ensure_database}
use wordpress_manager_operat.Mysql.Account.{IsOrdinary}
use wordpress_manager_operat.Mysql.Server.{
  Server, IsServer, ensure_statements, provision, any_suffix, fits, ensure_database_refines,
}
use wordpress_manager_operat.Mysql.Server.Sharing.{is_account_refl}

or_true : (b : Bool) → (b || true) ≡ true
or_true true = refl
or_true false = refl

any_suffix_whole : (f : String → Bool) (t : String) → f t ≡ true → any_suffix f t ≡ true
any_suffix_whole f [] h = h
any_suffix_whole f (d ∷ t) h = rw h refl

any_suffix_later :
    (f : String → Bool) (c : Char) (t : String) → f t ≡ true → any_suffix f (c ∷ t) ≡ true
any_suffix_later f c t h = rw (any_suffix_whole f t h, or_true (f (c ∷ t)))

-- A pattern fits its own text.
fits_refl : (p : String) → fits p p ≡ true
unfolding fits
fits_refl [] = refl
fits_refl (c ∷ p) = elim (Bool-cases (nat_eq (code c) (code "%"))) [
  | inl all ↦ rw all (any_suffix_later (fits p) c p (fits_refl p))
  | inr other ↦ rw (other, nat_eq_refl (code c), or_true (nat_eq (code c) (code "_")), fits_refl p)
]

-- The same text may stand in front of both.
fits-append : (p q t : String) → fits q t ≡ true → fits (p ++ q) (p ++ t) ≡ true
unfolding fits
fits-append [] q t h = rw (nil-append, nil-append) h
fits-append (c ∷ p) q t h =
    rw (cons-append, cons-append)
      (elim (Bool-cases (nat_eq (code c) (code "%"))) [
        | inl all ↦ rw all (any_suffix_later (fits (p ++ q)) c (p ++ t) (fits-append p q t h))
        | inr other ↦
            rw (
              other,
              nat_eq_refl (code c),
              or_true (nat_eq (code c) (code "_")),
              fits-append p q t h,
            )
      ])

fits_underscore : (c : Char) (q : String) → fits ("_" ∷ q) (c ∷ q) ≡ true
unfolding fits
fits_underscore c q = rw (fits_refl q)

provision-granted :
    (n m user host p : String) (s : Server)
    → fits n m ≡ true
    → (provision n user host p s).granted m user host ≡ true
provision-granted n m user host p s h = rw (h, is_account_refl user host)

module _ {W Conn : Type 0} (d : Driver W Conn) (view : W → Server) where
  -- On a server that does what MySQL documents of the statements, if EnsureDatabase succeeds for a name
  -- with an underscore, with a host without quotes and backslashes, the account has all privileges on
  -- every database whose name has any other character in the place of the underscore.
  pub ensure_database_beyond :
      (cfg : Config) (before after user host p : String) (c : Char) (w w' : W)
      → IsServer d view (ensure_statements (before ++ ("_" ∷ after)) user host p)
      → AllChars IsOrdinary host
      → ensure_database d cfg (before ++ ("_" ∷ after)) user host p w ≡ (ok tt, w')
      → (view w').granted (before ++ (c ∷ after)) user host ≡ true
  ensure_database_beyond cfg before after user host p c w w' k safe h =
      rw (ensure_database_refines d view cfg (before ++ ("_" ∷ after)) user host p w w' k safe h) (
        provision-granted (before ++ ("_" ∷ after)) (before ++ (c ∷ after)) user host p (view w)
          (fits-append before ("_" ∷ after) (c ∷ after) (fits_underscore c after)))
