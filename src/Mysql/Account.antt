-- ===== src/Mysql/Account.antt =====
-- What the server reads in the CREATE USER statement of EnsureDatabase.
use Prim.Native.Char.{Char, code}
use Prim.Native.String.{[], ◌∷◌, ◌++◌, count}
use text.Mathlib.TextLemmas.{nil-append, cons-append, append_assoc, length-append, length-cons}
use wordpress_manager_operat.Prelude.{
  ℕ, String, ◌≡◌, refl, false, Option, none, some, ◌||◌, arith, nat_eq, inl, inr, if◌then◌else◌,
  ◌==◌, ◌≢◌, ap, sym, Option-cases,
}
use wordpress_manager_operat.Text.{AllChars, strip_prefix}
use wordpress_manager_operat.Text.Prefix.{strip_prefix-append}
use wordpress_manager_operat.Mysql.{escape_string, create_user_sql}
use wordpress_manager_operat.Mysql.Literals.{
  plain, scan, NoQuote, scan-close, scan-plain_ordinary, scan-escape_string,
}

-- Neither a quote nor a backslash.
abbrev pub IsOrdinary : ℕ → Type 0
IsOrdinary n = (nat_eq n 39 || nat_eq n 92) ≡ false

scan_of_IsOrdinary :
    (s t : String) → AllChars IsOrdinary s → NoQuote t → scan plain (s ++ "'" ∷ t) ≡ some (s, t)
scan_of_IsOrdinary [] t h q = rw nil-append (scan-close t q)
scan_of_IsOrdinary (c ∷ s) t (p, h) q =
    rw (cons-append, scan-plain_ordinary c (s ++ "'" ∷ t) p, scan_of_IsOrdinary s t h q)

-- The three literals of "CREATE USER IF NOT EXISTS 'user'@'host' IDENTIFIED BY 'password'", and
-- nothing behind the last.
pub record Account : Type 0 where
  pub user : String
  pub host : String
  pub password : String

infixl 5 ◌>>=◌
abbrev ◌>>=◌ {ℓ κ} : {A : Type ℓ} {B : Type κ} → Option A → (A → Option B) → Option B
none >>= f = none
some a >>= f = f a

read_password : String → String → String → Option Account
read_password user host t = do
  (password, rest) ← scan plain t
  if rest == "" then some (record { user = user; host = host; password = password }) else none

read_host : String → String → Option Account
unfolding read_password
read_host user t = do
  (host, rest) ← scan plain t
  more ← strip_prefix " IDENTIFIED BY '" rest
  read_password user host more

pub read_account : String → Option Account
unfolding read_host
read_account t = do
  literal ← strip_prefix "CREATE USER IF NOT EXISTS '" t
  (user, rest) ← scan plain literal
  more ← strip_prefix "@'" rest
  read_host user more

NoQuote-append : (c : Char) (p t : String) → nat_eq (code c) 39 ≡ false → NoQuote ((c ∷ p) ++ t)
NoQuote-append c p t h = rw cons-append h

scan-password :
    (password : String) → scan plain (escape_string password ++ "'") ≡ some (password, "")
scan-password password = scan-escape_string password "" tt

read_password_lem :
    (user host password : String)
    → read_password user host (escape_string password ++ "'")
      ≡ some (record { user = user; host = host; password = password })
unfolding read_password
read_password_lem user host password = rw (scan-password password)

read_host_lem :
    (user host password : String)
    → AllChars IsOrdinary host
    → read_host user (host ++ "' IDENTIFIED BY '" ++ escape_string password ++ "'")
      ≡ some (record { user = user; host = host; password = password })
unfolding read_host
read_host_lem user host password h =
    rw
      (
        cons-append "'" " IDENTIFIED BY '" (escape_string password ++ "'"),
        scan_of_IsOrdinary host (" IDENTIFIED BY '" ++ escape_string password ++ "'") h
            (NoQuote-append " " "IDENTIFIED BY '" (escape_string password ++ "'") refl),
        strip_prefix-append " IDENTIFIED BY '" (escape_string password ++ "'"),
      )
      (read_password_lem user host password)

-- The server reads the user, the host and the password that the statement is made of, whatever
-- the password holds, where the user and the host hold neither a quote nor a backslash.
pub read_account-create_user_sql :
    (user host password : String)
    → AllChars IsOrdinary user
    → AllChars IsOrdinary host
    → read_account (create_user_sql user host (escape_string password))
      ≡ some (record { user = user; host = host; password = password })
unfolding create_user_sql read_account
read_account-create_user_sql user host password hu hh =
    let close = escape_string password ++ "'" in
    let behind_user = host ++ "' IDENTIFIED BY '" ++ close in
    rw
      (
        strip_prefix-append "CREATE USER IF NOT EXISTS '" (user ++ "'@'" ++ behind_user),
        cons-append "'" "@'" behind_user,
        scan_of_IsOrdinary user ("@'" ++ behind_user) hu (NoQuote-append "@" "'" behind_user refl),
        strip_prefix-append "@'" behind_user,
      )
      (read_host_lem user host password hh)

read_password_host :
    (user host t : String) (a : Account) → read_password user host t ≡ some a → a.host ≡ host
unfolding read_password
read_password_host user host t a h = ground arith

read_host_host :
    (user t host rest : String) (a : Account)
    → scan plain t ≡ some (host, rest)
    → read_host user t ≡ some a
    → a.host ≡ host
unfolding read_host
read_host_host user t host rest a found h =
    let h' = rw found at h in
    elim (Option-cases (strip_prefix " IDENTIFIED BY '" rest)) [
      | inl e ↦ let bad = rw e at h' in cc
      | inr (more, e) ↦ read_password_host user host more a (rw e at h')
    ]

longer-ne : (s : String) (c : Char) (t : String) → s ≢ s ++ c ∷ t
longer-ne s c t e = omega (arith, ap count e, length-append s (c ∷ t), length-cons c t)

-- Where the user is ordinary and the host holds a quote, behind ordinary text and in front of a
-- character that is no quote, the server does not read in the statement the account that it was
-- made for.
pub read_account-ne_of_quote :
    (user host : String) (c : Char) (more password : String)
    → AllChars IsOrdinary user
    → AllChars IsOrdinary host
    → nat_eq (code c) 39 ≡ false
    → read_account (create_user_sql user (host ++ "'" ∷ c ∷ more) (escape_string password))
      ≢ some (record { user = user; host = host ++ "'" ∷ c ∷ more; password = password })
unfolding create_user_sql read_account
read_account-ne_of_quote user host c more password hu hh hc e =
    let close = escape_string password ++ "'" in
    let full = host ++ "'" ∷ c ∷ more in
    let behind_user = full ++ "' IDENTIFIED BY '" ++ close in
    let rest = (c ∷ more) ++ "' IDENTIFIED BY '" ++ close in
    let found : scan plain behind_user ≡ some (host, rest) =
      rw
        (
          append_assoc host ("'" ∷ c ∷ more) ("' IDENTIFIED BY '" ++ close),
          cons-append "'" (c ∷ more) ("' IDENTIFIED BY '" ++ close),
        )
        (scan_of_IsOrdinary host rest hh (NoQuote-append c more _ hc)) in
    let e' =
      rw
        (
          strip_prefix-append "CREATE USER IF NOT EXISTS '" (user ++ "'@'" ++ behind_user),
          cons-append "'" "@'" behind_user,
          scan_of_IsOrdinary user ("@'" ++ behind_user) hu
              (NoQuote-append "@" "'" behind_user refl),
          strip_prefix-append "@'" behind_user,
        )
        at e in
    longer-ne host "'" (c ∷ more) (sym (read_host_host user behind_user host rest _ found e'))
