-- ===== src/Mysql/Literals.antt =====
-- The escaped password inside a single-quoted literal, against the way MySQL reads such a literal
-- (its manual's "String Literals", NO_BACKSLASH_ESCAPES off, which is the default).
use Prim.Native.Char.{Char, code}
use Prim.Native.String.{[], ◌∷◌, ◌++◌}
use text.Mathlib.TextEquality.{Char-path}
use text.Mathlib.TextLemmas.{nil-append, cons-append}
use wordpress_manager_operat.Prelude.{
  String, ◌≡◌, refl, ap, Bool, true, false, Option, none, some, ◌||◌, arith, nat_eq, nat_eq→eq, sym,
  Bool-cases, inl, inr, if◌then◌else◌,
}
use wordpress_manager_operat.Mysql.{escape_char, escape_string}

-- Where the server stands in a literal: at a character, behind a backslash, or behind a quote that
-- ends the literal unless a second one follows.
pub data Mode : Type 0 where
  plain escaped quoted : Mode

abbrev pub Literal : Type 0
Literal = Option (String × String)

abbrev pub push : Char → Literal → Literal
push c none = none
push c (some (s, rest)) = some (c ∷ s, rest)

-- The character that a backslash and `c` stand for.
unescape : Char → Char
unescape c =
    if nat_eq (code c) b'0'
    then "\0"
    else if nat_eq (code c) b'n'
    then "\n"
    else if nat_eq (code c) b'r'
    then "\r"
    else if nat_eq (code c) b't'
    then "\t"
    else if nat_eq (code c) b'b'
    then "\u{8}"
    else if nat_eq (code c) b'Z'
    then "\u{1a}"
    else c

-- The value of a literal behind its opening quote, with the text behind its closing quote; `none`
-- where the literal is not closed. `\%` and `\_` stand for themselves.
pub scan : Mode → String → Literal
unfolding unescape
scan plain [] = none
scan escaped [] = none
scan quoted [] = some ("", "")
scan plain (c ∷ s) =
    let closed = scan quoted s in
    let behind = scan escaped s in
    let longer = push c (scan plain s) in
    if nat_eq (code c) 39 then closed else if nat_eq (code c) 92 then behind else longer
scan escaped (c ∷ s) =
    let rest = scan plain s in
    if nat_eq (code c) b'%' || nat_eq (code c) b'_'
    then push "\\" (push c rest)
    else push (unescape c) rest
scan quoted (c ∷ s) =
    let rest = scan plain s in if nat_eq (code c) 39 then push "'" rest else some ("", c ∷ s)

abbrev IsSpecial : Char → Type 0
IsSpecial c = (nat_eq (code c) 39 || nat_eq (code c) 92) ≡ true

scan-escaped_special :
    (c : Char) (s : String) → IsSpecial c → scan escaped (c ∷ s) ≡ push c (scan plain s)
unfolding scan
scan-escaped_special c s h =
    let not_wild : (nat_eq (code c) b'%' || nat_eq (code c) b'_') ≡ false = ground arith in
    let itself : unescape c ≡ c = unfold unescape in ground arith in rw (not_wild, itself)

pub scan-plain_ordinary :
    (c : Char) (s : String)
    → (nat_eq (code c) 39 || nat_eq (code c) 92) ≡ false
    → scan plain (c ∷ s) ≡ push c (scan plain s)
unfolding scan
scan-plain_ordinary c s h =
    let not_quote : nat_eq (code c) 39 ≡ false = ground arith in
    let not_backslash : nat_eq (code c) 92 ≡ false = ground arith in rw (not_quote, not_backslash)

push_same : (c d : Char) (l : Literal) → nat_eq (code c) (code d) ≡ true → push d l ≡ push c l
push_same c d l h = ap (λ k. push k l) (sym (Char-path c d (nat_eq→eq (code c) (code d) h)))

-- What is escaped is read back as the character itself.
scan-escape_char : (c : Char) (s : String) → scan plain (escape_char c s) ≡ push c (scan plain s)
unfolding escape_char scan
scan-escape_char c s = elim (Bool-cases (nat_eq (code c) 39 || nat_eq (code c) 92)) [
  | inl e ↦ rw e (scan-escaped_special c s e)
  | inr e ↦ elim (Bool-cases (nat_eq (code c) 0)) [
    | inl z ↦ rw (e, z) (push_same c "\0" (scan plain s) z)
    | inr z ↦ elim (Bool-cases (nat_eq (code c) 10)) [
      | inl n ↦ rw (e, z, n) (push_same c "\n" (scan plain s) n)
      | inr n ↦ elim (Bool-cases (nat_eq (code c) 13)) [
        | inl r ↦ rw (e, z, n, r) (push_same c "\r" (scan plain s) r)
        | inr r ↦ rw (e, z, n, r) (scan-plain_ordinary c s e)
      ]
    ]
  ]
]

if-append : (b : Bool) (s t u : String) → (if b then s else t) ++ u ≡ (if b then s ++ u else t ++ u)
if-append true s t u = refl
if-append false s t u = refl

escape_char-append : (c : Char) (s t : String) → escape_char c s ++ t ≡ escape_char c (s ++ t)
unfolding escape_char
escape_char-append c s t = simp (if-append, cons-append)

-- Behind a closed literal stands no second quote.
abbrev pub NoQuote : String → Type 0
NoQuote [] = Unit
NoQuote (c ∷ s) = nat_eq (code c) 39 ≡ false

pub scan-close : (t : String) → NoQuote t → scan plain ("'" ∷ t) ≡ some ("", t)
unfolding scan
scan-close [] h = refl
scan-close (c ∷ t) h = rw h

-- The server reads the escaped text, in quotes, as the text itself, whatever characters it holds,
-- and goes on behind the closing quote.
pub scan-escape_string :
    (s t : String) → NoQuote t → scan plain (escape_string s ++ "'" ∷ t) ≡ some (s, t)
unfolding escape_string
scan-escape_string [] t h = rw nil-append (scan-close t h)
scan-escape_string (c ∷ s) t h = rw (escape_char-append, scan-escape_char, scan-escape_string s t h)
