-- ===== src/Text/Encoding.antt =====
-- Go's encoding/base64 (RawURLEncoding) and encoding/hex, from bytes to text.
use Prim.Native.Char.{Char, code}
use Prim.Native.String.{String, char_at, len}
use Prim.Native.String.len
use wordpress_manager_operat.Prelude.{
  ℕ, zero, suc, ◌+◌, ◌*◌, ◌/◌, ◌%◌, ◌<◌, ◌≡◌, refl, Bool, true, ◌&&◌, ◌||◌, List, [], ◌∷◌, arith,
  All, length, nat_eq,
}
use wordpress_manager_operat.Text.{AllChars, between}
use wordpress_manager_operat.Text.Bytes.{len-cons, len_utf8_ascii}

unfoldable pub url_digit : ℕ → Char
url_digit n = char_at "ABCDEFGHIJKLMNOPQRSTUVWXYZabcdefghijklmnopqrstuvwxyz0123456789-_" n

abbrev push : Char → String → String
push c s = String.◌∷◌ c s

-- Three bytes make four digits of six bits; there is no padding behind the last group.
unfoldable pub raw_url_encode : List ℕ → String
raw_url_encode [] = ""
raw_url_encode (a ∷ []) = push (url_digit (a / 4)) (push (url_digit (a % 4 * 16)) "")
raw_url_encode (a ∷ b ∷ []) =
    push (url_digit (a / 4))
      (push (url_digit (a % 4 * 16 + b / 16)) (push (url_digit (b % 16 * 4)) ""))
raw_url_encode (a ∷ b ∷ c ∷ r) = push (url_digit (a / 4)) (
    push (url_digit (a % 4 * 16 + b / 16))
      (push (url_digit (b % 16 * 4 + c / 64)) (push (url_digit (c % 64)) (raw_url_encode r))))

unfoldable pub hex_digit : ℕ → Char
hex_digit n = char_at "0123456789abcdef" n

unfoldable pub hex_encode : List ℕ → String
hex_encode [] = ""
hex_encode (a ∷ r) = push (hex_digit (a / 16)) (push (hex_digit (a % 16)) (hex_encode r))

abbrev pub IsByte : ℕ → Type 0
IsByte n = n < 256

-- A letter, a digit, a dash or an underscore.
abbrev is_url_char : ℕ → Bool
is_url_char n =
    between b'A' b'Z' n
    || between b'a' b'z' n
    || between b'0' b'9' n
    || nat_eq n b'-'
    || nat_eq n b'_'

abbrev pub IsUrlChar : ℕ → Type 0
IsUrlChar n = is_url_char n ≡ true

-- A test that is true of 0, 1, … up to, and without, a bound.
unfoldable pub holds_up_to : (ℕ → Bool) → ℕ → Bool
holds_up_to test zero = true
holds_up_to test (suc bound) = holds_up_to test bound && test bound

pub holds_up_to_sound :
    (test : ℕ → Bool) (bound k : ℕ) → k < bound → holds_up_to test bound ≡ true → test k ≡ true
unfolding holds_up_to
holds_up_to_sound test zero k small all = absurd (omega arith)
holds_up_to_sound test (suc bound) k small all = ground (arith, holds_up_to_sound test bound k)

url_table : holds_up_to (λ n. is_url_char (code (url_digit n))) 64 ≡ true
unfolding holds_up_to url_digit
url_table = refl

url_digit-IsUrlChar : (n : ℕ) → n < 64 → IsUrlChar (code (url_digit n))
url_digit-IsUrlChar n h = holds_up_to_sound (λ k. is_url_char (code (url_digit k))) 64 n h url_table

pub raw_url_encode-IsUrlChar :
    (bs : List ℕ) → All IsByte bs → AllChars IsUrlChar (raw_url_encode bs)
unfolding raw_url_encode
raw_url_encode-IsUrlChar [] h = tt
raw_url_encode-IsUrlChar (a ∷ []) (ha, _) =
    let x = url_digit-IsUrlChar (a / 4) (omega arith) in
    let y = url_digit-IsUrlChar (a % 4 * 16) (omega arith) in (x, (y, tt))
raw_url_encode-IsUrlChar (a ∷ b ∷ []) (ha, (hb, _)) =
    let x = url_digit-IsUrlChar (a / 4) (omega arith) in
    let y = url_digit-IsUrlChar (a % 4 * 16 + b / 16) (omega arith) in
    let z = url_digit-IsUrlChar (b % 16 * 4) (omega arith) in (x, (y, (z, tt)))
raw_url_encode-IsUrlChar (a ∷ b ∷ c ∷ r) (ha, (hb, (hc, hr))) =
    let x = url_digit-IsUrlChar (a / 4) (omega arith) in
    let y = url_digit-IsUrlChar (a % 4 * 16 + b / 16) (omega arith) in
    let z = url_digit-IsUrlChar (b % 16 * 4 + c / 64) (omega arith) in
    let t = url_digit-IsUrlChar (c % 64) (omega arith) in
    (x, (y, (z, (t, raw_url_encode-IsUrlChar r hr))))

url_char_small : (n : ℕ) → IsUrlChar n → n < 128
url_char_small n h = ground arith

len-digit : (n : ℕ) (s : String) → n < 64 → len (push (url_digit n) s) ≡ len s + 1
len-digit n s h =
    let small = url_char_small (code (url_digit n)) (url_digit-IsUrlChar n h) in
    omega (arith, len-cons (url_digit n) s, len_utf8_ascii (url_digit n) small)

-- Three bytes become four characters.
pub len-raw_url_encode :
    (bs : List ℕ) → All IsByte bs → len (raw_url_encode bs) ≡ (length bs * 4 + 2) / 3
unfolding raw_url_encode
len-raw_url_encode [] h = refl
len-raw_url_encode (a ∷ []) (ha, _) =
    let last = push (url_digit (a % 4 * 16)) "" in
    omega (
      arith,
      len-digit (a / 4) last (omega arith),
      len-digit (a % 4 * 16) "" (omega arith),
      len.nil,
    )
len-raw_url_encode (a ∷ b ∷ []) (ha, (hb, _)) =
    let third = push (url_digit (b % 16 * 4)) "" in
    let second = push (url_digit (a % 4 * 16 + b / 16)) third in
    omega (
      arith,
      len-digit (a / 4) second (omega arith),
      len-digit (a % 4 * 16 + b / 16) third (omega arith),
      len-digit (b % 16 * 4) "" (omega arith),
      len.nil,
    )
len-raw_url_encode (a ∷ b ∷ c ∷ r) (ha, (hb, (hc, hr))) =
    let rest = raw_url_encode r in
    let fourth = push (url_digit (c % 64)) rest in
    let third = push (url_digit (b % 16 * 4 + c / 64)) fourth in
    let second = push (url_digit (a % 4 * 16 + b / 16)) third in
    omega (
      arith,
      len-digit (a / 4) second (omega arith),
      len-digit (a % 4 * 16 + b / 16) third (omega arith),
      len-digit (b % 16 * 4 + c / 64) fourth (omega arith),
      len-digit (c % 64) rest (omega arith),
      len-raw_url_encode r hr,
    )
