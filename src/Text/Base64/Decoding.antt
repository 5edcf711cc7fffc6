-- ===== src/Text/Base64/Decoding.antt =====
-- Reading bytes back from their base64 text.
use Prim.Native.Char.{Char, code}
use Prim.Native.String.{String}
use wordpress_manager_operat.Prelude.{
  ℕ, ◌+◌, ◌-◌, ◌*◌, ◌/◌, ◌%◌, ◌<◌, ◌≡◌, refl, List, [], ◌∷◌, arith, All, nat_eq, Bool, not,
  nat_eq→eq, true, false, if◌then◌else◌,
}
use wordpress_manager_operat.Text.{between}
use wordpress_manager_operat.Text.Encoding.{holds_up_to, holds_up_to_sound, IsByte}
use wordpress_manager_operat.Text.Base64.{std_digit, std_encode}

-- The six bits that a digit stands for.
unfoldable pub std_value : Char → ℕ
std_value c =
    let n = code c in
    if between b'A' b'Z' n
    then n - 65
    else if between b'a' b'z' n
    then n - 71
    else if between b'0' b'9' n
    then n + 4
    else if nat_eq n b'+'
    then 62
    else 63

abbrev is_padding : Char → Bool
is_padding c = nat_eq (code c) b'='

abbrev first_byte : Char → Char → ℕ
first_byte x y = std_value x * 4 + std_value y / 16

abbrev second_byte : Char → Char → ℕ
second_byte y z = std_value y % 16 * 16 + std_value z / 4

abbrev third_byte : Char → Char → ℕ
third_byte z t = std_value z % 4 * 64 + std_value t

-- The bytes of a text, as far as its groups of four digits go.
unfoldable pub std_decode : String → List ℕ
unfolding std_value
std_decode (String.◌∷◌ x (String.◌∷◌ y (String.◌∷◌ z (String.◌∷◌ t r)))) =
    let rest = std_decode r in
    if is_padding z
    then first_byte x y ∷ []
    else if is_padding t
    then first_byte x y ∷ second_byte y z ∷ []
    else first_byte x y ∷ second_byte y z ∷ third_byte z t ∷ rest
std_decode s = []

not-true : {b : Bool} → not b ≡ true → b ≡ false
not-true {b = false} h = refl
not-true {b = true} h = cc

value_table : holds_up_to (λ n. nat_eq (std_value (std_digit n)) n) 64 ≡ true
unfolding holds_up_to std_value
value_table = refl

digit_table : holds_up_to (λ n. not (is_padding (std_digit n))) 64 ≡ true
unfolding holds_up_to
digit_table = refl

std_value-std_digit : (n : ℕ) → n < 64 → std_value (std_digit n) ≡ n
std_value-std_digit n h =
    nat_eq→eq _ _ (holds_up_to_sound (λ n. nat_eq (std_value (std_digit n)) n) 64 n h value_table)

not_padding : (n : ℕ) → n < 64 → is_padding (std_digit n) ≡ false
not_padding n h =
    not-true (holds_up_to_sound (λ n. not (is_padding (std_digit n))) 64 n h digit_table)

first_byte_lem :
    (a x : ℕ) → a < 256 → x < 16 → first_byte (std_digit (a / 4)) (std_digit (a % 4 * 16 + x)) ≡ a
first_byte_lem a x h k =
    let e = std_value-std_digit (a / 4) (omega arith) in
    let f = std_value-std_digit (a % 4 * 16 + x) (omega arith) in omega (arith, e, f)

second_byte_lem :
    (a b x : ℕ)
    → b < 256
    → a < 4
    → x < 4
    → second_byte (std_digit (a * 16 + b / 16)) (std_digit (b % 16 * 4 + x)) ≡ b
second_byte_lem a b x h k j =
    let e = std_value-std_digit (a * 16 + b / 16) (omega arith) in
    let f = std_value-std_digit (b % 16 * 4 + x) (omega arith) in omega (arith, e, f)

third_byte_lem :
    (b c : ℕ) → c < 256 → b < 16 → third_byte (std_digit (b * 4 + c / 64)) (std_digit (c % 64)) ≡ c
third_byte_lem b c h k =
    let e = std_value-std_digit (b * 4 + c / 64) (omega arith) in
    let f = std_value-std_digit (c % 64) (omega arith) in omega (arith, e, f)

-- Bytes are read back from their text.
pub std_decode-std_encode : (bs : List ℕ) → All IsByte bs → std_decode (std_encode bs) ≡ bs
unfolding std_decode std_encode
std_decode-std_encode [] h = refl
std_decode-std_encode (a ∷ []) (ha, _) =
    let whole : a % 4 * 16 + 0 ≡ a % 4 * 16 = omega arith in
    let one = first_byte_lem a 0 ha (omega arith) in rw (rw whole at one)
std_decode-std_encode (a ∷ b ∷ []) (ha, (hb, _)) =
    let whole : b % 16 * 4 + 0 ≡ b % 16 * 4 = omega arith in
    let two = second_byte_lem (a % 4) b 0 hb (omega arith) (omega arith) in
    rw (
      not_padding (b % 16 * 4) (omega arith),
      first_byte_lem a (b / 16) ha (omega arith),
      rw whole at two,
    )
std_decode-std_encode (a ∷ b ∷ c ∷ r) (ha, (hb, (hc, hr))) = rw (
  not_padding (b % 16 * 4 + c / 64) (omega arith),
  not_padding (c % 64) (omega arith),
  first_byte_lem a (b / 16) ha (omega arith),
  second_byte_lem (a % 4) b (c / 64) hb (omega arith) (omega arith),
  third_byte_lem (b % 16) c hc (omega arith),
  std_decode-std_encode r hr,
)
