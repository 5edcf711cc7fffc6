-- ===== src/Text/Base64.antt =====
-- Go's encoding/base64 (StdEncoding), from bytes to text.
pub mod Decoding
use Prim.Native.Char.{Char}
use Prim.Native.String.{String, char_at}
use wordpress_manager_operat.Prelude.{ℕ, ◌+◌, ◌*◌, ◌/◌, ◌%◌, List, [], ◌∷◌}

abbrev pub std_digit : ℕ → Char
std_digit n = char_at "ABCDEFGHIJKLMNOPQRSTUVWXYZabcdefghijklmnopqrstuvwxyz0123456789+/" n

abbrev push : Char → String → String
push c s = String.◌∷◌ c s

-- Three bytes make four digits of six bits; the last group is filled up with equals signs.
unfoldable pub std_encode : List ℕ → String
std_encode [] = ""
std_encode (a ∷ []) = push (std_digit (a / 4)) (push (std_digit (a % 4 * 16)) "==")
std_encode (a ∷ b ∷ []) =
    push (std_digit (a / 4))
      (push (std_digit (a % 4 * 16 + b / 16)) (push (std_digit (b % 16 * 4)) "="))
std_encode (a ∷ b ∷ c ∷ r) = push (std_digit (a / 4)) (
    push (std_digit (a % 4 * 16 + b / 16))
      (push (std_digit (b % 16 * 4 + c / 64)) (push (std_digit (c % 64)) (std_encode r))))
