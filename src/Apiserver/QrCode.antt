-- ===== src/Apiserver/QrCode.antt =====
-- What Setup of internal/apiserver/twofa.go answers with.
use Prim.Native.String.{◌++◌}
use mathlib.Core.Option.{map as option_map}
use wordpress_manager_operat.Prelude.{
  ℕ, String, ◌≡◌, refl, sym, ap, ◌∙◌, Option, some, List, All, Result, ok, err, >>=-ok, continue_ok,
  ok_injective, result_injective,
}
use wordpress_manager_operat.Text.{strip_prefix}
use wordpress_manager_operat.Text.Encoding.{IsByte}
use wordpress_manager_operat.Text.Base64.{std_encode}
use wordpress_manager_operat.Text.Base64.Decoding.{std_decode, std_decode-std_encode}
use wordpress_manager_operat.Text.Prefix.{strip_prefix-append}
use wordpress_manager_operat.Apiserver.Interface.{Client}
use wordpress_manager_operat.Apiserver.TwoFa.{
  OtpKey, Totp, KubeTwoFa, data_uri, qr_data_uri, setup, setup_data, load, save,
}

-- The bytes that a data URI of a PNG image has.
abbrev pub image_of : String → Option (List ℕ)
image_of uri = option_map std_decode (strip_prefix "data:image/png;base64," uri)

data_uri-ok :
    (r : Result (List ℕ)) (uri : String)
    → data_uri r ≡ ok uri
    → (bytes : List ℕ) × (r ≡ ok bytes) × ("data:image/png;base64," ++ std_encode bytes ≡ uri)
data_uri-ok (ok bytes) uri h = (bytes, refl, result_injective h)
data_uri-ok (err e) uri h = cc

image_of-std_encode :
    (bytes : List ℕ)
    → All IsByte bytes
    → image_of ("data:image/png;base64," ++ std_encode bytes) ≡ some bytes
image_of-std_encode bytes h =
    rw (strip_prefix-append "data:image/png;base64," (std_encode bytes))
      (ap some (std_decode-std_encode bytes h))

module _ {W : Type 0} (c : Client W) (totp : Totp W) (t : KubeTwoFa) where
  -- The secret and the address are those of the key that was drawn, and the QR code is its image.
  pub record IsKey (secret url qr : String) (w : W) : Type 0 where
    pub key : OtpKey
    pub bytes : List ℕ
    pub drawn : (totp.generate t.issuer t.account w).0 ≡ ok key
    pub same_secret : key.secret ≡ secret
    pub same_url : key.url ≡ url
    pub rendered : totp.image key 220 220 ≡ ok bytes
    pub shown : image_of qr ≡ some bytes

  -- If Setup succeeds, its secret, its address and its QR code are those of the one key that it drew;
  -- the QR code is the image of 220 by 220 pixels, in base64, if images consist of bytes.
  pub setup-IsKey :
      (secret url qr : String) (w w' : W)
      → ((key : OtpKey) (bytes : List ℕ) → totp.image key 220 220 ≡ ok bytes → All IsByte bytes)
      → setup c totp t w ≡ (ok (secret, (url, qr)), w')
      → IsKey secret url qr w
  unfolding setup qr_data_uri
  setup-IsKey secret url qr w w' bounded h =
      let (key, w1, made, h1) = >>=-ok (totp.generate t.issuer t.account) _ w h in
      let (o, w2, loaded, h2) = >>=-ok (load c totp t) _ w1 h1 in
      let (x, w3, saved, h3) = >>=-ok (save c totp t o (setup_data o key.secret)) _ w2 h2 in
      let (uri, drew, h4) = continue_ok _ (qr_data_uri totp key) w3 h3 in
      let (bytes, rendered, encoded) = data_uri-ok (totp.image key 220 220) uri drew in
      let answer = ok_injective h4 in
      record {
        key = key;
        bytes = bytes;
        drawn = ap (λ p. p.0) made;
        same_secret = ap (λ r. r.0) answer;
        same_url = ap (λ r. r.1.0) answer;
        rendered = rendered;
        shown =
            ap image_of (sym (encoded ∙ ap (λ r. r.1.1) answer))
            ∙ image_of-std_encode bytes (bounded key bytes rendered);
      }
