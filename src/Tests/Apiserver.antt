-- ===== src/Tests/Apiserver.antt =====
-- The theorems on the API server, with these stores and libraries.
use wordpress_manager_operat.Prelude.{
  String, result_injective, arith, ◌≡◌, refl, none, some, [], ◌∷◌, failure, err,
}
use wordpress_manager_operat.Maps.{lookup, insert, copy}
use wordpress_manager_operat.Resources.Deployment.{force_https_enabled}
use wordpress_manager_operat.Apiserver.Interface.{Client}
use wordpress_manager_operat.Apiserver.TwoFa.{
  qr_data_uri, enable, enable_from, setup, setup_data, load, save, enabled, is_enabled, validate,
}
use wordpress_manager_operat.Apiserver.Enrolment.{Enabled, enable-Enabled}
use wordpress_manager_operat.Text.Base64.{std_encode}
use wordpress_manager_operat.Apiserver.QrCode.{IsKey, setup-IsKey}
use wordpress_manager_operat.Apiserver.SettingUp.{SetUp, setup-SetUp}
use wordpress_manager_operat.Apiserver.Login.{
  LoginBody, login, verify_password, second_factor, issue_token, issue,
}
use wordpress_manager_operat.Apiserver.Factors.{
  Granted, kube_two_factor, login-Granted, login_fails_open,
}
use wordpress_manager_operat.Apiserver.Sites.{SiteDto, Server, ParsedSite, to_dto, patch_site}
use wordpress_manager_operat.Apiserver.Forms.{patch_site-to_dto}
use wordpress_manager_operat.Tests.Sites.{blog, blog_spec}
use wordpress_manager_operat.Tests.Stores.{
  Slot, slot, store, store-IsStore, admin_factor, one_code, one_token, admin,
}

enable-Enabled_example :
    Enabled store one_code admin_factor store-IsStore "123456"
      (slot (("pending", "NEW") ∷ []))
      (slot (("secret", "NEW") ∷ ("enabled", "true") ∷ []))
unfolding enable enable_from load save lookup
enable-Enabled_example =
    enable-Enabled store one_code admin_factor store-IsStore "123456"
      (slot (("pending", "NEW") ∷ [])) (slot (("secret", "NEW") ∷ ("enabled", "true") ∷ [])) refl

-- The first four bytes of a PNG image.
abbrev png_uri : String
png_uri = "data:image/png;base64,iVBORw=="

setup-SetUp_example :
    SetUp store one_code admin_factor store-IsStore "NEW"
      (slot (("secret", "OLD") ∷ ("enabled", "true") ∷ []))
      (slot (("enabled", "true") ∷ ("secret", "OLD") ∷ ("pending", "NEW") ∷ []))
unfolding setup load save setup_data insert copy qr_data_uri std_encode
setup-SetUp_example =
    setup-SetUp store one_code admin_factor store-IsStore "NEW" "otpauth://totp/x" png_uri
      (slot (("secret", "OLD") ∷ ("enabled", "true") ∷ []))
      (slot (("enabled", "true") ∷ ("secret", "OLD") ∷ ("pending", "NEW") ∷ [])) (λ k w. refl) refl

setup-IsKey_example :
    IsKey store one_code admin_factor "NEW" "otpauth://totp/x" png_uri
      (slot (("secret", "OLD") ∷ ("enabled", "true") ∷ []))
unfolding setup load save setup_data insert copy qr_data_uri std_encode
setup-IsKey_example =
    setup-IsKey store one_code admin_factor "NEW" "otpauth://totp/x" png_uri
      (slot (("secret", "OLD") ∷ ("enabled", "true") ∷ []))
      (slot (("enabled", "true") ∷ ("secret", "OLD") ∷ ("pending", "NEW") ∷ []))
      (λ key bytes e.
        rw (← result_injective e) (omega arith, (omega arith, (omega arith, (omega arith, tt)))))
      refl

abbrev body : LoginBody
body = record { username = "admin"; password = "pw"; totp = "123456" }

abbrev protected : Slot
protected = slot (("secret", "NEW") ∷ ("enabled", "true") ∷ [])

login-Granted_example :
    Granted one_token admin
      (λ w. 100)
      (some (kube_two_factor store one_code admin_factor))
      body
      "token"
      protected
      protected
unfolding login verify_password second_factor enabled validate is_enabled load lookup issue_token
    issue
login-Granted_example =
    login-Granted one_token admin (λ w. 100) (some (kube_two_factor store one_code admin_factor))
      body "token" protected protected refl

-- The API server does not answer the read of the Secret.
abbrev broken : Client Slot
broken = record store { get_secret = λ k w. (err (failure "etcd timeout"), w) }

abbrev no_code : LoginBody
no_code = record { username = "admin"; password = "pw"; totp = "" }

login_fails_open_example :
    login one_token admin
      (λ w. 100)
      (some (kube_two_factor broken one_code admin_factor))
      (some no_code)
      protected
    ≡ issue_token one_token admin (λ w. 100) "admin" protected
unfolding verify_password
login_fails_open_example =
    login_fails_open one_token admin (λ w. 100) broken one_code admin_factor no_code protected
      protected (failure "etcd timeout") refl refl

abbrev form : SiteDto
form = to_dto blog

patch_site-to_dto_example : patch_site (to_dto blog) blog ≡ record blog {
  spec = record (blog.spec) {
    replicas = some 1;
    force_https = some (force_https_enabled blog);
    tls = record (blog.spec.tls) { secret_name = "" };
  };
}
patch_site-to_dto_example = patch_site-to_dto blog

abbrev server : Server Slot
server = record { namespace = "sites"; db_host = "mysql"; db_port = "3306"; reconcile = none }

abbrev document : ParsedSite
document = record { name = "my-blog"; annotations = none; spec = blog_spec }
