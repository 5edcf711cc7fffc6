-- ===== src/Tests/Stores.antt =====
-- A cluster with one site and a place for one Secret, and libraries that accept one code and one
-- password.
use wordpress_manager_operat.Prelude.{
  String, ◌≡◌, refl, ap, Bool, true, ◌&&◌, ◌==◌, eq_iff, eq_refl, nat_eq, nat_eq→eq, ltb,
  and-eq-true_iff, Bool-cases, inl, inr, Option, none, some, [], ◌∷◌, failure, not_found, Result,
  ok, err, if◌then◌else◌, arith,
}
use wordpress_manager_operat.Maps.{Map}
use wordpress_manager_operat.Resources.Objects.{Secret, new_meta}
use wordpress_manager_operat.Controller.Interface.{ObjectKey}
use wordpress_manager_operat.Apiserver.Interface.{Client}
use wordpress_manager_operat.Apiserver.SecretStore.{address, IsStore}
use wordpress_manager_operat.Apiserver.TwoFa.{Totp, KubeTwoFa}
use wordpress_manager_operat.Apiserver.Login.{Claims, Crypto, Authenticator}
use wordpress_manager_operat.Apiserver.Factors.{IsSound}
use wordpress_manager_operat.Tests.Sites.{blog}

abbrev pub Slot : Type 0
Slot = Option Secret

abbrev pub same_key : ObjectKey → ObjectKey → Bool
same_key a b = (a.namespace == b.namespace) && (a.name == b.name)

abbrev pub read_slot : ObjectKey → Slot → Result Secret
read_slot k none = err (not_found "no such secret")
read_slot k (some s) = if same_key (address s) k then ok s else err (not_found "no such secret")

abbrev pub store : Client Slot
store = record {
  get_site = λ k w. (ok blog, w);
  list_sites = λ n w. (ok (blog ∷ []), w);
  create_site = λ s w. (ok s, w);
  update_site = λ s w. (ok s, w);
  delete_site = λ s w. (ok tt, w);
  get_secret = λ k w. (read_slot k w, w);
  create_secret = λ s w. (ok s, some s);
  update_secret = λ s w. (ok s, some s);
}

read_slot-address : (k : ObjectKey) (s : Secret) (w : Slot) → read_slot k w ≡ ok s → address s ≡ k
read_slot-address k s none h = cc
read_slot-address k s (some t) h = elim (Bool-cases (same_key (address t) k)) [
  | inr other ↦ let bad = rw other at h in cc
  | inl same ↦
      let kept : t ≡ s = (let e : Path (Result Secret) (ok t) (ok s) = rw same at h in cc) in
      let (p, q) =
        (and-eq-true_iff (t.meta.namespace == k.namespace) (t.meta.name == k.name)).0 same in
      let at_k : address t ≡ k = λ i. record {
        namespace = (eq_iff t.meta.namespace k.namespace).0 p i;
        name = (eq_iff t.meta.name k.name).0 q i;
      } in
      rw (← kept) at_k
]

same_key_refl : (k : ObjectKey) → same_key k k ≡ true
same_key_refl k = rw (eq_refl k.namespace, eq_refl k.name)

pub store-IsStore : IsStore store
store-IsStore = record {
  addressed = λ k s w w' h. read_slot-address k s w (ap (λ p. p.0) h);
  repeated = λ k w. refl;
  created = λ s t w w' h.
      let left : some s ≡ w' = ap (λ p. p.1) h in (s, rw (← left, same_key_refl (address s)), refl);
  updated = λ s t w w' h.
      let left : some s ≡ w' = ap (λ p. p.1) h in (s, rw (← left, same_key_refl (address s)), refl);
}

abbrev pub admin_factor : KubeTwoFa
admin_factor = record {
  namespace = "wpmgr";
  secret_name = "admin-2fa";
  issuer = "wordpress-manager";
  account = "admin";
}

abbrev pub one_code : Totp Slot
one_code = record {
  generate = λ issuer account w. (ok (record { secret = "NEW"; url = "otpauth://totp/x" }), w);
  validate = λ code secret w. code == "123456";
  image = λ key width height. ok (137 ∷ 80 ∷ 78 ∷ 71 ∷ []);
}

abbrev pub slot : Map String → Slot
slot entries = some (record { meta = new_meta "admin-2fa" "wpmgr" [] []; entries = entries })

-- The claims of a login at time 100 with a life of 60.
abbrev pub admin_claims : Claims
admin_claims = record {
  subject = "admin";
  expires_at = 160;
  issued_at = 100;
  issuer = "wordpress-manager";
}

abbrev is_admin : Claims → Bool
is_admin c =
    (c.subject == "admin")
    && (nat_eq c.expires_at 160 && (nat_eq c.issued_at 100 && (c.issuer == "wordpress-manager")))

-- A library that signs these claims alone, with one token.
abbrev pub one_token : Crypto
one_token = record {
  compare = λ hash password. hash == password;
  sign = λ claims secret. if is_admin claims then ok "token" else err (failure "cannot sign");
  parse = λ now token secret.
      if (token == "token") && ltb now 160 then ok admin_claims else err (failure "invalid");
}

is_admin-claims : (c : Claims) → is_admin c ≡ true → c ≡ admin_claims
is_admin-claims c h =
    let (p, h1) =
      (and-eq-true_iff (c.subject == "admin") (
          nat_eq c.expires_at 160
          && (nat_eq c.issued_at 100 && (c.issuer == "wordpress-manager")))).0
        h in
    let (q, h2) =
      (and-eq-true_iff (nat_eq c.expires_at 160)
          (nat_eq c.issued_at 100 && (c.issuer == "wordpress-manager"))).0
        h1 in
    let (r, t) =
      (and-eq-true_iff (nat_eq c.issued_at 100) (c.issuer == "wordpress-manager")).0 h2 in
    λ i. record {
      subject = (eq_iff c.subject "admin").0 p i;
      expires_at = nat_eq→eq c.expires_at 160 q i;
      issued_at = nat_eq→eq c.issued_at 100 r i;
      issuer = (eq_iff c.issuer "wordpress-manager").0 t i;
    }

pub one_token-IsSound : IsSound one_token
one_token-IsSound = record {
  sign-parse = λ claims secret token now signed fresh. elim (Bool-cases (is_admin claims)) [
    | inr other ↦ let bad = rw other at signed in cc
    | inl same ↦
        let written : "token" ≡ token =
          (let e : Path (Result String) (ok "token") (ok token) = rw same at signed in cc) in
        let all = is_admin-claims claims same in
        let until : claims.expires_at ≡ 160 = ap (λ (c : Claims). c.expires_at) all in
        let early : ltb now 160 ≡ true = ground (arith, fresh, until) in rw (← written, early, all)
  ];
}

abbrev pub admin : Authenticator
admin = record { username = "admin"; password_hash = "pw"; jwt_secret = "key"; ttl = 60 }
