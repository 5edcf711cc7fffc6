-- ===== src/Apiserver/SettingUp.antt =====
-- Setting up the second factor: a new secret is stored and the active one is kept.
use mathlib.Core.Path.{subst}
use wordpress_manager_operat.Prelude.{
  String, ◌≡◌, refl, ap, sym, ◌∙◌, false, ◌==◌, Option, none, some, [], ok_injective,
  result_injective, ok, >>=-ok, continue_ok,
}
use wordpress_manager_operat.Maps.{lookup, copy, lookup-insert}
use wordpress_manager_operat.Resources.Objects.{Secret}
use wordpress_manager_operat.Resources.Secret.{value_at, existing_data}
use wordpress_manager_operat.Resources.Secret.Kept.{lookup-copied}
use wordpress_manager_operat.Controller.Interface.{ObjectKey}
use wordpress_manager_operat.Apiserver.Interface.{Client}
use wordpress_manager_operat.Apiserver.TwoFa.{
  qr_data_uri, Totp, KubeTwoFa, OtpKey, key_secret, key_enabled, key_pending, is_enabled,
  setup_data, secret_key_of, load, save, enabled, setup,
}
use wordpress_manager_operat.Apiserver.SecretStore.{IsStore, save-load, load-IsOurs, load_result}

-- Another key than the pending one is read in the data of Setup as before.
setup_data-lookup :
    (o : Option Secret) (pending j : String)
    → (key_pending == j) ≡ false
    → lookup j (setup_data o pending) ≡ lookup j (existing_data o)
unfolding setup_data
setup_data-lookup o pending j other = rw (
  lookup-insert key_pending j pending (copy [] (existing_data o)),
  other,
  lookup-copied j (existing_data o),
)

setup_data-pending :
    (o : Option Secret) (pending : String) → value_at key_pending (setup_data o pending) ≡ pending
unfolding setup_data
setup_data-pending o pending =
    rw (lookup-insert key_pending key_pending pending (copy [] (existing_data o)))

setup_data-active :
    (o before : Option Secret) (pending : String)
    → o ≡ before
    → value_at key_secret (setup_data o pending) ≡ value_at key_secret (existing_data before)
setup_data-active o before pending same = rw (setup_data-lookup o pending key_secret refl, same)

is_enabled-setup_data :
    (o : Option Secret) (u : Secret) (pending : String)
    → u.entries ≡ setup_data o pending
    → is_enabled (ok (some u)) ≡ is_enabled (ok o)
unfolding is_enabled
is_enabled-setup_data none u pending e =
    rw (e, setup_data-lookup none pending key_enabled refl) (unfold lookup in refl)
is_enabled-setup_data (some s) u pending e = rw (
  e,
  setup_data-lookup (some s) pending key_enabled refl,
  setup_data-lookup (some s) pending key_secret refl,
)

module _ {W : Type 0} (c : Client W) (totp : Totp W) (t : KubeTwoFa) (k : IsStore c) where
  -- The second factor is on or off as before, and the next read finds the new secret as the pending
  -- one and the active secret that was read before, if any.
  pub record SetUp (secret : String) (w w' : W) : Type 0 where
    pub stored : Secret
    pub loaded : load c totp t w' ≡ (ok (some stored), w')
    pub pending : value_at key_pending stored.entries ≡ secret
    pub active :
        (o : Option Secret)
        → (load c totp t w).0 ≡ ok o
        → value_at key_secret stored.entries ≡ value_at key_secret (existing_data o)
    pub kept : (enabled c totp t w').0 ≡ (enabled c totp t w).0

  saved-SetUp :
      (key : OtpKey) (o : Option Secret) (w w1 w2 w' : W)
      → (c.get_secret (secret_key_of c totp t) w1).0 ≡ (c.get_secret (secret_key_of c totp t) w).0
      → load c totp t w1 ≡ (ok o, w2)
      → save c totp t o (setup_data o key.secret) w2 ≡ (ok tt, w')
      → SetUp key.secret w w'
  unfolding enabled
  saved-SetUp key o w w1 w2 w' same loaded saved =
      let (u, again, written) =
        save-load c totp t k o (setup_data o key.secret) w2 w'
          (load-IsOurs c totp t k w1 w2 o loaded) saved in
      record {
        stored = u;
        loaded = again;
        pending = ap (λ m. value_at key_pending m) written ∙ setup_data-pending o key.secret;
        active = λ before was.
            ap (λ m. value_at key_secret m) written
            ∙ setup_data-active o before key.secret (
                result_injective
                  (sym (ap (λ p. p.0) loaded) ∙ load_result c totp t k w w1 same ∙ was));
        kept =
            ap (λ p. is_enabled p.0) again
            ∙ is_enabled-setup_data o u key.secret written
            ∙ ap is_enabled (sym (ap (λ p. p.0) loaded) ∙ load_result c totp t k w w1 same);
      }

  -- In a cluster that stores Secrets, if Setup succeeds, and drawing a key leaves the Secrets
  -- alone, the secret that it returns is the pending one behind it, the active secret is the one that
  -- was stored before, or missing as before, and the second factor is on exactly if it was on before.
  pub setup-SetUp :
      (secret url qr : String) (w w' : W)
      → ((k : ObjectKey) (w : W)
          → (c.get_secret k (totp.generate t.issuer t.account w).1).0 ≡ (c.get_secret k w).0)
      → setup c totp t w ≡ (ok (secret, (url, qr)), w')
      → SetUp secret w w'
  unfolding setup
  setup-SetUp secret url qr w w' drawn h =
      let (key, w1, made, h1) = >>=-ok (totp.generate t.issuer t.account) _ w h in
      let (o, w2, loaded, h2) = >>=-ok (load c totp t) _ w1 h1 in
      let (x, w3, saved, h3) = >>=-ok (save c totp t o (setup_data o key.secret)) _ w2 h2 in
      let (qr', drew, h4) = continue_ok _ (qr_data_uri totp key) w3 h3 in
      let left = ap (λ v. (ok x, v)) (ap (λ p. p.1) h4) in
      let same = ap (λ p. (c.get_secret (secret_key_of c totp t) p.1).0) (sym made) ∙ drawn _ w in
      subst (λ s. SetUp s w w') (ap (λ r. r.0) (ok_injective h4))
        (saved-SetUp key o w w1 w2 w' same loaded (saved ∙ left))
