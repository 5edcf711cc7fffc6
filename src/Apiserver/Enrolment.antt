-- ===== src/Apiserver/Enrolment.antt =====
-- Enabling and disabling the second factor, each with a code.
use wordpress_manager_operat.Prelude.{
  String, ◌≡◌, refl, ap, ◌⊎◌, Bool, true, false, ◌&&◌, Option, none, some, inl, inr, Bool-cases, ok,
  >>=-ok,
}
use wordpress_manager_operat.Text.{is_empty}
use wordpress_manager_operat.Maps.{lookup}
use wordpress_manager_operat.Resources.Objects.{Secret}
use wordpress_manager_operat.Resources.Secret.{value_at}
use wordpress_manager_operat.Apiserver.Interface.{Client}
use wordpress_manager_operat.Apiserver.TwoFa.{
  Totp, KubeTwoFa, key_secret, key_pending, is_enabled, enable_data, disable_data, load, enabled,
  enable_from, enable, disable_from, disable,
}
use wordpress_manager_operat.Apiserver.SecretStore.{IsStore, save-load, load-IsOurs, load-load}

and_false : (b : Bool) → (b && false) ≡ false
and_false true = refl
and_false false = refl

module _ {W : Type 0} (c : Client W) (totp : Totp W) (t : KubeTwoFa) (k : IsStore c) where
  -- A code was checked against the pending secret, and the second factor is on.
  pub record Enabled (code : String) (w w' : W) : Type 0 where
    pub found : Secret
    pub read : W
    pub loaded : load c totp t w ≡ (ok (some found), read)
    pub checked : totp.validate code (value_at key_pending found.entries) read ≡ true
    pub on : enabled c totp t w' ≡ (true, w')

  -- In a cluster that stores Secrets, if Enable succeeds, its code was valid for the pending secret
  -- at that time, and the second factor is on.
  pub enable-Enabled :
      (code : String) (w w' : W) → enable c totp t code w ≡ (ok tt, w') → Enabled code w w'
  unfolding enable enable_from enabled is_enabled lookup
  enable-Enabled code w w' h =
      let (o, w1, loaded, rest) = >>=-ok (load c totp t) (enable_from c totp t code) w h in
      finish o w1 loaded rest
    where
      finish :
          (o : Option Secret) (w1 : W)
          → load c totp t w ≡ (ok o, w1)
          → enable_from c totp t code o w1 ≡ (ok tt, w')
          → Enabled code w w'
      finish none w1 loaded rest = let bad = ap (λ p. p.0) rest in cc
      finish (some s) w1 loaded rest =
          elim (Bool-cases (is_empty (value_at key_pending s.entries))) [
            | inl missing ↦ let bad = ap (λ p. p.0) (rw missing at rest) in cc
            | inr given ↦
                elim (Bool-cases (totp.validate code (value_at key_pending s.entries) w1)) [
                  | inr wrong ↦ let bad = ap (λ p. p.0) (rw (given, wrong) at rest) in cc
                  | inl right ↦
                      let (u, again, written) =
                        save-load c totp t k (some s) (enable_data (value_at key_pending s.entries))
                          w1 w' (load-IsOurs c totp t k w w1 (some s) loaded)
                          (rw (given, right) at rest) in
                      record {
                        found = s;
                        read = w1;
                        loaded = loaded;
                        checked = right;
                        on = rw (again, written, given);
                      }
                ]
          ]

  -- A code was checked against the active secret, unless there was none.
  abbrev pub Checked : String → Option Secret → W → Type 0
  Checked code none w = Unit
  Checked code (some s) w =
      (is_empty (value_at key_secret s.entries) ≡ true)
      ⊎ (totp.validate code (value_at key_secret s.entries) w ≡ true)

  pub record Disabled (code : String) (w w' : W) : Type 0 where
    pub found : Option Secret
    pub read : W
    pub loaded : load c totp t w ≡ (ok found, read)
    pub checked : Checked code found read
    pub off : enabled c totp t w' ≡ (false, w')

  -- In a cluster that stores Secrets, if Disable succeeds, its code was valid for the active secret
  -- at that time, or there was none, and the second factor is off.
  pub disable-Disabled :
      (code : String) (w w' : W) → disable c totp t code w ≡ (ok tt, w') → Disabled code w w'
  unfolding disable disable_from enabled is_enabled lookup
  disable-Disabled code w w' h =
      let (o, w1, loaded, rest) = >>=-ok (load c totp t) (disable_from c totp t code) w h in
      finish o w1 loaded rest
    where
      finish :
          (o : Option Secret) (w1 : W)
          → load c totp t w ≡ (ok o, w1)
          → disable_from c totp t code o w1 ≡ (ok tt, w')
          → Disabled code w w'
      finish none w1 loaded rest =
          let same : w1 ≡ w' = ap (λ p. p.1) rest in
          record {
            found = none;
            read = w1;
            loaded = loaded;
            checked = tt;
            off = rw (← same, load-load c totp t k w w1 none loaded);
          }
      finish (some s) w1 loaded rest =
          elim (Bool-cases (is_empty (value_at key_secret s.entries))) [
            | inl missing ↦
                let same : w1 ≡ w' = ap (λ p. p.1) (rw missing at rest) in
                record {
                  found = some s;
                  read = w1;
                  loaded = loaded;
                  checked = inl missing;
                  off =
                      rw (← same, load-load c totp t k w w1 (some s) loaded, missing)
                        (ap (λ b. (b, w1)) (and_false _));
                }
            | inr given ↦
                elim (Bool-cases (totp.validate code (value_at key_secret s.entries) w1)) [
                  | inr wrong ↦ let bad = ap (λ p. p.0) (rw (given, wrong) at rest) in cc
                  | inl right ↦
                      let (u, again, written) =
                        save-load c totp t k (some s) disable_data w1 w'
                          (load-IsOurs c totp t k w w1 (some s) loaded)
                          (rw (given, right) at rest) in
                      record {
                        found = some s;
                        read = w1;
                        loaded = loaded;
                        checked = inr right;
                        off = rw (again, written);
                      }
                ]
          ]
