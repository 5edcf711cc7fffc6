-- ===== src/Apiserver/Admin/Switching.antt =====
-- The second factor, switched on and off through its handlers.
use wordpress_manager_operat.Prelude.{
  String, ◌≡◌, refl, ap, sym, ◌∙◌, ℕ, Bool, true, false, some, Result, ok, err,
}
use wordpress_manager_operat.Apiserver.Interface.{Client, Reply, json, problem}
use wordpress_manager_operat.Apiserver.TwoFa.{Totp, KubeTwoFa, enable, disable}
use wordpress_manager_operat.Apiserver.SecretStore.{IsStore}
use wordpress_manager_operat.Apiserver.Enrolment.{
  Enabled, enable-Enabled, Disabled, disable-Disabled,
}
use wordpress_manager_operat.Apiserver.Login.{
  Crypto, Authenticator, TwoFactor, verify_password, second_factor, login, issue_token,
}
use wordpress_manager_operat.Apiserver.Factors.{kube_two_factor}
use wordpress_manager_operat.Apiserver.Admin.{
  after_mutation, two_fa_mutate, two_fa_enable, two_fa_disable,
}

flag_of : Reply Bool → Bool
flag_of (json n b) = b
flag_of (problem n m) = false

-- An answer of 200 comes from a method that succeeded, and tells what Enabled says behind it.
after_mutation-json :
    {W : Type 0} (f : TwoFactor W) (r : Result (Unit {0})) (on : Bool) (w w' : W)
    → after_mutation f r w ≡ (json 200 on, w')
    → (r ≡ ok tt) × (f.enabled w ≡ (on, w'))
unfolding flag_of
after_mutation-json f (ok _) on w w' h = (refl, λ i. (ap (λ p. flag_of p.0) h i, ap (λ p. p.1) h i))
after_mutation-json f (err e) on w w' h = let bad = ap (λ p. p.0) h in cc

module _ {W : Type 0} (c : Client W) (totp : Totp W) (t : KubeTwoFa) (k : IsStore c) where
  -- Behind an answer of 200 to enabling, the second factor is on: its code was valid for the pending
  -- secret.
  pub two_fa_enable-Enabled :
      (code : String) (on : Bool) (w w' : W)
      → two_fa_enable (some (kube_two_factor c totp t)) (some code) w ≡ (json 200 on, w')
      → (on ≡ true) × Enabled c totp t k code w w'
  unfolding two_fa_enable two_fa_mutate
  two_fa_enable-Enabled code on w w' h =
      let (succeeded, said) = after_mutation-json (kube_two_factor c totp t) _ on _ w' h in
      let done =
        enable-Enabled c totp t k code w (enable c totp t code w).1
          (λ i. (succeeded i, (enable c totp t code w).1)) in
      let both : (true, (enable c totp t code w).1) ≡ (on, w') = sym done.on ∙ said in
      let left : (enable c totp t code w).1 ≡ w' = ap (λ p. p.1) both in
      (sym (ap (λ p. p.0) both), rw (← left) done)

  pub two_fa_disable-Disabled :
      (code : String) (on : Bool) (w w' : W)
      → two_fa_disable (some (kube_two_factor c totp t)) (some code) w ≡ (json 200 on, w')
      → (on ≡ false) × Disabled c totp t k code w w'
  unfolding two_fa_disable two_fa_mutate
  two_fa_disable-Disabled code on w w' h =
      let (succeeded, said) = after_mutation-json (kube_two_factor c totp t) _ on _ w' h in
      let done =
        disable-Disabled c totp t k code w (disable c totp t code w).1
          (λ i. (succeeded i, (disable c totp t code w).1)) in
      let both : (false, (disable c totp t code w).1) ≡ (on, w') = sym done.off ∙ said in
      let left : (disable c totp t code w).1 ≡ w' = ap (λ p. p.1) both in
      (sym (ap (λ p. p.0) both), rw (← left) done)

  module _ (crypto : Crypto) (a : Authenticator) (now : W → ℕ) where
    -- In a cluster that stores Secrets, once enabling was answered with 200, the next login with the
    -- password alone is asked for a code.
    pub two_fa_enable-login :
        (code user password : String) (on : Bool) (w w' : W)
        → two_fa_enable (some (kube_two_factor c totp t)) (some code) w ≡ (json 200 on, w')
        → verify_password crypto a user password ≡ true
        → login crypto a now
            (some (kube_two_factor c totp t))
            (some (record { username = user; password = password; totp = "" }))
            w'
          ≡ (problem 401 "totp_required", w')
    unfolding login second_factor
    two_fa_enable-login code user password on w w' h right =
        let (_, done) = two_fa_enable-Enabled code on w w' h in rw (right, done.on) refl

    -- Once disabling was answered with 200, the password alone is enough.
    pub two_fa_disable-login :
        (code user password : String) (on : Bool) (w w' : W)
        → two_fa_disable (some (kube_two_factor c totp t)) (some code) w ≡ (json 200 on, w')
        → verify_password crypto a user password ≡ true
        → login crypto a now
            (some (kube_two_factor c totp t))
            (some (record { username = user; password = password; totp = "" }))
            w'
          ≡ issue_token crypto a now user w'
    unfolding login second_factor
    two_fa_disable-login code user password on w w' h right =
        let (_, done) = two_fa_disable-Disabled code on w w' h in rw (right, done.off) refl
