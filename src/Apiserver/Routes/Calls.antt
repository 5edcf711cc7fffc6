-- ===== src/Apiserver/Routes/Calls.antt =====
-- What any request can do, and what one without a valid token can.
use wordpress_manager_operat.Prelude.{String, inl, inr, Option, none, some, Result, ok, err}
use wordpress_manager_operat.Apiserver.Login.{TwoFactor}
use wordpress_manager_operat.Apiserver.Factors.{Authorised}
use wordpress_manager_operat.Apiserver.Admin.{
  two_fa_setup, after_mutation, two_fa_enable, two_fa_disable, two_fa_mutate,
}
use wordpress_manager_operat.Apiserver.Sites.{set_suspend}
use wordpress_manager_operat.Apiserver.Routes.{
  Guarded, get_sites, post_sites, post_preview, get_one, put_one, delete_one, get_yaml, put_yaml,
  get_status, post_suspend, post_resume, get_usage, get_me, get_two_fa, post_two_fa_setup,
  post_two_fa_enable, post_two_fa_disable, Route, get_healthz, post_login, guarded, App, handle,
  serve,
}
use wordpress_manager_operat.Apiserver.Routes.Guard.{serve-Authorised}
use wordpress_manager_operat.Apiserver.Routes.Reading.{
  Stays, FactorStays, handle-Stays, login-Stays, middleware-Stays, of_sites, of_preview, of_one,
  of_yaml, of_status, of_usage, of_me, of_two_fa,
}
use wordpress_manager_operat.Apiserver.Routes.Writing.{
  SwitchStays, CallsStay, create_site-Stays, update_site-Stays, update_site_yaml-Stays,
  edit_site-Stays, delete_site-Stays,
}

module _ {W : Type 0} (P : W → Type 0) (a : App W) where
  setup-Stays : (f : Option (TwoFactor W)) → SwitchStays P f → Stays P (two_fa_setup f)
  unfolding two_fa_setup
  setup-Stays none s w h = h
  setup-Stays (some f) (setup, _, _) w h = setup w h

  after_mutation-Stays :
      (f : TwoFactor W) (r : Result (Unit {0})) → Stays P f.enabled → Stays P (after_mutation f r)
  after_mutation-Stays f (ok u) enabled w h = enabled w h
  after_mutation-Stays f (err e) enabled w h = h

  enable-Stays :
      (f : Option (TwoFactor W)) (body : Option String)
      → FactorStays P f
      → SwitchStays P f
      → Stays P (two_fa_enable f body)
  unfolding two_fa_enable two_fa_mutate
  enable-Stays none body reads s w h = h
  enable-Stays (some f) none reads s w h = h
  enable-Stays (some f) (some code) (enabled, _) (_, enable, _) w h =
      after_mutation-Stays f (f.enable code w).0 enabled _ (enable code w h)

  disable-Stays :
      (f : Option (TwoFactor W)) (body : Option String)
      → FactorStays P f
      → SwitchStays P f
      → Stays P (two_fa_disable f body)
  unfolding two_fa_disable two_fa_mutate
  disable-Stays none body reads s w h = h
  disable-Stays (some f) none reads s w h = h
  disable-Stays (some f) (some code) (enabled, _) (_, _, disable) w h =
      after_mutation-Stays f (f.disable code w).0 enabled _ (disable code w h)

  any_handle-Stays : (k : CallsStay P a) (g : Guarded) (user : String) → Stays P (handle a g user)
  unfolding handle set_suspend
  any_handle-Stays k get_sites user w h = handle-Stays P a k.reads of_sites user w h
  any_handle-Stays k (post_sites body) user w h = create_site-Stays P a k body w h
  any_handle-Stays k (post_preview body) user w h = handle-Stays P a k.reads of_preview user w h
  any_handle-Stays k (get_one name) user w h = handle-Stays P a k.reads of_one user w h
  any_handle-Stays k (put_one name body) user w h = update_site-Stays P a k name body w h
  any_handle-Stays k (delete_one name) user w h = delete_site-Stays P a k name w h
  any_handle-Stays k (get_yaml name) user w h = handle-Stays P a k.reads of_yaml user w h
  any_handle-Stays k (put_yaml name body) user w h = update_site_yaml-Stays P a k name body w h
  any_handle-Stays k (get_status name) user w h = handle-Stays P a k.reads of_status user w h
  any_handle-Stays k (post_suspend name) user w h = edit_site-Stays P a k _ name w h
  any_handle-Stays k (post_resume name) user w h = edit_site-Stays P a k _ name w h
  any_handle-Stays k get_usage user w h = handle-Stays P a k.reads of_usage user w h
  any_handle-Stays k get_me user w h = handle-Stays P a k.reads of_me user w h
  any_handle-Stays k get_two_fa user w h = handle-Stays P a k.reads of_two_fa user w h
  any_handle-Stays k post_two_fa_setup user w h = setup-Stays a.two_fa k.switch w h
  any_handle-Stays k (post_two_fa_enable body) user w h =
      enable-Stays a.two_fa body k.reads.factor k.switch w h
  any_handle-Stays k (post_two_fa_disable body) user w h =
      disable-Stays a.two_fa body k.reads.factor k.switch w h

  -- What every call of the handlers keeps, every request keeps, whatever its header.
  pub any_serve-Stays :
      (k : CallsStay P a) (header : String) (r : Route) → Stays P (serve a header r)
  unfolding serve
  any_serve-Stays k header get_healthz w h = h
  any_serve-Stays k header (post_login body) w h = login-Stays P a a.two_fa body k.reads.factor w h
  any_serve-Stays k header (guarded g) w h =
      middleware-Stays P a (handle a g) header (λ user. any_handle-Stays k g user) w h

  -- A request whose header has no valid token at the time, for any route and with any body, keeps
  -- what asking for the state of the second factor and checking a code of it keep.
  pub serve_stranger-Stays :
      (header : String) (r : Route) (w : W)
      → FactorStays P a.two_fa
      → ((user : String) → ¬ Authorised a.crypto a.auth a.now header w user)
      → P w
      → P (serve a header r w).1
  unfolding serve
  serve_stranger-Stays header get_healthz w factor stranger h = h
  serve_stranger-Stays header (post_login body) w factor stranger h =
      login-Stays P a a.two_fa body factor w h
  serve_stranger-Stays header (guarded g) w factor stranger h =
      elim (serve-Authorised a g header w) [
        | inl (user, allowed, _) ↦ absurd (stranger user allowed)
        | inr (m, refused) ↦ rw refused h
      ]
