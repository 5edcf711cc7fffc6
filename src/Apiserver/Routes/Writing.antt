-- ===== src/Apiserver/Routes/Writing.antt =====
-- Every request, those that write included, makes no calls but those of its handler.
use wordpress_manager_operat.Prelude.{
  String, not, ◌==◌, ◌||◌, ◌&&◌, Bool-cases, inl, inr, Option, none, some, is_already_exists,
  Result, ok, err, Exec,
}
use wordpress_manager_operat.Text.{is_empty}
use wordpress_manager_operat.Api.{WordPressSite}
use wordpress_manager_operat.Apiserver.Login.{TwoFactor}
use wordpress_manager_operat.Apiserver.Sites.{
  SiteDto, ParsedSite, settle_with, settle, after_update, after_fetch, edit_site, update_site,
  update_site_yaml, after_create, create_site, run_reconcile, after_delete, after_fetched,
  delete_site, fetch, site_key, to_site,
}
use wordpress_manager_operat.Apiserver.Routes.{App}
use wordpress_manager_operat.Apiserver.Routes.Reading.{Stays, ReadsStay}

-- What the reconciler of the development mode keeps.
abbrev pub RunStays :
    {W : Type 0} → (W → Type 0) → Option (String → String → Exec W (Unit {0})) → Type 0
RunStays P none = Unit
RunStays P (some run) = (namespace name : String) → Stays P (run namespace name)

abbrev pub SwitchStays : {W : Type 0} → (W → Type 0) → Option (TwoFactor W) → Type 0
SwitchStays P none = Unit
SwitchStays P (some f) =
    Stays P f.setup
    × ((code : String) → Stays P (f.enable code))
    × ((code : String) → Stays P (f.disable code))

module _ {W : Type 0} (P : W → Type 0) (a : App W) where
  -- Every call that a handler makes keeps `P`.
  pub record CallsStay : Type 0 where
    pub reads : ReadsStay P a
    pub create_site : (s : WordPressSite) → Stays P (a.client.create_site s)
    pub update_site : (s : WordPressSite) → Stays P (a.client.update_site s)
    pub delete_site : (s : WordPressSite) → Stays P (a.client.delete_site s)
    pub run : RunStays P a.server.reconcile
    pub switch : SwitchStays P a.two_fa

  module _ (k : CallsStay) where
    settle_with-Stays :
        (r : Option (String → String → Exec W (Unit {0}))) (site : WordPressSite)
        → RunStays P r
        → Stays P (settle_with a.client a.server r site)
    settle_with-Stays none site run w h = h
    settle_with-Stays (some r) site run w h =
        k.reads.get_site (site_key site) _ (run a.server.namespace site.meta.name w h)

    after_update-Stays : (r : Result WordPressSite) → Stays P (after_update a.client a.server r)
    unfolding settle
    after_update-Stays (ok site) w h = settle_with-Stays a.server.reconcile site k.run w h
    after_update-Stays (err e) w h = h

    after_fetch-Stays :
        (edit : WordPressSite → WordPressSite) (r : Result WordPressSite)
        → Stays P (after_fetch a.client a.server edit r)
    after_fetch-Stays edit (ok site) w h =
        after_update-Stays (a.client.update_site (edit site) w).0 _ (k.update_site (edit site) w h)
    after_fetch-Stays edit (err e) w h = h

    pub edit_site-Stays :
        (edit : WordPressSite → WordPressSite) (name : String)
        → Stays P (edit_site a.client a.server edit name)
    unfolding edit_site fetch
    edit_site-Stays edit name w h =
        after_fetch-Stays edit (fetch a.client a.server name w).0 _ (k.reads.get_site _ w h)

    pub update_site-Stays :
        (name : String) (body : Result SiteDto) → Stays P (update_site a.client a.server name body)
    unfolding update_site
    update_site-Stays name (ok d) w h = elim (Bool-cases (is_empty d.domain)) [
      | inl e ↦ rw e h
      | inr e ↦ rw e (edit_site-Stays _ name w h)
    ]
    update_site-Stays name (err e) w h = h

    pub update_site_yaml-Stays :
        (name : String) (body : Result (Result ParsedSite))
        → Stays P (update_site_yaml a.client a.server name body)
    unfolding update_site_yaml
    update_site_yaml-Stays name (ok (ok p)) w h =
        elim (Bool-cases (not (is_empty p.name) && not (p.name == name))) [
          | inl e ↦ rw e h
          | inr e ↦ elim (Bool-cases (is_empty p.spec.domain)) [
            | inl f ↦ rw (e, f) h
            | inr f ↦ rw (e, f) (edit_site-Stays _ name w h)
          ]
        ]
    update_site_yaml-Stays name (ok (err e)) w h = h
    update_site_yaml-Stays name (err e) w h = h

    after_create-Stays : (r : Result WordPressSite) → Stays P (after_create a.client a.server r)
    unfolding settle
    after_create-Stays (ok site) w h = settle_with-Stays a.server.reconcile site k.run w h
    after_create-Stays (err e) w h = elim (Bool-cases (is_already_exists e)) [
      | inl t ↦ rw t h
      | inr t ↦ rw t h
    ]

    pub create_site-Stays : (body : Result SiteDto) → Stays P (create_site a.client a.server body)
    unfolding create_site
    create_site-Stays (ok d) w h = elim (Bool-cases (is_empty d.name || is_empty d.domain)) [
      | inl e ↦ rw e h
      | inr e ↦ rw e (
          after_create-Stays (a.client.create_site (to_site a.server.namespace d) w).0 _
            (k.create_site _ w h))
    ]
    create_site-Stays (err e) w h = h

    run_reconcile-Stays :
        (r : Option (String → String → Exec W (Unit {0}))) (name : String) (w : W)
        → RunStays P r
        → P w
        → P (run_reconcile a.client a.server r name w)
    run_reconcile-Stays none name w run h = h
    run_reconcile-Stays (some r) name w run h = run a.server.namespace name w h

    after_delete-Stays :
        (name : String) (r : Result (Unit {0})) → Stays P (after_delete a.client a.server name r)
    after_delete-Stays name (ok u) w h = run_reconcile-Stays a.server.reconcile name w k.run h
    after_delete-Stays name (err e) w h = h

    after_fetched-Stays : (r : Result WordPressSite) → Stays P (after_fetched a.client a.server r)
    after_fetched-Stays (ok site) w h =
        after_delete-Stays site.meta.name (a.client.delete_site site w).0 _ (k.delete_site site w h)
    after_fetched-Stays (err e) w h = h

    pub delete_site-Stays : (name : String) → Stays P (delete_site a.client a.server name)
    unfolding delete_site fetch
    delete_site-Stays name w h =
        after_fetched-Stays (fetch a.client a.server name w).0 _ (k.reads.get_site _ w h)
