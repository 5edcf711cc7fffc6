-- ===== src/Apiserver/Edits.antt =====
-- What the handlers that write a site answer, and what they write.
use wordpress_manager_operat.Prelude.{
  ℕ, String, ◌≡◌, ◌≢◌, refl, ap, sym, ◌⊎◌, inl, inr, Bool, false, not, ◌||◌, ◌&&◌, ◌==◌, eq_iff,
  Bool-cases, ne_of_==-false, already_exists, is_not_found, is_already_exists, Result, ok, err,
}
use wordpress_manager_operat.Text.{is_empty}
use wordpress_manager_operat.Api.{WordPressSite}
use wordpress_manager_operat.Apiserver.Interface.{Client, Reply, json, problem, not_found_or_500}
use wordpress_manager_operat.Apiserver.Sites.{
  SiteDto, Server, ParsedSite, to_dto, to_site, patch_site, replace_site, fetch, settle,
  after_update, after_fetch, edit_site, update_site, set_suspend, update_site_yaml, create_site,
  after_create,
}

module _ {W : Type 0} (c : Client W) (s : Server W) where
  -- The site was read, and its edit was written.
  pub record Saved (edit : WordPressSite → WordPressSite) (name : String) (d : SiteDto) (w w' : W)
      : Type 0 where
    pub site : WordPressSite
    pub stored : WordPressSite
    pub read : W
    pub written : W
    pub fetched : fetch c s name w ≡ (ok site, read)
    pub updated : c.update_site (edit site) read ≡ (ok stored, written)
    pub shown : (d ≡ to_dto (settle c s stored written).0) × (w' ≡ (settle c s stored written).1)

  abbrev shown_site : SiteDto → Reply SiteDto → SiteDto
  shown_site d (json n x) = x
  shown_site d (problem n m) = d

  after_fetch-Saved :
      (edit : WordPressSite → WordPressSite) (name : String) (r : Result WordPressSite) (n : ℕ)
      (d : SiteDto) (w w1 w' : W)
      → fetch c s name w ≡ (r, w1)
      → after_fetch c s edit r w1 ≡ (json n d, w')
      → Saved edit name d w w'
  unfolding not_found_or_500
  after_fetch-Saved edit name (err e) n d w w1 w' got h = elim (Bool-cases (is_not_found e)) [
    | inl missing ↦ let bad = ap (λ p. p.0) (rw missing at h) in cc
    | inr other ↦ let bad = ap (λ p. p.0) (rw other at h) in cc
  ]
  after_fetch-Saved edit name (ok site) n d w w1 w' got h =
      finish (c.update_site (edit site) w1).0 (c.update_site (edit site) w1).1 refl h
    where
      finish :
          (u : Result WordPressSite) (w2 : W)
          → c.update_site (edit site) w1 ≡ (u, w2)
          → after_update c s u w2 ≡ (json n d, w')
          → Saved edit name d w w'
      finish (err e) w2 wrote k = let bad = ap (λ p. p.0) k in cc
      finish (ok stored) w2 wrote k = record {
        site = site;
        stored = stored;
        read = w1;
        written = w2;
        fetched = got;
        updated = wrote;
        shown = (ap (λ p. shown_site d p.0) (sym k), ap (λ p. p.1) (sym k));
      }

  edit_site-Saved :
      (edit : WordPressSite → WordPressSite) (name : String) (n : ℕ) (d : SiteDto) (w w' : W)
      → edit_site c s edit name w ≡ (json n d, w')
      → Saved edit name d w w'
  unfolding edit_site
  edit_site-Saved edit name n d w w' h =
      after_fetch-Saved edit name (fetch c s name w).0 n d w (fetch c s name w).1 w' refl h

  -- A form that is answered with a site has a domain; the site of that name was read, and what was
  -- written is that site with the fields of the form.
  pub update_site-Saved :
      (name : String) (form : SiteDto) (n : ℕ) (d : SiteDto) (w w' : W)
      → update_site c s name (ok form) w ≡ (json n d, w')
      → (form.domain ≢ "") × Saved (patch_site form) name d w w'
  unfolding update_site
  update_site-Saved name form n d w w' h = elim (Bool-cases (is_empty form.domain)) [
    | inl missing ↦ let bad = ap (λ p. p.0) (rw missing at h) in cc
    | inr given ↦ (
      ne_of_==-false form.domain "" given,
      edit_site-Saved (patch_site form) name n d w w' (rw given at h),
    )
  ]

  name_fits :
      (own name : String)
      → (not (is_empty own) && not (own == name)) ≡ false
      → (own ≡ "") ⊎ (own ≡ name)
  name_fits own name h = elim (Bool-cases (is_empty own)) [
    | inl missing ↦ inl ((eq_iff own "").0 missing)
    | inr given ↦ elim (Bool-cases (own == name)) [
      | inl same ↦ inr ((eq_iff own name).0 same)
      | inr other ↦ let bad = rw (given, other) at h in cc
    ]
  ]

  -- A document that is answered with a site names that site or none and has a domain; the site was
  -- read, and what was written is that site with the specification, and the annotations if there
  -- are any, of the document.
  pub update_site_yaml-Saved :
      (name : String) (p : ParsedSite) (n : ℕ) (d : SiteDto) (w w' : W)
      → update_site_yaml c s name (ok (ok p)) w ≡ (json n d, w')
      → ((p.name ≡ "") ⊎ (p.name ≡ name))
        × (p.spec.domain ≢ "")
        × Saved (replace_site p) name d w w'
  unfolding update_site_yaml
  update_site_yaml-Saved name p n d w w' h =
      let named = not (is_empty p.name) && not (p.name == name) in
      elim (Bool-cases named) [
        | inl other ↦ let bad = ap (λ q. q.0) (rw other at h) in cc
        | inr same ↦ elim (Bool-cases (is_empty p.spec.domain)) [
          | inl missing ↦ let bad = ap (λ q. q.0) (rw (same, missing) at h) in cc
          | inr given ↦ (
            name_fits p.name name same,
            ne_of_==-false p.spec.domain "" given,
            edit_site-Saved (replace_site p) name n d w w' (rw (same, given) at h),
          )
        ]
      ]

  -- Suspending or resuming that is answered with a site wrote that site with the switch, and no
  -- other change.
  pub set_suspend-Saved :
      (b : Bool) (name : String) (n : ℕ) (d : SiteDto) (w w' : W)
      → set_suspend c s b name w ≡ (json n d, w')
      → Saved (λ site. record site { spec = record (site.spec) { suspend = b } }) name d w w'
  unfolding set_suspend
  set_suspend-Saved b name n d w w' h = edit_site-Saved _ name n d w w' h

  -- The cluster accepted the site of a form that has a name and a domain.
  pub record Created (form : SiteDto) (d : SiteDto) (w w' : W) : Type 0 where
    pub complete : (is_empty form.name || is_empty form.domain) ≡ false
    pub stored : WordPressSite
    pub written : W
    pub created : c.create_site (to_site s.namespace form) w ≡ (ok stored, written)
    pub shown : (d ≡ to_dto (settle c s stored written).0) × (w' ≡ (settle c s stored written).1)

  -- A form whose creation is answered with a site has a name and a domain, the cluster accepted the
  -- site that is made of it, and the answer shows the site as the cluster has it.
  pub create_site-Created :
      (form : SiteDto) (n : ℕ) (d : SiteDto) (w w' : W)
      → create_site c s (ok form) w ≡ (json n d, w')
      → Created form d w w'
  unfolding create_site
  create_site-Created form n d w w' h =
      elim (Bool-cases (is_empty form.name || is_empty form.domain)) [
        | inl missing ↦ let bad = ap (λ p. p.0) (rw missing at h) in cc
        | inr full ↦
            finish full (c.create_site (to_site s.namespace form) w).0
              (c.create_site (to_site s.namespace form) w).1 refl (rw full at h)
      ]
    where
      finish :
          (is_empty form.name || is_empty form.domain) ≡ false
          → (r : Result WordPressSite) (w1 : W)
          → c.create_site (to_site s.namespace form) w ≡ (r, w1)
          → after_create c s r w1 ≡ (json n d, w')
          → Created form d w w'
      finish full (err e) w1 made k = elim (Bool-cases (is_already_exists e)) [
        | inl taken ↦ let bad = ap (λ p. p.0) (rw taken at k) in cc
        | inr other ↦ let bad = ap (λ p. p.0) (rw other at k) in cc
      ]
      finish full (ok stored) w1 made k = record {
        complete = full;
        stored = stored;
        written = w1;
        created = made;
        shown = (ap (λ p. shown_site d p.0) (sym k), ap (λ p. p.1) (sym k));
      }

  -- Where a site of the name exists, creating it is answered with 409, and nothing is reconciled.
  pub create_site_conflict :
      (form : SiteDto) (m : String) (w w' : W)
      → (is_empty form.name || is_empty form.domain) ≡ false
      → c.create_site (to_site s.namespace form) w ≡ (err (already_exists m), w')
      → create_site c s (ok form) w ≡ (problem 409 "site already exists", w')
  unfolding create_site
  create_site_conflict form m w w' full taken = rw (full, taken)
