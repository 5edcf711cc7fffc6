-- ===== src/Apiserver/Documents/Pages.antt =====
-- What the two handlers of YAML answer with.
use Prim.Native.String.{◌++◌}
use text.Mathlib.TextLemmas.{nil-append, append-nil, append_assoc}
use wordpress_manager_operat.Prelude.{
  ℕ, if◌then◌else◌, sym, String, ◌≡◌, refl, ap, ◌∙◌, List, Bool, true, false, [], ◌∷◌, Result, ok,
  err,
}
use wordpress_manager_operat.Api.{WordPressSite}
use wordpress_manager_operat.Resources.Names.{Defaults}
use wordpress_manager_operat.Apiserver.Interface.{
  Client, Reply, json, problem, not_found_or_500-ne_json,
}
use wordpress_manager_operat.Apiserver.Sites.{SiteDto, Server, to_site, fetch}
use wordpress_manager_operat.Apiserver.Documents.{
  TypedObject, Yaml, Page, separator, cr_yaml, render_next, render_objects, manifests,
  render_manifests, with_source, with_rendered, page_of, preview_yaml, after_read, get_site_yaml,
}

-- The texts of objects, each but the first of all behind a separator.
abbrev pub joined : Bool → List String → String
joined first [] = ""
joined true (y ∷ ys) = y ++ joined false ys
joined false (y ∷ ys) = separator ++ (y ++ joined false ys)

-- The objects are marshalled to the texts, in their order.
pub data Marshal (yaml : Yaml) : List TypedObject → List String → Type 0 where
  nothing : Marshal yaml [] []
  next :
      {o : TypedObject} {y : String} {os : List TypedObject} {ys : List String}
      → yaml.marshal_object o ≡ ok y
      → Marshal yaml os ys
      → Marshal yaml (o ∷ os) (y ∷ ys)

-- The texts of a rendering.
abbrev Rendered : Yaml → Bool → String → List TypedObject → String → Type 0
Rendered yaml first before os text =
    (ys : List String) × Marshal yaml os ys × (text ≡ before ++ joined first ys)

result_text : Result String → String
result_text (ok s) = s
result_text (err e) = ""

render_next-ok :
    (yaml : Yaml) (rest : String → Result String) (first : Bool) (before text : String)
    (r : Result String)
    → render_next yaml rest first before r ≡ ok text
    → (y : String) × (r ≡ ok y)
      × (rest (if first then before ++ y else (before ++ separator) ++ y) ≡ ok text)
render_next-ok yaml rest true before text (ok y) h = (y, refl, h)
render_next-ok yaml rest false before text (ok y) h = (y, refl, h)
render_next-ok yaml rest first before text (err e) h = cc

joined-next :
    (first : Bool) (before y : String) (ys : List String)
    → (if first then before ++ y else (before ++ separator) ++ y) ++ joined false ys
      ≡ before ++ joined first (y ∷ ys)
joined-next true before y ys = append_assoc before y (joined false ys)
joined-next false before y ys =
    append_assoc (before ++ separator) y (joined false ys)
    ∙ append_assoc before separator (y ++ joined false ys)

render_objects-Rendered :
    (yaml : Yaml) (first : Bool) (before text : String) (os : List TypedObject)
    → render_objects yaml first before os ≡ ok text
    → Rendered yaml first before os text
unfolding render_objects result_text
render_objects-Rendered yaml first before text [] h =
    ([], nothing, sym (append-nil before ∙ ap result_text h))
render_objects-Rendered yaml first before text (o ∷ os) h =
    let (y, e, k) =
      render_next-ok yaml (λ next. render_objects yaml false next os) first before text
        (yaml.marshal_object o) h in
    let (ys, m, t) = render_objects-Rendered yaml false _ text os k in
    (y ∷ ys, next e m, t ∙ joined-next first before y ys)

module _ {W : Type 0} (c : Client W) (s : Server W) (yaml : Yaml) (sha256 : String → List ℕ)
    (d : Defaults) where
  page_source : Reply Page → String
  page_source (json n p) = p.source
  page_source (problem n m) = ""

  page_text : Reply Page → String
  page_text (json n p) = p.rendered
  page_text (problem n m) = ""

  with_rendered-json :
      (source : String) (r : Result String) (page : Page)
      → with_rendered c s yaml sha256 d source r ≡ json 200 page
      → (source ≡ page.source) × (r ≡ ok page.rendered)
  unfolding page_source page_text
  with_rendered-json source (ok text) page h = (ap page_source h, ap (λ r. ok (page_text r)) h)
  with_rendered-json source (err e) page h = cc

  with_source-json :
      (site : WordPressSite) (r : Result String) (page : Page)
      → with_source c s yaml sha256 d site r ≡ json 200 page
      → (r ≡ ok page.source) × (render_manifests c s yaml sha256 d site ≡ ok page.rendered)
  with_source-json site (ok source) page h =
      let (a, b) = with_rendered-json source _ page h in (ap (λ t. ok t) a, b)
  with_source-json site (err e) page h = cc

  -- What a page shows: the document of the site, and its Deployment, Service and Ingress, one behind
  -- the other.
  pub record Shows (site : WordPressSite) (page : Page) : Type 0 where
    pub source : cr_yaml yaml site ≡ ok page.source
    pub texts : List String
    pub marshalled : Marshal yaml (manifests sha256 d site s.db_host s.db_port) texts
    pub rendered : page.rendered ≡ joined true texts

  page_of-Shows :
      (site : WordPressSite) (page : Page)
      → page_of c s yaml sha256 d site ≡ json 200 page
      → Shows site page
  unfolding page_of render_manifests cr_yaml
  page_of-Shows site page h =
      let (a, b) = with_source-json site _ page h in
      let (ys, m, t) = render_objects-Rendered yaml true "" page.rendered _ b in
      record { source = a; texts = ys; marshalled = m; rendered = t ∙ nil-append (joined true ys) }

  after_read-Shows :
      (r : Result WordPressSite) (page : Page) (w w' : W)
      → after_read c s yaml sha256 d r w ≡ (json 200 page, w')
      → (site : WordPressSite) × (r ≡ ok site) × Shows site page × (w ≡ w')
  after_read-Shows (ok site) page w w' h =
      (site, refl, page_of-Shows site page (ap (λ p. p.0) h), ap (λ p. p.1) h)
  after_read-Shows (err e) page w w' h =
      absurd (not_found_or_500-ne_json e 200 page (ap (λ p. p.0) h))

  -- An answer of getSiteYAML shows the document of the site that was read, and one behind the other the
  -- Deployment, the Service and the Ingress that the builders make of it with the defaults of the
  -- server.
  pub get_site_yaml-Shows :
      (name : String) (page : Page) (w w' : W)
      → get_site_yaml c s yaml sha256 d name w ≡ (json 200 page, w')
      → (site : WordPressSite) × (fetch c s name w ≡ (ok site, w')) × Shows site page
  unfolding get_site_yaml
  get_site_yaml-Shows name page w w' h =
      let (site, e, shows, same) = after_read-Shows _ page _ w' h in
      (site, λ i. (e i, same i), shows)

  -- The preview of a form is what getSiteYAML shows, in one text, of the site that is made of the form.
  pub preview_yaml-get_site_yaml :
      (name : String) (dto : SiteDto) (page : Page) (w w' : W)
      → fetch c s name w ≡ (ok (to_site s.namespace dto), w')
      → get_site_yaml c s yaml sha256 d name w ≡ (json 200 page, w')
      → preview_yaml c s yaml sha256 d (ok dto) w
        ≡ (json 200 ((page.source ++ separator) ++ page.rendered), w)
  unfolding get_site_yaml preview_yaml
  preview_yaml-get_site_yaml name dto page w w' fetched h =
      let shown : page_of c s yaml sha256 d (to_site s.namespace dto) ≡ json 200 page =
        (let k = rw fetched at h in ap (λ p. p.0) k) in
      rw shown refl
