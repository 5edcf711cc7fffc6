-- ===== src/Apiserver/Documents/Edited.antt =====
-- The document of a site, edited and saved.
use wordpress_manager_operat.Prelude.{
  String, ◌≡◌, refl, false, not, ◌&&◌, ◌==◌, eq_refl, Bool-cases, inl, inr, [], ◌∷◌, ok,
}
use wordpress_manager_operat.Text.{is_empty}
use wordpress_manager_operat.Maps.{Map}
use wordpress_manager_operat.Api.{WordPressSite}
use wordpress_manager_operat.Apiserver.Interface.{Client}
use wordpress_manager_operat.Apiserver.Sites.{
  ParsedSite, Server, replace_site, with_annotations, fetch, edit_site, update_site_yaml,
  after_update,
}
use wordpress_manager_operat.Apiserver.Documents.{Document, Yaml, if_any, site_document, cr_yaml}

-- What Unmarshal reads of a document.
abbrev pub parsed_of : Document → ParsedSite
parsed_of d = record { name = d.name; annotations = d.annotations; spec = d.spec }

-- What is kept of the annotations of the site: all, if the document has none.
abbrev pub kept : Map String → Map String → Map String
kept [] old = old
kept (e ∷ m) old = e ∷ m

-- The site with the specification of the edited site, and with its annotations if it has any; all else
-- is as the cluster has it.
abbrev pub edited : WordPressSite → WordPressSite → WordPressSite
edited site t = record site {
  meta = record (site.meta) { annotations = kept t.meta.annotations site.meta.annotations };
  spec = t.spec;
}

if_any-kept :
    (m : Map String) (site : WordPressSite)
    → with_annotations (if_any m) site
      ≡ record site { meta = record (site.meta) { annotations = kept m site.meta.annotations } }
if_any-kept [] site = refl
if_any-kept (e ∷ m) site = refl

-- The document of the edited site, put in the place of the site.
replace_site-site_document :
    (site t : WordPressSite) → replace_site (parsed_of (site_document t)) site ≡ edited site t
unfolding replace_site site_document
replace_site-site_document site t = if_any-kept t.meta.annotations (record site { spec = t.spec })

own_name : (n : String) → (not (is_empty n) && not (n == n)) ≡ false
own_name n =
    rw (eq_refl n) (elim (Bool-cases (is_empty n)) [ inl e ↦ rw e refl | inr e ↦ rw e refl ])

-- Where the saved text is the document of an edited site `t`, which the YAML library reads back, with a
-- domain, and the cluster has a site of the same name, saving the text writes that site with the
-- specification of `t`, and with the annotations of `t` if it has any, and nothing else of it changed.
pub update_site_yaml-cr_yaml :
    {W : Type 0} (c : Client W) (s : Server W) (yaml : Yaml) (text : String)
    (site t : WordPressSite) (w w' : W)
    → cr_yaml yaml t ≡ ok text
    → ((y : String)
        → yaml.marshal_document (site_document t) ≡ ok y
        → yaml.unmarshal y ≡ ok (parsed_of (site_document t)))
    → t.meta.name ≡ site.meta.name
    → fetch c s site.meta.name w ≡ (ok site, w')
    → is_empty t.spec.domain ≡ false
    → update_site_yaml c s site.meta.name (ok (yaml.unmarshal text)) w
      ≡ after_update c s (c.update_site (edited site t) w').0 (c.update_site (edited site t) w').1
unfolding update_site_yaml edit_site cr_yaml site_document replace_site
update_site_yaml-cr_yaml c s yaml text site t w w' marshalled reads named fetched domain =
    rw
      (
        reads text marshalled,
        named,
        own_name site.meta.name,
        domain,
        fetched,
        replace_site-site_document site t,
      )
      refl
