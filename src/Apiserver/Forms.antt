-- ===== src/Apiserver/Forms.antt =====
-- What the structured form of the UI loses and keeps of a site.
use wordpress_manager_operat.Prelude.{
  ℕ, String, ◌≡◌, refl, true, false, ltb, nat_eq, Option, none, some, value_or, inl, inr,
  Bool-cases, if◌then◌else◌, ap,
}
use wordpress_manager_operat.Api.{WordPressSite}
use wordpress_manager_operat.Resources.Deployment.{force_https_enabled}
use wordpress_manager_operat.Apiserver.Sites.{
  SiteDto, to_dto, to_site, patch_spec, patch_site, latest_condition_message,
}

-- A form as a new site shows it: no replicas are one, HTTPS is forced unless it is turned off, and
-- the fields that are only read are empty.
abbrev pub normal : SiteDto → SiteDto
normal d = record d {
  replicas = if nat_eq d.replicas 0 then 1 else d.replicas;
  force_https = some (value_or d.force_https true);
  suspended = false;
  phase = "";
  message = "";
  url = "";
  database_name = "";
  database_user = "";
}

-- The site that is made of a form shows the form again, up to `normal`: its default values are
-- filled in, and the fields that are only read are empty.
pub to_dto-to_site : (namespace : String) (d : SiteDto) → to_dto (to_site namespace d) ≡ normal d
unfolding to_dto to_site latest_condition_message force_https_enabled
to_dto-to_site namespace d = refl

patch_replicas :
    (o : Option ℕ) → (if ltb 0 (value_or o 1) then some (value_or o 1) else o) ≡ some (value_or o 1)
patch_replicas none = refl
patch_replicas (some n) = elim (Bool-cases (ltb 0 n)) [ inl e ↦ rw e | inr e ↦ rw e ]

-- Saving the form of a site with no change keeps the site, the fields that the form does not show
-- included, but for three: the numbers of replicas and the HTTPS setting are written out where they
-- were left to their defaults, and the name of the TLS Secret is lost.
pub patch_site-to_dto :
    (site : WordPressSite)
    → patch_site (to_dto site) site ≡ record site {
      spec = record (site.spec) {
        replicas = some (value_or site.spec.replicas 1);
        force_https = some (force_https_enabled site);
        tls = record (site.spec.tls) { secret_name = "" };
      };
    }
unfolding patch_site patch_spec to_dto
patch_site-to_dto site =
    ap
      (λ n. record site {
        spec = record (site.spec) {
          replicas = n;
          force_https = some (force_https_enabled site);
          tls = record (site.spec.tls) { secret_name = "" };
        };
      })
      (patch_replicas site.spec.replicas)
