-- ===== src/Resources/Ingress.antt =====
-- internal/resources/ingress.go: the Ingress that binds a site's hosts to its Service.
pub mod Annotations
use wordpress_manager_operat.Prelude.{String, ◌&&◌, not, List, [], ◌∷◌, map, if◌then◌else◌}
use wordpress_manager_operat.Text.{is_empty}
use wordpress_manager_operat.Maps.{Map, insert, copy}
use wordpress_manager_operat.Api.{WordPressSite}
use wordpress_manager_operat.Resources.Names.{Defaults, hosts, labels, tls_secret_name}
use wordpress_manager_operat.Resources.Objects.{IngressRule, IngressTls, new_meta}
use wordpress_manager_operat.Resources.Objects as Objects
use wordpress_manager_operat.Resources.Deployment.{or_default}

abbrev pub body_size_key : String
body_size_key = "nginx.ingress.kubernetes.io/proxy-body-size"

abbrev pub issuer_key : String
issuer_key = "cert-manager.io/cluster-issuer"

unfoldable pub ingress_annotations : WordPressSite → Map String
ingress_annotations site =
    let base = (body_size_key, "256m") ∷ [] in
    let issued =
      if site.spec.tls.enabled && not (is_empty site.spec.tls.issuer)
      then insert issuer_key site.spec.tls.issuer base
      else base in
    copy issued site.spec.ingress_annotations

abbrev pub rule_for : WordPressSite → String → IngressRule
rule_for site host = record { host = host; service = site.meta.name; port = 80 }

unfoldable pub ingress_tls : WordPressSite → List IngressTls
ingress_tls site =
    if site.spec.tls.enabled
    then record { hosts = hosts site; secret_name = tls_secret_name site } ∷ []
    else []

unfoldable pub desired_ingress : Defaults → WordPressSite → Objects.Ingress
unfolding ingress_tls
desired_ingress d site = record {
  meta = new_meta site.meta.name site.meta.namespace (labels site) (ingress_annotations site);
  class_name = or_default site.spec.ingress_class_name d.ingress_class;
  rules = map (rule_for site) (hosts site);
  tls = ingress_tls site;
}
