-- ===== src/Resources/Ingress/Annotations.antt =====
-- The annotations of the Ingress: those of the spec win.
use wordpress_manager_operat.Prelude.{
  String, ◌≡◌, not, ◌&&◌, Option, none, some, ◌==◌, Bool-cases, inl, inr, if◌then◌else◌,
}
use wordpress_manager_operat.Text.{is_empty}
use wordpress_manager_operat.Maps.{lookup, lookup-insert, lookup-copy, or_else}
use wordpress_manager_operat.Api.{WordPressSite}
use wordpress_manager_operat.Resources.Ingress.{ingress_annotations, body_size_key, issuer_key}

-- What the operator sets at a key.
abbrev pub default_annotation : WordPressSite → String → Option String
default_annotation site k =
    if (site.spec.tls.enabled && not (is_empty site.spec.tls.issuer)) && (issuer_key == k)
    then some site.spec.tls.issuer
    else if body_size_key == k
    then some "256m"
    else none

-- An annotation of the spec stands in the Ingress as it is; at any other key stands what the operator
-- sets: the issuer, only if TLS is enabled and one is given, and the size of uploads.
pub lookup-ingress_annotations :
    (site : WordPressSite) (k : String)
    → lookup k (ingress_annotations site)
      ≡ or_else (lookup k site.spec.ingress_annotations) (default_annotation site k)
unfolding ingress_annotations lookup
lookup-ingress_annotations site k =
    elim (Bool-cases (site.spec.tls.enabled && not (is_empty site.spec.tls.issuer))) [
      | inl on ↦ rw (lookup-copy, on, lookup-insert)
      | inr off ↦ rw (lookup-copy, off)
    ]
