-- ===== src/Resources.antt =====
-- internal/resources: the Kubernetes objects that back a site.
pub mod Names
pub mod Objects
pub mod Secret
pub mod PhpConfig
pub mod Deployment
pub mod Ingress
pub mod Wiring
