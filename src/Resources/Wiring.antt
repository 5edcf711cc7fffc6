-- ===== src/Resources/Wiring.antt =====
-- The objects of one site refer to one another by the names that they have.
use wordpress_manager_operat.Prelude.{
  ℕ, String, ◌≡◌, refl, ◌≢◌, Option, none, some, List, [], ◌∷◌, map, All, All-append, Bool-cases,
  inl, inr, if◌then◌else◌, ◌==◌,
}
use wordpress_manager_operat.Text.{is_empty}
use wordpress_manager_operat.Maps.{lookup}
use wordpress_manager_operat.Api.{WordPressSite, EnvVar, EnvSource, literal, secret_key}
use wordpress_manager_operat.Resources.Names.{Defaults, secret_name, labels, hosts}
use wordpress_manager_operat.Resources.Objects.{
  VolumeMount, Volume, VolumeSource, claim, config_map, IngressRule,
}
use wordpress_manager_operat.Resources.Objects as Objects
use wordpress_manager_operat.Resources.Secret.{salt_keys, password_key, Random, desired_secret}
use wordpress_manager_operat.Resources.Secret.Kept.{IsRandom, IsSetAt, desired_secret_complete}
use wordpress_manager_operat.Resources.PhpConfig.{desired_php_config_map}
use wordpress_manager_operat.Resources.Deployment.{
  secret_env, fixed_env, config_extra_env, generated_env, force_https_enabled, desired_deployment,
  desired_service,
}
use wordpress_manager_operat.Resources.Ingress.{desired_ingress, rule_for}

-- The value is a literal, or a reference to this Secret at a key that it sets.
abbrev pub RefersTo : Objects.Secret → EnvSource → Type 0
RefersTo s (literal v) = Unit
RefersTo s (secret_key name key) = (name ≡ s.meta.name) × IsSetAt s.entries key
RefersTo s _ = ⊥

salts_refer :
    (s : Objects.Secret) (name : String) (ks : List String)
    → name ≡ s.meta.name
    → All (IsSetAt s.entries) ks
    → All (λ (e : EnvVar). RefersTo s e.source) (map (λ k. secret_env k name k) ks)
unfolding secret_env
salts_refer s name [] e h = tt
salts_refer s name (k ∷ ks) e (p, h) = ((e, p), salts_refer s name ks e h)

config_extra_env_refers :
    (s : Objects.Secret) (site : WordPressSite)
    → All (λ (e : EnvVar). RefersTo s e.source) (config_extra_env site)
unfolding config_extra_env
config_extra_env_refers s site = elim (Bool-cases (is_empty site.spec.php_config)) [
  | inl none_given ↦ rw none_given tt
  | inr given ↦ rw given (tt, tt)
]

fixed_env_refers :
    (s : Objects.Secret) (site : WordPressSite) (host port : String)
    → secret_name site ≡ s.meta.name
    → All (IsSetAt s.entries) (password_key ∷ salt_keys)
    → All (λ (e : EnvVar). RefersTo s e.source) (fixed_env site host port)
unfolding fixed_env secret_env
fixed_env_refers s site host port e (p, h) =
    (tt, (tt, (tt, (tt, ((e, p), salts_refer s (secret_name site) salt_keys e h)))))

-- With a random source that gives bytes, as many as it is asked for, every generated variable of
-- the container that is read from a Secret is read from the site's, at a key that is set there,
-- whatever Secret existed before.
pub generated_env-set :
    {W : Type 0} (random : Random W)
    → IsRandom random
    → (site : WordPressSite) (existing : Option Objects.Secret) (w : W) (host port : String)
    → All
        (λ (e : EnvVar). RefersTo (desired_secret random site existing w).0 e.source)
        (generated_env site host port)
unfolding generated_env
generated_env-set random r site existing w host port =
    let secret = (desired_secret random site existing w).0 in
    All-append (λ (e : EnvVar). RefersTo secret e.source) (fixed_env site host port)
      (config_extra_env site)
      (fixed_env_refers secret site host port (unfold desired_secret in refl)
        (desired_secret_complete random r site existing w))
      (config_extra_env_refers secret site)

abbrev pub find_volume : String → List Volume → Option Volume
find_volume name [] = none
find_volume name (v ∷ vs) = if v.name == name then some v else find_volume name vs

-- A mount of a ConfigMap mounts a key of this one.
abbrev pub SourceFits : Objects.ConfigMap → String → VolumeSource → Type 0
SourceFits cm sub_path (claim name) = Unit
SourceFits cm sub_path (config_map name) =
    (name ≡ cm.meta.name) × (lookup sub_path cm.entries ≢ none)

abbrev pub VolumeFits : Objects.ConfigMap → String → Option Volume → Type 0
VolumeFits cm sub_path none = ⊥
VolumeFits cm sub_path (some v) = SourceFits cm sub_path v.source

some-ne-none : (v : String) → some v ≢ none
some-ne-none v e = cc

-- Every volume mount of the container is of a volume of the pod, and one of the php volume is of a
-- key that the site's ConfigMap has.
pub volume_mounts_fit :
    (sha256 : String → List ℕ) (d : Defaults) (site : WordPressSite) (host port : String)
    → let dep = desired_deployment sha256 d site host port in
      All
        (λ (m : VolumeMount).
          VolumeFits (desired_php_config_map site) m.sub_path (find_volume m.name dep.volumes))
        dep.container.volume_mounts
unfolding desired_deployment desired_php_config_map lookup
volume_mounts_fit sha256 d site host port = elim (Bool-cases (force_https_enabled site)) [
  | inl on ↦ rw on (tt, ((refl, some-ne-none _), ((refl, some-ne-none _), tt)))
  | inr off ↦ rw off (tt, ((refl, some-ne-none _), tt))
]

-- The references by which traffic for a host comes to the pods.
pub record Reaches (ing : Objects.Ingress) (svc : Objects.Service) (dep : Objects.Deployment)
    : Type 0 where
  pub rules : All (λ (r : IngressRule). (r.service ≡ svc.meta.name) × (r.port ≡ svc.port)) ing.rules
  pub service_selects : All (λ e. lookup e.0 dep.pod_labels ≡ some e.1) svc.selector
  pub deployment_selects : All (λ e. lookup e.0 dep.pod_labels ≡ some e.1) dep.selector
  pub port : svc.target_port ≡ dep.container.port
  pub ingress_namespace : ing.meta.namespace ≡ svc.meta.namespace
  pub service_namespace : svc.meta.namespace ≡ dep.meta.namespace

rules_reach :
    (site : WordPressSite) (hs : List String)
    → All
        (λ (r : IngressRule). (r.service ≡ site.meta.name) × (r.port ≡ 80))
        (map (rule_for site) hs)
rules_reach site [] = tt
rules_reach site (h ∷ hs) = ((refl, refl), rules_reach site hs)

-- Traffic that the Ingress of a site takes for a host reaches its pods: every rule names the
-- Service and its port, the Service selects labels that the pods have and sends to the container's
-- port, the Deployment selects labels of its pods, and the three stand in one namespace.
pub desired-Reaches :
    (sha256 : String → List ℕ) (d : Defaults) (site : WordPressSite) (host port : String)
    → Reaches
        (desired_ingress d site)
        (desired_service site)
        (desired_deployment sha256 d site host port)
unfolding desired_ingress desired_service desired_deployment lookup labels
desired-Reaches sha256 d site host port = record {
  rules = rules_reach site (hosts site);
  service_selects = (refl, tt);
  deployment_selects = (refl, tt);
  port = refl;
  ingress_namespace = refl;
  service_namespace = refl;
}
