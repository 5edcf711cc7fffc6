-- ===== src/Apiserver/Routes.antt =====
-- Router of internal/apiserver/server.go: which handler answers which request, and behind what. A
-- request is the route that chi finds, with its parameter, its decoded body and its Authorization
-- header; the middlewares for logging, time-outs and CORS are left out.
pub mod Guard
pub mod Reading
pub mod Writing
pub mod Calls
use wordpress_manager_operat.Prelude.{ℕ, String, Bool, true, false, Option, List, Result}
use wordpress_manager_operat.Resources.Names.{Defaults}
use wordpress_manager_operat.Metrics.{Provider}
use wordpress_manager_operat.Apiserver.Interface.{Client, Reply, json, problem, Handler}
use wordpress_manager_operat.Apiserver.Login.{
  Crypto, Authenticator, TwoFactor, LoginBody, login, middleware,
}
use wordpress_manager_operat.Apiserver.Sites.{
  SiteDto, ParsedSite, Server, list_sites, create_site, get_site, update_site, delete_site,
  update_site_yaml, set_suspend,
}
use wordpress_manager_operat.Apiserver.Documents.{Yaml, Page, preview_yaml, get_site_yaml}
use wordpress_manager_operat.Apiserver.Status.{
  SiteStatusDto, EventDto, Format, Diagnostics, get_site_status,
}
use wordpress_manager_operat.Apiserver.Admin.{
  Usage, me, get_metrics, two_fa_status, two_fa_setup, two_fa_enable, two_fa_disable,
}

-- The routes of the group that needs a token.
pub data Guarded : Type 0 where
  get_sites : Guarded
  post_sites : Result SiteDto → Guarded
  post_preview : Result SiteDto → Guarded
  get_one : String → Guarded
  put_one : String → Result SiteDto → Guarded
  delete_one : String → Guarded
  get_yaml : String → Guarded
  put_yaml : String → Result (Result ParsedSite) → Guarded
  get_status : String → Guarded
  post_suspend : String → Guarded
  post_resume : String → Guarded
  get_usage : Guarded
  get_me : Guarded
  get_two_fa : Guarded
  post_two_fa_setup : Guarded
  post_two_fa_enable : Option String → Guarded
  post_two_fa_disable : Option String → Guarded

pub data Route : Type 0 where
  get_healthz : Route
  post_login : Option LoginBody → Route
  guarded : Guarded → Route

-- What stands in a body of an answer.
pub data Payload : Type 0 where
  text : String → Payload
  token : String → Payload
  site : SiteDto → Payload
  sites : List SiteDto → Payload
  page : Page → Payload
  status : SiteStatusDto → Payload
  usage : Usage → Payload
  username : String → Payload
  enabled : Bool → Payload
  enrolment : String × (String × String) → Payload
  nothing : Payload

-- The fields of Server, with the libraries that the handlers call.
pub record App (W : Type 0) : Type 0 where
  pub client : Client W
  pub server : Server W
  pub auth : Authenticator
  pub metrics : Option (Provider W)
  pub two_fa : Option (TwoFactor W)
  pub crypto : Crypto
  pub now : W → ℕ
  pub yaml : Yaml
  pub sha256 : String → List ℕ
  pub defaults : Defaults
  pub diagnostics : Diagnostics W
  pub format : Format
  pub sort : (EventDto → EventDto → Bool) → List EventDto → List EventDto

abbrev pub map_reply : {A : Type 0} → (A → Payload) → Reply A → Reply Payload
map_reply f (json n x) = json n (f x)
map_reply f (problem n m) = problem n m

abbrev pub answer : {W A : Type 0} → (A → Payload) → Handler W A → Handler W Payload
answer f h w = (map_reply f (h w).0, (h w).1)

module _ {W : Type 0} (a : App W) where
  unfoldable pub handle : Guarded → String → Handler W Payload
  handle get_sites user w = answer sites (list_sites a.client a.server) w
  handle (post_sites body) user w = answer site (create_site a.client a.server body) w
  handle (post_preview body) user w =
      answer text (preview_yaml a.client a.server a.yaml a.sha256 a.defaults body) w
  handle (get_one name) user w = answer site (get_site a.client a.server name) w
  handle (put_one name body) user w = answer site (update_site a.client a.server name body) w
  handle (delete_one name) user w = answer (λ _. nothing) (delete_site a.client a.server name) w
  handle (get_yaml name) user w =
      answer page (get_site_yaml a.client a.server a.yaml a.sha256 a.defaults name) w
  handle (put_yaml name body) user w = answer site (update_site_yaml a.client a.server name body) w
  handle (get_status name) user w =
      answer status (get_site_status a.client a.server a.diagnostics a.format a.sort name) w
  handle (post_suspend name) user w = answer site (set_suspend a.client a.server true name) w
  handle (post_resume name) user w = answer site (set_suspend a.client a.server false name) w
  handle get_usage user w = answer usage (get_metrics a.metrics) w
  handle get_me user w = answer username (me user) w
  handle get_two_fa user w = answer enabled (two_fa_status a.two_fa) w
  handle post_two_fa_setup user w = answer enrolment (two_fa_setup a.two_fa) w
  handle (post_two_fa_enable body) user w = answer enabled (two_fa_enable a.two_fa body) w
  handle (post_two_fa_disable body) user w = answer enabled (two_fa_disable a.two_fa body) w

  unfoldable pub serve : String → Route → Handler W Payload
  unfolding handle login middleware
  serve header get_healthz w = (json 200 (text "ok"), w)
  serve header (post_login body) w = answer token (login a.crypto a.auth a.now a.two_fa body) w
  serve header (guarded g) w = middleware a.crypto a.auth a.now (handle g) header w
