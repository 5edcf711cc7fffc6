-- ===== src/Apiserver/Interface.antt =====
-- What the API server takes from outside: the Kubernetes client, and what a handler answers.
use wordpress_manager_operat.Prelude.{
  ℕ, String, List, Exec, ◌≢◌, Error, not_found, already_exists, failure, code_invalid, is_not_found,
  message, if◌then◌else◌,
}
use wordpress_manager_operat.Api.{WordPressSite}
use wordpress_manager_operat.Resources.Objects.{Secret}
use wordpress_manager_operat.Controller.Interface.{ObjectKey}

-- The calls of the client that the handlers make. A call that writes returns the object as the
-- server has it.
pub record Client (W : Type 0) : Type 0 where
  pub get_site : ObjectKey → Exec W WordPressSite
  pub list_sites : String → Exec W (List WordPressSite)
  pub create_site : WordPressSite → Exec W WordPressSite
  pub update_site : WordPressSite → Exec W WordPressSite
  pub delete_site : WordPressSite → Exec W (Unit {0})
  pub get_secret : ObjectKey → Exec W Secret
  pub create_secret : Secret → Exec W Secret
  pub update_secret : Secret → Exec W Secret

-- writeJSON with a status and a value, and writeError with a status and a text.
pub data Reply (A : Type 0) : Type 0 where
  json : ℕ → A → Reply A
  problem : ℕ → String → Reply A

abbrev pub Handler : Type 0 → Type 0 → Type 0
Handler W A = W → Reply A × W

module _ {A : Type 0} where
  unfoldable pub not_found_or_500 : Error → Reply A
  not_found_or_500 e =
      if is_not_found e then problem 404 "site not found" else problem 500 (message e)

  pub not_found_or_500-ne_json : (e : Error) (n : ℕ) (x : A) → not_found_or_500 e ≢ json n x
  unfolding not_found_or_500
  not_found_or_500-ne_json (not_found m) n x h = cc
  not_found_or_500-ne_json (already_exists m) n x h = cc
  not_found_or_500-ne_json (failure m) n x h = cc
  not_found_or_500-ne_json code_invalid n x h = cc
