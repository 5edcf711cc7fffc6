-- ===== src/Apiserver/Routes/Guard.antt =====
-- Which requests get past the router.
use Prim.Native.String.{◌++◌}
use wordpress_manager_operat.Prelude.{String, ◌≡◌, ap, ◌+◌, ◌<◌, ◌⊎◌, some}
use wordpress_manager_operat.Apiserver.Interface.{Reply, json, problem}
use wordpress_manager_operat.Apiserver.Login.{LoginBody}
use wordpress_manager_operat.Apiserver.Factors.{
  IsSound, login-middleware, Authorised, middleware-Authorised,
}
use wordpress_manager_operat.Apiserver.Routes.{
  Guarded, post_login, guarded, Payload, token, App, map_reply, handle, serve,
}

token_of : Payload → String
token_of (token t) = t
token_of _ = ""

token_reply : Reply Payload → Reply String
token_reply (json n p) = json n (token_of p)
token_reply (problem n m) = problem n m

map_reply-token :
    (r : Reply String) (t : String) → map_reply token r ≡ json 200 (token t) → r ≡ json 200 t
unfolding token_reply token_of
map_reply-token (json n x) t h = ap token_reply h
map_reply-token (problem n m) t h = cc

module _ {W : Type 0} (a : App W) where
  -- A request for a guarded route is answered by its handler, as the subject of a token in its header
  -- that the JWT library accepts at the time with the secret of the server, or with 401 and with nothing
  -- done.
  pub serve-Authorised :
      (g : Guarded) (header : String) (w : W)
      → ((user : String) × Authorised a.crypto a.auth a.now header w user
          × (serve a header (guarded g) w ≡ handle a g user w))
        ⊎ ((m : String) × (serve a header (guarded g) w ≡ (problem 401 m, w)))
  unfolding serve
  serve-Authorised g header w = middleware-Authorised a.crypto a.auth a.now (handle a g) header w

  -- With a JWT library that reads back what it signed, the token of a login opens every guarded
  -- route, as the user of the login, until its time is over.
  pub serve-login :
      (sound : IsSound a.crypto) (body : LoginBody) (t header : String) (g : Guarded)
      (w issued later : W)
      → serve a header (post_login (some body)) w ≡ (json 200 (token t), issued)
      → a.now later < a.now issued + a.auth.ttl
      → serve a ("Bearer " ++ t) (guarded g) later ≡ handle a g body.username later
  unfolding serve
  serve-login sound body t header g w issued later h fresh =
      login-middleware a.crypto a.auth a.now sound a.two_fa body t (handle a g) w issued later
        (λ i. (map_reply-token _ t (ap (λ p. p.0) h) i, ap (λ p. p.1) h i)) fresh
