-- ===== src/Api/Access.antt =====
-- What a request without a valid token gets from the API.
use taskflow.Common.{
  String, ◌≡◌, refl, ◌⊎◌, inl, inr, Bool-cases, Bool, true, false, Option, none, some, [], ◌∷◌,
}
use taskflow.Store.Service.{Service}
use taskflow.Api.Text.{trim_space, is_empty, after_prefix}
use taskflow.Api.Http.{Request, Response}
use taskflow.Api.Auth.{bearer, hs256, signing_key, bearer_token, verified, jwt_auth}
use taskflow.Api.Router.{
  Server, Root, Found, matched, v1, no_route, no_method, healthz, metrics, root_routes, Instant,
  Running, behind_auth, behind_limiter, v1_handler, dispatch, serve,
}

-- No token stands behind "Bearer ", or one that golang-jwt does not accept.
abbrev pub HasNoToken : Server → Instant → Request → Type 0
HasNoToken srv t r =
    (text : String)
    → after_prefix bearer r.authorization ≡ some text
    → srv.jwt.parse (hs256 ∷ []) (signing_key srv.jwt_secret) t.wall (trim_space text) ≡ false

abbrev Refuses : Option Response → Type 0
Refuses none = ⊥
Refuses (some r) = r.code ≡ 401

module _ (srv : Server) (t : Instant) where
  verified-Refuses :
      (text : Option String)
      → ((x : String)
          → text ≡ some x
          → srv.jwt.parse (hs256 ∷ []) (signing_key srv.jwt_secret) t.wall (trim_space x) ≡ false)
      → Refuses (verified srv.jwt srv.jwt_secret t.wall (bearer_token text))
  verified-Refuses none h = refl
  verified-Refuses (some x) h = elim (Bool-cases (is_empty (trim_space x))) [
    | inl e ↦ rw e refl
    | inr e ↦ rw e (rw (h x refl) refl)
  ]

  jwt_auth-Refuses :
      (r : Request) → HasNoToken srv t r → Refuses (jwt_auth srv.jwt srv.jwt_secret t.wall r)
  unfolding jwt_auth
  jwt_auth-Refuses r h = verified-Refuses (after_prefix bearer r.authorization) h

module _ {W : Type 0} (s : Service W) (srv : Server) (t : Instant) (r : Request) where
  -- The response is a refusal, and the store was not reached.
  abbrev TurnedAway : W → Response × W → Type 0
  TurnedAway w (response, w') = ((response.code ≡ 401) ⊎ (response.code ≡ 429)) × (w' ≡ w)

  behind_auth-TurnedAway :
      (refusal : Option Response) (w : W)
      → Refuses refusal
      → TurnedAway w (behind_auth s srv refusal r w)
  behind_auth-TurnedAway none w h = absurd h
  behind_auth-TurnedAway (some refusal) w h = (inl h, refl)

  behind_limiter-TurnedAway :
      (passes : Bool) (w : W)
      → HasNoToken srv t r
      → TurnedAway w (behind_limiter s srv passes t r w)
  behind_limiter-TurnedAway true w h = behind_auth-TurnedAway _ w (jwt_auth-Refuses srv t r h)
  behind_limiter-TurnedAway false w h = (inr refl, refl)

  dispatch-world :
      (found : Found Root) (st : Running W)
      → HasNoToken srv t r
      → (dispatch s srv found t r st).1.world ≡ st.world
  unfolding v1_handler
  dispatch-world no_route st h = refl
  dispatch-world no_method st h = refl
  dispatch-world (matched healthz id) st h = refl
  dispatch-world (matched metrics id) st h = refl
  dispatch-world (matched v1 id) st h = (behind_limiter-TurnedAway _ st.world h).1

  -- Whatever the store is, a request that carries no token which golang-jwt accepts neither reads
  -- nor changes it, whatever its route.
  pub serve-unauthorised :
      (st : Running W) → HasNoToken srv t r → (serve s srv t r st).1.world ≡ st.world
  unfolding serve
  serve-unauthorised st h = dispatch-world _ st h

  -- Under /v1 such a request is answered 401 or 429.
  pub serve-refuses :
      (st : Running W) (id : String)
      → HasNoToken srv t r
      → srv.chi.find_root root_routes r.method r.path ≡ matched v1 id
      → let code = (serve s srv t r st).0.code in (code ≡ 401) ⊎ (code ≡ 429)
  unfolding serve v1_handler
  serve-refuses st id h e = rw e ((behind_limiter-TurnedAway _ st.world h).0)
