-- ===== src/Api/Auth.antt =====
-- internal/api/auth.go: the check of the bearer token, and MintToken.
--
-- golang-jwt is a parameter: `parse` is jwt.Parse, with the valid methods, the key function and
-- the clock it reads, and says whether it returns a valid token; `signed` is NewWithClaims and
-- SignedString, with the method, the claims and the key.
pub mod Minting
use taskflow.Common.{
  ℤ, ◌+ℤ◌, String, Bool, true, false, if◌then◌else◌, List, [], ◌∷◌, Option, none, some,
}
use taskflow.Api.Text.{trim_space, is_empty, after_prefix}
use taskflow.Api.Http.{Request, Response, write_error}

-- jwt.RegisteredClaims, as far as MintToken sets it: the times it passes to NewNumericDate, in
-- nanoseconds.
pub record Claims : Type 0 where
  pub subject : String
  pub issued_at : ℤ
  pub expires_at : ℤ

pub record Jwt : Type 0 where
  -- The key function is told whether the token's method is an HMAC.
  pub parse : (valid_methods : List String) (key : Bool → Option String) (now : ℤ) → String → Bool
  pub signed : (method : String) → Claims → (key : String) → Option String

abbrev pub bearer : String
bearer = "Bearer "

abbrev pub hs256 : String
hs256 = "HS256"

-- `none`: "unexpected signing method".
abbrev pub signing_key : String → Bool → Option String
signing_key secret true = some secret
signing_key secret false = none

abbrev pub bearer_token : Option String → Option String
bearer_token none = none
bearer_token (some rest) = if is_empty (trim_space rest) then none else some (trim_space rest)

abbrev pub verified : Jwt → (secret : String) (now : ℤ) → Option String → Option Response
verified j secret now none = some (write_error 401 "missing or malformed authorization header")
verified j secret now (some text) =
    if j.parse (hs256 ∷ []) (signing_key secret) now text
    then none
    else some (write_error 401 "invalid or expired token")

-- The response that jwtAuth writes, or `none` if it calls the next handler.
unfoldable pub jwt_auth : Jwt → (secret : String) (now : ℤ) → Request → Option Response
unfolding after_prefix trim_space
jwt_auth j secret now r = verified j secret now (bearer_token (after_prefix bearer r.authorization))

unfoldable pub mint_token : Jwt → (secret subject : String) (ttl now : ℤ) → Option String
unfolding ◌+ℤ◌
mint_token j secret subject ttl now =
    j.signed hs256 (record { subject = subject; issued_at = now; expires_at = now +ℤ ttl }) secret
