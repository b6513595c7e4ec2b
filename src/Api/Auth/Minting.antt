-- ===== src/Api/Auth/Minting.antt =====
-- Whether jwtAuth takes the tokens that MintToken makes.
use Prim.Native.Char.{code}
use Prim.Native.String.{◌++◌}
use Prim.Native.String.append
use taskflow.Common.{
  ℤ, ◌+ℤ◌, ◌≤ℤ◌, pos, String, ◌≡◌, refl, ap, ◌∙◌, Bool, true, false, [], ◌∷◌, Option, none, some,
  arith,
}
use taskflow.Api.Text.{is_space, trim_left, trim_right, trim_space, is_empty, after_prefix}
use taskflow.Api.Http.{Request}
use taskflow.Api.Auth.{Claims, Jwt, bearer, hs256, signing_key, jwt_auth, mint_token}

-- No character is white space.
abbrev pub IsCompact : String → Type 0
IsCompact String.[] = Unit
IsCompact (String.◌∷◌ c s) = (is_space (code c) ≡ false) × IsCompact s

after_prefix-append : (p s : String) → after_prefix p (p ++ s) ≡ some s
unfolding after_prefix
after_prefix-append String.[] s = ap some (append.nil s)
after_prefix-append (String.◌∷◌ c p) s =
    ap (after_prefix (String.◌∷◌ c p)) (append.cons c p s) ∙ ground (arith, after_prefix-append p s)

trim_left-compact : (s : String) → IsCompact s → trim_left s ≡ s
unfolding trim_left
trim_left-compact String.[] h = refl
trim_left-compact (String.◌∷◌ c s) (e, h) = rw e refl

trim_right-compact : (s : String) → IsCompact s → trim_right s ≡ s
unfolding trim_right
trim_right-compact String.[] h = refl
trim_right-compact (String.◌∷◌ c String.[]) (e, h) = rw e refl
trim_right-compact (String.◌∷◌ c (String.◌∷◌ d s)) (e, h) =
    rw (trim_right-compact (String.◌∷◌ d s) h) refl

trim_space-compact : (s : String) → IsCompact s → trim_space s ≡ s
unfolding trim_space
trim_space-compact s h = rw (trim_right-compact s h) (trim_left-compact s h)

-- What golang-jwt documents of the tokens it signs with HS256: they are written in base64url with
-- dots, and valid until they expire for every key function that gives the same key.
pub record SignsTokens (j : Jwt) : Type 0 where
  pub written :
      (claims : Claims) (key text : String)
      → j.signed hs256 claims key ≡ some text
      → (is_empty text ≡ false) × IsCompact text
  pub valid :
      (claims : Claims) (key text : String) (key_of : Bool → Option String) (now : ℤ)
      → j.signed hs256 claims key ≡ some text
      → key_of true ≡ some key
      → claims.issued_at ≤ℤ now
      → now +ℤ pos 1000000000 ≤ℤ claims.expires_at
      → j.parse (hs256 ∷ []) key_of now text ≡ true

-- Where golang-jwt verifies what it has signed, a token that MintToken has made passes jwtAuth
-- with the same secret, from when it was made to a second before it expires.
pub jwt_auth-mint_token :
    (j : Jwt) (secret subject text : String) (ttl minted now : ℤ) (r : Request)
    → SignsTokens j
    → mint_token j secret subject ttl minted ≡ some text
    → minted ≤ℤ now
    → now +ℤ pos 1000000000 ≤ℤ minted +ℤ ttl
    → r.authorization ≡ bearer ++ text
    → jwt_auth j secret now r ≡ none
unfolding jwt_auth mint_token
jwt_auth-mint_token j secret subject text ttl minted now r js e h k a =
    let (full, compact) = js.written _ secret text e in
    let valid = js.valid _ secret text (signing_key secret) now e refl h k in
    rw (a) (
      rw (after_prefix-append bearer text)
        (rw (trim_space-compact text compact) (rw full (rw valid refl))))
