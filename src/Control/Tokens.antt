-- ===== src/Control/Tokens.antt =====
-- The session tokens: valhalla-common/crypto/token.go over github.com/golang-jwt/jwt, whose code is
-- not in the repository, and the middleware of control-plane/middleware/auth.go. Times are seconds.
use Prim.Native.String.{String}
use res.Base.{
  ℕ, ◌+◌, ◌<◌, ◌≤◌, ◌≡◌, ◌&&◌, Option, none, some, [], ◌∷◌, if◌then◌else◌, Result, ok, err, Bytes,
  leb, nat_beq, map, ◌==◌, bytes_eq, string_eq,
}

-- TokenClaims
pub record Claims : Type 0 where
  pub account_id : String
  pub node_id : String
  pub expires_at : ℕ
  pub issued_at : ℕ
  pub issuer : String

pub data Method : Type 0 where
  hs256 other : Method

-- `SignedString` with SigningMethodHS256, `none` for its error, which a key of bytes never gives; and
-- `ParseWithClaims`, which asks for the key by the method that the token names and refuses a token
-- at the end of its time.
pub record Jwt : Type 0 where
  pub sign : Bytes → Claims → Option Bytes
  pub sign-some : (key : Bytes) (c : Claims) → (token : Bytes) × (sign key c ≡ some token)
  pub parse : (Method → Option Bytes) → ℕ → Bytes → Option Claims
  pub parse-sign :
      (key_of : Method → Option Bytes) (key : Bytes) (c : Claims) (now : ℕ) (token : Bytes)
      → key_of hs256 ≡ some key
      → sign key c ≡ some token
      → now < c.expires_at
      → parse key_of now token ≡ some c
  pub parse_expired :
      (key_of : Method → Option Bytes) (key : Bytes) (c : Claims) (now : ℕ) (token : Bytes)
      → sign key c ≡ some token
      → c.expires_at ≤ now
      → parse key_of now token ≡ none

pub record TokenManager : Type 0 where
  pub secret_key : Bytes
  pub expiry : ℕ

-- The key function: only the HMAC methods have a key.
unfoldable pub key_for : TokenManager → Method → Option Bytes
key_for tm hs256 = some tm.secret_key
key_for tm other = none

module _ (jwt : Jwt) where
  -- `GenerateToken`; `none` is its error.
  unfoldable pub generate_token : TokenManager → ℕ → String → String → Option Bytes
  generate_token tm now account node = jwt.sign tm.secret_key (record {
    account_id = account;
    node_id = node;
    expires_at = now + tm.expiry;
    issued_at = now;
    issuer = "valhalla";
  })

  unfoldable pub validate_token : TokenManager → ℕ → Bytes → Option Claims
  validate_token tm now token = jwt.parse (key_for tm) now token

  -- `RefreshToken`, which reads the clock for the old token and for the new one.
  unfoldable pub refresh_token : TokenManager → (now later : ℕ) → Bytes → Option Bytes
  refresh_token tm now later token = elim (validate_token tm now token) [
    | none ↦ none
    | some claims ↦ generate_token tm later claims.account_id claims.node_id
  ]

-- `strings.SplitN(header, " ", 2)`, where there are two parts.
unfoldable pub split_space : Bytes → Option (Bytes × Bytes)
split_space [] = none
split_space (c ∷ cs) =
    if nat_beq c 32
    then some ([], cs)
    else elim (split_space cs) [ none ↦ none | some (a, b) ↦ some (c ∷ a, b) ]

-- `strings.ToLower` of an ASCII letter.
unfoldable pub to_lower : ℕ → ℕ
to_lower c = if leb 65 c && leb c 90 then c + 32 else c

abbrev pub bearer : Bytes
bearer = 98 ∷ 101 ∷ 97 ∷ 114 ∷ 101 ∷ 114 ∷ []

-- The account and the node that a request acts for, empty where there is none.
pub record Identity : Type 0 where
  pub account_id : String
  pub node_id : String

module _ (jwt : Jwt) where
  -- `Auth`: the identity with which the next handler runs, or the message with status 401.
  unfoldable pub auth : TokenManager → ℕ → Bytes → Result String Identity
  auth tm now header =
      if header == [] then err "missing authorization header" else elim (split_space header) [
        | none ↦ err "invalid authorization format"
        | some (scheme, token) ↦
            if map to_lower scheme == bearer
            then elim (validate_token jwt tm now token) [
              | none ↦ err "invalid or expired token"
              | some claims ↦
                  ok (record { account_id = claims.account_id; node_id = claims.node_id })
            ]
            else err "invalid authorization format"
      ]
