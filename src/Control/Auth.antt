-- ===== src/Control/Auth.antt =====
-- Registration, login and refresh: control-plane/handler/auth.go, with the panel's client of
-- control-plane/remnawave/client.go. The code of golang.org/x/crypto/bcrypt is not in the
-- repository. A password is its bytes; a body is `none` where JSON does not decode it; the answers of
-- the panel are arguments.
pub mod Email
pub mod Register
pub mod Half
use Prim.Native.String.{String}
use Prim.Native.Char.{code}
use res.Base.{
  ℕ, ◌+◌, ◌*◌, ◌≡◌, Bool, true, false, not, ◌&&◌, ◌||◌, Option, none, some, List, [], ◌∷◌,
  if◌then◌else◌, Result, ok, err, Bytes, ltb, leb, nat_beq, ◌==◌, string_eq, length, drop, bytes_eq,
}
use res.Control.NodeHandler.{Answer, write_error, write_json}
use res.Control.Accounts.{
  Account, AccountDb, Env, DbError, create, get_by_email, delete, set_remnawave_link, get_by_id,
}
use res.Control.Tokens.{Jwt, TokenManager, generate_token, validate_token, refresh_token, Claims}
use res.Control.Auth.Email.{is_email}

-- `GenerateFromPassword`, with its random salt, and `CompareHashAndPassword`.
pub record Bcrypt : Type 0 where
  pub generate : Bytes → Bytes → Option String
  pub compare : String → Bytes → Bool
  pub compare-generate :
      (salt password : Bytes) (hash : String)
      → generate salt password ≡ some hash
      → compare hash password ≡ true

-- remnawave.User
pub record User : Type 0 where
  pub uuid : String
  pub short_uuid : String
  pub username : String
  pub email : String
  pub status : String
  pub traffic_limit : ℕ
  pub traffic_strategy : String
  pub subscription_url : String
  pub used_traffic_bytes : ℕ

-- An `*APIError` with its status, or any other error.
pub data PanelError : Type 0 where
  api_error : ℕ → PanelError
  other_error : PanelError

unfoldable pub is_conflict : PanelError → Bool
is_conflict (api_error status) = nat_beq status 409 || nat_beq status 400
is_conflict other_error = false

-- FreeTierBytes
abbrev pub free_tier_bytes : ℕ
free_tier_bytes = 2 * 1024 * 1024 * 1024

-- What comes back over HTTP: nothing, or a status and a body, of which the user is `none` where JSON
-- does not decode it.
abbrev pub Reply : Type 0
Reply = Option (ℕ × Option User)

-- `do`, from the answer on.
unfoldable pub do_request : Reply → Result PanelError User
do_request none = err other_error
do_request (some (status, user)) =
    if leb 300 status
    then err (api_error status)
    else elim user [ none ↦ err other_error | some u ↦ ok u ]

pub record Client : Type 0 where
  pub base_url : String
  pub token : String
  pub squad_uuid : String

-- `Enabled`
unfoldable pub enabled : Client → Bool
enabled c = not (c.base_url == "") && not (c.token == "") && not (c.squad_uuid == "")

-- The panel's answers to POST /api/users, GET /api/users/by-email and GET /api/users.
pub record Panel : Type 0 where
  pub post_user : (username email : String) → ℕ → Reply
  pub by_email : String → Reply
  pub by_uuid : String → Reply

-- `CreateUser`, `GetUserByEmail`, `GetUser`
unfoldable pub create_user : Panel → (username email : String) → ℕ → Result PanelError User
create_user p username email limit = do_request (p.post_user username email limit)

unfoldable pub get_user_by_email : Panel → String → Result PanelError User
get_user_by_email p email = do_request (p.by_email email)

unfoldable pub get_user : Panel → String → Result PanelError User
get_user p uuid = do_request (p.by_uuid uuid)

-- The user of a registration: after a conflict, the one that has the address already.
unfoldable pub recover : Panel → String → Result PanelError User → Result PanelError User
recover p email (ok user) = ok user
recover p email (err e) =
    if is_conflict e
    then elim (get_user_by_email p email) [ ok existing ↦ ok existing | err _ ↦ err e ]
    else err e

unfoldable pub provision : Panel → (username email : String) → Result PanelError User
provision p username email = recover p email (create_user p username email free_tier_bytes)

pub record AuthResponse : Type 0 where
  pub token : Bytes
  pub account_id : String

-- What the handlers are made with.
pub record Service : Type 0 where
  pub jwt : Jwt
  pub bcrypt : Bcrypt
  pub tokens : TokenManager
  pub client : Client
  pub panel : Panel

-- The checks of a registration before the database is asked.
unfoldable pub refusal : String → Bytes → Option String
refusal email password =
    if (email == "") || (password == [])
    then some "email and password are required"
    else if not (is_email email)
    then some "invalid email format"
    else if ltb (length password) 8
    then some "password must be at least 8 characters"
    else none

-- `strings.ReplaceAll(accountID, "-", "")`
unfoldable pub without_dashes : String → String
without_dashes String.[] = ""
without_dashes (String.◌∷◌ c s) =
    if nat_beq (code c) 45 then without_dashes s else String.◌∷◌ c (without_dashes s)

-- `remnawaveUsername`
unfoldable pub remnawave_username : String → String
remnawave_username account = String.◌∷◌ "v" (String.◌∷◌ "_" (without_dashes account))

module _ (sv : Service) where
  -- The answer once the account is there.
  unfoldable pub signed_in : (status now : ℕ) → Account → Answer AuthResponse
  signed_in status now account = elim (generate_token sv.jwt sv.tokens now account.id "") [
    | none ↦ write_error 500 "internal error"
    | some token ↦ write_json status (record { token = token; account_id = account.id })
  ]

  -- The link to the panel's user; that it cannot be saved is no error.
  unfoldable pub link :
      Env → ℕ → Account → Result PanelError User → AccountDb → Answer AuthResponse × AccountDb
  link env now account (ok user) db = (
    signed_in 201 now account,
    (set_remnawave_link env account.id user.uuid user.subscription_url db).1,
  )
  link env now account (err e) db =
      (write_error 502 "subscription provisioning failed; try again", (delete env account.id db).1)

  unfoldable pub created :
      Env → ℕ → String → Result DbError Account → AccountDb → Answer AuthResponse × AccountDb
  created env now email (err e) db = (write_error 409 "account already exists", db)
  created env now email (ok account) db =
      if enabled sv.client
      then link env now account (provision sv.panel (remnawave_username account.id) email) db
      else (signed_in 201 now account, db)

  -- `Register`
  unfoldable pub register :
      Env
      → (salt : Bytes) → (now : ℕ) → Option (String × Bytes)
      → AccountDb
      → Answer AuthResponse × AccountDb
  register env salt now none db = (write_error 400 "invalid request body", db)
  register env salt now (some (email, password)) db = elim (refusal email password) [
    | some message ↦ (write_error 400 message, db)
    | none ↦ elim (sv.bcrypt.generate salt password) [
      | none ↦ (write_error 500 "internal error", db)
      | some hash ↦ let r = create env email hash db in created env now email r.0 r.1
    ]
  ]

  -- `Login`
  unfoldable pub login : Env → ℕ → Option (String × Bytes) → AccountDb → Answer AuthResponse
  login env now none db = write_error 400 "invalid request body"
  login env now (some (email, password)) db = elim (get_by_email env email db) [
    | err _ ↦ write_error 401 "invalid email or password"
    | ok account ↦
        if sv.bcrypt.compare account.password_hash password
        then signed_in 200 now account
        else write_error 401 "invalid email or password"
  ]

  -- `Refresh`, with three readings of the clock.
  unfoldable pub refresh : (now later last : ℕ) → Bytes → Answer AuthResponse
  refresh now later last header =
      if ltb (length header) 8
      then write_error 401 "missing token"
      else elim (refresh_token sv.jwt sv.tokens now later (drop 7 header)) [
        | none ↦ write_error 401 "invalid or expired token"
        | some token ↦ write_json 200 (record {
          token = token;
          account_id = elim (validate_token sv.jwt sv.tokens last token) [
            | none ↦ ""
            | some c ↦ c.account_id
          ];
        })
      ]
