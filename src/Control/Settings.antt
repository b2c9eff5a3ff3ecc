-- ===== src/Control/Settings.antt =====
-- The settings of an account over HTTP: control-plane/handler/settings.go. The account is that of
-- the verified token; a body is `none` where JSON does not decode it, and a field is `none` where it
-- is absent or null.
pub mod Patch
use Prim.Native.String.{String}
use res.Base.{
  ℕ, Bool, true, false, not, ◌&&◌, Option, none, some, List, [], ◌∷◌, if◌then◌else◌, Result, ok,
  err, ◌==◌, string_eq,
}
use res.Control.NodeHandler.{Answer, write_error, write_json}
use res.Control.Accounts.{
  AccountDb, AccountSettings, ExitNodeConfig, Env, DbError, get, upsert, set_exit_node,
  set_exit_nodes, set_routing_rules, set_fragment_enabled, set_block_ads_enabled,
}
use res.Control.Events.{Broker, publish}

-- UpdateSettingsRequest
pub record UpdateSettings : Type 0 where
  pub vless_enabled : Option Bool
  pub exit_node_id : Option String
  pub exit_nodes : Option (List ExitNodeConfig)
  pub routing_rules : Option String
  pub fragment_enabled : Option Bool
  pub block_ads_enabled : Option Bool

-- `GetSettings`; `path_account` is the part of the path after /api/v1/accounts/, up to the next slash.
unfoldable pub get_settings :
    Env → (account path_account : String) → AccountDb → Answer AccountSettings
get_settings env account path_account db =
    if not (account == path_account) && not (path_account == "")
    then write_error 403 "forbidden"
    else elim (get env account db) [
      | ok s ↦ write_json 200 s
      | err _ ↦ write_error 500 "failed to get settings"
    ]

-- `exitPtr`
unfoldable pub exit_pointer : String → Option String
exit_pointer id = if id == "" then none else some id

-- What the handler has so far: the message of a failure, or the settings that came back last.
abbrev pub Progress : Type 0
Progress = Result String (Option AccountSettings) × AccountDb

-- `if req.F != nil { settings, err = …; if err != nil { … return } }`
unfoldable pub apply {ℓ} :
    {A : Type ℓ}
    → (message : String) → (A → AccountDb → Result DbError AccountSettings × AccountDb)
    → Option A
    → Progress
    → Progress
apply message set value (err m, db) = (err m, db)
apply message set none (ok s, db) = (ok s, db)
apply message set (some v) (ok s, db) =
    let r = set v db in (elim r.0 [ ok s' ↦ ok (some s') | err _ ↦ err message ], r.1)

-- The six statements, in the order of the code.
unfoldable pub apply_all : Env → String → UpdateSettings → AccountDb → Progress
apply_all env account req db =
    apply "failed to set block ads enabled" (set_block_ads_enabled env account)
      req.block_ads_enabled
      (apply "failed to set fragment enabled" (set_fragment_enabled env account)
        req.fragment_enabled
        (apply "failed to set routing rules" (set_routing_rules env account) req.routing_rules (
          apply "failed to set exit nodes" (set_exit_nodes env account) req.exit_nodes (
            apply "failed to set exit node" (λ id. set_exit_node env account (exit_pointer id))
              req.exit_node_id
              (apply "failed to update settings" (upsert env account) req.vless_enabled
                (ok none, db))))))

abbrev pub is_none {ℓ} : {A : Type ℓ} → Option A → Bool
is_none none = true
is_none (some _) = false

unfoldable pub is_empty : UpdateSettings → Bool
is_empty req =
    is_none req.vless_enabled
    && is_none req.exit_node_id
    && is_none req.exit_nodes
    && is_none req.routing_rules
    && is_none req.fragment_enabled
    && is_none req.block_ads_enabled

-- The answer once the statements are through; where none of them ran, the settings are read.
unfoldable pub answer :
    Env → String → Broker → Progress → Option (Answer AccountSettings) × AccountDb × Broker
answer env account b (err message, db) = (some (write_error 500 message), db, b)
answer env account b (ok none, db) = (
  elim (get env account db) [ ok s ↦ some (write_json 200 s) | err _ ↦ none ],
  db,
  publish account b,
)
answer env account b (ok (some s), db) = (some (write_json 200 s), db, publish account b)

-- `UpdateSettings`; `none` is the panic where there are no settings to answer with.
unfoldable pub update_settings :
    Env
    → String
    → Option UpdateSettings
    → AccountDb
    → Broker
    → Option (Answer AccountSettings) × AccountDb × Broker
update_settings env account none db b = (some (write_error 400 "invalid request body"), db, b)
update_settings env account (some req) db b =
    if is_empty req
    then (some (write_error 400 "no settings to update"), db, b)
    else answer env account b (apply_all env account req db)
