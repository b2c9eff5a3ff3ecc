-- ===== src/Control/Allowlist.antt =====
-- `RegisterRelay` of control-plane/handler/node.go behind the allowlist of
-- control-plane/handler/relay_allowlist.go. strings.TrimSpace, net.SplitHostPort, and what
-- bufio.Scanner makes of the file are parameters.
pub mod Guard
use Prim.Native.Char.{code}
use Prim.Native.String.{String}
use res.Base.{
  ℕ, Bool, true, false, not, ◌&&◌, Option, none, some, List, [], filter, map, if◌then◌else◌, Result,
  ok, err, ◌==◌, string_eq, nat_beq, Bytes,
}
use res.Control.Nodes.{any}
use res.Control.NodeHandler.{Answer, write_error, write_json}
use res.Control.Relays.{
  Env, Declared, RelayServer, RelayCredentials, declared, upsert_with_credentials,
}

-- The file: its lines, and whether the scanner read all of it.
pub data AllowFile : Type 0 where
  missing unreadable : AllowFile
  scanned : (lines : List String) → (complete : Bool) → AllowFile

-- The checks of the source address, in their order.
pub data Refusal : Type 0 where
  not_loaded not_listed wrong_source : Refusal

-- What the handlers read outside the request: the allowlist's path and file, and the key that a
-- relay is given.
pub record Internal : Type 0 where
  pub relay_allowlist_path : String
  pub file : AllowFile
  pub mesh_auth_key : Bytes
  pub trim_space : String → String
  pub split_host_port : String → Option String

pub record RelayRegisterResponse : Type 0 where
  pub credentials : RelayCredentials
  pub mesh_auth_key : Bytes

-- `strings.HasPrefix(line, "#")`
unfoldable pub is_comment : String → Bool
is_comment String.[] = false
is_comment (String.◌∷◌ c s) = nat_beq (code c) 35

unfoldable pub is_entry : String → Bool
is_entry line = not (line == "") && not (is_comment line)

-- `loadRelayAllowlist`
unfoldable pub load_relay_allowlist : (String → String) → AllowFile → Result Refusal (List String)
load_relay_allowlist trim_space missing = ok []
load_relay_allowlist trim_space unreadable = err not_loaded
load_relay_allowlist trim_space (scanned lines complete) =
    if complete then ok (filter is_entry (map trim_space lines)) else err not_loaded

-- The host of `r.RemoteAddr`, or all of it.
unfoldable pub source_of : Internal → String → String
source_of int remote = elim (int.split_host_port remote) [ none ↦ remote | some host ↦ host ]

unfoldable pub check_entry :
    Internal → (remote address : String) → Result Refusal (List String) → Option Refusal
check_entry int remote address (err e) = some e
check_entry int remote address (ok allow) =
    if not (any (λ line. line == address) allow)
    then some not_listed
    else if not (source_of int remote == address)
    then some wrong_source
    else none

-- `checkRelayAllowed`; `none` is a nil error.
unfoldable pub check_relay_allowed : Internal → (remote address : String) → Option Refusal
check_relay_allowed int remote address =
    if int.relay_allowlist_path == ""
    then none
    else check_entry int remote address (load_relay_allowlist int.trim_space int.file)

-- The answer to what the table gave.
unfoldable pub registered : Internal → Result Unit RelayCredentials → Answer RelayRegisterResponse
registered int (err e) = write_error 500 "failed to register relay server"
registered int (ok creds) =
    write_json 200 (record { credentials = creds; mesh_auth_key = int.mesh_auth_key })

unfoldable pub admit :
    Env
    → Internal
    → Declared
    → Option Refusal
    → List RelayServer
    → Answer RelayRegisterResponse × List RelayServer
admit env int d (some e) rows = (write_error 403 "relay not allowed", rows)
admit env int d none rows =
    let r = upsert_with_credentials env (declared d) rows in (registered int r.0, r.1)

-- `RegisterRelay`; the body is `none` where JSON does not decode it.
unfoldable pub register_relay :
    Env
    → Internal
    → (remote : String) → Option Declared
    → List RelayServer
    → Answer RelayRegisterResponse × List RelayServer
register_relay env int remote none rows = (write_error 400 "invalid request body", rows)
register_relay env int remote (some d) rows =
    admit env int d (check_relay_allowed int remote d.address) rows
