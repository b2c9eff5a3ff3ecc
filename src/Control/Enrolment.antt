-- ===== src/Control/Enrolment.antt =====
-- A relay registers and then verifies the tokens of its control plane: `registerOnce` of
-- relay-node/registration/register.go against `RegisterRelay` of control-plane/handler/node.go,
-- `issueMeshToken` of control-plane/service/route_service.go and `authenticate` of
-- relay-node/mesh/dispatcher.go.
use Prim.Native.String.{String}
use res.Base.{◌∷◌, ◌==◌, string_eq, none, some, List, [], Bytes, if◌then◌else◌}
use res.Relay.Registrar.{Registrar, Reply, RelayRegisterRequest, request_of, register_once}
use res.Control.NodeHandler.{Answer, write_error, write_json, write_header}
use res.Control.Relays.{Env, Declared, RelayServer}
use res.Control.Allowlist.{Internal, RelayRegisterResponse, register_relay}

-- The request as the handler decodes it; it has no vless_port.
unfoldable pub decoded : RelayRegisterRequest → Declared
decoded q = record { address = q.address; port = q.port; vless_port = 0; capacity = q.capacity }

module _ (json : Bytes → Bytes) where
  -- The answer as the relay reads it; `json` is what encoding/json makes of a string on its way, which
  -- replaces what is not UTF-8.
  unfoldable pub reply_of : Answer RelayRegisterResponse → Reply
  reply_of (write_error status message) = Reply.replied status none
  reply_of (write_header status) = Reply.replied status none
  reply_of (write_json status response) = Reply.replied status (some (json response.mesh_auth_key))

  -- One attempt of a relay whose requests come from `remote`.
  unfoldable pub enrol :
      Env
      → Internal
      → (remote : String) → Registrar
      → List RelayServer
      → Registrar × List RelayServer
  enrol env int remote r rows =
      let a = register_relay env int remote (some (decoded (request_of r))) rows in
      (register_once (reply_of a.0) r, a.1)

  -- A series of attempts, each with what the control plane meets and where it comes from.
  unfoldable pub enrol_all :
      Internal → List (Env × String) → Registrar → List RelayServer → Registrar × List RelayServer
  enrol_all int [] r rows = (r, rows)
  enrol_all int ((env, remote) ∷ attempts) r rows =
      let a = enrol env int remote r rows in enrol_all int attempts a.0 a.1

  -- `Run`: a relay that does not know its public address does not register.
  unfoldable pub run_registrar :
      Internal → List (Env × String) → Registrar → List RelayServer → Registrar × List RelayServer
  run_registrar int attempts r rows =
      if r.public_address == "" then (r, rows) else enrol_all int attempts r rows
