-- ===== src/Relay/Registrar.antt =====
-- The relay's registration with the control plane: relay-node/registration/register.go. A reply is
-- what `http.Client.Do` and the JSON decoder make of the answer; the body is the key that it gives,
-- which is text, and `none` where it does not decode. `Run` with its two minutes between the
-- attempts is Control.Enrolment's.
use Prim.Native.String.{String}
use res.Base.{ℕ, Option, none, some, if◌then◌else◌, Bytes, nat_beq}

pub record Registrar : Type 0 where
  pub public_address : String
  pub udp_port : ℕ
  pub capacity : ℕ
  pub mesh_auth_key : Bytes

pub data Reply : Type 0 where
  unreachable : Reply
  replied : (status : ℕ) → (body : Option Bytes) → Reply

pub record RelayRegisterRequest : Type 0 where
  pub address : String
  pub port : ℕ
  pub capacity : ℕ

-- The body of the request.
unfoldable pub request_of : Registrar → RelayRegisterRequest
request_of r = record { address = r.public_address; port = r.udp_port; capacity = r.capacity }

-- `registerOnce`, with the reply.
unfoldable pub register_once : Reply → Registrar → Registrar
register_once unreachable r = r
register_once (replied status none) r = r
register_once (replied status (some key)) r =
    if nat_beq status 200 then record r { mesh_auth_key = key } else r
