-- ===== src/Control/EnrolmentTests.antt =====
-- A relay behind an allowlist, and one that registers twice.
use res.Base.{◌≡◌, ◌⊎◌, refl, [], ◌∷◌, some, none, ok, true, string_eq}
use res.Relay.Registrar.{Registrar, request_of}
use res.Control.NodeHandler.{write_error}
use res.Control.Allowlist.{Internal, AllowFile, register_relay, source_of}
use res.Control.Allowlist.Guard.{IsListed, register_relay-allowed}
use res.Control.Enrolment.{decoded}
use res.Control.RelayTests.{relay_env, relay, relay_credentials}
use res.Control.Nodes.{find, text_or_empty}
use res.Control.Relays.{
  declared, upsert_with_credentials, upsert_found, generate, insert_or_fill, read_credentials,
  new_relay, credentials_of,
}

abbrev internal : Internal
internal = record {
  relay_allowlist_path = "/etc/relays";
  file = AllowFile.scanned ("# relays" ∷ "198.51.100.7" ∷ []) true;
  mesh_auth_key = 1 ∷ [];
  trim_space = λ line. line;
  split_host_port = λ remote. none;
}

abbrev registrar : Registrar
registrar = record {
  public_address = "198.51.100.7";
  udp_port = 51820;
  capacity = 100;
  mesh_auth_key = [];
}

register_relay-allowed_example :
    (internal.relay_allowlist_path ≡ "")
    ⊎ ((IsListed internal relay.address × (source_of internal "198.51.100.7" ≡ relay.address))
        ⊎ (register_relay relay_env internal "198.51.100.7" (some relay) []
            ≡ (write_error 403 "relay not allowed", [])))
register_relay-allowed_example = register_relay-allowed relay_env internal "198.51.100.7" relay []

stored :
    (upsert_with_credentials relay_env (declared (decoded (request_of registrar))) []).0
    ≡ ok relay_credentials
unfolding decoded declared request_of upsert_with_credentials upsert_found generate insert_or_fill
    read_credentials find new_relay credentials_of text_or_empty
stored = refl
