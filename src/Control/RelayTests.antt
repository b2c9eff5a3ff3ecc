-- ===== src/Control/RelayTests.antt =====
-- A relay that registers twice, with another one in between.
use res.Base.{◌≡◌, refl, true, some, List, [], ◌∷◌, ok, string_eq, nat_eq, bytes_eq}
use res.Control.Nodes.{update_where, text_or_empty}
use res.Control.Relays.{
  RelayServer, RelayCredentials, Declared, upsert_with_credentials, upsert_found, register_all,
  generate, insert_or_fill, read_credentials, new_relay, refreshed, has_credentials, credentials_of,
}
use res.Control.Relays.{Env as RelayEnv}
use res.Control.Relays.Stable.{credentials_stable}
use res.Control.Nodes.{find, update_where}

abbrev pub relay_env : RelayEnv
relay_env = record {
  up = λ s. true;
  now = 5;
  key_pair = some ("private", "public");
  short_id = some "short";
  uuid = "uuid";
  row_id = "r1";
}

abbrev pub relay : Declared
relay = record { address = "198.51.100.7"; port = 51820; vless_port = 443; capacity = 100 }

abbrev other_relay : Declared
other_relay = record relay { address = "198.51.100.8" }

abbrev pub relay_credentials : RelayCredentials
relay_credentials = record {
  vless_uuid = "uuid";
  reality_private_key = "private";
  reality_public_key = "public";
  reality_short_ids = "short";
  reality_sni = "www.microsoft.com";
}

abbrev registered : List RelayServer
registered =
    register_all ((relay_env, other_relay) ∷ []) (upsert_with_credentials relay_env relay []).1

first_registration : (upsert_with_credentials relay_env relay []).0 ≡ ok relay_credentials
unfolding upsert_with_credentials upsert_found generate insert_or_fill read_credentials find
    new_relay credentials_of text_or_empty
first_registration = refl

second_registration : (upsert_with_credentials relay_env relay registered).0 ≡ ok relay_credentials
unfolding upsert_with_credentials upsert_found generate insert_or_fill read_credentials find
    new_relay has_credentials credentials_of text_or_empty update_where refreshed register_all
second_registration = refl

credentials_stable_example : relay_credentials ≡ relay_credentials
credentials_stable_example =
    credentials_stable relay_env relay_env relay relay_credentials relay_credentials []
      ((relay_env, other_relay) ∷ []) "private" "public" refl refl (λ e. cc e) (λ e. cc e)
      first_registration second_registration
