-- ===== src/Control/AccountTests.antt =====
-- Accounts on concrete input.

use Prim.Native.String.{String}
use res.Base.{ℕ, ◌+◌, ◌<◌, ◌≡◌, refl, true, false, none, some, [], ◌∷◌, Bytes, bytes_eq, string_eq}
use res.Control.ToyTokens.{spell, jwt, bcrypt, text_of}
use res.Control.Tokens.{Claims}
use res.Control.Auth.{
  User, Service, AuthResponse, register, login, created, link, signed_in, enabled, provision,
  recover, refusal, create_user, do_request, is_conflict, remnawave_username, without_dashes,
}
use res.Control.Auth.Email.{is_email, is_address, is_domain, is_tld}
use res.Control.Auth.Register.{register_rolls_back, register-login}
use res.Control.Auth.Half.{register_half}
use res.Control.Accounts.{
  Account, AccountDb, AccountSettings, Env, Statement, create, new_account, default_settings,
  delete, set_remnawave_link, of_account, found, get_by_id,
}
use res.Control.Nodes.{find, update_where, text_or_empty}
use res.Control.NodeHandler.{write_error, write_json}
use res.Control.Tokens.{generate_token, validate_token}
use res.Control.Settings.{UpdateSettings, update_settings, is_empty}
use res.Control.Settings.Patch.{patched, update_settings-patched, update_settings_half}
use res.Control.Events.{publish, new_broker}
use res.Control.Devices.{Provisioned, reprovision, reprovision_account}

abbrev panel_user : User
panel_user = record {
  uuid = "u1";
  short_uuid = "u";
  username = "v_a1";
  email = "a@b.cd";
  status = "ACTIVE";
  traffic_limit = 2147483648;
  traffic_strategy = "MONTH";
  subscription_url = "https://s/u1";
  used_traffic_bytes = 0;
}

-- A panel that makes users, and one that fails.
abbrev service : Service
service = record {
  jwt = jwt;
  bcrypt = bcrypt;
  tokens = record { secret_key = 7 ∷ []; expiry = 3600 };
  client = record { base_url = "https://panel"; token = "t"; squad_uuid = "s" };
  panel = record {
    post_user = λ username email limit. some (201, some panel_user);
    by_email = λ email. some (404, none);
    by_uuid = λ uuid. some (200, some panel_user);
  };
}

abbrev broken : Service
broken = record service {
  panel = record {
    post_user = λ username email limit. some (500, none);
    by_email = λ email. none;
    by_uuid = λ uuid. none;
  };
}

abbrev env : Env
env = record { up = λ st. true; now = 5; uuid = "a1" }

abbrev none_yet : AccountDb
none_yet = record { accounts = []; settings = [] }

abbrev password : Bytes
password = 1 ∷ 2 ∷ 3 ∷ 4 ∷ 5 ∷ 6 ∷ 7 ∷ 8 ∷ []

provisioning_fails :
    register broken env [] 5 (some ("a@b.cd", password)) none_yet
    ≡ (write_error 502 "subscription provisioning failed; try again", none_yet)
unfolding register refusal is_email is_address is_domain is_tld create created enabled link
    provision recover create_user do_request is_conflict remnawave_username without_dashes delete
    new_account default_settings
provisioning_fails = refl

register_rolls_back_example : none_yet ≡ none_yet
register_rolls_back_example =
    register_rolls_back broken env [] 5 502 "a@b.cd" "subscription provisioning failed; try again"
      password none_yet none_yet provisioning_fails refl refl refl

abbrev alice : Account
alice = record {
  id = "a1";
  email = "a@b.cd";
  password_hash = text_of password;
  created_at = 5;
  updated_at = 5;
  tier = "free";
  remnawave_uuid = some "u1";
  subscription_url = some "https://s/u1";
}

abbrev alice_settings : AccountSettings
alice_settings = record {
  account_id = "a1";
  vless_enabled = false;
  exit_node_id = none;
  exit_nodes = [];
  routing_rules = "";
  fragment_enabled = false;
  block_ads_enabled = false;
  updated_at = 5;
}

abbrev with_alice : AccountDb
with_alice = record { accounts = alice ∷ []; settings = alice_settings ∷ [] }

abbrev alice_in : AuthResponse
alice_in = record {
  token = spell service.tokens.secret_key (record {
    account_id = "a1";
    node_id = "";
    expires_at = 3605;
    issued_at = 5;
    issuer = "valhalla";
  });
  account_id = "a1";
}

alice_registers :
    register service env [] 5 (some ("a@b.cd", password)) none_yet
    ≡ (write_json 201 alice_in, with_alice)
unfolding register refusal is_email is_address is_domain is_tld create created enabled link
    provision recover create_user do_request is_conflict remnawave_username without_dashes
    set_remnawave_link new_account default_settings update_where signed_in generate_token
alice_registers = refl

register-login_example :
    (◌≡◌ {A = ℕ} 201 201)
    × ((t : ℕ)
        → t < 5 + 3600
        → (c : Claims) × (validate_token jwt service.tokens t alice_in.token ≡ some c)
          × (c.account_id ≡ "a1"))
    × ((env' : Env) (t : ℕ)
        → env'.up Statement.select_account ≡ true
        → (token : Bytes) × (generate_token jwt service.tokens t "a1" "" ≡ some token)
          × (login service env' t (some ("a@b.cd", password)) with_alice
              ≡ write_json 200 (record { token = token; account_id = "a1" })))
register-login_example =
    register-login service env [] 5 201 "a@b.cd" password alice_in none_yet with_alice
      alice_registers

-- The settings cannot be inserted.
abbrev half_env : Env
half_env = record env { up = λ st. elim st [ Statement.insert_settings ↦ false | _ ↦ true ] }

register_half_example :
    let db' = record none_yet {
      accounts = new_account half_env "a@b.cd" (text_of password) ∷ [];
    } in
    (register service half_env [] 5 (some ("a@b.cd", password)) none_yet
      ≡ (write_error 409 "account already exists", db'))
    × ((env' : Env) (salt' : Bytes) (t : ℕ) (hash' : String)
        → service.bcrypt.generate salt' password ≡ some hash'
        → register service env' salt' t (some ("a@b.cd", password)) db'
          ≡ (write_error 409 "account already exists", db'))
unfolding refusal is_email is_address is_domain is_tld
register_half_example =
    register_half service half_env [] 5 "a@b.cd" (text_of password) password none_yet refl refl refl
      refl refl refl

abbrev patch : UpdateSettings
patch = record {
  vless_enabled = some true;
  exit_node_id = some "x";
  exit_nodes = none;
  routing_rules = some "all";
  fragment_enabled = none;
  block_ads_enabled = none;
}

found_alice : find (of_account "a1") with_alice.settings ≡ some alice_settings
unfolding find
found_alice = refl

update_settings-patched_example : update_settings env "a1" (some patch) with_alice new_broker ≡ (
  some (write_json 200 (patched 5 patch alice_settings)),
  record with_alice {
    settings = update_where (of_account "a1") (patched 5 patch) with_alice.settings;
  },
  publish "a1" new_broker,
)
unfolding is_empty
update_settings-patched_example =
    update_settings-patched env "a1" with_alice alice_settings found_alice (λ st. refl) patch
      new_broker refl

-- The exit node is not in the table.
abbrev no_exit_env : Env
no_exit_env = record env { up = λ st. elim st [ Statement.exit_node ↦ false | _ ↦ true ] }

update_settings_half_example :
    update_settings no_exit_env "a1" (some patch) with_alice new_broker ≡ (
      some (write_error 500 "failed to set exit node"),
      record with_alice {
        settings =
            update_where
              (of_account "a1")
              (λ x. record x { vless_enabled = true; updated_at = 5 })
              with_alice.settings;
      },
      new_broker,
    )
update_settings_half_example =
    update_settings_half no_exit_env "a1" with_alice alice_settings new_broker patch true "x"
      found_alice refl refl refl refl

abbrev linked : Provisioned
linked = record {
  remnawave_uuid = "u1";
  subscription_url = "https://s/u1";
  status = "already_provisioned";
}

alice_linked : reprovision service env "a1" with_alice ≡ (write_json 200 linked, with_alice)
unfolding reprovision reprovision_account enabled get_by_id found find text_or_empty
alice_linked = refl
