-- ===== src/Control/Accounts.antt =====
-- The tables accounts and account_settings, statement by statement:
-- control-plane/db/account_repo.go over the schema of control-plane/db/migrations. A statement that
-- the database refuses for a reason that the model does not have is one that is not `up`; NOW() and
-- uuid_generate_v4() are arguments. The column exit_nodes holds the JSON of a list: the model holds
-- the list. The rows of nodes, sessions and routes that ON DELETE CASCADE takes along stand in other
-- tables.
pub mod Rows
use Prim.Native.String.{String}
use res.Base.{
  ℕ, Bool, true, false, not, ◌&&◌, ◌||◌, Option, none, some, List, [], ◌∷◌, ◌++◌, if◌then◌else◌,
  filter, Result, ok, err, ◌==◌, string_eq,
}
use res.Control.Nodes.{any, find, update_where, is_value}

pub record Account : Type 0 where
  pub id : String
  pub email : String
  pub password_hash : String
  pub created_at : ℕ
  pub updated_at : ℕ
  pub tier : String
  pub remnawave_uuid : Option String
  pub subscription_url : Option String

pub record ExitNodeConfig : Type 0 where
  pub name : String
  pub address : String
  pub port : ℕ
  pub protocol : String
  pub uuid : String
  pub raw_uri : String

pub record AccountSettings : Type 0 where
  pub account_id : String
  pub vless_enabled : Bool
  pub exit_node_id : Option String
  pub exit_nodes : List ExitNodeConfig
  pub routing_rules : String
  pub fragment_enabled : Bool
  pub block_ads_enabled : Bool
  pub updated_at : ℕ

pub record AccountDb : Type 0 where
  pub accounts : List Account
  pub settings : List AccountSettings

pub data Statement : Type 0 where
  insert_account insert_settings select_account delete_account set_link : Statement
  vless exit_node exit_nodes rules fragment block_ads : Statement
  select_settings : Statement

pub record Env : Type 0 where
  pub up : Statement → Bool
  pub now : ℕ
  pub uuid : String

-- `api.ErrNotFound`, or any other error.
pub data DbError : Type 0 where
  not_found failed : DbError

abbrev pub has_email : String → Account → Bool
has_email email a = a.email == email

abbrev pub has_id : String → Account → Bool
has_id id a = a.id == id

abbrev pub of_account : String → AccountSettings → Bool
of_account id s = s.account_id == id

-- The defaults of the columns.
unfoldable pub new_account : Env → String → String → Account
new_account env email hash = record {
  id = env.uuid;
  email = email;
  password_hash = hash;
  created_at = env.now;
  updated_at = env.now;
  tier = "free";
  remnawave_uuid = none;
  subscription_url = none;
}

unfoldable pub default_settings : ℕ → String → AccountSettings
default_settings now id = record {
  account_id = id;
  vless_enabled = false;
  exit_node_id = none;
  exit_nodes = [];
  routing_rules = "";
  fragment_enabled = false;
  block_ads_enabled = false;
  updated_at = now;
}

-- `Create`: two statements, of which the second may fail alone.
unfoldable pub create : Env → String → String → AccountDb → Result DbError Account × AccountDb
create env email hash db =
    if not (env.up Statement.insert_account)
      || any (has_email email) db.accounts
      || any (has_id env.uuid) db.accounts
    then (err DbError.failed, db)
    else if not (env.up Statement.insert_settings) || any (of_account env.uuid) db.settings
    then (
      err DbError.failed,
      record db { accounts = db.accounts ++ new_account env email hash ∷ [] },
    )
    else (
      ok (new_account env email hash),
      record {
        accounts = db.accounts ++ new_account env email hash ∷ [];
        settings = db.settings ++ default_settings env.now env.uuid ∷ [];
      },
    )

unfoldable pub found {ℓ} : {A : Type ℓ} → Bool → Option A → Result DbError A
found false row = err DbError.failed
found true none = err DbError.not_found
found true (some row) = ok row

-- `GetByEmail`, `GetByID`
unfoldable pub get_by_email : Env → String → AccountDb → Result DbError Account
get_by_email env email db =
    found (env.up Statement.select_account) (find (has_email email) db.accounts)

unfoldable pub get_by_id : Env → String → AccountDb → Result DbError Account
get_by_id env id db = found (env.up Statement.select_account) (find (has_id id) db.accounts)

-- `Delete`, with the settings that ON DELETE CASCADE takes along.
unfoldable pub delete : Env → String → AccountDb → Result DbError (Unit {0}) × AccountDb
delete env id db =
    if not (env.up Statement.delete_account)
    then (err DbError.failed, db)
    else if not (any (has_id id) db.accounts)
    then (err DbError.not_found, db)
    else (
      ok tt,
      record {
        accounts = filter (λ a. not (has_id id a)) db.accounts;
        settings = filter (λ s. not (of_account id s)) db.settings;
      },
    )

-- `SetRemnawaveLink`: refused if another row has the link, of which the index is unique.
unfoldable pub set_remnawave_link :
    Env → String → String → String → AccountDb → Result DbError (Unit {0}) × AccountDb
set_remnawave_link env id uuid url db =
    if not (env.up Statement.set_link)
      || any (λ a. is_value uuid a.remnawave_uuid && not (has_id id a)) db.accounts
    then (err DbError.failed, db)
    else (
      ok tt,
      record db {
        accounts =
            update_where (has_id id)
              (λ a. record a {
                remnawave_uuid = some uuid;
                subscription_url = some url;
                updated_at = env.now;
              })
              db.accounts;
      },
    )

-- `Get`
unfoldable pub get : Env → String → AccountDb → Result DbError AccountSettings
get env id db = found (env.up Statement.select_settings) (find (of_account id) db.settings)

-- `UPDATE account_settings SET … WHERE account_id=$1 RETURNING …`: without a row, an error.
unfoldable pub update_settings :
    Statement
    → (AccountSettings → AccountSettings)
    → Env
    → String
    → AccountDb
    → Result DbError AccountSettings × AccountDb
update_settings st f env id db =
    if env.up st && any (of_account id) db.settings
    then (
      found true (find (of_account id) (update_where (of_account id) f db.settings)),
      record db { settings = update_where (of_account id) f db.settings },
    )
    else (err DbError.failed, db)

-- `Upsert`: refused if there is no row and no account either.
unfoldable pub upsert : Env → String → Bool → AccountDb → Result DbError AccountSettings × AccountDb
upsert env id enabled db =
    if any (of_account id) db.settings
    then update_settings Statement.vless
        (λ s. record s { vless_enabled = enabled; updated_at = env.now }) env id db
    else if env.up Statement.vless && any (has_id id) db.accounts
    then (
      ok (record (default_settings env.now id) { vless_enabled = enabled }),
      record db {
        settings =
            db.settings ++ record (default_settings env.now id) { vless_enabled = enabled } ∷ [];
      },
    )
    else (err DbError.failed, db)

-- `SetExitNode`, `SetExitNodes`, `SetRoutingRules`, `SetFragmentEnabled`, `SetBlockAdsEnabled`
unfoldable pub set_exit_node :
    Env → String → Option String → AccountDb → Result DbError AccountSettings × AccountDb
set_exit_node env id node db =
    update_settings Statement.exit_node
      (λ s. record s { exit_node_id = node; updated_at = env.now }) env id db

unfoldable pub set_exit_nodes :
    Env → String → List ExitNodeConfig → AccountDb → Result DbError AccountSettings × AccountDb
set_exit_nodes env id nodes db =
    update_settings Statement.exit_nodes
      (λ s. record s { exit_nodes = nodes; updated_at = env.now }) env id db

unfoldable pub set_routing_rules :
    Env → String → String → AccountDb → Result DbError AccountSettings × AccountDb
set_routing_rules env id text db =
    update_settings Statement.rules (λ s. record s { routing_rules = text; updated_at = env.now })
      env id db

unfoldable pub set_fragment_enabled :
    Env → String → Bool → AccountDb → Result DbError AccountSettings × AccountDb
set_fragment_enabled env id enabled db =
    update_settings Statement.fragment
      (λ s. record s { fragment_enabled = enabled; updated_at = env.now }) env id db

unfoldable pub set_block_ads_enabled :
    Env → String → Bool → AccountDb → Result DbError AccountSettings × AccountDb
set_block_ads_enabled env id enabled db =
    update_settings Statement.block_ads
      (λ s. record s { block_ads_enabled = enabled; updated_at = env.now }) env id db
