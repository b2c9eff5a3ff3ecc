-- ===== src/Control/Devices.antt =====
-- The account of a device: control-plane/handler/devices.go. The account is that of the verified
-- token, empty where there is none.
pub mod Reprovision
use Prim.Native.String.{String}
use res.Base.{
  ℕ, Bool, true, false, not, ◌||◌, Option, none, some, if◌then◌else◌, Result, ok, err, ◌==◌,
  string_eq,
}
use res.Control.Nodes.{Node, Db, find_by_device_id_global, text_or_empty}
use res.Control.NodeHandler.{Answer, write_error, write_json}
use res.Control.Accounts.{Account, AccountDb, Env, DbError, get_by_id, set_remnawave_link}
use res.Control.Auth.{
  Service, User, PanelError, enabled, create_user, get_user, remnawave_username, free_tier_bytes,
}

-- `AccountHint`, with the address; `up` says whether the database answers the look-up of the device.
unfoldable pub account_hint : Env → (up : Bool) → String → Db → AccountDb → Answer String
account_hint env up device nodes db =
    if device == ""
    then write_error 400 "device_id query param required"
    else elim (if up then find_by_device_id_global device nodes else none) [
      | none ↦ write_error 404 "device not linked"
      | some node ↦ elim (get_by_id env node.account_id db) [
        | err _ ↦ write_error 404 "device not linked"
        | ok account ↦ write_json 200 account.email
      ]
    ]

pub record Quota : Type 0 where
  pub bytes_used : ℕ
  pub bytes_total : ℕ
  pub tier : String
  pub subscription_url : String

-- The answer where the panel is not asked or does not answer.
unfoldable pub default_quota : Account → Quota
default_quota a = record {
  bytes_used = 0;
  bytes_total = free_tier_bytes;
  tier = a.tier;
  subscription_url = text_or_empty a.subscription_url;
}

unfoldable pub panel_quota : Account → Result PanelError User → Quota
panel_quota a (err _) = default_quota a
panel_quota a (ok user) = record {
  bytes_used = user.used_traffic_bytes;
  bytes_total = user.traffic_limit;
  tier = a.tier;
  subscription_url = user.subscription_url;
}

pub record Provisioned : Type 0 where
  pub remnawave_uuid : String
  pub subscription_url : String
  pub status : String

module _ (sv : Service) where
  -- `Quota`
  unfoldable pub quota : Env → String → AccountDb → Answer Quota
  quota env account db =
      if account == "" then write_error 401 "unauthorized" else elim (get_by_id env account db) [
        | err _ ↦ write_error 404 "account not found"
        | ok a ↦
            if not (enabled sv.client) || (text_or_empty a.remnawave_uuid == "")
            then write_json 200 (default_quota a)
            else write_json 200 (panel_quota a (get_user sv.panel (text_or_empty a.remnawave_uuid)))
      ]

  -- The link to a new user of the panel.
  unfoldable pub provisioned :
      Env → String → Result PanelError User → AccountDb → Answer Provisioned × AccountDb
  provisioned env account (err _) db = (write_error 502 "subscription provisioning failed", db)
  provisioned env account (ok user) db =
      let r = set_remnawave_link env account user.uuid user.subscription_url db in
      (
        elim r.0 [
          | err _ ↦ write_error 500 "save link failed"
          | ok _ ↦ write_json 200 (record {
            remnawave_uuid = user.uuid;
            subscription_url = user.subscription_url;
            status = "provisioned";
          })
        ],
        r.1,
      )

  unfoldable pub reprovision_account :
      Env → String → Account → AccountDb → Answer Provisioned × AccountDb
  reprovision_account env account a db =
      if text_or_empty a.remnawave_uuid == ""
      then provisioned env account
          (create_user sv.panel (remnawave_username a.id) a.email free_tier_bytes) db
      else (
        write_json 200 (record {
          remnawave_uuid = text_or_empty a.remnawave_uuid;
          subscription_url = text_or_empty a.subscription_url;
          status = "already_provisioned";
        }),
        db,
      )

  -- `Reprovision`
  unfoldable pub reprovision : Env → String → AccountDb → Answer Provisioned × AccountDb
  reprovision env account db =
      if account == ""
      then (write_error 401 "unauthorized", db)
      else if not (enabled sv.client)
      then (write_error 503 "remnawave not configured", db)
      else elim (get_by_id env account db) [
        | err _ ↦ (write_error 404 "account not found", db)
        | ok a ↦ reprovision_account env account a db
      ]
