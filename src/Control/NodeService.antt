-- ===== src/Control/NodeService.antt =====
-- Registration, heartbeat and removal of nodes: control-plane/service/node_service.go. A request is
-- one sequence of statements with nothing between them; `up` says which statements the database
-- answers. Log lines are left out, and so are the settings and the STUN servers of a heartbeat's
-- answer, which are read from tables of their own, and the metrics, which no code here reads back.
pub mod Shape
pub mod Linked
pub mod OneRow
pub mod Unique
pub mod Runs
pub mod Devices
pub mod Peers
pub mod Addresses
use Prim.Native.String.{String}
use res.Base.{
  ℕ, Bool, true, false, not, ◌&&◌, Option, none, some, List, [], ◌∷◌, ltb, leb, if◌then◌else◌,
  Result, ok, err, ◌==◌, string_eq,
}
use res.Control.Nodes.{
  Node, NodeStatus, Db, null_string, text_or_empty, find_by_device_id_global, get_by_id,
  count_devices_by_account, delete_other_by_device_id, delete, delete_stale_before,
  update_reregister, create, get_all_online, update_last_seen, update_endpoint, update_lan_ip,
  find_available, assign_ip, release,
}

-- maxDevicesPerAccount
abbrev pub max_devices_per_account : ℕ
max_devices_per_account = 20

-- The statements, by what they are sent for; the last four are those of the HTTP handlers.
pub data Statement : Type 0 where
  find_device count_devices reregister delete_others find_ip create_node assign_address
        list_online :
      Statement
  release_address delete_node touch_node set_endpoint set_lan_ip get_node : Statement
  find_owner set_name set_shared_folder set_sort_order : Statement

-- What a request does not choose: the statements that are answered, NOW(), the identifier that the
-- database makes, which free address it finds, and the size of the mesh network.
pub record Env : Type 0 where
  pub up : Statement → Bool
  pub now : ℕ
  pub fresh_id : String
  pub pick : ℕ
  pub bits : ℕ

pub record Request : Type 0 where
  pub name : String
  pub node_type : String
  pub os : String
  pub public_key : String
  pub device_id : String

pub record Peer : Type 0 where
  pub public_key : String
  pub endpoint : String
  pub internal_ip : Option ℕ
  pub node_type : String

pub record Response : Type 0 where
  pub node_id : String
  pub internal_ip : Option ℕ
  pub peers : List Peer

pub data ServiceError : Type 0 where
  device_already_linked device_limit_reached failed : ServiceError

-- `getPeers`: the loop over the nodes that are online.
unfoldable pub peers_among : String → List Node → List Peer
peers_among exclude [] = []
peers_among exclude (n ∷ ns) =
    let rest = peers_among exclude ns in
    if n.id == exclude
    then rest
    else record {
      public_key = n.public_key;
      endpoint = text_or_empty n.endpoint;
      internal_ip = n.internal_ip;
      node_type = n.node_type;
    }
      ∷ rest

-- `getPeers`, whose callers here go on with no peers where it fails.
unfoldable pub get_peers : Env → String → Db → List Peer
get_peers env exclude db =
    if env.up Statement.list_online then peers_among exclude (get_all_online db) else []

-- A device that is known: its row is rewritten, and other rows with the device go.
unfoldable pub re_register : Env → String → Request → Node → Db → Result ServiceError Response × Db
re_register env account req existing db =
    let node : Node = record existing {
      account_id = account;
      name = req.name;
      public_key = req.public_key;
      os = null_string req.os;
      status = NodeStatus.online;
    } in
    elim (if env.up Statement.reregister then update_reregister env.now node db else err tt) [
      | err e ↦ (err ServiceError.failed, db)
      | ok db1 ↦
          let db2 =
            if env.up Statement.delete_others
            then delete_other_by_device_id req.device_id existing.id db1
            else db1 in
          (
            ok (record {
              node_id = existing.id;
              internal_ip = existing.internal_ip;
              peers = get_peers env existing.id db2;
            }),
            db2,
          )
    ]

-- The row of a node that is new.
unfoldable pub new_node : Env → String → Request → ℕ → Node
new_node env account req ip = record {
  id = env.fresh_id;
  account_id = account;
  name = req.name;
  node_type = req.node_type;
  os = null_string req.os;
  device_id = null_string req.device_id;
  public_key = req.public_key;
  endpoint = none;
  nat_type = none;
  internal_ip = some ip;
  status = NodeStatus.online;
  sort_order = 0;
  shared_folder = none;
  lan_ip = none;
  last_seen = none;
  created_at = env.now;
}

-- The address of the new row is recorded; a failure of that is only logged.
unfoldable pub record_address : Env → ℕ → String → Db → Db
record_address env ip id db =
    elim (if env.up Statement.assign_address then assign_ip ip id db else err tt) [
      | err e ↦ db
      | ok db' ↦ db'
    ]

-- A node that is new: an address, the row, the record of the address.
unfoldable pub register_fresh : Env → String → Request → Db → Result ServiceError Response × Db
register_fresh env account req db =
    elim (if env.up Statement.find_ip then find_available env.bits env.pick db else none) [
      | none ↦ (err ServiceError.failed, db)
      | some ip ↦
          let node = new_node env account req ip in
          elim (if env.up Statement.create_node then create node db else err tt) [
            | err e ↦ (err ServiceError.failed, db)
            | ok db1 ↦
                let db2 = record_address env ip node.id db1 in
                (
                  ok (record {
                    node_id = node.id;
                    internal_ip = node.internal_ip;
                    peers = get_peers env node.id db2;
                  }),
                  db2,
                )
          ]
    ]

-- A device that is not known has to fit the account's limit.
unfoldable pub register_device : Env → String → Request → Db → Result ServiceError Response × Db
register_device env account req db =
    if not (env.up Statement.count_devices)
    then (err ServiceError.failed, db)
    else if leb max_devices_per_account (count_devices_by_account account db)
    then (err ServiceError.device_limit_reached, db)
    else register_fresh env account req db

-- A device that is known, of this account or of another.
unfoldable pub register_known :
    Env → (antifraud : Bool) → String → Request → Node → Db → Result ServiceError Response × Db
register_known env antifraud account req existing db =
    if not (existing.account_id == account) && antifraud
    then (err ServiceError.device_already_linked, db)
    else re_register env account req existing db

-- `RegisterNode`. The error of the look-up is dropped, as in the source.
unfoldable pub register_node :
    Env → (antifraud : Bool) → String → Request → Db → Result ServiceError Response × Db
register_node env antifraud account req db =
    if req.device_id == ""
    then register_fresh env account req db
    else elim (if env.up Statement.find_device
        then find_by_device_id_global req.device_id db
        else none) [
          | some existing ↦ register_known env antifraud account req existing db
          | none ↦ register_device env account req db
        ]

-- `DeregisterNode`
unfoldable pub deregister_node : Env → String → Db → Bool × Db
deregister_node env id db =
    let db1 = if env.up Statement.release_address then release id db else db in
    if env.up Statement.delete_node then (true, delete id db1) else (false, db1)

-- The writes of `ProcessHeartbeat` to the nodes table.
unfoldable pub heartbeat_writes : Env → String → (endpoint lan_ip : String) → Db → Db
heartbeat_writes env id endpoint lan_ip db =
    let db1 = update_last_seen env.now id db in
    let db2 =
      if not (endpoint == "") && env.up Statement.set_endpoint
      then update_endpoint id endpoint "" db1
      else db1 in
    if not (lan_ip == "") && env.up Statement.set_lan_ip then update_lan_ip id lan_ip db2 else db2

-- `BuildHeartbeatResponse`: the peers of the answer.
unfoldable pub build_heartbeat_response : Env → String → Db → Option (List Peer)
build_heartbeat_response env id db =
    elim (if env.up Statement.get_node then get_by_id id db else none) [
      | none ↦ none
      | some node ↦ some (get_peers env id db)
    ]

-- `ProcessHeartbeat`
unfoldable pub process_heartbeat :
    Env → String → (endpoint lan_ip : String) → Db → Option (List Peer) × Db
process_heartbeat env id endpoint lan_ip db =
    let db' = heartbeat_writes env id endpoint lan_ip db in
    if env.up Statement.touch_node then (build_heartbeat_response env id db', db') else (none, db)

-- What changes the tables: the requests, and the deleter of nodes that were offline for too long.
pub data Op : Type 0 where
  register : Env → (antifraud : Bool) → String → Request → Op
  deregister : Env → String → Op
  heartbeat : Env → String → (endpoint lan_ip : String) → Op
  sweep : ℕ → Op

unfoldable pub apply : Op → Db → Db
apply (register env antifraud account req) db = (register_node env antifraud account req db).1
apply (deregister env id) db = (deregister_node env id db).1
apply (heartbeat env id endpoint lan_ip) db = (process_heartbeat env id endpoint lan_ip db).1
apply (sweep cutoff) db = (delete_stale_before cutoff db).0

unfoldable pub run : List Op → Db → Db
run [] db = db
run (op ∷ ops) db = run ops (apply op db)
