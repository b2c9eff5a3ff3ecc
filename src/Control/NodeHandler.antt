-- ===== src/Control/NodeHandler.antt =====
-- The HTTP handlers of nodes: control-plane/handler/node.go, after routing and authentication. The
-- account is that of the verified token, empty where there is none; a body is `none` where JSON
-- does not decode it. The answer to a heartbeat is the one that does not wait.
pub mod Owner
pub mod Foreign
pub mod Wait
use Prim.Native.String.{String}
use res.Base.{
  ℕ, suc, Bool, true, false, not, ◌&&◌, ◌||◌, Option, none, some, List, [], ◌∷◌, if◌then◌else◌,
  Result, ok, err, ◌==◌, string_eq,
}
use res.Control.Nodes.{Node, Db, get_by_id, update_name, update_shared_folder, update_sort_order}
use res.Control.NodeService.{
  Env, Statement, Request, Response, ServiceError, Peer, register_node, deregister_node,
  process_heartbeat,
}

-- An answer: an error with its status, or a success with its status and body.
pub data Answer (A : Type 0) : Type 0 where
  write_error : (status : ℕ) → (message : String) → Answer A
  write_json : (status : ℕ) → A → Answer A
  write_header : (status : ℕ) → Answer A

-- The answer for what `RegisterNode` returned.
unfoldable pub register_answer : Result ServiceError Response → Answer Response
register_answer (ok resp) = write_json 201 resp
register_answer (err ServiceError.device_already_linked) =
    write_error 409 "this device is already linked to another account"
register_answer (err ServiceError.device_limit_reached) =
    write_error 409 "device limit reached (max 20 per account)"
register_answer (err ServiceError.failed) = write_error 500 "failed to register node"

-- `Register`
unfoldable pub register :
    Env → (antifraud : Bool) → String → Option Request → Db → Answer Response × Db
register env antifraud account none db =
    if account == ""
    then (write_error 401 "unauthorized", db)
    else (write_error 400 "invalid request body", db)
register env antifraud account (some req) db =
    if account == ""
    then (write_error 401 "unauthorized", db)
    else if (req.name == "") || (req.public_key == "") || (req.node_type == "")
    then (write_error 400 "name, node_type, and public_key are required", db)
    else let r = register_node env antifraud account req db in (register_answer r.0, r.1)

-- The guard that `Update`, `Delete` and `Heartbeat` share: the node is there, and the caller's.
unfoldable pub owned : Env → String → String → Db → Result (ℕ × String) Node
owned env account id db =
    if id == ""
    then err (400, "node id required")
    else elim (if env.up Statement.find_owner then get_by_id id db else none) [
      | none ↦ err (404, "node not found")
      | some node ↦ if node.account_id == account then ok node else err (403, "forbidden")
    ]

-- `Update` once the guard has passed: the name, then the folder, each only if it is given.
unfoldable pub write_update : Env → String → (name shared_folder : String) → Db → Answer Unit × Db
write_update env id name shared_folder db =
    if not (name == "") && not (env.up Statement.set_name)
    then (write_error 500 "failed to update node", db)
    else let db1 = if name == "" then db else update_name id name db in
      if shared_folder == ""
      then (write_header 204, db1)
      else if env.up Statement.set_shared_folder
      then (write_header 204, update_shared_folder id shared_folder db1)
      else (write_error 500 "failed to update node", db1)

-- `Update`; the body is the name and the folder.
unfoldable pub update : Env → String → String → Option (String × String) → Db → Answer Unit × Db
update env account id body db = elim (owned env account id db) [
  | err e ↦ (write_error e.0 e.1, db)
  | ok node ↦ elim body [
    | none ↦ (write_error 400 "invalid request body", db)
    | some fields ↦ write_update env id fields.0 fields.1 db
  ]
]

-- One turn of the loop of `Reorder`: a node that is missing or not the caller's is passed over.
unfoldable pub place : Env → String → String → ℕ → Db → Db
place env account id i db = elim (if env.up Statement.find_owner then get_by_id id db else none) [
  | none ↦ db
  | some node ↦
      if (node.account_id == account) && env.up Statement.set_sort_order
      then update_sort_order id i db
      else db
]

unfoldable pub place_all : Env → String → List String → ℕ → Db → Db
place_all env account [] i db = db
place_all env account (id ∷ ids) i db =
    place_all env account ids (suc i) (place env account id i db)

-- `Reorder`
unfoldable pub reorder : Env → String → Option (List String) → Db → Answer Unit × Db
reorder env account none db =
    if account == ""
    then (write_error 401 "unauthorized", db)
    else (write_error 400 "invalid request body", db)
reorder env account (some ids) db =
    if account == ""
    then (write_error 401 "unauthorized", db)
    else (write_header 204, place_all env account ids 0 db)

-- `Delete`
unfoldable pub delete : Env → String → String → Db → Answer Unit × Db
delete env account id db = elim (owned env account id db) [
  | err e ↦ (write_error e.0 e.1, db)
  | ok node ↦
      let r = deregister_node env id db in
      (if r.0 then write_header 204 else write_error 500 "failed to delete node", r.1)
]

unfoldable pub heartbeat_answer : Option (List Peer) → Answer (List Peer)
heartbeat_answer none = write_error 500 "failed to process heartbeat"
heartbeat_answer (some peers) = write_json 200 peers

-- `Heartbeat`; the body is the endpoint and the LAN address. The identifier of the body gives way to
-- that of the path.
unfoldable pub heartbeat :
    Env → String → String → Option (String × String) → Db → Answer (List Peer) × Db
heartbeat env account id body db = elim (owned env account id db) [
  | err e ↦ (write_error e.0 e.1, db)
  | ok node ↦ elim body [
    | none ↦ (write_error 400 "invalid request body", db)
    | some fields ↦
        let r = process_heartbeat env id fields.0 fields.1 db in (heartbeat_answer r.0, r.1)
  ]
]

-- A request on a node by an account.
pub data Call : Type 0 where
  updates : String → Option (String × String) → Call
  reorders : Option (List String) → Call
  deletes : String → Call
  beats : String → Option (String × String) → Call

unfoldable pub serve : Env → String → Call → Db → Db
serve env account (updates id body) db = (update env account id body db).1
serve env account (reorders body) db = (reorder env account body db).1
serve env account (deletes id) db = (delete env account id db).1
serve env account (beats id body) db = (heartbeat env account id body db).1
