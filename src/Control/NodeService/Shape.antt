-- ===== src/Control/NodeService/Shape.antt =====
-- What a registration of control-plane/service/node_service.go that succeeds has done to the rows.
use Prim.Native.String.{String}
use res.Base.{
  ℕ, ◌≡◌, refl, ◌∙◌, inl, inr, Bool, false, not, ◌&&◌, none, some, [], ◌∷◌, ◌++◌, if◌then◌else◌, ok,
  err, string_eq, arith, filter, Option-cases, Result-cases, Bool-cases,
}
use res.Control.Nodes.{
  Node, NodeStatus, Db, any, has_id, has_key, has_device, find_available, create, update_reregister,
  delete_other_by_device_id, delete_where, update_where, null_string, assign_ip,
}
use res.Control.NodeService.{
  Env, Statement, Request, Response, register_fresh, re_register, new_node, record_address,
}

pub record_address-nodes :
    (env : Env) (ip : ℕ) (id : String) (db : Db) → (record_address env ip id db).nodes ≡ db.nodes
unfolding record_address assign_ip
record_address-nodes env ip id db = ground arith

-- A new row: its address was free, its identifier and its key were not there.
pub record IsAdded (env : Env) (account : String) (req : Request) (db : Db) (resp : Response)
    (db' : Db) : Type 0 where
  pub ip : ℕ
  pub found : find_available env.bits env.pick db ≡ some ip
  pub rows : db'.nodes ≡ db.nodes ++ new_node env account req ip ∷ []
  pub new_id : any (has_id env.fresh_id) db.nodes ≡ false
  pub new_key : any (has_key req.public_key) db.nodes ≡ false
  pub node_id : resp.node_id ≡ env.fresh_id
  pub internal_ip : resp.internal_ip ≡ some ip

create-eq-ok :
    (env : Env) (account : String) (req : Request) (ip : ℕ) (db db1 : Db)
    → create (new_node env account req ip) db ≡ ok db1
    → (db1.nodes ≡ db.nodes ++ new_node env account req ip ∷ [])
      × (any (has_id env.fresh_id) db.nodes ≡ false)
      × (any (has_key req.public_key) db.nodes ≡ false)
unfolding create new_node
create-eq-ok env account req ip db db1 h = ground (arith, h)

pub register_fresh-eq-ok :
    (env : Env) (account : String) (req : Request) (db : Db) (resp : Response)
    → (register_fresh env account req db).0 ≡ ok resp
    → IsAdded env account req db resp (register_fresh env account req db).1
unfolding register_fresh new_node
register_fresh-eq-ok env account req db resp h =
    elim (Option-cases
      (if env.up Statement.find_ip then find_available env.bits env.pick db else none)) [
        | inl none_free ↦ absurd (ground (arith, h, none_free))
        | inr (ip, found) ↦
            let node = new_node env account req ip in
            elim (Result-cases (if env.up Statement.create_node then create node db else err tt)) [
              | inl (db1, made) ↦
                  let (rows, new_id, new_key) =
                    create-eq-ok env account req ip db db1 (ground (arith, made)) in
                  record {
                    ip = ip;
                    found = ground (arith, found);
                    rows =
                        rw (register_fresh, found, made)
                          (record_address-nodes env ip node.id db1 ∙ rows);
                    new_id = new_id;
                    new_key = new_key;
                    node_id = ground (arith, h, found, made);
                    internal_ip = ground (arith, h, found, made);
                  }
              | inr (e, refused) ↦ absurd (ground (arith, h, found, refused))
            ]
      ]

-- What a registration writes into the row of a device that is known.
abbrev pub rewritten : Env → String → Request → Node → Node
rewritten env account req n = record n {
  account_id = account;
  name = req.name;
  public_key = req.public_key;
  os = null_string req.os;
  status = NodeStatus.online;
  last_seen = some env.now;
}

-- The rows that `DeleteOtherByDeviceID` leaves.
abbrev pub is_kept : Request → Node → Node → Bool
is_kept req existing n = not (has_device req.device_id n && not (has_id existing.id n))

-- A row that is rewritten: the key was no other row's.
pub record IsRewritten (env : Env) (account : String) (req : Request) (existing : Node) (db : Db)
    (resp : Response) (db' : Db) : Type 0 where
  pub rows : db'.nodes ≡ (
      if env.up Statement.delete_others
      then filter
          (is_kept req existing)
          (update_where (has_id existing.id) (rewritten env account req) db.nodes)
      else update_where (has_id existing.id) (rewritten env account req) db.nodes)
  pub new_key : any (λ n. has_key req.public_key n && not (has_id existing.id n)) db.nodes ≡ false
  pub node_id : resp.node_id ≡ existing.id
  pub internal_ip : resp.internal_ip ≡ existing.internal_ip

pub re_register-eq-ok :
    (env : Env) (account : String) (req : Request) (existing : Node) (db : Db) (resp : Response)
    → (re_register env account req existing db).0 ≡ ok resp
    → IsRewritten env account req existing db resp (re_register env account req existing db).1
unfolding re_register update_reregister delete_other_by_device_id delete_where
re_register-eq-ok env account req existing db resp h =
    elim (Bool-cases (env.up Statement.reregister)) [
      | inl up ↦
          elim (Bool-cases
            (any (λ n. has_key req.public_key n && not (has_id existing.id n)) db.nodes)) [
              | inl taken ↦ absurd (ground (arith, h, up, taken))
              | inr new ↦ record {
                rows = elim (Bool-cases (env.up Statement.delete_others)) [
                  | inl sweeps ↦ rw (up, re_register, update_reregister, new, sweeps) refl
                  | inr fails ↦ rw (up, re_register, update_reregister, new, fails) refl
                ];
                new_key = new;
                node_id = ground (arith, h, up, new);
                internal_ip = ground (arith, h, up, new);
              }
            ]
      | inr down ↦ absurd (ground (arith, h, down))
    ]
