-- ===== src/Control/NodeService/Linked.antt =====
-- `RegisterNode` of control-plane/service/node_service.go where it refuses a device.
use Prim.Native.String.{String}
use res.Base.{
  ◌≡◌, ◌≢◌, ◌↔◌, inl, inr, Bool, true, some, err, ◌==◌, ==_iff, ==_ne, string_eq, arith, Bool-cases,
  Option-cases,
}
use res.Control.Nodes.{Node, Db, find_by_device_id_global}
use res.Control.NodeService.{
  Env, Statement, Request, ServiceError, register_node, register_fresh, register_device,
  register_known, re_register,
}

-- A failed step leaves the tables as they were.
re_register-err :
    (env : Env) (account : String) (req : Request) (existing : Node) (db : Db) (e : ServiceError)
    → (re_register env account req existing db).0 ≡ err e
    → ((re_register env account req existing db).1 ≡ db) × (e ≡ ServiceError.failed)
unfolding re_register
re_register-err env account req existing db e h = ground (arith, h)

register_fresh-err :
    (env : Env) (account : String) (req : Request) (db : Db) (e : ServiceError)
    → (register_fresh env account req db).0 ≡ err e
    → ((register_fresh env account req db).1 ≡ db) × (e ≡ ServiceError.failed)
unfolding register_fresh
register_fresh-err env account req db e h = ground (arith, h)

register_device-err :
    (env : Env) (account : String) (req : Request) (db : Db) (e : ServiceError)
    → (register_device env account req db).0 ≡ err e
    → ((register_device env account req db).1 ≡ db) × (e ≢ ServiceError.device_already_linked)
unfolding register_device
register_device-err env account req db e h =
    ground (arith, h, register_fresh-err env account req db e)

-- A registration that fails, for whatever reason, leaves the nodes and the addresses as they were.
pub register-err :
    (env : Env) (antifraud : Bool) (account : String) (req : Request) (db : Db) (e : ServiceError)
    → (register_node env antifraud account req db).0 ≡ err e
    → (register_node env antifraud account req db).1 ≡ db
unfolding register_node register_known
register-err env antifraud account req db e h = elim (Bool-cases (req.device_id == "")) [
  | inl no_device ↦ ground (arith, h, no_device, register_fresh-err env account req db e)
  | inr device ↦ elim (Bool-cases (env.up Statement.find_device)) [
    | inl up ↦ elim (Option-cases (find_by_device_id_global req.device_id db)) [
      | inl q ↦ ground (arith, h, device, up, q, register_device-err env account req db e)
      | inr (n, q) ↦ ground (arith, h, device, up, q, re_register-err env account req n db e)
    ]
    | inr down ↦ ground (arith, h, device, down, register_device-err env account req db e)
  ]
]

-- The fraud check is on, the request names a device, the look-up is answered, and the row that it
-- finds for the device is another account's.
abbrev pub IsOthers : Env → Bool → String → Request → Db → Type 0
IsOthers env antifraud account req db =
    (antifraud ≡ true)
    × (req.device_id ≢ "")
    × (env.up Statement.find_device ≡ true)
    × ((owner : Node) × (find_by_device_id_global req.device_id db ≡ some owner)
        × (owner.account_id ≢ account))

already_linked-IsOthers :
    (env : Env) (antifraud : Bool) (account : String) (req : Request) (db : Db)
    → (register_node env antifraud account req db).0 ≡ err ServiceError.device_already_linked
    → IsOthers env antifraud account req db
unfolding register_node register_known
already_linked-IsOthers env antifraud account req db h = elim (Bool-cases (req.device_id == "")) [
  | inl no_device ↦ absurd (
      ground (
        arith,
        h,
        no_device,
        register_fresh-err env account req db ServiceError.device_already_linked,
      ))
  | inr device ↦ elim (Bool-cases (env.up Statement.find_device)) [
    | inl up ↦ elim (Option-cases (find_by_device_id_global req.device_id db)) [
      | inl q ↦ absurd (
          ground (
            arith,
            h,
            device,
            up,
            q,
            register_device-err env account req db ServiceError.device_already_linked,
          ))
      | inr (n, q) ↦ (
        ground (
          arith,
          h,
          device,
          up,
          q,
          re_register-err env account req n db ServiceError.device_already_linked,
        ),
        ground (arith, device, ==_iff req.device_id ""),
        up,
        (
          n,
          q,
          ground (
            arith,
            h,
            device,
            up,
            q,
            ==_iff n.account_id account,
            re_register-err env account req n db ServiceError.device_already_linked,
          ),
        ),
      )
    ]
    | inr down ↦ absurd (
        ground (
          arith,
          h,
          device,
          down,
          register_device-err env account req db ServiceError.device_already_linked,
        ))
  ]
]

IsOthers-already_linked :
    (env : Env) (antifraud : Bool) (account : String) (req : Request) (db : Db)
    → IsOthers env antifraud account req db
    → (register_node env antifraud account req db).0 ≡ err ServiceError.device_already_linked
unfolding register_node register_known
IsOthers-already_linked env antifraud account req db (on, device, up, (owner, q, other)) =
    ground (arith, on, ==_ne req.device_id "" device, up, q, ==_ne owner.account_id account other)

-- A registration is refused as linked to another account exactly if the fraud check is on, it names
-- a device, the look-up is answered, and the row that it finds for the device is another account's.
pub already_linked_iff :
    (env : Env) (antifraud : Bool) (account : String) (req : Request) (db : Db)
    → ((register_node env antifraud account req db).0 ≡ err ServiceError.device_already_linked)
      ↔ IsOthers env antifraud account req db
already_linked_iff env antifraud account req db = (
  already_linked-IsOthers env antifraud account req db,
  IsOthers-already_linked env antifraud account req db,
)
