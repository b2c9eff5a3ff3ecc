-- ===== src/Control/NodeService/OneRow.antt =====
-- `RegisterNode` of control-plane/service/node_service.go: at most one row for a device.
use Prim.Native.String.{String}
use res.Base.{
  ◌≡◌, ◌≢◌, refl, sym, ◌∙◌, ap, subst, inl, inr, Bool, true, false, [], ◌∷◌, leb, ok, ==_refl,
  ==_ne, string_eq, arith, filter, Option-cases, map,
}
use res.Control.Nodes.{
  Node, NodeStatus, Db, has_device, has_id, find_by_device_id_global, most_recent,
  count_devices_by_account, update_where, null_string,
}
use res.Control.Nodes.Filters.{
  Nodup, IsIn, same_id, filter-append, filter-filter_kept, filter-update_where, filter_by_id,
  IsIn-filter, most_recent-IsIn, most_recent-none,
}
use res.Control.NodeService.Shape.{register_fresh-eq-ok, re_register-eq-ok, rewritten, is_kept}
use res.Control.NodeService.{
  Env, Statement, Request, Response, register_node, register_fresh, register_device, register_known,
  re_register, max_devices_per_account, new_node,
}

-- The rows of a device are one row, that of the answer, and it is what the request and the account
-- make it.
abbrev pub IsOneRow : String → Request → Response → Db → Type 0
IsOneRow account req resp db =
    (n : Node) × (filter (has_device req.device_id) db.nodes ≡ n ∷ [])
    × (n.id ≡ resp.node_id)
    × (n.account_id ≡ account)
    × (n.public_key ≡ req.public_key)
    × (n.status ≡ NodeStatus.online)
    × (n.internal_ip ≡ resp.internal_ip)

-- A device that no row has gets its row.
register_fresh-IsOneRow :
    (env : Env) (account : String) (req : Request) (db : Db) (resp : Response)
    → req.device_id ≢ ""
    → filter (has_device req.device_id) db.nodes ≡ []
    → (register_fresh env account req db).0 ≡ ok resp
    → IsOneRow account req resp (register_fresh env account req db).1
unfolding new_node null_string
register_fresh-IsOneRow env account req db resp device no_row h =
    let shape = register_fresh-eq-ok env account req db resp h in
    let node = new_node env account req shape.ip in
    (
      node,
      rw (shape.rows, filter-append (has_device req.device_id) db.nodes node, no_row)
          (ground (arith, ==_ne req.device_id "" device, ==_refl req.device_id)),
      sym shape.node_id,
      refl,
      refl,
      refl,
      sym shape.internal_ip,
    )

-- A device that a row has keeps that row, rewritten.
re_register-IsOneRow :
    (env : Env) (account : String) (req : Request) (existing : Node) (db : Db) (resp : Response)
    → env.up Statement.delete_others ≡ true
    → Nodup same_id db.nodes
    → IsIn existing db.nodes
    → has_device req.device_id existing ≡ true
    → (re_register env account req existing db).0 ≡ ok resp
    → IsOneRow account req resp (re_register env account req existing db).1
re_register-IsOneRow env account req existing db resp up u i d h =
    let shape = re_register-eq-ok env account req existing db resp h in
    let f = rewritten env account req in
    let p = has_device req.device_id in
    let r = has_id existing.id in
    (
      f existing,
      ap (filter p) {y = filter (is_kept req existing) (update_where r f db.nodes)}
            (shape.rows ∙ ground (arith, up))
          ∙ filter-filter_kept p r (update_where r f db.nodes)
          ∙ filter-update_where p r f db.nodes (λ x. refl) (λ x. refl)
          ∙ ap (map f) (filter_by_id p existing db.nodes u i d),
      sym shape.node_id,
      refl,
      refl,
      refl,
      sym shape.internal_ip,
    )

pub register_device-eq-ok :
    (env : Env) (account : String) (req : Request) (db : Db) (resp : Response)
    → (register_device env account req db).0 ≡ ok resp
    → (register_device env account req db ≡ register_fresh env account req db)
      × (leb max_devices_per_account (count_devices_by_account account db) ≡ false)
unfolding register_device
register_device-eq-ok env account req db resp h = ground (arith, h)

pub register_known-eq-ok :
    (env : Env) (antifraud : Bool) (account : String) (req : Request) (n : Node) (db : Db)
    (resp : Response)
    → (register_known env antifraud account req n db).0 ≡ ok resp
    → register_known env antifraud account req n db ≡ re_register env account req n db
unfolding register_known
register_known-eq-ok env antifraud account req n db resp h = ground (arith, h)

-- After a registration with a device that succeeds, where the look-up of the device and the sweep
-- of its other rows were answered and no two rows shared an identifier, the device has exactly one
-- row, in either mode: it is the one that the answer names, with the answer's address, and it holds
-- the account, the new key and the status online.
pub register-IsOneRow :
    (env : Env) (antifraud : Bool) (account : String) (req : Request) (db : Db) (resp : Response)
    → req.device_id ≢ ""
    → env.up Statement.find_device ≡ true
    → env.up Statement.delete_others ≡ true
    → Nodup same_id db.nodes
    → (register_node env antifraud account req db).0 ≡ ok resp
    → IsOneRow account req resp (register_node env antifraud account req db).1
unfolding register_node find_by_device_id_global
register-IsOneRow env antifraud account req db resp device found swept u h =
    elim (Option-cases (most_recent (filter (has_device req.device_id) db.nodes))) [
      | inl q ↦
          let known : register_node env antifraud account req db
              ≡ register_device env account req db =
            ground (arith, ==_ne req.device_id "" device, found, q) in
          let h' = ap (λ r. r.0) (sym known) ∙ h in
          let (fresh, _) = register_device-eq-ok env account req db resp h' in
          subst (λ r. IsOneRow account req resp r.1) (sym (known ∙ fresh))
            (register_fresh-IsOneRow env account req db resp device
              (most_recent-none (filter (has_device req.device_id) db.nodes) q)
              (ap (λ r. r.0) (sym fresh) ∙ h'))
      | inr (n, q) ↦
          let known : register_node env antifraud account req db
              ≡ register_known env antifraud account req n db =
            ground (arith, ==_ne req.device_id "" device, found, q) in
          let h' = ap (λ r. r.0) (sym known) ∙ h in
          let again = register_known-eq-ok env antifraud account req n db resp h' in
          let (i, d) =
            IsIn-filter (has_device req.device_id) n db.nodes
              (most_recent-IsIn (filter (has_device req.device_id) db.nodes) n q) in
          subst (λ r. IsOneRow account req resp r.1) (sym (known ∙ again))
            (re_register-IsOneRow env account req n db resp swept u i d
              (ap (λ r. r.0) (sym again) ∙ h'))
    ]
