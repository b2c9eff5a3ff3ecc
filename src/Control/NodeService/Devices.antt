-- ===== src/Control/NodeService/Devices.antt =====
-- The limit of devices for an account, maxDevicesPerAccount of
-- control-plane/service/node_service.go, with the fraud check on.
use Prim.Native.String.{String}
use res.Base.{
  ◌≤◌, ◌<◌, ◌≡◌, refl, sym, ◌∙◌, ap, subst, inl, inr, ◌⊎◌, Bool, true, false, not, ◌&&◌, some, List,
  [], ◌∷◌, if◌then◌else◌, ok, ◌==◌, ==_iff, string_eq, arith, filter, All, Bool-cases, Result-cases,
  length-append,
}
use res.Control.Nodes.{
  Node, NodeStatus, Db, has_id, has_device, update_where, is_device_of, count_devices_by_account,
  delete_where, delete, delete_stale_before, is_stale, update_last_seen, update_endpoint,
  update_lan_ip, release, find_by_device_id_global, null_string,
}
use res.Control.Nodes.Filters.{IsIn, filter-append, IsIn-filter, most_recent-IsIn}
use res.Control.Nodes.Counting.{
  length-filter-filter, length-filter_update, length-filter_update_one,
}
use res.Control.NodeService.Shape.{register_fresh-eq-ok, re_register-eq-ok, rewritten, is_kept}
use res.Control.NodeService.Linked.{register-err}
use res.Control.NodeService.Unique.{IsValid}
use res.Control.NodeService.Runs.{register_node-cases, apply-IsValid}
use res.Control.NodeService.{
  Env, Statement, Request, Response, Op, apply, run, new_node, register_node, register_fresh,
  re_register, deregister_node, heartbeat_writes, process_heartbeat, max_devices_per_account,
}

unfoldable pub IsCapped : Db → Type 0
IsCapped db = (account : String) → count_devices_by_account account db ≤ max_devices_per_account

-- A registration with the fraud check on.
unfoldable pub IsGuarded : Op → Type 0
IsGuarded (Op.register env antifraud account req) = antifraud ≡ true
IsGuarded (Op.deregister env id) = Unit
IsGuarded (Op.heartbeat env id endpoint lan_ip) = Unit
IsGuarded (Op.sweep cutoff) = Unit

added-IsCapped :
    (env : Env) (account : String) (req : Request) (db : Db) (resp : Response)
    → IsCapped db
    → ((req.device_id == "") ≡ true)
      ⊎ (count_devices_by_account account db < max_devices_per_account)
    → (register_fresh env account req db).0 ≡ ok resp
    → IsCapped (register_fresh env account req db).1
unfolding IsCapped count_devices_by_account new_node null_string
added-IsCapped env account req db resp c room h a =
    let shape = register_fresh-eq-ok env account req db resp h in
    let node = new_node env account req shape.ip in
    rw
      (
        shape.rows,
        filter-append (is_device_of a) db.nodes node,
        length-append (filter (is_device_of a) db.nodes) (filter (is_device_of a) (node ∷ [])),
      )
      (elim room [
        | inl no_device ↦ ground (arith, no_device, c a)
        | inr below ↦ ground (arith, below, c a, ==_iff account a)
      ])

rewritten-IsCapped :
    (env : Env) (account : String) (req : Request) (existing : Node) (db : Db) (resp : Response)
    → IsCapped db
    → IsValid db
    → IsIn existing db.nodes
    → existing.account_id ≡ account
    → (re_register env account req existing db).0 ≡ ok resp
    → IsCapped (re_register env account req existing db).1
unfolding IsCapped count_devices_by_account
rewritten-IsCapped env account req existing db resp c v i same h a =
    let shape = re_register-eq-ok env account req existing db resp h in
    let p = is_device_of a in
    let rows = update_where (has_id existing.id) (rewritten env account req) db.nodes in
    let one =
      length-filter_update_one p (rewritten env account req) existing db.nodes v.ids i
        (rw same refl) in
    elim (Bool-cases (env.up Statement.delete_others)) [
      | inl up ↦
          rw (shape.rows, up)
            (ground (arith, c a, one, length-filter-filter p (is_kept req existing) rows))
      | inr down ↦ rw (shape.rows, down) (ground (arith, c a, one))
    ]

register-IsCapped :
    (env : Env) (account : String) (req : Request) (db : Db)
    → IsCapped db
    → IsValid db
    → IsCapped (register_node env true account req db).1
unfolding find_by_device_id_global
register-IsCapped env account req db c v =
    elim (Result-cases (register_node env true account req db).0) [
      | inr (e, h) ↦ subst IsCapped (sym (register-err env true account req db e h)) c
      | inl (resp, h) ↦ elim (register_node-cases env true account req db resp h) [
        | inl (q, room) ↦
            subst (λ r. IsCapped r.1) (sym q)
              (added-IsCapped env account req db resp c room (ap (λ r. r.0) (sym q) ∙ h))
        | inr (n, found, q, same) ↦
            let (i, _) =
              IsIn-filter (has_device req.device_id) n db.nodes
                (most_recent-IsIn (filter (has_device req.device_id) db.nodes) n found) in
            subst (λ r. IsCapped r.1) (sym q)
              (rewritten-IsCapped env account req n db resp c v i
                (ground (arith, same, ==_iff n.account_id account)) (ap (λ r. r.0) (sym q) ∙ h))
      ]
    ]

-- Fewer rows, or the same rows with another address, status or time.
delete_where-IsCapped : (p : Node → Bool) (db : Db) → IsCapped db → IsCapped (delete_where p db)
unfolding IsCapped delete_where count_devices_by_account
delete_where-IsCapped p db c a =
    ground (arith, c a, length-filter-filter (is_device_of a) (λ n. not (p n)) db.nodes)

if_IsCapped : (b : Bool) (d e : Db) → IsCapped d → IsCapped e → IsCapped (if b then d else e)
if_IsCapped true d e c c' = c
if_IsCapped false d e c c' = c'

release-IsCapped : (id : String) (db : Db) → IsCapped db → IsCapped (release id db)
unfolding release IsCapped count_devices_by_account
release-IsCapped id db c = c

deregister-IsCapped :
    (env : Env) (id : String) (db : Db) → IsCapped db → IsCapped (deregister_node env id db).1
unfolding deregister_node delete
deregister-IsCapped env id db c =
    let db1 = if env.up Statement.release_address then release id db else db in
    let c1 =
      if_IsCapped (env.up Statement.release_address) (release id db) db (release-IsCapped id db c)
        c in
    elim (Bool-cases (env.up Statement.delete_node)) [
      | inl up ↦ rw (deregister_node, up) (delete_where-IsCapped (has_id id) db1 c1)
      | inr down ↦ rw (deregister_node, down) c1
    ]

update-IsCapped :
    (q : Node → Bool) (f : Node → Node) (db db' : Db)
    → ((x : Node) (a : String) → is_device_of a (f x) ≡ is_device_of a x)
    → IsCapped db
    → db'.nodes ≡ update_where q f db.nodes
    → IsCapped db'
unfolding IsCapped count_devices_by_account
update-IsCapped q f db db' keeps c e a =
    rw e (ground (arith, c a, length-filter_update (is_device_of a) q f db.nodes (λ x. keeps x a)))

heartbeat-IsCapped :
    (env : Env) (id endpoint lan_ip : String) (db : Db)
    → IsCapped db
    → IsCapped (heartbeat_writes env id endpoint lan_ip db)
unfolding heartbeat_writes update_last_seen update_endpoint update_lan_ip
heartbeat-IsCapped env id endpoint lan_ip db c =
    let db1 = update_last_seen env.now id db in
    let c1 =
      update-IsCapped (has_id id)
        (λ n. record n { last_seen = some env.now; status = NodeStatus.online }) db db1
        (λ x a. refl) c refl in
    let db2 =
      if not (endpoint == "") && env.up Statement.set_endpoint
      then update_endpoint id endpoint "" db1
      else db1 in
    let c2 =
      if_IsCapped (not (endpoint == "") && env.up Statement.set_endpoint)
        (update_endpoint id endpoint "" db1) db1
        (update-IsCapped (has_id id)
          (λ n. record n { endpoint = some endpoint; nat_type = some "" }) db1
          (update_endpoint id endpoint "" db1) (λ x a. refl) c1 refl)
        c1 in
    if_IsCapped (not (lan_ip == "") && env.up Statement.set_lan_ip) (update_lan_ip id lan_ip db2)
      db2
      (update-IsCapped (has_id id) (λ n. record n { lan_ip = null_string lan_ip }) db2
        (update_lan_ip id lan_ip db2) (λ x a. refl) c2 refl)
      c2

apply-IsCapped :
    (op : Op) (db : Db) → IsGuarded op → IsCapped db → IsValid db → IsCapped (apply op db)
unfolding apply process_heartbeat delete_stale_before IsGuarded
apply-IsCapped (Op.register env antifraud account req) db g c v =
    subst (λ b. IsCapped (register_node env b account req db).1) (sym g)
      (register-IsCapped env account req db c v)
apply-IsCapped (Op.deregister env id) db g c v = deregister-IsCapped env id db c
apply-IsCapped (Op.heartbeat env id endpoint lan_ip) db g c v =
    elim (Bool-cases (env.up Statement.touch_node)) [
      | inl up ↦ rw (apply, process_heartbeat, up) (heartbeat-IsCapped env id endpoint lan_ip db c)
      | inr down ↦ rw (apply, process_heartbeat, down) c
    ]
apply-IsCapped (Op.sweep cutoff) db g c v = delete_where-IsCapped (is_stale cutoff) db c

-- With the fraud check on in every registration, and whatever statements fail, no account ever has
-- more than 20 devices, if none had at the start and the nodes were distinct.
pub run-IsCapped :
    (ops : List Op) (db : Db) → All IsGuarded ops → IsCapped db → IsValid db → IsCapped (run ops db)
unfolding run
run-IsCapped [] db g c v = c
run-IsCapped (op ∷ ops) db g c v =
    run-IsCapped ops (apply op db) g.1 (apply-IsCapped op db g.0 c v) (apply-IsValid op db v)
