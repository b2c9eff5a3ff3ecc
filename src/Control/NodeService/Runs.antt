-- ===== src/Control/NodeService/Runs.antt =====
-- Whatever requests come to control-plane/service/node_service.go, one after the other, with
-- whatever statements failing, the nodes stay distinct.
use Prim.Native.String.{String}
use res.Base.{
  ◌≡◌, ◌<◌, refl, sym, ◌∙◌, ap, subst, ◌⊎◌, inl, inr, Bool, true, false, not, ◌&&◌, some, List, [],
  ◌∷◌, if◌then◌else◌, ok, ◌==◌, string_eq, arith, Bool-cases, Option-cases, Result-cases,
}
use res.Control.Nodes.{
  Node, NodeStatus, Db, null_string, has_id, delete_where, delete, delete_stale_before, is_stale,
  update_last_seen, update_endpoint, update_lan_ip, release, find_by_device_id_global,
  count_devices_by_account,
}
use res.Control.NodeService.Linked.{register-err}
use res.Control.NodeService.OneRow.{register_device-eq-ok, register_known-eq-ok}
use res.Control.NodeService.Unique.{
  IsValid, same-IsValid, filter-IsValid, update-IsValid, rewritten-IsValid, added-IsValid,
}
use res.Control.NodeService.{
  Env, Statement, Request, Response, Op, apply, run, register_node, register_fresh, register_known,
  re_register, deregister_node, heartbeat_writes, process_heartbeat, max_devices_per_account,
}

-- What a registration that succeeds is: a fresh row, or a known one rewritten.
pub register_node-cases :
    (env : Env) (antifraud : Bool) (account : String) (req : Request) (db : Db) (resp : Response)
    → (register_node env antifraud account req db).0 ≡ ok resp
    → ((register_node env antifraud account req db ≡ register_fresh env account req db)
        × (((req.device_id == "") ≡ true)
            ⊎ (count_devices_by_account account db < max_devices_per_account)))
      ⊎ ((existing : Node) × (find_by_device_id_global req.device_id db ≡ some existing)
          × (register_node env antifraud account req db ≡ re_register env account req existing db)
          × (not (existing.account_id == account) && antifraud ≡ false))
unfolding register_node register_known
register_node-cases env antifraud account req db resp h = elim (Bool-cases (req.device_id == "")) [
  | inl no_device ↦ inl (ground (arith, no_device), inl no_device)
  | inr device ↦ elim (Bool-cases (env.up Statement.find_device)) [
    | inl up ↦ elim (Option-cases (find_by_device_id_global req.device_id db)) [
      | inl q ↦ inl (
        ground (arith, h, device, up, q, register_device-eq-ok env account req db resp),
        inr (ground (arith, h, device, up, q, register_device-eq-ok env account req db resp)),
      )
      | inr (n, q) ↦ inr (
        n,
        q,
        ground (arith, h, device, up, q, register_known-eq-ok env antifraud account req n db resp),
        ground (arith, h, device, up, q),
      )
    ]
    | inr down ↦ inl (
      ground (arith, h, device, down, register_device-eq-ok env account req db resp),
      inr (ground (arith, h, device, down, register_device-eq-ok env account req db resp)),
    )
  ]
]

register-IsValid :
    (env : Env) (antifraud : Bool) (account : String) (req : Request) (db : Db)
    → IsValid db
    → IsValid (register_node env antifraud account req db).1
register-IsValid env antifraud account req db v =
    elim (Result-cases (register_node env antifraud account req db).0) [
      | inr (e, h) ↦ subst IsValid (sym (register-err env antifraud account req db e h)) v
      | inl (resp, h) ↦ elim (register_node-cases env antifraud account req db resp h) [
        | inl (q, _) ↦
            subst (λ r. IsValid r.1) (sym q)
              (added-IsValid env account req db resp v (ap (λ r. r.0) (sym q) ∙ h))
        | inr (n, found, q, _) ↦
            subst (λ r. IsValid r.1) (sym q)
              (rewritten-IsValid env account req n db resp v (ap (λ r. r.0) (sym q) ∙ h))
      ]
    ]

delete_where-IsValid : (p : Node → Bool) (db : Db) → IsValid db → IsValid (delete_where p db)
unfolding delete_where
delete_where-IsValid p db v = filter-IsValid (λ n. not (p n)) db (delete_where p db) v refl

deregister-IsValid :
    (env : Env) (id : String) (db : Db) → IsValid db → IsValid (deregister_node env id db).1
unfolding deregister_node delete release
deregister-IsValid env id db v =
    let v1 = same-IsValid db (release id db) v refl in
    elim (Bool-cases (env.up Statement.release_address)) [
      | inl a ↦ elim (Bool-cases (env.up Statement.delete_node)) [
        | inl b ↦ rw (deregister_node, a, b) (delete_where-IsValid (has_id id) (release id db) v1)
        | inr b ↦ rw (deregister_node, a, b) v1
      ]
      | inr a ↦ elim (Bool-cases (env.up Statement.delete_node)) [
        | inl b ↦ rw (deregister_node, a, b) (delete_where-IsValid (has_id id) db v)
        | inr b ↦ rw (deregister_node, a, b) v
      ]
    ]

if_IsValid :
    (b : Bool) (f : Db → Db) (db : Db)
    → ((d : Db) → IsValid d → IsValid (f d))
    → IsValid db
    → IsValid (if b then f db else db)
if_IsValid true f db h v = h db v
if_IsValid false f db h v = v

update_endpoint-IsValid :
    (id endpoint : String) (db : Db) → IsValid db → IsValid (update_endpoint id endpoint "" db)
unfolding update_endpoint
update_endpoint-IsValid id endpoint db v =
    update-IsValid (has_id id) (λ n. record n { endpoint = some endpoint; nat_type = some "" }) db
      (update_endpoint id endpoint "" db) (λ x. refl) (λ x. refl) (λ x. refl) v refl

update_lan_ip-IsValid :
    (id lan_ip : String) (db : Db) → IsValid db → IsValid (update_lan_ip id lan_ip db)
unfolding update_lan_ip
update_lan_ip-IsValid id lan_ip db v =
    update-IsValid (has_id id) (λ n. record n { lan_ip = null_string lan_ip }) db
      (update_lan_ip id lan_ip db) (λ x. refl) (λ x. refl) (λ x. refl) v refl

heartbeat_writes-IsValid :
    (env : Env) (id endpoint lan_ip : String) (db : Db)
    → IsValid db
    → IsValid (heartbeat_writes env id endpoint lan_ip db)
unfolding heartbeat_writes update_last_seen
heartbeat_writes-IsValid env id endpoint lan_ip db v =
    let v1 =
      update-IsValid (has_id id)
        (λ n. record n { last_seen = some env.now; status = NodeStatus.online }) db
        (update_last_seen env.now id db) (λ x. refl) (λ x. refl) (λ x. refl) v refl in
    let v2 =
      if_IsValid (not (endpoint == "") && env.up Statement.set_endpoint)
        (λ d. update_endpoint id endpoint "" d) (update_last_seen env.now id db)
        (update_endpoint-IsValid id endpoint) v1 in
    if_IsValid (not (lan_ip == "") && env.up Statement.set_lan_ip) (update_lan_ip id lan_ip)
      (if not (endpoint == "") && env.up Statement.set_endpoint
        then update_endpoint id endpoint "" (update_last_seen env.now id db)
        else update_last_seen env.now id db)
      (update_lan_ip-IsValid id lan_ip) v2

pub apply-IsValid : (op : Op) (db : Db) → IsValid db → IsValid (apply op db)
unfolding apply process_heartbeat delete_stale_before
apply-IsValid (Op.register env antifraud account req) db v =
    register-IsValid env antifraud account req db v
apply-IsValid (Op.deregister env id) db v = deregister-IsValid env id db v
apply-IsValid (Op.heartbeat env id endpoint lan_ip) db v =
    elim (Bool-cases (env.up Statement.touch_node)) [
      | inl up ↦
          rw (apply, process_heartbeat, up) (heartbeat_writes-IsValid env id endpoint lan_ip db v)
      | inr down ↦ rw (apply, process_heartbeat, down) v
    ]
apply-IsValid (Op.sweep cutoff) db v = delete_where-IsValid (is_stale cutoff) db v

-- In whatever sequence of registrations, in either mode, removals, heartbeats and sweeps, and with
-- whatever statements failing, tables in which no two nodes share an identifier, a key or a mesh
-- address stay so.
pub run-IsValid : (ops : List Op) (db : Db) → IsValid db → IsValid (run ops db)
unfolding run
run-IsValid [] db v = v
run-IsValid (op ∷ ops) db v = run-IsValid ops (apply op db) (apply-IsValid op db v)
