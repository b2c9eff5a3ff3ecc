-- ===== src/Control/NodeHandler/Foreign.antt =====
-- What the handlers of control-plane/handler/node.go do to the nodes of other accounts: nothing.
use Prim.Native.String.{String}
use res.Base.{
  ℕ, suc, ◌≡◌, refl, ◌∙◌, inl, inr, Bool, true, false, not, ◌&&◌, none, some, List, [], ◌∷◌,
  if◌then◌else◌, ◌==◌, string_eq, arith, Bool-cases, Option-cases, Result-cases,
}
use res.Control.Nodes.{
  Node, NodeStatus, Db, find, has_id, get_by_id, update_where, update_name, update_shared_folder,
  update_sort_order, delete_where, null_string, update_last_seen, update_endpoint, update_lan_ip,
  release,
}
use res.Control.Nodes.{delete as delete_node}
use res.Control.Nodes.Filters.{Nodup, same_id, Nodup-update_where}
use res.Control.NodeService.{Env, Statement, deregister_node, process_heartbeat, heartbeat_writes}
use res.Control.NodeHandler.{
  Call, serve, owned, update, write_update, place, place_all, reorder, delete, heartbeat,
}
use res.Control.NodeHandler.Owner.{
  others, IsOwn, others-update, Own-update, others-delete, owned-IsOwn, Own-find,
}

-- A step of a request on one node that is the account's: it stays the account's, and the nodes of
-- others stay.
record IsKept (account id : String) (db db' : Db) : Type 0 where
  own : IsOwn account id db'
  same : others account db' ≡ others account db

update-IsKept :
    (account id : String) (f : Node → Node) (db db' : Db)
    → ((n : Node) → (f n).account_id ≡ n.account_id)
    → ((n : Node) → (f n).id ≡ n.id)
    → db'.nodes ≡ update_where (has_id id) f db.nodes
    → IsOwn account id db
    → IsKept account id db db'
update-IsKept account id f db db' fa fi e own = record {
  own = rw e (Own-update account id f db.nodes fa fi own);
  same = rw e (others-update account id f db.nodes fa own);
}

if_IsKept :
    (account id : String) (b : Bool) (f : Db → Db) (db db0 : Db)
    → ((d : Db) → IsOwn account id d → IsKept account id d (f d))
    → IsKept account id db0 db
    → IsKept account id db0 (if b then f db else db)
if_IsKept account id true f db db0 h k =
    let k' = h db k.own in record { own = k'.own; same = k'.same ∙ k.same }
if_IsKept account id false f db db0 h k = k

unless_IsKept :
    (account id : String) (b : Bool) (db db' : Db)
    → IsOwn account id db
    → IsKept account id db db'
    → IsKept account id db (if b then db else db')
unless_IsKept account id true db db' own k = record { own = own; same = refl }
unless_IsKept account id false db db' own k = k

write_update-IsKept :
    (env : Env) (account id name folder : String) (db : Db)
    → IsOwn account id db
    → IsKept account id db (write_update env id name folder db).1
unfolding write_update update_name update_shared_folder
write_update-IsKept env account id name folder db own =
    let db1 = if name == "" then db else update_name id name db in
    let k1 = unless_IsKept account id (name == "") db (update_name id name db) own (
      update-IsKept account id (λ n. record n { name = name }) db (update_name id name db)
        (λ n. refl) (λ n. refl) refl own) in
    let k2 =
      update-IsKept account id (λ n. record n { shared_folder = null_string folder }) db1
        (update_shared_folder id folder db1) (λ n. refl) (λ n. refl) refl k1.own in
    elim (Bool-cases (not (name == "") && not (env.up Statement.set_name))) [
      | inl fails ↦ rw (write_update, fails) (record { own = own; same = refl })
      | inr sets ↦ elim (Bool-cases (folder == "")) [
        | inl no_folder ↦ rw (write_update, sets, no_folder) k1
        | inr folder_given ↦ elim (Bool-cases (env.up Statement.set_shared_folder)) [
          | inl up ↦
              rw (write_update, sets, folder_given, up)
                (record { own = k2.own; same = k2.same ∙ k1.same })
          | inr down ↦ rw (write_update, sets, folder_given, down) k1
        ]
      ]
    ]

heartbeat_writes-IsKept :
    (env : Env) (account id endpoint lan_ip : String) (db : Db)
    → IsOwn account id db
    → IsKept account id db (heartbeat_writes env id endpoint lan_ip db)
unfolding heartbeat_writes update_last_seen update_endpoint update_lan_ip
heartbeat_writes-IsKept env account id endpoint lan_ip db own =
    let k1 =
      update-IsKept account id
        (λ n. record n { last_seen = some env.now; status = NodeStatus.online }) db
        (update_last_seen env.now id db) (λ n. refl) (λ n. refl) refl own in
    let db2 =
      if not (endpoint == "") && env.up Statement.set_endpoint
      then update_endpoint id endpoint "" (update_last_seen env.now id db)
      else update_last_seen env.now id db in
    let k2 =
      if_IsKept account id (not (endpoint == "") && env.up Statement.set_endpoint)
        (λ d. update_endpoint id endpoint "" d) (update_last_seen env.now id db) db
        (λ d o.
          update-IsKept account id (λ n. record n { endpoint = some endpoint; nat_type = some "" })
            d (update_endpoint id endpoint "" d) (λ n. refl) (λ n. refl) refl o)
        k1 in
    if_IsKept account id (not (lan_ip == "") && env.up Statement.set_lan_ip)
      (update_lan_ip id lan_ip) db2 db
      (λ d o.
        update-IsKept account id (λ n. record n { lan_ip = null_string lan_ip }) d
          (update_lan_ip id lan_ip d) (λ n. refl) (λ n. refl) refl o)
      k2

deregister-others :
    (env : Env) (account id : String) (db : Db)
    → IsOwn account id db
    → others account (deregister_node env id db).1 ≡ others account db
unfolding deregister_node delete_node delete_where release
deregister-others env account id db own = elim (Bool-cases (env.up Statement.delete_node)) [
  | inl b ↦ elim (Bool-cases (env.up Statement.release_address)) [
    | inl a ↦ rw (deregister_node, b, a) (others-delete account id db.nodes own)
    | inr a ↦ rw (deregister_node, b, a) (others-delete account id db.nodes own)
  ]
  | inr b ↦ elim (Bool-cases (env.up Statement.release_address)) [
    | inl a ↦ rw (deregister_node, b, a) refl
    | inr a ↦ rw (deregister_node, b, a) refl
  ]
]

place-others :
    (env : Env) (account id : String) (i : ℕ) (db : Db)
    → Nodup same_id db.nodes
    → (others account (place env account id i db) ≡ others account db)
      × Nodup same_id (place env account id i db).nodes
unfolding place get_by_id update_sort_order
place-others env account id i db u =
    elim (Option-cases (if env.up Statement.find_owner then find (has_id id) db.nodes else none)) [
      | inl q ↦ rw (place, q) (refl, u)
      | inr (n, q) ↦
          elim (Bool-cases ((n.account_id == account) && env.up Statement.set_sort_order)) [
            | inl mine ↦
                rw (place, q, mine)
                  (
                    others-update account id (λ m. record m { sort_order = i }) db.nodes (λ m. refl)
                        (Own-find account id n db.nodes u (ground (arith, q))
                          (ground (arith, mine))),
                    Nodup-update_where same_id (has_id id) (λ m. record m { sort_order = i })
                        db.nodes (λ x y. refl) (λ x y. refl) u,
                  )
            | inr theirs ↦ rw (place, q, theirs) (refl, u)
          ]
    ]

place_all-others :
    (env : Env) (account : String) (ids : List String) (i : ℕ) (db : Db)
    → Nodup same_id db.nodes
    → others account (place_all env account ids i db) ≡ others account db
unfolding place_all
place_all-others env account [] i db u = refl
place_all-others env account (id ∷ ids) i db u =
    let (same, u') = place-others env account id i db u in
    place_all-others env account ids (suc i) (place env account id i db) u' ∙ same

-- An update, a reordering, a removal or a heartbeat by an account leaves the nodes of all other
-- accounts as they were, whatever it names and whatever statements fail, if no two nodes share an
-- identifier.
pub serve-others :
    (env : Env) (account : String) (call : Call) (db : Db)
    → Nodup same_id db.nodes
    → others account (serve env account call db) ≡ others account db
unfolding serve update reorder delete heartbeat process_heartbeat
serve-others env account (Call.updates id none) db u =
    elim (Result-cases (owned env account id db)) [
      | inl (n, q) ↦ rw (serve, update, q) refl
      | inr (e, q) ↦ rw (serve, update, q) refl
    ]
serve-others env account (Call.updates id (some fields)) db u =
    elim (Result-cases (owned env account id db)) [
      | inl (n, q) ↦
          let k =
            write_update-IsKept env account id fields.0 fields.1 db
              (owned-IsOwn env account id db n u q) in
          rw (serve, update, q) k.same
      | inr (e, q) ↦ rw (serve, update, q) refl
    ]
serve-others env account (Call.reorders none) db u = ground arith
serve-others env account (Call.reorders (some ids)) db u =
    ground (arith, place_all-others env account ids 0 db u)
serve-others env account (Call.deletes id) db u = elim (Result-cases (owned env account id db)) [
  | inl (n, q) ↦
      rw (serve, delete, q)
        (deregister-others env account id db (owned-IsOwn env account id db n u q))
  | inr (e, q) ↦ rw (serve, delete, q) refl
]
serve-others env account (Call.beats id none) db u = elim (Result-cases (owned env account id db)) [
  | inl (n, q) ↦ rw (serve, heartbeat, q) refl
  | inr (e, q) ↦ rw (serve, heartbeat, q) refl
]
serve-others env account (Call.beats id (some fields)) db u =
    elim (Result-cases (owned env account id db)) [
      | inl (n, q) ↦
          let k =
            heartbeat_writes-IsKept env account id fields.0 fields.1 db
              (owned-IsOwn env account id db n u q) in
          elim (Bool-cases (env.up Statement.touch_node)) [
            | inl up ↦ rw (serve, heartbeat, q, process_heartbeat, up) k.same
            | inr down ↦ rw (serve, heartbeat, q, process_heartbeat, down) refl
          ]
      | inr (e, q) ↦ rw (serve, heartbeat, q) refl
    ]
