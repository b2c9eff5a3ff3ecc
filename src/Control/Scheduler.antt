-- ===== src/Control/Scheduler.antt =====
-- The background jobs on nodes: control-plane/scheduler/stale_node_cleanup.go and
-- control-plane/scheduler/offline_node_deleter.go, one run of each.
pub mod Cleanup
use Prim.Native.String.{String}
use res.Base.{
  ℕ, ◌-◌, ◌≡◌, refl, sym, ◌∙◌, ap, Bool, true, false, not, ◌&&◌, ◌||◌, Option, none, some, List, [],
  ◌∷◌, ltb, if◌then◌else◌, ◌==◌, ==_iff, ==_refl, string_eq, filter, arith, Bool-cases, subst, inl,
  inr,
}
use res.Control.Nodes.{
  Node, NodeStatus, Db, any, has_id, update_where, update_status, get_all_online, is_online,
  delete_stale_before,
}
use res.Control.Nodes.Filters.{Nodup, same_id}

-- `node.LastSeen != nil && node.LastSeen.Before(cutoff)`
unfoldable pub is_overdue : ℕ → Node → Bool
is_overdue cutoff n = elim n.last_seen [ none ↦ false | some t ↦ ltb t cutoff ]

-- The loop of `cleanup` over the nodes that were read; the second part is the affected accounts, in
-- the order of the loop, one for each node that is marked. `up` says whose update is answered.
unfoldable pub mark_overdue : (up : String → Bool) → ℕ → List Node → Db → Db × List String
mark_overdue up cutoff [] db = (db, [])
mark_overdue up cutoff (n ∷ ns) db =
    let marked = mark_overdue up cutoff ns (update_status n.id NodeStatus.offline db) in
    let passed = mark_overdue up cutoff ns db in
    if is_overdue cutoff n && up n.id then (marked.0, n.account_id ∷ marked.1) else passed

-- `cleanup`, with nothing between its statements; `listed` says whether the list of nodes is
-- answered.
unfoldable pub cleanup :
    (listed : Bool) → (up : String → Bool) → (now timeout : ℕ) → Db → Db × List String
cleanup listed up now timeout db =
    if listed then mark_overdue up (now - timeout) (get_all_online db) db else (db, [])

-- `sweep`
unfoldable pub sweep : (now retention : ℕ) → Db → Db × ℕ
sweep now retention db = delete_stale_before (now - retention) db
