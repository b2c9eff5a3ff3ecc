-- ===== src/Control/NodeService/Addresses.antt =====
-- The mesh addresses over a node's life: `RegisterNode` and `DeregisterNode` of
-- control-plane/service/node_service.go, `DeleteStaleBefore` of control-plane/db/node_repo.go.
use Prim.Native.String.{String}
use res.Base.{
  ℕ, ◌≡◌, refl, Bool, true, false, not, ◌&&◌, Option, none, some, List, [], ◌∷◌, map, filter, ◌==◌,
  string_eq, nat_eq, arith, Assoc,
}
use res.Control.Nodes.{
  Node, Db, any, has_id, has_ip, is_free, is_value, is_stale, delete_where, delete_stale_before,
  delete, release, release_reference,
}
use res.Control.NodeService.{Env, Statement, deregister_node}

any_reference :
    (gone : String → Bool) (ip : ℕ) (allocs : Assoc ℕ (Option String))
    → any (λ a. a.0 == ip) (map (release_reference gone) allocs) ≡ any (λ a. a.0 == ip) allocs
any_reference gone ip [] = refl
any_reference gone ip ((x, none) ∷ allocs) = ground (arith, any_reference gone ip allocs)
any_reference gone ip ((x, some id) ∷ allocs) = ground (arith, any_reference gone ip allocs)

-- The deleter of old nodes gives no recorded address back: one that is recorded stays taken,
-- whoever had it.
pub swept_address_is_lost :
    (cutoff ip : ℕ) (db : Db)
    → any (λ a. a.0 == ip) db.ip_allocations ≡ true
    → is_free ip (delete_stale_before cutoff db).0 ≡ false
unfolding delete_stale_before delete_where is_free
swept_address_is_lost cutoff ip db taken =
    rw
      (
        any_reference (λ id. any (λ n. (n.id == id) && is_stale cutoff n) db.nodes) ip
            db.ip_allocations,
        taken,
      )
      refl

any_released :
    (id : String) (ip : ℕ) (allocs : Assoc ℕ (Option String))
    → any (λ a. (a.0 == ip) && not (is_value id a.1)) allocs ≡ false
    → any (λ a. a.0 == ip) (filter (λ a. not (is_value id a.1)) allocs) ≡ false
any_released id ip [] h = refl
any_released id ip (a ∷ allocs) h = ground (arith, h, any_released id ip allocs)

any_deleted :
    (id : String) (ip : ℕ) (ns : List Node)
    → any (λ n. has_ip ip n && not (has_id id n)) ns ≡ false
    → any (has_ip ip) (filter (λ n. not (has_id id n)) ns) ≡ false
any_deleted id ip [] h = refl
any_deleted id ip (n ∷ ns) h = ground (arith, h, any_deleted id ip ns)

-- A node that is removed on request gives its address back: an address that only this node has, in
-- the table of nodes and in the record of addresses, is free after that.
pub deregistered_address_is_free :
    (env : Env) (id : String) (ip : ℕ) (db : Db)
    → env.up Statement.release_address ≡ true
    → env.up Statement.delete_node ≡ true
    → any (λ a. (a.0 == ip) && not (is_value id a.1)) db.ip_allocations ≡ false
    → any (λ n. has_ip ip n && not (has_id id n)) db.nodes ≡ false
    → is_free ip (deregister_node env id db).1 ≡ true
unfolding deregister_node delete delete_where release is_free
deregistered_address_is_free env id ip db a b only_id only_node =
    rw (deregister_node, a, b)
      (ground (
        arith,
        any_reference (λ x. any (λ n. (n.id == x) && has_id id n) db.nodes) ip
            (filter (λ e. not (is_value id e.1)) db.ip_allocations),
        any_released id ip db.ip_allocations only_id,
        any_deleted id ip db.nodes only_node,
      ))
