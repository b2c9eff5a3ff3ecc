-- ===== src/Control/Scheduler/Cleanup.antt =====
-- `cleanup` of control-plane/scheduler/stale_node_cleanup.go marks exactly the overdue nodes.
use Prim.Native.String.{String}
use res.Base.{
  ℕ, ◌+◌, ◌-◌, ltb, Option, none, some, ◌≡◌, refl, ◌∙◌, ap, inl, inr, subst, Bool, true, false,
  ◌&&◌, List, [], ◌∷◌, map, if◌then◌else◌, ◌==◌, ==_iff, ==_refl, string_eq, filter, arith,
  Bool-cases,
}
use res.Control.Nodes.{
  Node, NodeStatus, Db, any, has_id, update_where, update_status, get_all_online, is_online,
}
use res.Control.Nodes.Filters.{Nodup, IsIn, same_id, any-filter, any-IsIn}
use res.Control.Scheduler.{is_overdue, mark_overdue, cleanup}

abbrev offline : Node → Node
offline n = record n { status = NodeStatus.offline }

-- A row after the loop: offline if a node of its identifier was read as overdue.
abbrev after : (Node → Bool) → List Node → Node → Node
after q ns n = if any (λ m. (m.id == n.id) && q m) ns then offline n else n

map-after-update :
    (q : Node → Bool) (m : Node) (ns rows : List Node)
    → q m ≡ true
    → map (after q ns) (update_where (has_id m.id) offline rows) ≡ map (after q (m ∷ ns)) rows
unfolding update_where
map-after-update q m ns [] h = refl
map-after-update q m ns (r ∷ rows) h =
    ground (arith, h, ==_iff r.id m.id, ==_iff m.id r.id, map-after-update q m ns rows h)

map-after-skip :
    (q : Node → Bool) (m : Node) (ns rows : List Node)
    → q m ≡ false
    → map (after q ns) rows ≡ map (after q (m ∷ ns)) rows
map-after-skip q m ns [] h = refl
map-after-skip q m ns (r ∷ rows) h = ground (arith, h, map-after-skip q m ns rows h)

map-after-nil : (q : Node → Bool) (rows : List Node) → rows ≡ map (after q []) rows
map-after-nil q [] = refl
map-after-nil q (r ∷ rows) = ap (◌∷◌ r) (map-after-nil q rows)

mark_overdue-map :
    (up : String → Bool) (cutoff : ℕ) (ns : List Node) (db : Db)
    → (mark_overdue up cutoff ns db).0.nodes
      ≡ map (after (λ n. is_overdue cutoff n && up n.id) ns) db.nodes
unfolding mark_overdue update_status
mark_overdue-map up cutoff [] db = map-after-nil (λ n. is_overdue cutoff n && up n.id) db.nodes
mark_overdue-map up cutoff (n ∷ ns) db = elim (Bool-cases (is_overdue cutoff n && up n.id)) [
  | inl h ↦
      rw (mark_overdue, h)
        (mark_overdue-map up cutoff ns (update_status n.id NodeStatus.offline db)
          ∙ map-after-update (λ x. is_overdue cutoff x && up x.id) n ns db.nodes h)
  | inr h ↦
      rw (mark_overdue, h)
        (mark_overdue-map up cutoff ns db
          ∙ map-after-skip (λ x. is_overdue cutoff x && up x.id) n ns db.nodes h)
]

any_guarded :
    (p q : Node → Bool) (xs : List Node) → any p xs ≡ false → any (λ m. p m && q m) xs ≡ false
any_guarded p q [] h = refl
any_guarded p q (x ∷ xs) h = ground (arith, h, any_guarded p q xs)

-- Among rows with distinct identifiers, only the row itself can have been read with its identifier.
any_online_self :
    (on q : Node → Bool) (n : Node) (xs : List Node)
    → Nodup same_id xs
    → IsIn n xs
    → any (λ m. (m.id == n.id) && q m) (filter on xs) ≡ on n && q n
any_online_self on q n [] u i = absurd i
any_online_self on q n (x ∷ xs) u (inl e) =
    subst (λ y. any (λ m. (m.id == y.id) && q m) (filter on (x ∷ xs)) ≡ on y && q y) e
      (ground (
        arith,
        ==_refl x.id,
        any-filter (λ m. (m.id == x.id) && q m) on xs (any_guarded (has_id x.id) q xs u.0),
      ))
any_online_self on q n (x ∷ xs) u (inr i) = ground (
  arith,
  ==_iff x.id n.id,
  ==_iff n.id x.id,
  any-IsIn (same_id x) n xs i,
  u.0,
  any_online_self on q n xs u.1 i,
)

map_ext :
    (f g : Node → Node) (xs : List Node)
    → ((n : Node) → IsIn n xs → f n ≡ g n)
    → map f xs ≡ map g xs
map_ext f g [] h = refl
map_ext f g (x ∷ xs) h = rw (h x (inl refl), map_ext f g xs (λ n i. h n (inr i))) refl

marked :
    (up : String → Bool) (now timeout : ℕ) (db : Db)
    → Nodup same_id db.nodes
    → (mark_overdue up (now - timeout) (filter is_online db.nodes) db).0.nodes
      ≡ map
          (λ n. if is_online n && (is_overdue (now - timeout) n && up n.id) then offline n else n)
          db.nodes
marked up now timeout db u =
    let q : Node → Bool = λ n. is_overdue (now - timeout) n && up n.id in
    mark_overdue-map up (now - timeout) (filter is_online db.nodes) db
    ∙ map_ext (after q (filter is_online db.nodes))
        (λ n. if is_online n && q n then offline n else n) db.nodes
        (λ n i. rw (any_online_self is_online q n db.nodes u i) refl)

-- What a run is to do to a node, by its status and by the time that it was seen, if ever.
abbrev pub expected : (up : String → Bool) → (now timeout : ℕ) → Node → NodeStatus
expected up now timeout n = elim n.status [
  | NodeStatus.offline ↦ NodeStatus.offline
  | status ↦ elim n.last_seen [
    | none ↦ status
    | some t ↦ if ltb (t + timeout) now && up n.id then NodeStatus.offline else status
  ]
]

-- The cutoff, on either side.
before_cutoff : (t now timeout : ℕ) → ltb t (now - timeout) ≡ ltb (t + timeout) now
before_cutoff t now timeout = ground arith

abbrev pub as_expected : (up : String → Bool) → (now timeout : ℕ) → Node → Node
as_expected up now timeout n = record n { status = expected up now timeout n }

marked_as_expected :
    (up : String → Bool) (now timeout : ℕ) (n : Node)
    → (if is_online n && (is_overdue (now - timeout) n && up n.id) then offline n else n)
      ≡ as_expected up now timeout n
unfolding is_overdue
marked_as_expected up now timeout n = go n.status n.last_seen
  where
    seen_at : NodeStatus → Option ℕ → Node
    seen_at s l = record n { status = s; last_seen = l }

    go :
        (s : NodeStatus) (l : Option ℕ)
        → (if is_online (seen_at s l) && (is_overdue (now - timeout) (seen_at s l) && up n.id)
            then offline (seen_at s l)
            else seen_at s l)
          ≡ as_expected up now timeout (seen_at s l)
    go NodeStatus.offline l = refl
    go NodeStatus.online none = refl
    go NodeStatus.degraded none = refl
    go NodeStatus.online (some t) = ground (arith, before_cutoff t now timeout)
    go NodeStatus.degraded (some t) = ground (arith, before_cutoff t now timeout)

-- One run of the cleaner makes a node offline if it was online or degraded, was last seen before the
-- cutoff, and its update is answered; a node that was never seen keeps its status, as does every
-- other, and nothing else of a node changes, if the identifiers are distinct. Where the list of
-- nodes is not answered, nothing changes at all.
pub cleanup_exact :
    (up : String → Bool) (now timeout : ℕ) (db : Db)
    → Nodup same_id db.nodes
    → ((cleanup true up now timeout db).0.nodes ≡ map (as_expected up now timeout) db.nodes)
      × (cleanup false up now timeout db ≡ (db, []))
unfolding cleanup get_all_online
cleanup_exact up now timeout db u = (
  marked up now timeout db u ∙ map_ext _ _ db.nodes (λ n i. marked_as_expected up now timeout n),
  refl,
)
