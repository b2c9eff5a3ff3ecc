-- ===== src/Control/Paths.antt =====
-- Dijkstra's algorithm on the mesh: control-plane/routing/optimizer.go. The code of container/heap
-- is not in the repository: `Heap` states what its documentation promises for a slice that only
-- Push and Pop have touched. The fields `index`, which Swap, Push and Pop of `priorityQueue` only
-- write, are left out. Maps are functions with Go's zero value for a missing key.
pub mod Order
pub mod Invariant
pub mod Relax
pub mod Walks
pub mod Turns
pub mod Visit
pub mod Loop
pub mod Trace
pub mod Shortest
pub mod Built
use Prim.Native.String.{String}
use res.Base.{
  ℕ, zero, suc, ◌+◌, ◌<◌, Bool, true, false, Option, none, some, List, [], ◌∷◌, ltb, length,
  if◌then◌else◌, get, Assoc, Result, ok, err, ◌==◌, string_eq, ◌≡◌, ◌⊎◌,
}
use res.Control.Graph.{Floats, Edge, Edges, Graph, neighbors, NodeInfo}
use res.Control.Graph.Links.{IsIn}

-- container/heap over a slice, with the slice's `Less`. Pop is called on a slice that is not empty.
pub record Heap {A : Type 0} (less : A → A → Bool) : Type 0 where
  pub push : A → List A → List A
  pub pop : A → List A → A × List A
  pub push-new : (x : A) (q : List A) → IsIn x (push x q)
  pub push-old : (x y : A) (q : List A) → IsIn y q → IsIn y (push x q)
  pub push-cases : (x y : A) (q : List A) → IsIn y (push x q) → (x ≡ y) ⊎ IsIn y q
  pub length-push : (x : A) (q : List A) → length (push x q) ≡ suc (length q)
  pub pop-first : (x : A) (q : List A) → IsIn (pop x q).0 (x ∷ q)
  pub pop-rest : (x y : A) (q : List A) → IsIn y (pop x q).1 → IsIn y (x ∷ q)
  pub pop-cases : (x y : A) (q : List A) → IsIn y (x ∷ q) → ((pop x q).0 ≡ y) ⊎ IsIn y (pop x q).1
  pub length-pop : (x : A) (q : List A) → length (pop x q).1 ≡ length q
  pub pop-least : (x y : A) (q : List A) → IsIn y (x ∷ q) → less y (pop x q).0 ≡ false

-- A map with a zero value, and `m[k] = v`.
unfoldable pub update : {V : Type 0} → String → V → (String → V) → String → V
update k v m j = if k == j then v else m j

pub data RouteError : Type 0 where
  no_source no_destination no_path : RouteError

pub data ConnectionType : Type 0 where
  direct stun relay : ConnectionType

-- The node after the first, of a path of more than two nodes.
unfoldable pub middle : List String → Option String
middle [] = none
middle (_ ∷ []) = none
middle (_ ∷ _ ∷ []) = none
middle (_ ∷ b ∷ _ ∷ _) = some b

-- The path, from its end.
unfoldable pub trace : ℕ → (String → String) → String → String → List String → Option (List String)
trace zero prev src cur path = none
trace (suc fuel) prev src cur path =
    let rest = trace fuel prev src (prev cur) (cur ∷ path) in
    if cur == "" then some path else if cur == src then some (cur ∷ path) else rest

module _ (fl : Floats) where
  pub record Item : Type 0 where
    pub node_id : String
    pub cost : fl.F

  -- `Less` of the priority queue.
  abbrev pub item_less : Item → Item → Bool
  item_less i j = fl.less i.cost j.cost

  pub record Search : Type 0 where
    pub dist : String → fl.F
    pub prev : String → String
    pub queue : List Item

  pub data Turn : Type 0 where
    finished : Search → Turn
    again : Search → Turn

  pub record Route : Type 0 where
    pub src_node_id : String
    pub dst_node_id : String
    pub path : List String
    pub cost : fl.F
    pub connection_type : ConnectionType
    pub relay_node_id : String
    pub created_at : ℕ
    pub expires_at : ℕ

  -- The distance of a node that no path has reached, 1e18.
  abbrev pub infinity : fl.F
  infinity = fl.lit 1000000000000000000

  unfoldable pub is_node : String → Graph fl → Bool
  is_node id g = elim (get id g.nodes) [ none ↦ false | some _ ↦ true ]

  unfoldable pub route_of : String → String → List String → fl.F → ℕ → ℕ → Route
  route_of src dst path cost created now = record {
    src_node_id = src;
    dst_node_id = dst;
    path = path;
    cost = cost;
    connection_type = elim (middle path) [ none ↦ direct | some _ ↦ relay ];
    relay_node_id = elim (middle path) [ none ↦ "" | some b ↦ b ];
    created_at = created;
    expires_at = now + 60;
  }

  -- The number of edges, for the fuel.
  unfoldable pub edge_count : Edges fl → ℕ
  edge_count [] = 0
  edge_count ((_, es) ∷ m) = length es + edge_count m

  unfoldable pub finish : ℕ → String → String → ℕ → ℕ → Search → Option (Result RouteError Route)
  finish fuel src dst created now s =
      if fl.less (s.dist dst) infinity
      then elim (trace fuel s.prev src dst []) [
        | none ↦ none
        | some path ↦ some (ok (route_of src dst path (s.dist dst) created now))
      ]
      else some (err no_path)

  module _ (heap : Heap item_less) where
    -- One edge of the node that was popped.
    unfoldable pub relax : String → Edge fl → Search → Search
    relax id edge s =
        let new_cost = fl.add (s.dist id) edge.cost in
        if fl.less new_cost (s.dist edge.to)
        then record {
          dist = update edge.to new_cost s.dist;
          prev = update edge.to id s.prev;
          queue = heap.push (record { node_id = edge.to; cost = new_cost }) s.queue;
        }
        else s

    unfoldable pub relax_all : String → List (Edge fl) → Search → Search
    relax_all id [] s = s
    relax_all id (edge ∷ edges) s = relax_all id edges (relax id edge s)

    -- The loop's body once the item is popped.
    unfoldable pub visit : Edges fl → String → Item → Search → Turn
    visit edges dst item s =
        if item.node_id == dst
        then finished s
        else if fl.less (s.dist item.node_id) item.cost
        then again s
        else again (relax_all item.node_id (neighbors fl item.node_id edges) s)

    unfoldable pub turn : Edges fl → String → List Item → Search → Turn
    turn edges dst [] s = finished s
    turn edges dst (x ∷ q) s =
        let (item, rest) = heap.pop x q in visit edges dst item (record s { queue = rest })

    -- `for pq.Len() > 0`; `none` means that the fuel ran out.
    unfoldable pub search_loop : ℕ → Edges fl → String → Search → Option Search
    search_loop zero edges dst s = none
    search_loop (suc fuel) edges dst s = elim (turn edges dst s.queue s) [
      | finished t ↦ some t
      | again t ↦ search_loop fuel edges dst t
    ]

    unfoldable pub start : Graph fl → String → Search
    start g src = record {
      dist = update src (fl.lit 0) (λ id. if is_node id g then infinity else fl.lit 0);
      prev = λ id. "";
      queue = heap.push (record { node_id = src; cost = fl.lit 0 }) [];
    }

    unfoldable pub shortest_path :
        Graph fl → String → String → ℕ → ℕ → Option (Result RouteError Route)
    shortest_path g src dst created now =
        if is_node src g
        then (if is_node dst g
            then elim (search_loop (edge_count g.edges + 2) g.edges dst (start g src)) [
              | none ↦ none
              | some s ↦ finish (edge_count g.edges + 4) src dst created now s
            ]
            else some (err no_destination))
        else some (err no_source)
