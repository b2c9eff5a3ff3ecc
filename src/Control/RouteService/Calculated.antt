-- ===== src/Control/RouteService/Calculated.antt =====
-- The route that `calculateRoute` of control-plane/service/route_service.go gives.
use Prim.Native.String.{String}
use res.Base.{
  ℕ, ◌≡◌, ◌⊎◌, inl, inr, refl, subst, ap, Bool-cases, true, false, List, [], ◌∷◌, Option, some,
  Result, ok, err, map,
}
use res.Control.Nodes.{Node, get_all_online}
use res.Control.Graph.{Floats, Graph}
use res.Control.Graph.Links.{IsIn}
use res.Control.Paths.{Heap, item_less, Route, RouteError, infinity, is_node, shortest_path}
use res.Control.Paths.Order.{AtMost, Below, IsOrdered}
use res.Control.Paths.Walks.{Walk}
use res.Control.Paths.Built.{IsSigned, IsNonnegative, is_node-build_graph, build_graph-IsSound}
use res.Control.Paths.Shortest.{IsShortest, shortest_path_lem}
use res.Control.Routes.{get_all_latest}
use res.Control.RouteService.{
  Env, Query, Service, World, ServiceError, info_of, online_graph, cache, calculated,
  calculate_route,
}

IsIn-map : (n : Node) (ns : List Node) → IsIn n ns → IsIn (info_of n) (map info_of ns)
IsIn-map n [] i = absurd i
IsIn-map n (m ∷ ns) (inl e) = inl (ap info_of e)
IsIn-map n (m ∷ ns) (inr i) = inr (IsIn-map n ns i)

module _ (fl : Floats) (heap : Heap (item_less fl)) (g : Graph fl) (src dst : String)
    (now : ℕ) where
  from_no_node :
      is_node fl src g ≡ false
      → shortest_path fl heap g src dst now now ≡ some (err RouteError.no_source)
  unfolding shortest_path
  from_no_node h = rw h refl

  to_no_node :
      is_node fl src g ≡ true
      → is_node fl dst g ≡ false
      → shortest_path fl heap g src dst now now ≡ some (err RouteError.no_destination)
  unfolding shortest_path
  to_no_node h k = rw (h, k) refl

module _ (fl : Floats) (sv : Service fl) (env : Env) (w : World fl) where
  -- The walks that the route of `calculate_route` is one of.
  abbrev pub OnlineWalk : (src dst : String) → fl.F → List String → Type 0
  OnlineWalk src dst = Walk fl (online_graph fl sv env w).edges src dst

  -- A cheapest walk below 1e18, which is stored; or there is none, and the error says so.
  abbrev pub IsCalculated :
      (src dst : String) → Option (Result ServiceError (Route fl) × World fl) → Type 0
  IsCalculated src dst r =
      ((route : Route fl) × (r ≡ some (ok route, cache fl sv env route w))
        × OnlineWalk src dst route.cost route.path
        × Below fl route.cost (infinity fl)
        × ((k : fl.F) (p : List String) → OnlineWalk src dst k p → AtMost fl route.cost k))
      ⊎ ((r ≡ some (err ServiceError.no_route_available, w))
          × ((k : fl.F) (p : List String) → OnlineWalk src dst k p → AtMost fl (infinity fl) k))

module _ (fl : Floats) (o : IsOrdered fl) (sg : IsSigned fl) (heap : Heap (item_less fl))
    (sv : Service fl) (nonneg : IsNonnegative fl sv.weights) (env : Env) (w : World fl)
    (unnamed : is_node fl "" (online_graph fl sv env w) ≡ false) where
  -- The identifier of an online node.
  abbrev pub IsOnline : String → Type 0
  IsOnline id = (n : Node) × IsIn n (get_all_online w.nodes) × (n.id ≡ id)

  pub online_is_node : (id : String) → IsOnline id → is_node fl id (online_graph fl sv env w) ≡ true
  unfolding info_of
  online_is_node id (n, i, e) =
      subst (λ x. is_node fl x (online_graph fl sv env w) ≡ true) e
        (is_node-build_graph fl (map info_of (get_all_online w.nodes))
          (get_all_latest fl env.now w.samples) sv.weights (info_of n)
          (IsIn-map n (get_all_online w.nodes) i))

  -- Between nodes of the graph the search is right.
  pub online-IsShortest :
      (src dst : String)
      → is_node fl src (online_graph fl sv env w) ≡ true
      → is_node fl dst (online_graph fl sv env w) ≡ true
      → IsShortest fl o heap
          (online_graph fl sv env w)
          src
          dst
          env.now
          env.now
          (shortest_path fl heap (online_graph fl sv env w) src dst env.now env.now)
  online-IsShortest src dst from to =
      shortest_path_lem fl o heap (online_graph fl sv env w) src dst env.now env.now unnamed to
        (build_graph-IsSound fl o sg sv.weights nonneg (get_all_latest fl env.now w.samples) heap
          src (map info_of (get_all_online w.nodes)))
        from

  -- The search ends, whatever the identifiers.
  pub search_ends_online :
      (src dst : String)
      → (r : Result RouteError (Route fl)) × (shortest_path fl heap
            (online_graph fl sv env w)
            src
            dst
            env.now
            env.now
          ≡ some r)
  search_ends_online src dst = elim (Bool-cases (is_node fl src (online_graph fl sv env w))) [
    | inr h ↦ (
      err RouteError.no_source,
      from_no_node fl heap (online_graph fl sv env w) src dst env.now h,
    )
    | inl h ↦ elim (Bool-cases (is_node fl dst (online_graph fl sv env w))) [
      | inr k ↦ (
        err RouteError.no_destination,
        to_no_node fl heap (online_graph fl sv env w) src dst env.now h k,
      )
      | inl k ↦ elim (online-IsShortest src dst h k) [
        | inl found ↦ (ok found.0, found.1)
        | inr missing ↦ (err RouteError.no_path, missing.0)
      ]
    ]
  ]

  -- With weights that are not negative, over numbers that satisfy IsOrdered and IsSigned, where no
  -- online node has the empty identifier and the database answers, between two online nodes, a
  -- route along a cheapest walk over the graph of the online nodes and their latest measurements is
  -- given and stored, if some walk costs less than 1e18, and otherwise the error that no route is
  -- available.
  pub calculate_route_lem :
      (src dst : String)
      → IsOnline src
      → IsOnline dst
      → env.up Query.online ≡ true
      → env.up Query.metrics ≡ true
      → IsCalculated fl sv env w src dst (calculate_route fl heap sv env src dst w)
  unfolding calculate_route calculated
  calculate_route_lem src dst from to h k =
      elim (online-IsShortest src dst (online_is_node src from) (online_is_node dst to)) [
        | inl (route, e, walk, near, least, _) ↦ inl (route, rw (h, k, e) refl, walk, near, least)
        | inr (e, least) ↦ inr (rw (h, k, e) refl, least)
      ]
