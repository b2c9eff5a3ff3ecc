-- ===== src/Control/PathTests.antt =====
-- The search on the graph of an exit and two clients.

use res.Base.{◌≡◌, refl, [], ◌∷◌, some, ok, arith, get, put, string_eq}
use res.Control.Graph.{
  Graph, neighbors, edges_of, build_graph, link_pairs, link_all, link, is_linked, link_cost, cost,
  add_edge, node_index,
}
use res.Control.Paths.{
  Heap, item_less, Route, ConnectionType, is_node, shortest_path, search_loop, turn, visit,
  relax_all, relax, start, finish, trace, route_of, middle, update, edge_count,
}
use res.Control.Paths.Order.{IsOrdered}
use res.Control.Paths.Built.{IsSigned, build_graph-IsSound}
use res.Control.Paths.Shortest.{IsShortest, shortest_path_lem}
use res.Control.ListHeap.{take_least, list_heap}
use res.Control.GraphTests.{whole, weights, mesh}

pub whole-IsOrdered : IsOrdered whole
whole-IsOrdered = record {
  asym = λ a b h. ground (arith, h);
  trans = λ a b c h k. ground (arith, h, k);
  add_mono = λ a b c h. ground (arith, h);
  add_grows = λ a c h. ground (arith, h);
  zero_below = ground arith;
}

pub whole-IsSigned : IsSigned whole
whole-IsSigned = record {
  literal = λ n. ground arith;
  sub_nonneg = λ a b h. ground arith;
  mul_nonneg = λ a b h k. ground arith;
  half_nonneg = λ a h. ground arith;
}

abbrev built : Graph whole
built = build_graph whole mesh [] weights

abbrev pub heap : Heap (item_less whole)
heap = list_heap whole whole-IsOrdered

-- From the phone to the laptop by way of the exit.
abbrev pub detour : Route whole
detour = record {
  src_node_id = "p";
  dst_node_id = "l";
  path = "p" ∷ "x" ∷ "l" ∷ [];
  cost = 1998;
  connection_type = ConnectionType.relay;
  relay_node_id = "x";
  created_at = 7;
  expires_at = 67;
}

detour_found : shortest_path whole heap built "p" "l" 7 7 ≡ some (ok detour)
unfolding shortest_path is_node build_graph node_index link_pairs link_all link is_linked link_cost
    cost add_edge neighbors edges_of get put edge_count start update search_loop turn visit
    relax_all relax take_least finish trace route_of middle
detour_found = refl

shortest_path_lem_example :
    IsShortest whole whole-IsOrdered heap built "p" "l" 7 7
      (shortest_path whole heap built "p" "l" 7 7)
unfolding is_node build_graph node_index get put
shortest_path_lem_example =
    shortest_path_lem whole whole-IsOrdered heap built "p" "l" 7 7 refl refl
      (build_graph-IsSound whole whole-IsOrdered whole-IsSigned weights (refl, refl, refl, refl) []
        heap "p" mesh)
      refl
