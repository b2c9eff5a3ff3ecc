-- ===== src/Control/GraphTests.antt =====
-- The graph of an exit with an endpoint and two clients behind NAT, its theorems applied to it.
-- Whole numbers stand in for float64.
use res.Base.{ℕ, ◌+◌, ◌-◌, ◌*◌, ◌/◌, ◌≡◌, inl, refl, List, [], ◌∷◌, ltb, get, put, string_eq}
use res.Control.Graph.{
  Floats, NodeInfo, Weights, Edge, edges_of, neighbors, add_edge, is_linked, link_cost, link,
  link_all, link_pairs, build_graph, cost,
}
use res.Control.Graph.Links.{IsIn, reverse}
use res.Control.Graph.Dialable.{IsJustified, build_graph_lem}

abbrev pub whole : Floats
whole = record {
  F = ℕ;
  add = λ m n. m + n;
  sub = λ m n. m - n;
  mul = λ m n. m * n;
  div = λ m n. m / n;
  less = ltb;
  lit = λ n. n;
}

abbrev pub weights : Weights whole
weights = record { rtt = 40; bandwidth = 25; load = 15; reliability = 20 }

abbrev pub exit : NodeInfo
exit = record { id = "x"; node_type = "exit"; endpoint = "e:51820" }

abbrev pub phone : NodeInfo
phone = record { id = "p"; node_type = "client"; endpoint = "" }

abbrev pub laptop : NodeInfo
laptop = record { id = "l"; node_type = "client"; endpoint = "" }

abbrev pub mesh : List NodeInfo
mesh = exit ∷ phone ∷ laptop ∷ []

abbrev phone_exit : Edge whole
phone_exit = record { from = "p"; to = "x"; cost = 999 }

phone_edges : neighbors whole "p" (build_graph whole mesh [] weights).edges ≡ phone_exit ∷ []
unfolding neighbors edges_of build_graph link_pairs link_all link is_linked link_cost cost add_edge
    get put
phone_edges = refl

phone_edge : IsIn phone_exit (neighbors whole "p" (build_graph whole mesh [] weights).edges)
unfolding neighbors edges_of build_graph link_pairs link_all link is_linked link_cost cost add_edge
    get put
phone_edge = inl refl

build_graph_lem_example :
    (phone_exit.from ≡ "p")
    × IsIn
        (reverse whole phone_exit)
        (neighbors whole "x" (build_graph whole mesh [] weights).edges)
    × IsJustified whole weights [] mesh phone_exit
build_graph_lem_example = build_graph_lem whole weights [] mesh "p" phone_exit phone_edge
