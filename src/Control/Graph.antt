-- ===== src/Control/Graph.antt =====
-- The mesh as a weighted graph: `BuildGraph` of control-plane/routing/graph.go and `Cost` of
-- control-plane/routing/cost.go. Go's float64 is a parameter with its operations, of which nothing
-- is assumed. Nodes and metrics keep the fields that the graph reads.
pub mod Links
pub mod Dialable
use Prim.Native.String.{String}
use res.Base.{
  ℕ, Bool, true, false, ◌&&◌, Option, none, some, List, [], ◌∷◌, ◌++◌, if◌then◌else◌, Assoc, get,
  put, ◌==◌, string_eq,
}

-- float64, its operations and conversions from integers (`lit n` is n).
pub record Floats : Type 1 where
  pub F : Type 0
  pub add : F → F → F
  pub sub : F → F → F
  pub mul : F → F → F
  pub div : F → F → F
  pub less : F → F → Bool
  pub lit : ℕ → F

pub record NodeInfo : Type 0 where
  pub id : String
  pub node_type : String
  pub endpoint : String

module _ (fl : Floats) where
  pub record Metrics : Type 0 where
    pub rtt_ms : fl.F
    pub bandwidth_mbps : fl.F
    pub active_conns : ℕ
    pub packet_loss : fl.F

  pub record Weights : Type 0 where
    pub rtt : fl.F
    pub bandwidth : fl.F
    pub load : fl.F
    pub reliability : fl.F

  unfoldable pub clamp : fl.F → fl.F → fl.F → fl.F
  clamp v low high = if fl.less v low then low else if fl.less high v then high else v

  abbrev pub normalised : fl.F → fl.F
  normalised v = clamp v (fl.lit 0) (fl.lit 1)

  unfoldable pub cost : Option Metrics → Weights → fl.F
  cost none w = fl.lit 999
  cost (some m) w =
      let rtt_norm = normalised (fl.div m.rtt_ms (fl.lit 500)) in
      let bw_norm = fl.sub (fl.lit 1) (normalised (fl.div m.bandwidth_mbps (fl.lit 1000))) in
      let load_norm = normalised (fl.div (fl.lit m.active_conns) (fl.lit 10000)) in
      let loss_norm = normalised m.packet_loss in
      fl.add
        (fl.add (fl.add (fl.mul w.rtt rtt_norm) (fl.mul w.bandwidth bw_norm))
          (fl.mul w.load load_norm))
        (fl.mul w.reliability loss_norm)

  pub record Edge : Type 0 where
    pub from : String
    pub to : String
    pub cost : fl.F

  abbrev pub Edges : Type 0
  Edges = Assoc String (List Edge)

  pub record Graph : Type 0 where
    pub nodes : Assoc String NodeInfo
    pub edges : Edges
    pub weights : Weights

  -- A key that is missing has Go's zero value, the empty slice.
  unfoldable pub edges_of : Option (List Edge) → List Edge
  edges_of none = []
  edges_of (some es) = es

  unfoldable pub neighbors : String → Edges → List Edge
  neighbors id m = edges_of (get id m)

  -- `g.edges[id] = append(g.edges[id], e)`
  unfoldable pub add_edge : String → Edge → Edges → Edges
  add_edge id e m = put id (neighbors id m ++ e ∷ []) m

  -- The two `continue`s of the inner loop, the other way round.
  unfoldable pub is_linked : NodeInfo → NodeInfo → Bool
  is_linked a b =
      if (a.node_type == "client") && (b.node_type == "client")
      then false
      else if (a.endpoint == "") && (b.endpoint == "")
      then false
      else true

  unfoldable pub link_cost : Weights → Assoc String Metrics → NodeInfo → NodeInfo → fl.F
  link_cost w metrics a b =
      fl.div (fl.add (cost (get a.id metrics) w) (cost (get b.id metrics) w)) (fl.lit 2)

  unfoldable pub link : Weights → Assoc String Metrics → NodeInfo → NodeInfo → Edges → Edges
  link w metrics a b m =
      if is_linked a b
      then (let avg_cost = link_cost w metrics a b in
          add_edge b.id (record { from = b.id; to = a.id; cost = avg_cost })
            (add_edge a.id (record { from = a.id; to = b.id; cost = avg_cost }) m))
      else m

  -- One node against those after it in the list.
  unfoldable pub link_all :
      Weights → Assoc String Metrics → NodeInfo → List NodeInfo → Edges → Edges
  link_all w metrics a [] m = m
  link_all w metrics a (b ∷ bs) m = link_all w metrics a bs (link w metrics a b m)

  unfoldable pub link_pairs : Weights → Assoc String Metrics → List NodeInfo → Edges → Edges
  link_pairs w metrics [] m = m
  link_pairs w metrics (a ∷ ns) m = link_pairs w metrics ns (link_all w metrics a ns m)

  unfoldable pub node_index : List NodeInfo → Assoc String NodeInfo → Assoc String NodeInfo
  node_index [] m = m
  node_index (n ∷ ns) m = node_index ns (put n.id n m)

  unfoldable pub build_graph : List NodeInfo → Assoc String Metrics → Weights → Graph
  build_graph ns metrics w = record {
    nodes = node_index ns [];
    edges = link_pairs w metrics ns [];
    weights = w;
  }
