-- ===== src/Control/RouteService.antt =====
-- The routes of control-plane/service/route_service.go. The tables are those of the control plane;
-- the answers of the database, the clock and the random source are arguments, and an outer `none`
-- means that the fuel of the search ran out. Log lines are left out.
pub mod Answers
pub mod Relayed
pub mod Calculated
pub mod Recalculated
pub mod Endpoint
pub mod Response
use Prim.Native.Char.{code}
use Prim.Native.String.{String}
use res.Base.{
  ℕ, Bool, not, ◌||◌, Option, none, some, List, [], ◌∷◌, map, filter, if◌then◌else◌, Result, ok,
  err, ◌==◌, string_eq, nat_beq, Bytes,
}
use res.Crypto.{Hmac, Base64}
use res.Control.Nodes.{Node, Db, text_or_empty, get_by_id, get_all_online}
use res.Control.Graph.{Floats, NodeInfo, Weights, Graph, build_graph}
use res.Control.Paths.{Heap, item_less, Route, RouteError, ConnectionType, shortest_path}
use res.Control.Routes.{Sample, Table, upsert, get_optimal, get_all_latest}
use res.Control.Relays.{RelayServer, get_best_available}
use res.Control.MeshToken.{issue_mesh_token}
use res.Control.NodeHandler.{Answer, write_error, write_json}

-- The statements of a request, in the order of the code.
pub data Query : Type 0 where
  destination cached online metrics store relay caller : Query

-- Whether the database answers each kind of statement, and the clock, the program's and the
-- database's, which stands still for a request; `tie` is how it orders routes of the same cost.
pub record Env : Type 0 where
  pub up : Query → Bool
  pub now : ℕ
  pub tie : ℕ → ℕ → Bool

pub data ServiceError : Type 0 where
  no_route_available relay_unavailable not_found failed : ServiceError

unfoldable pub and_then : {A : Type 0} {B : Type 0} → (A → Option B) → Option A → Option B
and_then f none = none
and_then f (some x) = f x

-- What the graph reads of a node.
unfoldable pub info_of : Node → NodeInfo
info_of n = record { id = n.id; node_type = n.node_type; endpoint = text_or_empty n.endpoint }

-- The nodes of a type, in their order.
unfoldable pub of_type : String → List NodeInfo → List NodeInfo
of_type node_type ns = filter (λ n. n.node_type == node_type) ns

module _ (fl : Floats) where
  -- The tables that a request reads; it writes the routes alone.
  pub record World : Type 0 where
    pub nodes : Db
    pub samples : List (Sample fl)
    pub routes : Table fl
    pub relays : List RelayServer

  -- The service's fields, and the rounding of the column of the cost.
  pub record Service : Type 0 where
    pub weights : Weights fl
    pub mesh_auth_key : Bytes
    pub mesh_dispatch_port : ℕ
    pub real : fl.F → fl.F
    pub trim_space : String → String

  abbrev pub online_graph : Service → Env → World → Graph fl
  online_graph sv env w =
      build_graph fl (map info_of (get_all_online w.nodes)) (get_all_latest fl env.now w.samples)
        sv.weights

  -- A failure to store a route is only logged.
  unfoldable pub cache : Service → Env → Route fl → World → World
  cache sv env route w =
      if env.up Query.store then record w { routes = upsert fl sv.real route w.routes } else w

  -- What ShortestPath gave, with its error replaced.
  unfoldable pub calculated :
      Service
      → Env
      → Option (Result RouteError (Route fl))
      → World
      → Option (Result ServiceError (Route fl) × World)
  calculated sv env none w = none
  calculated sv env (some (err e)) w = some (err no_route_available, w)
  calculated sv env (some (ok route)) w = some (ok route, cache sv env route w)

  module _ (heap : Heap (item_less fl)) where
    -- `calculateRoute`
    unfoldable pub calculate_route :
        Service → Env → (src dst : String) → World → Option (Result ServiceError (Route fl) × World)
    calculate_route sv env src dst w =
        if not (env.up Query.online) || not (env.up Query.metrics)
        then some (err failed, w)
        else calculated sv env
            (shortest_path fl heap (online_graph sv env w) src dst env.now env.now) w

    -- `GetOptimal` of the table, where a failure counts as no route.
    unfoldable pub cached_route : Env → (src dst : String) → World → Option (Route fl)
    cached_route env src dst w =
        elim (if env.up Query.cached
          then get_optimal fl env.tie env.now src dst w.routes
          else none) [ none ↦ none | some row ↦ some row.route ]

    -- A cached route, or else what is calculated.
    unfoldable pub prefer :
        Option (Route fl)
        → World
        → Option (Result ServiceError (Route fl) × World)
        → Option (Result ServiceError (Route fl) × World)
    prefer none w fresh = fresh
    prefer (some route) w fresh = some (ok route, w)

    -- `GetOptimalRoute`
    unfoldable pub get_optimal_route :
        Service → Env → (src dst : String) → World → Option (Result ServiceError (Route fl) × World)
    get_optimal_route sv env src dst w =
        prefer (cached_route env src dst w) w (calculate_route sv env src dst w)

    -- One client and one exit of `RecalculateAllRoutes`, with what the search gives.
    unfoldable pub keep :
        Service → Env → Option (Result RouteError (Route fl)) → World → Option World
    keep sv env none w = none
    keep sv env (some (err e)) w = some w
    keep sv env (some (ok route)) w = some (cache sv env route w)

    unfoldable pub recalculate :
        Service → Env → Graph fl → (src dst : NodeInfo) → World → Option World
    recalculate sv env g src dst w =
        keep sv env (shortest_path fl heap g src.id dst.id env.now env.now) w

    unfoldable pub recalculate_exits :
        Service → Env → Graph fl → NodeInfo → List NodeInfo → World → Option World
    recalculate_exits sv env g client [] w = some w
    recalculate_exits sv env g client (exit ∷ exits) w =
        and_then (recalculate_exits sv env g client exits) (recalculate sv env g client exit w)

    unfoldable pub recalculate_clients :
        Service → Env → Graph fl → (clients exits : List NodeInfo) → World → Option World
    recalculate_clients sv env g [] exits w = some w
    recalculate_clients sv env g (client ∷ clients) exits w =
        and_then (recalculate_clients sv env g clients exits)
          (recalculate_exits sv env g client exits w)

    -- `RecalculateAllRoutes`
    unfoldable pub recalculate_all_routes :
        Service → Env → World → Option (Result ServiceError World)
    recalculate_all_routes sv env w =
        if not (env.up Query.online) || not (env.up Query.metrics)
        then some (err failed)
        else (let nodes = map info_of (get_all_online w.nodes) in
            elim (recalculate_clients sv env (online_graph sv env w) (of_type "client" nodes)
              (of_type "exit" nodes) w) [ none ↦ none | some w' ↦ some (ok w') ])
