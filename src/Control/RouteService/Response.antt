-- ===== src/Control/RouteService/Response.antt =====
-- The answers of `GetOptimalRouteResponse` of control-plane/service/route_service.go.
use Prim.Native.String.{String}
use res.Base.{◌≡◌, ◌⊎◌, false, none, some, Result, ok, err}
use res.Crypto.{Hmac, Base64}
use res.Control.Nodes.{Node, get_by_id}
use res.Control.Graph.{Floats}
use res.Control.Paths.{Heap, item_less, Route, RouteError, shortest_path}
use res.Control.Relays.{get_best_available}
use res.Control.RouteService.Relayed.{IsComplete}
use res.Control.RouteService.Answers.{RouteResponse, fallback}
use res.Control.RouteService.{Env, Query, Service, World, ServiceError, online_graph, cached_route}

module _ (fl : Floats) (heap : Heap (item_less fl)) (h : Hmac) (b : Base64) (sv : Service fl)
    (env : Env) (src dst : String) where
  -- The table has no current route and the search, run on the online nodes, finds none.
  abbrev pub HasNoRoute : World fl → Type 0
  HasNoRoute w =
      (cached_route fl heap env src dst w ≡ none)
      × ((e : RouteError) × (shortest_path fl heap (online_graph fl sv env w) src dst env.now
              env.now
            ≡ some (err e)))

  -- The route that a response stands on: the one that the table has; where it has none, the one of
  -- the search; and only where that finds none either, the stand-in.
  abbrev pub IsSource : World fl → Route fl → Type 0
  IsSource w route =
      (cached_route fl heap env src dst w ≡ some route)
      ⊎ (((cached_route fl heap env src dst w ≡ none)
            × (shortest_path fl heap (online_graph fl sv env w) src dst env.now env.now
                ≡ some (ok route)))
          ⊎ (HasNoRoute w × (route ≡ fallback fl heap h b src dst)))

  -- What has to go wrong for an error.
  abbrev pub HasCause : World fl → Type 0
  HasCause w =
      (env.up Query.destination ≡ false)
      ⊎ ((get_by_id dst w.nodes ≡ none)
          ⊎ ((env.up Query.online ≡ false)
              ⊎ ((env.up Query.metrics ≡ false)
                  ⊎ ((env.up Query.relay ≡ false) ⊎ (get_best_available env.now w.relays ≡ none)))))

  abbrev pub IsAnswer : World fl → Result ServiceError (RouteResponse fl) → Type 0
  IsAnswer w (ok resp) =
      (n : Node) × (get_by_id dst w.nodes ≡ some n)
      × ((route : Route fl) × IsSource w route × IsComplete fl heap h b sv env src w route n resp)
  IsAnswer w (err e) = HasCause w

  -- What `get_optimal_route` stands on.
  abbrev IsSourced : World fl → Result ServiceError (Route fl) → Type 0
  IsSourced w (ok route) = IsSource w route
  IsSourced w (err ServiceError.no_route_available) = HasNoRoute w
  IsSourced w (err ServiceError.failed) =
      (env.up Query.online ≡ false) ⊎ (env.up Query.metrics ≡ false)
  IsSourced w (err ServiceError.relay_unavailable) = ⊥
  IsSourced w (err ServiceError.not_found) = ⊥
