-- ===== src/Control/RouteTests.antt =====
-- The route table and the route service on an exit, two clients behind NAT and one relay.
use res.Base.{
  ◌≡◌, ◌⊎◌, ◌≤◌, ◌+◌, true, inr, refl, inl, [], ◌∷◌, ◌++◌, some, ok, err, leb, if◌then◌else◌, arith,
  map, get, put, string_eq, Bytes,
}
use res.Relay.Auth.{authenticate, expired}
use res.Control.Nodes.{Node, get_all_online, get_by_id, find}
use res.Control.Graph.{build_graph, node_index}
use res.Control.Graph.Links.{IsIn}
use res.Control.Paths.{is_node}
use res.Control.Routes.{Row, Table, stored, upsert, get_optimal}
use res.Control.Routes.Fresh.{IsFresh}
use res.Control.Routes.Cached.{IsCurrent, get_optimal-upsert}
use res.Control.Paths.Order.{AtMost, Below}
use res.Control.Relays.{RelayServer, get_best_available, is_available, first_of, freest, new_relay}
use res.Control.Relays.Best.{slots}
use res.Control.MeshToken.{mesh_token_ttl}
use res.Control.RouteService.{
  Env, Service, World, info_of, of_type, online_graph, calculate_route, recalculate_all_routes,
}
use res.Control.RouteService.Answers.{RelayEndpoint, get_relay_endpoint}
use res.Control.RouteService.Calculated.{IsCalculated, calculate_route_lem}
use res.Control.RouteService.Endpoint.{get_relay_endpoint-authenticate}
use res.Control.RouteService.Recalculated.{Grows, IsStored, recalculate_all_routes-Grows}
use res.Control.GraphTests.{whole, weights}
use res.Control.PathTests.{heap, detour, whole-IsOrdered, whole-IsSigned}
use res.Control.ToyCrypto.{toy_hmac, toy_base64, toy_encode, raw_key}
use res.Control.Tests.{phone}
use res.Control.RelayTests.{relay_env, relay}

abbrev client : Node
client = record phone { id = "p"; public_key = toy_encode raw_key }

abbrev other_client : Node
other_client = record phone { id = "l" }

abbrev exit_node : Node
exit_node = record phone { id = "x"; node_type = "exit"; endpoint = some "e:51820" }

abbrev server : RelayServer
server = new_relay relay_env relay "private" "public" "short"

abbrev world : World whole
world = record {
  nodes = record { nodes = exit_node ∷ client ∷ other_client ∷ []; ip_allocations = [] };
  samples = [];
  routes = record { rows = []; next_id = 1 };
  relays = server ∷ [];
}

abbrev service : Service whole
service = record {
  weights = weights;
  mesh_auth_key = 1 ∷ [];
  mesh_dispatch_port = 8444;
  real = λ cost. cost;
  trim_space = λ s. s;
}

abbrev answering : Env
answering = record { up = λ q. true; now = 7; tie = λ i j. true }

abbrev first_row : Row whole
first_row = record { id = 1; route = stored whole service.real detour }

get_optimal-upsert_example :
    (s : Row whole) × (get_optimal whole answering.tie 7 "p" "l"
        (upsert whole service.real detour world.routes)
      ≡ some s)
    × ((s ≡ first_row) ⊎ IsCurrent whole whole-IsOrdered answering.tie 7 detour world.routes s)
    × ((x : Row whole)
        → IsCurrent whole whole-IsOrdered answering.tie 7 detour world.routes x
        → AtMost whole s.route.cost x.route.cost)
    × ((x : Row whole)
        → IsCurrent whole whole-IsOrdered answering.tie 7 detour world.routes x
        → Below whole x.route.cost 1998
        → IsCurrent whole whole-IsOrdered answering.tie 7 detour world.routes s)
    × (((x : Row whole)
          → IsCurrent whole whole-IsOrdered answering.tie 7 detour world.routes x
          → Below whole 1998 x.route.cost)
        → s ≡ first_row)
unfolding IsFresh
get_optimal-upsert_example =
    get_optimal-upsert whole whole-IsOrdered answering.tie service.real detour 7 world.routes tt
      (omega arith)

calculate_route_lem_example :
    IsCalculated whole service answering world "p" "l"
      (calculate_route whole heap service answering "p" "l" world)
unfolding is_node build_graph node_index get put get_all_online info_of
calculate_route_lem_example =
    calculate_route_lem whole whole-IsOrdered whole-IsSigned heap service (refl, refl, refl, refl)
      answering world refl "p" "l" (client, inr (inl refl), refl)
      (other_client, inr (inr (inl refl)), refl) refl refl

get_relay_endpoint-authenticate_example :
    (endpoint : RelayEndpoint) × (get_relay_endpoint whole heap toy_hmac toy_base64 service
        answering "p" world
      ≡ ok endpoint)
    × (IsIn server world.relays
        × (is_available 7 server ≡ true)
        × ((x : RelayServer)
            → IsIn x world.relays
            → is_available 7 x ≡ true
            → slots x ≤ slots server)
        × (endpoint.address ≡ server.address))
    × ((token : Bytes) × (toy_base64.decode endpoint.mesh_token ≡ some token)
        × (authenticate toy_hmac (1 ∷ []) (raw_key ++ (token ++ 5 ∷ [])) 9
            ≡ (if leb 9 (7 + mesh_token_ttl) then ok raw_key else err expired)))
unfolding get_by_id find get_best_available first_of freest new_relay
get_relay_endpoint-authenticate_example =
    get_relay_endpoint-authenticate whole heap toy_hmac toy_base64 service answering "p" world
      client server raw_key (5 ∷ []) 9 (λ e. cc e) refl refl refl refl (λ e. cc e)
      (toy_base64.decode-encode raw_key) refl (omega arith)

recalculate_all_routes-Grows_example :
    (t : Table whole) × (recalculate_all_routes whole heap service answering world
      ≡ some (ok (record world { routes = t })))
    × Grows whole heap service answering world
        (online_graph whole service answering world)
        (of_type "client" (map info_of (get_all_online world.nodes)))
        (of_type "exit" (map info_of (get_all_online world.nodes)))
        world.routes
        t
    × ((client exit : _)
        → IsIn client (of_type "client" (map info_of (get_all_online world.nodes)))
        → IsIn exit (of_type "exit" (map info_of (get_all_online world.nodes)))
        → IsStored whole heap service answering world
            (online_graph whole service answering world)
            (of_type "client" (map info_of (get_all_online world.nodes)))
            (of_type "exit" (map info_of (get_all_online world.nodes)))
            client
            exit
            t)
unfolding is_node build_graph node_index get put get_all_online info_of IsFresh
recalculate_all_routes-Grows_example =
    recalculate_all_routes-Grows whole whole-IsOrdered whole-IsSigned heap service
      (refl, refl, refl, refl) answering world refl tt refl refl refl
