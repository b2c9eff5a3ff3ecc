-- ===== src/Control/RouteService/Answers.antt =====
-- The answers of the route service: relay endpoints and route responses of
-- control-plane/service/route_service.go, GetOptimal and GetRelay of control-plane/handler/route.go.
use Prim.Native.Char.{code}
use Prim.Native.String.{String}
use res.Base.{
  ℕ, not, ◌||◌, Option, none, some, [], ◌∷◌, if◌then◌else◌, Result, ok, err, ◌==◌, string_eq,
  nat_beq,
}
use res.Crypto.{Hmac, Base64}
use res.Control.Nodes.{Node, text_or_empty, get_by_id}
use res.Control.Graph.{Floats}
use res.Control.Paths.{Heap, item_less, Route, ConnectionType}
use res.Control.Relays.{RelayServer, get_best_available}
use res.Control.MeshToken.{issue_mesh_token}
use res.Control.NodeHandler.{Answer, write_error, write_json}
use res.Control.RouteService.{
  Env, Query, Service, World, ServiceError, no_route_available, relay_unavailable, not_found,
  failed, get_optimal_route,
}

pub record RelayEndpoint : Type 0 where
  pub address : String
  pub vless_port : ℕ
  pub vless_uuid : String
  pub reality_public_key : String
  pub reality_sni : String
  pub reality_short_id : String
  pub dispatch_port : ℕ
  pub mesh_token : String

pub record PeerInfo : Type 0 where
  pub public_key : String
  pub endpoint : String
  pub internal_ip : Option ℕ
  pub node_type : String

-- `csv[:idx]` before the first comma; all of it where there is none.
unfoldable pub until_comma : String → String
until_comma String.[] = ""
until_comma (String.◌∷◌ c s) =
    let rest = until_comma s in if nat_beq (code c) 44 then "" else String.◌∷◌ c rest

-- `firstShortID`; strings.TrimSpace is a parameter.
unfoldable pub first_short_id : (String → String) → String → String
first_short_id trim_space csv = if csv == "" then "" else trim_space (until_comma csv)

module _ (fl : Floats) where
  pub record RouteResponse : Type 0 where
    pub route : Route fl
    pub connection_type : ConnectionType
    pub dst_peer : PeerInfo
    pub relay : Option RelayEndpoint

  module _ (heap : Heap (item_less fl)) where
    -- `pubkeyOfNode`
    unfoldable pub pubkey_of_node : Env → String → World fl → String
    pubkey_of_node env id w =
        if id == "" then "" else elim (if env.up Query.caller then get_by_id id w.nodes else none) [
          | none ↦ ""
          | some n ↦ n.public_key
        ]

    -- `GetBestAvailable` of the relays, with its errors.
    unfoldable pub best_relay : Env → World fl → Result ServiceError RelayServer
    best_relay env w =
        if env.up Query.relay
        then elim (get_best_available env.now w.relays) [
          | none ↦ err relay_unavailable
          | some r ↦ ok r
        ]
        else err failed

    module _ (h : Hmac) (b : Base64) where
      -- `buildRelayEndpoint`
      unfoldable pub build_relay_endpoint : Service fl → Env → RelayServer → String → RelayEndpoint
      build_relay_endpoint sv env r caller_pubkey = record {
        address = r.address;
        vless_port = r.vless_port;
        vless_uuid = text_or_empty r.vless_uuid;
        reality_public_key = r.reality_public_key;
        reality_sni = r.reality_sni;
        reality_short_id = first_short_id sv.trim_space r.reality_short_ids;
        dispatch_port = sv.mesh_dispatch_port;
        mesh_token = issue_mesh_token h b sv.mesh_auth_key caller_pubkey env.now;
      }

      unfoldable pub endpoint_of :
          Service fl
          → Env
          → String
          → World fl
          → Result ServiceError RelayServer
          → Result ServiceError RelayEndpoint
      endpoint_of sv env caller_node w (err e) = err e
      endpoint_of sv env caller_node w (ok r) =
          ok (build_relay_endpoint sv env r (pubkey_of_node env caller_node w))

      -- `GetRelayEndpoint`
      unfoldable pub get_relay_endpoint :
          Service fl → Env → (caller_node : String) → World fl → Result ServiceError RelayEndpoint
      get_relay_endpoint sv env caller_node w = endpoint_of sv env caller_node w (best_relay env w)

      unfoldable pub peer_of : Node → PeerInfo
      peer_of n = record {
        public_key = n.public_key;
        endpoint = text_or_empty n.endpoint;
        internal_ip = n.internal_ip;
        node_type = n.node_type;
      }

      -- The record that stands in where no route was found.
      unfoldable pub fallback : (src dst : String) → Route fl
      fallback src dst = record {
        src_node_id = src;
        dst_node_id = dst;
        path = src ∷ dst ∷ [];
        cost = fl.lit 0;
        connection_type = ConnectionType.relay;
        relay_node_id = "";
        created_at = 0;
        expires_at = 0;
      }

      unfoldable pub without_relay : Route fl → Node → RouteResponse
      without_relay route dst = record {
        route = route;
        connection_type = route.connection_type;
        dst_peer = peer_of dst;
        relay = none;
      }

      -- The response with a relay, if there is one.
      unfoldable pub relayed :
          Service fl
          → Env
          → String
          → Node
          → Route fl
          → World fl
          → Result ServiceError RelayServer
          → Result ServiceError RouteResponse
      relayed sv env src dst route w (err e) = err e
      relayed sv env src dst route w (ok r) = ok (record {
        route = record route { relay_node_id = r.id };
        connection_type = ConnectionType.relay;
        dst_peer = peer_of dst;
        relay = some (build_relay_endpoint sv env r (pubkey_of_node env src w));
      })

      unfoldable pub respond_by :
          ConnectionType
          → Service fl
          → Env
          → String
          → Node
          → Route fl
          → World fl
          → Result ServiceError RouteResponse
      respond_by ConnectionType.relay sv env src dst route w =
          relayed sv env src dst route w (best_relay env w)
      respond_by ConnectionType.direct sv env src dst route w = ok (without_relay route dst)
      respond_by ConnectionType.stun sv env src dst route w = ok (without_relay route dst)

      -- The response to a route, its relay included.
      unfoldable pub respond :
          Service fl → Env → String → Node → Route fl → World fl → Result ServiceError RouteResponse
      respond sv env src dst route w = respond_by route.connection_type sv env src dst route w

      -- A route, or the stand-in where none is available.
      unfoldable pub respond_to :
          Service fl
          → Env
          → (src dst : String) → Node
          → Result ServiceError (Route fl)
          → World fl
          → Result ServiceError RouteResponse
      respond_to sv env src dst n (ok route) w = respond sv env src n route w
      respond_to sv env src dst n (err no_route_available) w =
          respond sv env src n (fallback src dst) w
      respond_to sv env src dst n (err e) w = err e

      unfoldable pub response_to :
          Service fl
          → Env
          → (src dst : String) → Node
          → Option (Result ServiceError (Route fl) × World fl)
          → Option (Result ServiceError RouteResponse × World fl)
      response_to sv env src dst n none = none
      response_to sv env src dst n (some (r, w)) = some (respond_to sv env src dst n r w, w)

      -- `GetOptimalRouteResponse`
      unfoldable pub get_optimal_route_response :
          Service fl
          → Env
          → (src dst : String) → World fl
          → Option (Result ServiceError RouteResponse × World fl)
      get_optimal_route_response sv env src dst w =
          if not (env.up Query.destination)
          then some (err failed, w)
          else elim (get_by_id dst w.nodes) [
            | none ↦ some (err not_found, w)
            | some n ↦ response_to sv env src dst n (get_optimal_route fl heap sv env src dst w)
          ]

      -- `GetOptimal` of the handler.
      unfoldable pub get_optimal_answer :
          Service fl
          → Env
          → (from to : String) → World fl
          → Option (Answer RouteResponse × World fl)
      get_optimal_answer sv env from to w =
          if (from == "") || (to == "")
          then some (write_error 400 "from and to query params are required", w)
          else elim (get_optimal_route_response sv env from to w) [
            | none ↦ none
            | some (ok resp, w') ↦ some (write_json 200 resp, w')
            | some (err e, w') ↦ some (write_error 404 "no route available", w')
          ]

      -- `GetRelay` of the handler; the node is that of the verified token.
      unfoldable pub get_relay : Service fl → Env → String → World fl → Answer RelayEndpoint
      get_relay sv env caller_node w = elim (get_relay_endpoint sv env caller_node w) [
        | ok endpoint ↦ write_json 200 endpoint
        | err e ↦ write_error 404 "no relay available"
      ]
