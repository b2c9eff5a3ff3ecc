-- ===== src/Control/RouteService/Endpoint.antt =====
-- From `GetRelayEndpoint` of control-plane/service/route_service.go to the dispatcher of
-- relay-node/mesh/dispatcher.go.
use Prim.Native.String.{String}
use res.Base.{
  ℕ, ◌+◌, ◌≤◌, ◌<◌, ◌^◌, ◌≡◌, ◌≢◌, refl, ap, ◌∙◌, true, some, [], ◌++◌, Bytes, ok, err, length, leb,
  if◌then◌else◌, ◌==◌, ==_iff, string_eq, Bool-cases, inl, inr,
}
use res.Crypto.{Hmac, Base64}
use res.Relay.Auth.{authenticate, expired}
use res.Control.Nodes.{Node, get_by_id}
use res.Control.Graph.{Floats}
use res.Control.Graph.Links.{IsIn}
use res.Control.Paths.{Heap, item_less}
use res.Control.Relays.{RelayServer, is_available, get_best_available}
use res.Control.Relays.Best.{slots, get_best_available-eq-some}
use res.Control.MeshToken.{mesh_token_ttl, issue-authenticate}
use res.Control.RouteService.{Env, Query, Service, World}
use res.Control.RouteService.Answers.{
  RelayEndpoint, best_relay, pubkey_of_node, build_relay_endpoint, endpoint_of, get_relay_endpoint,
}

module _ (fl : Floats) (heap : Heap (item_less fl)) (h : Hmac) (b : Base64) (sv : Service fl)
    (env : Env) (caller : String) (w : World fl) where
  best_relay-eq-ok :
      (r : RelayServer)
      → env.up Query.relay ≡ true
      → get_best_available env.now w.relays ≡ some r
      → best_relay fl heap env w ≡ ok r
  unfolding best_relay
  best_relay-eq-ok r u i = rw (u, i) refl

  pubkey_of_node-eq :
      (n : Node)
      → caller ≢ ""
      → env.up Query.caller ≡ true
      → get_by_id caller w.nodes ≡ some n
      → pubkey_of_node fl heap env caller w ≡ n.public_key
  unfolding pubkey_of_node
  pubkey_of_node-eq n named c d = elim (Bool-cases (caller == "")) [
    | inl e ↦ absurd (named ((==_iff caller "").0 e))
    | inr e ↦ rw (e, c, d) refl
  ]

  given :
      (n : Node) (r : RelayServer)
      → caller ≢ ""
      → env.up Query.caller ≡ true
      → env.up Query.relay ≡ true
      → get_by_id caller w.nodes ≡ some n
      → get_best_available env.now w.relays ≡ some r
      → get_relay_endpoint fl heap h b sv env caller w
        ≡ ok (build_relay_endpoint fl heap h b sv env r n.public_key)
  unfolding get_relay_endpoint endpoint_of
  given n r named c u d i =
      ap (endpoint_of fl heap h b sv env caller w) (best_relay-eq-ok r u i)
      ∙ ap (λ k. ok (build_relay_endpoint fl heap h b sv env r k)) (pubkey_of_node-eq n named c d)

  -- Where the database answers, a relay is available and the expiry fits into 63 bits, a caller
  -- that is known, with a public key of 32 bytes, gets from a service with a key the address of a
  -- relay of the table, seen in the last 5 minutes, with the most free slots, and a token that a
  -- dispatcher with the same key takes behind that public key until a week has passed, and refuses
  -- as expired from then on.
  pub get_relay_endpoint-authenticate :
      (n : Node) (r : RelayServer) (raw rest : Bytes) (later : ℕ)
      → caller ≢ ""
      → env.up Query.caller ≡ true
      → env.up Query.relay ≡ true
      → get_by_id caller w.nodes ≡ some n
      → get_best_available env.now w.relays ≡ some r
      → sv.mesh_auth_key ≢ []
      → b.decode n.public_key ≡ some raw
      → length raw ≡ 32
      → env.now + mesh_token_ttl < 2 ^ 63
      → (endpoint : RelayEndpoint) × (get_relay_endpoint fl heap h b sv env caller w ≡ ok endpoint)
        × (IsIn r w.relays
            × (is_available env.now r ≡ true)
            × ((x : RelayServer)
                → IsIn x w.relays
                → is_available env.now x ≡ true
                → slots x ≤ slots r)
            × (endpoint.address ≡ r.address))
        × ((token : Bytes) × (b.decode endpoint.mesh_token ≡ some token)
            × (authenticate h sv.mesh_auth_key (raw ++ (token ++ rest)) later
                ≡ (if leb later (env.now + mesh_token_ttl) then ok raw else err expired)))
  unfolding build_relay_endpoint
  get_relay_endpoint-authenticate n r raw rest later named c u d i key e l t =
      let (token, q, _, accepted) =
        issue-authenticate h b sv.mesh_auth_key rest n.public_key raw env.now later key e l t in
      let (j, k, most) = get_best_available-eq-some env.now w.relays r i in
      (
        build_relay_endpoint fl heap h b sv env r n.public_key,
        given n r named c u d i,
        (j, k, most, refl),
        (token, q, accepted),
      )
