-- ===== src/Control/RouteService/Relayed.antt =====
-- The response that `GetOptimalRouteResponse` of control-plane/service/route_service.go makes of a
-- route.
use Prim.Native.String.{String}
use res.Base.{
  ◌≡◌, ◌≢◌, ◌⊎◌, inl, inr, refl, sym, subst, ap, ◌∙◌, Bool-cases, false, Option-cases, none, some,
  Result, ok, err,
}
use res.Crypto.{Hmac, Base64}
use res.Control.Nodes.{Node}
use res.Control.Graph.{Floats}
use res.Control.Paths.{Heap, item_less, Route, ConnectionType}
use res.Control.Routes.{Table}
use res.Control.Relays.{RelayServer, get_best_available}
use res.Control.RouteService.Answers.{
  RouteResponse, best_relay, pubkey_of_node, build_relay_endpoint, peer_of, without_relay, relayed,
  respond_by, respond,
}
use res.Control.RouteService.{Env, Query, Service, World, ServiceError}

module _ (fl : Floats) (heap : Heap (item_less fl)) (h : Hmac) (b : Base64) (sv : Service fl)
    (env : Env) (src : String) where
  -- With a relay connection, the freest relay's endpoint, for the public key of the source node; no
  -- endpoint with any other.
  abbrev pub IsComplete : World fl → Route fl → Node → RouteResponse fl → Type 0
  IsComplete w route n resp =
      (resp.dst_peer ≡ peer_of fl heap h b n)
      × (resp.connection_type ≡ route.connection_type)
      × (((resp.connection_type ≢ ConnectionType.relay)
            × (resp.relay ≡ none)
            × (resp.route ≡ route))
          ⊎ ((resp.connection_type ≡ ConnectionType.relay)
              × ((r : RelayServer) × (get_best_available env.now w.relays ≡ some r)
                  × (resp.relay
                      ≡ some (
                          build_relay_endpoint fl heap h b sv env r
                            (pubkey_of_node fl heap env src w)))
                  × (resp.route ≡ record route { relay_node_id = r.id }))))

  best_relay-cases :
      (w : World fl)
      → ((r : RelayServer) × (best_relay fl heap env w ≡ ok r)
          × (get_best_available env.now w.relays ≡ some r))
        ⊎ ((e : ServiceError) × (best_relay fl heap env w ≡ err e)
            × ((env.up Query.relay ≡ false) ⊎ (get_best_available env.now w.relays ≡ none)))
  unfolding best_relay
  best_relay-cases w = elim (Bool-cases (env.up Query.relay)) [
    | inr k ↦ inr (ServiceError.failed, rw k refl, inl k)
    | inl k ↦ elim (Option-cases (get_best_available env.now w.relays)) [
      | inr (r, e) ↦ inl (r, rw (k, e) refl, e)
      | inl e ↦ inr (ServiceError.relay_unavailable, rw (k, e) refl, inr e)
    ]
  ]

  -- What `respond` makes of a route.
  abbrev pub IsResponse :
      World fl → Route fl → Node → Result ServiceError (RouteResponse fl) → Type 0
  IsResponse w route n (ok resp) = IsComplete w route n resp
  IsResponse w route n (err e) =
      (env.up Query.relay ≡ false) ⊎ (get_best_available env.now w.relays ≡ none)

  abbrev with_relay : World fl → Route fl → Node → RelayServer → RouteResponse fl
  with_relay w route n r = record {
    route = record route { relay_node_id = r.id };
    connection_type = ConnectionType.relay;
    dst_peer = peer_of fl heap h b n;
    relay = some (build_relay_endpoint fl heap h b sv env r (pubkey_of_node fl heap env src w));
  }

  respond-with_relay :
      (w : World fl) (route : Route fl) (n : Node) (r : RelayServer)
      → route.connection_type ≡ ConnectionType.relay
      → best_relay fl heap env w ≡ ok r
      → respond fl heap h b sv env src n route w ≡ ok (with_relay w route n r)
  unfolding respond respond_by relayed
  respond-with_relay w route n r q e =
      ap (λ c. respond_by fl heap h b c sv env src n route w) q
      ∙ ap (relayed fl heap h b sv env src n route w) e

  respond_fails :
      (w : World fl) (route : Route fl) (n : Node) (x : ServiceError)
      → route.connection_type ≡ ConnectionType.relay
      → best_relay fl heap env w ≡ err x
      → respond fl heap h b sv env src n route w ≡ err x
  unfolding respond respond_by relayed
  respond_fails w route n x q e =
      ap (λ c. respond_by fl heap h b c sv env src n route w) q
      ∙ ap (relayed fl heap h b sv env src n route w) e

  respond-without_relay :
      (w : World fl) (route : Route fl) (n : Node)
      → route.connection_type ≢ ConnectionType.relay
      → respond fl heap h b sv env src n route w ≡ ok (without_relay fl heap h b route n)
  unfolding respond respond_by
  respond-without_relay w route n q = go route.connection_type refl
    where
      go :
          (c : ConnectionType)
          → route.connection_type ≡ c
          → respond fl heap h b sv env src n route w ≡ ok (without_relay fl heap h b route n)
      go ConnectionType.relay e = absurd (q e)
      go ConnectionType.direct e = ap (λ c. respond_by fl heap h b c sv env src n route w) e
      go ConnectionType.stun e = ap (λ c. respond_by fl heap h b c sv env src n route w) e

  is_relay : (c : ConnectionType) → (c ≡ ConnectionType.relay) ⊎ (c ≢ ConnectionType.relay)
  is_relay ConnectionType.relay = inl refl
  is_relay ConnectionType.direct = inr (λ e. cc e)
  is_relay ConnectionType.stun = inr (λ e. cc e)

  pub respond-IsResponse :
      (w : World fl) (route : Route fl) (n : Node)
      → IsResponse w route n (respond fl heap h b sv env src n route w)
  unfolding without_relay
  respond-IsResponse w route n = elim (is_relay route.connection_type) [
    | inr q ↦
        subst (IsResponse w route n) (sym (respond-without_relay w route n q))
          (refl, refl, inl (q, refl, refl))
    | inl q ↦ elim (best_relay-cases w) [
      | inl (r, e, i) ↦
          subst (IsResponse w route n) (sym (respond-with_relay w route n r q e))
            (refl, sym q, inr (refl, (r, i, refl, refl)))
      | inr (x, e, cause) ↦ subst (IsResponse w route n) (sym (respond_fails w route n x q e)) cause
    ]
  ]

  pub IsResponse-routes :
      (w : World fl) (t : Table fl) (route : Route fl) (n : Node)
      (r : Result ServiceError (RouteResponse fl))
      → IsResponse (record w { routes = t }) route n r
      → IsResponse w route n r
  unfolding pubkey_of_node
  IsResponse-routes w t route n (ok resp) i = i
  IsResponse-routes w t route n (err e) i = i
