-- ===== src/Control/RouteService/Recalculated.antt =====
-- What `RecalculateAllRoutes` of control-plane/service/route_service.go leaves in the table.

use res.Base.{
  ◌≡◌, ◌⊎◌, inl, inr, refl, subst, sym, ap, ◌∙◌, true, false, List, [], ◌∷◌, Option, some, Result,
  ok, err, map,
}
use res.Control.Nodes.{get_all_online}
use res.Control.Graph.{Floats, NodeInfo, Graph}
use res.Control.Graph.Links.{IsIn, IsIn-append, IsIn-append_left, IsIn-append_last}
use res.Control.Paths.{Heap, item_less, Route, RouteError, is_node, shortest_path}
use res.Control.Paths.Order.{IsOrdered}
use res.Control.Paths.Built.{IsSigned, IsNonnegative}
use res.Control.Routes.{Row, Table, stored, upsert}
use res.Control.Routes.Fresh.{IsFresh, upsert_appends}
use res.Control.RouteService.{
  Env, Query, Service, World, info_of, of_type, and_then, online_graph, cache, keep, recalculate,
  recalculate_exits, recalculate_clients, recalculate_all_routes,
}
use res.Control.RouteService.Calculated.{search_ends_online}

module _ (fl : Floats) (heap : Heap (item_less fl)) (sv : Service fl) (env : Env) (w : World fl)
    (g : Graph fl) (clients exits : List NodeInfo) where
  abbrev pub found : NodeInfo → NodeInfo → Option (Result RouteError (Route fl))
  found client exit = shortest_path fl heap g client.id exit.id env.now env.now

  -- A row for a route that the search found from a client to an exit.
  abbrev pub IsFound : Row fl → Type 0
  IsFound row =
      (client : NodeInfo) × ((exit : NodeInfo) × ((route : Route fl) × IsIn client clients
          × IsIn exit exits
          × (found client exit ≡ some (ok route))
          × (row.route ≡ stored fl sv.real route)))

  -- No row is lost, and every other is for such a route.
  abbrev pub Grows : Table fl → Table fl → Type 0
  Grows t t' =
      IsFresh fl t'
      × ((row : Row fl) → IsIn row t.rows → IsIn row t'.rows)
      × ((row : Row fl) → IsIn row t'.rows → IsIn row t.rows ⊎ IsFound row)

  -- The route from the client to the exit, if the search found one, is in the table.
  abbrev pub IsStored : NodeInfo → NodeInfo → Table fl → Type 0
  IsStored client exit t =
      (route : Route fl)
      → found client exit ≡ some (ok route)
      → (row : Row fl) × IsIn row t.rows × (row.route ≡ stored fl sv.real route)

  abbrev with_routes : Table fl → World fl
  with_routes t = record w { routes = t }

  Grows-trans : (t u v : Table fl) → Grows t u → Grows u v → Grows t v
  Grows-trans t u v (_, kept, new) (fresh, kept', new') = (
    fresh,
    λ row i. kept' row (kept row i),
    λ row i. elim (new' row i) [ inl j ↦ new row j | inr f ↦ inr f ],
  )

  IsStored-Grows :
      (client exit : NodeInfo) (t u : Table fl)
      → Grows t u
      → IsStored client exit t
      → IsStored client exit u
  IsStored-Grows client exit t u grown s route e =
      let (row, i, q) = s route e in (row, grown.1 row i, q)

  module _ (up : env.up Query.store ≡ true) where
    keep_found :
        (client exit : NodeInfo) (t : Table fl) (x : Result RouteError (Route fl))
        → IsFresh fl t
        → IsIn client clients
        → IsIn exit exits
        → found client exit ≡ some x
        → (u : Table fl) × (keep fl heap sv env (some x) (with_routes t) ≡ some (with_routes u))
          × Grows t u
          × IsStored client exit u
    unfolding keep cache
    keep_found client exit t (err x) fresh i j e =
        (t, refl, (fresh, λ row k. k, λ row k. inl k), λ route q. absurd (cc (e, q)))
    keep_found client exit t (ok route) fresh i j e =
        let (rows, fresh') = upsert_appends fl sv.real route t fresh in
        let row : Row fl = record { id = t.next_id; route = stored fl sv.real route } in
        (
          upsert fl sv.real route t,
          rw up refl,
          (
            fresh',
            λ old k. subst (IsIn old) (sym rows) (IsIn-append_left old t.rows (row ∷ []) k),
            λ new k. elim (IsIn-append new row t.rows (subst (IsIn new) rows k)) [
              | inl old ↦ inl old
              | inr q ↦ inr (client, (exit, (route, i, j, e, ap (λ r. r.route) (sym q))))
            ],
          ),
          λ other q. (
            row,
            subst (IsIn row) (sym rows) (IsIn-append_last row t.rows),
            ap (stored fl sv.real) (cc (e, q)),
          ),
        )

    module _
        (ends : (client exit : NodeInfo)
          → (x : Result RouteError (Route fl)) × (found client exit ≡ some x)) where
      recalculate-Grows :
          (client exit : NodeInfo) (t : Table fl)
          → IsFresh fl t
          → IsIn client clients
          → IsIn exit exits
          → (u : Table fl) × (recalculate fl heap sv env g client exit (with_routes t)
              ≡ some (with_routes u))
            × Grows t u
            × IsStored client exit u
      unfolding recalculate
      recalculate-Grows client exit t fresh i j =
          let (x, e) = ends client exit in
          let (u, q, grown, kept) = keep_found client exit t x fresh i j e in
          (u, ap (λ y. keep fl heap sv env y (with_routes t)) e ∙ q, grown, kept)

      recalculate_exits-Grows :
          (client : NodeInfo) (xs : List NodeInfo) (t : Table fl)
          → IsFresh fl t
          → IsIn client clients
          → ((x : NodeInfo) → IsIn x xs → IsIn x exits)
          → (u : Table fl) × (recalculate_exits fl heap sv env g client xs (with_routes t)
              ≡ some (with_routes u))
            × Grows t u
            × ((x : NodeInfo) → IsIn x xs → IsStored client x u)
      unfolding recalculate_exits and_then
      recalculate_exits-Grows client [] t fresh i all =
          (t, refl, (fresh, λ row k. k, λ row k. inl k), λ x k. absurd k)
      recalculate_exits-Grows client (exit ∷ xs) t fresh i all =
          let (u, q, grown, here) = recalculate-Grows client exit t fresh i (all exit (inl refl)) in
          let (v, q', grown', there) =
            recalculate_exits-Grows client xs u grown.0 i (λ x k. all x (inr k)) in
          (
            v,
            ap (and_then (recalculate_exits fl heap sv env g client xs)) q ∙ q',
            Grows-trans t u v grown grown',
            λ x k. elim k [
              | inl e ↦
                  subst (λ y. IsStored client y v) e (IsStored-Grows client exit u v grown' here)
              | inr l ↦ there x l
            ],
          )

      recalculate_clients-Grows :
          (cs : List NodeInfo) (t : Table fl)
          → IsFresh fl t
          → ((c : NodeInfo) → IsIn c cs → IsIn c clients)
          → (u : Table fl) × (recalculate_clients fl heap sv env g cs exits (with_routes t)
              ≡ some (with_routes u))
            × Grows t u
            × ((c x : NodeInfo) → IsIn c cs → IsIn x exits → IsStored c x u)
      unfolding recalculate_clients and_then
      recalculate_clients-Grows [] t fresh all =
          (t, refl, (fresh, λ row k. k, λ row k. inl k), λ c x k. absurd k)
      recalculate_clients-Grows (client ∷ cs) t fresh all =
          let (u, q, grown, here) =
            recalculate_exits-Grows client exits t fresh (all client (inl refl)) (λ x k. k) in
          let (v, q', grown', there) =
            recalculate_clients-Grows cs u grown.0 (λ c k. all c (inr k)) in
          (
            v,
            ap (and_then (recalculate_clients fl heap sv env g cs exits)) q ∙ q',
            Grows-trans t u v grown grown',
            λ c x k l. elim k [
              | inl e ↦
                  subst (λ d. IsStored d x v) e (IsStored-Grows client x u v grown' (here x l))
              | inr m ↦ there c x m l
            ],
          )

module _ (fl : Floats) (o : IsOrdered fl) (sg : IsSigned fl) (heap : Heap (item_less fl))
    (sv : Service fl) (nonneg : IsNonnegative fl sv.weights) (env : Env) (w : World fl) where
  abbrev pub online : List NodeInfo
  online = map info_of (get_all_online w.nodes)

  -- With weights that are not negative, over numbers that satisfy IsOrdered and IsSigned, where no
  -- online node has the empty identifier, the ids of the table come from its sequence and the
  -- database answers, the recalculation ends and leaves a table that has every row it had, a row
  -- for the route that the search finds from each online client to each online exit, if it finds
  -- one, and no other row.
  pub recalculate_all_routes-Grows :
      is_node fl "" (online_graph fl sv env w) ≡ false
      → IsFresh fl w.routes
      → env.up Query.online ≡ true
      → env.up Query.metrics ≡ true
      → env.up Query.store ≡ true
      → (t : Table fl) × (recalculate_all_routes fl heap sv env w
          ≡ some (ok (record w { routes = t })))
        × Grows fl heap sv env w
            (online_graph fl sv env w)
            (of_type "client" online)
            (of_type "exit" online)
            w.routes
            t
        × ((client exit : NodeInfo)
            → IsIn client (of_type "client" online)
            → IsIn exit (of_type "exit" online)
            → IsStored fl heap sv env w
                (online_graph fl sv env w)
                (of_type "client" online)
                (of_type "exit" online)
                client
                exit
                t)
  unfolding recalculate_all_routes and_then
  recalculate_all_routes-Grows unnamed fresh k l m =
      let (t, e, grown, all) =
        recalculate_clients-Grows fl heap sv env w (online_graph fl sv env w)
          (of_type "client" online) (of_type "exit" online) m
          (λ c x. search_ends_online fl o sg heap sv nonneg env w unnamed c.id x.id)
          (of_type "client" online) w.routes fresh (λ c i. i) in
      (t, rw (k, l) (ap (and_then (λ w'. some (ok w'))) e), grown, all)
