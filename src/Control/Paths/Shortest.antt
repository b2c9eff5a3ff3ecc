-- ===== src/Control/Paths/Shortest.antt =====
-- ShortestPath finds a cheapest walk, or there is none below 1e18.
use Prim.Native.String.{String}
use mathlib.Core.List.{append-nil}
use res.Base.{
  ℕ, suc, ◌+◌, ◌≤◌, ◌≡◌, ◌⊎◌, ◌↔◌, inl, inr, refl, subst, ap, ◌∙◌, Bool-cases, false, List, [], ◌∷◌,
  Option, none, some, Result, ok, err, length, arith,
}
use res.Control.Graph.{Floats, Graph}
use res.Control.Paths.{
  Heap, item_less, Search, Route, RouteError, ConnectionType, infinity, is_node, finish,
  shortest_path, route_of, middle, edge_count, trace,
}
use res.Control.Paths.Order.{AtMost, Below, IsOrdered}
use res.Control.Paths.Invariant.{IsSound, IsNode, by_key}
use res.Control.Paths.Walks.{Walk}
use res.Control.Paths.Visit.{Final}
use res.Control.Paths.Loop.{search_ends}
use res.Control.Paths.Trace.{Traced, Traced-source, Traced-Parent, Traced-done}

direct_iff :
    (p : List String)
    → (elim (middle p) [ none ↦ ConnectionType.direct | some _ ↦ ConnectionType.relay ]
        ≡ ConnectionType.direct)
      ↔ (length p ≤ 2)
unfolding middle
direct_iff [] = (λ _. omega arith, λ _. refl)
direct_iff (a ∷ []) = (λ _. omega arith, λ _. refl)
direct_iff (a ∷ b ∷ []) = (λ _. omega arith, λ _. refl)
direct_iff (a ∷ b ∷ c ∷ p) = (λ h. absurd (ground arith), λ h. absurd (omega arith))

module _ (fl : Floats) (o : IsOrdered fl) (heap : Heap (item_less fl)) (g : Graph fl)
    (src dst : String) (created now : ℕ) where
  -- A route along a walk that costs less than 1e18 and no more than any other; or no walk does.
  abbrev pub IsShortest : Option (Result RouteError (Route fl)) → Type 0
  IsShortest r =
      ((route : Route fl) × (r ≡ some (ok route))
        × Walk fl g.edges src dst route.cost route.path
        × Below fl route.cost (infinity fl)
        × ((k : fl.F) (p : List String) → Walk fl g.edges src dst k p → AtMost fl route.cost k)
        × ((route.connection_type ≡ ConnectionType.direct) ↔ (length route.path ≤ 2)))
      ⊎ ((r ≡ some (err RouteError.no_path))
          × ((k : fl.F) (p : List String)
              → Walk fl g.edges src dst k p
              → AtMost fl (infinity fl) k))

  module _ (unnamed : is_node fl "" g ≡ false) (to : IsNode fl o heap g src dst) where
    traced :
        (done : List String) (s : Search fl) (f : ℕ) (end : Final fl o heap g src dst done s)
        → length done ≤ f
        → Below fl (s.dist dst) (infinity fl)
        → Traced fl o heap g src unnamed s end.source (suc f) dst []
    traced done s f end l near =
        by_key (Traced fl o heap g src unnamed s end.source (suc f) dst []) dst src
          (Traced-source fl o heap g src unnamed s end.source f dst [] to)
          (λ h.
            let p = end.parent dst to h near in
            Traced-Parent fl o heap g src unnamed s end.source f dst [] done to p (
              Traced-done fl o heap g src unnamed s end.source done f (s.prev dst) (dst ∷ []) p.0
                end.chained l))

    finish_near :
        (s : Search fl) (f : ℕ) (p : List String)
        → Below fl (s.dist dst) (infinity fl)
        → trace f s.prev src dst [] ≡ some p
        → finish fl f src dst created now s
          ≡ some (ok (route_of fl src dst p (s.dist dst) created now))
    unfolding finish
    finish_near s f p near e = rw (near, e) refl

    finish_far :
        (s : Search fl) (f : ℕ)
        → AtMost fl (infinity fl) (s.dist dst)
        → finish fl f src dst created now s ≡ some (err RouteError.no_path)
    unfolding finish
    finish_far s f far = rw far refl

    finish-IsShortest :
        (done : List String) (s : Search fl) (f : ℕ)
        → Final fl o heap g src dst done s
        → length done ≤ f
        → IsShortest (finish fl (suc f) src dst created now s)
    unfolding route_of
    finish-IsShortest done s f end l = elim (Bool-cases (fl.less (s.dist dst) (infinity fl))) [
      | inl near ↦
          let (p, w, e) = traced done s f end l near in
          inl (
            route_of fl src dst p (s.dist dst) created now,
            finish_near s (suc f) p near (e ∙ ap (λ x. some x) (append-nil p)),
            w,
            near,
            λ k q w'. elim (end.least w') [
              | inl h ↦ h
              | inr h ↦
                  o.trans (s.dist dst) (infinity fl) k (o.asym (s.dist dst) (infinity fl) near) h
            ],
            direct_iff p,
          )
      | inr far ↦ inr (
        finish_far s (suc f) far,
        λ k q w'. elim (end.least w') [
          | inl h ↦ o.trans (infinity fl) (s.dist dst) k far h
          | inr h ↦ h
        ],
      )
    ]

    -- On a graph whose edges lead to nodes, at costs that are not negative, and that has no node
    -- with the empty identifier, the search from one node to another ends within its fuel. It
    -- gives a route along a walk of the graph, of that walk's cost added from the source on, below
    -- 1e18 and no more than the cost of any other walk, which is direct exactly if it has at most
    -- two nodes; or it gives the error that there is no path, and no walk costs less than 1e18.
    pub shortest_path_lem :
        IsSound fl o heap g src
        → IsNode fl o heap g src src
        → IsShortest (shortest_path fl heap g src dst created now)
    unfolding shortest_path
    shortest_path_lem sound from =
        let (t, done, e, end, l) = search_ends fl o heap g src dst sound from in
        rw (from, to, e)
          (subst (λ n. IsShortest (finish fl n src dst created now t)) (omega arith)
            (finish-IsShortest done t (edge_count fl g.edges + 3) end (omega (arith, l))))
