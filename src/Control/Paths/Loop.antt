-- ===== src/Control/Paths/Loop.antt =====
-- The loop of the search ends, with the least distance of the destination.
use Prim.Native.String.{String}
use res.Base.{
  ℕ, zero, suc, ◌+◌, ◌<◌, ◌≡◌, inl, inr, refl, ◌⊎◌, List, [], ◌∷◌, some, length, arith, Bool-cases,
  sym, subst, ◌≢◌, ◌∙◌, string_eq, if◌then◌else◌,
}
use res.Control.Graph.{Floats, Graph}
use res.Control.Graph.Links.{IsIn}
use res.Control.Paths.{
  Heap, Item, item_less, Search, infinity, is_node, turn, search_loop, start, edge_count,
}
use res.Control.Paths.Order.{AtMost, Below, IsOrdered, at_most_refl, clash}
use res.Control.Paths.Invariant.{Inv, IsSound, IsNode, by_key, item, update_self, update_ne}
use res.Control.Paths.Turns.{open_edges-nil}
use res.Control.Paths.Visit.{Final, measure, Outcome, empty-Final, visit-Outcome}

module _ (fl : Floats) (o : IsOrdered fl) (heap : Heap (item_less fl)) (g : Graph fl)
    (src dst : String) where
  module _ (sound : IsSound fl o heap g src) (from : IsNode fl o heap g src src) where
    turn-Outcome :
        (done : List String) (s : Search fl) (q : List (Item fl))
        → s.queue ≡ q
        → Inv fl o heap g src "" [] done s
        → Outcome fl o heap g src dst done s (turn fl heap g.edges dst q s)
    unfolding turn
    turn-Outcome done s [] e inv =
        inl (s, refl, empty-Final fl o heap g src dst sound from done s inv e)
    turn-Outcome done s (x ∷ q) e inv =
        visit-Outcome fl o heap g src dst sound from done s x q e inv

    -- With a measure below the fuel, the loop ends.
    pub search_loop_ends :
        (fuel : ℕ) (done : List String) (s : Search fl)
        → Inv fl o heap g src "" [] done s
        → measure fl o heap g src dst done s < fuel
        → (t : Search fl) × (done' : List String) × (search_loop fl heap fuel g.edges dst s
            ≡ some t)
          × Final fl o heap g src dst done' t
          × (length done' < length done + fuel)
    unfolding search_loop
    search_loop_ends zero done s inv m = absurd (omega arith)
    search_loop_ends (suc fuel) done s inv m = elim (turn-Outcome done s s.queue refl inv) [
      | inl (t, e, f) ↦ (t, done, rw (← e, search_loop) refl, f, omega arith)
      | inr (s', ds, e, inv', m', l) ↦
          let (t, done2, r, f, k) = search_loop_ends fuel ds s' inv' (omega arith) in
          (t, done2, rw (← e, search_loop) r, f, omega arith)
    ]

    abbrev blank : String → fl.F
    blank id = if is_node fl id g then infinity fl else fl.lit 0

    blank_node :
        (v : String)
        → IsNode fl o heap g src v
        → v ≢ src
        → (start fl heap g src).dist v ≡ infinity fl
    unfolding start
    blank_node v n h = update_ne src v (fl.lit 0) blank (λ q. h (sym q)) ∙ ground (arith, n)

    dist_src : (start fl heap g src).dist src ≡ fl.lit 0
    unfolding start
    dist_src = update_self src (fl.lit 0) blank

    zero_le : AtMost fl (fl.lit 0) (infinity fl)
    zero_le = o.asym (fl.lit 0) (infinity fl) o.zero_below

    in_range :
        (v : String)
        → AtMost fl (fl.lit 0) ((start fl heap g src).dist v)
          × AtMost fl ((start fl heap g src).dist v) (infinity fl)
    unfolding start
    in_range v =
        by_key
          (AtMost fl (fl.lit 0) ((start fl heap g src).dist v)
            × AtMost fl ((start fl heap g src).dist v) (infinity fl))
          src v
          (λ q.
            subst
              (λ w.
                AtMost fl (fl.lit 0) ((start fl heap g src).dist w)
                × AtMost fl ((start fl heap g src).dist w) (infinity fl))
              q
              (subst (λ d. AtMost fl (fl.lit 0) d × AtMost fl d (infinity fl)) (sym dist_src)
                (at_most_refl fl o (fl.lit 0), zero_le)))
          (λ h.
            subst (λ d. AtMost fl (fl.lit 0) d × AtMost fl d (infinity fl))
              (sym (update_ne src v (fl.lit 0) blank h))
              (elim (Bool-cases (is_node fl v g)) [
                | inl n ↦
                    subst (λ d. AtMost fl (fl.lit 0) d × AtMost fl d (infinity fl))
                      {x = infinity fl} (ground (arith, n))
                      (zero_le, at_most_refl fl o (infinity fl))
                | inr n ↦
                    subst (λ d. AtMost fl (fl.lit 0) d × AtMost fl d (infinity fl)) {x = fl.lit 0}
                      (ground (arith, n)) (at_most_refl fl o (fl.lit 0), zero_le)
              ]))

    start-Inv : Inv fl o heap g src "" [] [] (start fl heap g src)
    unfolding start
    start-Inv = record {
      queued = λ i q. elim (heap.push-cases (item fl o heap g src src (fl.lit 0)) i [] q) [
        | inl e ↦
            subst
              (λ x.
                IsNode fl o heap g src x.node_id
                × AtMost fl ((start fl heap g src).dist x.node_id) x.cost
                × Below fl x.cost (infinity fl))
              e
              (
                from,
                subst (λ d. AtMost fl d (fl.lit 0)) (sym dist_src) (at_most_refl fl o (fl.lit 0)),
                o.zero_below,
              )
        | inr nothing ↦ absurd nothing
      ];
      frontier = λ v n b.
          by_key
            (IsIn (item fl o heap g src v ((start fl heap g src).dist v))
                (start fl heap g src).queue
              ⊎ IsIn v [])
            src v
            (λ q. inl (
              subst
                (λ w.
                  IsIn (item fl o heap g src w ((start fl heap g src).dist w))
                    (start fl heap g src).queue)
                q
                (subst (λ d. IsIn (item fl o heap g src src d) (start fl heap g src).queue)
                  (sym dist_src) (heap.push-new (item fl o heap g src src (fl.lit 0)) []))))
            (λ h. clash fl ((start fl heap g src).dist v) (infinity fl) b (
              subst (AtMost fl (infinity fl)) (sym (blank_node v n (λ q. h (sym q))))
                (at_most_refl fl o (infinity fl))));
      done_first = λ v i d. absurd d;
      relaxed = λ v e d. absurd d;
      nonneg = λ v. (in_range v).0;
      bounded = λ v. (in_range v).1;
      source = dist_src;
      parent = λ v n h b. clash fl ((start fl heap g src).dist v) (infinity fl) b (
          subst (AtMost fl (infinity fl)) (sym (blank_node v n h))
            (at_most_refl fl o (infinity fl)));
      chained = tt;
    }

    -- The search ends within its fuel.
    pub search_ends :
        (t : Search fl) × (done : List String) × (search_loop fl heap
            (edge_count fl g.edges + 2)
            g.edges
            dst
            (start fl heap g src)
          ≡ some t)
        × Final fl o heap g src dst done t
        × (length done < edge_count fl g.edges + 2)
    unfolding start
    search_ends =
        let (t, done, e, f, l) =
          search_loop_ends (edge_count fl g.edges + 2) [] (start fl heap g src) start-Inv small in
        (t, done, e, f, omega (arith, l))
      where
        one : length (start fl heap g src).queue ≡ 1
        one = heap.length-push (item fl o heap g src src (fl.lit 0)) []

        small : measure fl o heap g src dst [] (start fl heap g src) < edge_count fl g.edges + 2
        small = omega (arith, one, open_edges-nil fl g.edges)
