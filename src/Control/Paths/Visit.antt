-- ===== src/Control/Paths/Visit.antt =====
-- One turn of the search: it keeps the invariant and lowers the measure, or the search ends with the
-- least distance of the destination.
use Prim.Native.String.{String}
use res.Base.{
  ℕ, suc, ◌+◌, ◌<◌, ◌≤◌, ◌≡◌, ◌⊎◌, ◌≢◌, inl, inr, refl, sym, subst, ap, ◌∙◌, Bool-cases, false,
  List, [], ◌∷◌, length, ◌==◌, ==_iff, string_eq, arith,
}
use res.Control.Graph.{Floats, Edge, Graph, neighbors}
use res.Control.Graph.Links.{IsIn}
use res.Control.Paths.{
  Heap, Item, item_less, Search, infinity, Turn, finished, again, relax_all, visit,
}
use res.Control.Paths.Order.{AtMost, Below, IsOrdered, at_most_refl, clash, Below-of_le}
use res.Control.Paths.Invariant.{Inv, IsSound, IsNode, Current, Parent, Chained, by_key, item}
use res.Control.Paths.Walks.{Walk, walk_bound}
use res.Control.Paths.Turns.{
  has, has-IsIn, open_edges, open_edges-cons, length_queue-relax_all, relax_all-Inv, relax_all-same,
}

module _ (fl : Floats) (o : IsOrdered fl) (heap : Heap (item_less fl)) (g : Graph fl)
    (src dst : String) where
  -- Where the search ends.
  pub record Final (done : List String) (s : Search fl) : Type 0 where
    pub least :
        {k : fl.F} {p : List String}
        → Walk fl g.edges src dst k p
        → AtMost fl (s.dist dst) k ⊎ AtMost fl (infinity fl) k
    pub source : s.dist src ≡ fl.lit 0
    pub parent :
        (v : String)
        → IsNode fl o heap g src v
        → v ≢ src
        → Below fl (s.dist v) (infinity fl)
        → Parent fl o heap g src done s v
    pub chained : Chained fl o heap g src done s

  abbrev pub measure : List String → Search fl → ℕ
  measure done s = open_edges fl done g.edges + length s.queue

  abbrev pub Outcome : List String → Search fl → Turn fl → Type 0
  Outcome done s t =
      ((s' : Search fl) × (finished s' ≡ t) × Final done s')
      ⊎ ((s' : Search fl) × (done' : List String) × (again s' ≡ t)
          × Inv fl o heap g src "" [] done' s'
          × (measure done' s' < measure done s)
          × (length done' ≤ suc (length done)))

  module _ (sound : IsSound fl o heap g src) (from : IsNode fl o heap g src src) where
    pub empty-Final :
        (done : List String) (s : Search fl)
        → Inv fl o heap g src "" [] done s
        → s.queue ≡ []
        → Final done s
    empty-Final done s inv e = record {
      least = λ w.
          elim (walk_bound fl o heap g src sound from inv (infinity fl)
            (λ i q. absurd (subst (IsIn i) e q)) w) [
              | inl h ↦ inl h
              | inr (inl h) ↦ inr h
              | inr (inr h) ↦ inr h
            ];
      source = inv.source;
      parent = inv.parent;
      chained = inv.chained;
    }

    module _ (done : List String) (s : Search fl) (x : Item fl) (q : List (Item fl))
        (e : s.queue ≡ x ∷ q) (inv : Inv fl o heap g src "" [] done s) where
      abbrev pub popped : Item fl
      popped = (heap.pop x q).0

      abbrev u : String
      u = popped.node_id

      abbrev pub s1 : Search fl
      s1 = record s { queue = (heap.pop x q).1 }

      Chained-popped :
          (ds : List String) → Chained fl o heap g src ds s → Chained fl o heap g src ds s1
      Chained-popped [] c = tt
      Chained-popped (v ∷ ds) (n, p, c) = (n, p, Chained-popped ds c)

      IsIn-queue : (i : Item fl) → IsIn i (heap.pop x q).1 → IsIn i s.queue
      IsIn-queue i h = subst (IsIn i) (sym e) (heap.pop-rest x i q h)

      first-IsIn : IsIn popped s.queue
      first-IsIn = subst (IsIn popped) (sym e) (heap.pop-first x q)

      after_pop : (i : Item fl) → IsIn i s.queue → (popped ≡ i) ⊎ IsIn i (heap.pop x q).1
      after_pop i h = heap.pop-cases x i q (subst (IsIn i) e h)

      least_first : (i : Item fl) → IsIn i s.queue → AtMost fl popped.cost i.cost
      least_first i h = heap.pop-least x i q (subst (IsIn i) e h)

      arrived-Final : u ≡ dst → Final done s1
      arrived-Final h = record {
        least = λ w. elim (walk_bound fl o heap g src sound from inv popped.cost least_first w) [
          | inl k ↦ inl k
          | inr (inl k) ↦ inl (
              o.trans (s.dist dst) popped.cost _
                (subst (λ v. AtMost fl (s.dist v) popped.cost) h (inv.queued popped first-IsIn).1)
                k)
          | inr (inr k) ↦ inr k
        ];
        source = inv.source;
        parent = inv.parent;
        chained = Chained-popped done inv.chained;
      }

      -- The invariant without the item, if its node is done or the item is out of date.
      popped-Inv :
          (cur : String) (todo : List (Edge fl)) (done' : List String)
          → ((v : String) → IsIn v done → IsIn v done')
          → ((v : String) → popped ≡ item fl o heap g src v (s.dist v) → IsIn v done')
          → ((v : String) (i : Item fl)
              → IsIn v done'
              → IsIn i s.queue
              → AtMost fl (s.dist v) i.cost)
          → ((v : String) (a : Edge fl)
              → IsIn v done'
              → IsIn a (neighbors fl v g.edges)
              → ((v ≡ cur) × IsIn a todo) ⊎ AtMost fl (s.dist a.to) (fl.add (s.dist v) a.cost))
          → Chained fl o heap g src done' s1
          → Inv fl o heap g src cur todo done' s1
      popped-Inv cur todo done' sub fits first relaxed chained = record {
        queued = λ i h. inv.queued i (IsIn-queue i h);
        frontier = λ v n b. elim (inv.frontier v n b) [
          | inl h ↦ elim (after_pop (item fl o heap g src v (s.dist v)) h) [
            | inl p ↦ inr (fits v p)
            | inr k ↦ inl k
          ]
          | inr d ↦ inr (sub v d)
        ];
        done_first = λ v i d h. first v i d (IsIn-queue i h);
        relaxed = relaxed;
        nonneg = inv.nonneg;
        bounded = inv.bounded;
        source = inv.source;
        parent = λ v n h b. let (d, rest) = inv.parent v n h b in (sub (s.prev v) d, rest);
        chained = chained;
      }

      kept_relaxed :
          (v : String) (a : Edge fl)
          → IsIn v done
          → IsIn a (neighbors fl v g.edges)
          → AtMost fl (s.dist a.to) (fl.add (s.dist v) a.cost)
      kept_relaxed v a d i = elim (inv.relaxed v a d i) [
        | inl (_, nothing) ↦ absurd nothing
        | inr l ↦ l
      ]

      same-Inv :
          ((v : String) → popped ≡ item fl o heap g src v (s.dist v) → IsIn v done)
          → Inv fl o heap g src "" [] done s1
      same-Inv fits =
          popped-Inv "" [] done (λ v d. d) fits inv.done_first
            (λ v a d i. inr (kept_relaxed v a d i)) (Chained-popped done inv.chained)

      shorter : measure done s1 < measure done s
      shorter = omega (arith, ap length e, heap.length-pop x q)

      -- The item is out of date.
      Outcome-stale : Below fl (s.dist u) popped.cost → Outcome done s (again s1)
      Outcome-stale h = inr (
        s1,
        done,
        refl,
        same-Inv (λ v p.
            let c : popped.cost ≡ s.dist u =
              ap (λ i. i.cost) p ∙ ap s.dist (sym (ap (λ i. i.node_id) p)) in
            clash fl (s.dist u) popped.cost h
              (subst (λ y. AtMost fl y (s.dist u)) (sym c) (at_most_refl fl o (s.dist u)))),
        shorter,
        omega arith,
      )

      -- The node was done before: its edges change nothing.
      Outcome-done :
          IsIn u done → Outcome done s (again (relax_all fl heap u (neighbors fl u g.edges) s1))
      Outcome-done d =
          subst (λ t. Outcome done s (again t))
            (relax_all-same fl o heap g src u (neighbors fl u g.edges) s1
              (λ a i. kept_relaxed u a d i))
            (inr (
              s1,
              done,
              refl,
              same-Inv (λ v p. subst (λ w. IsIn w done) (ap (λ i. i.node_id) p) d),
              shorter,
              omega arith,
            ))

      module _ (fresh : AtMost fl popped.cost (s.dist u)) where
        abbrev done' : List String
        done' = u ∷ done

        first' :
            (v : String) (i : Item fl) → IsIn v done' → IsIn i s.queue → AtMost fl (s.dist v) i.cost
        first' v i (inl k) h =
            subst (λ w. AtMost fl (s.dist w) i.cost) k
              (o.trans (s.dist u) popped.cost i.cost (inv.queued popped first-IsIn).1
                (least_first i h))
        first' v i (inr d) h = inv.done_first v i d h

        relaxed' :
            (v : String) (a : Edge fl)
            → IsIn v done'
            → IsIn a (neighbors fl v g.edges)
            → ((v ≡ u) × IsIn a (neighbors fl u g.edges))
              ⊎ AtMost fl (s.dist a.to) (fl.add (s.dist v) a.cost)
        relaxed' v a (inl k) i = inl (sym k, subst (λ w. IsIn a (neighbors fl w g.edges)) (sym k) i)
        relaxed' v a (inr d) i = inr (kept_relaxed v a d i)

        near : Below fl (s.dist u) (infinity fl)
        near =
            let (_, l, b) = inv.queued popped first-IsIn in
            Below-of_le fl o (s.dist u) popped.cost (infinity fl) l b

        chained' : Chained fl o heap g src done' s1
        chained' = (
          (inv.queued popped first-IsIn).0,
          by_key ((u ≡ src) ⊎ Parent fl o heap g src done s1 u) u src (λ k. inl k)
              (λ k. inr (inv.parent u (inv.queued popped first-IsIn).0 k near)),
          Chained-popped done inv.chained,
        )

        opened-Inv : Inv fl o heap g src u (neighbors fl u g.edges) done' s1
        opened-Inv =
            popped-Inv u (neighbors fl u g.edges) done' (λ v d. inr d)
              (λ v p. inl (ap (λ i. i.node_id) p)) first' relaxed' chained'

        opened-Current : Current fl o heap g src u done' s1
        opened-Current = record {
          is_done = inl refl;
          latest =
              λ v d. o.trans (s.dist v) popped.cost (s.dist u) (first' v popped d first-IsIn) fresh;
        }

        -- The node is done from now on.
        Outcome-fresh :
            has u done ≡ false
            → Outcome done s (again (relax_all fl heap u (neighbors fl u g.edges) s1))
        Outcome-fresh h =
            let inv' =
              relax_all-Inv fl o heap g src sound u (neighbors fl u g.edges) done' s1 (λ a i. i)
                opened-Inv opened-Current in
            inr (
              relax_all fl heap u (neighbors fl u g.edges) s1,
              done',
              refl,
              settled inv',
              omega (
                arith,
                ap length e,
                heap.length-pop x q,
                open_edges-cons fl u done g.edges h,
                length_queue-relax_all fl o heap g src u (neighbors fl u g.edges) s1,
              ),
              omega arith,
            )
          where
            settled :
                {t : Search fl}
                → Inv fl o heap g src u [] done' t
                → Inv fl o heap g src "" [] done' t
            settled i = record {
              queued = i.queued;
              frontier = i.frontier;
              done_first = i.done_first;
              relaxed = λ v a d k. elim (i.relaxed v a d k) [
                | inl (_, nothing) ↦ absurd nothing
                | inr l ↦ inr l
              ];
              nonneg = i.nonneg;
              bounded = i.bounded;
              source = i.source;
              parent = i.parent;
              chained = i.chained;
            }

      pub visit-Outcome : Outcome done s (visit fl heap g.edges dst popped s1)
      unfolding visit
      visit-Outcome = elim (Bool-cases (u == dst)) [
        | inl h ↦
            subst (Outcome done s) {x = finished s1} (ground (arith, h))
              (inl (s1, refl, arrived-Final ((==_iff u dst).0 h)))
        | inr other ↦ elim (Bool-cases (fl.less (s.dist u) popped.cost)) [
          | inl h ↦ subst (Outcome done s) (ground (arith, h, other)) (Outcome-stale h)
          | inr h ↦
              subst (Outcome done s) {x = again (relax_all fl heap u (neighbors fl u g.edges) s1)}
                (ground (arith, h, other))
                (elim (Bool-cases (has u done)) [
                  | inl d ↦ Outcome-done (has-IsIn u done d)
                  | inr d ↦ Outcome-fresh h d
                ])
        ]
      ]
