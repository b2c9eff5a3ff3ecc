-- ===== src/Control/Paths/Walks.antt =====
-- Walks through the graph, with their costs added from the source on, and the bound that the
-- invariant of the search gives on each.
use Prim.Native.String.{String}
use res.Base.{◌≡◌, ◌⊎◌, inl, inr, sym, subst, ap, ◌∙◌, Bool-cases, List, [], ◌∷◌, ◌++◌}
use res.Control.Graph.{Floats, Edge, Edges, Graph, neighbors}
use res.Control.Graph.Links.{IsIn}
use res.Control.Paths.{Heap, Item, item_less, Search, infinity}
use res.Control.Paths.Order.{AtMost, IsOrdered, at_most_refl}
use res.Control.Paths.Invariant.{Inv, IsSound, IsNode}

-- A walk from the source: its end, its cost and its nodes.
pub data Walk (fl : Floats) (m : Edges fl) (src : String)
    : String → fl.F → List String → Type 0 where
  here :
      {v : String} {k : fl.F} {p : List String}
      → v ≡ src
      → k ≡ fl.lit 0
      → p ≡ src ∷ []
      → Walk fl m src v k p
  onward :
      {v w : String} {k k' : fl.F} {p p' : List String}
      → Walk fl m src v k p
      → (e : Edge fl) → IsIn e (neighbors fl v m)
      → e.to ≡ w
      → fl.add k e.cost ≡ k'
      → p ++ w ∷ [] ≡ p'
      → Walk fl m src w k' p'

module _ (fl : Floats) (o : IsOrdered fl) (heap : Heap (item_less fl)) (g : Graph fl)
    (src : String) where
  pub Walk-IsNode :
      (sound : IsSound fl o heap g src)
      → IsNode fl o heap g src src
      → {v : String} {k : fl.F} {p : List String} → Walk fl g.edges src v k p
      → IsNode fl o heap g src v
  Walk-IsNode sound n (here q _ _) = subst (IsNode fl o heap g src) (sym q) n
  Walk-IsNode sound n (onward {v} w e i q _ _) =
      subst (IsNode fl o heap g src) q (sound.target v e i)

  -- Where `c` is below every item of the queue, a walk costs no less than the distance of its end,
  -- or no less than `c`, or no less than 1e18.
  pub walk_bound :
      (sound : IsSound fl o heap g src)
      → IsNode fl o heap g src src
      → {cur : String} {done : List String} {s : Search fl} → Inv fl o heap g src cur [] done s
      → (c : fl.F) → ((i : Item fl) → IsIn i s.queue → AtMost fl c i.cost)
      → {v : String} {k : fl.F} {p : List String} → Walk fl g.edges src v k p
      → AtMost fl (s.dist v) k ⊎ AtMost fl c k ⊎ AtMost fl (infinity fl) k
  walk_bound sound n {s} inv c least {k} (here q z _) =
      inl
        (subst (λ x. AtMost fl x k) (sym (ap s.dist q ∙ inv.source ∙ sym z)) (at_most_refl fl o k))
  walk_bound sound n {cur} {done} {s} inv c least {v = w} {k = k'} (onward {v} {k} walk e i q z _) =
      let grows : AtMost fl k k' =
        subst (AtMost fl k) z (o.add_grows k e.cost (sound.nonneg v e i)) in
      elim (walk_bound sound n inv c least walk) [
        | inr (inl h) ↦ inr (inl (o.trans c k k' h grows))
        | inr (inr h) ↦ inr (inr (o.trans (infinity fl) k k' h grows))
        | inl h ↦ elim (Bool-cases (fl.less (s.dist v) (infinity fl))) [
          | inr far ↦
              inr
                (inr (o.trans (infinity fl) k k' (o.trans (infinity fl) (s.dist v) k far h) grows))
          | inl near ↦ elim (inv.frontier v (Walk-IsNode sound n walk) near) [
            | inl waiting ↦
                inr (inl (o.trans c k k' (o.trans c (s.dist v) k (least _ waiting) h) grows))
            | inr d ↦ elim (inv.relaxed v e d i) [
              | inl (_, none_left) ↦ absurd none_left
              | inr l ↦ inl (
                  subst (λ x. AtMost fl (s.dist x) k') q
                    (subst (AtMost fl (s.dist e.to)) z (
                      o.trans (s.dist e.to) (fl.add (s.dist v) e.cost) (fl.add k e.cost) l
                        (o.add_mono (s.dist v) k e.cost h))))
            ]
          ]
        ]
      ]
