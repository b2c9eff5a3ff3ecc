-- ===== src/Control/Paths/Relax.antt =====
-- One relaxed edge keeps the invariant of the search.
use Prim.Native.String.{String}
use res.Base.{
  ◌≡◌, ◌⊎◌, inl, inr, refl, sym, subst, ap, ◌∙◌, Bool-cases, List, [], ◌∷◌, string_eq, arith, ◌≢◌,
}
use res.Control.Graph.{Floats, Edge, Graph, neighbors}
use res.Control.Graph.Links.{IsIn}
use res.Control.Paths.{Heap, Item, item_less, Search, infinity, relax, update}
use res.Control.Paths.Order.{AtMost, Below, IsOrdered, clash, at_most_refl, Below-of_lt}
use res.Control.Paths.Invariant.{
  Chained, Current, Inv, IsNode, IsSound, Parent, by_key, item, update_ne, update_self,
}

module _ (fl : Floats) (o : IsOrdered fl) (heap : Heap (item_less fl)) (g : Graph fl)
    (src : String) where
  abbrev improved : String → Edge fl → Search fl → Search fl
  improved u e s = record {
    dist = update e.to (fl.add (s.dist u) e.cost) s.dist;
    prev = update e.to u s.prev;
    queue = heap.push (item fl o heap g src e.to (fl.add (s.dist u) e.cost)) s.queue;
  }

  relax_better :
      (u : String) (e : Edge fl) (s : Search fl)
      → Below fl (fl.add (s.dist u) e.cost) (s.dist e.to)
      → improved u e s ≡ relax fl heap u e s
  unfolding relax
  relax_better u e s h = ground (arith, h)

  pub relax_same :
      (u : String) (e : Edge fl) (s : Search fl)
      → AtMost fl (s.dist e.to) (fl.add (s.dist u) e.cost)
      → s ≡ relax fl heap u e s
  unfolding relax
  relax_same u e s h = ground (arith, h)

  module _ (sound : IsSound fl o heap g src) (u : String) (e : Edge fl) (todo : List (Edge fl))
      (done : List String) (s : Search fl) (at : IsIn e (neighbors fl u g.edges))
      (inv : Inv fl o heap g src u (e ∷ todo) done s) (cur : Current fl o heap g src u done s) where
    open inv use {queued, frontier, done_first, relaxed, nonneg, bounded, source, parent, chained}

    abbrev cost_at : fl.F
    cost_at = fl.add (s.dist u) e.cost

    grows : AtMost fl (s.dist u) cost_at
    grows = o.add_grows (s.dist u) e.cost (sound.nonneg u e at)

    module _ (better : Below fl cost_at (s.dist e.to)) where
      abbrev s' : Search fl
      s' = improved u e s

      not_done : (v : String) → IsIn v done → e.to ≢ v
      not_done v d q = clash fl cost_at (s.dist e.to) better (
          o.trans (s.dist e.to) (s.dist u) cost_at
            (cur.latest e.to (subst (λ x. IsIn x done) (sym q) d)) grows)

      positive : AtMost fl (fl.lit 0) cost_at
      positive = o.trans (fl.lit 0) (s.dist u) cost_at (nonneg u) grows

      not_source : e.to ≢ src
      not_source q =
          clash fl cost_at (s.dist e.to) better
            (subst (λ x. AtMost fl x cost_at) (sym (ap s.dist q ∙ source)) positive)

      finite : Below fl cost_at (infinity fl)
      finite = Below-of_lt fl o cost_at (s.dist e.to) (infinity fl) better (bounded e.to)

      dist_self : s'.dist e.to ≡ cost_at
      dist_self = update_self e.to cost_at s.dist

      dist_ne : (v : String) → e.to ≢ v → s'.dist v ≡ s.dist v
      dist_ne v h = update_ne e.to v cost_at s.dist h

      dist_done : (v : String) → IsIn v done → s'.dist v ≡ s.dist v
      dist_done v d = dist_ne v (not_done v d)

      dist_le : (v : String) → AtMost fl (s'.dist v) (s.dist v)
      dist_le v =
          by_key (AtMost fl (s'.dist v) (s.dist v)) e.to v
            (λ q.
              subst (λ x. AtMost fl (s'.dist x) (s.dist x)) q
                (subst (λ d. AtMost fl d (s.dist e.to)) (sym dist_self)
                  (o.asym cost_at (s.dist e.to) better)))
            (λ h.
              subst (λ d. AtMost fl d (s.dist v)) (sym (dist_ne v h))
                (at_most_refl fl o (s.dist v)))

      Parent-kept :
          (ds : List String) (v : String)
          → ((w : String) → IsIn w ds → IsIn w done)
          → e.to ≢ v
          → Parent fl o heap g src ds s v
          → Parent fl o heap g src ds s' v
      Parent-kept ds v sub h (d, (x, i, t, c)) =
          let p : s'.prev v ≡ s.prev v = update_ne e.to v u s.prev h in
          (
            subst (λ w. IsIn w ds) (sym p) d,
            (
              x,
              subst (λ w. IsIn x (neighbors fl w g.edges)) (sym p) i,
              t,
              dist_ne v h
                  ∙ c
                  ∙ ap (λ d. fl.add d x.cost)
                      (sym (ap s'.dist p ∙ dist_done (s.prev v) (sub (s.prev v) d))),
            ),
          )

      Parent-new : Parent fl o heap g src done s' e.to
      Parent-new =
          let p : s'.prev e.to ≡ u = update_self e.to u s.prev in
          (
            subst (λ w. IsIn w done) (sym p) cur.is_done,
            (
              e,
              subst (λ w. IsIn e (neighbors fl w g.edges)) (sym p) at,
              refl,
              dist_self ∙ ap (λ d. fl.add d e.cost) (sym (ap s'.dist p ∙ dist_done u cur.is_done)),
            ),
          )

      Chained-kept :
          (ds : List String)
          → ((w : String) → IsIn w ds → IsIn w done)
          → Chained fl o heap g src ds s
          → Chained fl o heap g src ds s'
      Chained-kept [] sub c = tt
      Chained-kept (v ∷ ds) sub (n, inl q, c) = (n, inl q, Chained-kept ds (λ w i. sub w (inr i)) c)
      Chained-kept (v ∷ ds) sub (n, inr p, c) = (
        n,
        inr (Parent-kept ds v (λ w i. sub w (inr i)) (not_done v (sub v (inl refl))) p),
        Chained-kept ds (λ w i. sub w (inr i)) c,
      )

      queued' :
          (i : Item fl)
          → (item fl o heap g src e.to cost_at ≡ i) ⊎ IsIn i s.queue
          → IsNode fl o heap g src i.node_id
            × AtMost fl (s'.dist i.node_id) i.cost
            × Below fl i.cost (infinity fl)
      queued' i (inl q) =
          subst
            (λ x.
              IsNode fl o heap g src x.node_id
              × AtMost fl (s'.dist x.node_id) x.cost
              × Below fl x.cost (infinity fl))
            q
            (
              sound.target u e at,
              subst (λ d. AtMost fl d cost_at) (sym dist_self) (at_most_refl fl o cost_at),
              finite,
            )
      queued' i (inr q) =
          let (n, l, b) = queued i q in
          (n, o.trans (s'.dist i.node_id) (s.dist i.node_id) i.cost (dist_le i.node_id) l, b)

      frontier' :
          (v : String)
          → IsNode fl o heap g src v
          → Below fl (s'.dist v) (infinity fl)
          → IsIn (item fl o heap g src v (s'.dist v)) s'.queue ⊎ IsIn v done
      frontier' v n b =
          by_key (IsIn (item fl o heap g src v (s'.dist v)) s'.queue ⊎ IsIn v done) e.to v
            (λ q. inl (
              subst (λ w. IsIn (item fl o heap g src w (s'.dist w)) s'.queue) q
                (subst (λ d. IsIn (item fl o heap g src e.to d) s'.queue) (sym dist_self)
                  (heap.push-new (item fl o heap g src e.to cost_at) s.queue))))
            (λ h. elim (frontier v n (subst (λ d. Below fl d (infinity fl)) (dist_ne v h) b)) [
              | inl i ↦ inl (
                  heap.push-old (item fl o heap g src e.to cost_at)
                    (item fl o heap g src v (s'.dist v)) s.queue
                    (subst (λ d. IsIn (item fl o heap g src v d) s.queue) (sym (dist_ne v h)) i))
              | inr d ↦ inr d
            ])

      done_first' :
          (v : String) (i : Item fl)
          → IsIn v done
          → (item fl o heap g src e.to cost_at ≡ i) ⊎ IsIn i s.queue
          → AtMost fl (s'.dist v) i.cost
      done_first' v i d q =
          subst (λ x. AtMost fl x i.cost) (sym (dist_done v d))
            (elim q [
              | inl p ↦
                  subst (λ x. AtMost fl (s.dist v) x.cost) p
                    (o.trans (s.dist v) (s.dist u) cost_at (cur.latest v d) grows)
              | inr old ↦ done_first v i d old
            ])

      relaxed' :
          (v : String) (x : Edge fl)
          → IsIn v done
          → IsIn x (neighbors fl v g.edges)
          → ((v ≡ u) × IsIn x todo) ⊎ AtMost fl (s'.dist x.to) (fl.add (s'.dist v) x.cost)
      relaxed' v x d i =
          subst (λ a. ((v ≡ u) × IsIn x todo) ⊎ AtMost fl (s'.dist x.to) (fl.add a x.cost))
            (sym (dist_done v d))
            (elim (relaxed v x d i) [
              | inl (p, inl q) ↦ inr (
                  subst (λ y. AtMost fl (s'.dist y.to) (fl.add (s.dist v) y.cost)) q
                    (subst (λ w. AtMost fl (s'.dist e.to) (fl.add (s.dist w) e.cost)) (sym p)
                      (subst (λ a. AtMost fl a cost_at) (sym dist_self)
                        (at_most_refl fl o cost_at))))
              | inl (p, inr t) ↦ inl (p, t)
              | inr l ↦
                  inr (
                    o.trans (s'.dist x.to) (s.dist x.to) (fl.add (s.dist v) x.cost) (dist_le x.to)
                      l)
            ])

      nonneg' : (v : String) → AtMost fl (fl.lit 0) (s'.dist v)
      nonneg' v =
          by_key (AtMost fl (fl.lit 0) (s'.dist v)) e.to v
            (λ q.
              subst (λ w. AtMost fl (fl.lit 0) (s'.dist w)) q
                (subst (AtMost fl (fl.lit 0)) (sym dist_self) positive))
            (λ h. subst (AtMost fl (fl.lit 0)) (sym (dist_ne v h)) (nonneg v))

      parent' :
          (v : String)
          → IsNode fl o heap g src v
          → v ≢ src
          → Below fl (s'.dist v) (infinity fl)
          → Parent fl o heap g src done s' v
      parent' v n h b =
          by_key (Parent fl o heap g src done s' v) e.to v
            (λ q. subst (Parent fl o heap g src done s') q Parent-new)
            (λ k.
              Parent-kept done v (λ w i. i) k
                (parent v n h (subst (λ d. Below fl d (infinity fl)) (dist_ne v k) b)))

      Inv-improved : Inv fl o heap g src u todo done s'
      Inv-improved = record {
        queued = λ i q. queued' i (heap.push-cases (item fl o heap g src e.to cost_at) i s.queue q);
        frontier = frontier';
        done_first = λ v i d q.
            done_first' v i d (heap.push-cases (item fl o heap g src e.to cost_at) i s.queue q);
        relaxed = relaxed';
        nonneg = nonneg';
        bounded = λ v. o.trans (s'.dist v) (s.dist v) (infinity fl) (dist_le v) (bounded v);
        source = dist_ne src not_source ∙ source;
        parent = parent';
        chained = Chained-kept done (λ w i. i) chained;
      }

      Current-improved : Current fl o heap g src u done s'
      Current-improved = record {
        is_done = cur.is_done;
        latest = λ v d.
            subst (λ x. AtMost fl x (s'.dist u)) (sym (dist_done v d))
              (subst (AtMost fl (s.dist v)) (sym (dist_done u cur.is_done)) (cur.latest v d));
      }

    Inv-same : AtMost fl (s.dist e.to) cost_at → Inv fl o heap g src u todo done s
    Inv-same h = record {
      queued = queued;
      frontier = frontier;
      done_first = done_first;
      relaxed = λ v x d i. elim (relaxed v x d i) [
        | inl (p, inl q) ↦ inr (
            subst (λ y. AtMost fl (s.dist y.to) (fl.add (s.dist v) y.cost)) q
              (subst (λ w. AtMost fl (s.dist e.to) (fl.add (s.dist w) e.cost)) (sym p) h))
        | inl (p, inr t) ↦ inl (p, t)
        | inr l ↦ inr l
      ];
      nonneg = nonneg;
      bounded = bounded;
      source = source;
      parent = parent;
      chained = chained;
    }

    -- One edge relaxed.
    pub relax-Inv :
        Inv fl o heap g src u todo done (relax fl heap u e s)
        × Current fl o heap g src u done (relax fl heap u e s)
    relax-Inv = elim (Bool-cases (fl.less cost_at (s.dist e.to))) [
      | inl h ↦
          subst (λ t. Inv fl o heap g src u todo done t × Current fl o heap g src u done t)
            (relax_better u e s h) (Inv-improved h, Current-improved h)
      | inr h ↦
          subst (λ t. Inv fl o heap g src u todo done t × Current fl o heap g src u done t)
            (relax_same u e s h) (Inv-same h, cur)
    ]
