-- ===== src/Control/Paths/Turns.antt =====
-- All edges of a node relaxed, and the measure of the loop.
use Prim.Native.String.{String}
use res.Base.{
  ℕ, suc, ◌+◌, ◌≤◌, ◌≡◌, inl, inr, refl, ap, ◌∙◌, Bool, Bool-cases, true, false, List, [], ◌∷◌,
  length, ◌==◌, ==_iff, string_eq, arith, if◌then◌else◌, get, ◌||◌,
}
use res.Control.Graph.{Floats, Edge, Edges, Graph, neighbors, edges_of}
use res.Control.Graph.Links.{IsIn}
use res.Control.Paths.{Heap, item_less, Search, relax, relax_all, edge_count}
use res.Control.Paths.Order.{AtMost, IsOrdered}
use res.Control.Paths.Invariant.{Inv, IsSound, Current}
use res.Control.Paths.Relax.{relax-Inv, relax_same}

-- Whether a node is done, and the edges of those that are not.
unfoldable pub has : String → List String → Bool
has v [] = false
has v (u ∷ us) = (u == v) || has v us

pub has-IsIn : (v : String) (us : List String) → has v us ≡ true → IsIn v us
unfolding has
has-IsIn v [] h = absurd (ground (arith, h))
has-IsIn v (u ∷ us) h = elim (Bool-cases (u == v)) [
  | inl e ↦ inl ((==_iff u v).0 e)
  | inr e ↦ inr (has-IsIn v us (ground (arith, h, e)))
]

module _ (fl : Floats) where
  unfoldable pub open_edges : List String → Edges fl → ℕ
  open_edges done [] = 0
  open_edges done ((k, es) ∷ m) = (if has k done then 0 else length es) + open_edges done m

  pub open_edges-cons-le :
      (u : String) (done : List String) (m : Edges fl) → open_edges (u ∷ done) m ≤ open_edges done m
  unfolding open_edges has
  open_edges-cons-le u done [] = omega arith
  open_edges-cons-le u done ((k, es) ∷ m) = ground (arith, open_edges-cons-le u done m)

  pub open_edges-cons :
      (u : String) (done : List String) (m : Edges fl)
      → has u done ≡ false
      → open_edges (u ∷ done) m + length (neighbors fl u m) ≤ open_edges done m
  unfolding open_edges has neighbors edges_of get
  open_edges-cons u done [] h = omega arith
  open_edges-cons u done ((k, es) ∷ m) h = elim (Bool-cases (k == u)) [
    | inl e ↦
        let q = (==_iff k u).0 e in
        ground (arith, h, e, q, ==_iff u k, ap (λ v. has v done) q, open_edges-cons-le u done m)
    | inr e ↦ ground (arith, h, e, open_edges-cons-le u done m, open_edges-cons u done m h)
  ]

  pub open_edges-nil : (m : Edges fl) → open_edges [] m ≤ edge_count fl m
  unfolding open_edges has edge_count
  open_edges-nil [] = omega arith
  open_edges-nil ((k, es) ∷ m) = omega (arith, open_edges-nil m)

module _ (fl : Floats) (o : IsOrdered fl) (heap : Heap (item_less fl)) (g : Graph fl)
    (src : String) where
  abbrev InvAt : String → List (Edge fl) → List String → Search fl → Type 0
  InvAt = Inv fl o heap g src

  length_queue-relax :
      (u : String) (e : Edge fl) (s : Search fl)
      → length (relax fl heap u e s).queue ≤ suc (length s.queue)
  unfolding relax
  length_queue-relax u e s =
      ground (
        arith,
        heap.length-push (record { node_id = e.to; cost = fl.add (s.dist u) e.cost }) s.queue,
      )

  pub length_queue-relax_all :
      (u : String) (es : List (Edge fl)) (s : Search fl)
      → length (relax_all fl heap u es s).queue ≤ length es + length s.queue
  unfolding relax_all
  length_queue-relax_all u [] s = omega arith
  length_queue-relax_all u (e ∷ es) s =
      omega (arith, length_queue-relax u e s, length_queue-relax_all u es (relax fl heap u e s))

  -- All edges of the current node, relaxed one after the other.
  pub relax_all-Inv :
      (sound : IsSound fl o heap g src) (u : String) (es : List (Edge fl)) (done : List String)
      (s : Search fl)
      → ((e : Edge fl) → IsIn e es → IsIn e (neighbors fl u g.edges))
      → InvAt u es done s
      → Current fl o heap g src u done s
      → InvAt u [] done (relax_all fl heap u es s)
  unfolding relax_all
  relax_all-Inv sound u [] done s sub inv cur = inv
  relax_all-Inv sound u (e ∷ es) done s sub inv cur =
      let (inv', cur') = relax-Inv fl o heap g src sound u e es done s (sub e (inl refl)) inv cur in
      relax_all-Inv sound u es done (relax fl heap u e s) (λ x i. sub x (inr i)) inv' cur'

  -- Where all edges are relaxed already, nothing changes.
  pub relax_all-same :
      (u : String) (es : List (Edge fl)) (s : Search fl)
      → ((e : Edge fl) → IsIn e es → AtMost fl (s.dist e.to) (fl.add (s.dist u) e.cost))
      → s ≡ relax_all fl heap u es s
  unfolding relax_all
  relax_all-same u [] s h = refl
  relax_all-same u (e ∷ es) s h =
      let q = relax_same fl o heap g src u e s (h e (inl refl)) in
      relax_all-same u es s (λ x i. h x (inr i)) ∙ ap (relax_all fl heap u es) q
