-- ===== src/Control/Paths/Built.antt =====
-- The graph that BuildGraph gives is one that ShortestPath is right on.
use Prim.Native.String.{String}
use res.Base.{
  ℕ, ◌≡◌, ◌⊎◌, inl, inr, refl, sym, subst, ap, Bool-cases, true, false, List, [], ◌∷◌, Option, none,
  some, Assoc, get, put, get-put, ◌==◌, ==_iff, string_eq, arith,
}
use res.Control.Graph.{
  Floats, NodeInfo, Metrics, Weights, Edge, Edges, Graph, neighbors, clamp, normalised, cost,
  link_cost, link, link_all, link_pairs, node_index, build_graph,
}
use res.Control.Graph.Links.{IsIn, link-cases}
use res.Control.Graph.Dialable.{build_graph_lem, empty_neighbors}
use res.Control.Paths.{Heap, item_less, is_node}
use res.Control.Paths.Order.{AtMost, IsOrdered, at_most_refl}
use res.Control.Paths.Invariant.{IsSound}

Present : Option NodeInfo → Type 0
Present none = ⊥
Present (some _) = Unit

module _ (fl : Floats) where
  node_index-Present :
      (id : String) (ns : List NodeInfo) (m : Assoc String NodeInfo)
      → ((b : NodeInfo) × IsIn b ns × (b.id ≡ id)) ⊎ Present (get id m)
      → Present (get id (node_index fl ns m))
  unfolding node_index Present
  node_index-Present id [] m (inl (b, i, e)) = absurd i
  node_index-Present id [] m (inr h) = h
  node_index-Present id (n ∷ ns) m (inl (b, inl q, e)) = node_index-Present id ns (put n.id n m) (
      inr (
        subst Present {x = some n}
          (ground (arith, get-put id n.id n m, ==_iff n.id id, ap (λ x. x.id) q, e)) tt))
  node_index-Present id (n ∷ ns) m (inl (b, inr i, e)) =
      node_index-Present id ns (put n.id n m) (inl (b, i, e))
  node_index-Present id (n ∷ ns) m (inr h) = node_index-Present id ns (put n.id n m) (
      inr (
        subst Present (sym (get-put id n.id n m)) (elim (Bool-cases (n.id == id)) [
          | inl e ↦ subst Present {x = some n} (ground (arith, e)) tt
          | inr e ↦ subst Present {x = get id m} (ground (arith, e)) h
        ])))

  is_node_of_Present :
      (id : String) (g : Graph fl) → Present (get id g.nodes) → is_node fl id g ≡ true
  unfolding is_node Present
  is_node_of_Present id g h = go (get id g.nodes) h
    where
      go : (x : Option NodeInfo) → Present x → elim x [ none ↦ false | some _ ↦ true ] ≡ true
      go none h = absurd h
      go (some _) h = refl

  -- A node of the list is a node of the graph.
  pub is_node-build_graph :
      (ns : List NodeInfo) (metrics : Assoc String (Metrics fl)) (w : Weights fl) (b : NodeInfo)
      → IsIn b ns
      → is_node fl b.id (build_graph fl ns metrics w) ≡ true
  unfolding build_graph
  is_node-build_graph ns metrics w b i =
      is_node_of_Present b.id (build_graph fl ns metrics w)
        (node_index-Present b.id ns [] (inl (b, i, refl)))

  -- What the costs rely on of float64.
  pub record IsSigned : Type 0 where
    pub literal : (n : ℕ) → AtMost fl (fl.lit 0) (fl.lit n)
    pub sub_nonneg : (a b : fl.F) → AtMost fl a b → AtMost fl (fl.lit 0) (fl.sub b a)
    pub mul_nonneg :
        (a b : fl.F)
        → AtMost fl (fl.lit 0) a
        → AtMost fl (fl.lit 0) b
        → AtMost fl (fl.lit 0) (fl.mul a b)
    pub half_nonneg :
        (a : fl.F) → AtMost fl (fl.lit 0) a → AtMost fl (fl.lit 0) (fl.div a (fl.lit 2))

  abbrev pub IsNonnegative : Weights fl → Type 0
  IsNonnegative w =
      AtMost fl (fl.lit 0) w.rtt
      × AtMost fl (fl.lit 0) w.bandwidth
      × AtMost fl (fl.lit 0) w.load
      × AtMost fl (fl.lit 0) w.reliability

  module _ (o : IsOrdered fl) (sg : IsSigned) (w : Weights fl) (nonneg : IsNonnegative w) where
    normalised_bounds :
        (v : fl.F) → AtMost fl (fl.lit 0) (normalised fl v) × AtMost fl (normalised fl v) (fl.lit 1)
    unfolding clamp
    normalised_bounds v = elim (Bool-cases (fl.less v (fl.lit 0))) [
      | inl h ↦ rw h (at_most_refl fl o (fl.lit 0), sg.literal 1)
      | inr h ↦ rw h (elim (Bool-cases (fl.less (fl.lit 1) v)) [
        | inl k ↦ rw k (sg.literal 1, at_most_refl fl o (fl.lit 1))
        | inr k ↦ rw k (h, k)
      ])
    ]

    add_nonneg :
        (a b : fl.F)
        → AtMost fl (fl.lit 0) a
        → AtMost fl (fl.lit 0) b
        → AtMost fl (fl.lit 0) (fl.add a b)
    add_nonneg a b h k = o.trans (fl.lit 0) a (fl.add a b) h (o.add_grows a b k)

    cost_nonneg : (m : Option (Metrics fl)) → AtMost fl (fl.lit 0) (cost fl m w)
    unfolding cost
    cost_nonneg none = sg.literal 999
    cost_nonneg (some m) =
        add_nonneg _ _
          (add_nonneg _ _
            (add_nonneg _ _ (sg.mul_nonneg _ _ nonneg.0 (normalised_bounds _).0)
              (sg.mul_nonneg _ _ nonneg.1 (sg.sub_nonneg _ _ (normalised_bounds _).1)))
            (sg.mul_nonneg _ _ nonneg.2 (normalised_bounds _).0))
          (sg.mul_nonneg _ _ nonneg.3 (normalised_bounds _).0)

    module _ (metrics : Assoc String (Metrics fl)) where
      abbrev AllNonneg : Edges fl → Type 0
      AllNonneg m =
          (j : String) (e : Edge fl) → IsIn e (neighbors fl j m) → AtMost fl (fl.lit 0) e.cost

      link_cost_nonneg : (a b : NodeInfo) → AtMost fl (fl.lit 0) (link_cost fl w metrics a b)
      unfolding link_cost
      link_cost_nonneg a b =
          sg.half_nonneg _
            (add_nonneg _ _ (cost_nonneg (get a.id metrics)) (cost_nonneg (get b.id metrics)))

      link-AllNonneg :
          (a b : NodeInfo) (m : Edges fl) → AllNonneg m → AllNonneg (link fl w metrics a b m)
      link-AllNonneg a b m h j e i = elim (link-cases fl w metrics a b m j e i) [
        | inl old ↦ h j e old
        | inr (_, inl (_, q)) ↦ subst (λ x. AtMost fl (fl.lit 0) x.cost) q (link_cost_nonneg a b)
        | inr (_, inr (_, q)) ↦ subst (λ x. AtMost fl (fl.lit 0) x.cost) q (link_cost_nonneg a b)
      ]

      link_all-AllNonneg :
          (a : NodeInfo) (bs : List NodeInfo) (m : Edges fl)
          → AllNonneg m
          → AllNonneg (link_all fl w metrics a bs m)
      unfolding link_all
      link_all-AllNonneg a [] m h = h
      link_all-AllNonneg a (b ∷ bs) m h =
          link_all-AllNonneg a bs (link fl w metrics a b m) (link-AllNonneg a b m h)

      link_pairs-AllNonneg :
          (ns : List NodeInfo) (m : Edges fl)
          → AllNonneg m
          → AllNonneg (link_pairs fl w metrics ns m)
      unfolding link_pairs
      link_pairs-AllNonneg [] m h = h
      link_pairs-AllNonneg (a ∷ ns) m h =
          link_pairs-AllNonneg ns (link_all fl w metrics a ns m) (link_all-AllNonneg a ns m h)

      build_graph-nonneg :
          (ns : List NodeInfo) (j : String) (e : Edge fl)
          → IsIn e (neighbors fl j (build_graph fl ns metrics w).edges)
          → AtMost fl (fl.lit 0) e.cost
      unfolding build_graph
      build_graph-nonneg ns =
          link_pairs-AllNonneg ns [] (λ j e i. absurd (empty_neighbors fl w metrics j e i))

      -- Every edge of a built graph leads to a node, at a cost that is not negative.
      pub build_graph-IsSound :
          (heap : Heap (item_less fl)) (src : String) (ns : List NodeInfo)
          → IsSound fl o heap (build_graph fl ns metrics w) src
      build_graph-IsSound heap src ns = record {
        target = λ v e i.
            let (_, _, (a, b, _, k, _, q, _)) = build_graph_lem fl w metrics ns v e i in
            subst (λ x. is_node fl x (build_graph fl ns metrics w) ≡ true) q
              (is_node-build_graph ns metrics w b k);
        nonneg = build_graph-nonneg ns;
      }
