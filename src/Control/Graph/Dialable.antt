-- ===== src/Control/Graph/Dialable.antt =====
-- Which edges `BuildGraph` of control-plane/routing/graph.go gives.
use Prim.Native.String.{String}
use res.Base.{
  ◌≡◌, ◌⊎◌, inl, inr, refl, subst, sym, Bool-cases, true, List, [], ◌∷◌, Assoc, get, ==_iff,
  string_eq, arith,
}
use res.Control.Graph.{
  Floats, NodeInfo, Metrics, Weights, Edge, Edges, edges_of, neighbors, is_linked, link, link_all,
  link_pairs, build_graph,
}
use res.Control.Graph.Links.{IsIn, reverse, there, back, link-cases, link-new, link-kept}

module _ (fl : Floats) where
  module _ (w : Weights fl) (metrics : Assoc String (Metrics fl)) where
    -- Every edge is listed under its start, and its reverse, of the same cost, under its end.
    abbrev pub IsTwoWay : Edges fl → Type 0
    IsTwoWay m =
        (j : String) (e : Edge fl)
        → IsIn e (neighbors fl j m)
        → (e.from ≡ j) × IsIn (reverse fl e) (neighbors fl e.to m)

    link-IsTwoWay :
        (a b : NodeInfo) (m : Edges fl) → IsTwoWay m → IsTwoWay (link fl w metrics a b m)
    link-IsTwoWay a b m u j e i = elim (link-cases fl w metrics a b m j e i) [
      | inl o ↦ let (p, r) = u j e o in (p, link-kept fl w metrics a b m e.to (reverse fl e) r)
      | inr (h, inl (p, q)) ↦
          subst
            (λ x. (x.from ≡ j) × IsIn (reverse fl x) (neighbors fl x.to (link fl w metrics a b m)))
            q (p, (link-new fl w metrics a b m h).1)
      | inr (h, inr (p, q)) ↦
          subst
            (λ x. (x.from ≡ j) × IsIn (reverse fl x) (neighbors fl x.to (link fl w metrics a b m)))
            q (p, (link-new fl w metrics a b m h).0)
    ]

    link_all-IsTwoWay :
        (a : NodeInfo) (bs : List NodeInfo) (m : Edges fl)
        → IsTwoWay m
        → IsTwoWay (link_all fl w metrics a bs m)
    unfolding link_all
    link_all-IsTwoWay a [] m u = u
    link_all-IsTwoWay a (b ∷ bs) m u =
        link_all-IsTwoWay a bs (link fl w metrics a b m) (link-IsTwoWay a b m u)

    link_pairs-IsTwoWay :
        (ns : List NodeInfo) (m : Edges fl) → IsTwoWay m → IsTwoWay (link_pairs fl w metrics ns m)
    unfolding link_pairs
    link_pairs-IsTwoWay [] m u = u
    link_pairs-IsTwoWay (a ∷ ns) m u =
        link_pairs-IsTwoWay ns (link_all fl w metrics a ns m) (link_all-IsTwoWay a ns m u)

    -- One of two nodes can be dialled, and they are not both clients.
    abbrev pub IsDialable : NodeInfo → NodeInfo → Type 0
    IsDialable a b =
        ¬ ((a.node_type ≡ "client") × (b.node_type ≡ "client"))
        × ¬ ((a.endpoint ≡ "") × (b.endpoint ≡ ""))

    is_linked-IsDialable : (a b : NodeInfo) → is_linked fl a b ≡ true → IsDialable a b
    unfolding is_linked
    is_linked-IsDialable a b h = (
      λ both.
          ground
            (arith, h, both.0, both.1, ==_iff a.node_type "client", ==_iff b.node_type "client"),
      λ both. ground (arith, h, both.0, both.1, ==_iff a.endpoint "", ==_iff b.endpoint ""),
    )

    IsDialable-swap : (a b : NodeInfo) → IsDialable a b → IsDialable b a
    IsDialable-swap a b (c, d) = (λ both. c (both.1, both.0), λ both. d (both.1, both.0))

    -- Every edge joins two of the given nodes that have a direct link.
    abbrev pub IsJustified : List NodeInfo → Edge fl → Type 0
    IsJustified all e =
        (a : NodeInfo) × (b : NodeInfo) × IsIn a all
        × IsIn b all
        × (a.id ≡ e.from)
        × (b.id ≡ e.to)
        × IsDialable a b

    abbrev AllJustified : List NodeInfo → Edges fl → Type 0
    AllJustified all m = (j : String) (e : Edge fl) → IsIn e (neighbors fl j m) → IsJustified all e

    link-AllJustified :
        (all : List NodeInfo) (a b : NodeInfo) (m : Edges fl)
        → IsIn a all
        → IsIn b all
        → AllJustified all m
        → AllJustified all (link fl w metrics a b m)
    link-AllJustified all a b m i k u j e l = elim (link-cases fl w metrics a b m j e l) [
      | inl o ↦ u j e o
      | inr (h, inl (p, q)) ↦
          subst (IsJustified all) q (a, b, i, k, refl, refl, is_linked-IsDialable a b h)
      | inr (h, inr (p, q)) ↦
          subst (IsJustified all) q
            (b, a, k, i, refl, refl, IsDialable-swap a b (is_linked-IsDialable a b h))
    ]

    link_all-AllJustified :
        (all : List NodeInfo) (a : NodeInfo) (bs : List NodeInfo) (m : Edges fl)
        → IsIn a all
        → ((b : NodeInfo) → IsIn b bs → IsIn b all)
        → AllJustified all m
        → AllJustified all (link_all fl w metrics a bs m)
    unfolding link_all
    link_all-AllJustified all a [] m i s u = u
    link_all-AllJustified all a (b ∷ bs) m i s u =
        link_all-AllJustified all a bs (link fl w metrics a b m) i (λ x k. s x (inr k))
          (link-AllJustified all a b m i (s b (inl refl)) u)

    link_pairs-AllJustified :
        (all ns : List NodeInfo) (m : Edges fl)
        → ((b : NodeInfo) → IsIn b ns → IsIn b all)
        → AllJustified all m
        → AllJustified all (link_pairs fl w metrics ns m)
    unfolding link_pairs
    link_pairs-AllJustified all [] m s u = u
    link_pairs-AllJustified all (a ∷ ns) m s u =
        link_pairs-AllJustified all ns (link_all fl w metrics a ns m) (λ x k. s x (inr k))
          (link_all-AllJustified all a ns m (s a (inl refl)) (λ x k. s x (inr k)) u)

    pub empty_neighbors : (j : String) (e : Edge fl) → ¬ IsIn e (neighbors fl j [])
    unfolding neighbors edges_of get
    empty_neighbors j e i = i

    -- In the graph built from any nodes and metrics, every edge listed for an identifier starts
    -- there, its reverse with the same cost is listed for its end, and it joins two of the given
    -- nodes that are not both clients and of which one at least has an endpoint.
    pub build_graph_lem :
        (ns : List NodeInfo) (j : String) (e : Edge fl)
        → IsIn e (neighbors fl j (build_graph fl ns metrics w).edges)
        → (e.from ≡ j)
          × IsIn (reverse fl e) (neighbors fl e.to (build_graph fl ns metrics w).edges)
          × IsJustified ns e
    unfolding build_graph
    build_graph_lem ns j e i =
        let (p, r) = link_pairs-IsTwoWay ns [] (λ k x l. absurd (empty_neighbors k x l)) j e i in
        (
          p,
          r,
          link_pairs-AllJustified ns ns [] (λ x l. l) (λ k x l. absurd (empty_neighbors k x l)) j e
              i,
        )

    -- Two nodes in the order of the list.
    abbrev pub IsBefore : NodeInfo → NodeInfo → List NodeInfo → Type 0
    IsBefore a b [] = ⊥
    IsBefore a b (n ∷ ns) = ((n ≡ a) × IsIn b ns) ⊎ IsBefore a b ns

    abbrev Joined : NodeInfo → NodeInfo → Edges fl → Type 0
    Joined a b m =
        IsIn (there fl w metrics a b) (neighbors fl a.id m)
        × IsIn (back fl w metrics a b) (neighbors fl b.id m)

    link_all-Joined :
        (a b n : NodeInfo) (bs : List NodeInfo) (m : Edges fl)
        → Joined a b m
        → Joined a b (link_all fl w metrics n bs m)
    unfolding link_all
    link_all-Joined a b n [] m h = h
    link_all-Joined a b n (x ∷ bs) m (p, q) = link_all-Joined a b n bs (link fl w metrics n x m) (
      link-kept fl w metrics n x m a.id (there fl w metrics a b) p,
      link-kept fl w metrics n x m b.id (back fl w metrics a b) q,
    )

    link_pairs-Joined :
        (a b : NodeInfo) (ns : List NodeInfo) (m : Edges fl)
        → Joined a b m
        → Joined a b (link_pairs fl w metrics ns m)
    unfolding link_pairs
    link_pairs-Joined a b [] m h = h
    link_pairs-Joined a b (n ∷ ns) m h =
        link_pairs-Joined a b ns (link_all fl w metrics n ns m) (link_all-Joined a b n ns m h)

    link_all-joins :
        (a b : NodeInfo) (bs : List NodeInfo) (m : Edges fl)
        → is_linked fl a b ≡ true
        → IsIn b bs
        → Joined a b (link_all fl w metrics a bs m)
    unfolding link_all
    link_all-joins a b [] m h i = absurd i
    link_all-joins a b (x ∷ bs) m h (inl e) =
        subst (λ y. Joined a b (link_all fl w metrics a bs (link fl w metrics a y m))) (sym e)
          (link_all-Joined a b a bs (link fl w metrics a b m) (link-new fl w metrics a b m h))
    link_all-joins a b (x ∷ bs) m h (inr i) = link_all-joins a b bs (link fl w metrics a x m) h i

    link_pairs-joins :
        (a b : NodeInfo) (ns : List NodeInfo) (m : Edges fl)
        → is_linked fl a b ≡ true
        → IsBefore a b ns
        → Joined a b (link_pairs fl w metrics ns m)
    unfolding link_pairs
    link_pairs-joins a b [] m h i = absurd i
    link_pairs-joins a b (n ∷ ns) m h (inl (e, i)) =
        link_pairs-Joined a b ns (link_all fl w metrics n ns m) (
          subst (λ y. Joined a b (link_all fl w metrics y ns m)) (sym e)
            (link_all-joins a b ns m h i))
    link_pairs-joins a b (n ∷ ns) m h (inr i) =
        link_pairs-joins a b ns (link_all fl w metrics n ns m) h i

    IsDialable-is_linked : (a b : NodeInfo) → IsDialable a b → is_linked fl a b ≡ true
    unfolding is_linked
    IsDialable-is_linked a b (c, d) = elim (Bool-cases (is_linked fl a b)) [
      | inl h ↦ h
      | inr h ↦ ground (
        arith,
        c,
        d,
        ==_iff a.node_type "client",
        ==_iff b.node_type "client",
        ==_iff a.endpoint "",
        ==_iff b.endpoint "",
      )
    ]

    -- Of two nodes that stand in the list one after the other, that are not both clients and of
    -- which one at least has an endpoint, each has an edge to the other in the graph, at the
    -- halved sum of the two nodes' costs.
    pub build_graph_complete :
        (ns : List NodeInfo) (a b : NodeInfo)
        → IsBefore a b ns
        → IsDialable a b
        → IsIn (there fl w metrics a b) (neighbors fl a.id (build_graph fl ns metrics w).edges)
          × IsIn (back fl w metrics a b) (neighbors fl b.id (build_graph fl ns metrics w).edges)
    unfolding build_graph
    build_graph_complete ns a b i d = link_pairs-joins a b ns [] (IsDialable-is_linked a b d) i
