-- ===== src/Control/Graph/Links.antt =====
-- The edges after one step of `BuildGraph` of control-plane/routing/graph.go.
use Prim.Native.String.{String}
use res.Base.{
  ◌≡◌, ◌⊎◌, inl, inr, refl, subst, sym, ap, ◌∙◌, Bool, filter, Bool-cases, true, List, [], ◌∷◌,
  ◌++◌, Assoc, get-put, if◌then◌else◌, ◌==◌, ==_iff, ==_refl, string_eq, arith,
}
use res.Control.Graph.{
  Floats, NodeInfo, Metrics, Weights, Edge, Edges, edges_of, neighbors, add_edge, is_linked,
  link_cost, link,
}

abbrev pub IsIn : {A : Type 0} → A → List A → Type 0
IsIn x [] = ⊥
IsIn x (y ∷ ys) = (y ≡ x) ⊎ IsIn x ys

pub IsIn-filter :
    {A : Type 0} (p : A → Bool) (r : A) (rows : List A)
    → IsIn r (filter p rows)
    → IsIn r rows × (p r ≡ true)
IsIn-filter p r [] i = absurd i
IsIn-filter p r (x ∷ rows) i = elim (Bool-cases (p x)) [
  | inl h ↦ elim (subst (IsIn r) {y = x ∷ filter p rows} (ground (arith, h)) i) [
    | inl e ↦ (inl e, ap p (sym e) ∙ h)
    | inr k ↦ let (l, q) = IsIn-filter p r rows k in (inr l, q)
  ]
  | inr h ↦
      let (l, q) =
        IsIn-filter p r rows (subst (IsIn r) {y = filter p rows} (ground (arith, h)) i) in
      (inr l, q)
]

pub IsIn-filter_of :
    {A : Type 0} (p : A → Bool) (r : A) (rows : List A)
    → IsIn r rows
    → p r ≡ true
    → IsIn r (filter p rows)
IsIn-filter_of p r [] i h = absurd i
IsIn-filter_of p r (x ∷ rows) (inl e) h =
    subst (IsIn r) {x = x ∷ filter p rows} (ground (arith, ap p e, h)) (inl e)
IsIn-filter_of p r (x ∷ rows) (inr i) h = elim (Bool-cases (p x)) [
  | inl k ↦
      subst (IsIn r) {x = x ∷ filter p rows} (ground (arith, k)) (inr (IsIn-filter_of p r rows i h))
  | inr k ↦ subst (IsIn r) {x = filter p rows} (ground (arith, k)) (IsIn-filter_of p r rows i h)
]

pub IsIn-append_left : {A : Type 0} (x : A) (xs ys : List A) → IsIn x xs → IsIn x (xs ++ ys)
IsIn-append_left x [] ys i = absurd i
IsIn-append_left x (z ∷ xs) ys (inl e) = inl e
IsIn-append_left x (z ∷ xs) ys (inr i) = inr (IsIn-append_left x xs ys i)

pub IsIn-append_last : {A : Type 0} (x : A) (xs : List A) → IsIn x (xs ++ x ∷ [])
IsIn-append_last x [] = inl refl
IsIn-append_last x (z ∷ xs) = inr (IsIn-append_last x xs)

pub IsIn-append : {A : Type 0} (x y : A) (xs : List A) → IsIn x (xs ++ y ∷ []) → IsIn x xs ⊎ (y ≡ x)
IsIn-append x y [] (inl e) = inr e
IsIn-append x y [] (inr i) = absurd i
IsIn-append x y (z ∷ xs) (inl e) = inl (inl e)
IsIn-append x y (z ∷ xs) (inr i) = elim (IsIn-append x y xs i) [
  | inl j ↦ inl (inr j)
  | inr e ↦ inr e
]

module _ (fl : Floats) where
  neighbors-add_edge :
      (j k : String) (e : Edge fl) (m : Edges fl)
      → neighbors fl j (add_edge fl k e m)
        ≡ (if k == j then neighbors fl k m ++ e ∷ [] else neighbors fl j m)
  unfolding neighbors add_edge edges_of
  neighbors-add_edge j k e m = ground (arith, get-put j k (neighbors fl k m ++ e ∷ []) m)

  abbrev pub reverse : Edge fl → Edge fl
  reverse e = record { from = e.to; to = e.from; cost = e.cost }

  added :
      (j k : String) (x e : Edge fl) (m : Edges fl)
      → IsIn e (neighbors fl j (add_edge fl k x m))
      → IsIn e (neighbors fl j m) ⊎ ((k ≡ j) × (x ≡ e))
  added j k x e m i = elim (Bool-cases (k == j)) [
    | inl h ↦
        let q = (==_iff k j).0 h in
        let i' : IsIn e (neighbors fl k m ++ x ∷ []) =
          subst (IsIn e) {y = neighbors fl k m ++ x ∷ []}
            (ground (arith, h, neighbors-add_edge j k x m)) i in
        elim (IsIn-append e x (neighbors fl k m) i') [
          | inl a ↦ inl (subst (λ s. IsIn e (neighbors fl s m)) q a)
          | inr r ↦ inr (q, r)
        ]
    | inr h ↦ inl (subst (IsIn e) (ground (arith, h, neighbors-add_edge j k x m)) i)
  ]

  kept :
      (j k : String) (x e : Edge fl) (m : Edges fl)
      → IsIn e (neighbors fl j m)
      → IsIn e (neighbors fl j (add_edge fl k x m))
  kept j k x e m i = elim (Bool-cases (k == j)) [
    | inl h ↦
        subst (IsIn e) {x = neighbors fl k m ++ x ∷ []}
          (ground (arith, h, neighbors-add_edge j k x m))
          (IsIn-append_left e (neighbors fl k m) (x ∷ [])
            (subst (λ s. IsIn e (neighbors fl s m)) (sym ((==_iff k j).0 h)) i))
    | inr h ↦ subst (IsIn e) (ground (arith, h, neighbors-add_edge j k x m)) i
  ]

  fresh : (k : String) (x : Edge fl) (m : Edges fl) → IsIn x (neighbors fl k (add_edge fl k x m))
  fresh k x m =
      subst (IsIn x) {x = neighbors fl k m ++ x ∷ []}
        (ground (arith, ==_refl k, neighbors-add_edge k k x m))
        (IsIn-append_last x (neighbors fl k m))

  module _ (w : Weights fl) (metrics : Assoc String (Metrics fl)) where
    abbrev pub there : NodeInfo → NodeInfo → Edge fl
    there a b = record { from = a.id; to = b.id; cost = link_cost fl w metrics a b }

    abbrev pub back : NodeInfo → NodeInfo → Edge fl
    back a b = reverse (there a b)

    -- An edge after a step is one of the two that the step adds, or an old one.
    pub link-cases :
        (a b : NodeInfo) (m : Edges fl) (j : String) (e : Edge fl)
        → IsIn e (neighbors fl j (link fl w metrics a b m))
        → IsIn e (neighbors fl j m)
          ⊎ ((is_linked fl a b ≡ true)
              × (((a.id ≡ j) × (there a b ≡ e)) ⊎ ((b.id ≡ j) × (back a b ≡ e))))
    unfolding link
    link-cases a b m j e i = elim (Bool-cases (is_linked fl a b)) [
      | inl h ↦
          let m1 = add_edge fl a.id (there a b) m in
          let i' : IsIn e (neighbors fl j (add_edge fl b.id (back a b) m1)) =
            subst (λ m. IsIn e (neighbors fl j m)) (ground (arith, h)) i in
          elim (added j b.id (back a b) e m1 i') [
            | inr q ↦ inr (h, inr q)
            | inl k ↦ elim (added j a.id (there a b) e m k) [
              | inl o ↦ inl o
              | inr q ↦ inr (h, inl q)
            ]
          ]
      | inr h ↦ inl (subst (λ m. IsIn e (neighbors fl j m)) (ground (arith, h)) i)
    ]

    -- Both edges of a step are there after it, and the old ones are.
    pub link-new :
        (a b : NodeInfo) (m : Edges fl)
        → is_linked fl a b ≡ true
        → IsIn (there a b) (neighbors fl a.id (link fl w metrics a b m))
          × IsIn (back a b) (neighbors fl b.id (link fl w metrics a b m))
    unfolding link
    link-new a b m h =
        let m1 = add_edge fl a.id (there a b) m in
        let m2 = add_edge fl b.id (back a b) m1 in
        let q : m2 ≡ link fl w metrics a b m = ground (arith, h) in
        (
          subst (λ m. IsIn (there a b) (neighbors fl a.id m)) q
              (kept a.id b.id (back a b) (there a b) m1 (fresh a.id (there a b) m)),
          subst (λ m. IsIn (back a b) (neighbors fl b.id m)) q (fresh b.id (back a b) m1),
        )

    pub link-kept :
        (a b : NodeInfo) (m : Edges fl) (j : String) (e : Edge fl)
        → IsIn e (neighbors fl j m)
        → IsIn e (neighbors fl j (link fl w metrics a b m))
    unfolding link
    link-kept a b m j e i = elim (Bool-cases (is_linked fl a b)) [
      | inl h ↦
          let m1 = add_edge fl a.id (there a b) m in
          subst (λ m. IsIn e (neighbors fl j m)) {x = add_edge fl b.id (back a b) m1}
            (ground (arith, h)) (kept j b.id (back a b) e m1 (kept j a.id (there a b) e m i))
      | inr h ↦ subst (λ m. IsIn e (neighbors fl j m)) {x = m} (ground (arith, h)) i
    ]
