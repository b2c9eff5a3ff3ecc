-- ===== src/Control/Paths/Trace.antt =====
-- The path that the search reads back from its end is a walk of the distance found.
use Prim.Native.String.{String}
use mathlib.Core.List.{append_assoc}
use res.Base.{
  ℕ, zero, suc, ◌≤◌, ◌≡◌, ◌≢◌, inl, inr, refl, sym, subst, ap, ◌∙◌, false, List, [], ◌∷◌, ◌++◌,
  some, length, ==_refl, ==_ne, string_eq, arith,
}
use res.Control.Graph.{Floats, Graph}
use res.Control.Graph.Links.{IsIn}
use res.Control.Paths.{Heap, item_less, Search, is_node, trace}
use res.Control.Paths.Order.{IsOrdered}
use res.Control.Paths.Invariant.{IsNode, Parent, Chained, by_key}
use res.Control.Paths.Walks.{Walk, here, onward}

trace_source :
    (f : ℕ) (prev : String → String) (src : String) (acc : List String)
    → src ≢ ""
    → trace (suc f) prev src src acc ≡ some (src ∷ acc)
unfolding trace
trace_source f prev src acc h = ground (arith, ==_ne src "" h, ==_refl src)

trace_onward :
    (f : ℕ) (prev : String → String) (src v : String) (acc : List String)
    → v ≢ ""
    → v ≢ src
    → trace (suc f) prev src v acc ≡ trace f prev src (prev v) (v ∷ acc)
unfolding trace
trace_onward f prev src v acc h k = ground (arith, ==_ne v "" h, ==_ne v src k)

module _ (fl : Floats) (o : IsOrdered fl) (heap : Heap (item_less fl)) (g : Graph fl) (src : String)
    (unnamed : is_node fl "" g ≡ false) (t : Search fl) (source : t.dist src ≡ fl.lit 0) where
  named : (v : String) → IsNode fl o heap g src v → v ≢ ""
  named v n e = absurd (ground (arith, n, unnamed, ap (λ x. is_node fl x g) e))

  abbrev pub Traced : ℕ → String → List String → Type 0
  Traced f v acc =
      (p : List String) × Walk fl g.edges src v (t.dist v) p
      × (trace f t.prev src v acc ≡ some (p ++ acc))

  pub Traced-source :
      (f : ℕ) (v : String) (acc : List String)
      → IsNode fl o heap g src v
      → v ≡ src
      → Traced (suc f) v acc
  Traced-source f v acc n q =
      subst (λ x. Traced (suc f) x acc) (sym q)
        (
          src ∷ [],
          here refl source refl,
          trace_source f t.prev src acc (named src (subst (IsNode fl o heap g src) q n)),
        )

  -- From a node to the one that it was reached from.
  pub Traced-Parent :
      (f : ℕ) (v : String) (acc : List String) (ds : List String)
      → IsNode fl o heap g src v
      → Parent fl o heap g src ds t v
      → Traced f (t.prev v) (v ∷ acc)
      → Traced (suc f) v acc
  Traced-Parent f v acc ds n (_, (e, i, q, c)) (p, w, r) =
      by_key (Traced (suc f) v acc) v src (Traced-source f v acc n) (λ k. (
        p ++ v ∷ [],
        onward w e i q (sym c) refl,
        trace_onward f t.prev src v acc (named v n) k
            ∙ r
            ∙ ap (λ x. some x) (sym (append_assoc p (v ∷ []) acc)),
      ))

  pub Traced-done :
      (ds : List String) (f : ℕ) (v : String) (acc : List String)
      → IsIn v ds
      → Chained fl o heap g src ds t
      → length ds ≤ f
      → Traced f v acc
  Traced-done [] f v acc i c l = absurd i
  Traced-done (u ∷ ds) zero v acc i c l = absurd (omega arith)
  Traced-done (u ∷ ds) (suc f) v acc (inl q) (n, inl k, c) l =
      Traced-source f v acc (subst (IsNode fl o heap g src) q n) (sym q ∙ k)
  Traced-done (u ∷ ds) (suc f) v acc (inl q) (n, inr p, c) l =
      subst (λ x. Traced (suc f) x acc) q
        (Traced-Parent f u acc ds n p (Traced-done ds f (t.prev u) (u ∷ acc) p.0 c (omega arith)))
  Traced-done (u ∷ ds) (suc f) v acc (inr i) (n, p, c) l =
      Traced-done ds (suc f) v acc i c (omega arith)
