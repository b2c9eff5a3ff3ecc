-- ===== src/Control/ListHeap.antt =====
-- A heap as a list of which Pop takes a least item, for the witnesses.
use res.Base.{
  suc, ◌≡◌, ◌⊎◌, inl, inr, refl, subst, ap, Bool, Bool-cases, true, false, List, [], ◌∷◌, length,
  arith, if◌then◌else◌, string_eq,
}
use res.Control.Graph.{Floats}
use res.Control.Graph.Links.{IsIn}
use res.Control.Paths.{Heap, Item, item_less}
use res.Control.Paths.Order.{AtMost, IsOrdered, at_most_refl}

-- The least item, and the others.
unfoldable pub take_least : {A : Type 0} → (A → A → Bool) → A → List A → A × List A
take_least less x [] = (x, [])
take_least less x (y ∷ q) =
    let (m, r) = take_least less y q in if less m x then (m, x ∷ r) else (x, m ∷ r)

module _ (fl : Floats) (o : IsOrdered fl) where
  abbrev pub least : Item fl → List (Item fl) → Item fl × List (Item fl)
  least = take_least (item_less fl)

  -- A property of the result, from the two ways to get it.
  least_rule :
      (P : Item fl × List (Item fl) → Type 0) (x y : Item fl) (q : List (Item fl))
      → (item_less fl (least y q).0 x ≡ true → P ((least y q).0, x ∷ (least y q).1))
      → (item_less fl (least y q).0 x ≡ false → P (x, (least y q).0 ∷ (least y q).1))
      → P (least x (y ∷ q))
  unfolding take_least
  least_rule P x y q below above = elim (Bool-cases (item_less fl (least y q).0 x)) [
    | inl h ↦ subst P {x = ((least y q).0, x ∷ (least y q).1)} (ground (arith, h)) (below h)
    | inr h ↦ subst P {x = (x, (least y q).0 ∷ (least y q).1)} (ground (arith, h)) (above h)
  ]

  pub least-first : (x : Item fl) (q : List (Item fl)) → IsIn (least x q).0 (x ∷ q)
  unfolding take_least
  least-first x [] = inl refl
  least-first x (y ∷ q) =
      least_rule (λ r. IsIn r.0 (x ∷ y ∷ q)) x y q (λ _. inr (least-first y q)) (λ _. inl refl)

  pub least-cases :
      (x z : Item fl) (q : List (Item fl))
      → IsIn z (x ∷ q)
      → ((least x q).0 ≡ z) ⊎ IsIn z (least x q).1
  unfolding take_least
  least-cases x z [] (inl e) = inl e
  least-cases x z [] (inr i) = absurd i
  least-cases x z (y ∷ q) (inl e) =
      least_rule (λ r. (r.0 ≡ z) ⊎ IsIn z r.1) x y q (λ _. inr (inl e)) (λ _. inl e)
  least-cases x z (y ∷ q) (inr k) =
      least_rule (λ r. (r.0 ≡ z) ⊎ IsIn z r.1) x y q
        (λ _. elim (least-cases y z q k) [ inl e ↦ inl e | inr r ↦ inr (inr r) ])
        (λ _. inr (least-cases y z q k))

  pub least-rest : (x z : Item fl) (q : List (Item fl)) → IsIn z (least x q).1 → IsIn z (x ∷ q)
  unfolding take_least
  least-rest x z [] = λ i. absurd i
  least-rest x z (y ∷ q) =
      least_rule (λ r. IsIn z r.1 → IsIn z (x ∷ y ∷ q)) x y q
        (λ _ i. elim i [ inl e ↦ inl e | inr k ↦ inr (least-rest y z q k) ])
        (λ _ i. elim i [
          | inl e ↦ inr (subst (λ w. IsIn w (y ∷ q)) e (least-first y q))
          | inr k ↦ inr (least-rest y z q k)
        ])

  pub length-least : (x : Item fl) (q : List (Item fl)) → length (least x q).1 ≡ length q
  unfolding take_least
  length-least x [] = refl
  length-least x (y ∷ q) =
      least_rule (λ r. length r.1 ≡ suc (length q)) x y q (λ _. ap suc (length-least y q))
        (λ _. ap suc (length-least y q))

  pub least-least :
      (x z : Item fl) (q : List (Item fl)) → IsIn z (x ∷ q) → AtMost fl (least x q).0.cost z.cost
  unfolding take_least
  least-least x z [] (inl e) = subst (λ w. AtMost fl x.cost w.cost) e (at_most_refl fl o x.cost)
  least-least x z [] (inr i) = absurd i
  least-least x z (y ∷ q) (inl e) =
      subst (λ w. AtMost fl (least x (y ∷ q)).0.cost w.cost) e
        (least_rule (λ r. AtMost fl r.0.cost x.cost) x y q (λ h. o.asym (least y q).0.cost x.cost h)
          (λ _. at_most_refl fl o x.cost))
  least-least x z (y ∷ q) (inr k) =
      least_rule (λ r. AtMost fl r.0.cost z.cost) x y q (λ _. least-least y z q k)
        (λ h. o.trans x.cost (least y q).0.cost z.cost h (least-least y z q k))

  -- Push puts the item in front.
  abbrev pub list_heap : Heap (item_less fl)
  list_heap = record {
    push = λ x q. x ∷ q;
    pop = least;
    push-new = λ x q. inl refl;
    push-old = λ x y q i. inr i;
    push-cases = λ x y q i. i;
    length-push = λ x q. refl;
    pop-first = least-first;
    pop-rest = least-rest;
    pop-cases = least-cases;
    length-pop = length-least;
    pop-least = λ x y q i. least-least x y q i;
  }
