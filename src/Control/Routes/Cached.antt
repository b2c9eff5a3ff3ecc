-- ===== src/Control/Routes/Cached.antt =====
-- What `GetOptimal` of control-plane/db/route_repo.go gives after another route was stored.

use res.Base.{
  ℕ, ◌<◌, ◌≡◌, ◌⊎◌, inl, inr, Bool, Bool-cases, true, some, List, [], ◌∷◌, filter, arith, ==_iff,
  string_eq, refl, sym, subst, ◌∙◌,
}
use res.Control.Graph.{Floats}
use res.Control.Graph.Links.{
  IsIn, IsIn-filter, IsIn-filter_of, IsIn-append, IsIn-append_left, IsIn-append_last,
}
use res.Control.Paths.{Route}
use res.Control.Paths.Order.{AtMost, Below, IsOrdered, at_most_refl, clash}
use res.Control.Routes.{
  Row, Table, stored, upsert, is_current, better, cheapest, first_of, get_optimal,
}
use res.Control.Routes.Fresh.{IsFresh, upsert_appends}

module _ (fl : Floats) where
  current :
      (real : fl.F → fl.F) (route : Route fl) (now id : ℕ)
      → now < route.expires_at
      → is_current fl now route.src_node_id route.dst_node_id
          (record { id = id; route = stored fl real route })
        ≡ true
  unfolding is_current stored
  current real route now id l = ground (
    arith,
    l,
    ==_iff route.src_node_id route.src_node_id,
    ==_iff route.dst_node_id route.dst_node_id,
  )

  module _ (o : IsOrdered fl) (tie : ℕ → ℕ → Bool) where
    -- One of the two, and no dearer than either.
    better-cases :
        (r s : Row fl)
        → ((better fl tie r s ≡ r) ⊎ (better fl tie r s ≡ s))
          × AtMost fl (better fl tie r s).route.cost r.route.cost
          × AtMost fl (better fl tie r s).route.cost s.route.cost
    unfolding better
    better-cases r s = elim (Bool-cases (fl.less s.route.cost r.route.cost)) [
      | inl h ↦ rw h (inr refl, o.asym s.route.cost r.route.cost h, at_most_refl fl o s.route.cost)
      | inr h ↦ elim (Bool-cases (fl.less r.route.cost s.route.cost)) [
        | inl k ↦ rw (h, k) (inl refl, at_most_refl fl o r.route.cost, h)
        | inr k ↦ elim (Bool-cases (tie r.id s.id)) [
          | inl t ↦ rw (h, k, t) (inl refl, at_most_refl fl o r.route.cost, h)
          | inr t ↦ rw (h, k, t) (inr refl, k, at_most_refl fl o s.route.cost)
        ]
      ]
    ]

    cheapest-IsIn : (r : Row fl) (rows : List (Row fl)) → IsIn (cheapest fl tie r rows) (r ∷ rows)
    unfolding cheapest
    cheapest-IsIn r [] = inl refl
    cheapest-IsIn r (s ∷ rows) = elim (cheapest-IsIn (better fl tie r s) rows) [
      | inr i ↦ inr (inr i)
      | inl e ↦ elim (better-cases r s).0 [
        | inl q ↦ inl (sym q ∙ e)
        | inr q ↦ inr (inl (sym q ∙ e))
      ]
    ]

    cheapest-least :
        (r x : Row fl) (rows : List (Row fl))
        → IsIn x (r ∷ rows)
        → AtMost fl (cheapest fl tie r rows).route.cost x.route.cost
    unfolding cheapest
    cheapest-least r x [] (inl e) =
        subst (λ (y : Row fl). AtMost fl r.route.cost y.route.cost) e
          (at_most_refl fl o r.route.cost)
    cheapest-least r x [] (inr i) = absurd i
    cheapest-least r x (s ∷ rows) i =
        let b = better fl tie r s in
        let c = cheapest fl tie b rows in
        let (_, below_r, below_s) = better-cases r s in
        let below = cheapest-least b b rows (inl refl) in
        elim i [
          | inl e ↦
              subst (λ (y : Row fl). AtMost fl c.route.cost y.route.cost) e
                (o.trans c.route.cost b.route.cost r.route.cost below below_r)
          | inr (inl e) ↦
              subst (λ (y : Row fl). AtMost fl c.route.cost y.route.cost) e
                (o.trans c.route.cost b.route.cost s.route.cost below below_s)
          | inr (inr k) ↦ cheapest-least b x rows (inr k)
        ]

    first_of-least :
        (rows : List (Row fl)) (x : Row fl)
        → IsIn x rows
        → (s : Row fl) × (first_of fl tie rows ≡ some s)
          × IsIn s rows
          × ((y : Row fl) → IsIn y rows → AtMost fl s.route.cost y.route.cost)
    unfolding first_of
    first_of-least [] x i = absurd i
    first_of-least (r ∷ rows) x i =
        (cheapest fl tie r rows, refl, cheapest-IsIn r rows, λ y k. cheapest-least r y rows k)

    -- A row for the two nodes that has not expired.
    abbrev pub IsCurrent : ℕ → Route fl → Table fl → Row fl → Type 0
    IsCurrent now route t row =
        IsIn row t.rows × (is_current fl now route.src_node_id route.dst_node_id row ≡ true)

    -- Over a table whose ids come from its sequence and numbers that satisfy IsOrdered, once a route
    -- that has not expired is stored, one is found between its nodes, however ties are broken: the
    -- new one or one that was there, whichever costs the least, as the columns keep the costs. So a
    -- new route is not found as long as one that costs less has not expired, and it is found if it
    -- costs less than each that has not expired.
    pub get_optimal-upsert :
        (real : fl.F → fl.F) (route : Route fl) (now : ℕ) (t : Table fl)
        → IsFresh fl t
        → now < route.expires_at
        → (s : Row fl) × (get_optimal fl tie now route.src_node_id route.dst_node_id
              (upsert fl real route t)
            ≡ some s)
          × ((s ≡ record { id = t.next_id; route = stored fl real route })
              ⊎ IsCurrent now route t s)
          × ((x : Row fl) → IsCurrent now route t x → AtMost fl s.route.cost x.route.cost)
          × ((x : Row fl)
              → IsCurrent now route t x
              → Below fl x.route.cost (real route.cost)
              → IsCurrent now route t s)
          × (((x : Row fl) → IsCurrent now route t x → Below fl (real route.cost) x.route.cost)
              → s ≡ record { id = t.next_id; route = stored fl real route })
    unfolding get_optimal stored
    get_optimal-upsert real route now t h l =
        let p = is_current fl now route.src_node_id route.dst_node_id in
        let row : Row fl = record { id = t.next_id; route = stored fl real route } in
        let rows = (upsert_appends fl real route t h).0 in
        let here : IsIn row (upsert fl real route t).rows =
          subst (IsIn row) (sym rows) (IsIn-append_last row t.rows) in
        let (s, e, i, least) = first_of-least (filter p (upsert fl real route t).rows) row (
          IsIn-filter_of p row (upsert fl real route t).rows here
            (current real route now t.next_id l)) in
        let (j, q) = IsIn-filter p s (upsert fl real route t).rows i in
        let old : (x : Row fl) → IsCurrent now route t x → AtMost fl s.route.cost x.route.cost =
          λ x c. least x (
            IsIn-filter_of p x (upsert fl real route t).rows
              (subst (IsIn x) (sym rows) (IsIn-append_left x t.rows (row ∷ []) c.0)) c.1) in
        let which : (s ≡ row) ⊎ IsCurrent now route t s =
          elim (IsIn-append s row t.rows (subst (IsIn s) rows j)) [
            | inl k ↦ inr (k, q)
            | inr k ↦ inl (sym k)
          ] in
        (
          s,
          e,
          which,
          old,
          λ x c below. elim which [
            | inr k ↦ k
            | inl k ↦
                clash fl x.route.cost (real route.cost) below
                  (subst (λ (y : Row fl). AtMost fl y.route.cost x.route.cost) k (old x c))
          ],
          λ all. elim which [
            | inl k ↦ k
            | inr k ↦ clash fl (real route.cost) s.route.cost (all s k) (
                least row (
                  IsIn-filter_of p row (upsert fl real route t).rows here
                    (current real route now t.next_id l)))
          ],
        )
