-- ===== src/Control/Relays/Best.antt =====
-- `GetBestAvailable` of control-plane/db/metrics_repo.go gives a free relay, and one of the freest.
use res.Base.{
  ℕ, ◌-◌, ◌≤◌, ◌≡◌, inl, inr, refl, subst, ap, true, some, List, [], ◌∷◌, filter, ltb, arith,
  Bool-cases,
}
use res.Control.Graph.Links.{IsIn, IsIn-filter, IsIn-filter_of}
use res.Control.Relays.{RelayServer, is_available, freest, first_of, get_best_available}

-- The slots that a relay has left.
abbrev pub slots : RelayServer → ℕ
slots r = r.capacity - r.active_sessions

freest-IsIn : (r : RelayServer) (rows : List RelayServer) → IsIn (freest r rows) (r ∷ rows)
unfolding freest
freest-IsIn r [] = inl refl
freest-IsIn r (s ∷ rows) = elim (Bool-cases (ltb (slots r) (slots s))) [
  | inl h ↦
      subst (λ x. IsIn x (r ∷ s ∷ rows)) {x = freest s rows} (ground (arith, h))
        (inr (freest-IsIn s rows))
  | inr h ↦
      subst (λ x. IsIn x (r ∷ s ∷ rows)) {x = freest r rows} (ground (arith, h))
        (skip r s rows (freest-IsIn r rows))
]
  where
    skip :
        (r s : RelayServer) (rows : List RelayServer) {x : RelayServer}
        → IsIn x (r ∷ rows)
        → IsIn x (r ∷ s ∷ rows)
    skip r s rows (inl e) = inl e
    skip r s rows (inr i) = inr (inr i)

freest-most :
    (r x : RelayServer) (rows : List RelayServer)
    → IsIn x (r ∷ rows)
    → slots x ≤ slots (freest r rows)
unfolding freest
freest-most r x [] (inl e) = omega (arith, ap slots e)
freest-most r x [] (inr i) = absurd i
freest-most r x (s ∷ rows) (inl e) =
    ground (arith, ap slots e, freest-most s s rows (inl refl), freest-most r r rows (inl refl))
freest-most r x (s ∷ rows) (inr (inl e)) =
    ground (arith, ap slots e, freest-most s s rows (inl refl), freest-most r r rows (inl refl))
freest-most r x (s ∷ rows) (inr (inr i)) =
    ground (arith, freest-most s x rows (inr i), freest-most r x rows (inr i))

first_of-eq-some :
    (rows : List RelayServer) (r : RelayServer)
    → first_of rows ≡ some r
    → IsIn r rows × ((x : RelayServer) → IsIn x rows → slots x ≤ slots r)
unfolding first_of
first_of-eq-some [] r e = absurd (ground (arith, e))
first_of-eq-some (x ∷ rows) r e =
    subst (λ y. IsIn y (x ∷ rows) × ((z : RelayServer) → IsIn z (x ∷ rows) → slots z ≤ slots y))
      (ground (arith, e)) (freest-IsIn x rows, λ z i. freest-most x z rows i)

-- A relay that is chosen is in the table, was seen in the last 5 minutes and has a free slot, and no
-- other such relay has more.
pub get_best_available-eq-some :
    (now : ℕ) (rows : List RelayServer) (r : RelayServer)
    → get_best_available now rows ≡ some r
    → IsIn r rows
      × (is_available now r ≡ true)
      × ((x : RelayServer) → IsIn x rows → is_available now x ≡ true → slots x ≤ slots r)
unfolding get_best_available
get_best_available-eq-some now rows r e =
    let (i, most) = first_of-eq-some (filter (is_available now) rows) r e in
    let (k, h) = IsIn-filter (is_available now) r rows i in
    (k, h, λ x j l. most x (IsIn-filter_of (is_available now) x rows j l))
