-- ===== src/Control/Routes/Fresh.antt =====
-- `Upsert` of control-plane/db/route_repo.go never meets a conflict.
use res.Base.{ℕ, suc, ◌<◌, ◌≡◌, false, List, [], ◌∷◌, ◌++◌, arith, nat_beq, refl}
use res.Control.Nodes.{any}
use res.Control.Graph.{Floats}
use res.Control.Paths.{Route}
use res.Control.Routes.{Row, Table, stored, upsert}

module _ (fl : Floats) where
  abbrev pub AllBelow : ℕ → List (Row fl) → Type 0
  AllBelow n [] = Unit
  AllBelow n (row ∷ rows) = (row.id < n) × AllBelow n rows

  -- The ids are values that the sequence has given.
  unfoldable pub IsFresh : Table fl → Type 0
  IsFresh t = AllBelow t.next_id t.rows

  fresh_id :
      (n : ℕ) (rows : List (Row fl)) → AllBelow n rows → any (λ row. nat_beq row.id n) rows ≡ false
  fresh_id n [] h = refl
  fresh_id n (row ∷ rows) (l, h) = ground (arith, l, fresh_id n rows h)

  AllBelow-append :
      (n : ℕ) (row : Row fl) (rows : List (Row fl))
      → AllBelow n rows
      → row.id < suc n
      → AllBelow (suc n) (rows ++ row ∷ [])
  AllBelow-append n row [] h l = (l, tt)
  AllBelow-append n row (r ∷ rows) (k, h) l = (omega (arith, k), AllBelow-append n row rows h l)

  -- Over a table whose ids come from its sequence, a route is always appended, whatever routes
  -- there are between the same nodes, and the ids still come from the sequence.
  pub upsert_appends :
      (real : fl.F → fl.F) (route : Route fl) (t : Table fl)
      → IsFresh t
      → ((upsert fl real route t).rows
          ≡ t.rows ++ record { id = t.next_id; route = stored fl real route } ∷ [])
        × IsFresh (upsert fl real route t)
  unfolding upsert IsFresh
  upsert_appends real route t h = rw (fresh_id t.next_id t.rows h) (
    refl,
    AllBelow-append t.next_id (record { id = t.next_id; route = stored fl real route }) t.rows h
        (omega arith),
  )
