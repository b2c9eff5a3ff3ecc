-- ===== src/Control/Relays/Rows.antt =====
-- Looking up a row after UPDATE and INSERT: lemmas for the registration of relays.

use res.Base.{
  ◌≡◌, refl, subst, inl, inr, Bool, true, false, none, some, List, [], ◌∷◌, ◌++◌, if◌then◌else◌,
  arith, Bool-cases,
}
use res.Control.Nodes.{any, find, update_where}
use res.Control.Relays.{RelayServer}

pub find-update_where :
    (p q : RelayServer → Bool) (f : RelayServer → RelayServer) (rows : List RelayServer)
    (r : RelayServer)
    → ((x : RelayServer) → p (f x) ≡ p x)
    → find p rows ≡ some r
    → find p (update_where q f rows) ≡ some (if q r then f r else r)
unfolding find update_where
find-update_where p q f [] r h e = absurd (ground (arith, e))
find-update_where p q f (x ∷ rows) r h e = ground (arith, h x, e, find-update_where p q f rows r h)

pub find-append :
    (p : RelayServer → Bool) (rows : List RelayServer) (y r : RelayServer)
    → find p rows ≡ some r
    → find p (rows ++ y ∷ []) ≡ some r
unfolding find
find-append p [] y r e = absurd (ground (arith, e))
find-append p (x ∷ rows) y r e = ground (arith, e, find-append p rows y r)

pub find_last :
    (p : RelayServer → Bool) (rows : List RelayServer) (y : RelayServer)
    → any p rows ≡ false
    → p y ≡ true
    → find p (rows ++ y ∷ []) ≡ some y
unfolding find
find_last p [] y n h = ground (arith, h)
find_last p (x ∷ rows) y n h = ground (arith, n, find_last p rows y)

pub find-none :
    (p : RelayServer → Bool) (rows : List RelayServer) → any p rows ≡ false → find p rows ≡ none
unfolding find
find-none p [] n = refl
find-none p (x ∷ rows) n = ground (arith, n, find-none p rows)

pub find-true :
    (p : RelayServer → Bool) (rows : List RelayServer) (r : RelayServer)
    → find p rows ≡ some r
    → p r ≡ true
unfolding find
find-true p [] r e = absurd (ground (arith, e))
find-true p (x ∷ rows) r e = elim (Bool-cases (p x)) [
  | inl h ↦ subst (λ y. p y ≡ true) (ground (arith, e, h)) h
  | inr h ↦ find-true p rows r (ground (arith, e, h))
]

pub find_ext :
    (p q : RelayServer → Bool) (rows : List RelayServer)
    → ((x : RelayServer) → p x ≡ q x)
    → find p rows ≡ find q rows
unfolding find
find_ext p q [] h = refl
find_ext p q (x ∷ rows) h = ground (arith, h x, find_ext p q rows h)
