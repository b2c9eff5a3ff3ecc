-- ===== src/Relay/Dispatcher/Order.antt =====
-- The order of serials: a peer's sessions are oldest first, the goroutines newest first.
use res.Base.{
  ℕ, ◌+◌, ◌≤◌, ◌<◌, ◌≡◌, refl, ◌≢◌, List, [], ◌∷◌, ◌++◌, Option, none, some, arith, All, Bytes,
  if◌then◌else◌, nat_beq, nat_beq_iff, Bool-cases, inl, inr, sym,
}
use res.Relay.Frame.{Stream}
use res.Relay.Dispatcher.{Session, evict, remove}
use res.Relay.Dispatcher.System.{Live, find_live, set_live, drop_live}

-- Serials rise from `lo` on and stay below `hi`.
abbrev pub Ascends : ℕ → List Session → ℕ → Type 0
Ascends lo [] hi = Unit {0}
Ascends lo (s ∷ list) hi = (lo ≤ s.serial) × (s.serial < hi) × Ascends (s.serial + 1) list hi

Ascends-weaken :
    (lo lo' hi hi' : ℕ) (list : List Session)
    → lo' ≤ lo
    → hi ≤ hi'
    → Ascends lo list hi
    → Ascends lo' list hi'
Ascends-weaken lo lo' hi hi' [] p q h = tt
Ascends-weaken lo lo' hi hi' (s ∷ list) p q h = (
  omega arith,
  omega arith,
  Ascends-weaken (s.serial + 1) (s.serial + 1) hi hi' list (omega arith) q h.2,
)

pub Ascends-grow : (n : ℕ) (list : List Session) → Ascends 0 list n → Ascends 0 list (n + 1)
Ascends-grow n list h = Ascends-weaken 0 0 n (n + 1) list (omega arith) (omega arith) h

pub Ascends-snoc :
    (lo hi : ℕ) (list : List Session) (s : Session)
    → lo ≤ hi
    → hi ≤ s.serial
    → Ascends lo list hi
    → Ascends lo (list ++ s ∷ []) (s.serial + 1)
Ascends-snoc lo hi [] s l p h = (omega arith, omega arith, tt)
Ascends-snoc lo hi (x ∷ list) s l p h =
    (h.0, omega arith, Ascends-snoc (x.serial + 1) hi list s (omega arith) p h.2)

pub evict-Ascends :
    (hi : ℕ) (list : List Session) (closed : List ℕ)
    → Ascends 0 list hi
    → Ascends 0 (evict list closed).0 hi
unfolding evict
evict-Ascends hi [] closed h = tt
evict-Ascends hi (s ∷ list) closed h =
    ground (arith, Ascends-weaken (s.serial + 1) 0 hi hi list (omega arith) (omega arith) h.2)

pub remove-Ascends :
    (lo hi : ℕ) (s : Session) (list : List Session)
    → Ascends lo list hi
    → Ascends lo (remove s list) hi
unfolding remove
remove-Ascends lo hi s [] h = tt
remove-Ascends lo hi s (x ∷ list) h = ground (
  arith,
  Ascends-weaken (x.serial + 1) lo hi hi list,
  remove-Ascends (x.serial + 1) hi s list h.2,
)

Ascends-ne :
    (lo hi n : ℕ) (list : List Session) → n < lo → Ascends lo list hi → All (λ x. x.serial ≢ n) list
Ascends-ne lo hi n [] p h = tt
Ascends-ne lo hi n (x ∷ list) p h =
    (omega arith, Ascends-ne (x.serial + 1) hi n list (omega arith) h.2)

-- `remove` takes out the only session of its serial.
pub remove_gone :
    (lo hi : ℕ) (s : Session) (list : List Session)
    → Ascends lo list hi
    → All (λ x. x.serial ≢ s.serial) (remove s list)
unfolding remove
remove_gone lo hi s [] h = tt
remove_gone lo hi s (x ∷ list) h = elim (Bool-cases (nat_beq x.serial s.serial)) [
  | inl same ↦ rw same (
      Ascends-ne (x.serial + 1) hi s.serial list
        (omega (arith, (nat_beq_iff x.serial s.serial).0 same)) h.2)
  | inr other ↦ rw other (
    λ e. cc (sym other, (nat_beq_iff x.serial s.serial).1 e),
    remove_gone (x.serial + 1) hi s list h.2,
  )
]

-- Serials of goroutines fall along the list and stay below the bound.
abbrev pub Descends : ℕ → List Live → Type 0
Descends n [] = Unit {0}
Descends n (l ∷ ls) = (l.session.serial < n) × Descends l.session.serial ls

pub Descends-grow : (n : ℕ) (ls : List Live) → Descends n ls → Descends (n + 1) ls
Descends-grow n [] h = tt
Descends-grow n (l ∷ ls) h = (omega arith, h.1)

Descends-weaken : (m n : ℕ) (ls : List Live) → m ≤ n → Descends m ls → Descends n ls
Descends-weaken m n [] p h = tt
Descends-weaken m n (l ∷ ls) p h = (omega arith, h.1)

pub set_live-Descends :
    (n i : ℕ) (st : Stream) (f : Option (ℕ × Bytes)) (ls : List Live)
    → Descends n ls
    → Descends n (set_live i st f ls)
unfolding set_live
set_live-Descends n i st f [] h = tt
set_live-Descends n i st f (l ∷ ls) h =
    ground (arith, set_live-Descends l.session.serial i st f ls h.1)

pub drop_live-Descends : (n i : ℕ) (ls : List Live) → Descends n ls → Descends n (drop_live i ls)
unfolding drop_live
drop_live-Descends n i [] h = tt
drop_live-Descends n i (l ∷ ls) h =
    ground
      (arith, drop_live-Descends l.session.serial i ls h.1, Descends-weaken l.session.serial n ls)

-- The session of a goroutine, by its serial.
abbrev pub session_of : Option Live → Option Session
session_of none = none
session_of (some l) = some l.session

pub find-set_live :
    (j i : ℕ) (st : Stream) (f : Option (ℕ × Bytes)) (ls : List Live)
    → session_of (find_live j (set_live i st f ls)) ≡ session_of (find_live j ls)
unfolding find_live set_live
find-set_live j i st f [] = refl
find-set_live j i st f (l ∷ ls) = ground (arith, find-set_live j i st f ls)

find_above : (n j : ℕ) (ls : List Live) → Descends n ls → n ≤ j → find_live j ls ≡ none
unfolding find_live
find_above n j [] h p = refl
find_above n j (l ∷ ls) h p = ground (arith, find_above l.session.serial j ls h.1)

pub find-drop_live :
    (n j i : ℕ) (ls : List Live)
    → Descends n ls
    → find_live j (drop_live i ls) ≡ (if nat_beq j i then none else find_live j ls)
unfolding find_live drop_live
find-drop_live n j i [] h = ground arith
find-drop_live n j i (l ∷ ls) h =
    ground (arith, find-drop_live l.session.serial j i ls h.1, find_above l.session.serial j ls h.1)

pub find_live-serial :
    (i : ℕ) (ls : List Live) (l : Live) → find_live i ls ≡ some l → l.session.serial ≡ i
unfolding find_live
find_live-serial i [] l h = absurd (ground arith)
find_live-serial i (x ∷ ls) l h = ground (arith, find_live-serial i ls l)
