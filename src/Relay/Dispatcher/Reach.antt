-- ===== src/Relay/Dispatcher/Reach.antt =====
-- What holds after any sequence of steps of the dispatcher's goroutines.
use res.Base.{
  ℕ, ◌+◌, ◌≡◌, ap, sym, ◌∙◌, ◌≢◌, some, List, [], ◌∷◌, ◌++◌, arith, Bytes, Assoc, NodupKeys, All,
  All-put, All-append, All-map, All-and, All-put_ne, All-del_ne, bytes_eq, nat_beq_iff,
}
use mathlib.Core.Path.{subst}
use mathlib.Core.Option.{some-injective}
use res.Relay.Dispatcher.{Session, sessions_of, evict, register, remove, store, unregister}
use res.Relay.Dispatcher.System.{Live, System, find_live, drop_live}
use res.Relay.Dispatcher.Table.{IsTable, IsEntry, sessions_of-All, evict-All, remove-All}
use res.Relay.Dispatcher.Order.{
  Ascends, Ascends-grow, Ascends-snoc, evict-Ascends, remove-Ascends, remove_gone, Descends,
  session_of, find-drop_live,
}

-- The goroutine that registered a session is in its loop.
abbrev pub IsLive : List Live → Session → Type 0
IsLive live s = session_of (find_live s.serial live) ≡ some s

-- An entry of the table, beside the goroutines.
abbrev pub IsHeld : ℕ → List Live → Bytes × List Session → Type 0
IsHeld n live (pk, list) = Ascends 0 list n × All (IsLive live) list

pub record Inv (s : System) : Type 0 where
  pub table : IsTable s.dispatcher.sessions
  pub held : All (IsHeld s.next_serial s.live) s.dispatcher.sessions
  pub serials : Descends s.next_serial s.live

-- A new goroutine, with the next serial, hides no other.
IsLive-cons :
    (lo n : ℕ) (new : Live) (live : List Live) (list : List Session)
    → new.session.serial ≡ n
    → Ascends lo list n
    → All (IsLive live) list
    → All (IsLive (new ∷ live)) list
unfolding find_live
IsLive-cons lo n new live [] e a h = tt
IsLive-cons lo n new live (s ∷ list) e a h =
    (ground arith, IsLive-cons (s.serial + 1) n new live list e a.2 h.1)

IsHeld-cons :
    (new : Live) (s : System) (e : Bytes × List Session)
    → new.session.serial ≡ s.next_serial
    → IsHeld s.next_serial s.live e
    → IsHeld (s.next_serial + 1) (new ∷ s.live) e
IsHeld-cons new s (pk, list) e h =
    (Ascends-grow s.next_serial list h.0, IsLive-cons 0 s.next_serial new s.live list e h.0 h.1)

pub register-IsHeld :
    (new : Live) (s : System)
    → new.session.serial ≡ s.next_serial
    → Inv s
    → All (IsHeld (s.next_serial + 1) (new ∷ s.live)) (register new.session s.dispatcher).sessions
unfolding register find_live
register-IsHeld new s e inv =
    let d = s.dispatcher in
    let pk = new.session.pubkey in
    let n = s.next_serial in
    let old = sessions_of d pk in
    let list = (evict old d.closed).0 in
    let (a, h) = sessions_of-All (IsHeld n s.live) d pk (tt, tt) inv.held in
    let a' : Ascends 0 list n = evict-Ascends n old d.closed a in
    let kept = IsLive-cons 0 n new s.live list e a' (evict-All (IsLive s.live) old d.closed h) in
    let self : IsLive (new ∷ s.live) new.session = ground arith in
    let snoc = Ascends-snoc 0 n list new.session (omega arith) (omega arith) a' in
    All-put (IsHeld (n + 1) (new ∷ s.live)) pk (list ++ new.session ∷ []) d.sessions
      (
        subst (λ k. Ascends 0 (list ++ new.session ∷ []) (k + 1)) e snoc,
        All-append (IsLive (new ∷ s.live)) list (new.session ∷ []) kept (self, tt),
      )
      (All-map (IsHeld n s.live) (IsHeld (n + 1) (new ∷ s.live)) d.sessions
        (λ x. IsHeld-cons new s x e) inv.held)

-- Dropping a goroutine hides no session of another serial.
IsLive-drop :
    (n i : ℕ) (live : List Live) (list : List Session)
    → Descends n live
    → All (λ x. x.serial ≢ i) list
    → All (IsLive live) list
    → All (IsLive (drop_live i live)) list
IsLive-drop n i live [] d ne h = tt
IsLive-drop n i live (s ∷ list) d ne h = (
  ap session_of (find-drop_live n s.serial i live d) ∙ ground (arith, nat_beq_iff s.serial i),
  IsLive-drop n i live list d ne.1 h.1,
)

-- A session of another key is not the one that leaves.
others_stay :
    (l : Live) (live : List Live) (pk : Bytes) (list : List Session)
    → find_live l.session.serial live ≡ some l
    → pk ≢ l.session.pubkey
    → All (λ x. x.pubkey ≡ pk) list
    → All (IsLive live) list
    → All (λ x. x.serial ≢ l.session.serial) list
others_stay l live pk [] f ne own h = tt
others_stay l live pk (s ∷ list) f ne own h = (
  λ e.
      let same : some l.session ≡ some s =
        sym (ap session_of f) ∙ ap (λ i. session_of (find_live i live)) (sym e) ∙ h.0 in
      let eq = some-injective l.session s same in ne (sym own.0 ∙ sym (ap (λ x. x.pubkey) eq)),
  others_stay l live pk list f ne own.1 h.1,
)

store-held :
    (P : Bytes × List Session → Type 0) (pk : Bytes) (list : List Session)
    (m : Assoc Bytes (List Session))
    → P (pk, list)
    → NodupKeys m
    → All (λ e. e.0 ≢ pk → P e) m
    → All P (store pk list m)
unfolding store
store-held P pk [] m p u h = All-del_ne P pk m u h
store-held P pk (s ∷ list) m p u h = All-put_ne P pk (s ∷ list) m p u h

pub unregister-IsHeld :
    (l : Live) (s : System)
    → find_live l.session.serial s.live ≡ some l
    → Inv s
    → All
        (IsHeld s.next_serial (drop_live l.session.serial s.live))
        (unregister l.session s.dispatcher).sessions
unfolding unregister
unregister-IsHeld l s f inv =
    let d = s.dispatcher in
    let n = s.next_serial in
    let i = l.session.serial in
    let pk = l.session.pubkey in
    let old = sessions_of d pk in
    let live' = drop_live i s.live in
    let (a, h) = sessions_of-All (IsHeld n s.live) d pk (tt, tt) inv.held in
    store-held (IsHeld n live') pk (remove l.session old) d.sessions
      (
        remove-Ascends 0 n l.session old a,
        IsLive-drop n i s.live (remove l.session old) inv.serials (remove_gone 0 n l.session old a)
            (remove-All (IsLive s.live) l.session old h),
      )
      inv.table.keys
      (All-map (λ e. IsEntry e × IsHeld n s.live e) (λ e. e.0 ≢ pk → IsHeld n live' e) d.sessions
        (λ e both ne. (
          both.1.0,
          IsLive-drop n i s.live e.1 inv.serials
              (others_stay l s.live e.0 e.1 f ne both.0.2 both.1.1) both.1.1,
        ))
        (All-and IsEntry (IsHeld n s.live) d.sessions inv.table.entries inv.held))
