-- ===== src/Relay/Dispatcher/Safety.antt =====
-- Every step of the dispatcher's goroutines keeps its invariant, and what follows for all runs.
use mathlib.Core.Path.{subst}
use res.Base.{
  ℕ, ◌≡◌, refl, ap, ◌∙◌, inl, inr, Option, none, some, List, [], ◌∷◌, arith, Bytes, Assoc, All,
  All-map, bytes_eq, Option-cases, Bool-cases, Result-cases,
}
use res.Crypto.{Hmac}
use res.Relay.Frame.{Stream, read_frame}
use res.Relay.Dispatcher.{Session, active_sessions, count_sessions}
use res.Relay.Dispatcher.System.{
  Live, System, start, contains, Event, accept, receive, handle, cancel, find_live, set_live,
  finish, hello, on_accept, on_receive, on_handle, wake, step, run,
}
use res.Relay.Dispatcher.Table.{IsEntry, register-IsTable, unregister-IsTable, on_frame-sessions}
use res.Relay.Dispatcher.Order.{
  set_live-Descends, drop_live-Descends, find-set_live, find_live-serial,
}
use res.Relay.Dispatcher.Reach.{IsLive, IsHeld, Inv, register-IsHeld, unregister-IsHeld}

finish-Inv :
    (l : Live) (s : System) → find_live l.session.serial s.live ≡ some l → Inv s → Inv (finish l s)
unfolding finish
finish-Inv l s f inv = record {
  table = unregister-IsTable l.session s.dispatcher inv.table;
  held = unregister-IsHeld l s f inv;
  serials = drop_live-Descends s.next_serial l.session.serial s.live inv.serials;
}

-- A change of streams and pending frames, with the table as it was.
IsLive-set :
    (i : ℕ) (st : Stream) (f : Option (ℕ × Bytes)) (live : List Live) (list : List Session)
    → All (IsLive live) list
    → All (IsLive (set_live i st f live)) list
IsLive-set i st f live list =
    All-map (IsLive live) (IsLive (set_live i st f live)) list
      (λ s h. find-set_live s.serial i st f live ∙ h)

set_live-Inv :
    (s t : System) (i : ℕ) (st : Stream) (f : Option (ℕ × Bytes))
    → t.dispatcher.sessions ≡ s.dispatcher.sessions
    → t.live ≡ set_live i st f s.live
    → t.next_serial ≡ s.next_serial
    → Inv s
    → Inv t
set_live-Inv s t i st f same live next inv = record {
  table = rw same inv.table;
  held =
      rw (same, live, next)
        (All-map (IsHeld s.next_serial s.live) (IsHeld s.next_serial (set_live i st f s.live))
          s.dispatcher.sessions (λ e h. (h.0, IsLive-set i st f s.live e.1 h.1)) inv.held);
  serials = rw (live, next) (set_live-Descends s.next_serial i st f s.live inv.serials);
}

module _ (h : Hmac) where
  on_accept-Inv :
      (conn : ℕ) (st : Stream) (key : Bytes) (now : ℕ) (s : System)
      → Inv s
      → Inv (on_accept h conn st key now s)
  unfolding on_accept
  on_accept-Inv conn st key now s inv = elim (Result-cases (hello h st key now)) [
    | inr (e, refused) ↦
        rw (refused, on_accept)
          (record { table = inv.table; held = inv.held; serials = inv.serials })
    | inl ((pk, rest), accepted) ↦
        let sess : Session = record { serial = s.next_serial; pubkey = pk; conn = conn } in
        rw (accepted, on_accept)
          (record {
            table = register-IsTable sess s.dispatcher inv.table;
            held =
                register-IsHeld (record { session = sess; stream = rest; pending = none }) s refl
                  inv;
            serials = (omega arith, inv.serials);
          })
  ]

  on_receive-Inv :
      (l : Live) (s : System)
      → find_live l.session.serial s.live ≡ some l
      → Inv s
      → Inv (on_receive h l s)
  unfolding on_receive
  on_receive-Inv l s f inv = elim (Bool-cases (contains l.session.conn s.dispatcher.closed)) [
    | inl closed ↦ rw closed (finish-Inv l s f inv)
    | inr fine ↦ elim (Result-cases (read_frame l.stream)) [
      | inr (e, failed) ↦ rw (fine, failed) (finish-Inv l s f inv)
      | inl ((frame_type, payload, rest), read) ↦
          rw (fine, read)
            (set_live-Inv s _ l.session.serial rest (some (frame_type, payload)) refl refl refl inv)
    ]
  ]

  wake-Inv :
      (e : Event) (l : Live) (frame : Option (ℕ × Bytes)) (s : System)
      → find_live l.session.serial s.live ≡ some l
      → Inv s
      → Inv (wake h e l frame s)
  unfolding wake on_handle
  wake-Inv (receive i) l none s f inv = on_receive-Inv l s f inv
  wake-Inv (handle i w) l (some (frame_type, payload)) s f inv =
      set_live-Inv s _ l.session.serial l.stream none
        (on_frame-sessions l.session frame_type payload w s.dispatcher) refl refl inv
  wake-Inv (cancel i) l none s f inv = finish-Inv l s f inv
  wake-Inv e l frame s f inv = inv

  -- The goroutine that a serial names, if there is one, takes the step.
  dispatch-Inv :
      (e : Event) (i : ℕ) (s : System)
      → step h e s ≡ elim (find_live i s.live) [ none ↦ s | some l ↦ wake h e l l.pending s ]
      → Inv s
      → Inv (step h e s)
  dispatch-Inv e i s steps inv = elim (Option-cases (find_live i s.live)) [
    | inl absent ↦ rw (steps, absent) inv
    | inr (l, found) ↦
        let own = ap (λ j. find_live j s.live) (find_live-serial i s.live l found) ∙ found in
        rw (steps, found) (wake-Inv e l l.pending s own inv)
  ]

  pub step-Inv : (e : Event) (s : System) → Inv s → Inv (step h e s)
  unfolding step
  step-Inv (accept conn st key now) s inv = on_accept-Inv conn st key now s inv
  step-Inv (receive i) s inv = dispatch-Inv (receive i) i s refl inv
  step-Inv (handle i w) s inv = dispatch-Inv (handle i w) i s refl inv
  step-Inv (cancel i) s inv = dispatch-Inv (cancel i) i s refl inv

  run_from-Inv : (es : List Event) (s : System) → Inv s → Inv (run h es s)
  unfolding run
  run_from-Inv [] s inv = inv
  run_from-Inv (e ∷ es) s inv = run_from-Inv es (step h e s) (step-Inv e s inv)

  -- After any interleaving from the empty dispatcher: the table has one entry for a public key,
  -- with 1 to 16 sessions of that key, oldest first; each is the session of a goroutine that is
  -- still in its loop; and goroutines have different serials.
  pub run-Inv : (es : List Event) → Inv (run h es start)
  run-Inv es =
      run_from-Inv es start
        (record { table = record { keys = tt; entries = tt }; held = tt; serials = tt })

  no_entries :
      (n : ℕ) (m : Assoc Bytes (List Session))
      → All IsEntry m
      → All (IsHeld n []) m
      → count_sessions m ≡ 0
  unfolding find_live count_sessions
  no_entries n [] t held = refl
  no_entries n ((pk, []) ∷ m) t held = absurd (omega arith)
  no_entries n ((pk, s ∷ list) ∷ m) t held = absurd (ground arith)

  -- When the last goroutine has ended, no session is left in the table.
  pub no_leak :
      (es : List Event)
      → (run h es start).live ≡ []
      → active_sessions (run h es start).dispatcher ≡ 0
  unfolding active_sessions
  no_leak es ended =
      let inv = run-Inv es in
      no_entries (run h es start).next_serial (run h es start).dispatcher.sessions inv.table.entries
        (subst
          (λ ls. All (IsHeld (run h es start).next_serial ls) (run h es start).dispatcher.sessions)
          ended inv.held)
