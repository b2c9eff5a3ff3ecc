-- ===== src/Relay/Dispatcher/Identity.antt =====
-- Who may hold a session of a public key: `handleConn` with token enforcement.
use res.Base.{
  get, ℕ, ◌≡◌, refl, ap, ◌∙◌, ◌≢◌, inl, inr, Option, none, some, List, [], ◌∷◌, arith, Bytes, All,
  ◌==◌, ==_ne, bytes_eq, Option-cases, Bool-cases, Result-cases, ok, bytes_beq_iff,
}
use res.Crypto.{Hmac}
use res.Relay.Frame.{Stream, read_frame, frame_hello}
use res.Relay.Auth.{authenticate, Genuine, authenticate-Genuine}
use res.Relay.Dispatcher.{Session, Dispatcher, sessions_of, register, remove, unregister}
use res.Relay.Dispatcher.System.{
  Live, System, start, Event, accept, receive, handle, cancel, find_live, finish, hello, contains,
  on_accept, on_receive, on_handle, wake, step, run,
}
use res.Relay.Dispatcher.Table.{
  IsTable, sessions_of-register, sessions_of-unregister, on_frame-sessions,
}
use res.Relay.Dispatcher.Reach.{Inv}
use res.Relay.Dispatcher.Safety.{step-Inv, run-Inv}

unregister_vacant :
    (s : Session) (d : Dispatcher) (pk : Bytes)
    → IsTable d.sessions
    → sessions_of d pk ≡ []
    → sessions_of (unregister s d) pk ≡ []
unfolding remove
unregister_vacant s d pk t v = elim (Bool-cases (s.pubkey == pk)) [
  | inl same ↦
      let own = ap (sessions_of d) ((bytes_beq_iff s.pubkey pk).0 same) ∙ v in
      sessions_of-unregister s d pk t ∙ rw (same, own)
  | inr other ↦ sessions_of-unregister s d pk t ∙ rw other v
]

register_vacant :
    (s : Session) (d : Dispatcher) (pk : Bytes)
    → s.pubkey ≢ pk
    → sessions_of d pk ≡ []
    → sessions_of (register s d) pk ≡ []
register_vacant s d pk ne v = sessions_of-register s d pk ∙ rw (==_ne s.pubkey pk ne) v

module _ (h : Hmac) where
  -- The relay has a key when the connection comes.
  abbrev pub Enforced : Event → Type 0
  Enforced (accept conn st key now) = key ≢ []
  Enforced _ = Unit

  -- A connection whose first frame is a HELLO with a genuine, unexpired token of the public key.
  abbrev pub Presents : Bytes → Event → Type 0
  Presents pk (accept conn st key now) =
      (payload : Bytes) × (rest : Stream) × (read_frame st ≡ ok (frame_hello, payload, rest))
      × Genuine h key payload now pk
  Presents pk _ = ⊥

  hello-Presents :
      (conn : ℕ) (st : Stream) (key pk : Bytes) (now : ℕ) (rest : Stream)
      → key ≢ []
      → hello h st key now ≡ ok (pk, rest)
      → Presents pk (accept conn st key now)
  unfolding hello
  hello-Presents conn st key pk now rest hk e = elim (Result-cases (read_frame st)) [
    | inr (x, failed) ↦ absurd (ground arith)
    | inl ((t, payload, rest'), read) ↦ elim (Result-cases (authenticate h key payload now)) [
      | inr (x, failed) ↦ absurd (ground arith)
      | inl (pk', auth) ↦ (
        payload,
        rest',
        ground arith,
        authenticate-Genuine h key payload pk now hk (ground arith),
      )
    ]
  ]

  abbrev Vacant : Bytes → System → Type 0
  Vacant pk s = sessions_of s.dispatcher pk ≡ []

  finish-Vacant :
      (l : Live) (s : System) (pk : Bytes) → Inv s → Vacant pk s → Vacant pk (finish l s)
  unfolding finish sessions_of
  finish-Vacant l s pk inv v = unregister_vacant l.session s.dispatcher pk inv.table v

  on_accept-Vacant :
      (conn : ℕ) (st : Stream) (key : Bytes) (now : ℕ) (s : System) (pk : Bytes)
      → key ≢ []
      → ¬ Presents pk (accept conn st key now)
      → Vacant pk s
      → Vacant pk (on_accept h conn st key now s)
  unfolding on_accept sessions_of
  on_accept-Vacant conn st key now s pk hk absent v = elim (Result-cases (hello h st key now)) [
    | inr (e, refused) ↦ rw (refused, on_accept) v
    | inl ((pk', rest), accepted) ↦
        rw (accepted, on_accept)
          (register_vacant (record { serial = s.next_serial; pubkey = pk'; conn = conn })
            s.dispatcher pk
            (λ e.
              absent
                (hello-Presents conn st key pk now rest hk (accepted ∙ ap (λ k. ok (k, rest)) e)))
            v)
  ]

  on_receive-Vacant :
      (l : Live) (s : System) (pk : Bytes) → Inv s → Vacant pk s → Vacant pk (on_receive h l s)
  unfolding on_receive
  on_receive-Vacant l s pk inv v = elim (Bool-cases (contains l.session.conn s.dispatcher.closed)) [
    | inl closed ↦ rw closed (finish-Vacant l s pk inv v)
    | inr fine ↦ elim (Result-cases (read_frame l.stream)) [
      | inr (e, failed) ↦ rw (fine, failed) (finish-Vacant l s pk inv v)
      | inl ((frame_type, payload, rest), read) ↦ rw (fine, read) v
    ]
  ]

  wake-Vacant :
      (e : Event) (l : Live) (frame : Option (ℕ × Bytes)) (s : System) (pk : Bytes)
      → Inv s
      → Vacant pk s
      → Vacant pk (wake h e l frame s)
  unfolding wake on_handle sessions_of
  wake-Vacant (receive i) l none s pk inv v = on_receive-Vacant l s pk inv v
  wake-Vacant (handle i w) l (some (frame_type, payload)) s pk inv v =
      rw (on_frame-sessions l.session frame_type payload w s.dispatcher) v
  wake-Vacant (cancel i) l none s pk inv v = finish-Vacant l s pk inv v
  wake-Vacant e l frame s pk inv v = v

  dispatch-Vacant :
      (e : Event) (i : ℕ) (s : System) (pk : Bytes)
      → step h e s ≡ elim (find_live i s.live) [ none ↦ s | some l ↦ wake h e l l.pending s ]
      → Inv s
      → Vacant pk s
      → Vacant pk (step h e s)
  dispatch-Vacant e i s pk steps inv v = elim (Option-cases (find_live i s.live)) [
    | inl absent ↦ rw (steps, absent) v
    | inr (l, found) ↦ rw (steps, found) (wake-Vacant e l l.pending s pk inv v)
  ]

  step-Vacant :
      (e : Event) (s : System) (pk : Bytes)
      → Enforced e
      → ¬ Presents pk e
      → Inv s
      → Vacant pk s
      → Vacant pk (step h e s)
  unfolding step
  step-Vacant (accept conn st key now) s pk hk absent inv v =
      on_accept-Vacant conn st key now s pk hk absent v
  step-Vacant (receive i) s pk hk absent inv v = dispatch-Vacant (receive i) i s pk refl inv v
  step-Vacant (handle i w) s pk hk absent inv v = dispatch-Vacant (handle i w) i s pk refl inv v
  step-Vacant (cancel i) s pk hk absent inv v = dispatch-Vacant (cancel i) i s pk refl inv v

  run_from-Vacant :
      (es : List Event) (s : System) (pk : Bytes)
      → All Enforced es
      → All (λ e. ¬ Presents pk e) es
      → Inv s
      → Vacant pk s
      → Vacant pk (run h es s)
  unfolding run
  run_from-Vacant [] s pk hk absent inv v = v
  run_from-Vacant (e ∷ es) s pk hk absent inv v =
      run_from-Vacant es (step h e s) pk hk.1 absent.1 (step-Inv h e s inv)
        (step-Vacant e s pk hk.0 absent.0 inv v)

  -- If the relay has a key at every connection, and no connection presents a genuine, unexpired
  -- token of a public key, then no session stands under that public key, whatever else happens.
  pub no_impersonation :
      (es : List Event) (pk : Bytes)
      → All Enforced es
      → All (λ e. ¬ Presents pk e) es
      → sessions_of (run h es start).dispatcher pk ≡ []
  unfolding sessions_of run get
  no_impersonation es pk hk absent = run_from-Vacant es start pk hk absent (run-Inv h []) refl
