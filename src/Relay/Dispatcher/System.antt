-- ===== src/Relay/Dispatcher/System.antt =====
-- `handleConn` of relay-node/mesh/dispatcher.go, one goroutine for a connection, interleaved with
-- the others: a step is what a goroutine does between two points where another may run. `forward`
-- is one step: what runs between its choice of a target and its writes can only make these fail, and
-- the environment chooses their results anyway.
use res.Base.{
  ℕ, ◌+◌, Bool, false, Option, none, some, List, [], ◌∷◌, ◌++◌, nat_beq, not, if◌then◌else◌, Bytes,
  Result, ok, err, ◌||◌,
}
use res.Crypto.{Hmac}
use res.Relay.Frame.{Stream, ReadError, read_frame, frame_hello}
use res.Relay.Auth.{AuthError, authenticate}
use res.Relay.Dispatcher.{Session, Dispatcher, register, unregister, Writes, Log, on_frame}

pub data HelloError : Type 0 where
  hello_read_failed : ReadError → HelloError
  first_frame_not_hello : ℕ → HelloError
  hello_rejected : AuthError → HelloError

-- A goroutine in the loop of `handleConn`: its session, what its connection still carries, and the
-- frame that it has read and not handled yet.
pub record Live : Type 0 where
  pub session : Session
  pub stream : Stream
  pub pending : Option (ℕ × Bytes)

pub record System : Type 0 where
  pub dispatcher : Dispatcher
  pub live : List Live
  pub next_serial : ℕ
  pub log : Log

abbrev pub start : System
start = record {
  dispatcher = record { sessions = []; rr = 0; closed = [] };
  live = [];
  next_serial = 0;
  log = [];
}

-- `accept`: a connection was accepted and its goroutine ran up to the loop, at a time and with the
-- key that `keyProvider` returned. `receive`: a goroutine reads its next frame. `handle`: it handles
-- the frame that it read. `cancel`: it finds the context cancelled.
pub data Event : Type 0 where
  accept : (conn : ℕ) → Stream → (key : Bytes) → (now : ℕ) → Event
  receive : (serial : ℕ) → Event
  handle : (serial : ℕ) → Writes → Event
  cancel : (serial : ℕ) → Event

abbrev pub contains : ℕ → List ℕ → Bool
contains n [] = false
contains n (m ∷ ms) = nat_beq n m || contains n ms

unfoldable pub find_live : ℕ → List Live → Option Live
find_live i [] = none
find_live i (l ∷ ls) = if nat_beq l.session.serial i then some l else find_live i ls

-- The goroutine of a serial with another stream and another pending frame.
unfoldable pub set_live : ℕ → Stream → Option (ℕ × Bytes) → List Live → List Live
set_live i st frame [] = []
set_live i st frame (l ∷ ls) =
    if nat_beq l.session.serial i
    then record l { stream = st; pending = frame } ∷ ls
    else l ∷ set_live i st frame ls

unfoldable pub drop_live : ℕ → List Live → List Live
drop_live i [] = []
drop_live i (l ∷ ls) = if nat_beq l.session.serial i then ls else l ∷ drop_live i ls

-- The deferred calls: `unregister(sess)`, then `conn.Close()`.
unfoldable pub finish : Live → System → System
finish l s =
    let d = unregister l.session s.dispatcher in
    record s {
      dispatcher = record d { closed = l.session.conn ∷ d.closed };
      live = drop_live l.session.serial s.live;
    }

module _ (h : Hmac) where
  -- `handleConn` up to `register`.
  unfoldable pub hello : Stream → Bytes → ℕ → Result HelloError (Bytes × Stream)
  hello st key now = elim (read_frame st) [
    | err e ↦ err (hello_read_failed e)
    | ok (frame_type, payload, rest) ↦
        if not (nat_beq frame_type frame_hello)
        then err (first_frame_not_hello frame_type)
        else elim (authenticate h key payload now) [
          | err e ↦ err (hello_rejected e)
          | ok pk ↦ ok (pk, rest)
        ]
  ]

  -- A refused connection is closed; an accepted one has a session of its own in the table.
  unfoldable pub on_accept : ℕ → Stream → Bytes → ℕ → System → System
  on_accept conn st key now s = elim (hello st key now) [
    | err e ↦ record s {
      dispatcher = record (s.dispatcher) { closed = conn ∷ s.dispatcher.closed };
    }
    | ok (pk, rest) ↦
        let sess : Session = record { serial = s.next_serial; pubkey = pk; conn = conn } in
        record s {
          dispatcher = register sess s.dispatcher;
          live = record { session = sess; stream = rest; pending = none } ∷ s.live;
          next_serial = s.next_serial + 1;
        }
  ]

  -- A read on a closed connection fails, and so does one that finds no whole frame.
  unfoldable pub on_receive : Live → System → System
  on_receive l s =
      if contains l.session.conn s.dispatcher.closed
      then finish l s
      else elim (read_frame l.stream) [
        | err e ↦ finish l s
        | ok (frame_type, payload, rest) ↦ record s {
          live = set_live l.session.serial rest (some (frame_type, payload)) s.live;
        }
      ]

  unfoldable pub on_handle : Live → ℕ → Bytes → Writes → System → System
  on_handle l frame_type payload w s =
      let (d, log) = on_frame l.session frame_type payload w s.dispatcher in
      record s {
        dispatcher = d;
        live = set_live l.session.serial l.stream none s.live;
        log = s.log ++ log;
      }

  -- A goroutine reads only when it has handled the frame before.
  unfoldable pub wake : Event → Live → Option (ℕ × Bytes) → System → System
  wake (receive i) l none s = on_receive l s
  wake (handle i w) l (some (frame_type, payload)) s = on_handle l frame_type payload w s
  wake (cancel i) l none s = finish l s
  wake e l frame s = s

  unfoldable pub step : Event → System → System
  step (accept conn st key now) s = on_accept conn st key now s
  step (receive i) s = elim (find_live i s.live) [
    | none ↦ s
    | some l ↦ wake (receive i) l l.pending s
  ]
  step (handle i w) s = elim (find_live i s.live) [
    | none ↦ s
    | some l ↦ wake (handle i w) l l.pending s
  ]
  step (cancel i) s = elim (find_live i s.live) [
    | none ↦ s
    | some l ↦ wake (cancel i) l l.pending s
  ]

  unfoldable pub run : List Event → System → System
  run [] s = s
  run (e ∷ es) s = run es (step e s)
