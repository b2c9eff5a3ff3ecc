-- ===== src/Relay/Forwarder.antt =====
-- The UDP relay itself: relay-node/relay/forwarder.go. The goroutines of `handlePacket` take their
-- steps in any order; `handle_packet` is one of them that nothing interrupts. A packet that is sent
-- is recorded with its destination, whether or not the network takes it, since the code only logs a
-- failed write.
pub mod Packet
pub mod Buffer
pub mod Keys
use res.Base.{
  ℕ, zero, suc, nat_beq, get_elem?, set_at, ◌+◌, ◌%◌, ◌^◌, ◌*◌, Bool, Option, none, some, List, [],
  ◌∷◌, ◌++◌, ltb, if◌then◌else◌, get, put, length, take, drop, Bytes, bytes_eq, be_value,
}
use res.Relay.SessionTable.{
  UdpAddr, Session, SessionTable, new_session_table, key_of, get_or_create, touch, create,
  clean_stale, count,
}

pub record Forwarder : Type 0 where
  pub sessions : SessionTable
  pub total_bytes : ℕ
  pub sent : List (Bytes × UdpAddr)

unfoldable pub new_forwarder : SessionTable → Forwarder
new_forwarder st = record { sessions = st; total_bytes = 0; sent = [] }

-- `data[:6]` as the destination; too short data never gets here.
unfoldable pub destination : Bytes → UdpAddr
destination (a ∷ b ∷ c ∷ d ∷ hi ∷ lo ∷ rest) = record {
  a = a;
  b = b;
  c = c;
  d = d;
  port = be_value (hi ∷ lo ∷ []);
}
destination rest = record { a = 0; b = 0; c = 0; d = 0; port = 0 }

-- `session.BytesOut += uint64(len(payload))` through a pointer: the table counts it where it still
-- holds that session. A session that took the place of one that was cleaned away is younger.
unfoldable pub count_out : ℕ → Session → SessionTable → SessionTable
count_out n s st = elim (get s.id st.sessions) [
  | none ↦ st
  | some t ↦
      if nat_beq t.created_at s.created_at
      then record st {
        sessions = put s.id (record t { bytes_out = (t.bytes_out + n) % 2 ^ 64 }) st.sessions;
      }
      else st
]

-- `handlePacket` once it has what `GetOrCreate` returned.
unfoldable pub relay_payload :
    Bytes → UdpAddr → Option Session × Bool × SessionTable → Forwarder → Forwarder
relay_payload payload dst (none, is_new, st) f = record f { sessions = st }
relay_payload payload dst (some s, is_new, st) f = record f {
  sessions = count_out (length payload) s st;
  sent = f.sent ++ (payload, dst) ∷ [];
}

-- `handlePacket`, where nothing else runs between its steps.
unfoldable pub handle_packet : Bytes → UdpAddr → ℕ → Forwarder → Forwarder
handle_packet packet src now f =
    if ltb (length packet) 7
    then f
    else let dst = destination packet in
      relay_payload (drop 6 packet) dst (get_or_create src dst now f.sessions) f

-- Where a goroutine of `handlePacket` stands, on the first `n` bytes of the buffer: before it looks
-- at them; with the destination, before either look-up of its session; with the session; and with
-- the payload sent, before it is counted.
pub data Task : Type 0 where
  started : (n : ℕ) → (src : UdpAddr) → Task
  parsed missed : (n : ℕ) → (src dst : UdpAddr) → Task
  found : (n : ℕ) → (dst : UdpAddr) → Session → Task
  forwarded : (len : ℕ) → Session → Task
  done : Task

-- After the look-up under the read lock.
unfoldable pub after_touch :
    ℕ → (src dst : UdpAddr) → Option (Session × SessionTable) → Forwarder → Task × Forwarder
after_touch n src dst none f = (missed n src dst, f)
after_touch n src dst (some (s, st)) f = (found n dst s, record f { sessions = st })

-- After the write lock.
unfoldable pub after_create :
    ℕ → UdpAddr → Option Session × Bool × SessionTable → Forwarder → Task × Forwarder
after_create n dst (none, is_new, st) f = (done, record f { sessions = st })
after_create n dst (some s, is_new, st) f = (found n dst s, record f { sessions = st })

-- One step of a goroutine, on the buffer as it is by then.
unfoldable pub step_task : (now : ℕ) → (buf : Bytes) → Task → Forwarder → Task × Forwarder
step_task now buf (started n src) f =
    if ltb (length (take n buf)) 7 then (done, f) else (parsed n src (destination (take n buf)), f)
step_task now buf (parsed n src dst) f =
    after_touch n src dst (touch (key_of src dst) now f.sessions) f
step_task now buf (missed n src dst) f =
    after_create n dst (create src dst now now now f.sessions) f
step_task now buf (found n dst s) f = (
  forwarded (length (drop 6 (take n buf))) s,
  record f { sent = f.sent ++ (drop 6 (take n buf), dst) ∷ [] },
)
step_task now buf (forwarded len s) f = (done, record f { sessions = count_out len s f.sessions })
step_task now buf done f = (done, f)

-- The receive loop of `ListenAndServe`: what it reads goes to the front of its one buffer, it is
-- counted, and a goroutine is started on that part of the buffer.
pub record Server : Type 0 where
  pub buf : Bytes
  pub forwarder : Forwarder
  pub tasks : List Task

unfoldable pub read_into : Bytes → Bytes → Bytes
read_into packet buf = packet ++ drop (length packet) buf

unfoldable pub on_read : Bytes → UdpAddr → Server → Server
on_read packet src sv = record {
  buf = read_into packet sv.buf;
  forwarder = record sv.forwarder {
    total_bytes = (sv.forwarder.total_bytes + length packet) % 2 ^ 64;
  };
  tasks = sv.tasks ++ started (length packet) src ∷ [];
}

-- A goroutine takes a step.
unfoldable pub stepped : (i now : ℕ) → Option Task → Server → Server
stepped i now none sv = sv
stepped i now (some t) sv =
    let r = step_task now sv.buf t sv.forwarder in
    record sv { forwarder = r.1; tasks = set_at i r.0 sv.tasks }

unfoldable pub advance : (i now : ℕ) → Server → Server
advance i now sv = stepped i now (get_elem? sv.tasks i) sv

-- Several steps of one goroutine, with nothing else between them.
unfoldable pub advances : ℕ → (i now : ℕ) → Server → Server
advances zero i now sv = sv
advances (suc k) i now sv = advances k i now (advance i now sv)

-- A goroutine that runs through: it has five steps at most.
unfoldable pub run_handler : (i now : ℕ) → Server → Server
run_handler i now sv = advances 5 i now sv

-- The ticker's goroutine, with the timeout of two minutes.
unfoldable pub on_tick : ℕ → Server → Server
on_tick now sv = record sv {
  forwarder = record sv.forwarder {
    sessions = (clean_stale now (120 * 1000000000) sv.forwarder.sessions).0;
  };
}

-- What happens to the relay: a packet comes, any of the goroutines takes a step, the ticker fires.
pub data Event : Type 0 where
  arrives : Bytes → UdpAddr → Event
  runs : (i now : ℕ) → Event
  ticks : ℕ → Event

unfoldable pub serve_event : Event → Server → Server
serve_event (arrives packet src) sv = on_read packet src sv
serve_event (runs i now) sv = advance i now sv
serve_event (ticks now) sv = on_tick now sv

unfoldable pub serve : List Event → Server → Server
serve [] sv = sv
serve (e ∷ es) sv = serve es (serve_event e sv)

unfoldable pub listen_and_serve : Bytes → ℕ → Server
listen_and_serve buf capacity = record {
  buf = buf;
  forwarder = new_forwarder (new_session_table capacity);
  tasks = [];
}

-- `Stats`
unfoldable pub stats : Forwarder → ℕ × ℕ
stats f = (count f.sessions, f.total_bytes)
