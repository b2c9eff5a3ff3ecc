-- ===== src/Relay/Dispatcher.antt =====
-- The mesh dispatcher's table and handlers: relay-node/mesh/dispatcher.go. A method takes the
-- dispatcher and returns it anew; the log holds what it wrote to its connections, oldest first.
-- A lock is held for the whole of a method here, as in the source.
pub mod System
pub mod Table
pub mod Order
pub mod Reach
pub mod Safety
pub mod Identity
pub mod Delivery
use res.Base.{
  ℕ, suc, ◌+◌, ◌%◌, ◌^◌, Bool, true, false, Option, none, some, List, [], ◌∷◌, ◌++◌, ltb, leb,
  nat_beq, not, if◌then◌else◌, Bytes, Assoc, get, put, del, length, get_elem?, take, drop, be16,
  Result, ok, err, bytes_eq,
}
use res.Relay.Frame.{pubkey_len, frame_datagram}

abbrev pub max_sessions_per_pubkey : ℕ
max_sessions_per_pubkey = 16

-- A `*session`: `serial` is its address, so two of the same serial are one.
pub record Session : Type 0 where
  pub serial : ℕ
  pub pubkey : Bytes
  pub conn : ℕ

-- `closed` are the connections on which `Close` was called.
pub record Dispatcher : Type 0 where
  pub sessions : Assoc Bytes (List Session)
  pub rr : ℕ
  pub closed : List ℕ

pub init : Dispatcher
init = record { sessions = []; rr = 0; closed = [] }

-- A nil slice stands for a missing key.
abbrev pub or_nil {ℓ} : {A : Type ℓ} → Option (List A) → List A
or_nil none = []
or_nil (some list) = list

-- `d.sessions[pk]`
unfoldable pub sessions_of : Dispatcher → Bytes → List Session
sessions_of d pk = or_nil (get pk d.sessions)

-- The eviction of `register`: `list[0].conn.Close()`, `list = list[1:]`.
unfoldable pub evict : List Session → List ℕ → List Session × List ℕ
evict [] closed = ([], closed)
evict (oldest ∷ list) closed =
    if leb max_sessions_per_pubkey (length (oldest ∷ list))
    then (list, oldest.conn ∷ closed)
    else (oldest ∷ list, closed)

unfoldable pub register : Session → Dispatcher → Dispatcher
register s d =
    let (list, closed) = evict (sessions_of d s.pubkey) d.closed in
    record d { sessions = put s.pubkey (list ++ s ∷ []) d.sessions; closed = closed }

-- `append(list[:i], list[i+1:]...)` at the first `i` where `list[i] == s`.
unfoldable pub remove : Session → List Session → List Session
remove s [] = []
remove s (cur ∷ list) = if nat_beq cur.serial s.serial then list else cur ∷ remove s list

-- `if len(list) == 0 { delete(…) } else { d.sessions[s.pubkey] = list }`
unfoldable pub store :
    Bytes → List Session → Assoc Bytes (List Session) → Assoc Bytes (List Session)
store pk [] m = del pk m
store pk (s ∷ list) m = put pk (s ∷ list) m

unfoldable pub unregister : Session → Dispatcher → Dispatcher
unregister s d = record d {
  sessions = store s.pubkey (remove s (sessions_of d s.pubkey)) d.sessions;
}

-- `ActiveSessions`
unfoldable pub count_sessions : Assoc Bytes (List Session) → ℕ
count_sessions [] = 0
count_sessions ((_, list) ∷ m) = length list + count_sessions m

unfoldable pub active_sessions : Dispatcher → ℕ
active_sessions d = count_sessions d.sessions

-- What `conn.Write` does: all bytes are taken, or it fails after some.
pub data Write : Type 0 where
  written : Write
  failed : ℕ → Write

pub record Writes : Type 0 where
  pub header : Write
  pub body : Write

abbrev pub Log : Type 0
Log = List (ℕ × Bytes)

-- `hdr` of `forward`
unfoldable pub header : Bytes → Bytes → Bytes
header src_pubkey wg = be16 (1 + pubkey_len + length wg) ++ frame_datagram ∷ src_pubkey

-- The two writes to the target, each of which closes the target's connection when it fails.
unfoldable pub write_datagram : Writes → Session → Bytes → Bytes → List ℕ → List ℕ × Log
write_datagram w target hdr wg closed = elim w.header [
  | failed n ↦ (target.conn ∷ closed, (target.conn, take n hdr) ∷ [])
  | written ↦ elim w.body [
    | failed n ↦ (target.conn ∷ closed, (target.conn, hdr ++ take n wg) ∷ [])
    | written ↦ (closed, (target.conn, hdr ++ wg) ∷ [])
  ]
]

-- `d.rr.Add(1)`, a uint64
abbrev pub next_rr : ℕ → ℕ
next_rr rr = (rr + 1) % 2 ^ 64

-- The choice of `target` in `forward`: the cursor moves only if the peer has a session.
unfoldable pub pick : Dispatcher → Bytes → Dispatcher × Option Session
pick d dst =
    let list = sessions_of d dst in
    if ltb 0 (length list)
    then (record d { rr = next_rr d.rr }, get_elem? list (next_rr d.rr % length list))
    else (d, none)

unfoldable pub forward : Session → Bytes → Bytes → Writes → Dispatcher → Dispatcher × Log
forward src dst wg w d = elim (pick d dst).1 [
  | none ↦ ((pick d dst).0, [])
  | some target ↦
      let d' = (pick d dst).0 in
      let (closed, log) = write_datagram w target (header src.pubkey wg) wg d'.closed in
      (record d' { closed = closed }, log)
]

-- One round of the loop of `handleConn`, after a frame was read.
unfoldable pub on_frame : Session → ℕ → Bytes → Writes → Dispatcher → Dispatcher × Log
on_frame sess frame_type payload w d =
    if not (nat_beq frame_type frame_datagram)
    then (d, [])
    else if ltb (length payload) (pubkey_len + 1)
    then (d, [])
    else forward sess (take pubkey_len payload) (drop pubkey_len payload) w d
