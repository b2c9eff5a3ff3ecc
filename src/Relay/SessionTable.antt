-- ===== src/Relay/SessionTable.antt =====
-- The UDP relay's sessions: relay-node/relay/session.go. Times are in nanoseconds since 1970. A
-- method that reads the clock takes the readings, in the order in which it makes them. A capacity
-- below 0 acts as 0 does, and is not told apart from it.
pub mod Address
pub mod Capacity
pub mod Stale
use res.Base.{
  ℕ, suc, ◌+◌, ◌-◌, Bool, true, false, not, Option, none, some, List, [], ◌∷◌, ◌++◌, ltb, leb,
  if◌then◌else◌, Assoc, get, put, del, length, filter, map, bytes_eq, Bytes, decimal,
}

-- A `net.UDPAddr` over IPv4.
pub record UdpAddr : Type 0 where
  pub a : ℕ
  pub b : ℕ
  pub c : ℕ
  pub d : ℕ
  pub port : ℕ

-- `addr.String()`: a.b.c.d:port
unfoldable pub addr_string : UdpAddr → Bytes
addr_string x =
    decimal x.a
    ++ b'.' ∷ (decimal x.b ++ b'.' ∷ (decimal x.c ++ b'.' ∷ (decimal x.d ++ b':' ∷ decimal x.port)))

-- `srcAddr.String() + "->" + dstAddr.String()`
unfoldable pub key_of : UdpAddr → UdpAddr → Bytes
key_of src dst = addr_string src ++ b'-' ∷ b'>' ∷ addr_string dst

pub record Session : Type 0 where
  pub id : Bytes
  pub src_addr : UdpAddr
  pub dst_addr : UdpAddr
  pub created_at : ℕ
  pub last_seen : ℕ
  pub bytes_in : ℕ
  pub bytes_out : ℕ

pub record SessionTable : Type 0 where
  pub sessions : Assoc Bytes Session
  pub capacity : ℕ

unfoldable pub new_session_table : ℕ → SessionTable
new_session_table capacity = record { sessions = []; capacity = capacity }

-- The look-up that `GetOrCreate` makes first under the read lock and again under the write lock: a
-- session that is there is seen now.
unfoldable pub touch : Bytes → ℕ → SessionTable → Option (Session × SessionTable)
touch key now st = elim (get key st.sessions) [
  | none ↦ none
  | some s ↦
      let s' : Session = record s { last_seen = now } in
      some (s', record st { sessions = put key s' st.sessions })
]

-- What `GetOrCreate` does under the write lock. `check` is the reading of the second look-up.
unfoldable pub create :
    UdpAddr
    → UdpAddr
    → (check created seen : ℕ) → SessionTable
    → Option Session × Bool × SessionTable
create src dst check created seen st = elim (touch (key_of src dst) check st) [
  | some (s, st') ↦ (some s, false, st')
  | none ↦
      let s : Session = record {
        id = key_of src dst;
        src_addr = src;
        dst_addr = dst;
        created_at = created;
        last_seen = seen;
        bytes_in = 0;
        bytes_out = 0;
      } in
      if leb st.capacity (length st.sessions)
      then (none, false, st)
      else (some s, true, record st { sessions = put (key_of src dst) s st.sessions })
]

-- `GetOrCreate` where nothing runs between the two locks.
unfoldable pub get_or_create :
    UdpAddr → UdpAddr → ℕ → SessionTable → Option Session × Bool × SessionTable
get_or_create src dst now st = elim (touch (key_of src dst) now st) [
  | some (s, st') ↦ (some s, false, st')
  | none ↦ create src dst now now now st
]

-- `Remove`
unfoldable pub remove : Bytes → SessionTable → SessionTable
remove key st = record st { sessions = del key st.sessions }

-- `s.LastSeen.Before(now - timeout)`
unfoldable pub is_stale : ℕ → ℕ → Session → Bool
is_stale now timeout s = ltb (s.last_seen + timeout) now

-- The loop of `CleanStale`: the sessions that stay, and how many it removed. A deletion during the
-- iteration of a map skips no other key.
unfoldable pub clean : ℕ → ℕ → Assoc Bytes Session → Assoc Bytes Session × ℕ
clean now timeout [] = ([], 0)
clean now timeout ((k, s) ∷ m) =
    let (rest, removed) = clean now timeout m in
    if is_stale now timeout s then (rest, removed + 1) else ((k, s) ∷ rest, removed)

unfoldable pub clean_stale : ℕ → ℕ → SessionTable → SessionTable × ℕ
clean_stale now timeout st =
    let (kept, removed) = clean now timeout st.sessions in (record st { sessions = kept }, removed)

-- `Count`
unfoldable pub count : SessionTable → ℕ
count st = length st.sessions

-- `All`, in the order of the table; Go gives none.
unfoldable pub all : SessionTable → List Session
all st = map (λ e. e.1) st.sessions
