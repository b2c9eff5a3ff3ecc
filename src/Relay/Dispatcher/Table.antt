-- ===== src/Relay/Dispatcher/Table.antt =====
-- The session table of relay-node/mesh/dispatcher.go: what `register`, `unregister` and `forward`
-- keep of it.
use res.Base.{
  ℕ, ◌≤◌, ◌<◌, ◌≡◌, refl, Option, none, some, List, [], ◌∷◌, ◌++◌, arith, Bytes, Assoc, get,
  NodupKeys, All, length, if◌then◌else◌, ◌==◌, get-put, get-del, put-NodupKeys, del-NodupKeys,
  All-put, All-del, All-get, All-map, All-append, bytes_eq, length-append, take, drop, Bool, true,
  false,
}
use res.Relay.Dispatcher.{
  or_nil, Session, Dispatcher, max_sessions_per_pubkey, sessions_of, evict, register, remove, store,
  unregister, Writes, pick, forward, on_frame,
}

-- An entry of the table: a key with its sessions.
abbrev pub IsEntry : Bytes × List Session → Type 0
IsEntry (pk, list) =
    (0 < length list) × (length list ≤ max_sessions_per_pubkey) × All (λ s. s.pubkey ≡ pk) list

pub record IsTable (m : Assoc Bytes (List Session)) : Type 0 where
  pub keys : NodupKeys m
  pub entries : All IsEntry m

pub evict-All {κ} :
    (P : Session → Type κ) (list : List Session) (closed : List ℕ)
    → All P list
    → All P (evict list closed).0
unfolding evict
evict-All P [] closed h = tt
evict-All P (s ∷ list) closed h = ground arith

-- The eviction makes room for one more, if there was at most the maximum.
evict-room :
    (list : List Session) (closed : List ℕ)
    → length list ≤ max_sessions_per_pubkey
    → length (evict list closed).0 < max_sessions_per_pubkey
unfolding evict
evict-room [] closed h = omega arith
evict-room (s ∷ list) closed h = ground arith

abbrev IsList : Bytes → List Session → Type 0
IsList pk list = (length list ≤ max_sessions_per_pubkey) × All (λ s. s.pubkey ≡ pk) list

or_nil-All {κ} :
    (P : Bytes × List Session → Type κ) (m : Assoc Bytes (List Session)) (pk : Bytes)
    (o : Option (List Session))
    → P (pk, [])
    → All P m
    → get pk m ≡ o
    → P (pk, or_nil o)
or_nil-All P m pk none z t e = z
or_nil-All P m pk (some list) z t e = All-get P pk list m t e

-- What holds of every entry, and of an empty list, holds of the sessions of any key.
pub sessions_of-All {κ} :
    (P : Bytes × List Session → Type κ) (d : Dispatcher) (pk : Bytes)
    → P (pk, [])
    → All P d.sessions
    → P (pk, sessions_of d pk)
unfolding sessions_of
sessions_of-All P d pk z t = or_nil-All P d.sessions pk (get pk d.sessions) z t refl

sessions_of-IsList :
    (d : Dispatcher) (pk : Bytes) → IsTable d.sessions → IsList pk (sessions_of d pk)
sessions_of-IsList d pk t =
    sessions_of-All (λ e. IsList e.0 e.1) d pk (omega arith, tt)
      (All-map IsEntry (λ e. IsList e.0 e.1) d.sessions (λ e h. (h.1, h.2)) t.entries)

pub register-IsTable :
    (s : Session) (d : Dispatcher) → IsTable d.sessions → IsTable (register s d).sessions
unfolding register
register-IsTable s d t =
    let (room, own) = sessions_of-IsList d s.pubkey t in
    let list = (evict (sessions_of d s.pubkey) d.closed).0 in
    let entry : IsEntry (s.pubkey, list ++ s ∷ []) = (
      omega (arith, length-append list (s ∷ [])),
      omega (arith, length-append list (s ∷ []), evict-room (sessions_of d s.pubkey) d.closed room),
      All-append _ list (s ∷ []) (evict-All _ (sessions_of d s.pubkey) d.closed own) (refl, tt),
    ) in
    record {
      keys = put-NodupKeys s.pubkey (list ++ s ∷ []) d.sessions t.keys;
      entries = All-put IsEntry s.pubkey (list ++ s ∷ []) d.sessions entry t.entries;
    }

pub length-remove-le : (s : Session) (list : List Session) → length (remove s list) ≤ length list
unfolding remove
length-remove-le s [] = omega arith
length-remove-le s (cur ∷ list) = ground (arith, length-remove-le s list)

pub remove-All {κ} :
    (P : Session → Type κ) (s : Session) (list : List Session) → All P list → All P (remove s list)
unfolding remove
remove-All P s [] h = tt
remove-All P s (cur ∷ list) h = ground (arith, remove-All P s list h.1)

remove-IsList :
    (s : Session) (pk : Bytes) (list : List Session) → IsList pk list → IsList pk (remove s list)
remove-IsList s pk list h = (omega (arith, length-remove-le s list), remove-All _ s list h.1)

store-IsTable :
    (pk : Bytes) (list : List Session) (m : Assoc Bytes (List Session))
    → IsList pk list
    → IsTable m
    → IsTable (store pk list m)
unfolding store
store-IsTable pk [] m h t = record {
  keys = del-NodupKeys pk m t.keys;
  entries = All-del IsEntry pk m t.entries;
}
store-IsTable pk (s ∷ list) m h t = record {
  keys = put-NodupKeys pk (s ∷ list) m t.keys;
  entries = All-put IsEntry pk (s ∷ list) m (omega arith, h.0, h.1) t.entries;
}

pub unregister-IsTable :
    (s : Session) (d : Dispatcher) → IsTable d.sessions → IsTable (unregister s d).sessions
unfolding unregister
unregister-IsTable s d t =
    store-IsTable s.pubkey (remove s (sessions_of d s.pubkey)) d.sessions
      (remove-IsList s s.pubkey (sessions_of d s.pubkey) (sessions_of-IsList d s.pubkey t)) t

-- Forwarding moves the cursor and may close a connection; the table stays.
pub forward-sessions :
    (src : Session) (dst wg : Bytes) (w : Writes) (d : Dispatcher)
    → (forward src dst wg w d).0.sessions ≡ d.sessions
unfolding forward pick
forward-sessions src dst wg w d = ground arith

pub on_frame-sessions :
    (src : Session) (frame_type : ℕ) (payload : Bytes) (w : Writes) (d : Dispatcher)
    → (on_frame src frame_type payload w d).0.sessions ≡ d.sessions
unfolding on_frame
on_frame-sessions src frame_type payload w d =
    ground (arith, forward-sessions src (take 32 payload) (drop 32 payload) w d)

pub sessions_of-register :
    (s : Session) (d : Dispatcher) (pk : Bytes)
    → sessions_of (register s d) pk ≡ (
        if s.pubkey == pk
        then (evict (sessions_of d s.pubkey) d.closed).0 ++ s ∷ []
        else sessions_of d pk)
unfolding sessions_of register
sessions_of-register s d pk =
    let list = (evict (sessions_of d s.pubkey) d.closed).0 ++ s ∷ [] in
    rw (get-put pk s.pubkey list d.sessions) (or_nil_if (s.pubkey == pk) list (get pk d.sessions))
  where
    or_nil_if :
        (b : Bool) (list : List Session) (o : Option (List Session))
        → or_nil (if b then some list else o) ≡ (if b then list else or_nil o)
    or_nil_if true list o = refl
    or_nil_if false list o = refl

get-store :
    (pk k : Bytes) (list : List Session) (m : Assoc Bytes (List Session))
    → NodupKeys m
    → or_nil (get pk (store k list m)) ≡ (if k == pk then list else or_nil (get pk m))
unfolding store
get-store pk k [] m u =
    rw (get-del pk k m u)
      (elim (k == pk)
        as (λ b.
          or_nil {A = Session} (if b then none else get pk m)
          ≡ (if b then [] else or_nil (get pk m))) [ true ↦ refl | false ↦ refl ])
get-store pk k (s ∷ list) m u =
    rw (get-put pk k (s ∷ list) m)
      (elim (k == pk)
        as (λ b.
          or_nil {A = Session} (if b then some (s ∷ list) else get pk m)
          ≡ (if b then s ∷ list else or_nil (get pk m))) [ true ↦ refl | false ↦ refl ])

pub sessions_of-unregister :
    (s : Session) (d : Dispatcher) (pk : Bytes)
    → IsTable d.sessions
    → sessions_of (unregister s d) pk
      ≡ (if s.pubkey == pk then remove s (sessions_of d s.pubkey) else sessions_of d pk)
unfolding sessions_of unregister
sessions_of-unregister s d pk t =
    get-store pk s.pubkey (remove s (sessions_of d s.pubkey)) d.sessions t.keys
