-- ===== src/Relay/Forwarder/Packet.antt =====
-- `handlePacket` of relay-node/relay/forwarder.go against what the relay promises for a packet.
use res.Base.{
  ℕ, true, nat_beq, ==_refl, ◌<◌, ◌+◌, ◌%◌, ◌/◌, ◌^◌, ◌≡◌, refl, ◌∙◌, sym, inl, inr, Bool, false,
  Option, none, some, [], ◌∷◌, ◌++◌, ltb, leb, if◌then◌else◌, get, length, arith, Bytes, bytes_eq,
  get-put, be_value_two, ap, subst, ◌==◌, Option-cases, Bool-cases, All, All-get,
}
use res.Relay.SessionTable.{UdpAddr, Session, SessionTable, key_of, get_or_create, touch, create}
use res.Relay.Forwarder.{Forwarder, handle_packet, destination, count_out, relay_payload}

-- The session that a packet finds or starts, unless there is none and no room.
abbrev pub session_for : UdpAddr → UdpAddr → ℕ → SessionTable → Option Session
session_for src dst now st = elim (get (key_of src dst) st.sessions) [
  | some s ↦ some (record s { last_seen = now })
  | none ↦
      if leb st.capacity (length st.sessions)
      then none
      else some (record {
        id = key_of src dst;
        src_addr = src;
        dst_addr = dst;
        created_at = now;
        last_seen = now;
        bytes_in = 0;
        bytes_out = 0;
      })
]

-- Every session stands under its own identifier.
abbrev pub HasOwnIds : SessionTable → Type 0
HasOwnIds st = All (λ e. e.1.id ≡ e.0) st.sessions

-- What get_or_create returns, and what every key then has.
get_or_create_lem :
    (src dst : UdpAddr) (now : ℕ) (st : SessionTable) (key : Bytes)
    → ((get_or_create src dst now st).0 ≡ session_for src dst now st)
      × (get key (get_or_create src dst now st).2.sessions ≡ (elim (session_for src dst now st) [
        | none ↦ get key st.sessions
        | some s ↦ if key_of src dst == key then some s else get key st.sessions
      ]))
unfolding get_or_create touch create
get_or_create_lem src dst now st key = elim (Option-cases (get (key_of src dst) st.sessions)) [
  | inl e ↦ elim (Bool-cases (leb st.capacity (length st.sessions))) [
    | inl full ↦ rw (session_for, e, full, get_or_create, touch, create, e, full) (refl, refl)
    | inr room ↦
        rw (session_for, e, room, get_or_create, touch, create, e, room)
          (
            refl,
            get-put key (key_of src dst)
                (record {
                  id = key_of src dst;
                  src_addr = src;
                  dst_addr = dst;
                  created_at = now;
                  last_seen = now;
                  bytes_in = 0;
                  bytes_out = 0;
                })
                st.sessions,
          )
  ]
  | inr (s, e) ↦
      rw (session_for, e, get_or_create, touch)
        (refl, get-put key (key_of src dst) (record s { last_seen = now }) st.sessions)
]

session_for-id :
    (src dst : UdpAddr) (now : ℕ) (st : SessionTable) (s : Session)
    → HasOwnIds st
    → session_for src dst now st ≡ some s
    → s.id ≡ key_of src dst
session_for-id src dst now st s keyed e = elim (Option-cases (get (key_of src dst) st.sessions)) [
  | inl q ↦ ground (arith, q, e)
  | inr (t, q) ↦
      ground (arith, q, e, All-get (λ x. x.1.id ≡ x.0) (key_of src dst) t st.sessions keyed q)
]

-- At capacity nothing else changes.
get_or_create-none :
    (src dst : UdpAddr) (now : ℕ) (st : SessionTable)
    → session_for src dst now st ≡ none
    → (get_or_create src dst now st).2 ≡ st
unfolding get_or_create touch create
get_or_create-none src dst now st e = elim (Option-cases (get (key_of src dst) st.sessions)) [
  | inl q ↦ elim (Bool-cases (leb st.capacity (length st.sessions))) [
    | inl full ↦ rw (q, get_or_create, touch, create, q, full) refl
    | inr room ↦ absurd (ground (arith, q, e, room))
  ]
  | inr (t, q) ↦ absurd (ground (arith, q, e))
]

-- The packet with a destination and a payload that is not empty.
abbrev pub packet_to : UdpAddr → ℕ → Bytes → Bytes
packet_to dst x rest = dst.a ∷ dst.b ∷ dst.c ∷ dst.d ∷ dst.port / 256 ∷ dst.port % 256 ∷ x ∷ rest

destination-packet_to :
    (dst : UdpAddr) (x : ℕ) (rest : Bytes) → destination (packet_to dst x rest) ≡ dst
unfolding destination
destination-packet_to dst x rest =
    ap (λ p. record dst { port = p }) (be_value_two (dst.port / 256) (dst.port % 256) ∙ omega arith)

-- What a packet does to the relay: with no session, nothing; with one, the payload goes to its
-- destination and that session, and no other entry, counts it.
pub IsRelayed : Bytes → UdpAddr → UdpAddr → Option Session → Forwarder → Forwarder → Type 0
IsRelayed payload src dst none f g = g ≡ f
IsRelayed payload src dst (some s) f g =
    (g.sent ≡ f.sent ++ (payload, dst) ∷ [])
    × ((key : Bytes)
        → get key g.sessions.sessions ≡ (
            if key_of src dst == key
            then some (record s { bytes_out = (s.bytes_out + length payload) % 2 ^ 64 })
            else get key f.sessions.sessions))

-- The session that was just found counts the payload.
count_out-get :
    (n : ℕ) (s : Session) (st : SessionTable) (key : Bytes)
    → get s.id st.sessions ≡ some s
    → get key (count_out n s st).sessions ≡ (
        if s.id == key
        then some (record s { bytes_out = (s.bytes_out + n) % 2 ^ 64 })
        else get key st.sessions)
unfolding count_out
count_out-get n s st key e =
    let same : nat_beq s.created_at s.created_at ≡ true = ground arith in
    rw (count_out, e, same)
      (get-put key s.id (record s { bytes_out = (s.bytes_out + n) % 2 ^ 64 }) st.sessions)

relay_payload-IsRelayed :
    (payload : Bytes) (src dst : UdpAddr) (o : Option Session) (is_new : Bool) (st : SessionTable)
    (f : Forwarder)
    → ((s : Session) → o ≡ some s → s.id ≡ key_of src dst)
    → (o ≡ none → st ≡ f.sessions)
    → ((key : Bytes)
        → get key st.sessions ≡ (elim o [
          | none ↦ get key f.sessions.sessions
          | some s ↦ if key_of src dst == key then some s else get key f.sessions.sessions
        ]))
    → IsRelayed payload src dst o f (relay_payload payload dst (o, is_new, st) f)
unfolding relay_payload IsRelayed
relay_payload-IsRelayed payload src dst none is_new st f hid same found =
    ap (λ t. record f { sessions = t }) (same refl)
relay_payload-IsRelayed payload src dst (some s) is_new st f hid same found =
    let own = hid s refl in
    let there : get s.id st.sessions ≡ some s =
      ground (arith, own, found s.id, ==_refl (key_of src dst)) in
    (refl, λ key. count_out-get (length payload) s st key there ∙ ground (arith, own, found key))

too_short :
    (packet : Bytes) (src : UdpAddr) (now : ℕ) (f : Forwarder)
    → length packet < 7
    → handle_packet packet src now f ≡ f
unfolding handle_packet
too_short packet src now f h =
    let short : ltb (length packet) 7 ≡ true = ground (arith, h) in rw (handle_packet, short) refl

relayed :
    (dst src : UdpAddr) (x : ℕ) (rest : Bytes) (now : ℕ) (f : Forwarder)
    → HasOwnIds f.sessions
    → IsRelayed
        (x ∷ rest)
        src
        dst
        (session_for src dst now f.sessions)
        f
        (handle_packet (packet_to dst x rest) src now f)
unfolding handle_packet
relayed dst src x rest now f keyed =
    let long : ltb (length (packet_to dst x rest)) 7 ≡ false = ground arith in
    rw (destination-packet_to dst x rest, long)
      (subst
        (λ o. IsRelayed (x ∷ rest) src dst (session_for src dst now f.sessions) f (
          relay_payload (x ∷ rest) dst
            (o, (get_or_create src dst now f.sessions).1, (get_or_create src dst now f.sessions).2)
            f))
        (sym (get_or_create_lem src dst now f.sessions []).0)
        (relay_payload-IsRelayed (x ∷ rest) src dst (session_for src dst now f.sessions)
          (get_or_create src dst now f.sessions).1 (get_or_create src dst now f.sessions).2 f
          (λ s e. session_for-id src dst now f.sessions s keyed e)
          (λ e. get_or_create-none src dst now f.sessions e)
          (λ key. (get_or_create_lem src dst now f.sessions key).1)))

-- A packet of at least 7 bytes that has a session, or room for one, is sent on without its header of
-- 6 bytes to the address that the header names, and the session, and no other entry, then counts the
-- bytes modulo 2 ^ 64; with neither it leaves the relay as it was, and so does a packet of at most 6
-- bytes. The table's sessions stand under their identifiers, and nothing runs between the steps.
pub handle_packet_lem :
    (src : UdpAddr) (now : ℕ) (f : Forwarder)
    → HasOwnIds f.sessions
    → ((dst : UdpAddr) (x : ℕ) (rest : Bytes)
        → IsRelayed
            (x ∷ rest)
            src
            dst
            (session_for src dst now f.sessions)
            f
            (handle_packet (packet_to dst x rest) src now f))
      × ((packet : Bytes) → length packet < 7 → handle_packet packet src now f ≡ f)
handle_packet_lem src now f keyed =
    (λ dst x rest. relayed dst src x rest now f keyed, λ packet h. too_short packet src now f h)
