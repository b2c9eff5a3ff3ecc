-- ===== src/Relay/Tcp.antt =====
-- The TCP fallback: relay-node/transport/tcp.go. The two directions of a connection do not share
-- state; deadlines and the context end a direction as a failed read does.
use res.Base.{
  ℕ, zero, suc, ◌+◌, ◌≤◌, ◌<◌, ◌≡◌, refl, ap, Option, none, some, List, [], ◌∷◌, ◌++◌, arith, ltb,
  if◌then◌else◌, Bytes, Result, ok, err, ◌>>=◌, length, be16, be_value, be_value-be16, All,
  length-append, length-drop, Result-cases, Bool-cases, inl, inr,
}
use res.Relay.Frame.{Stream, Ending, ReadError, read_full, read_full-append}
use res.Relay.Forwarder.{destination}
use res.Relay.SessionTable.{UdpAddr}

-- `make([]byte, 65535)`
abbrev pub buf_len : ℕ
buf_len = 65535

-- The body of a packet whose length is read; one longer than the buffer ends the direction.
unfoldable pub read_sized : ℕ → Stream → Result ReadError (Bytes × Stream)
read_sized pkt_len s1 =
    if ltb buf_len pkt_len then err (ReadError.out_of_range pkt_len) else read_full pkt_len s1

-- One turn of the loop TCP -> UDP: the packet that is written, and what the connection still holds.
unfoldable pub read_packet : Stream → Result ReadError (Bytes × Stream)
read_packet s = do (len_buf, s1) ← read_full 2 s; read_sized (be_value len_buf) s1

unfoldable pub and_packet : Bytes → Option (List Bytes) → Option (List Bytes)
and_packet packet none = none
and_packet packet (some packets) = some (packet ∷ packets)

-- The loop TCP -> UDP: the packets that it writes until it returns; `none` where it has not returned
-- when the fuel runs out. A turn that goes on takes at least the two bytes of the length, so one
-- turn more than there are bytes is enough.
unfoldable pub packets_of : ℕ → Stream → Option (List Bytes)
packets_of zero s = none
packets_of (suc fuel) s = elim (read_packet s) [
  | err e ↦ some []
  | ok (packet, rest) ↦ and_packet packet (packets_of fuel rest)
]

unfoldable pub tcp_to_udp : Stream → Option (List Bytes)
tcp_to_udp s = packets_of (suc (length s.bytes)) s

-- The frame of the loop UDP -> TCP for a packet that `udpConn.Read` returned.
abbrev pub frame_packet : Bytes → Bytes
frame_packet packet = be16 (length packet) ++ packet

-- The loop UDP -> TCP: what it writes to the connection for the packets that it reads.
unfoldable pub udp_to_tcp : List Bytes → Bytes
udp_to_tcp [] = []
udp_to_tcp (packet ∷ packets) = frame_packet packet ++ udp_to_tcp packets

-- `handleConnection`: the header that names the destination, then the loop TCP -> UDP.
unfoldable pub handle_connection : Stream → Result ReadError (UdpAddr × Option (List Bytes))
handle_connection s = do (header, s1) ← read_full 6 s; ok (destination header, tcp_to_udp s1)

-- A read takes its bytes off the connection.
length-read_full :
    (n : ℕ) (s : Stream) (bs : Bytes) (rest : Stream)
    → read_full n s ≡ ok (bs, rest)
    → length rest.bytes + n ≡ length s.bytes
unfolding read_full
length-read_full n s bs rest e = ground (arith, length-drop n s.bytes, e)

length-read_packet :
    (s : Stream) (packet : Bytes) (rest : Stream)
    → read_packet s ≡ ok (packet, rest)
    → length rest.bytes + 2 ≤ length s.bytes
unfolding read_packet read_sized
length-read_packet s packet rest e = elim (Result-cases (read_full 2 s)) [
  | inl ((len_buf, s1), q) ↦ elim (Bool-cases (ltb buf_len (be_value len_buf))) [
    | inl long ↦ absurd (ground (arith, q, long, e))
    | inr short ↦
        let r : read_full (be_value len_buf) s1 ≡ ok (packet, rest) = ground (arith, q, short, e) in
        omega (
          arith,
          length-read_full 2 s len_buf s1 q,
          length-read_full (be_value len_buf) s1 packet rest r,
        )
  ]
  | inr (x, q) ↦ absurd (ground (arith, q, e))
]

-- With more fuel than bytes the loop returns, having written what it writes with any other such fuel.
packets_of-returns :
    (m n : ℕ) (s : Stream)
    → length s.bytes < m
    → length s.bytes < n
    → (packets : List Bytes) × (packets_of m s ≡ some packets) × (packets_of n s ≡ some packets)
unfolding packets_of and_packet
packets_of-returns zero n s hm hn = absurd (omega (arith, hm))
packets_of-returns (suc m) zero s hm hn = absurd (omega (arith, hn))
packets_of-returns (suc m) (suc n) s hm hn = elim (Result-cases (read_packet s)) [
  | inl ((packet, rest), q) ↦
      let h = length-read_packet s packet rest q in
      let (packets, e, e') =
        packets_of-returns m n rest (omega (arith, h, hm)) (omega (arith, h, hn)) in
      (
        packet ∷ packets,
        rw (packets_of, q) (ap (and_packet packet) e),
        rw (packets_of, q) (ap (and_packet packet) e'),
      )
  | inr (x, q) ↦ ([], rw (packets_of, q) refl, rw (packets_of, q) refl)
]

-- The loop TCP -> UDP returns on every connection whose bytes come to an end: it never takes more
-- turns than there are bytes and one, and whatever the bound on its turns, if it is above the number
-- of bytes, it returns and has written the same packets.
pub tcp_to_udp_total :
    (fuel : ℕ) (s : Stream)
    → length s.bytes < fuel
    → (packets : List Bytes) × (packets_of fuel s ≡ some packets) × (tcp_to_udp s ≡ some packets)
unfolding tcp_to_udp
tcp_to_udp_total fuel s h = packets_of-returns fuel (suc (length s.bytes)) s h (omega arith)

read_packet-frame_packet :
    (packet rest : Bytes) (e : Ending)
    → length packet ≤ buf_len
    → read_packet (record { bytes = frame_packet packet ++ rest; ending = e })
      ≡ ok (packet, record { bytes = rest; ending = e })
unfolding read_packet read_sized
read_packet-frame_packet packet rest e h =
    rw (read_full-append 2 (be16 (length packet)) (packet ++ rest) e refl) (
      rw
        (
          be_value-be16 (length packet) (omega (arith, h)),
          read_full-append (length packet) packet rest e refl,
        )
        (ground (arith, h)))

packets_of-frames :
    (fuel : ℕ) (packets : List Bytes) (e : Ending)
    → All (λ p. length p ≤ buf_len) packets
    → length (udp_to_tcp packets) < fuel
    → packets_of fuel (record { bytes = udp_to_tcp packets; ending = e }) ≡ some packets
unfolding packets_of udp_to_tcp read_packet read_full and_packet
packets_of-frames zero packets e h q = absurd (omega (arith, q))
packets_of-frames (suc fuel) [] e h q = refl
packets_of-frames (suc fuel) (p ∷ ps) e h q =
    rw (packets_of, read_packet-frame_packet p (udp_to_tcp ps) e h.0)
      (ap (and_packet p) (
        packets_of-frames fuel ps e h.1
          (omega (arith, q, length-append (frame_packet p) (udp_to_tcp ps)))))

-- What one end frames from UDP, the loop of the other end hands to UDP before it returns: the same
-- packets, in order and with their boundaries, if each fits its length field.
pub tcp_to_udp-udp_to_tcp :
    (packets : List Bytes) (e : Ending)
    → All (λ p. length p ≤ buf_len) packets
    → tcp_to_udp (record { bytes = udp_to_tcp packets; ending = e }) ≡ some packets
unfolding tcp_to_udp
tcp_to_udp-udp_to_tcp packets e h =
    packets_of-frames (suc (length (udp_to_tcp packets))) packets e h (omega arith)
