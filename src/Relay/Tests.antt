-- ===== src/Relay/Tests.antt =====
-- Runs of the relay on concrete input, and the theorems applied to them. The MAC stands in for
-- HMAC-SHA256: 32 zero bytes for every message.
use res.Base.{
  ℕ, zero, suc, ◌+◌, ◌≤◌, ◌<◌, ◌≡◌, ◌≢◌, ◌↔◌, refl, sym, subst, some, List, [], ◌∷◌, ◌++◌, arith,
  length, Bytes, ok, get, put, be_value, NodupKeys, bytes_eq, ==_refl,
}
use mathlib.Core.List.{Memᴰ}
use res.Crypto.{Hmac}
use res.Relay.Frame.{
  Stream, Ending, frame, frame_hello, frame_datagram, max_frame, read_frame, read_full, read_body,
  read_frame-frame, read_frame-eq-ok,
}
use res.Relay.Auth.{authenticate, verify_mesh_token, Genuine, verify_iff, is_expired}
use res.Relay.Dispatcher.{
  Dispatcher, on_frame, sessions_of, active_sessions, Session, register, evict, unregister, remove,
  store,
}
use res.Relay.Dispatcher.System.{
  Event, start, run, step, on_accept, hello, wake, find_live, on_receive, finish, drop_live,
}
use res.Relay.Dispatcher.Reach.{Inv}
use res.Relay.Dispatcher.Safety.{run-Inv, no_leak}
use res.Relay.Dispatcher.Identity.{no_impersonation}
use res.Relay.Dispatcher.Delivery.{on_frame_delivers, all_written}
use res.Relay.SessionTable.{UdpAddr, SessionTable, key_of, count, new_session_table}
use res.Relay.SessionTable.{Session as UdpSession}
use res.Relay.SessionTable.Capacity.{Op, run_bounded}
use res.Relay.SessionTable.Capacity.{run as run_table}
use res.Relay.Forwarder.{
  Forwarder, Server, handle_packet, serve, listen_and_serve, on_read, run_handler,
}
use res.Relay.Forwarder.{Event as UdpEvent}
use res.Relay.Forwarder.Packet.{handle_packet_lem, IsRelayed, packet_to, session_for}
use res.Relay.Forwarder.Keys.{sessions-IsKeyed, IsKeyed}
use res.Relay.Forwarder.Buffer.{overtaken, counted}
use res.Relay.Tcp.{tcp_to_udp-udp_to_tcp, tcp_to_udp_total, tcp_to_udp, udp_to_tcp, packets_of}

zeros : ℕ → Bytes
zeros zero = []
zeros (suc n) = 0 ∷ zeros n

abbrev toy_hmac : Hmac
toy_hmac = record {
  mac = λ key msg.
      0 ∷ 0 ∷ 0 ∷ 0 ∷ 0 ∷ 0 ∷ 0 ∷ 0 ∷ 0 ∷ 0 ∷ 0 ∷ 0 ∷ 0 ∷ 0 ∷ 0 ∷ 0 ∷ 0 ∷ 0 ∷ 0 ∷ 0 ∷ 0 ∷ 0 ∷ 0 ∷ 0
      ∷ 0 ∷ 0 ∷ 0 ∷ 0 ∷ 0 ∷ 0 ∷ 0 ∷ 0 ∷ [];
  length-mac = λ key msg. refl;
}

abbrev zero_pubkey : Bytes
zero_pubkey = toy_hmac.mac [] []

abbrev one_pubkey : Bytes
one_pubkey =
    1 ∷ 0 ∷ 0 ∷ 0 ∷ 0 ∷ 0 ∷ 0 ∷ 0 ∷ 0 ∷ 0 ∷ 0 ∷ 0 ∷ 0 ∷ 0 ∷ 0 ∷ 0 ∷ 0 ∷ 0 ∷ 0 ∷ 0 ∷ 0 ∷ 0 ∷ 0 ∷ 0
    ∷ 0 ∷ 0 ∷ 0 ∷ 0 ∷ 0 ∷ 0 ∷ 0 ∷ 0 ∷ []

abbrev expiry_900 : Bytes
expiry_900 = 0 ∷ 0 ∷ 0 ∷ 0 ∷ 0 ∷ 0 ∷ 3 ∷ 132 ∷ []

-- A HELLO of the zero public key with a token until 900.
abbrev hello_payload : Bytes
hello_payload = (zero_pubkey ++ expiry_900) ++ (toy_hmac.mac [] [] ++ [])

abbrev hello_stream : Stream
hello_stream = record { bytes = frame frame_hello hello_payload; ending = Ending.closes }

abbrev one_client : List Event
one_client = Event.accept 7 hello_stream (1 ∷ []) 800 ∷ []

abbrev come_and_go : List Event
come_and_go = Event.accept 7 hello_stream (1 ∷ []) 800 ∷ Event.receive 0 ∷ []

read_frame-frame_example :
    read_frame (record { bytes = frame 2 (5 ∷ 6 ∷ []) ++ 9 ∷ []; ending = Ending.fails })
    ≡ ok (2, 5 ∷ 6 ∷ [], record { bytes = 9 ∷ []; ending = Ending.fails })
read_frame-frame_example = read_frame-frame 2 (5 ∷ 6 ∷ []) (9 ∷ []) Ending.fails (omega arith)

abbrev short_stream : Stream
short_stream = record { bytes = 0 ∷ 2 ∷ 2 ∷ 6 ∷ 9 ∷ []; ending = Ending.closes }

short_frame :
    read_frame short_stream ≡ ok (2, 6 ∷ [], record { bytes = 9 ∷ []; ending = Ending.closes })
short_frame = read_frame-frame 2 (6 ∷ []) (9 ∷ []) Ending.closes (omega arith)

read_frame-eq-ok_example :
    (short_stream.bytes ≡ frame 2 (6 ∷ []) ++ 9 ∷ [])
    × (Ending.closes ≡ Ending.closes)
    × (1 + length {A = ℕ} (6 ∷ []) ≤ max_frame)
read_frame-eq-ok_example =
    read_frame-eq-ok short_stream (record { bytes = 9 ∷ []; ending = Ending.closes }) 2 (6 ∷ [])
      (omega arith, (omega arith, (omega arith, (omega arith, (omega arith, tt))))) short_frame

verify_iff_example :
    (verify_mesh_token toy_hmac (1 ∷ []) hello_payload 800 ≡ ok zero_pubkey)
    ↔ Genuine toy_hmac (1 ∷ []) hello_payload 800 zero_pubkey
verify_iff_example = verify_iff toy_hmac (1 ∷ []) hello_payload zero_pubkey 800

run-Inv_example : Inv (run toy_hmac one_client start)
run-Inv_example = run-Inv toy_hmac one_client

come_and_go_ends : (run toy_hmac come_and_go start).live ≡ []
unfolding run step on_accept hello read_frame read_full read_body authenticate verify_mesh_token
    register sessions_of get put evict find_live wake on_receive finish unregister remove store
    drop_live be_value is_expired
come_and_go_ends = refl

no_leak_example : active_sessions (run toy_hmac come_and_go start).dispatcher ≡ 0
no_leak_example = no_leak toy_hmac come_and_go come_and_go_ends

one_client_is_zero : sessions_of (run toy_hmac one_client start).dispatcher zero_pubkey ≢ []
unfolding run step on_accept hello read_frame read_full read_body authenticate verify_mesh_token
    register sessions_of get put evict be_value is_expired
one_client_is_zero e = cc e

-- The token of the zero key is not one of the other key.
not_one :
    (payload : Bytes) (rest : Stream)
    → read_frame hello_stream ≡ ok (frame_hello, payload, rest)
    → ¬ Genuine toy_hmac (1 ∷ []) payload 800 one_pubkey
unfolding read_frame read_full read_body verify_mesh_token be_value is_expired
not_one payload rest e g =
    let v : verify_mesh_token toy_hmac (1 ∷ []) payload 800 ≡ ok one_pubkey =
      (verify_iff toy_hmac (1 ∷ []) payload one_pubkey 800).1 g in
    let p : hello_payload ≡ payload = ground (arith, e) in
    let w : verify_mesh_token toy_hmac (1 ∷ []) hello_payload 800 ≡ ok one_pubkey =
      subst (λ q. verify_mesh_token toy_hmac (1 ∷ []) q 800 ≡ ok one_pubkey) (sym p) v in
    ground (arith, w)

no_impersonation_example : sessions_of (run toy_hmac one_client start).dispatcher one_pubkey ≡ []
no_impersonation_example =
    no_impersonation toy_hmac one_client one_pubkey ((λ e. cc e), tt)
      ((λ p. not_one p.0 p.1 p.2 p.3), tt)

abbrev zero_session : Session
zero_session = record { serial = 0; pubkey = zero_pubkey; conn = 7 }

abbrev peer_dispatcher : Dispatcher
peer_dispatcher = record {
  sessions = (one_pubkey, record { serial = 1; pubkey = one_pubkey; conn = 8 } ∷ []) ∷ [];
  rr = 0;
  closed = [];
}

peer_has_session : sessions_of peer_dispatcher one_pubkey ≢ []
unfolding sessions_of get
peer_has_session e = cc e

on_frame_delivers_example :
    (target : Session) × (bytes : Bytes) × Memᴰ target (sessions_of peer_dispatcher one_pubkey)
    × ((on_frame zero_session frame_datagram (one_pubkey ++ 4 ∷ []) all_written peer_dispatcher).1
        ≡ (target.conn, bytes) ∷ [])
    × (read_frame (record { bytes = bytes ++ 9 ∷ []; ending = Ending.closes })
        ≡ ok (
          frame_datagram,
          zero_pubkey ++ 4 ∷ [],
          record { bytes = 9 ∷ []; ending = Ending.closes },
        ))
on_frame_delivers_example =
    on_frame_delivers zero_session one_pubkey (4 ∷ []) (9 ∷ []) Ending.closes peer_dispatcher refl
      refl (λ e. cc e) (omega arith) peer_has_session

abbrev client : UdpAddr
client = record { a = 10; b = 0; c = 0; d = 1; port = 4000 }

abbrev server : UdpAddr
server = record { a = 192; b = 168; c = 1; d = 2; port = 51820 }

abbrev some_ops : List Op
some_ops = Op.created client server 5 5 5 ∷ Op.created server client 6 6 6 ∷ Op.cleaned 7 1 ∷ []

run_bounded_example :
    (count (run_table some_ops (new_session_table 1)) ≤ 1)
    × NodupKeys (run_table some_ops (new_session_table 1)).sessions
run_bounded_example = run_bounded 1 some_ops

abbrev udp_session : UdpSession
udp_session = record {
  id = key_of client server;
  src_addr = client;
  dst_addr = server;
  created_at = 5;
  last_seen = 5;
  bytes_in = 0;
  bytes_out = 9;
}

abbrev one_session : SessionTable
one_session = record { sessions = (key_of client server, udp_session) ∷ []; capacity = 1 }

one_session_found : get (key_of client server) one_session.sessions ≡ some udp_session
unfolding get
one_session_found = rw (==_refl (key_of client server)) refl

one_session_keys : NodupKeys one_session.sessions
unfolding get
one_session_keys = (refl, tt)

abbrev forwarder : Forwarder
forwarder = record { sessions = one_session; total_bytes = 0; sent = [] }

handle_packet_lem_example :
    ((dst : UdpAddr) (x : ℕ) (rest : Bytes)
      → IsRelayed
          (x ∷ rest)
          client
          dst
          (session_for client dst 8 one_session)
          forwarder
          (handle_packet (packet_to dst x rest) client 8 forwarder))
    × ((packet : Bytes) → length packet < 7 → handle_packet packet client 8 forwarder ≡ forwarder)
handle_packet_lem_example = handle_packet_lem client 8 forwarder (refl, tt)

abbrev sends : List UdpEvent
sends =
    UdpEvent.arrives (packet_to server 1 (2 ∷ [])) client
    ∷ UdpEvent.runs 0 8
    ∷ UdpEvent.ticks 9
    ∷ []

sessions-IsKeyed_example : IsKeyed (serve sends (listen_and_serve [] 3)).forwarder.sessions
sessions-IsKeyed_example = sessions-IsKeyed sends [] 3

abbrev idle : Server
idle = record { buf = []; forwarder = forwarder; tasks = [] }

overtaken_example :
    (run_handler 0 8 (
      on_read
        (packet_to client 2 [])
        server
        (on_read (packet_to server 1 []) client idle))).forwarder
    ≡ handle_packet (packet_to client 2 []) client 8 (counted 7 (counted 7 idle.forwarder))
overtaken_example =
    overtaken (packet_to server 1 []) (packet_to client 2 []) client server 8 idle (omega arith)

abbrev two_packets : List Bytes
two_packets = (1 ∷ 2 ∷ []) ∷ [] ∷ []

tcp_to_udp-udp_to_tcp_example :
    tcp_to_udp (record { bytes = udp_to_tcp two_packets; ending = Ending.closes })
    ≡ some two_packets
tcp_to_udp-udp_to_tcp_example =
    tcp_to_udp-udp_to_tcp two_packets Ending.closes (omega arith, (omega arith, tt))

tcp_to_udp_total_example :
    (packets : List Bytes) × (packets_of 9 short_stream ≡ some packets)
    × (tcp_to_udp short_stream ≡ some packets)
tcp_to_udp_total_example = tcp_to_udp_total 9 short_stream (omega arith)
