-- ===== src/Control/Stun.antt =====
-- The embedded STUN server: control-plane/stun/stun.go. A request comes with the address that it
-- came from, `none` where it is not an IPv4 address; what is sent is recorded with the address that
-- it goes to. The goroutines share the one buffer of the loop and take their steps in any order.
pub mod Answer
use Prim.Native.Nat.{bit_xor}
use res.Base.{
  ℕ, get_elem?, set_at, ◌+◌, ◌/◌, ◌%◌, ◌^◌, Bool, true, false, Option, none, some, List, [], ◌∷◌,
  ◌++◌, ltb, nat_beq, if◌then◌else◌, length, take, drop, Bytes, be16, be32, be_value,
}
use res.Relay.SessionTable.{UdpAddr}

abbrev pub binding_request : ℕ
binding_request = 0x0001

abbrev pub binding_response : ℕ
binding_response = 0x0101

abbrev pub attr_mapped_address : ℕ
attr_mapped_address = 0x0001

abbrev pub attr_xor_mapped_address : ℕ
attr_xor_mapped_address = 0x0020

abbrev pub magic_cookie : ℕ
magic_cookie = 0x2112A442

-- `ip[i] ^ mcBytes[i]`, byte by byte.
unfoldable pub xor_bytes : Bytes → Bytes → Bytes
xor_bytes (x ∷ xs) (y ∷ ys) = bit_xor x y ∷ xor_bytes xs ys
xor_bytes xs ys = []

abbrev pub ip_bytes : UdpAddr → Bytes
ip_bytes addr = addr.a ∷ addr.b ∷ addr.c ∷ addr.d ∷ []

-- An attribute: type, length of the value, reserved byte, family, port, address.
abbrev pub attribute : ℕ → ℕ → Bytes → Bytes
attribute type port ip = be16 type ++ (be16 8 ++ 0 ∷ 1 ∷ (be16 port ++ ip))

-- `buildXORMappedAddress`
unfoldable pub build_xor_mapped_address : UdpAddr → Bytes
build_xor_mapped_address addr =
    attribute attr_xor_mapped_address (bit_xor (addr.port % 2 ^ 16) (magic_cookie / 2 ^ 16))
      (xor_bytes (ip_bytes addr) (be32 magic_cookie))

-- `buildMappedAddress`
unfoldable pub build_mapped_address : UdpAddr → Bytes
build_mapped_address addr = attribute attr_mapped_address (addr.port % 2 ^ 16) (ip_bytes addr)

-- The answer that `handle` builds from the data that it was given.
unfoldable pub answer_to : UdpAddr → Bytes → Bytes
answer_to addr msg =
    let attrs = build_xor_mapped_address addr ++ build_mapped_address addr in
    be16 binding_response
    ++ (be16 (length attrs) ++ (be32 magic_cookie ++ (take 12 (drop 8 msg) ++ attrs)))

-- Where a goroutine of `handle` stands, on the first `n` bytes of the buffer: before it reads the
-- type of the message, and before it copies the transaction.
pub data Task : Type 0 where
  started checked : (n : ℕ) → (from : Option UdpAddr) → Task
  done : Task

-- One step of a goroutine, on the buffer as it is by then, with what it sends.
unfoldable pub step_task : (buf : Bytes) → Task → Task × List (Bytes × UdpAddr)
step_task buf (started n from) =
    if nat_beq (be_value (take 2 (take n buf))) binding_request
    then (checked n from, [])
    else (done, [])
step_task buf (checked n none) = (done, [])
step_task buf (checked n (some addr)) = (done, (answer_to addr (take n buf), addr) ∷ [])
step_task buf done = (done, [])

pub record Server : Type 0 where
  pub buf : Bytes
  pub tasks : List Task
  pub sent : List (Bytes × UdpAddr)

-- A turn of the loop of `ListenAndServe`: the packet is read into the buffer, and a goroutine is
-- started for it unless it is too short.
unfoldable pub on_packet : Option UdpAddr → Bytes → Server → Server
on_packet from packet sv = record sv {
  buf = packet ++ drop (length packet) sv.buf;
  tasks =
      if ltb (length packet) 20 then sv.tasks else sv.tasks ++ started (length packet) from ∷ [];
}

unfoldable pub stepped : (i : ℕ) → Option Task → Server → Server
stepped i none sv = sv
stepped i (some t) sv =
    let r = step_task sv.buf t in record sv { tasks = set_at i r.0 sv.tasks; sent = sv.sent ++ r.1 }

-- A goroutine takes a step.
unfoldable pub advance : (i : ℕ) → Server → Server
advance i sv = stepped i (get_elem? sv.tasks i) sv

-- What happens to the server: a packet comes, any of the goroutines takes a step.
pub data Event : Type 0 where
  arrives : (from : Option UdpAddr) → (packet : Bytes) → Event
  runs : (i : ℕ) → Event

unfoldable pub serve : List Event → Server → Server
serve [] sv = sv
serve (arrives from packet ∷ es) sv = serve es (on_packet from packet sv)
serve (runs i ∷ es) sv = serve es (advance i sv)
