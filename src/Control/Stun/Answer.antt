-- ===== src/Control/Stun/Answer.antt =====
-- What a client reads in the answer of control-plane/stun/stun.go.
use Prim.Native.Nat.{bit_xor}
use res.Base.{
  zero, suc, ◌+◌, ◌≢◌, ap, sym, subst, ◌∙◌, inl, inr, false, none, Option, List, [], ◌∷◌,
  Bool-cases, if◌then◌else◌, get_elem?, get_elem?-set_at, get_elem?-set_at_other, get_elem?-append,
  ℕ, ◌/◌, ◌%◌, ◌^◌, ◌≤◌, ◌<◌, ◌≡◌, refl, true, false, some, ◌++◌, ltb, nat_beq, length, take, drop,
  Bytes, be16, be32, be_value, be_value-be16, arith, IsByte, length-take, length-drop,
  take_of_append, drop_of_append, length-append, xor_twice, xor_lt,
}
use res.Relay.SessionTable.{UdpAddr}
use res.Control.Graph.Links.{IsIn, IsIn-append_left, IsIn-append_last}
use res.Control.Stun.{
  binding_request, binding_response, magic_cookie, xor_bytes, ip_bytes, build_xor_mapped_address,
  build_mapped_address, answer_to, Task, Server, Event, step_task, stepped, advance, serve,
  on_packet,
}

-- A client's reading of an answer: the transaction, and the address of XOR-MAPPED-ADDRESS, which is
-- the first attribute, and that of MAPPED-ADDRESS after it.
abbrev pub transaction : Bytes → Bytes
transaction msg = take 12 (drop 8 msg)

abbrev pub xor_address : Bytes → ℕ × Bytes
xor_address msg = (
  bit_xor (be_value (take 2 (drop 6 (drop 20 msg)))) (magic_cookie / 2 ^ 16),
  xor_bytes (take 4 (drop 8 (drop 20 msg))) (be32 magic_cookie),
)

abbrev pub mapped_address : Bytes → ℕ × Bytes
mapped_address msg = (be_value (take 2 (drop 18 (drop 20 msg))), take 4 (drop 20 (drop 20 msg)))

pub record IsAddr (addr : UdpAddr) : Type 0 where
  pub a : IsByte addr.a
  pub b : IsByte addr.b
  pub c : IsByte addr.c
  pub d : IsByte addr.d
  pub port : addr.port < 65536

-- The answer to a packet.
abbrev answer : UdpAddr → Bytes → Bytes
answer addr packet =
    be16 binding_response
    ++ (be16 24
        ++ (be32 magic_cookie
            ++ (transaction packet
                ++ (build_xor_mapped_address addr ++ build_mapped_address addr))))

answer_to-eq : (addr : UdpAddr) (packet : Bytes) → answer_to addr packet ≡ answer addr packet
unfolding answer_to build_xor_mapped_address build_mapped_address xor_bytes
answer_to-eq addr packet = refl

length-transaction : (packet : Bytes) → 20 ≤ length packet → length (transaction packet) ≡ 12
length-transaction packet h = omega (arith, length-take 12 (drop 8 packet), length-drop 8 packet, h)

drop-answer :
    (addr : UdpAddr) (packet : Bytes)
    → 20 ≤ length packet
    → drop 20 (answer addr packet) ≡ build_xor_mapped_address addr ++ build_mapped_address addr
drop-answer addr packet h =
    drop_of_append 12 (transaction packet)
      (build_xor_mapped_address addr ++ build_mapped_address addr) (length-transaction packet h)

port_fits : (addr : UdpAddr) → IsAddr addr → addr.port % 65536 ≡ addr.port
port_fits addr v = omega (arith, v.port)

xor_address_lem :
    (addr : UdpAddr)
    → IsAddr addr
    → ◌≡◌ {A = ℕ × Bytes}
        (
          bit_xor (be_value (be16 (bit_xor (addr.port % 65536) 8466))) 8466,
          xor_bytes (xor_bytes (ip_bytes addr) (be32 magic_cookie)) (be32 magic_cookie),
        )
        (addr.port, ip_bytes addr)
unfolding xor_bytes
xor_address_lem addr v =
    rw
      (
        port_fits addr v,
        be_value-be16 (bit_xor addr.port 8466)
            (xor_lt 16 addr.port 8466 (omega (arith, v.port)) (omega arith)),
        xor_twice 16 addr.port 8466 (omega (arith, v.port)) (omega arith),
        xor_twice 8 addr.a 33 (omega (arith, v.a)) (omega arith),
        xor_twice 8 addr.b 18 (omega (arith, v.b)) (omega arith),
        xor_twice 8 addr.c 164 (omega (arith, v.c)) (omega arith),
        xor_twice 8 addr.d 66 (omega (arith, v.d)) (omega arith),
      )
      refl

mapped_address_lem :
    (addr : UdpAddr)
    → IsAddr addr
    → ◌≡◌ {A = ℕ × Bytes}
        (be_value (be16 (addr.port % 65536)), ip_bytes addr)
        (addr.port, ip_bytes addr)
mapped_address_lem addr v = rw (port_fits addr v, be_value-be16 addr.port v.port) refl

new_task :
    (addr : UdpAddr) (packet : Bytes) (sv : Server)
    → 20 ≤ length packet
    → get_elem? (on_packet (some addr) packet sv).tasks (length sv.tasks)
      ≡ some (Task.started (length packet) (some addr))
unfolding on_packet
new_task addr packet sv h =
    let long : ltb (length packet) 20 ≡ false = ground (arith, h) in
    rw long (get_elem?-append sv.tasks [] (Task.started (length packet) (some addr)))

-- Steps of goroutines, with no packet among them.
abbrev pub runs_of : List ℕ → List Event
runs_of [] = []
runs_of (j ∷ js) = Event.runs j ∷ runs_of js

abbrev pub times : ℕ → List ℕ → ℕ
times i [] = 0
times i (j ∷ js) = (if nat_beq j i then 1 else 0) + times i js

module _ (addr : UdpAddr) (packet : Bytes) (request : be_value (take 2 packet) ≡ binding_request)
    (i : ℕ) where
  -- How far the goroutine has come: at its request's type, at its transaction, past its answer.
  abbrev HasCome : ℕ → Server → Type 0
  HasCome zero sv = get_elem? sv.tasks i ≡ some (Task.started (length packet) (some addr))
  HasCome (suc zero) sv = get_elem? sv.tasks i ≡ some (Task.checked (length packet) (some addr))
  HasCome (suc (suc k)) sv = IsIn (answer_to addr packet, addr) sv.sent

  abbrev Holds : Server → Type 0
  Holds sv = take (length packet) sv.buf ≡ packet

  stepped-buf : (j : ℕ) (o : Option Task) (sv : Server) → (stepped j o sv).buf ≡ sv.buf
  unfolding stepped
  stepped-buf j none sv = refl
  stepped-buf j (some t) sv = refl

  stepped-sent :
      (j : ℕ) (o : Option Task) (sv : Server) (x : Bytes × UdpAddr)
      → IsIn x sv.sent
      → IsIn x (stepped j o sv).sent
  unfolding stepped
  stepped-sent j none sv x h = h
  stepped-sent j (some t) sv x h = IsIn-append_left x sv.sent (step_task sv.buf t).1 h

  stepped-other :
      (j : ℕ) (o : Option Task) (sv : Server)
      → j ≢ i
      → get_elem? (stepped j o sv).tasks i ≡ get_elem? sv.tasks i
  unfolding stepped
  stepped-other j none sv h = refl
  stepped-other j (some t) sv h = get_elem?-set_at_other i j (step_task sv.buf t).0 sv.tasks h

  advance-other : (j k : ℕ) (sv : Server) → j ≢ i → HasCome k sv → HasCome k (advance j sv)
  unfolding advance
  advance-other j zero sv h c = stepped-other j (get_elem? sv.tasks j) sv h ∙ c
  advance-other j (suc zero) sv h c = stepped-other j (get_elem? sv.tasks j) sv h ∙ c
  advance-other j (suc (suc k)) sv h c =
      stepped-sent j (get_elem? sv.tasks j) sv (answer_to addr packet, addr) c

  first_step :
      (sv : Server)
      → Holds sv
      → step_task sv.buf (Task.started (length packet) (some addr))
        ≡ (Task.checked (length packet) (some addr), [])
  unfolding step_task
  first_step sv q =
      let is_request : nat_beq (be_value (take 2 packet)) binding_request ≡ true =
        ground (arith, request) in
      rw (q, is_request) refl

  second_step :
      (sv : Server)
      → Holds sv
      → step_task sv.buf (Task.checked (length packet) (some addr))
        ≡ (Task.done, (answer_to addr packet, addr) ∷ [])
  unfolding step_task
  second_step sv q = ap (λ p. (Task.done, (answer_to addr p, addr) ∷ [])) q

  advance-own : (k : ℕ) (sv : Server) → Holds sv → HasCome k sv → HasCome (suc k) (advance i sv)
  unfolding advance stepped
  advance-own zero sv q c =
      ap (λ o. get_elem? (stepped i o sv).tasks i) c
      ∙ get_elem?-set_at i (Task.started (length packet) (some addr))
          (step_task sv.buf (Task.started (length packet) (some addr))).0 sv.tasks c
      ∙ ap (λ r. some r.0) (first_step sv q)
  advance-own (suc zero) sv q c =
      subst (λ o. IsIn (answer_to addr packet, addr) (stepped i o sv).sent) (sym c)
        (subst (λ r. IsIn (answer_to addr packet, addr) (sv.sent ++ r))
          (sym (ap (λ r. r.1) (second_step sv q)))
          (IsIn-append_last (answer_to addr packet, addr) sv.sent))
  advance-own (suc (suc k)) sv q c =
      stepped-sent i (get_elem? sv.tasks i) sv (answer_to addr packet, addr) c

  advance-Holds : (j : ℕ) (sv : Server) → Holds sv → Holds (advance j sv)
  unfolding advance
  advance-Holds j sv q = ap (take (length packet)) (stepped-buf j (get_elem? sv.tasks j) sv) ∙ q

  answered :
      (js : List ℕ) (k : ℕ) (sv : Server)
      → Holds sv
      → HasCome k sv
      → 2 ≤ k + times i js
      → IsIn (answer_to addr packet, addr) (serve (runs_of js) sv).sent
  unfolding serve
  answered [] zero sv q c h = absurd (omega (arith, h))
  answered [] (suc zero) sv q c h = absurd (omega (arith, h))
  answered [] (suc (suc k)) sv q c h = c
  answered (j ∷ js) k sv q c h = elim (Bool-cases (nat_beq j i)) [
    | inl own ↦
        let e : j ≡ i = ground (arith, own) in
        answered js (suc k) (advance j sv) (advance-Holds j sv q)
          (subst (λ x. HasCome (suc k) (advance x sv)) (sym e) (advance-own k sv q c))
          (ground (arith, own, h))
    | inr other ↦
        let ne : j ≢ i = λ e. ground (arith, other, e) in
        answered js k (advance j sv) (advance-Holds j sv q) (advance-other j k sv ne c)
          (ground (arith, other, h))
  ]

-- A binding request of at least 20 bytes from an IPv4 address, whose goroutine takes its two steps
-- before the buffer is read into again, whatever other goroutines do meanwhile, is answered to that
-- address with 44 bytes that carry the request's transaction and, both plainly and under the magic
-- cookie, the address and the port that it came from.
pub binding_lem :
    (addr : UdpAddr) (packet : Bytes) (sv : Server) (js : List ℕ)
    → IsAddr addr
    → 20 ≤ length packet
    → be_value (take 2 packet) ≡ binding_request
    → 2 ≤ times (length sv.tasks) js
    → (resp : Bytes) × IsIn
        (resp, addr)
        (serve (Event.arrives (some addr) packet ∷ runs_of js) sv).sent
      × (length resp ≡ 44)
      × (transaction resp ≡ transaction packet)
      × (xor_address resp ≡ (addr.port, ip_bytes addr))
      × (mapped_address resp ≡ (addr.port, ip_bytes addr))
unfolding serve on_packet build_xor_mapped_address build_mapped_address xor_bytes
binding_lem addr packet sv js v h t two = (
  answer_to addr packet,
  answered addr packet t (length sv.tasks) js 0 (on_packet (some addr) packet sv)
      (take_of_append (length packet) packet (drop (length packet) sv.buf) refl)
      (new_task addr packet sv h) (omega (arith, two)),
  ap length (answer_to-eq addr packet)
      ∙ omega (
        arith,
        length-append (transaction packet)
            (build_xor_mapped_address addr ++ build_mapped_address addr),
        length-transaction packet h,
      ),
  ap transaction (answer_to-eq addr packet)
      ∙ take_of_append 12 (transaction packet)
          (build_xor_mapped_address addr ++ build_mapped_address addr)
          (length-transaction packet h),
  ap xor_address (answer_to-eq addr packet)
      ∙ rw (drop-answer addr packet h) (xor_address_lem addr v),
  ap mapped_address (answer_to-eq addr packet)
      ∙ rw (drop-answer addr packet h) (mapped_address_lem addr v),
)
