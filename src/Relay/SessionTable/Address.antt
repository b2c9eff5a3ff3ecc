-- ===== src/Relay/SessionTable/Address.antt =====
-- Session keys of relay-node/relay/session.go tell flows apart.
use res.Base.{
  ℕ, ◌<◌, ◌≡◌, ◌≢◌, arith, All, All-append, All-map, decimal, decimal-injective, decimal-All,
  IsDigit, cut_at,
}
use res.Relay.SessionTable.{UdpAddr, addr_string, key_of}

-- Four bytes and a 16-bit port.
abbrev pub IsAddr : UdpAddr → Type 0
IsAddr x = (x.a < 256) × (x.b < 256) × (x.c < 256) × (x.d < 256) × (x.port < 65536)

decimal-no_sep : (sep n : ℕ) → sep < 48 → All (λ b. b ≢ sep) (decimal n)
decimal-no_sep sep n h =
    All-map IsDigit (λ b. b ≢ sep) (decimal n) (λ b d. omega arith) (decimal-All n)

decimal-no_colon : (n : ℕ) → All (λ b. b ≢ b':') (decimal n)
decimal-no_colon n =
    All-map IsDigit (λ b. b ≢ b':') (decimal n) (λ b d. omega arith) (decimal-All n)

addr_string-injective :
    (x y : UdpAddr) → IsAddr x → IsAddr y → addr_string x ≡ addr_string y → x ≡ y
unfolding addr_string
addr_string-injective x y hx hy e =
    let dot = λ (n : ℕ). decimal-no_sep b'.' n (omega arith) in
    let (ea, e1) = cut_at b'.' (decimal x.a) (decimal y.a) _ _ (dot x.a) (dot y.a) e in
    let (eb, e2) = cut_at b'.' (decimal x.b) (decimal y.b) _ _ (dot x.b) (dot y.b) e1 in
    let (ec, e3) = cut_at b'.' (decimal x.c) (decimal y.c) _ _ (dot x.c) (dot y.c) e2 in
    let (ed, ep) =
      cut_at b':' (decimal x.d) (decimal y.d) _ _ (decimal-no_colon x.d) (decimal-no_colon y.d)
        e3 in
    let pa = decimal-injective x.a y.a (omega arith) (omega arith) ea in
    let pb = decimal-injective x.b y.b (omega arith) (omega arith) eb in
    let pc = decimal-injective x.c y.c (omega arith) (omega arith) ec in
    let pd = decimal-injective x.d y.d (omega arith) (omega arith) ed in
    let pp = decimal-injective x.port y.port (omega arith) (omega arith) ep in
    λ i. record { a = pa i; b = pb i; c = pc i; d = pd i; port = pp i }

addr_string-no_dash : (x : UdpAddr) → All (λ b. b ≢ b'-') (addr_string x)
unfolding addr_string
addr_string-no_dash x =
    let P = λ (b : ℕ). b ≢ b'-' in
    let d = λ (n : ℕ). decimal-no_sep b'-' n (omega arith) in
    All-append P (decimal x.a) _ (d x.a) (
      omega arith,
      All-append P (decimal x.b) _ (d x.b) (
        omega arith,
        All-append P (decimal x.c) _ (d x.c)
            (omega arith, All-append P (decimal x.d) _ (d x.d) (omega arith, d x.port)),
      ),
    )

-- Two flows have one session key only if they have the same source and the same destination.
pub key_of-injective :
    (src dst src' dst' : UdpAddr)
    → IsAddr src
    → IsAddr dst
    → IsAddr src'
    → IsAddr dst'
    → key_of src dst ≡ key_of src' dst'
    → (src ≡ src') × (dst ≡ dst')
unfolding key_of
key_of-injective src dst src' dst' hs hd hs' hd' e =
    let (es, rest) =
      cut_at b'-' (addr_string src) (addr_string src') _ _ (addr_string-no_dash src)
        (addr_string-no_dash src') e in
    (addr_string-injective src src' hs hs' es, addr_string-injective dst dst' hd hd' (ground arith))
