-- ===== src/Relay/Dispatcher/Delivery.antt =====
-- What a forwarded datagram looks like at the other end: `forward` of
-- relay-node/mesh/dispatcher.go.
use mathlib.Core.List.{Memᴰ}
use res.Base.{
  ℕ, zero, suc, ◌+◌, ◌≤◌, ◌%◌, ◌≡◌, ap, ◌≢◌, some, List, [], ◌∷◌, ◌++◌, arith, Bytes, length,
  get_elem?, get_elem?_of_lt, length-append, length-pos, be16, take_of_append, drop_of_append, ok,
}
use res.Relay.Frame.{Ending, read_frame, frame, frame_datagram, max_frame, read_frame-frame}
use res.Relay.Dispatcher.{
  Session, Dispatcher, sessions_of, Writes, written, header, write_datagram, next_rr, pick, forward,
  on_frame,
}

Memᴰ_of_get_elem? {ℓ} :
    {A : Type ℓ} (xs : List A) (i : ℕ) (x : A) → get_elem? xs i ≡ some x → Memᴰ x xs
Memᴰ_of_get_elem? [] i x e = absurd (ground arith)
Memᴰ_of_get_elem? (y ∷ xs) zero x e = Memᴰ.head (ground arith)
Memᴰ_of_get_elem? (y ∷ xs) (suc i) x e = Memᴰ.tail (Memᴰ_of_get_elem? xs i x e)

-- The cursor names a session of any peer that has one.
pick_total :
    (d : Dispatcher) (dst : Bytes)
    → sessions_of d dst ≢ []
    → (target : Session) × ((pick d dst).1 ≡ some target) × Memᴰ target (sessions_of d dst)
unfolding pick
pick_total d dst ne =
    let list = sessions_of d dst in
    let i : ℕ = next_rr d.rr % length list in
    let (target, e) = get_elem?_of_lt list i (omega (arith, length-pos list ne)) in
    (target, ground (arith, length-pos list ne), Memᴰ_of_get_elem? list i target e)

header-frame :
    (src_pubkey wg : Bytes)
    → length src_pubkey ≡ 32
    → header src_pubkey wg ++ wg ≡ frame frame_datagram (src_pubkey ++ wg)
unfolding header
header-frame src_pubkey wg h =
    ap (λ (n : ℕ). be16 n ++ frame_datagram ∷ (src_pubkey ++ wg))
      (omega (arith, length-append src_pubkey wg))

abbrev pub all_written : Writes
all_written = record { header = written; body = written }

-- A datagram frame for a peer that has a session, with a datagram that is not empty, goes, if both
-- writes to the peer's connection succeed, to one of the peer's sessions, as one frame whose
-- payload is the sender's public key and the datagram unchanged: that is what the peer reads back,
-- before anything that is written later. Public keys have 32 bytes; the payload was read from a
-- frame, so it fits one.
pub on_frame_delivers :
    (src : Session) (dst wg rest : Bytes) (e : Ending) (d : Dispatcher)
    → length src.pubkey ≡ 32
    → length dst ≡ 32
    → wg ≢ []
    → 1 + length (dst ++ wg) ≤ max_frame
    → sessions_of d dst ≢ []
    → (target : Session) × (bytes : Bytes) × Memᴰ target (sessions_of d dst)
      × ((on_frame src frame_datagram (dst ++ wg) all_written d).1 ≡ (target.conn, bytes) ∷ [])
      × (read_frame (record { bytes = bytes ++ rest; ending = e })
          ≡ ok (frame_datagram, src.pubkey ++ wg, record { bytes = rest; ending = e }))
unfolding on_frame forward write_datagram
on_frame_delivers src dst wg rest e d hs hd hw fits ne =
    let (target, picked, member) = pick_total d dst ne in
    let t = take_of_append 32 dst wg hd in
    let r = drop_of_append 32 dst wg hd in
    let n = length-append dst wg in
    (
      target,
      header src.pubkey wg ++ wg,
      member,
      rw (t, r) (ground (arith, picked, n, length-pos wg hw)),
      rw (header-frame src.pubkey wg hs) (
          read_frame-frame frame_datagram (src.pubkey ++ wg) rest e
            (omega (arith, length-append src.pubkey wg, n))),
    )
