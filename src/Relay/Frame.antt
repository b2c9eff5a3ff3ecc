-- ===== src/Relay/Frame.antt =====
-- The wire format of the mesh dispatcher: relay-node/mesh/protocol.go and `readFrame` of
-- relay-node/mesh/dispatcher.go. A connection is the bytes that its peer will still send, and how
-- it ends after them.
use res.Base.{
  ℕ, ◌+◌, ◌≤◌, ◌<◌, ◌≡◌, refl, ◌||◌, [], ◌∷◌, ◌++◌, arith, ltb, leb, if◌then◌else◌, Bytes, Result,
  ok, err, ◌>>=◌, length, take, drop, be16, be_value, be_value-be16, be_value_two, All, IsByte,
  length-append, Result-cases, inl, inr, ◌∙◌, take_of_append, drop_of_append, take-append-drop,
  length-take,
}

abbrev pub frame_hello : ℕ
frame_hello = 0x01

abbrev pub frame_datagram : ℕ
frame_datagram = 0x02

abbrev pub pubkey_len : ℕ
pubkey_len = 32

abbrev pub max_frame : ℕ
max_frame = 65535

-- How a connection ends: the peer closes it, or a read fails (reset, deadline, local close).
pub data Ending : Type 0 where
  closes fails : Ending

pub record Stream : Type 0 where
  pub bytes : Bytes
  pub ending : Ending

pub data ReadError : Type 0 where
  eof unexpected_eof broken : ReadError
  out_of_range : ℕ → ReadError

-- The error of `io.ReadFull` where too few bytes come.
pub short_read : Bytes → Ending → ReadError
short_read bs fails = broken
short_read [] closes = eof
short_read (b ∷ bs) closes = unexpected_eof

-- `io.ReadFull` into a buffer of `n` bytes.
unfoldable pub read_full : ℕ → Stream → Result ReadError (Bytes × Stream)
read_full n s =
    if leb n (length s.bytes)
    then ok (take n s.bytes, record s { bytes = drop n s.bytes })
    else err (short_read s.bytes s.ending)

-- `body[0], body[1:]`; the body has at least one byte.
abbrev pub split_body : Bytes → ℕ × Bytes
split_body [] = (0, [])
split_body (t ∷ payload) = (t, payload)

-- `readFrame` after the length bytes: the range check, the body, and its first byte as the type.
unfoldable pub read_body : ℕ → Stream → Result ReadError (ℕ × Bytes × Stream)
read_body frame_len s1 =
    if ltb frame_len 1 || ltb max_frame frame_len
    then err (out_of_range frame_len)
    else do (body, s2) ← read_full frame_len s1; ok ((split_body body).0, (split_body body).1, s2)

unfoldable pub read_frame : Stream → Result ReadError (ℕ × Bytes × Stream)
unfolding read_body
read_frame s = do (len_buf, s1) ← read_full 2 s; read_body (be_value len_buf) s1

-- [2B length][1B type][payload...], as the package comment gives it.
abbrev pub frame : ℕ → Bytes → Bytes
frame t payload = be16 (1 + length payload) ++ t ∷ payload

pub read_full-append :
    (n : ℕ) (xs ys : Bytes) (e : Ending)
    → length xs ≡ n
    → read_full n (record { bytes = xs ++ ys; ending = e })
      ≡ ok (xs, record { bytes = ys; ending = e })
unfolding read_full
read_full-append n xs ys e h =
    ground (arith, length-append xs ys, take_of_append n xs ys h, drop_of_append n xs ys h)

read_full_two :
    (a b : ℕ) (ys : Bytes) (e : Ending)
    → read_full 2 (record { bytes = a ∷ b ∷ ys; ending = e })
      ≡ ok (a ∷ b ∷ [], record { bytes = ys; ending = e })
read_full_two a b ys e = read_full-append 2 (a ∷ b ∷ []) ys e refl

-- A frame that fits its length field is read back whole, and what follows it stays in the stream.
pub read_frame-frame :
    (t : ℕ) (payload rest : Bytes) (e : Ending)
    → 1 + length payload ≤ max_frame
    → read_frame (record { bytes = frame t payload ++ rest; ending = e })
      ≡ ok (t, payload, record { bytes = rest; ending = e })
unfolding read_frame
read_frame-frame t payload rest e h =
    let n : ℕ = 1 + length payload in
    let len = be_value-be16 n (omega arith) in
    rw (read_full_two, len) (ground (arith, read_full-append n (t ∷ payload) rest e (omega arith)))

pub read_full-eq-ok :
    (n : ℕ) (s : Stream) (xs : Bytes) (s' : Stream)
    → read_full n s ≡ ok (xs, s')
    → (s.bytes ≡ xs ++ s'.bytes) × (length xs ≡ n) × (s'.ending ≡ s.ending)
unfolding read_full
read_full-eq-ok n s xs s' h = ground (arith, take-append-drop n s.bytes, length-take n s.bytes)

two_of_length : (xs : Bytes) → length xs ≡ 2 → (a : ℕ) × (b : ℕ) × (xs ≡ a ∷ b ∷ [])
two_of_length (a ∷ b ∷ []) h = (a, b, refl)
two_of_length [] h = absurd (omega arith)
two_of_length (a ∷ []) h = absurd (omega arith)
two_of_length (a ∷ b ∷ c ∷ xs) h = absurd (omega arith)

body_of_length :
    (body : Bytes) (n : ℕ)
    → length body ≡ n
    → 0 < n
    → body ≡ (split_body body).0 ∷ (split_body body).1
body_of_length [] n h p = absurd (omega arith)
body_of_length (t ∷ payload) n h p = refl

-- The two length bytes of an accepted frame are the big-endian length of its body.
read_body-eq-ok :
    (a b : ℕ) (s1 s' : Stream) (t : ℕ) (payload : Bytes)
    → a < 256
    → b < 256
    → read_body (be_value (a ∷ b ∷ [])) s1 ≡ ok (t, payload, s')
    → (a ∷ b ∷ s1.bytes ≡ frame t payload ++ s'.bytes)
      × (s'.ending ≡ s1.ending)
      × (1 + length payload ≤ max_frame)
unfolding read_body
read_body-eq-ok a b s1 s' t payload ha hb h =
    elim (Result-cases (read_full (be_value (a ∷ b ∷ [])) s1)) [
      | inl ((body, s2), e) ↦
          let parts = read_full-eq-ok (be_value (a ∷ b ∷ [])) s1 body s2 e in
          ground (arith, be_value_two a b, body_of_length body (be_value (a ∷ b ∷ [])))
      | inr (x, e) ↦ absurd (ground arith)
    ]

-- What `read_frame` accepts is the frame that stood at the head of the stream, and nothing else
-- is consumed.
pub read_frame-eq-ok :
    (s s' : Stream) (t : ℕ) (payload : Bytes)
    → All IsByte s.bytes
    → read_frame s ≡ ok (t, payload, s')
    → (s.bytes ≡ frame t payload ++ s'.bytes)
      × (s'.ending ≡ s.ending)
      × (1 + length payload ≤ max_frame)
unfolding read_frame
read_frame-eq-ok s s' t payload bytes h = elim (Result-cases (read_full 2 s)) [
  | inl ((len_buf, s1), e) ↦
      let (split, two, end) = read_full-eq-ok 2 s len_buf s1 e in
      let (a, b, ab) = two_of_length len_buf two in
      let all : All IsByte (a ∷ b ∷ s1.bytes) = rw (split, ab) at bytes in
      let r = read_body-eq-ok a b s1 s' t payload all.0 all.1.0 (rw (e, ab) at h) in
      (rw (split, ab) r.0, r.1 ∙ end, r.2)
  | inr (x, e) ↦ absurd (ground arith)
]
