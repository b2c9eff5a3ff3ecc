-- ===== src/Relay/Auth.antt =====
-- `authenticate` and `verifyMeshToken` of relay-node/mesh/dispatcher.go. Times are Unix seconds,
-- not before 1970.
use res.Crypto.{Hmac}
use res.Base.{
  ℕ, ◌+◌, ◌^◌, ◌≤◌, ◌≡◌, ◌↔◌, Bool, true, false, not, [], ◌++◌, arith, ltb, ltb→le, not-eq-false,
  guards-eq-ok, if◌then◌else◌, Bytes, bytes_beq, bytes_beq_iff, Result, ok, err, length,
  length-append, ap, sym, ◌∙◌, length-take, length-pos, ◌≢◌, length-drop, take-add,
  take-append-drop, take_of_append, drop_of_append, take, drop, be_value,
}
use mathlib.Core.List.{append_assoc}
use mathlib.Core.Path.{ap₂}
use res.Relay.Frame.{pubkey_len}

pub data AuthError : Type 0 where
  hello_too_short missing_token expired mismatch : AuthError

-- expiry || hmac
abbrev pub token_len : ℕ
token_len = 8 + 32

-- `now.Unix() > expiry`, where `expiry` is the `int64` with the bits of `raw`: negative from 2^63.
unfoldable pub is_expired : ℕ → ℕ → Bool
is_expired now raw = if ltb raw (2 ^ 63) then ltb raw now else true

module _ (h : Hmac) where
  unfoldable pub verify_mesh_token : Bytes → Bytes → ℕ → Result AuthError Bytes
  verify_mesh_token auth_key payload now =
      let pk = take pubkey_len payload in
      let signed = take (pubkey_len + 8) payload in
      let expiry = be_value (take 8 (drop pubkey_len payload)) in
      let mac = take 32 (drop (pubkey_len + 8) payload) in
      if ltb (length payload) (pubkey_len + token_len)
      then err missing_token
      else if is_expired now expiry
      then err expired
      else if not (bytes_beq mac (h.mac auth_key signed))
      then err mismatch
      else ok pk

  -- `key` is what `keyProvider` returns: empty for nil, and for a nil provider.
  unfoldable pub authenticate : Bytes → Bytes → ℕ → Result AuthError Bytes
  authenticate key payload now =
      if ltb (length payload) pubkey_len
      then err hello_too_short
      else if ltb 0 (length key)
      then verify_mesh_token key payload now
      else ok (take pubkey_len payload)

  -- A HELLO payload that presents the MAC `m` for a public key and an expiry.
  pub verify_presented :
      (key pk expiry m rest : Bytes) (now : ℕ)
      → length pk ≡ 32
      → length expiry ≡ 8
      → length m ≡ 32
      → verify_mesh_token key ((pk ++ expiry) ++ (m ++ rest)) now ≡ (
          if is_expired now (be_value expiry)
          then err expired
          else if bytes_beq m (h.mac key (pk ++ expiry))
          then ok pk
          else err mismatch)
  unfolding verify_mesh_token
  verify_presented key pk expiry m rest now hp he hm =
      let p = (pk ++ expiry) ++ (m ++ rest) in
      let assoc : p ≡ pk ++ (expiry ++ (m ++ rest)) = append_assoc pk expiry (m ++ rest) in
      let n40 : length (pk ++ expiry) ≡ 40 = omega (arith, length-append pk expiry) in
      let t32 : take 32 p ≡ pk = rw assoc (take_of_append 32 pk _ hp) in
      let d32 : drop 32 p ≡ expiry ++ (m ++ rest) = rw assoc (drop_of_append 32 pk _ hp) in
      let t40 : take 40 p ≡ pk ++ expiry = take_of_append 40 (pk ++ expiry) _ n40 in
      let d40 : drop 40 p ≡ m ++ rest = drop_of_append 40 (pk ++ expiry) _ n40 in
      let len : 72 ≤ length p =
        omega (arith, n40, length-append (pk ++ expiry) (m ++ rest), length-append m rest, hm) in
      rw (t32, d32, t40, d40, take_of_append 8 expiry (m ++ rest) he, take_of_append 32 m rest hm)
        (ground arith)

  -- The token of a public key: the bytes that follow the key in a HELLO payload.
  abbrev pub signed_hello : Bytes → Bytes → Bytes → Bytes → Bytes
  signed_hello key pk expiry rest = (pk ++ expiry) ++ (h.mac key (pk ++ expiry) ++ rest)

  pub verify-signed_hello :
      (key pk expiry rest : Bytes) (now : ℕ)
      → length pk ≡ 32
      → length expiry ≡ 8
      → verify_mesh_token key (signed_hello key pk expiry rest) now
        ≡ (if is_expired now (be_value expiry) then err expired else ok pk)
  verify-signed_hello key pk expiry rest now hp he =
      let m = h.mac key (pk ++ expiry) in
      verify_presented key pk expiry m rest now hp he (h.length-mac key (pk ++ expiry))
      ∙ ground (arith, bytes_beq_iff m m)

  -- A HELLO is accepted exactly if it is the public key, an expiry that has not passed, the MAC of
  -- the two under the shared key, and whatever follows.
  abbrev pub Genuine : Bytes → Bytes → ℕ → Bytes → Type 0
  Genuine key payload now pk =
      (expiry rest : Bytes) × (length pk ≡ 32)
      × (length expiry ≡ 8)
      × (is_expired now (be_value expiry) ≡ false)
      × (payload ≡ signed_hello key pk expiry rest)

  verify-eq-ok :
      (key payload pk : Bytes) (now : ℕ)
      → verify_mesh_token key payload now ≡ ok pk
      → (72 ≤ length payload)
        × (pk ≡ take 32 payload)
        × (is_expired now (be_value (take 8 (drop 32 payload))) ≡ false)
        × (take 32 (drop 40 payload) ≡ h.mac key (take 40 payload))
  unfolding verify_mesh_token
  verify-eq-ok key payload pk now e =
      let mac = take 32 (drop 40 payload) in
      let good = h.mac key (take 40 payload) in
      let (long, fresh, same, pk_eq) =
        guards-eq-ok (ltb (length payload) (pubkey_len + token_len))
          (is_expired now (be_value (take 8 (drop 32 payload)))) (not (bytes_beq mac good))
          missing_token expired mismatch (take 32 payload) pk e in
      (
        ltb→le (length payload) 72 long,
        sym pk_eq,
        fresh,
        (bytes_beq_iff mac good).0 (not-eq-false (bytes_beq mac good) same),
      )

  verify-Genuine :
      (key payload pk : Bytes) (now : ℕ)
      → verify_mesh_token key payload now ≡ ok pk
      → Genuine key payload now pk
  verify-Genuine key payload pk now e =
      let (long, pk_eq, fresh, mac_eq) = verify-eq-ok key payload pk now e in
      let head : take 40 payload ≡ pk ++ take 8 (drop 32 payload) =
        rw pk_eq (take-add 32 8 payload) in
      (
        take 8 (drop 32 payload),
        drop 32 (drop 40 payload),
        omega (arith, ap length pk_eq, length-take 32 payload),
        omega (arith, length-take 8 (drop 32 payload), length-drop 32 payload),
        fresh,
        sym (take-append-drop 40 payload)
            ∙ ap₂ ◌++◌ head (
                sym (take-append-drop 32 (drop 40 payload))
                ∙ ap (λ m. m ++ drop 32 (drop 40 payload)) (mac_eq ∙ ap (h.mac key) head)),
      )

  -- With a key configured, the payload is judged by its token alone.
  pub authenticate_enforced :
      (key payload : Bytes) (now : ℕ)
      → key ≢ []
      → 32 ≤ length payload
      → authenticate key payload now ≡ verify_mesh_token key payload now
  unfolding authenticate
  authenticate_enforced key payload now hk long = ground (arith, length-pos key hk)

  -- A HELLO payload passes `verifyMeshToken` with a public key exactly if it is that key, of 32
  -- bytes, an expiry of 8 bytes that has not passed, the MAC of the two under the shared key, and
  -- whatever follows.
  pub verify_iff :
      (key payload pk : Bytes) (now : ℕ)
      → (verify_mesh_token key payload now ≡ ok pk) ↔ Genuine key payload now pk
  verify_iff key payload pk now = (
    verify-Genuine key payload pk now,
    λ (expiry, rest, hp, he, fresh, split).
        rw split (rw (verify-signed_hello key pk expiry rest now hp he, fresh)),
  )

  -- With a key configured, only a genuine token is accepted.
  pub authenticate-Genuine :
      (key payload pk : Bytes) (now : ℕ)
      → key ≢ []
      → authenticate key payload now ≡ ok pk
      → Genuine key payload now pk
  unfolding authenticate
  authenticate-Genuine key payload pk now hk e =
      verify-Genuine key payload pk now (ground (arith, length-pos key hk))
