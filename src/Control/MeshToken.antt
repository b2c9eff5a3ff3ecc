-- ===== src/Control/MeshToken.antt =====
-- `issueMeshToken` of control-plane/service/route_service.go: what the control plane mints, the
-- relay of relay-node/mesh/dispatcher.go verifies.
use Prim.Native.String.{String}
use res.Base.{
  ℕ, ◌+◌, ◌*◌, ◌^◌, ◌<◌, ◌≡◌, ◌≢◌, none, some, [], ◌++◌, arith, leb, not, nat_beq, if◌then◌else◌,
  Bytes, ok, err, length, length-append, be64, be_value-be64, bytes_beq_iff, length-pos,
  length-be64, ap, sym, ◌∙◌,
}
use res.Crypto.{Hmac, Base64}
use res.Relay.Auth.{
  authenticate, expired, verify_mesh_token, signed_hello, is_expired, verify-signed_hello,
  verify_presented, authenticate_enforced,
}
use mathlib.Core.List.{append_assoc}

-- meshTokenTTL, in seconds
abbrev pub mesh_token_ttl : ℕ
mesh_token_ttl = 7 * 24 * 3600

module _ (h : Hmac) (b : Base64) where
  -- The bytes before they are encoded: expiry || hmac.
  unfoldable pub mint : Bytes → Bytes → ℕ → Bytes
  mint mesh_auth_key raw now =
      let expiry = be64 (now + mesh_token_ttl) in expiry ++ h.mac mesh_auth_key (raw ++ expiry)

  unfoldable pub issue_mesh_token : Bytes → String → ℕ → String
  issue_mesh_token mesh_auth_key pubkey_b64 now =
      if nat_beq (length mesh_auth_key) 0 then "" else elim (b.decode pubkey_b64) [
        | none ↦ ""
        | some raw ↦
            if not (nat_beq (length raw) 32) then "" else b.encode (mint mesh_auth_key raw now)
      ]

  issue-eq :
      (key : Bytes) (pubkey_b64 : String) (raw : Bytes) (now : ℕ)
      → key ≢ []
      → b.decode pubkey_b64 ≡ some raw
      → length raw ≡ 32
      → b.decode (issue_mesh_token key pubkey_b64 now) ≡ some (mint key raw now)
  unfolding issue_mesh_token
  issue-eq key pubkey_b64 raw now hk hd hl =
      ground (arith, length-pos key hk, b.decode-encode (mint key raw now))

  -- A node with a configured key and a 32-byte public key gets a 40-byte token; a relay that holds
  -- the same key accepts it behind that public key, whatever follows, until the TTL has passed,
  -- and rejects it from then on.
  pub issue-authenticate :
      (key rest : Bytes) (pubkey_b64 : String) (raw : Bytes) (now later : ℕ)
      → key ≢ []
      → b.decode pubkey_b64 ≡ some raw
      → length raw ≡ 32
      → now + mesh_token_ttl < 2 ^ 63
      → (token : Bytes) × (b.decode (issue_mesh_token key pubkey_b64 now) ≡ some token)
        × (length token ≡ 40)
        × (authenticate h key (raw ++ (token ++ rest)) later
            ≡ (if leb later (now + mesh_token_ttl) then ok raw else err expired))
  unfolding mint is_expired
  issue-authenticate key rest pubkey_b64 raw now later hk hd hl ht =
      let expiry = be64 (now + mesh_token_ttl) in
      let m = h.length-mac key (raw ++ expiry) in
      let same = be_value-be64 (now + mesh_token_ttl) (omega arith) in
      let regroup : raw ++ (mint key raw now ++ rest) ≡ signed_hello h key raw expiry rest =
        ap (◌++◌ raw) (append_assoc expiry (h.mac key (raw ++ expiry)) rest)
        ∙ sym (append_assoc raw expiry (h.mac key (raw ++ expiry) ++ rest)) in
      (
        mint key raw now,
        issue-eq key pubkey_b64 raw now hk hd hl,
        omega (
          arith,
          length-append expiry (h.mac key (raw ++ expiry)),
          length-be64 (now + mesh_token_ttl),
          m,
        ),
        authenticate_enforced h key _ later hk
              (omega (arith, length-append raw (mint key raw now ++ rest)))
            ∙ ap (λ p. verify_mesh_token h key p later) regroup
            ∙ verify-signed_hello h key raw expiry rest later hl
                (length-be64 (now + mesh_token_ttl))
            ∙ ground (arith, same),
      )

  -- At a relay that holds the same key as the control plane, which is not empty: a token that was
  -- minted for one public key is accepted behind another one of 32 bytes only where the MACs of the
  -- two coincide, and then it stands for the key that the client presents.
  pub mint_binding :
      (key rest raw other pk : Bytes) (now later : ℕ)
      → key ≢ []
      → length other ≡ 32
      → authenticate h key (other ++ (mint key raw now ++ rest)) later ≡ ok pk
      → (pk ≡ other)
        × (h.mac key (other ++ be64 (now + mesh_token_ttl))
            ≡ h.mac key (raw ++ be64 (now + mesh_token_ttl)))
  unfolding mint
  mint_binding key rest raw other pk now later hk ho e =
      let expiry = be64 (now + mesh_token_ttl) in
      let m = h.mac key (raw ++ expiry) in
      let good = h.mac key (other ++ expiry) in
      let regroup : other ++ (mint key raw now ++ rest) ≡ (other ++ expiry) ++ (m ++ rest) =
        ap (◌++◌ other) (append_assoc expiry m rest)
        ∙ sym (append_assoc other expiry (m ++ rest)) in
      let accepted =
        sym (
          authenticate_enforced h key _ later hk
            (omega (arith, length-append other (mint key raw now ++ rest)))
          ∙ ap (λ p. verify_mesh_token h key p later) regroup
          ∙ verify_presented h key other expiry m rest later ho (length-be64 (now + mesh_token_ttl))
              (h.length-mac key (raw ++ expiry)))
        ∙ e in
      ground (arith, accepted, bytes_beq_iff m good)
