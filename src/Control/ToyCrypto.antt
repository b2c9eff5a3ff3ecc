-- ===== src/Control/ToyCrypto.antt =====
-- A constant in place of HMAC-SHA256 and unary numerals in place of base64, for the witnesses.
use Prim.Native.Char.{code}
use Prim.Native.String.{String}
use res.Base.{ℕ, zero, suc, ◌+◌, ◌≡◌, refl, ap, some, [], ◌∷◌, Bytes, nat_beq, if◌then◌else◌, arith}
use res.Crypto.{Hmac, Base64}

abbrev pub toy_hmac : Hmac
toy_hmac = record {
  mac = λ key msg.
      0 ∷ 0 ∷ 0 ∷ 0 ∷ 0 ∷ 0 ∷ 0 ∷ 0 ∷ 0 ∷ 0 ∷ 0 ∷ 0 ∷ 0 ∷ 0 ∷ 0 ∷ 0 ∷ 0 ∷ 0 ∷ 0 ∷ 0 ∷ 0 ∷ 0 ∷ 0 ∷ 0
      ∷ 0 ∷ 0 ∷ 0 ∷ 0 ∷ 0 ∷ 0 ∷ 0 ∷ 0 ∷ [];
  length-mac = λ key msg. refl;
}

-- A one for each unit.
unfoldable pub ones : ℕ → String → String
ones zero s = s
ones (suc n) s = String.◌∷◌ "1" (ones n s)

unfoldable pub toy_encode : Bytes → String
unfolding ones
toy_encode [] = ""
toy_encode (b ∷ bs) = ones b (String.◌∷◌ "," (toy_encode bs))

unfoldable pub toy_decode_from : ℕ → String → Bytes
toy_decode_from n String.[] = []
toy_decode_from n (String.◌∷◌ c s) =
    let more = toy_decode_from (suc n) s in
    let next = toy_decode_from 0 s in if nat_beq (code c) 44 then n ∷ next else more

toy_decode-ones :
    (b n : ℕ) (s : String)
    → toy_decode_from n (ones b (String.◌∷◌ "," s)) ≡ (b + n) ∷ toy_decode_from 0 s
unfolding ones toy_decode_from
toy_decode-ones zero n s = ground arith
toy_decode-ones (suc b) n s = ground (arith, toy_decode-ones b (suc n) s)

pub toy_decode-encode : (bs : Bytes) → toy_decode_from 0 (toy_encode bs) ≡ bs
unfolding toy_encode toy_decode_from
toy_decode-encode [] = refl
toy_decode-encode (b ∷ bs) =
    ground (arith, toy_decode-ones b 0 (toy_encode bs), toy_decode-encode bs)

abbrev pub toy_base64 : Base64
toy_base64 = record {
  encode = toy_encode;
  decode = λ s. some (toy_decode_from 0 s);
  decode-encode = λ bs. ap some (toy_decode-encode bs);
}

abbrev pub raw_key : Bytes
raw_key = toy_hmac.mac [] []
