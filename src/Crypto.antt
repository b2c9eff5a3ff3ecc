-- ===== src/Crypto.antt =====
-- What the program uses of code outside the repository: HMAC-SHA256 and base64, as interfaces.
use Prim.Native.String.{String}
use res.Base.{◌≡◌, Bytes, length, Option, some}

-- `hmac.New(sha256.New, key)`, `Write(msg)`, `Sum(nil)`: 32 bytes, a function of key and message.
pub record Hmac : Type 0 where
  pub mac : Bytes → Bytes → Bytes
  pub length-mac : (key msg : Bytes) → length (mac key msg) ≡ 32

-- `base64.StdEncoding`: `EncodeToString`, and `DecodeString`, which may fail.
pub record Base64 : Type 0 where
  pub encode : Bytes → String
  pub decode : String → Option Bytes
  pub decode-encode : (bs : Bytes) → decode (encode bs) ≡ some bs
