-- ===== src/Base/Words.antt =====
-- Big-endian integers, and the shifts and masks of a byte.
use Prim.Native.Nat.{ℕ, ◌+◌, ◌*◌, ◌/◌, ◌%◌, ◌^◌, ◌<◌}
use mathlib.Core.Path.{◌≡◌, refl}
use mathlib.Core.List.{[], ◌∷◌, ◌++◌}
use native.Mathlib.Omega.{arith}
use res.Base.Lists.{length}
use res.Base.Equality.{Bytes}

abbrev pub IsByte : ℕ → Type 0
IsByte b = b < 256

-- `binary.BigEndian.Uint16`, `Uint64`: the value of the bytes, most significant first.
be_from : ℕ → Bytes → ℕ
be_from acc [] = acc
be_from acc (b ∷ bs) = be_from (acc * 256 + b) bs

unfoldable pub be_value : Bytes → ℕ
unfolding be_from
be_value bs = be_from 0 bs

-- `binary.BigEndian.PutUint16`
abbrev pub be16 : ℕ → Bytes
be16 v = v / 256 % 256 ∷ v % 256 ∷ []

-- `binary.BigEndian.PutUint32`
abbrev pub be32 : ℕ → Bytes
be32 v = be16 (v / 65536) ++ be16 v

-- `binary.BigEndian.PutUint64`
unfoldable pub be64 : ℕ → Bytes
be64 v = be32 (v / 4294967296) ++ be32 v

pub be_value-be16 : (v : ℕ) → v < 65536 → be_value (be16 v) ≡ v
unfolding be_value
be_value-be16 v h = omega arith

pub be_value-be64 : (v : ℕ) → v < 2 ^ 64 → be_value (be64 v) ≡ v
unfolding be_value be64
be_value-be64 v h = omega arith

pub length-be64 : (v : ℕ) → length (be64 v) ≡ 8
unfolding be64
length-be64 v = refl

pub be16_of_value : (a b : ℕ) → a < 256 → b < 256 → be16 (be_value (a ∷ b ∷ [])) ≡ a ∷ b ∷ []
unfolding be_value
be16_of_value a b ha hb = ground arith

pub be_value_two : (a b : ℕ) → be_value (a ∷ b ∷ []) ≡ a * 256 + b
unfolding be_value
be_value_two a b = omega arith
