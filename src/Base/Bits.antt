-- ===== src/Base/Bits.antt =====
-- Exclusive or on the bits of a number.
use Prim.Native.Nat.{
  ℕ, zero, suc, ◌+◌, ◌*◌, ◌/◌, ◌%◌, ◌^◌, ◌≤◌, ◌<◌, bit_xor, digits, differ, bit_xor-bitwise,
}
use mathlib.Core.Path.{◌≡◌, refl, ap}
use mathlib.Core.Logic.{◌⊎◌, inl, inr}
use native.Mathlib.Omega.{arith}
use native.Mathlib.Nat.{pow-suc}

-- The count of digits that the definition runs on does not matter once it covers the number.
count_irrelevant :
    (m n x y : ℕ) → x ≤ m → x ≤ n → digits (λ b. b) differ m x y ≡ digits (λ b. b) differ n x y
count_irrelevant zero zero x y h k = refl
count_irrelevant zero (suc n) zero y h k = refl
count_irrelevant zero (suc n) (suc x) y h k = absurd (omega arith)
count_irrelevant (suc m) zero zero y h k = refl
count_irrelevant (suc m) zero (suc x) y h k = absurd (omega arith)
count_irrelevant (suc m) (suc n) zero y h k = refl
count_irrelevant (suc m) (suc n) (suc x) y h k =
    omega (arith, count_irrelevant m n (suc x / 2) (y / 2) (omega arith) (omega arith))

bit_cases : (x : ℕ) → (x % 2 ≡ 0) ⊎ (x % 2 ≡ 1)
bit_cases x = ground arith

zero-xor : (y : ℕ) → bit_xor 0 y ≡ y
zero-xor y = bit_xor-bitwise 0 y

differ_bit : (x y : ℕ) → differ (x % 2) (y % 2) ≡ (x + y) % 2
differ_bit x y = elim (bit_cases x) [
  | inl p ↦ rw p (omega (arith, p))
  | inr p ↦ elim (bit_cases y) [
    | inl q ↦ rw (p, q) (omega (arith, p, q))
    | inr q ↦ rw (p, q) (omega (arith, p, q))
  ]
]

-- The lowest bit, and the others.
xor_halves : (x y : ℕ) → bit_xor x y ≡ bit_xor (x / 2) (y / 2) * 2 + (x + y) % 2
xor_halves zero y = omega (arith, zero-xor y, zero-xor (y / 2))
xor_halves (suc x) y = omega (
  arith,
  bit_xor-bitwise (suc x) y,
  bit_xor-bitwise (suc x / 2) (y / 2),
  differ_bit (suc x) y,
  count_irrelevant x (suc x / 2) (suc x / 2) (y / 2) (omega arith) (omega arith),
)

-- It undoes itself on words of any width, and stays in them.
pub xor_twice : (w x y : ℕ) → x < 2 ^ w → y < 2 ^ w → bit_xor (bit_xor x y) y ≡ x
xor_twice zero x y h k =
    let p : x ≡ 0 = omega (arith, h) in let q : y ≡ 0 = omega (arith, k) in rw (p, q) refl
xor_twice (suc w) x y h k =
    let half : bit_xor x y / 2 ≡ bit_xor (x / 2) (y / 2) = omega (arith, xor_halves x y) in
    omega (
      arith,
      xor_halves x y,
      xor_halves (bit_xor x y) y,
      ap (λ z. bit_xor z (y / 2)) half,
      xor_twice w (x / 2) (y / 2) (omega (arith, pow-suc 2 w, h)) (omega (arith, pow-suc 2 w, k)),
    )

pub xor_lt : (w x y : ℕ) → x < 2 ^ w → y < 2 ^ w → bit_xor x y < 2 ^ w
xor_lt zero x y h k =
    let p : x ≡ 0 = omega (arith, h) in let q : y ≡ 0 = omega (arith, k) in rw (p, q) (omega arith)
xor_lt (suc w) x y h k = omega (
  arith,
  xor_halves x y,
  pow-suc 2 w,
  xor_lt w (x / 2) (y / 2) (omega (arith, pow-suc 2 w, h)) (omega (arith, pow-suc 2 w, k)),
)
