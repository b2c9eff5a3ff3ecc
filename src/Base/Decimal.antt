-- ===== src/Base/Decimal.antt =====
-- Decimal text as ASCII bytes, and text that is split at a separator.
use Prim.Native.Nat.{ℕ, zero, suc, ◌+◌, ◌-◌, ◌*◌, ◌/◌, ◌%◌, ◌^◌, ◌≤◌, ◌<◌}
use mathlib.Core.Path.{◌≡◌, refl, sym, ap, ◌∙◌}
use mathlib.Core.Logic.{◌≢◌, inl, inr}
use mathlib.Core.List.{[], ◌∷◌, ◌++◌}
use native.Mathlib.Omega.{arith}
use native.Mathlib.Nat.{pow-suc}
use res.Base.Tests.{ltb→lt, ltb, if◌then◌else◌, Bool-cases}
use res.Base.Lists.{All, All-append}
use res.Base.Equality.{Bytes}

-- A number in decimal, in at most the given number of digits.
digits : ℕ → ℕ → Bytes
digits zero n = []
digits (suc k) n =
    let more = digits k (n / 10) in if ltb n 10 then (48 + n) ∷ [] else more ++ (48 + n % 10) ∷ []

-- `strconv.Itoa` of a number below 10^5.
unfoldable pub decimal : ℕ → Bytes
unfolding digits
decimal n = digits 5 n

value : ℕ → Bytes → ℕ
value acc [] = acc
value acc (b ∷ bs) = value (acc * 10 + (b - 48)) bs

value-append : (acc d : ℕ) (xs : Bytes) → value acc (xs ++ (48 + d) ∷ []) ≡ value acc xs * 10 + d
unfolding value
value-append acc d [] = omega arith
value-append acc d (x ∷ xs) = value-append (acc * 10 + (x - 48)) d xs

value-digits : (k n : ℕ) → n < 10 ^ k → value 0 (digits k n) ≡ n
unfolding digits value
value-digits zero n h = omega arith
value-digits (suc k) n h = elim (Bool-cases (ltb n 10)) [
  | inl small ↦ rw small (omega arith)
  | inr large ↦ rw large (
      value-append 0 (n % 10) (digits k (n / 10))
      ∙ omega (arith, value-digits k (n / 10) (less k n h)))
]
  where
    less : (k n : ℕ) → n < 10 ^ suc k → n / 10 < 10 ^ k
    less k n h = omega (arith, pow-suc 10 k)

pub decimal-injective : (m n : ℕ) → m < 100000 → n < 100000 → decimal m ≡ decimal n → m ≡ n
unfolding decimal
decimal-injective m n hm hn e = sym (value-digits 5 m hm) ∙ ap (value 0) e ∙ value-digits 5 n hn

abbrev pub IsDigit : ℕ → Type 0
IsDigit b = (48 ≤ b) × (b ≤ 57)

digits-All : (k n : ℕ) → All IsDigit (digits k n)
unfolding digits
digits-All zero n = tt
digits-All (suc k) n = elim (Bool-cases (ltb n 10)) [
  | inl small ↦ rw small ((omega arith, omega (arith, ltb→lt n 10 small)), tt)
  | inr large ↦ rw large (
      All-append IsDigit (digits k (n / 10)) ((48 + n % 10) ∷ []) (digits-All k (n / 10))
        ((omega arith, omega arith), tt))
]

pub decimal-All : (n : ℕ) → All IsDigit (decimal n)
unfolding decimal
decimal-All n = digits-All 5 n

-- Two texts that are cut at the first separator have the same parts.
pub cut_at :
    (sep : ℕ) (xs ys r s : Bytes)
    → All (λ b. b ≢ sep) xs
    → All (λ b. b ≢ sep) ys
    → xs ++ sep ∷ r ≡ ys ++ sep ∷ s
    → (xs ≡ ys) × (r ≡ s)
cut_at sep [] [] r s hx hy e = (refl, ground arith)
cut_at sep [] (y ∷ ys) r s hx hy e = absurd (hy.0 (ground arith))
cut_at sep (x ∷ xs) [] r s hx hy e = absurd (hx.0 (ground arith))
cut_at sep (x ∷ xs) (y ∷ ys) r s hx hy e =
    let (p, q) = cut_at sep xs ys r s hx.1 hy.1 (ground arith) in (ground arith, q)
