-- ===== src/Control/Paths/Order.antt =====
-- What the search relies on of float64: its order and its addition, on values other than NaN.
use res.Base.{◌≡◌, true, false, Bool-cases, inl, inr, arith}
use res.Control.Graph.{Floats}
use res.Control.Paths.{infinity}

module _ (fl : Floats) where
  -- a ≤ b, and a < b.
  abbrev pub AtMost : fl.F → fl.F → Type 0
  AtMost a b = fl.less b a ≡ false

  abbrev pub Below : fl.F → fl.F → Type 0
  Below a b = fl.less a b ≡ true

  -- Rounding is monotone, so that a sum is no less than a term if the other is not negative.
  pub record IsOrdered : Type 0 where
    pub asym : (a b : fl.F) → Below a b → AtMost a b
    pub trans : (a b c : fl.F) → AtMost a b → AtMost b c → AtMost a c
    pub add_mono : (a b c : fl.F) → AtMost a b → AtMost (fl.add a c) (fl.add b c)
    pub add_grows : (a c : fl.F) → AtMost (fl.lit 0) c → AtMost a (fl.add a c)
    pub zero_below : Below (fl.lit 0) (infinity fl)

  pub clash {ℓ} : {A : Type ℓ} (a b : fl.F) → Below a b → AtMost b a → A
  clash a b h k = absurd (ground (arith, h, k))

  module _ (o : IsOrdered) where
    pub at_most_refl : (a : fl.F) → AtMost a a
    at_most_refl a = elim (Bool-cases (fl.less a a)) [ inl h ↦ o.asym a a h | inr h ↦ h ]

    pub Below-of_le : (a b c : fl.F) → AtMost a b → Below b c → Below a c
    Below-of_le a b c h k = elim (Bool-cases (fl.less a c)) [
      | inl q ↦ q
      | inr q ↦ clash b c k (o.trans c a b q h)
    ]

    pub Below-of_lt : (a b c : fl.F) → Below a b → AtMost b c → Below a c
    Below-of_lt a b c h k = elim (Bool-cases (fl.less a c)) [
      | inl q ↦ q
      | inr q ↦ clash a b h (o.trans b c a k q)
    ]
