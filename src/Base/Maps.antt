-- ===== src/Base/Maps.antt =====
-- Go's maps as association lists with one entry for a key.
use Prim.Native.Nat.{◌+◌, ◌≤◌}
use mathlib.Core.Path.{◌≡◌, refl, sym, subst}
use mathlib.Core.Logic.{inl, inr, ◌≢◌}
use mathlib.Core.Bool.{Bool}
use mathlib.Core.Option.{Option, none, some}
use mathlib.Core.List.{List, [], ◌∷◌}
use native.Mathlib.Omega.{arith}
use res.Base.Tests.{if◌then◌else◌, Bool-cases}
use res.Base.Lists.{length, All, filter}
use res.Base.Equality.{Eq, ◌==◌}

abbrev pub Assoc {ℓ κ} : Type ℓ → Type κ → Type (ℓ ⊔ κ)
Assoc K V = List (K × V)

module _ {ℓ κ} {K : Type ℓ} {V : Type κ} ⦃e : Eq K⦄ where
  unfoldable pub get : K → Assoc K V → Option V
  get k [] = none
  get k ((j, v) ∷ m) = if j == k then some v else get k m

  -- `m[k] = v`
  unfoldable pub put : K → V → Assoc K V → Assoc K V
  put k v [] = (k, v) ∷ []
  put k v ((j, w) ∷ m) = if j == k then (j, v) ∷ m else (j, w) ∷ put k v m

  -- `delete(m, k)`
  unfoldable pub del : K → Assoc K V → Assoc K V
  del k [] = []
  del k ((j, w) ∷ m) = if j == k then m else (j, w) ∷ del k m

  abbrev pub NodupKeys : Assoc K V → Type κ
  NodupKeys [] = Unit
  NodupKeys ((k, _) ∷ m) = (get k m ≡ none) × NodupKeys m

  pub get-put :
      (j k : K) (v : V) (m : Assoc K V) → get j (put k v m) ≡ (if k == j then some v else get j m)
  unfolding get put
  get-put j k v [] = refl
  get-put j k v ((i, w) ∷ m) =
      ground (arith, e.beq_iff k j, e.beq_iff i k, e.beq_iff i j, get-put j k v m)

  pub get-del :
      (j k : K) (m : Assoc K V) → NodupKeys m → get j (del k m) ≡ (if k == j then none else get j m)
  unfolding get del
  get-del j k [] u = ground arith
  get-del j k ((i, w) ∷ m) u =
      ground (arith, e.beq_iff k j, e.beq_iff i k, e.beq_iff i j, get-del j k m u.1)

  pub put-NodupKeys : (k : K) (v : V) (m : Assoc K V) → NodupKeys m → NodupKeys (put k v m)
  unfolding get put
  put-NodupKeys k v [] u = (refl, tt)
  put-NodupKeys k v ((i, w) ∷ m) u =
      ground (arith, e.beq_iff i k, e.beq_iff k i, put-NodupKeys k v m u.1, get-put i k v m)

  pub del-NodupKeys : (k : K) (m : Assoc K V) → NodupKeys m → NodupKeys (del k m)
  unfolding get del
  del-NodupKeys k [] u = tt
  del-NodupKeys k ((i, w) ∷ m) u =
      ground (arith, e.beq_iff i k, e.beq_iff k i, del-NodupKeys k m u.1, get-del i k m u.1)

  pub length-put :
      (k : K) (v : V) (m : Assoc K V)
      → length (put k v m) ≡ length m + (elim (get k m) [ none ↦ 1 | some _ ↦ 0 ])
  unfolding get put
  length-put k v [] = refl
  length-put k v ((i, w) ∷ m) = ground (arith, length-put k v m)

  pub length-del-le : (k : K) (m : Assoc K V) → length (del k m) ≤ length m
  unfolding del
  length-del-le k [] = omega arith
  length-del-le k ((i, w) ∷ m) = ground (arith, length-del-le k m)

  -- A predicate on all entries, kept by the operations.
  pub All-put {ν} :
      (P : K × V → Type ν) (k : K) (v : V) (m : Assoc K V) → P (k, v) → All P m → All P (put k v m)
  unfolding put
  All-put P k v [] p h = (p, tt)
  All-put P k v ((i, w) ∷ m) p h = ground (arith, e.beq_iff i k, All-put P k v m p h.1)

  pub All-del {ν} : (P : K × V → Type ν) (k : K) (m : Assoc K V) → All P m → All P (del k m)
  unfolding del
  All-del P k [] h = tt
  All-del P k ((i, w) ∷ m) h = ground (arith, All-del P k m h.1)

  pub All-get {ν} :
      (P : K × V → Type ν) (k : K) (v : V) (m : Assoc K V) → All P m → get k m ≡ some v → P (k, v)
  unfolding get
  All-get P k v [] h q = absurd (ground arith)
  All-get P k v ((i, w) ∷ m) h q = ground (arith, e.beq_iff i k, All-get P k v m h.1)

  -- A predicate that the entry of one key may break, until that entry is replaced or removed.
  All-absent {ν} :
      (P : K × V → Type ν) (k : K) (m : Assoc K V)
      → get k m ≡ none
      → All (λ e. e.0 ≢ k → P e) m
      → All P m
  unfolding get
  All-absent P k [] q h = tt
  All-absent P k ((i, w) ∷ m) q h = elim (Bool-cases (i == k)) [
    | inl same ↦ absurd (ground arith)
    | inr other ↦
        (h.0 (λ p. cc (sym other, (e.beq_iff i k).1 p)), All-absent P k m (ground arith) h.1)
  ]

  pub All-put_ne {ν} :
      (P : K × V → Type ν) (k : K) (v : V) (m : Assoc K V)
      → P (k, v)
      → NodupKeys m
      → All (λ e. e.0 ≢ k → P e) m
      → All P (put k v m)
  unfolding put
  All-put_ne P k v [] p u h = (p, tt)
  All-put_ne P k v ((i, w) ∷ m) p u h = elim (Bool-cases (i == k)) [
    | inl same ↦
        let q = (e.beq_iff i k).0 same in
        rw same (
          subst (λ j. P (j, v)) (sym q) p,
          All-absent P k m (subst (λ j. get j m ≡ none) q u.0) h.1,
        )
    | inr other ↦
        rw other (h.0 (λ q. cc (sym other, (e.beq_iff i k).1 q)), All-put_ne P k v m p u.1 h.1)
  ]

  pub All-del_ne {ν} :
      (P : K × V → Type ν) (k : K) (m : Assoc K V)
      → NodupKeys m
      → All (λ e. e.0 ≢ k → P e) m
      → All P (del k m)
  unfolding del
  All-del_ne P k [] u h = tt
  All-del_ne P k ((i, w) ∷ m) u h = elim (Bool-cases (i == k)) [
    | inl same ↦
        rw same (All-absent P k m (subst (λ j. get j m ≡ none) ((e.beq_iff i k).0 same) u.0) h.1)
    | inr other ↦
        rw other (h.0 (λ q. cc (sym other, (e.beq_iff i k).1 q)), All-del_ne P k m u.1 h.1)
  ]

  pub get-filter :
      (p : K × V → Bool) (k : K) (m : Assoc K V)
      → NodupKeys m
      → get k (filter p m)
        ≡ elim (get k m) [ none ↦ none | some v ↦ if p (k, v) then some v else none ]
  unfolding get
  get-filter p k [] u = refl
  get-filter p k ((i, w) ∷ m) u = ground (arith, e.beq_iff i k, get-filter p k m u.1)

  pub filter-NodupKeys : (p : K × V → Bool) (m : Assoc K V) → NodupKeys m → NodupKeys (filter p m)
  unfolding get
  filter-NodupKeys p [] u = tt
  filter-NodupKeys p ((i, w) ∷ m) u = ground (arith, filter-NodupKeys p m u.1, get-filter p i m u.1)
