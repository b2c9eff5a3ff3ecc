-- ===== src/Control/Nodes/Filters.antt =====
-- Lemmas on the list operations that stand for WHERE, UPDATE and DELETE.

use res.Base.{
  ◌≡◌, refl, sym, ◌∙◌, subst, ◌⊎◌, inl, inr, Bool, true, false, not, ◌&&◌, ◌||◌, none, some, List,
  [], ◌∷◌, ◌++◌, map, if◌then◌else◌, filter, arith, Bool-cases, ◌==◌, ==_iff, ==_refl, string_eq,
}
use res.Control.Nodes.{Node, any, update_where, first_of, most_recent, is_before, has_id}

module _ {ℓ} {A : Type ℓ} where
  -- No two rows clash.
  abbrev pub Nodup : (A → A → Bool) → List A → Type 0
  Nodup clash [] = Unit
  Nodup clash (x ∷ xs) = (any (clash x) xs ≡ false) × Nodup clash xs

  pub any-filter : (p q : A → Bool) (xs : List A) → any p xs ≡ false → any p (filter q xs) ≡ false
  any-filter p q [] h = refl
  any-filter p q (x ∷ xs) h = ground (arith, any-filter p q xs)

  pub any-append : (p : A → Bool) (xs : List A) (y : A) → any p (xs ++ y ∷ []) ≡ any p xs || p y
  any-append p [] y = ground arith
  any-append p (x ∷ xs) y = ground (arith, any-append p xs y)

  pub Nodup-filter :
      (clash : A → A → Bool) (q : A → Bool) (xs : List A)
      → Nodup clash xs
      → Nodup clash (filter q xs)
  Nodup-filter clash q [] h = tt
  Nodup-filter clash q (x ∷ xs) h =
      ground (arith, any-filter (clash x) q xs h.0, Nodup-filter clash q xs h.1)

  pub Nodup-append :
      (clash : A → A → Bool) (xs : List A) (y : A)
      → Nodup clash xs
      → any (λ x. clash x y) xs ≡ false
      → Nodup clash (xs ++ y ∷ [])
  Nodup-append clash [] y h n = (refl, tt)
  Nodup-append clash (x ∷ xs) y h n = (
    ground (arith, any-append (clash x) xs y, h.0, n),
    Nodup-append clash xs y h.1 (ground (arith, n)),
  )

  pub any-update_where :
      (p q : A → Bool) (f : A → A) (xs : List A)
      → ((x : A) → p (f x) ≡ p x)
      → any p (update_where q f xs) ≡ any p xs
  unfolding update_where
  any-update_where p q f [] h = refl
  any-update_where p q f (x ∷ xs) h = ground (arith, h x, any-update_where p q f xs h)

  pub any_ext : (p q : A → Bool) (xs : List A) → ((x : A) → p x ≡ q x) → any p xs ≡ any q xs
  any_ext p q [] h = refl
  any_ext p q (x ∷ xs) h = ground (arith, h x, any_ext p q xs h)

  pub Nodup-update_where :
      (clash : A → A → Bool) (q : A → Bool) (f : A → A) (xs : List A)
      → ((x y : A) → clash x (f y) ≡ clash x y)
      → ((x y : A) → clash (f x) y ≡ clash x y)
      → Nodup clash xs
      → Nodup clash (update_where q f xs)
  unfolding update_where
  Nodup-update_where clash q f [] hr hl h = tt
  Nodup-update_where clash q f (x ∷ xs) hr hl h = (
    (any-update_where (clash (if q x then f x else x)) q f xs (hr (if q x then f x else x)))
        ∙ any_ext (clash (if q x then f x else x)) (clash x) xs (λ y. ground (arith, hl x y))
        ∙ h.0,
    Nodup-update_where clash q f xs hr hl h.1,
  )

  pub filter-append :
      (p : A → Bool) (xs : List A) (y : A)
      → filter p (xs ++ y ∷ []) ≡ filter p xs ++ filter p (y ∷ [])
  filter-append p [] y = refl
  filter-append p (x ∷ xs) y = ground (arith, filter-append p xs y)

  -- A WHERE after a DELETE of the rows that it selects, but for those to keep.
  pub filter-filter_kept :
      (p r : A → Bool) (xs : List A)
      → filter p (filter (λ x. not (p x && not (r x))) xs) ≡ filter (λ x. p x && r x) xs
  filter-filter_kept p r [] = refl
  filter-filter_kept p r (x ∷ xs) = ground (arith, filter-filter_kept p r xs)

  pub filter-update_where :
      (p r : A → Bool) (f : A → A) (xs : List A)
      → ((x : A) → p (f x) ≡ p x)
      → ((x : A) → r (f x) ≡ r x)
      → filter (λ x. p x && r x) (update_where r f xs) ≡ map f (filter (λ x. p x && r x) xs)
  unfolding update_where
  filter-update_where p r f [] hp hr = refl
  filter-update_where p r f (x ∷ xs) hp hr =
      ground (arith, hp x, hr x, filter-update_where p r f xs hp hr)

  pub filter_none :
      (p q : A → Bool) (xs : List A) → any q xs ≡ false → filter (λ x. p x && q x) xs ≡ []
  filter_none p q [] h = refl
  filter_none p q (x ∷ xs) h = ground (arith, filter_none p q xs)

abbrev pub IsIn : Node → List Node → Type 0
IsIn x [] = ⊥
IsIn x (y ∷ ys) = (y ≡ x) ⊎ IsIn x ys

IsIn-cons :
    (p : Node → Bool) (x y : Node) (ys : List Node)
    → (IsIn x (filter p ys) → IsIn x ys × (p x ≡ true))
    → p y ≡ true
    → IsIn x (y ∷ filter p ys)
    → IsIn x (y ∷ ys) × (p x ≡ true)
IsIn-cons p x y ys rest e (inl q) = (inl q, ground (arith, e, q))
IsIn-cons p x y ys rest e (inr j) = let (k, h) = rest j in (inr k, h)

pub IsIn-filter :
    (p : Node → Bool) (x : Node) (xs : List Node) → IsIn x (filter p xs) → IsIn x xs × (p x ≡ true)
IsIn-filter p x [] i = absurd i
IsIn-filter p x (y ∷ ys) i = elim (Bool-cases (p y)) [
  | inl e ↦
      IsIn-cons p x y ys (IsIn-filter p x ys) e
        (subst (IsIn x) {y = y ∷ filter p ys} (ground (arith, e)) i)
  | inr e ↦ let (j, h) = IsIn-filter p x ys (subst (IsIn x) (ground (arith, e)) i) in (inr j, h)
]

pub any-IsIn :
    (p : Node → Bool) (x : Node) (xs : List Node) → IsIn x xs → p x ≡ true → any p xs ≡ true
any-IsIn p x [] i h = absurd i
any-IsIn p x (y ∷ ys) (inl e) h = ground (arith, e, h)
any-IsIn p x (y ∷ ys) (inr i) h = ground (arith, any-IsIn p x ys i h)

IsIn-skip : (x n m : Node) (ms : List Node) → IsIn x (n ∷ ms) → IsIn x (n ∷ m ∷ ms)
IsIn-skip x n m ms (inl q) = inl q
IsIn-skip x n m ms (inr j) = inr (inr j)

first_of-IsIn : (n : Node) (ms : List Node) → IsIn (first_of n ms) (n ∷ ms)
unfolding first_of
first_of-IsIn n [] = inl refl
first_of-IsIn n (m ∷ ms) = elim (Bool-cases (is_before m n)) [
  | inl e ↦
      let i : IsIn (first_of m ms) (n ∷ m ∷ ms) = inr (first_of-IsIn m ms) in
      subst (λ x. IsIn x (n ∷ m ∷ ms)) (ground (arith, e)) i
  | inr e ↦
      let i = IsIn-skip (first_of n ms) n m ms (first_of-IsIn n ms) in
      subst (λ x. IsIn x (n ∷ m ∷ ms)) (ground (arith, e)) i
]

pub most_recent-IsIn : (ns : List Node) (n : Node) → most_recent ns ≡ some n → IsIn n ns
unfolding most_recent
most_recent-IsIn [] n e = absurd (ground (arith, e))
most_recent-IsIn (m ∷ ms) n e =
    subst (λ x. IsIn x (m ∷ ms)) (ground (arith, e)) (first_of-IsIn m ms)

pub most_recent-none : (ns : List Node) → most_recent ns ≡ none → ns ≡ []
unfolding most_recent
most_recent-none [] e = refl
most_recent-none (m ∷ ms) e = absurd (ground (arith, e))

abbrev pub same_id : Node → Node → Bool
same_id x y = y.id == x.id

-- With distinct identifiers, a row is the only one of its identifier.
pub filter_by_id :
    (p : Node → Bool) (n : Node) (ns : List Node)
    → Nodup same_id ns
    → IsIn n ns
    → p n ≡ true
    → filter (λ x. p x && has_id n.id x) ns ≡ n ∷ []
filter_by_id p n [] u i h = absurd i
filter_by_id p n (x ∷ xs) u (inl e) h =
    subst (λ y. filter (λ z. p z && has_id y.id z) (x ∷ xs) ≡ y ∷ []) e
      (ground (
        arith,
        filter_none p (has_id x.id) xs u.0,
        ==_refl x.id,
        subst (λ y. p y ≡ true) (sym e) h,
      ))
filter_by_id p n (x ∷ xs) u (inr i) h = ground (
  arith,
  ==_iff x.id n.id,
  any-IsIn (same_id x) n xs i,
  ==_iff n.id x.id,
  u.0,
  filter_by_id p n xs u.1 i h,
)
