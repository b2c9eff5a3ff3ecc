-- ===== src/Control/Nodes/Counting.antt =====
-- How many rows a condition selects, through the list operations that stand for UPDATE and DELETE.
use Prim.Native.String.{String}
use res.Base.{
  ◌≤◌, ◌≡◌, refl, sym, subst, inl, inr, Bool, false, List, [], ◌∷◌, ==_iff, ==_refl, string_eq,
  arith, filter, length,
}
use res.Control.Nodes.{Node, any, has_id, update_where}
use res.Control.Nodes.Filters.{Nodup, IsIn, same_id, any-IsIn}

pub length-filter-filter :
    (p q : Node → Bool) (xs : List Node) → length (filter p (filter q xs)) ≤ length (filter p xs)
length-filter-filter p q [] = omega arith
length-filter-filter p q (x ∷ xs) = ground (arith, length-filter-filter p q xs)

-- An update that keeps a predicate, everywhere or on the one row that it is about.
pub length-filter_update :
    (p q : Node → Bool) (f : Node → Node) (xs : List Node)
    → ((x : Node) → p (f x) ≡ p x)
    → length (filter p (update_where q f xs)) ≡ length (filter p xs)
unfolding update_where
length-filter_update p q f [] h = refl
length-filter_update p q f (x ∷ xs) h = ground (arith, h x, length-filter_update p q f xs h)

update_absent :
    (i : String) (f : Node → Node) (xs : List Node)
    → any (has_id i) xs ≡ false
    → update_where (has_id i) f xs ≡ xs
unfolding update_where
update_absent i f [] h = refl
update_absent i f (y ∷ ys) h = ground (arith, h, update_absent i f ys)

pub length-filter_update_one :
    (p : Node → Bool) (f : Node → Node) (n : Node) (xs : List Node)
    → Nodup same_id xs
    → IsIn n xs
    → p (f n) ≡ p n
    → length (filter p (update_where (has_id n.id) f xs)) ≡ length (filter p xs)
unfolding update_where
length-filter_update_one p f n [] u i h = absurd i
length-filter_update_one p f n (x ∷ xs) u (inl e) h =
    subst
      (λ y. length (filter p (update_where (has_id y.id) f (x ∷ xs))) ≡ length (filter p (x ∷ xs)))
      e
      (ground
        (arith, ==_refl x.id, update_absent x.id f xs u.0, subst (λ y. p (f y) ≡ p y) (sym e) h))
length-filter_update_one p f n (x ∷ xs) u (inr i) h = ground (
  arith,
  ==_iff x.id n.id,
  ==_iff n.id x.id,
  any-IsIn (same_id x) n xs i,
  u.0,
  length-filter_update_one p f n xs u.1 i h,
)
