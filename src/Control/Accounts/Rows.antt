-- ===== src/Control/Accounts/Rows.antt =====
-- A row that stands alone at the end of a table, and what `Create` leaves.
use Prim.Native.String.{String}
use res.Base.{
  ◌≡◌, ◌⊎◌, inl, inr, refl, Bool, true, false, not, ◌||◌, none, some, List, [], ◌∷◌, ◌++◌, filter,
  Result, ok, err, arith, Bool-cases, string_eq,
}
use res.Control.Nodes.{any, find, update_where}
use res.Control.Accounts.{
  Account, AccountDb, Env, DbError, Statement, create, new_account, default_settings, has_email,
  has_id, of_account,
}

module _ {ℓ} {A : Type ℓ} (p : A → Bool) where
  pub any-append : (xs ys : List A) → any p (xs ++ ys) ≡ any p xs || any p ys
  any-append [] ys = refl
  any-append (x ∷ xs) ys = ground (arith, any-append xs ys)

  pub find-append :
      (xs : List A) (x : A) → any p xs ≡ false → p x ≡ true → find p (xs ++ x ∷ []) ≡ some x
  unfolding find
  find-append [] x h k = ground (arith, k)
  find-append (y ∷ xs) x h k = ground (arith, h, k, find-append xs x)

  pub find-none : (xs : List A) → any p xs ≡ false → find p xs ≡ none
  unfolding find
  find-none [] h = refl
  find-none (x ∷ xs) h = ground (arith, h, find-none xs)

  pub filter_keep : (xs : List A) → any p xs ≡ false → filter (λ x. not (p x)) xs ≡ xs
  filter_keep [] h = refl
  filter_keep (x ∷ xs) h = ground (arith, h, filter_keep xs)

  pub filter-append_last :
      (xs : List A) (x : A)
      → any p xs ≡ false
      → p x ≡ true
      → filter (λ y. not (p y)) (xs ++ x ∷ []) ≡ xs
  filter-append_last [] x h k = ground (arith, k)
  filter-append_last (y ∷ xs) x h k = ground (arith, h, k, filter-append_last xs x)

  pub update_where-append :
      (f : A → A) (xs : List A) (x : A)
      → any p xs ≡ false
      → p x ≡ true
      → update_where p f (xs ++ x ∷ []) ≡ xs ++ f x ∷ []
  unfolding update_where
  update_where-append f [] x h k = ground (arith, k)
  update_where-append f (y ∷ xs) x h k = ground (arith, h, k, update_where-append f xs x)

pub update_where_comp {ℓ} :
    {A : Type ℓ} (p : A → Bool) (f g : A → A) (xs : List A)
    → ((x : A) → p (f x) ≡ p x)
    → update_where p g (update_where p f xs) ≡ update_where p (λ x. g (f x)) xs
unfolding update_where
update_where_comp p f g [] h = refl
update_where_comp p f g (x ∷ xs) h = ground (arith, h x, update_where_comp p f g xs h)

pub any-update_where {ℓ} :
    {A : Type ℓ} (p : A → Bool) (f : A → A) (xs : List A)
    → ((x : A) → p (f x) ≡ p x)
    → any p (update_where p f xs) ≡ any p xs
unfolding update_where
any-update_where p f [] h = refl
any-update_where p f (x ∷ xs) h = ground (arith, h x, any-update_where p f xs h)

pub find-update_where {ℓ} :
    {A : Type ℓ} (p : A → Bool) (f : A → A) (xs : List A) (x : A)
    → ((x : A) → p (f x) ≡ p x)
    → find p xs ≡ some x
    → find p (update_where p f xs) ≡ some (f x)
unfolding update_where find
find-update_where p f [] x h e = absurd (ground (arith, e))
find-update_where p f (y ∷ xs) x h e = elim (Bool-cases (p y)) [
  | inl k ↦ ground (arith, h y, k, e)
  | inr k ↦ ground (arith, k, find-update_where p f xs x h (ground (arith, k, e)))
]

-- The three ways in which `Create` ends.
pub data Created (env : Env) (email hash : String) (db : AccountDb)
    : Result DbError Account × AccountDb → Type 0 where
  refused :
      {r : Result DbError Account × AccountDb}
      → r ≡ (err DbError.failed, db)
      → Created env email hash db r
  half :
      {r : Result DbError Account × AccountDb}
      → r ≡ (
        err DbError.failed,
        record db { accounts = db.accounts ++ new_account env email hash ∷ [] },
      )
      → any (has_email email) db.accounts ≡ false
      → any (has_id env.uuid) db.accounts ≡ false
      → (env.up Statement.insert_settings ≡ false) ⊎ (any (of_account env.uuid) db.settings ≡ true)
      → Created env email hash db r
  done :
      {r : Result DbError Account × AccountDb}
      → r ≡ (
        ok (new_account env email hash),
        record {
          accounts = db.accounts ++ new_account env email hash ∷ [];
          settings = db.settings ++ default_settings env.now env.uuid ∷ [];
        },
      )
      → any (has_email email) db.accounts ≡ false
      → any (has_id env.uuid) db.accounts ≡ false
      → any (of_account env.uuid) db.settings ≡ false
      → Created env email hash db r

pub create-Created :
    (env : Env) (email hash : String) (db : AccountDb)
    → Created env email hash db (create env email hash db)
unfolding create
create-Created env email hash db =
    elim (Bool-cases (
      not (env.up Statement.insert_account)
      || any (has_email email) db.accounts
      || any (has_id env.uuid) db.accounts)) [
        | inl h ↦ refused (ground (arith, h))
        | inr h ↦ elim (Bool-cases (env.up Statement.insert_settings)) [
          | inr k ↦ half (ground (arith, h, k)) (ground (arith, h)) (ground (arith, h)) (inl k)
          | inl k ↦ elim (Bool-cases (any (of_account env.uuid) db.settings)) [
            | inl l ↦ half (ground (arith, h, k, l)) (ground (arith, h)) (ground (arith, h)) (inr l)
            | inr l ↦ done (ground (arith, h, k, l)) (ground (arith, h)) (ground (arith, h)) l
          ]
        ]
      ]
