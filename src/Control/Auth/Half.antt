-- ===== src/Control/Auth/Half.antt =====
-- A registration whose second statement fails: `Create` of control-plane/db/account_repo.go is no
-- transaction.
use Prim.Native.String.{String}
use res.Base.{ℕ, ◌≡◌, true, false, none, some, [], ◌∷◌, ◌++◌, err, arith, ==_refl, string_eq, Bytes}
use res.Control.Nodes.{any}
use res.Control.NodeHandler.{write_error}
use res.Control.Accounts.{
  AccountDb, Env, DbError, Statement, create, new_account, has_email, has_id,
}
use res.Control.Accounts.Rows.{any-append}
use res.Control.Auth.{Service, register, created, refusal}

half_made :
    (env : Env) (email hash : String) (db : AccountDb)
    → env.up Statement.insert_account ≡ true
    → env.up Statement.insert_settings ≡ false
    → any (has_email email) db.accounts ≡ false
    → any (has_id env.uuid) db.accounts ≡ false
    → create env email hash db ≡ (
      err DbError.failed,
      record db { accounts = db.accounts ++ new_account env email hash ∷ [] },
    )
unfolding create
half_made env email hash db up down fresh ids = ground (arith, up, down, fresh, ids)

taken :
    (env env' : Env) (email hash hash' : String) (db : AccountDb)
    → create env' email hash'
        (record db { accounts = db.accounts ++ new_account env email hash ∷ [] })
      ≡ (
        err DbError.failed,
        record db { accounts = db.accounts ++ new_account env email hash ∷ [] },
      )
unfolding create new_account
taken env env' email hash hash' db = ground (
  arith,
  ==_refl email,
  any-append (has_email email) db.accounts (new_account env email hash ∷ []),
)

module _ (sv : Service) where
  -- Where a registration passes its checks, its address and identifier are new, and the database
  -- answers the insertion of the account and not that of its settings, the answer is status 409 and
  -- the account stays, without settings: from then on every registration with that address and
  -- password whose hash is made is answered by status 409 and changes nothing.
  pub register_half :
      (env : Env) (salt : Bytes) (now : ℕ) (email hash : String) (password : Bytes) (db : AccountDb)
      → refusal email password ≡ none
      → sv.bcrypt.generate salt password ≡ some hash
      → env.up Statement.insert_account ≡ true
      → env.up Statement.insert_settings ≡ false
      → any (has_email email) db.accounts ≡ false
      → any (has_id env.uuid) db.accounts ≡ false
      → let db' = record db { accounts = db.accounts ++ new_account env email hash ∷ [] } in
        (register sv env salt now (some (email, password)) db
          ≡ (write_error 409 "account already exists", db'))
        × ((env' : Env) (salt' : Bytes) (t : ℕ) (hash' : String)
            → sv.bcrypt.generate salt' password ≡ some hash'
            → register sv env' salt' t (some (email, password)) db'
              ≡ (write_error 409 "account already exists", db'))
  unfolding register created
  register_half env salt now email hash password db r g up down fresh ids = (
    ground (arith, r, g, half_made env email hash db up down fresh ids),
    λ env' salt' t hash' g'. ground (arith, r, g', taken env env' email hash hash' db),
  )
