-- ===== src/Control/Auth/Register.antt =====
-- What a registration leaves behind: control-plane/handler/auth.go.
use Prim.Native.String.{String}
use res.Base.{
  ℕ, ◌+◌, ◌<◌, ◌≡◌, inl, inr, refl, sym, ◌∙◌, subst, true, false, not, ◌&&◌, ◌||◌, some, [], ◌∷◌,
  ◌++◌, ok, arith, Bool-cases, Option-cases, Result-cases, ==_refl, string_eq, Bytes,
}
use res.Control.Nodes.{any, find, is_value}
use res.Control.NodeHandler.{write_error, write_json}
use res.Control.Accounts.{
  Account, AccountDb, Env, Statement, new_account, default_settings, has_email, has_id, of_account,
  delete, set_remnawave_link, get_by_email, found,
}
use res.Control.Accounts.Rows.{
  refused, half, done, create-Created, any-append, find-append, filter-append_last,
  update_where-append,
}
use res.Control.Tokens.{generate_token, validate_token, key_for, Claims}
use res.Control.Auth.{
  Service, AuthResponse, register, login, created, link, signed_in, enabled, provision, refusal,
  remnawave_username,
}

-- The tables after `Create`.
abbrev with_new : Env → String → String → AccountDb → AccountDb
with_new env email hash db = record {
  accounts = db.accounts ++ new_account env email hash ∷ [];
  settings = db.settings ++ default_settings env.now env.uuid ∷ [];
}

-- The account that was made is deleted again, with its settings.
delete-create :
    (env : Env) (email hash : String) (db : AccountDb)
    → env.up Statement.delete_account ≡ true
    → any (has_id env.uuid) db.accounts ≡ false
    → any (of_account env.uuid) db.settings ≡ false
    → (delete env env.uuid (with_new env email hash db)).1 ≡ db
unfolding delete new_account default_settings
delete-create env email hash db up ids settings = ground (
  arith,
  up,
  ==_refl env.uuid,
  any-append (has_id env.uuid) db.accounts (new_account env email hash ∷ []),
  filter-append_last (has_id env.uuid) db.accounts (new_account env email hash) ids,
  filter-append_last (of_account env.uuid) db.settings (default_settings env.now env.uuid) settings,
)

module _ (sv : Service) where
  -- A key of bytes signs, so that the answer is a token's.
  signed :
      (now : ℕ) (id : String)
      → (token : Bytes) × (generate_token sv.jwt sv.tokens now id "" ≡ some token)
  unfolding generate_token
  signed now id = sv.jwt.sign-some sv.tokens.secret_key _

  created_refused :
      (env : Env) (now status : ℕ) (email hash message : String) (db db' : AccountDb)
      → created sv env now email (ok (new_account env email hash)) (with_new env email hash db)
        ≡ (write_error status message, db')
      → env.up Statement.delete_account ≡ true
      → any (has_id env.uuid) db.accounts ≡ false
      → any (of_account env.uuid) db.settings ≡ false
      → db' ≡ db
  unfolding created link signed_in new_account
  created_refused env now status email hash message db db' h up ids settings =
      elim (Bool-cases (enabled sv.client)) [
        | inr k ↦ absurd (ground (arith, h, k, (signed now env.uuid).1))
        | inl k ↦ elim (Result-cases (provision sv.panel (remnawave_username env.uuid) email)) [
          | inl (user, q) ↦ absurd (ground (arith, h, k, q, (signed now env.uuid).1))
          | inr (e, q) ↦ ground (arith, h, k, q, delete-create env email hash db up ids settings)
        ]
      ]

  -- Whenever a registration is answered by an error, the accounts and the settings are as before,
  -- where the database answers the insertion of the settings and the deletion, and no settings stand
  -- under the identifier that it makes: an account whose provisioning fails is rolled back.
  pub register_rolls_back :
      (env : Env) (salt : Bytes) (now status : ℕ) (email message : String) (password : Bytes)
      (db db' : AccountDb)
      → register sv env salt now (some (email, password)) db ≡ (write_error status message, db')
      → env.up Statement.insert_settings ≡ true
      → env.up Statement.delete_account ≡ true
      → any (of_account env.uuid) db.settings ≡ false
      → db' ≡ db
  unfolding register created
  register_rolls_back env salt now status email message password db db' h ins up settings =
      elim (Option-cases (refusal email password)) [
        | inr (m, e) ↦ ground (arith, h, e)
        | inl e ↦ elim (Option-cases (sv.bcrypt.generate salt password)) [
          | inl g ↦ ground (arith, h, e, g)
          | inr (hash, g) ↦ elim (create-Created env email hash db) [
            | refused q ↦ ground (arith, h, e, g, q)
            | half q _ _ (inl bad) ↦ absurd (ground (arith, ins, bad))
            | half q _ _ (inr bad) ↦ absurd (ground (arith, settings, bad))
            | done q _ ids _ ↦
                created_refused env now status email hash message db db'
                  (ground (arith, h, e, g, q)) up ids settings
          ]
        ]
      ]

  -- The account under an address, as a login reads it.
  abbrev Holds : Env → String → String → AccountDb → Type 0
  Holds env email hash db =
      (a : Account) × (find (has_email email) db.accounts ≡ some a)
      × (a.id ≡ env.uuid)
      × (a.password_hash ≡ hash)

  -- The answer has a token of the account.
  abbrev HasToken : Env → ℕ → AuthResponse → Type 0
  HasToken env now r =
      (generate_token sv.jwt sv.tokens now env.uuid "" ≡ some r.token) × (r.account_id ≡ env.uuid)

  Holds-with_new :
      (env : Env) (email hash : String) (db : AccountDb)
      → any (has_email email) db.accounts ≡ false
      → Holds env email hash (with_new env email hash db)
  unfolding new_account
  Holds-with_new env email hash db fresh = (
    new_account env email hash,
    find-append (has_email email) db.accounts (new_account env email hash) fresh (==_refl email),
    refl,
    refl,
  )

  Holds-set_remnawave_link :
      (env : Env) (email hash uuid url : String) (db : AccountDb)
      → any (has_email email) db.accounts ≡ false
      → any (has_id env.uuid) db.accounts ≡ false
      → Holds env email hash
          (set_remnawave_link env env.uuid uuid url (with_new env email hash db)).1
  unfolding set_remnawave_link new_account
  Holds-set_remnawave_link env email hash uuid url db fresh ids =
      let rows = db.accounts ++ new_account env email hash ∷ [] in
      let bad =
        not (env.up Statement.set_link)
        || any (λ a. is_value uuid a.remnawave_uuid && not (has_id env.uuid a)) rows in
      let f : Account → Account = λ a. record a {
        remnawave_uuid = some uuid;
        subscription_url = some url;
        updated_at = env.now;
      } in
      let linked = (set_remnawave_link env env.uuid uuid url (with_new env email hash db)).1 in
      elim (Bool-cases bad) [
        | inl h ↦
            subst (Holds env email hash) {x = with_new env email hash db} {y = linked}
              (ground (arith, h)) (Holds-with_new env email hash db fresh)
        | inr h ↦
            subst (Holds env email hash)
              {x = record (with_new env email hash db) {
                accounts = db.accounts ++ f (new_account env email hash) ∷ [];
              }}
              {y = linked}
              (ground (
                arith,
                h,
                update_where-append (has_id env.uuid) f db.accounts (new_account env email hash) ids
                    (==_refl env.uuid),
              ))
              (
                f (new_account env email hash),
                find-append (has_email email) db.accounts (f (new_account env email hash)) fresh
                    (==_refl email),
                refl,
                refl,
              )
      ]

  created_done :
      (env : Env) (now status : ℕ) (email hash : String) (r : AuthResponse) (db db' : AccountDb)
      → created sv env now email (ok (new_account env email hash)) (with_new env email hash db)
        ≡ (write_json status r, db')
      → any (has_email email) db.accounts ≡ false
      → any (has_id env.uuid) db.accounts ≡ false
      → Holds env email hash db' × (status ≡ 201) × HasToken env now r
  unfolding created link signed_in new_account
  created_done env now status email hash r db db' h fresh ids =
      let (token, t) = signed now env.uuid in
      elim (Bool-cases (enabled sv.client)) [
        | inr k ↦ (
          subst (Holds env email hash) {x = with_new env email hash db} {y = db'}
              (ground (arith, h, k, t)) (Holds-with_new env email hash db fresh),
          ground (arith, h, k, t),
          (ground (arith, h, k, t), ground (arith, h, k, t)),
        )
        | inl k ↦ elim (Result-cases (provision sv.panel (remnawave_username env.uuid) email)) [
          | inr (e, q) ↦ absurd (ground (arith, h, k, q))
          | inl (user, q) ↦ (
            subst (Holds env email hash)
                {x = (set_remnawave_link env env.uuid user.uuid user.subscription_url
                  (with_new env email hash db)).1}
                {y = db'} (ground (arith, h, k, q, t))
                (Holds-set_remnawave_link env email hash user.uuid user.subscription_url db fresh
                  ids),
            ground (arith, h, k, q, t),
            (ground (arith, h, k, q, t), ground (arith, h, k, q, t)),
          )
        ]
      ]

  registered :
      (env : Env) (salt : Bytes) (now status : ℕ) (email : String) (password : Bytes)
      (r : AuthResponse) (db db' : AccountDb)
      → register sv env salt now (some (email, password)) db ≡ (write_json status r, db')
      → (hash : String) × (sv.bcrypt.generate salt password ≡ some hash)
        × Holds env email hash db'
        × (status ≡ 201)
        × HasToken env now r
  unfolding register created
  registered env salt now status email password r db db' h =
      elim (Option-cases (refusal email password)) [
        | inr (m, e) ↦ absurd (ground (arith, h, e))
        | inl e ↦ elim (Option-cases (sv.bcrypt.generate salt password)) [
          | inl g ↦ absurd (ground (arith, h, e, g))
          | inr (hash, g) ↦ elim (create-Created env email hash db) [
            | refused q ↦ absurd (ground (arith, h, e, g, q))
            | half q _ _ _ ↦ absurd (ground (arith, h, e, g, q))
            | done q fresh ids _ ↦
                let (k, s, t) =
                  created_done env now status email hash r db db' (ground (arith, h, e, g, q)) fresh
                    ids in
                (hash, g, k, s, t)
          ]
        ]
      ]

  logged_in :
      (env : Env) (now : ℕ) (email hash id : String) (password : Bytes) (a : Account)
      (db : AccountDb)
      → env.up Statement.select_account ≡ true
      → find (has_email email) db.accounts ≡ some a
      → a.id ≡ id
      → a.password_hash ≡ hash
      → sv.bcrypt.compare hash password ≡ true
      → (token : Bytes) × (generate_token sv.jwt sv.tokens now id "" ≡ some token)
        × (login sv env now (some (email, password)) db
            ≡ write_json 200 (record { token = token; account_id = id }))
  unfolding login get_by_email found signed_in
  logged_in env now email hash id password a db up f i p c =
      let (token, t) = signed now id in (token, t, ground (arith, up, f, i, p, c, t))

  -- Once a registration is answered by a success, its status is 201, its token is valid until the
  -- manager's time has passed and names the account, and any later login with the same address and
  -- password, on the tables that the registration left, is answered by a token for the same account
  -- where the database answers.
  pub register-login :
      (env : Env) (salt : Bytes) (now status : ℕ) (email : String) (password : Bytes)
      (r : AuthResponse) (db db' : AccountDb)
      → register sv env salt now (some (email, password)) db ≡ (write_json status r, db')
      → (status ≡ 201)
        × ((t : ℕ)
            → t < now + sv.tokens.expiry
            → (c : Claims) × (validate_token sv.jwt sv.tokens t r.token ≡ some c)
              × (c.account_id ≡ r.account_id))
        × ((env' : Env) (t : ℕ)
            → env'.up Statement.select_account ≡ true
            → (token : Bytes) × (generate_token sv.jwt sv.tokens t r.account_id "" ≡ some token)
              × (login sv env' t (some (email, password)) db'
                  ≡ write_json 200 (record { token = token; account_id = r.account_id })))
  unfolding validate_token generate_token key_for
  register-login env salt now status email password r db db' h =
      let (hash, g, (a, f, i, p), s, (made, named)) =
        registered env salt now status email password r db db' h in
      (
        s,
        λ t l.
            let c : Claims = record {
              account_id = env.uuid;
              node_id = "";
              expires_at = now + sv.tokens.expiry;
              issued_at = now;
              issuer = "valhalla";
            } in
            (
              c,
              sv.jwt.parse-sign (key_for sv.tokens) sv.tokens.secret_key c t r.token refl made l,
              sym named,
            ),
        λ env' t up.
            logged_in env' t email hash r.account_id password a db' up f (i ∙ sym named) p
              (sv.bcrypt.compare-generate salt password hash g),
      )
