-- ===== src/Control/Devices/Reprovision.antt =====
-- `Reprovision` of control-plane/handler/devices.go is idempotent.
use Prim.Native.String.{String}
use res.Base.{
  ◌≡◌, ◌≢◌, inl, inr, refl, true, not, ◌&&◌, ◌||◌, some, ok, err, ◌==◌, string_eq, arith,
  Bool-cases, Option-cases, Result-cases, ==_ne, ==_iff,
}
use res.Control.Nodes.{any, find, is_value, text_or_empty}
use res.Control.NodeHandler.{write_json}
use res.Control.Accounts.{
  Account, AccountDb, Env, Statement, get_by_id, set_remnawave_link, found, has_id,
}
use res.Control.Auth.{
  Service, User, PanelError, enabled, create_user, remnawave_username, free_tier_bytes,
}
use res.Control.Devices.{Provisioned, provisioned, reprovision_account, reprovision}
use res.Control.Accounts.Rows.{find-update_where}

-- The answer for an account that has a link.
abbrev pub already : Provisioned → Provisioned
already r = record r { status = "already_provisioned" }

get_by_id-eq-ok :
    (env : Env) (id : String) (db : AccountDb) (a : Account)
    → get_by_id env id db ≡ ok a
    → find (has_id id) db.accounts ≡ some a
unfolding get_by_id found
get_by_id-eq-ok env id db a h = elim (Option-cases (find (has_id id) db.accounts)) [
  | inl e ↦ absurd (elim (Bool-cases (env.up Statement.select_account)) [
    | inl k ↦ ground (arith, h, e, k)
    | inr k ↦ ground (arith, h, e, k)
  ])
  | inr (b, e) ↦ elim (Bool-cases (env.up Statement.select_account)) [
    | inl k ↦ ground (arith, h, e, k)
    | inr k ↦ absurd (ground (arith, h, e, k))
  ]
]

get_by_id-ok :
    (env : Env) (id : String) (db : AccountDb) (a : Account)
    → env.up Statement.select_account ≡ true
    → find (has_id id) db.accounts ≡ some a
    → get_by_id env id db ≡ ok a
unfolding get_by_id found
get_by_id-ok env id db a up e = ground (arith, up, e)

module _ (sv : Service) where
  -- An account with a link is answered with it, and nothing changes.
  linked_again :
      (env : Env) (account uuid url : String) (a : Account) (db : AccountDb)
      → account ≢ ""
      → enabled sv.client ≡ true
      → env.up Statement.select_account ≡ true
      → find (has_id account) db.accounts ≡ some a
      → text_or_empty a.remnawave_uuid ≡ uuid
      → text_or_empty a.subscription_url ≡ url
      → uuid ≢ ""
      → reprovision sv env account db ≡ (
        write_json 200 (record {
          remnawave_uuid = uuid;
          subscription_url = url;
          status = "already_provisioned";
        }),
        db,
      )
  unfolding reprovision reprovision_account
  linked_again env account uuid url a db named on up f u l some_link = ground (
    arith,
    on,
    u,
    l,
    ==_ne account "" named,
    ==_ne uuid "" some_link,
    get_by_id-ok env account db a up f,
  )

  refused :
      (env : Env) (account : String) (x : PanelError) (r : Provisioned) (db db' : AccountDb)
      → provisioned sv env account (err x) db ≡ (write_json 200 r, db')
      → ⊥
  unfolding provisioned
  refused env account x r db db' h = ground (arith, h)

  again_after_link :
      (env : Env) (account : String) (user : User) (r : Provisioned) (a : Account)
      (db db' : AccountDb)
      → provisioned sv env account (ok user) db ≡ (write_json 200 r, db')
      → find (has_id account) db.accounts ≡ some a
      → (b : Account) × (find (has_id account) db'.accounts ≡ some b)
        × (text_or_empty b.remnawave_uuid ≡ r.remnawave_uuid)
        × (text_or_empty b.subscription_url ≡ r.subscription_url)
  unfolding provisioned set_remnawave_link text_or_empty
  again_after_link env account user r a db db' h e =
      let f : Account → Account = λ x. record x {
        remnawave_uuid = some user.uuid;
        subscription_url = some user.subscription_url;
        updated_at = env.now;
      } in
      let bad =
        not (env.up Statement.set_link)
        || any (λ x. is_value user.uuid x.remnawave_uuid && not (has_id account x)) db.accounts in
      elim (Bool-cases bad) [
        | inl k ↦ absurd (ground (arith, h, k))
        | inr k ↦ (
          f a,
          ground (arith, h, k, find-update_where (has_id account) f db.accounts a (λ x. refl) e),
          ground (arith, h, k),
          ground (arith, h, k),
        )
      ]

  account_again :
      (env : Env) (account : String) (r : Provisioned) (a : Account) (db db' : AccountDb)
      → reprovision_account sv env account a db ≡ (write_json 200 r, db')
      → find (has_id account) db.accounts ≡ some a
      → (b : Account) × (find (has_id account) db'.accounts ≡ some b)
        × (text_or_empty b.remnawave_uuid ≡ r.remnawave_uuid)
        × (text_or_empty b.subscription_url ≡ r.subscription_url)
  unfolding reprovision_account
  account_again env account r a db db' h e =
      elim (Bool-cases (text_or_empty a.remnawave_uuid == "")) [
        | inr k ↦ (a, ground (arith, h, k, e), ground (arith, h, k), ground (arith, h, k))
        | inl k ↦
            let c = create_user sv.panel (remnawave_username a.id) a.email free_tier_bytes in
            elim (Result-cases c) [
              | inl (user, q) ↦
                  again_after_link env account user r a db db' (ground (arith, h, k, q)) e
              | inr (x, q) ↦ absurd (refused env account x r db db' (ground (arith, h, k, q)))
            ]
      ]

  -- Once a reprovisioning is answered by a link that is not empty, every later one for the same
  -- account, on the tables that it left and where the database answers the look-up, is answered by
  -- the same link as already provisioned and changes nothing.
  pub reprovision-reprovision :
      (env env' : Env) (account : String) (r : Provisioned) (db db' : AccountDb)
      → reprovision sv env account db ≡ (write_json 200 r, db')
      → r.remnawave_uuid ≢ ""
      → env'.up Statement.select_account ≡ true
      → reprovision sv env' account db' ≡ (write_json 200 (already r), db')
  unfolding reprovision
  reprovision-reprovision env env' account r db db' h some_link up =
      elim (Bool-cases (account == "")) [
        | inl k ↦ absurd (ground (arith, h, k))
        | inr k ↦ elim (Bool-cases (enabled sv.client)) [
          | inr l ↦ absurd (ground (arith, h, k, l))
          | inl l ↦ elim (Result-cases (get_by_id env account db)) [
            | inr (x, q) ↦ absurd (ground (arith, h, k, l, q))
            | inl (a, q) ↦
                let (b, f, u, v) =
                  account_again env account r a db db' (ground (arith, h, k, l, q))
                    (get_by_id-eq-ok env account db a q) in
                linked_again env' account r.remnawave_uuid r.subscription_url b db'
                  (λ e. ground (arith, k, (==_iff account "").1 e)) l up f u v some_link
          ]
        ]
      ]
