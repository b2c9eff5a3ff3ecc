-- ===== src/Control/Settings/Patch.antt =====
-- A patch of the settings as one step: what `UpdateSettings` of control-plane/handler/settings.go
-- promises.
use Prim.Native.String.{String}
use mathlib.Core.Path.{fun_ext}
use res.Base.{
  ℕ, ◌≡◌, inl, inr, refl, ap, ◌∙◌, Bool, true, false, not, ◌||◌, Option, none, some, List, [], ◌∷◌,
  if◌then◌else◌, Result, ok, string_eq, arith, Bool-cases,
}
use res.Control.Nodes.{any, find, update_where}
use res.Control.NodeHandler.{write_error, write_json}
use res.Control.Accounts.{
  AccountDb, AccountSettings, ExitNodeConfig, Env, DbError, Statement, of_account, found, upsert,
  set_exit_node, set_exit_nodes, set_routing_rules, set_fragment_enabled, set_block_ads_enabled,
}
use res.Control.Accounts.Rows.{update_where_comp, any-update_where, find-update_where}
use res.Control.Accounts
use res.Control.Events.{Broker, publish}
use res.Control.Settings.{
  UpdateSettings, exit_pointer, Progress, apply, apply_all, is_none, is_empty, answer,
  update_settings,
}

-- The value that a field has after a patch.
abbrev pub or_old {ℓ} : {A : Type ℓ} → Option A → A → A
or_old none old = old
or_old (some new) old = new

-- The settings after a patch: each field that the request has, and the rest as before.
unfoldable pub patched : ℕ → UpdateSettings → AccountSettings → AccountSettings
patched now req s = record s {
  vless_enabled = or_old req.vless_enabled s.vless_enabled;
  exit_node_id = elim req.exit_node_id [ none ↦ s.exit_node_id | some id ↦ exit_pointer id ];
  exit_nodes = or_old req.exit_nodes s.exit_nodes;
  routing_rules = or_old req.routing_rules s.routing_rules;
  fragment_enabled = or_old req.fragment_enabled s.fragment_enabled;
  block_ads_enabled = or_old req.block_ads_enabled s.block_ads_enabled;
  updated_at = now;
}

-- One field of the request.
abbrev stepped {ℓ} :
    {A : Type ℓ}
    → Option A
    → (A → AccountSettings → AccountSettings)
    → AccountSettings
    → AccountSettings
stepped none g s = s
stepped (some v) g s = g v s

module _ (env : Env) (account : String) (db : AccountDb) (s : AccountSettings)
    (row : find (of_account account) db.settings ≡ some s) where
  abbrev p : AccountSettings → Bool
  p = of_account account

  abbrev Keeps : (AccountSettings → AccountSettings) → Type 0
  Keeps f = (x : AccountSettings) → p (f x) ≡ p x

  -- The progress after the settings went through `f`.
  abbrev track : Bool → (AccountSettings → AccountSettings) → Progress
  track changed f = (
    ok (if changed then some (f s) else none),
    record db { settings = update_where p f db.settings },
  )

  any_of_find {ℓ} :
      {A : Type ℓ} (q : A → Bool) (xs : List A) (x : A) → find q xs ≡ some x → any q xs ≡ true
  unfolding find
  any_of_find q [] x e = absurd (ground (arith, e))
  any_of_find q (y ∷ xs) x e = elim (Bool-cases (q y)) [
    | inl k ↦ ground (arith, k)
    | inr k ↦ ground (arith, k, any_of_find q xs x (ground (arith, k, e)))
  ]

  update_row :
      (st : Statement) (f g : AccountSettings → AccountSettings)
      → env.up st ≡ true
      → Keeps f
      → Keeps g
      → Accounts.update_settings st g env account
          (record db { settings = update_where p f db.settings })
        ≡ (ok (g (f s)), record db { settings = update_where p (λ x. g (f x)) db.settings })
  unfolding Accounts.update_settings found
  update_row st f g up kf kg = ground (
    arith,
    up,
    any-update_where p f db.settings kf,
    any_of_find p db.settings s row,
    update_where_comp p f g db.settings kf,
    find-update_where p (λ x. g (f x)) db.settings s (λ x. kg (f x) ∙ kf x) row,
  )

  apply-track {ℓ} :
      {A : Type ℓ} (message : String)
      (set : A → AccountDb → Result DbError AccountSettings × AccountDb)
      (g : A → AccountSettings → AccountSettings) (v : Option A) (c : Bool)
      (f : AccountSettings → AccountSettings)
      → ((a : A)
          → set a (record db { settings = update_where p f db.settings }) ≡ (
            ok (g a (f s)),
            record db { settings = update_where p (λ x. g a (f x)) db.settings },
          ))
      → apply message set v (track c f) ≡ track (c || not (is_none v)) (λ x. stepped v g (f x))
  unfolding apply
  apply-track message set g none c f h = ground arith
  apply-track message set g (some a) c f h = ground (arith, h a)

  Keeps-stepped {ℓ} :
      {A : Type ℓ} (g : A → AccountSettings → AccountSettings) (v : Option A)
      (f : AccountSettings → AccountSettings)
      → ((a : A) → Keeps (g a))
      → Keeps f
      → Keeps (λ x. stepped v g (f x))
  Keeps-stepped g none f kg kf x = kf x
  Keeps-stepped g (some a) f kg kf x = kg a (f x) ∙ kf x

  abbrev set_vless : Bool → AccountSettings → AccountSettings
  set_vless v x = record x { vless_enabled = v; updated_at = env.now }

  abbrev set_exit : String → AccountSettings → AccountSettings
  set_exit v x = record x { exit_node_id = exit_pointer v; updated_at = env.now }

  abbrev set_exits : List ExitNodeConfig → AccountSettings → AccountSettings
  set_exits v x = record x { exit_nodes = v; updated_at = env.now }

  abbrev set_rules : String → AccountSettings → AccountSettings
  set_rules v x = record x { routing_rules = v; updated_at = env.now }

  abbrev set_fragment : Bool → AccountSettings → AccountSettings
  set_fragment v x = record x { fragment_enabled = v; updated_at = env.now }

  abbrev set_block : Bool → AccountSettings → AccountSettings
  set_block v x = record x { block_ads_enabled = v; updated_at = env.now }

  module _ (up : (st : Statement) → env.up st ≡ true) where
    upsert_row :
        (v : Bool) (f : AccountSettings → AccountSettings)
        → Keeps f
        → upsert env account v (record db { settings = update_where p f db.settings }) ≡ (
          ok (set_vless v (f s)),
          record db { settings = update_where p (λ x. set_vless v (f x)) db.settings },
        )
    unfolding upsert
    upsert_row v f kf = ground (
      arith,
      any-update_where p f db.settings kf,
      any_of_find p db.settings s row,
      update_row Statement.vless f (set_vless v) (up Statement.vless) kf (λ x. refl),
    )

    update_where-id : (xs : List AccountSettings) → update_where p (λ x. x) xs ≡ xs
    unfolding update_where
    update_where-id [] = refl
    update_where-id (x ∷ xs) = ground (arith, update_where-id xs)

    begin : (ok none, db) ≡ track false (λ x. x)
    begin = ground (arith, update_where-id db.settings)

    module _ (req : UpdateSettings) where
      abbrev f1 : AccountSettings → AccountSettings
      f1 x = stepped req.vless_enabled set_vless x

      abbrev f2 : AccountSettings → AccountSettings
      f2 x = stepped req.exit_node_id set_exit (f1 x)

      abbrev f3 : AccountSettings → AccountSettings
      f3 x = stepped req.exit_nodes set_exits (f2 x)

      abbrev f4 : AccountSettings → AccountSettings
      f4 x = stepped req.routing_rules set_rules (f3 x)

      abbrev f5 : AccountSettings → AccountSettings
      f5 x = stepped req.fragment_enabled set_fragment (f4 x)

      abbrev f6 : AccountSettings → AccountSettings
      f6 x = stepped req.block_ads_enabled set_block (f5 x)

      k1 : Keeps f1
      k1 = Keeps-stepped set_vless req.vless_enabled (λ x. x) (λ a x. refl) (λ x. refl)

      k2 : Keeps f2
      k2 = Keeps-stepped set_exit req.exit_node_id f1 (λ a x. refl) k1

      k3 : Keeps f3
      k3 = Keeps-stepped set_exits req.exit_nodes f2 (λ a x. refl) k2

      k4 : Keeps f4
      k4 = Keeps-stepped set_rules req.routing_rules f3 (λ a x. refl) k3

      k5 : Keeps f5
      k5 = Keeps-stepped set_fragment req.fragment_enabled f4 (λ a x. refl) k4

      abbrev any_set : Bool
      any_set =
          (((((false || not (is_none req.vless_enabled)) || not (is_none req.exit_node_id))
                || not (is_none req.exit_nodes))
              || not (is_none req.routing_rules))
            || not (is_none req.fragment_enabled))
          || not (is_none req.block_ads_enabled)

      all_tracked : apply_all env account req db ≡ track any_set f6
      unfolding apply_all set_exit_node set_exit_nodes set_routing_rules set_fragment_enabled
          set_block_ads_enabled
      all_tracked =
          ap (apply _ _ req.block_ads_enabled) (
            ap (apply _ _ req.fragment_enabled) (
              ap (apply _ _ req.routing_rules) (
                ap (apply _ _ req.exit_nodes) (
                  ap (apply _ _ req.exit_node_id) (
                    ap (apply _ _ req.vless_enabled) begin
                    ∙ apply-track _ (upsert env account) set_vless req.vless_enabled false (λ x. x)
                        (λ a. upsert_row a (λ x. x) (λ x. refl)))
                  ∙ apply-track _ _ set_exit req.exit_node_id _ f1 (λ a.
                    update_row Statement.exit_node f1 (set_exit a) (up Statement.exit_node) k1
                      (λ x. refl)))
                ∙ apply-track _ _ set_exits req.exit_nodes _ f2 (λ a.
                  update_row Statement.exit_nodes f2 (set_exits a) (up Statement.exit_nodes) k2
                    (λ x. refl)))
              ∙ apply-track _ _ set_rules req.routing_rules _ f3 (λ a.
                update_row Statement.rules f3 (set_rules a) (up Statement.rules) k3 (λ x. refl)))
            ∙ apply-track _ _ set_fragment req.fragment_enabled _ f4 (λ a.
              update_row Statement.fragment f4 (set_fragment a) (up Statement.fragment) k4
                (λ x. refl)))
          ∙ apply-track _ _ set_block req.block_ads_enabled _ f5 (λ a.
            update_row Statement.block_ads f5 (set_block a) (up Statement.block_ads) k5 (λ x. refl))

      f6-patched : (x : AccountSettings) → is_empty req ≡ false → f6 x ≡ patched env.now req x
      unfolding patched is_empty
      f6-patched x h = ground (arith, h)

      some_field : is_empty req ≡ false → any_set ≡ true
      unfolding is_empty
      some_field h = ground (arith, h)

      -- On an account that has settings, where the database answers every statement, a request that
      -- is not empty is answered by status 200 with the settings in which each field that the
      -- request has is replaced and all others are as before; the table holds those, the rows of
      -- other accounts are as before, and the devices of the account are woken.
      pub update_settings-patched :
          (b : Broker)
          → is_empty req ≡ false
          → update_settings env account (some req) db b ≡ (
            some (write_json 200 (patched env.now req s)),
            record db {
              settings = update_where (of_account account) (patched env.now req) db.settings;
            },
            publish account b,
          )
      unfolding update_settings answer
      update_settings-patched b h =
          let q : f6 ≡ patched env.now req = fun_ext (λ x. f6-patched x h) in
          let c : any_set ≡ true = some_field h in
          let t : apply_all env account req db ≡ (
            ok (some (patched env.now req s)),
            record db { settings = update_where p (patched env.now req) db.settings },
          ) =
            all_tracked ∙ ap (λ x. track x f6) c ∙ ap (track true) q in
          ground (arith, h, t)

-- On an account that has settings, a request with vless_enabled and exit_node_id, of which the
-- database answers the first update and not the second, is answered by status 500; the new
-- vless_enabled is stored all the same, and no device is woken.
pub update_settings_half :
    (env : Env) (account : String) (db : AccountDb) (s : AccountSettings) (b : Broker)
    (req : UpdateSettings) (v : Bool) (id : String)
    → find (of_account account) db.settings ≡ some s
    → req.vless_enabled ≡ some v
    → req.exit_node_id ≡ some id
    → env.up Statement.vless ≡ true
    → env.up Statement.exit_node ≡ false
    → update_settings env account (some req) db b ≡ (
      some (write_error 500 "failed to set exit node"),
      record db {
        settings =
            update_where
              (of_account account)
              (λ x. record x { vless_enabled = v; updated_at = env.now })
              db.settings;
      },
      b,
    )
unfolding update_settings answer apply_all apply upsert Accounts.update_settings set_exit_node
    is_empty found
update_settings_half env account db s b req v id row r1 r2 up down = ground (
  arith,
  r1,
  r2,
  up,
  down,
  any_of_find env account db s row (of_account account) db.settings s row,
  find-update_where (of_account account)
      (λ (x : AccountSettings). record x { vless_enabled = v; updated_at = env.now }) db.settings s
      (λ x. refl) row,
)
