-- ===== src/Control/Relays/Stable.antt =====
-- The credentials of a relay do not change: `UpsertWithCredentials` of
-- control-plane/db/metrics_repo.go.
use Prim.Native.String.{String}
use res.Base.{
  ◌≡◌, ◌≢◌, refl, sym, ◌∙◌, inl, inr, true, false, some, List, [], ◌∷◌, if◌then◌else◌, ok, ==_iff,
  ==_refl, ==_ne, string_eq, arith, Bool-cases, Option-cases,
}
use res.Control.Nodes.{any, find, update_where, text_or_empty}
use res.Control.Relays.Rows.{
  find-update_where, find-append, find_last, find-none, find-true, find_ext,
}
use res.Control.Relays.{
  RelayServer, RelayCredentials, Statement, Env, Declared, is_relay, credentials_of,
  has_credentials, refreshed, filled, new_relay, insert_or_fill, read_credentials, generate,
  upsert_found, upsert_with_credentials, register_all,
}

-- The row of a relay holds credentials.
record Holds (d : Declared) (c : RelayCredentials) (rows : List RelayServer) : Type 0 where
  row : RelayServer
  found : find (is_relay d) rows ≡ some row
  complete : has_credentials row ≡ true
  same : credentials_of row ≡ c

-- Two declarations that match one row match the same rows.
is_relay_ext :
    (d e : Declared) (r x : RelayServer)
    → is_relay d r ≡ true
    → is_relay e r ≡ true
    → is_relay d x ≡ is_relay e x
is_relay_ext d e r x h k =
    let a : d.address ≡ e.address =
      sym ((==_iff r.address d.address).0 (ground (arith, h)))
      ∙ (==_iff r.address e.address).0 (ground (arith, k)) in
    let b : d.port ≡ e.port = ground (arith, h, k) in rw (a, b) refl

-- A registration of any relay keeps the credentials of every relay that has them.
generate-Holds :
    (env : Env) (d e : Declared) (c : RelayCredentials) (rows : List RelayServer)
    (h : Holds d c rows)
    → is_relay e h.row ≡ false
    → Holds d c (generate env e rows).1
unfolding generate insert_or_fill filled
generate-Holds env d e c rows h other = elim (Option-cases env.key_pair) [
  | inl q ↦ rw (generate, q) h
  | inr (keys, q) ↦ elim (Option-cases env.short_id) [
    | inl s ↦ rw (generate, q, s) h
    | inr (short, s) ↦ elim (Bool-cases (env.up Statement.insert)) [
      | inr down ↦ rw (generate, q, s, down) h
      | inl up ↦ elim (Bool-cases (any (is_relay e) rows)) [
        | inl there ↦
            rw (generate, q, s, up, insert_or_fill, there)
              (record {
                row = h.row;
                found =
                    find-update_where (is_relay d) (is_relay e) (filled env e keys.0 keys.1 short)
                      rows h.row (λ x. refl) h.found
                    ∙ ground (arith, other);
                complete = h.complete;
                same = h.same;
              })
        | inr new ↦
            rw (generate, q, s, up, insert_or_fill, new)
              (record {
                row = h.row;
                found =
                    find-append (is_relay d) rows (new_relay env e keys.0 keys.1 short) h.row
                      h.found;
                complete = h.complete;
                same = h.same;
              })
      ]
    ]
  ]
]

refreshed-Holds :
    (env : Env) (d e : Declared) (c : RelayCredentials) (rows : List RelayServer)
    → Holds d c rows
    → Holds d c (update_where (is_relay e) (refreshed env e) rows)
unfolding refreshed has_credentials credentials_of
refreshed-Holds env d e c rows h = record {
  row = if is_relay e h.row then refreshed env e h.row else h.row;
  found =
      find-update_where (is_relay d) (is_relay e) (refreshed env e) rows h.row (λ x. refl) h.found;
  complete = elim (Bool-cases (is_relay e h.row)) [
    | inl m ↦ rw m h.complete
    | inr m ↦ rw m h.complete
  ];
  same = elim (Bool-cases (is_relay e h.row)) [ inl m ↦ rw m h.same | inr m ↦ rw m h.same ];
}

upsert-Holds :
    (env : Env) (d e : Declared) (c : RelayCredentials) (rows : List RelayServer)
    → Holds d c rows
    → Holds d c (upsert_with_credentials env e rows).1
unfolding upsert_with_credentials upsert_found
upsert-Holds env d e c rows h = elim (Bool-cases (env.up Statement.read)) [
  | inr down ↦ rw (upsert_with_credentials, down) h
  | inl up ↦ elim (Bool-cases (is_relay e h.row)) [
    | inl same ↦
        let mine = find-true (is_relay d) rows h.row h.found in
        let found =
          sym (find_ext (is_relay d) (is_relay e) rows (λ x. is_relay_ext d e h.row x mine same))
          ∙ h.found in
        elim (Bool-cases (env.up Statement.refresh)) [
          | inl on ↦
              rw (upsert_with_credentials, up, found, upsert_found, h.complete, on)
                (refreshed-Holds env d e c rows h)
          | inr off ↦ rw (upsert_with_credentials, up, found, upsert_found, h.complete, off) h
        ]
    | inr other ↦ elim (Option-cases (find (is_relay e) rows)) [
      | inl q ↦
          rw (upsert_with_credentials, up, q, upsert_found) (generate-Holds env d e c rows h other)
      | inr (r, q) ↦ elim (Bool-cases (has_credentials r)) [
        | inr lacks ↦
            rw (upsert_with_credentials, up, q, upsert_found, lacks)
              (generate-Holds env d e c rows h other)
        | inl has ↦ elim (Bool-cases (env.up Statement.refresh)) [
          | inl on ↦
              rw (upsert_with_credentials, up, q, upsert_found, has, on)
                (refreshed-Holds env d e c rows h)
          | inr off ↦ rw (upsert_with_credentials, up, q, upsert_found, has, off) h
        ]
      ]
    ]
  ]
]

register_all-Holds :
    (rest : List (Env × Declared)) (d : Declared) (c : RelayCredentials) (rows : List RelayServer)
    → Holds d c rows
    → Holds d c (register_all rest rows)
unfolding register_all
register_all-Holds [] d c rows h = h
register_all-Holds ((env, e) ∷ rest) d c rows h =
    register_all-Holds rest d c (upsert_with_credentials env e rows).1
      (upsert-Holds env d e c rows h)

-- A registration of a relay that has credentials returns these.
upsert-eq-ok :
    (env : Env) (d : Declared) (c again : RelayCredentials) (rows : List RelayServer)
    → Holds d c rows
    → (upsert_with_credentials env d rows).0 ≡ ok again
    → again ≡ c
unfolding upsert_with_credentials upsert_found
upsert-eq-ok env d c again rows h e = ground (arith, e, h.found, h.complete, h.same)

is_relay-new :
    (env : Env) (d : Declared) (private public short : String)
    → is_relay d (new_relay env d private public short) ≡ true
unfolding new_relay
is_relay-new env d private public short = ground (arith, ==_refl d.address)

has-new :
    (env : Env) (d : Declared) (private public short : String)
    → private ≢ ""
    → env.uuid ≢ ""
    → has_credentials (new_relay env d private public short) ≡ true
unfolding new_relay has_credentials text_or_empty
has-new env d private public short hp hu = ground (arith, ==_ne private "" hp, ==_ne env.uuid "" hu)

-- The first registration stores what it returns.
first-Holds :
    (env : Env) (d : Declared) (c : RelayCredentials) (rows : List RelayServer)
    (private public : String)
    → any (is_relay d) rows ≡ false
    → env.key_pair ≡ some (private, public)
    → private ≢ ""
    → env.uuid ≢ ""
    → (upsert_with_credentials env d rows).0 ≡ ok c
    → Holds d c (upsert_with_credentials env d rows).1
unfolding upsert_with_credentials upsert_found generate insert_or_fill read_credentials
first-Holds env d c rows private public new keys hp hu e =
    let none_yet = find-none (is_relay d) rows new in
    elim (Bool-cases (env.up Statement.read)) [
      | inr down ↦ absurd (ground (arith, e, down))
      | inl up ↦ elim (Option-cases env.short_id) [
        | inl s ↦ absurd (ground (arith, e, up, none_yet, keys, s))
        | inr (short, s) ↦ elim (Bool-cases (env.up Statement.insert)) [
          | inr down ↦ absurd (ground (arith, e, up, none_yet, keys, s, down))
          | inl on ↦
              let row = new_relay env d private public short in
              let last =
                find_last (is_relay d) rows row new (is_relay-new env d private public short) in
              rw
                (
                  upsert_with_credentials, up, none_yet, upsert_found, generate, keys, s, on,
                  insert_or_fill, new,
                )
                (record {
                  row = row;
                  found = last;
                  complete = has-new env d private public short hp hu;
                  same = ground (arith, e, up, none_yet, keys, s, on, new, last);
                })
        ]
      ]
    ]

-- A relay that registers for the first time and then again, after any registrations of any relays
-- that may each fail at any statement, is given the same credentials, if the generated private key
-- and identifier are not empty.
pub credentials_stable :
    (env later : Env) (d : Declared) (c again : RelayCredentials) (rows : List RelayServer)
    (rest : List (Env × Declared)) (private public : String)
    → any (is_relay d) rows ≡ false
    → env.key_pair ≡ some (private, public)
    → private ≢ ""
    → env.uuid ≢ ""
    → (upsert_with_credentials env d rows).0 ≡ ok c
    → (upsert_with_credentials later d (register_all rest (upsert_with_credentials env d rows).1)).0
      ≡ ok again
    → again ≡ c
credentials_stable env later d c again rows rest private public new keys hp hu first second =
    let h = first-Holds env d c rows private public new keys hp hu first in
    upsert-eq-ok later d c again (register_all rest (upsert_with_credentials env d rows).1)
      (register_all-Holds rest d c (upsert_with_credentials env d rows).1 h) second
