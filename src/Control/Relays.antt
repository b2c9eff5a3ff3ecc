-- ===== src/Control/Relays.antt =====
-- The table relay_servers: its statements in control-plane/db/metrics_repo.go, and what
-- `RegisterRelay` of control-plane/handler/node.go makes of a request. The keys that a registration
-- would make, NOW() and uuid_generate_v4() are arguments: key generation calls the random source
-- and curve25519.
pub mod Rows
pub mod Stable
pub mod Best
use Prim.Native.String.{String}
use res.Base.{
  ℕ, ◌+◌, ◌-◌, filter, Bool, true, false, not, ◌&&◌, Option, none, some, List, [], ◌∷◌, ◌++◌, ltb,
  if◌then◌else◌, Result, ok, err, ◌==◌, string_eq, nat_beq,
}
use res.Control.Nodes.{any, find, update_where, text_or_empty}

pub record RelayServer : Type 0 where
  pub id : String
  pub address : String
  pub port : ℕ
  pub vless_port : ℕ
  pub capacity : ℕ
  pub active_sessions : ℕ
  pub last_seen : ℕ
  pub vless_uuid : Option String
  pub reality_private_key : String
  pub reality_public_key : String
  pub reality_short_ids : String
  pub reality_sni : String

pub record RelayCredentials : Type 0 where
  pub vless_uuid : String
  pub reality_private_key : String
  pub reality_public_key : String
  pub reality_short_ids : String
  pub reality_sni : String

pub data Statement : Type 0 where
  read refresh insert read_back : Statement

-- What the database and the generators answer; `none` where a generator fails.
pub record Env : Type 0 where
  pub up : Statement → Bool
  pub now : ℕ
  pub key_pair : Option (String × String)
  pub short_id : Option String
  pub uuid : String
  pub row_id : String

pub record Declared : Type 0 where
  pub address : String
  pub port : ℕ
  pub vless_port : ℕ
  pub capacity : ℕ

-- `WHERE address=$1 AND port=$2`, which is UNIQUE.
abbrev pub is_relay : Declared → RelayServer → Bool
is_relay d r = (r.address == d.address) && nat_beq r.port d.port

unfoldable pub credentials_of : RelayServer → RelayCredentials
credentials_of r = record {
  vless_uuid = text_or_empty r.vless_uuid;
  reality_private_key = r.reality_private_key;
  reality_public_key = r.reality_public_key;
  reality_short_ids = r.reality_short_ids;
  reality_sni = r.reality_sni;
}

-- `uuidStr != nil && *uuidStr != "" && existing.RealityPrivateKey != ""`
unfoldable pub has_credentials : RelayServer → Bool
has_credentials r = not (text_or_empty r.vless_uuid == "") && not (r.reality_private_key == "")

-- A relay that has credentials is only refreshed.
unfoldable pub refreshed : Env → Declared → RelayServer → RelayServer
refreshed env d r = record r {
  capacity = d.capacity;
  vless_port = d.vless_port;
  last_seen = env.now;
}

-- `CASE WHEN relay_servers.c = '' THEN EXCLUDED.c ELSE relay_servers.c END`
unfoldable pub unless_empty : String → String → String
unless_empty old new = if old == "" then new else old

-- `COALESCE(relay_servers.vless_uuid, uuid_generate_v4())`
unfoldable pub coalesce : Option String → String → Option String
coalesce none new = some new
coalesce (some old) new = some old

-- DO UPDATE SET: only what is missing is filled in.
unfoldable pub filled : Env → Declared → (private public short : String) → RelayServer → RelayServer
filled env d private public short r = record r {
  capacity = d.capacity;
  vless_port = d.vless_port;
  last_seen = env.now;
  vless_uuid = coalesce r.vless_uuid env.uuid;
  reality_private_key = unless_empty r.reality_private_key private;
  reality_public_key = unless_empty r.reality_public_key public;
  reality_short_ids = unless_empty r.reality_short_ids short;
  reality_sni = unless_empty r.reality_sni "www.microsoft.com";
}

-- The row of a relay that registers for the first time.
unfoldable pub new_relay : Env → Declared → (private public short : String) → RelayServer
new_relay env d private public short = record {
  id = env.row_id;
  address = d.address;
  port = d.port;
  vless_port = d.vless_port;
  capacity = d.capacity;
  active_sessions = 0;
  last_seen = env.now;
  vless_uuid = some env.uuid;
  reality_private_key = private;
  reality_public_key = public;
  reality_short_ids = short;
  reality_sni = "www.microsoft.com";
}

-- `INSERT … ON CONFLICT (address, port) DO UPDATE`
unfoldable pub insert_or_fill :
    Env → Declared → (private public short : String) → List RelayServer → List RelayServer
insert_or_fill env d private public short rows =
    if any (is_relay d) rows
    then update_where (is_relay d) (filled env d private public short) rows
    else rows ++ new_relay env d private public short ∷ []

-- The read-back of the credentials.
unfoldable pub read_credentials : Env → Declared → List RelayServer → Result Unit RelayCredentials
read_credentials env d rows =
    elim (if env.up Statement.read_back then find (is_relay d) rows else none) [
      | none ↦ err tt
      | some r ↦ ok (credentials_of r)
    ]

-- A relay without credentials gets them.
unfoldable pub generate :
    Env → Declared → List RelayServer → Result Unit RelayCredentials × List RelayServer
generate env d rows = elim env.key_pair [
  | none ↦ (err tt, rows)
  | some keys ↦ elim env.short_id [
    | none ↦ (err tt, rows)
    | some short ↦
        if env.up Statement.insert
        then (
          read_credentials env d (insert_or_fill env d keys.0 keys.1 short rows),
          insert_or_fill env d keys.0 keys.1 short rows,
        )
        else (err tt, rows)
  ]
]

unfoldable pub upsert_found :
    Env
    → Declared
    → Option RelayServer
    → List RelayServer
    → Result Unit RelayCredentials × List RelayServer
upsert_found env d none rows = generate env d rows
upsert_found env d (some r) rows =
    if has_credentials r
    then (if env.up Statement.refresh
        then (ok (credentials_of r), update_where (is_relay d) (refreshed env d) rows)
        else (err tt, rows))
    else generate env d rows

-- `UpsertWithCredentials`
unfoldable pub upsert_with_credentials :
    Env → Declared → List RelayServer → Result Unit RelayCredentials × List RelayServer
upsert_with_credentials env d rows =
    if env.up Statement.read
    then upsert_found env d (find (is_relay d) rows) rows
    else (err tt, rows)

-- The table after a sequence of registrations.
unfoldable pub register_all : List (Env × Declared) → List RelayServer → List RelayServer
register_all [] rows = rows
register_all ((env, d) ∷ rest) rows = register_all rest (upsert_with_credentials env d rows).1

-- maxRelayCapacity
abbrev pub max_relay_capacity : ℕ
max_relay_capacity = 5000

-- What `RegisterRelay` makes of a request before it is stored.
unfoldable pub declared : Declared → Declared
declared d = record d {
  vless_port = if nat_beq d.vless_port 0 then 443 else d.vless_port;
  capacity = if ltb max_relay_capacity d.capacity then max_relay_capacity else d.capacity;
}

-- The relays that `GetBestAvailable` chooses among: seen in the last 5 minutes, with a free slot.
abbrev pub is_available : ℕ → RelayServer → Bool
is_available now r = ltb now (r.last_seen + 300) && ltb r.active_sessions r.capacity

-- `ORDER BY (capacity - active_sessions) DESC LIMIT 1`; among equals the first of the table, where
-- SQL leaves it open.
unfoldable pub freest : RelayServer → List RelayServer → RelayServer
freest r [] = r
freest r (s ∷ rows) =
    if ltb (r.capacity - r.active_sessions) (s.capacity - s.active_sessions)
    then freest s rows
    else freest r rows

unfoldable pub first_of : List RelayServer → Option RelayServer
first_of [] = none
first_of (r ∷ rows) = some (freest r rows)

-- `GetBestAvailable`
unfoldable pub get_best_available : (now : ℕ) → List RelayServer → Option RelayServer
get_best_available now rows = first_of (filter (is_available now) rows)

-- `GetAll`
unfoldable pub get_all : (now : ℕ) → List RelayServer → List RelayServer
get_all now rows = filter (λ r. ltb now (r.last_seen + 300)) rows
