-- ===== src/Control/Nodes.antt =====
-- The nodes table and the mesh addresses, statement by statement: control-plane/db/node_repo.go
-- and the IP allocator of control-plane/db/metrics_repo.go, over the schema of
-- control-plane/db/migrations. A nullable column is an `Option`; a mesh address is its number in
-- the mesh network (`inet` plus an offset), and `none` where the column is NULL or the text is
-- empty. A statement that the database refuses for a reason that the model does not have (a
-- connection that breaks, a text too long for its column, a missing account) is one that is not
-- `up`. NOW() and uuid_generate_v4() are arguments.
pub mod Filters
pub mod Counting
use Prim.Native.String.{String}
use res.Base.{
  ℕ, zero, suc, ◌+◌, ◌-◌, ◌%◌, ◌^◌, Bool, true, false, not, ◌&&◌, ◌||◌, Option, none, some, List,
  [], ◌∷◌, ◌++◌, map, ltb, leb, if◌then◌else◌, Assoc, get, put, del, length, filter, get_elem?,
  Result, ok, err, ◌==◌, string_eq, nat_eq,
}

-- `CHECK (status IN ('online', 'offline', 'degraded'))`
pub data NodeStatus : Type 0 where
  online offline degraded : NodeStatus

-- A row of the table.
pub record Node : Type 0 where
  pub id : String
  pub account_id : String
  pub name : String
  pub node_type : String
  pub os : Option String
  pub device_id : Option String
  pub public_key : String
  pub endpoint : Option String
  pub nat_type : Option String
  pub internal_ip : Option ℕ
  pub status : NodeStatus
  pub sort_order : ℕ
  pub shared_folder : Option String
  pub lan_ip : Option String
  pub last_seen : Option ℕ
  pub created_at : ℕ

pub record Db : Type 0 where
  pub nodes : List Node
  pub ip_allocations : Assoc ℕ (Option String)

-- `nullString`
unfoldable pub null_string : String → Option String
null_string s = if s == "" then none else some s

-- A nullable text as `applyScanHelper` leaves it in the Go struct.
unfoldable pub text_or_empty : Option String → String
text_or_empty none = ""
text_or_empty (some s) = s

-- `column = $1` in a WHERE: NULL equals nothing.
abbrev pub is_value {ℓ} : {A : Type ℓ} ⦃e : res.Base.Eq A⦄ → A → Option A → Bool
is_value x none = false
is_value x (some y) = y == x

abbrev pub has_id : String → Node → Bool
has_id id n = n.id == id

abbrev pub has_device : String → Node → Bool
has_device device n = is_value device n.device_id

abbrev pub has_key : String → Node → Bool
has_key key n = n.public_key == key

abbrev pub has_ip : ℕ → Node → Bool
has_ip ip n = is_value ip n.internal_ip

abbrev pub any {ℓ} : {A : Type ℓ} → (A → Bool) → List A → Bool
any p [] = false
any p (x ∷ xs) = p x || any p xs

-- `SELECT … LIMIT 1` where at most one row matches.
unfoldable pub find {ℓ} : {A : Type ℓ} → (A → Bool) → List A → Option A
find p [] = none
find p (x ∷ xs) = if p x then some x else find p xs

-- `UPDATE nodes SET … WHERE …`
unfoldable pub update_where {ℓ} : {A : Type ℓ} → (A → Bool) → (A → A) → List A → List A
update_where p f [] = []
update_where p f (x ∷ xs) = (if p x then f x else x) ∷ update_where p f xs

-- `ORDER BY last_seen DESC NULLS LAST, created_at DESC`: whether `a` comes before `b`.
unfoldable pub is_before : Node → Node → Bool
is_before a b = elim a.last_seen [
  | none ↦ (elim b.last_seen [ none ↦ ltb b.created_at a.created_at | some y ↦ false ])
  | some x ↦ elim b.last_seen [
    | none ↦ true
    | some y ↦ ltb y x || (y == x) && ltb b.created_at a.created_at
  ]
]

-- The first row in that order; among equals the first of the table, where SQL leaves it open.
unfoldable pub first_of : Node → List Node → Node
first_of n [] = n
first_of n (m ∷ ms) = if is_before m n then first_of m ms else first_of n ms

unfoldable pub most_recent : List Node → Option Node
most_recent [] = none
most_recent (n ∷ ns) = some (first_of n ns)

-- `FindByDeviceIDGlobal`
unfoldable pub find_by_device_id_global : String → Db → Option Node
find_by_device_id_global device db = most_recent (filter (has_device device) db.nodes)

-- `GetByID`
unfoldable pub get_by_id : String → Db → Option Node
get_by_id id db = find (has_id id) db.nodes

-- `CountDevicesByAccount`
abbrev pub is_device_of : String → Node → Bool
is_device_of account n =
    (n.account_id == account) && (elim n.device_id [ none ↦ false | some d ↦ true ])

unfoldable pub count_devices_by_account : String → Db → ℕ
count_devices_by_account account db = length (filter (is_device_of account) db.nodes)

-- What ON DELETE SET NULL does to the allocations of the rows that leave.
abbrev pub release_reference : (String → Bool) → ℕ × Option String → ℕ × Option String
release_reference gone (ip, none) = (ip, none)
release_reference gone (ip, some id) = if gone id then (ip, none) else (ip, some id)

-- `DELETE FROM nodes WHERE …`
unfoldable pub delete_where : (Node → Bool) → Db → Db
delete_where p db = record {
  nodes = filter (λ n. not (p n)) db.nodes;
  ip_allocations =
      map (release_reference (λ id. any (λ n. (n.id == id) && p n) db.nodes)) db.ip_allocations;
}

-- `DeleteOtherByDeviceID`
unfoldable pub delete_other_by_device_id : String → String → Db → Db
delete_other_by_device_id device keep db =
    delete_where (λ n. has_device device n && not (has_id keep n)) db

-- `Delete`
unfoldable pub delete : String → Db → Db
delete id db = delete_where (has_id id) db

-- `last_seen`, or `created_at` where it is NULL, before the cutoff.
unfoldable pub is_stale : ℕ → Node → Bool
is_stale cutoff n = elim n.last_seen [ none ↦ ltb n.created_at cutoff | some t ↦ ltb t cutoff ]

-- `DeleteStaleBefore`, with the number of rows that it deleted.
unfoldable pub delete_stale_before : ℕ → Db → Db × ℕ
delete_stale_before cutoff db =
    (delete_where (is_stale cutoff) db, length (filter (is_stale cutoff) db.nodes))

-- `UPDATE nodes SET … WHERE id=$1`
abbrev pub update_by_id : String → (Node → Node) → Db → Db
update_by_id id f db = record db { nodes = update_where (has_id id) f db.nodes }

-- `UpdateReregister`: refused if another row has the key.
unfoldable pub update_reregister : ℕ → Node → Db → Result Unit Db
update_reregister now node db =
    if any (λ n. has_key node.public_key n && not (has_id node.id n)) db.nodes
    then err tt
    else ok (
        update_by_id node.id
          (λ n. record n {
            account_id = node.account_id;
            name = node.name;
            public_key = node.public_key;
            os = node.os;
            status = node.status;
            last_seen = some now;
          })
          db)

-- `CHECK (node_type IN ('client', 'relay', 'exit'))`
abbrev pub is_node_type : String → Bool
is_node_type t = (t == "client") || (t == "relay") || (t == "exit")

-- `Create`: refused if the identifier or the key is there already, or the type is not one.
unfoldable pub create : Node → Db → Result Unit Db
create node db =
    if any (has_id node.id) db.nodes
      || any (has_key node.public_key) db.nodes
      || not (is_node_type node.node_type)
    then err tt
    else ok (record db { nodes = db.nodes ++ node ∷ [] })

-- `GetAllOnline`
abbrev pub is_online : Node → Bool
is_online n = elim n.status [ offline ↦ false | _ ↦ true ]

unfoldable pub get_all_online : Db → List Node
get_all_online db = filter is_online db.nodes

-- `UpdateLastSeen`, `UpdateEndpoint`, `UpdateLanIP`
unfoldable pub update_last_seen : ℕ → String → Db → Db
update_last_seen now id db =
    update_by_id id (λ n. record n { last_seen = some now; status = NodeStatus.online }) db

unfoldable pub update_endpoint : String → String → String → Db → Db
update_endpoint id endpoint nat db =
    update_by_id id (λ n. record n { endpoint = some endpoint; nat_type = some nat }) db

unfoldable pub update_lan_ip : String → String → Db → Db
update_lan_ip id lan_ip db = update_by_id id (λ n. record n { lan_ip = null_string lan_ip }) db

-- `UpdateName`, `UpdateSortOrder`, `UpdateSharedFolder`, `UpdateStatus`
unfoldable pub update_name : String → String → Db → Db
update_name id name db = update_by_id id (λ n. record n { name = name }) db

unfoldable pub update_sort_order : String → ℕ → Db → Db
update_sort_order id sort_order db = update_by_id id (λ n. record n { sort_order = sort_order }) db

unfoldable pub update_shared_folder : String → String → Db → Db
update_shared_folder id folder db =
    update_by_id id (λ n. record n { shared_folder = null_string folder }) db

unfoldable pub update_status : String → NodeStatus → Db → Db
update_status id status db = update_by_id id (λ n. record n { status = status }) db

-- `WHERE ia.ip IS NULL AND n.internal_ip IS NULL` of `FindAvailable`, for one candidate.
unfoldable pub is_free : ℕ → Db → Bool
is_free ip db = not (any (λ a. a.0 == ip) db.ip_allocations) && not (any (has_ip ip) db.nodes)

-- `generate_series(1, count)`, last first; the order is not used.
abbrev pub candidates : ℕ → List ℕ
candidates zero = []
candidates (suc n) = suc n ∷ candidates n

-- `FindAvailable` in a network of 2 ^ bits addresses. SQL gives `LIMIT 1` no order: `pick` says
-- which of the free addresses comes.
unfoldable pub find_available : (bits pick : ℕ) → Db → Option ℕ
find_available bits pick db =
    let free = filter (λ ip. is_free ip db) (candidates (2 ^ bits - 2)) in
    get_elem? free (pick % length free)

-- `AssignIP`: refused if the node has another address already (`node_id UUID UNIQUE`).
unfoldable pub assign_ip : ℕ → String → Db → Result Unit Db
assign_ip ip id db =
    if any (λ a. not (a.0 == ip) && is_value id a.1) db.ip_allocations
    then err tt
    else ok (record db { ip_allocations = put ip (some id) db.ip_allocations })

-- `Release`
unfoldable pub release : String → Db → Db
release id db = record db { ip_allocations = filter (λ a. not (is_value id a.1)) db.ip_allocations }
