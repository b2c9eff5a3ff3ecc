-- ===== src/Control/Routes.antt =====
-- The table of routes and the table of measurements, statement by statement:
-- control-plane/db/route_repo.go and the metrics repository of control-plane/db/metrics_repo.go.
-- The column of the cost is REAL, to which a parameter rounds; times are in seconds, the serial id
-- is the next value of its sequence, and a statement that the database refuses is the caller's.
pub mod Fresh
pub mod Cached
use Prim.Native.String.{String}
use res.Base.{
  ℕ, suc, ◌+◌, Bool, true, false, not, ◌&&◌, Option, none, some, List, [], ◌∷◌, ◌++◌, ltb,
  if◌then◌else◌, Assoc, get, put, filter, length, ◌==◌, string_eq, nat_beq,
}
use res.Control.Nodes.{any, update_where}
use res.Control.Graph.{Floats, Metrics}
use res.Control.Paths.{Route}

-- A row of node_metrics, with the fields that the graph reads.
pub record Sample (fl : Floats) : Type 0 where
  pub node_id : String
  pub metrics : Metrics fl
  pub recorded_at : ℕ

-- A row of routes.
pub record Row (fl : Floats) : Type 0 where
  pub id : ℕ
  pub route : Route fl

pub record Table (fl : Floats) : Type 0 where
  pub rows : List (Row fl)
  pub next_id : ℕ

module _ (fl : Floats) where
  -- What the columns keep of a route.
  unfoldable pub stored : (fl.F → fl.F) → Route fl → Route fl
  stored real route = record route { cost = real route.cost }

  -- `DO UPDATE SET`, on the row with the id.
  unfoldable pub replaced : Route fl → Row fl → Row fl
  replaced new row = record row {
    route = record new { src_node_id = row.route.src_node_id; dst_node_id = row.route.dst_node_id };
  }

  -- `INSERT … ON CONFLICT ON CONSTRAINT routes_pkey`: the key is the id, which is not among the
  -- columns of the INSERT.
  unfoldable pub upsert : (fl.F → fl.F) → Route fl → Table fl → Table fl
  upsert real route t = record {
    rows =
        if any (λ row. nat_beq row.id t.next_id) t.rows
        then update_where (λ row. nat_beq row.id t.next_id) (replaced (stored real route)) t.rows
        else t.rows ++ record { id = t.next_id; route = stored real route } ∷ [];
    next_id = suc t.next_id;
  }

  -- `WHERE src_node_id=$1 AND dst_node_id=$2 AND expires_at > NOW()`
  unfoldable pub is_current : (now : ℕ) → (src dst : String) → Row fl → Bool
  is_current now src dst row =
      (row.route.src_node_id == src)
      && ((row.route.dst_node_id == dst) && ltb now row.route.expires_at)

  -- Which of two rows `ORDER BY cost ASC` puts first; among equal costs, which SQL leaves open,
  -- `tie` decides by the ids.
  unfoldable pub better : (tie : ℕ → ℕ → Bool) → Row fl → Row fl → Row fl
  better tie r s =
      if fl.less s.route.cost r.route.cost
      then s
      else if fl.less r.route.cost s.route.cost
      then r
      else if tie r.id s.id
      then r
      else s

  unfoldable pub cheapest : (tie : ℕ → ℕ → Bool) → Row fl → List (Row fl) → Row fl
  cheapest tie r [] = r
  cheapest tie r (s ∷ rows) = cheapest tie (better tie r s) rows

  -- `LIMIT 1`
  unfoldable pub first_of : (tie : ℕ → ℕ → Bool) → List (Row fl) → Option (Row fl)
  first_of tie [] = none
  first_of tie (r ∷ rows) = some (cheapest tie r rows)

  -- `GetOptimal`
  unfoldable pub get_optimal :
      (tie : ℕ → ℕ → Bool) → (now : ℕ) → (src dst : String) → Table fl → Option (Row fl)
  get_optimal tie now src dst t = first_of tie (filter (is_current now src dst) t.rows)

  -- `DeleteExpired`, with the number of rows deleted.
  unfoldable pub delete_expired : (now : ℕ) → Table fl → Table fl × ℕ
  delete_expired now t = (
    record t { rows = filter (λ row. not (ltb row.route.expires_at now)) t.rows },
    length (filter (λ row. ltb row.route.expires_at now) t.rows),
  )

  -- `Insert` of a measurement; recorded_at is NOW() by default.
  unfoldable pub insert : (now : ℕ) → String → Metrics fl → List (Sample fl) → List (Sample fl)
  insert now id m samples = samples ++ record { node_id = id; metrics = m; recorded_at = now } ∷ []

  -- The later of two measurements, the first where they are of the same time.
  unfoldable pub later : Option (Sample fl) → Sample fl → Sample fl
  later none s = s
  later (some r) s = if ltb r.recorded_at s.recorded_at then s else r

  -- `DISTINCT ON (node_id) … ORDER BY node_id, recorded_at DESC`
  unfoldable pub latest_of : List (Sample fl) → Assoc String (Sample fl) → Assoc String (Sample fl)
  latest_of [] m = m
  latest_of (s ∷ samples) m = latest_of samples (put s.node_id (later (get s.node_id m) s) m)

  -- `WHERE recorded_at > $1`, 5 minutes ago
  unfoldable pub is_recent : (now : ℕ) → Sample fl → Bool
  is_recent now s = ltb now (s.recorded_at + 300)

  unfoldable pub metrics_of : Assoc String (Sample fl) → Assoc String (Metrics fl)
  metrics_of [] = []
  metrics_of ((id, s) ∷ m) = (id, s.metrics) ∷ metrics_of m

  -- `GetAllLatest`
  unfoldable pub get_all_latest : (now : ℕ) → List (Sample fl) → Assoc String (Metrics fl)
  get_all_latest now samples = metrics_of (latest_of (filter (is_recent now) samples) [])
