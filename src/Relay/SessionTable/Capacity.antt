-- ===== src/Relay/SessionTable/Capacity.antt =====
-- The table never outgrows its capacity, in any interleaving of its methods.
use res.Base.{
  ℕ, ◌≤◌, ◌≡◌, refl, ◌∙◌, inl, inr, Option-cases, Bool-cases, Option, none, some, List, [], ◌∷◌,
  arith, Bytes, get, NodupKeys, put-NodupKeys, del-NodupKeys, length-put, length-del-le, length,
  bytes_eq, leb,
}
use res.Relay.SessionTable.{
  UdpAddr, Session, SessionTable, new_session_table, key_of, touch, create, remove, clean_stale,
  count, clean_stale,
}
use res.Relay.SessionTable.Stale.{clean-NodupKeys, length-clean}

pub record IsValid (st : SessionTable) : Type 0 where
  pub keys : NodupKeys st.sessions
  pub bounded : length st.sessions ≤ st.capacity

-- What a goroutine does with the table under one lock: `seen` is the look-up under the read lock.
pub data Op : Type 0 where
  seen : Bytes → ℕ → Op
  created : UdpAddr → UdpAddr → ℕ → ℕ → ℕ → Op
  removed : Bytes → Op
  cleaned : ℕ → ℕ → Op

abbrev or_same : SessionTable → Option (Session × SessionTable) → SessionTable
or_same st none = st
or_same st (some (s, st')) = st'

unfoldable pub step : Op → SessionTable → SessionTable
step (seen key now) st = or_same st (touch key now st)
step (created src dst check made now) st = (create src dst check made now st).2
step (removed key) st = remove key st
step (cleaned now timeout) st = (clean_stale now timeout st).0

unfoldable pub run : List Op → SessionTable → SessionTable
run [] st = st
run (op ∷ ops) st = run ops (step op st)

touch-IsValid :
    (key : Bytes) (now : ℕ) (st : SessionTable)
    → IsValid st
    → IsValid (or_same st (touch key now st))
unfolding touch
touch-IsValid key now st v = elim (Option-cases (get key st.sessions)) [
  | inl e ↦ rw (e, or_same, touch) v
  | inr (s, e) ↦
      let s' : Session = record s { last_seen = now } in
      rw (e, or_same, touch)
        (record {
          keys = put-NodupKeys key s' st.sessions v.keys;
          bounded = rw (length-put key s' st.sessions, e) (ground (arith, v.bounded));
        })
]

create-IsValid :
    (src dst : UdpAddr) (check made now : ℕ) (st : SessionTable)
    → IsValid st
    → IsValid (create src dst check made now st).2
unfolding create touch
create-IsValid src dst check made now st v =
    elim (Option-cases (get (key_of src dst) st.sessions)) [
      | inl e ↦ elim (Bool-cases (leb st.capacity (length st.sessions))) [
        | inl full ↦ rw (e, full, create, touch) v
        | inr room ↦
            let s : Session = record {
              id = key_of src dst;
              src_addr = src;
              dst_addr = dst;
              created_at = made;
              last_seen = now;
              bytes_in = 0;
              bytes_out = 0;
            } in
            rw (e, room, create, touch)
              (record {
                keys = put-NodupKeys (key_of src dst) s st.sessions v.keys;
                bounded =
                    rw (length-put (key_of src dst) s st.sessions, e) (ground (arith, v.bounded));
              })
      ]
      | inr (s, e) ↦
          let s' : Session = record s { last_seen = check } in
          rw (e, create, touch)
            (record {
              keys = put-NodupKeys (key_of src dst) s' st.sessions v.keys;
              bounded =
                  rw (length-put (key_of src dst) s' st.sessions, e) (ground (arith, v.bounded));
            })
    ]

step-IsValid : (op : Op) (st : SessionTable) → IsValid st → IsValid (step op st)
unfolding step remove clean_stale
step-IsValid (seen key now) st v = touch-IsValid key now st v
step-IsValid (created src dst check made now) st v = create-IsValid src dst check made now st v
step-IsValid (removed key) st v = record {
  keys = del-NodupKeys key st.sessions v.keys;
  bounded = ground (arith, length-del-le key st.sessions, v.bounded);
}
step-IsValid (cleaned now timeout) st v = record {
  keys = clean-NodupKeys now timeout st.sessions v.keys;
  bounded = ground (arith, length-clean now timeout st.sessions, v.bounded);
}

step-capacity : (op : Op) (st : SessionTable) → (step op st).capacity ≡ st.capacity
unfolding step remove clean_stale create touch
step-capacity (seen key now) st = ground arith
step-capacity (created src dst check made now) st = ground arith
step-capacity (removed key) st = refl
step-capacity (cleaned now timeout) st = refl

run-IsValid :
    (ops : List Op) (st : SessionTable)
    → IsValid st
    → IsValid (run ops st) × ((run ops st).capacity ≡ st.capacity)
unfolding run
run-IsValid [] st v = (v, refl)
run-IsValid (op ∷ ops) st v =
    let (w, e) = run-IsValid ops (step op st) (step-IsValid op st v) in (w, e ∙ step-capacity op st)

-- Whatever goroutines do with a new table, in whatever interleaving of the sections under its lock,
-- it holds at most as many sessions as its capacity, and one for a key.
pub run_bounded :
    (capacity : ℕ) (ops : List Op)
    → (count (run ops (new_session_table capacity)) ≤ capacity)
      × NodupKeys (run ops (new_session_table capacity)).sessions
unfolding count new_session_table
run_bounded capacity ops =
    let (v, e) =
      run-IsValid ops (new_session_table capacity) (record { keys = tt; bounded = omega arith }) in
    (ground (arith, e, v.bounded), v.keys)
