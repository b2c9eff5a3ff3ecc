-- ===== src/Relay/SessionTable/Stale.antt =====
-- `CleanStale` of relay-node/relay/session.go removes exactly the stale sessions.
use res.Base.{
  ℕ, ◌+◌, ◌≡◌, refl, not, none, some, [], ◌∷◌, arith, Bytes, get, NodupKeys, length, filter,
  get-filter, filter-NodupKeys, Assoc, if◌then◌else◌, bytes_eq, ltb,
}
use res.Relay.SessionTable.{Session, SessionTable, is_stale, clean, clean_stale, count}

-- What is kept is a filter of the table.
pub clean-filter :
    (now timeout : ℕ) (m : Assoc Bytes Session)
    → (clean now timeout m).0 ≡ filter (λ e. not (is_stale now timeout e.1)) m
unfolding clean
clean-filter now timeout [] = refl
clean-filter now timeout ((k, s) ∷ m) = ground (arith, clean-filter now timeout m)

pub length-clean :
    (now timeout : ℕ) (m : Assoc Bytes Session)
    → length (clean now timeout m).0 + (clean now timeout m).1 ≡ length m
unfolding clean
length-clean now timeout [] = refl
length-clean now timeout ((k, s) ∷ m) = ground (arith, length-clean now timeout m)

pub clean-NodupKeys :
    (now timeout : ℕ) (m : Assoc Bytes Session) → NodupKeys m → NodupKeys (clean now timeout m).0
clean-NodupKeys now timeout m u =
    rw (clean-filter now timeout m) (filter-NodupKeys (λ e. not (is_stale now timeout e.1)) m u)

-- A session stays exactly if it was seen within the timeout before now, unchanged; every other
-- leaves; and the count that is returned is that of the sessions that left.
pub clean_stale_exact :
    (now timeout : ℕ) (st : SessionTable) (key : Bytes) (s : Session)
    → NodupKeys st.sessions
    → get key st.sessions ≡ some s
    → (get key (clean_stale now timeout st).0.sessions
        ≡ (if ltb (s.last_seen + timeout) now then none else some s))
      × (count (clean_stale now timeout st).0 + (clean_stale now timeout st).1 ≡ count st)
unfolding clean_stale is_stale count
clean_stale_exact now timeout st key s u e = (
  rw
      (
        clean-filter now timeout st.sessions,
        get-filter (λ x. not (ltb (x.1.last_seen + timeout) now)) key st.sessions u,
        e,
      )
      (ground arith),
  length-clean now timeout st.sessions,
)
