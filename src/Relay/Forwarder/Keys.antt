-- ===== src/Relay/Forwarder/Keys.antt =====
-- Every session of the UDP relay stands in the table under the key of its own two addresses.
use res.Base.{
  ℕ, put, subst, arith, nat_beq, get_elem?, ◌+◌, ◌*◌, ◌%◌, ◌^◌, ◌≡◌, refl, inl, inr, Bool, not,
  Option, none, some, List, [], ◌∷◌, ltb, leb, get, length, take, Bytes, bytes_eq, Option-cases,
  Bool-cases, All, All-get, All-put, All-filter,
}
use res.Relay.SessionTable.{
  UdpAddr, Session, SessionTable, key_of, touch, create, clean_stale, new_session_table, is_stale,
}
use res.Relay.SessionTable.Stale.{clean-filter}
use res.Relay.Forwarder.{
  Forwarder, Server, Event, Task, count_out, after_touch, after_create, step_task, stepped, advance,
  serve, serve_event, listen_and_serve, on_read, on_tick, new_forwarder,
}

abbrev pub IsOwnKey : Bytes × Session → Type 0
IsOwnKey (key, s) = (s.id ≡ key) × (key_of s.src_addr s.dst_addr ≡ key)

abbrev pub IsKeyed : SessionTable → Type 0
IsKeyed st = All IsOwnKey st.sessions

touch-IsKeyed :
    (key : Bytes) (now : ℕ) (st st' : SessionTable) (s : Session)
    → IsKeyed st
    → touch key now st ≡ some (s, st')
    → IsKeyed st'
unfolding touch
touch-IsKeyed key now st st' s k e = elim (Option-cases (get key st.sessions)) [
  | inl q ↦ absurd (ground (arith, q, e))
  | inr (t, q) ↦
      let own = All-get IsOwnKey key t st.sessions k q in
      subst IsKeyed
        {x = record st { sessions = put key (record t { last_seen = now }) st.sessions }} {y = st'}
        (ground (arith, q, e))
        (All-put IsOwnKey key (record t { last_seen = now }) st.sessions own k)
]

create-IsKeyed :
    (src dst : UdpAddr) (now : ℕ) (st : SessionTable)
    → IsKeyed st
    → IsKeyed (create src dst now now now st).2
unfolding create
create-IsKeyed src dst now st k = elim (Option-cases (touch (key_of src dst) now st)) [
  | inr ((s, st'), e) ↦ rw (create, e) (touch-IsKeyed (key_of src dst) now st st' s k e)
  | inl e ↦ elim (Bool-cases (leb st.capacity (length st.sessions))) [
    | inl full ↦ rw (create, e, full) k
    | inr room ↦
        let s : Session = record {
          id = key_of src dst;
          src_addr = src;
          dst_addr = dst;
          created_at = now;
          last_seen = now;
          bytes_in = 0;
          bytes_out = 0;
        } in
        rw (create, e, room) (All-put IsOwnKey (key_of src dst) s st.sessions (refl, refl) k)
  ]
]

count_out-IsKeyed :
    (n : ℕ) (s : Session) (st : SessionTable) → IsKeyed st → IsKeyed (count_out n s st)
unfolding count_out
count_out-IsKeyed n s st k = elim (Option-cases (get s.id st.sessions)) [
  | inl e ↦ rw (count_out, e) k
  | inr (t, e) ↦
      let own = All-get IsOwnKey s.id t st.sessions k e in
      elim (Bool-cases (nat_beq t.created_at s.created_at)) [
        | inl same ↦
            rw (count_out, e, same)
              (All-put IsOwnKey s.id (record t { bytes_out = (t.bytes_out + n) % 2 ^ 64 })
                st.sessions own k)
        | inr other ↦ rw (count_out, e, other) k
      ]
]

after_create-IsKeyed :
    (n : ℕ) (dst : UdpAddr) (o : Option Session) (is_new : Bool) (st : SessionTable) (f : Forwarder)
    → IsKeyed st
    → IsKeyed (after_create n dst (o, is_new, st) f).1.sessions
unfolding after_create
after_create-IsKeyed n dst none is_new st f k = k
after_create-IsKeyed n dst (some s) is_new st f k = k

step_task-IsKeyed :
    (now : ℕ) (buf : Bytes) (t : Task) (f : Forwarder)
    → IsKeyed f.sessions
    → IsKeyed (step_task now buf t f).1.sessions
unfolding step_task after_touch
step_task-IsKeyed now buf (Task.started n src) f k =
    elim (Bool-cases (ltb (length (take n buf)) 7)) [
      | inl short ↦ rw (step_task, short) k
      | inr long ↦ rw (step_task, long) k
    ]
step_task-IsKeyed now buf (Task.parsed n src dst) f k =
    elim (Option-cases (touch (key_of src dst) now f.sessions)) [
      | inl e ↦ rw (step_task, e) k
      | inr ((s, st), e) ↦
          rw (step_task, e) (touch-IsKeyed (key_of src dst) now f.sessions st s k e)
    ]
step_task-IsKeyed now buf (Task.missed n src dst) f k =
    let r = create src dst now now now f.sessions in
    after_create-IsKeyed n dst r.0 r.1 r.2 f (create-IsKeyed src dst now f.sessions k)
step_task-IsKeyed now buf (Task.found n dst s) f k = k
step_task-IsKeyed now buf (Task.forwarded len s) f k = count_out-IsKeyed len s f.sessions k
step_task-IsKeyed now buf Task.done f k = k

stepped-IsKeyed :
    (i now : ℕ) (o : Option Task) (sv : Server)
    → IsKeyed sv.forwarder.sessions
    → IsKeyed (stepped i now o sv).forwarder.sessions
unfolding stepped
stepped-IsKeyed i now none sv k = k
stepped-IsKeyed i now (some t) sv k = step_task-IsKeyed now sv.buf t sv.forwarder k

clean_stale-IsKeyed :
    (now timeout : ℕ) (st : SessionTable) → IsKeyed st → IsKeyed (clean_stale now timeout st).0
unfolding clean_stale
clean_stale-IsKeyed now timeout st k =
    rw (clean_stale, clean-filter now timeout st.sessions)
      (All-filter IsOwnKey (λ e. not (is_stale now timeout e.1)) st.sessions k)

serve_event-IsKeyed :
    (e : Event) (sv : Server)
    → IsKeyed sv.forwarder.sessions
    → IsKeyed (serve_event e sv).forwarder.sessions
unfolding serve_event on_read on_tick advance
serve_event-IsKeyed (Event.arrives packet src) sv k = k
serve_event-IsKeyed (Event.runs i now) sv k = stepped-IsKeyed i now (get_elem? sv.tasks i) sv k
serve_event-IsKeyed (Event.ticks now) sv k =
    clean_stale-IsKeyed now (120 * 1000000000) sv.forwarder.sessions k

serve-IsKeyed :
    (es : List Event) (sv : Server)
    → IsKeyed sv.forwarder.sessions
    → IsKeyed (serve es sv).forwarder.sessions
unfolding serve
serve-IsKeyed [] sv k = k
serve-IsKeyed (e ∷ es) sv k = serve-IsKeyed es (serve_event e sv) (serve_event-IsKeyed e sv k)

-- Whatever packets come to a relay that has just started, and in whatever order the steps of its
-- goroutines and of its ticker interleave, every session of its table has the key as its identifier,
-- and that key is the one of its own source and destination.
pub sessions-IsKeyed :
    (es : List Event) (buf : Bytes) (capacity : ℕ)
    → IsKeyed (serve es (listen_and_serve buf capacity)).forwarder.sessions
unfolding listen_and_serve new_forwarder new_session_table
sessions-IsKeyed es buf capacity = serve-IsKeyed es (listen_and_serve buf capacity) tt
