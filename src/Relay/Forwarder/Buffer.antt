-- ===== src/Relay/Forwarder/Buffer.antt =====
-- The receive loop of `ListenAndServe` in relay-node/relay/forwarder.go has one buffer, and starts
-- a goroutine on a part of it for every packet: what that goroutine sees.
use mathlib.Core.List.{append_assoc}
use res.Base.{
  ℕ, zero, suc, ◌+◌, ◌≤◌, ◌≡◌, refl, sym, ap, ◌∙◌, false, inl, inr, Bool, Bool-cases, Option,
  Option-cases, none, some, [], ◌∷◌, ◌++◌, length, take, drop, ltb, get_elem?, get_elem?-set_at,
  get_elem?-append, Bytes, take_of_append, arith, ◌%◌, ◌^◌,
}
use res.Relay.SessionTable.{UdpAddr, Session, SessionTable, key_of, touch, create, get_or_create}
use res.Relay.Forwarder.{
  Forwarder, Server, Task, on_read, read_into, step_task, after_touch, after_create, stepped,
  advance, advances, run_handler, handle_packet, relay_payload, destination,
}

-- The relay after `n` more bytes are counted.
abbrev pub counted : ℕ → Forwarder → Forwarder
counted n f = record f { total_bytes = (f.total_bytes + n) % 2 ^ 64 }

pub take-read_into : (p buf : Bytes) → take (length p) (read_into p buf) ≡ p
unfolding read_into
take-read_into p buf = take_of_append (length p) p (drop (length p) buf) refl

take-append_le : (n : ℕ) (xs ys : Bytes) → n ≤ length xs → take n (xs ++ ys) ≡ take n xs
take-append_le zero xs ys h = refl
take-append_le (suc n) [] ys h = absurd (omega (arith, h))
take-append_le (suc n) (x ∷ xs) ys h = ap (◌∷◌ x) (take-append_le n xs ys (omega (arith, h)))

-- The relay after a goroutine has taken some steps.
steps : ℕ → (now : ℕ) → Bytes → Task × Forwarder → Task × Forwarder
steps zero now buf r = r
steps (suc k) now buf r = steps k now buf (step_task now buf r.0 r.1)

advance-stepped :
    (i now : ℕ) (sv : Server) (t : Task)
    → get_elem? sv.tasks i ≡ some t
    → advance i now sv ≡ stepped i now (some t) sv
unfolding advance
advance-stepped i now sv t e = ap (λ o. stepped i now o sv) e

advances-steps :
    (k i now : ℕ) (sv : Server) (t : Task)
    → get_elem? sv.tasks i ≡ some t
    → (advances k i now sv).forwarder ≡ (steps k now sv.buf (t, sv.forwarder)).1
unfolding advances steps stepped
advances-steps zero i now sv t e = refl
advances-steps (suc k) i now sv t e =
    let r = step_task now sv.buf t sv.forwarder in
    ap (λ x. (advances k i now x).forwarder) (advance-stepped i now sv t e)
    ∙ advances-steps k i now (stepped i now (some t) sv) r.0 (get_elem?-set_at i t r.0 sv.tasks e)

-- The goroutine's five steps are those of `handle_packet`.
created :
    (n : ℕ) (src dst : UdpAddr) (now : ℕ) (buf : Bytes) (f : Forwarder)
    (r : Option Session × Bool × SessionTable)
    → (steps 2 now buf (after_create n dst r f)).1 ≡ relay_payload (drop 6 (take n buf)) dst r f
unfolding steps step_task after_create relay_payload
created n src dst now buf f (none, is_new, st) = refl
created n src dst now buf f (some s, is_new, st) = refl

done_is_done :
    (k now : ℕ) (buf : Bytes) (f : Forwarder) → steps k now buf (Task.done, f) ≡ (Task.done, f)
unfolding steps step_task
done_is_done zero now buf f = refl
done_is_done (suc k) now buf f = done_is_done k now buf f

missed_in :
    (src dst : UdpAddr) (now : ℕ) (st : SessionTable)
    → touch (key_of src dst) now st ≡ none
    → get_or_create src dst now st ≡ create src dst now now now st
unfolding get_or_create
missed_in src dst now st e = rw (get_or_create, e) refl

found_in :
    (src dst : UdpAddr) (now : ℕ) (st st' : SessionTable) (s : Session)
    → touch (key_of src dst) now st ≡ some (s, st')
    → get_or_create src dst now st ≡ (some s, false, st')
unfolding get_or_create
found_in src dst now st st' s e = rw (get_or_create, e) refl

looked_up :
    (n : ℕ) (src dst : UdpAddr) (now : ℕ) (buf : Bytes) (f : Forwarder)
    → (steps 4 now buf (Task.parsed n src dst, f)).1
      ≡ relay_payload (drop 6 (take n buf)) dst (get_or_create src dst now f.sessions) f
unfolding steps step_task after_touch relay_payload
looked_up n src dst now buf f =
    let payload = drop 6 (take n buf) in
    elim (Option-cases (touch (key_of src dst) now f.sessions)) [
      | inl e ↦
          rw e (created n src dst now buf f (create src dst now now now f.sessions))
          ∙ ap (λ r. relay_payload payload dst r f) (sym (missed_in src dst now f.sessions e))
      | inr ((s, st), e) ↦
          ap (λ o. (steps 3 now buf (after_touch n src dst o f)).1) e
          ∙ ap (λ r. relay_payload payload dst r f) (sym (found_in src dst now f.sessions st s e))
    ]

steps-handle_packet :
    (n : ℕ) (src : UdpAddr) (now : ℕ) (buf : Bytes) (f : Forwarder)
    → (steps 5 now buf (Task.started n src, f)).1 ≡ handle_packet (take n buf) src now f
unfolding steps step_task handle_packet
steps-handle_packet n src now buf f = elim (Bool-cases (ltb (length (take n buf)) 7)) [
  | inl short ↦ rw short refl
  | inr long ↦ rw long (looked_up n src (destination (take n buf)) now buf f)
]

-- A goroutine that runs through before the loop reads again handles the packet it was started for.
pub in_turn :
    (packet : Bytes) (src : UdpAddr) (now : ℕ) (sv : Server)
    → (run_handler (length sv.tasks) now (on_read packet src sv)).forwarder
      ≡ handle_packet packet src now (counted (length packet) sv.forwarder)
unfolding run_handler on_read
in_turn packet src now sv =
    let f = counted (length packet) sv.forwarder in
    advances-steps 5 (length sv.tasks) now (on_read packet src sv)
      (Task.started (length packet) src)
      (get_elem?-append sv.tasks [] (Task.started (length packet) src))
    ∙ steps-handle_packet (length packet) src now (read_into packet sv.buf) f
    ∙ ap (λ p. handle_packet p src now f) (take-read_into packet sv.buf)

-- A goroutine that runs only after the loop has read another packet, at least as long, handles the
-- front of that other packet as if the first sender had sent it, and its own packet is lost.
pub overtaken :
    (p q : Bytes) (src_p src_q : UdpAddr) (now : ℕ) (sv : Server)
    → length p ≤ length q
    → (run_handler (length sv.tasks) now (on_read q src_q (on_read p src_p sv))).forwarder
      ≡ handle_packet
          (take (length p) q)
          src_p
          now
          (counted (length q) (counted (length p) sv.forwarder))
unfolding run_handler on_read read_into
overtaken p q src_p src_q now sv h =
    let f = counted (length q) (counted (length p) sv.forwarder) in
    let t = Task.started (length p) src_p in
    let u = Task.started (length q) src_q in
    let buf = read_into q (read_into p sv.buf) in
    advances-steps 5 (length sv.tasks) now (on_read q src_q (on_read p src_p sv)) t (
      ap (λ ts. get_elem? ts (length sv.tasks)) (append_assoc sv.tasks (t ∷ []) (u ∷ []))
      ∙ get_elem?-append sv.tasks (u ∷ []) t)
    ∙ steps-handle_packet (length p) src_p now buf f
    ∙ ap (λ b. handle_packet b src_p now f)
        (take-append_le (length p) q (drop (length q) (read_into p sv.buf)) h)
