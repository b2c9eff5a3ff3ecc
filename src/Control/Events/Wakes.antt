-- ===== src/Control/Events/Wakes.antt =====
-- No wake-up of control-plane/events/broker.go is lost or made up while a channel is subscribed.
use Prim.Native.String.{String}
use res.Base.{
  ℕ, suc, ◌+◌, ◌<◌, ◌≡◌, refl, ◌∙◌, subst, inl, inr, Bool, false, not, ◌&&◌, ◌||◌, List, [], ◌∷◌,
  if◌then◌else◌, Assoc, get, filter, nat_beq, arith, ◌==◌, ==_iff, string_eq, NodupKeys, get-put,
  get-del, put-NodupKeys, del-NodupKeys, All, Option-cases,
}
use res.Control.Events.{
  Broker, Event, contains, or_empty, subs_of, subscribe, store, unsubscribe, send_all, publish,
  receive, step, run, new_broker,
}

contains-send_all :
    (c : ℕ) (chans full : List ℕ)
    → contains c (send_all chans full) ≡ contains c chans || contains c full
unfolding send_all
contains-send_all c [] full = refl
contains-send_all c (x ∷ xs) full =
    ground (arith, contains-send_all c xs full, contains-send_all c xs (x ∷ full))

contains-filter :
    (c ch : ℕ) (xs : List ℕ)
    → contains c (filter (λ x. not (nat_beq x ch)) xs) ≡ not (nat_beq c ch) && contains c xs
contains-filter c ch [] = ground arith
contains-filter c ch (x ∷ xs) = ground (arith, contains-filter c ch xs)

-- A publication fills the buffers of the account's channels, and no others.
pub publish_exact :
    (account : String) (c : ℕ) (b : Broker)
    → contains c (publish account b).full ≡ contains c (subs_of account b) || contains c b.full
unfolding publish
publish_exact account c b = contains-send_all c (subs_of account b) b.full

get-store :
    (j k : String) (set : List ℕ) (m : Assoc String (List ℕ))
    → NodupKeys m
    → or_empty (get j (store k set m)) ≡ (if k == j then set else or_empty (get j m))
unfolding store
get-store j k [] m u = ground (arith, get-del j k m u)
get-store j k (x ∷ xs) m u = ground (arith, get-put j k (x ∷ xs) m)

store-NodupKeys :
    (k : String) (set : List ℕ) (m : Assoc String (List ℕ))
    → NodupKeys m
    → NodupKeys (store k set m)
unfolding store
store-NodupKeys k [] m u = del-NodupKeys k m u
store-NodupKeys k (x ∷ xs) m u = put-NodupKeys k (x ∷ xs) m u

-- The channel is in use, and subscribed to the account and to nothing else.
pub record IsSubscribed (ch : ℕ) (account : String) (b : Broker) : Type 0 where
  pub keys : NodupKeys b.subs
  pub made : ch < b.next
  pub only : (other : String) → contains ch (subs_of other b) ≡ (account == other)

-- What neither the subscriber nor its goroutine's end does.
abbrev pub IsElsewhere : ℕ → Event → Type 0
IsElsewhere ch (Event.subscribes account) = Unit
IsElsewhere ch (Event.publishes account) = Unit
IsElsewhere ch (Event.unsubscribes account c) = nat_beq ch c ≡ false
IsElsewhere ch (Event.receives c) = nat_beq ch c ≡ false

abbrev pub publishes_to : String → Event → Bool
publishes_to account (Event.publishes other) = account == other
publishes_to account _ = false

abbrev pub published : String → List Event → Bool
published account [] = false
published account (e ∷ es) = publishes_to account e || published account es

unsubscribe-subs :
    (account other : String) (c : ℕ) (b : Broker)
    → NodupKeys b.subs
    → subs_of other (unsubscribe account c b) ≡ (
        if account == other
        then filter (λ x. not (nat_beq x c)) (subs_of other b)
        else subs_of other b)
unfolding subs_of unsubscribe
unsubscribe-subs account other c b u = elim (Option-cases (get account b.subs)) [
  | inl q ↦ ground (arith, q, ==_iff account other)
  | inr (set, q) ↦ ground (
    arith,
    q,
    ==_iff account other,
    get-store other account (filter (λ x. not (nat_beq x c)) set) b.subs u,
  )
]

unsubscribe-keys :
    (account : String) (c : ℕ) (b : Broker)
    → NodupKeys b.subs
    → NodupKeys (unsubscribe account c b).subs
unfolding unsubscribe
unsubscribe-keys account c b u = elim (Option-cases (get account b.subs)) [
  | inl q ↦ rw (unsubscribe, q) u
  | inr (set, q) ↦
      rw (unsubscribe, q) (store-NodupKeys account (filter (λ x. not (nat_beq x c)) set) b.subs u)
]

unsubscribe-next : (account : String) (c : ℕ) (b : Broker) → (unsubscribe account c b).next ≡ b.next
unfolding unsubscribe
unsubscribe-next account c b = ground arith

unsubscribe-full : (account : String) (c : ℕ) (b : Broker) → (unsubscribe account c b).full ≡ b.full
unfolding unsubscribe
unsubscribe-full account c b = ground arith

step-IsSubscribed :
    (e : Event) (ch : ℕ) (account : String) (b : Broker)
    → IsElsewhere ch e
    → IsSubscribed ch account b
    → IsSubscribed ch account (step e b)
unfolding step subscribe publish receive subs_of
step-IsSubscribed (Event.subscribes a) ch account b out s = record {
  keys = put-NodupKeys a (b.next ∷ or_empty (get a b.subs)) b.subs s.keys;
  made = omega (arith, s.made);
  only = λ other. ground (
    arith,
    s.made,
    s.only other,
    ==_iff a other,
    get-put other a (b.next ∷ or_empty (get a b.subs)) b.subs,
  );
}
step-IsSubscribed (Event.publishes a) ch account b out s = record {
  keys = s.keys;
  made = s.made;
  only = s.only;
}
step-IsSubscribed (Event.unsubscribes a c) ch account b out s = record {
  keys = unsubscribe-keys a c b s.keys;
  made = rw (unsubscribe-next a c b) s.made;
  only = λ other.
      rw (unsubscribe-subs a other c b s.keys)
        (ground (arith, out, s.only other, contains-filter ch c (subs_of other b)));
}
step-IsSubscribed (Event.receives c) ch account b out s = record {
  keys = s.keys;
  made = s.made;
  only = s.only;
}

step-full :
    (e : Event) (ch : ℕ) (account : String) (b : Broker)
    → IsElsewhere ch e
    → IsSubscribed ch account b
    → contains ch (step e b).full ≡ publishes_to account e || contains ch b.full
unfolding step subscribe receive unsubscribe
step-full (Event.subscribes a) ch account b out s = refl
step-full (Event.publishes a) ch account b out s = rw (publish_exact a ch b, s.only a) refl
step-full (Event.unsubscribes a c) ch account b out s = ground arith
step-full (Event.receives c) ch account b out s = ground (arith, out, contains-filter ch c b.full)

run-full :
    (es : List Event) (ch : ℕ) (account : String) (b : Broker)
    → All (IsElsewhere ch) es
    → IsSubscribed ch account b
    → contains ch (run es b).full ≡ published account es || contains ch b.full
unfolding run
run-full [] ch account b out s = refl
run-full (e ∷ es) ch account b out s = ground (
  arith,
  run-full es ch account (step e b) out.1 (step-IsSubscribed e ch account b out.0 s),
  step-full e ch account b out.0 s,
)

-- No channel that `make` has not given yet is anywhere.
record IsFresh (b : Broker) : Type 0 where
  keys : NodupKeys b.subs
  subs : (n : ℕ) (account : String) → contains (n + b.next) (subs_of account b) ≡ false
  full : (n : ℕ) → contains (n + b.next) b.full ≡ false

step-IsFresh : (e : Event) (b : Broker) → IsFresh b → IsFresh (step e b)
unfolding step subscribe receive subs_of publish
step-IsFresh (Event.subscribes a) b f = record {
  keys = put-NodupKeys a (b.next ∷ or_empty (get a b.subs)) b.subs f.keys;
  subs = λ n other.
      let e : n + (b.next + 1) ≡ suc n + b.next = omega arith in
      rw (e, get-put other a (b.next ∷ or_empty (get a b.subs)) b.subs)
        (ground (arith, f.subs (suc n) a, f.subs (suc n) other));
  full = λ n. let e : n + (b.next + 1) ≡ suc n + b.next = omega arith in rw e (f.full (suc n));
}
step-IsFresh (Event.publishes a) b f = record {
  keys = f.keys;
  subs = f.subs;
  full = λ n. publish_exact a (n + b.next) b ∙ ground (arith, f.subs n a, f.full n);
}
step-IsFresh (Event.unsubscribes a c) b f = record {
  keys = unsubscribe-keys a c b f.keys;
  subs = λ n other.
      rw (unsubscribe-next a c b, unsubscribe-subs a other c b f.keys)
        (ground (arith, f.subs n other, contains-filter (n + b.next) c (subs_of other b)));
  full = λ n. rw (unsubscribe-next a c b, unsubscribe-full a c b) (f.full n);
}
step-IsFresh (Event.receives c) b f = record {
  keys = f.keys;
  subs = f.subs;
  full = λ n. ground (arith, f.full n, contains-filter (n + b.next) c b.full);
}

run-IsFresh : (es : List Event) (b : Broker) → IsFresh b → IsFresh (run es b)
unfolding run
run-IsFresh [] b f = f
run-IsFresh (e ∷ es) b f = run-IsFresh es (step e b) (step-IsFresh e b f)

new-IsFresh : IsFresh new_broker
unfolding new_broker subs_of get
new-IsFresh = record { keys = tt; subs = λ n account. refl; full = λ n. refl }

subscribe-IsSubscribed :
    (account : String) (b : Broker)
    → IsFresh b
    → IsSubscribed (subscribe account b).0 account (subscribe account b).1
unfolding subscribe subs_of
subscribe-IsSubscribed account b f = record {
  keys = put-NodupKeys account (b.next ∷ or_empty (get account b.subs)) b.subs f.keys;
  made = omega arith;
  only = λ other.
      let z : 0 + b.next ≡ b.next = omega arith in
      let none_yet =
        subst (λ c. contains c (or_empty (get other b.subs)) ≡ false) z (f.subs 0 other) in
      ground (
        arith,
        none_yet,
        ==_iff account other,
        get-put other account (b.next ∷ or_empty (get account b.subs)) b.subs,
      );
}

-- After any use of a broker, a new subscriber that has not yet received and has not unsubscribed has
-- a wake-up in its channel exactly if its account was published since it subscribed: none is lost,
-- and none is made up, whatever other subscribers do.
pub wake_exact :
    (before after : List Event) (account : String)
    → All (IsElsewhere (subscribe account (run before new_broker)).0) after
    → contains
        (subscribe account (run before new_broker)).0
        (run after (subscribe account (run before new_broker)).1).full
      ≡ published account after
unfolding subscribe
wake_exact before after account out =
    let b = run before new_broker in
    let f = run-IsFresh before new_broker new-IsFresh in
    let s = subscribe-IsSubscribed account b f in
    let z : 0 + b.next ≡ b.next = omega arith in
    let empty = subst (λ c. contains c b.full ≡ false) z (f.full 0) in
    run-full after b.next account (subscribe account b).1 out s ∙ ground (arith, empty)
