-- ===== src/Control/Events.antt =====
-- The wake-ups of long polls: control-plane/events/broker.go. A channel is its number; its buffer
-- holds at most one wake-up. Methods are steps: the sends of `Publish` are not interleaved.
pub mod Wakes
use Prim.Native.String.{String}
use res.Base.{
  ℕ, ◌+◌, Bool, true, false, not, ◌||◌, Option, none, some, List, [], ◌∷◌, if◌then◌else◌, Assoc,
  get, put, del, filter, nat_beq, string_eq,
}

-- `full` are the channels whose buffer holds a wake-up; `next` is the next channel that `make` gives.
pub record Broker : Type 0 where
  pub subs : Assoc String (List ℕ)
  pub full : List ℕ
  pub next : ℕ

unfoldable pub new_broker : Broker
new_broker = record { subs = []; full = []; next = 0 }

abbrev pub contains : ℕ → List ℕ → Bool
contains c [] = false
contains c (x ∷ xs) = nat_beq x c || contains c xs

-- A nil set stands for a missing key.
abbrev pub or_empty : Option (List ℕ) → List ℕ
or_empty none = []
or_empty (some set) = set

-- `b.subs[accountID]`
unfoldable pub subs_of : String → Broker → List ℕ
subs_of account b = or_empty (get account b.subs)

-- `Subscribe`, with the channel.
unfoldable pub subscribe : String → Broker → ℕ × Broker
subscribe account b =
    (b.next, record b { subs = put account (b.next ∷ subs_of account b) b.subs; next = b.next + 1 })

-- `if len(set) == 0 { delete(b.subs, accountID) }`
unfoldable pub store : String → List ℕ → Assoc String (List ℕ) → Assoc String (List ℕ)
store account [] m = del account m
store account (c ∷ set) m = put account (c ∷ set) m

-- The function that `Subscribe` returns.
unfoldable pub unsubscribe : String → ℕ → Broker → Broker
unsubscribe account ch b = elim (get account b.subs) [
  | none ↦ b
  | some set ↦ record b { subs = store account (filter (λ c. not (nat_beq c ch)) set) b.subs }
]

-- The sends of `Publish`: none blocks, and a full buffer stays as it is.
unfoldable pub send_all : List ℕ → List ℕ → List ℕ
send_all [] full = full
send_all (ch ∷ chans) full = send_all chans (if contains ch full then full else ch ∷ full)

-- `Publish`
unfoldable pub publish : String → Broker → Broker
publish account b = record b { full = send_all (subs_of account b) b.full }

-- `<-ch` where a wake-up is there.
unfoldable pub receive : ℕ → Broker → Broker
receive ch b = record b { full = filter (λ c. not (nat_beq c ch)) b.full }

pub data Event : Type 0 where
  subscribes publishes : String → Event
  unsubscribes : String → ℕ → Event
  receives : ℕ → Event

unfoldable pub step : Event → Broker → Broker
step (subscribes account) b = (subscribe account b).1
step (publishes account) b = publish account b
step (unsubscribes account ch) b = unsubscribe account ch b
step (receives ch) b = receive ch b

unfoldable pub run : List Event → Broker → Broker
run [] b = b
run (e ∷ es) b = run es (step e b)
