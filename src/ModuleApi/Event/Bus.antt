-- ===== src/ModuleApi/Event/Bus.antt =====
-- crates/nyarix-module-api/src/event.rs: `EventBus`, and the tasks that its subscriptions spawn.
use nyarix_runtime.Base.{
  ℕ, zero, suc, ◌+◌, ◌<◌, ◌≤◌, ◌≡◌, ◌⊎◌, Bool, true, false, List, [], ◌∷◌, ◌++◌, none, some,
  if◌then◌else◌, length, get_elem?,
}
use nyarix_runtime.ModuleApi.Event.{Event, EventFilter, matches}

-- The answers of `recv`; `pending` while it waits.
pub data Received (E : Type 0) : Type 0 where
  received : E → Received E
  lagged : ℕ → Received E
  closed pending : Received E

-- What `tokio::sync::broadcast` documents. `sent` is every message sent so far and `position` the
-- number of those that a receiver is past. A receiver gets the messages sent after its subscription,
-- in order; one that is behind by more than the capacity may be moved forward.
pub record Broadcast (C R E : Type 0) : Type 0 where
  pub channel : ℕ → C
  pub send : C → E → C
  pub subscribe : C → R
  pub recv : C → R → Received E × R
  pub sent : C → List E
  pub capacity : C → ℕ
  pub is_open : C → Bool
  pub position : R → ℕ
  pub sent-channel : (n : ℕ) → sent (channel n) ≡ []
  pub sent-send :
      (c : C) (e : E) → (sent (send c e) ≡ sent c ++ e ∷ []) × (capacity (send c e) ≡ capacity c)
  pub position-subscribe : (c : C) → position (subscribe c) ≡ length (sent c)
  pub recv_cases :
      (c : C) (r : R)
      → ((get_elem? (sent c) (position r) ≡ none)
          × (recv c r ≡ (if is_open c then pending else closed, r)))
        ⊎ ((e : E) × (s : R) × (get_elem? (sent c) (position r) ≡ some e)
            × (recv c r ≡ (received e, s))
            × (position s ≡ suc (position r)))
        ⊎ ((n : ℕ) × (s : R) × (position r + capacity c < length (sent c))
            × (recv c r ≡ (lagged n, s))
            × (position s ≡ position r + n)
            × (position r + n ≤ length (sent c)))

-- A spawned task, and the events that it has called its handler with.
pub record Subscription (R : Type 0) : Type 0 where
  pub filter : EventFilter
  pub receiver : R
  pub handled : List Event
  pub running : Bool

pub record EventBus (C R : Type 0) : Type 0 where
  pub sender : C
  pub tasks : List (Subscription R)

abbrev pub default_capacity : ℕ
default_capacity = 256

-- The task at a position is passed through `f`.
abbrev pub modify_at : {A : Type 0} → ℕ → (A → A) → List A → List A
modify_at i f [] = []
modify_at zero f (x ∷ xs) = f x ∷ xs
modify_at (suc i) f (x ∷ xs) = x ∷ modify_at i f xs

-- `JoinHandle::abort`.
unfoldable pub stop : {R : Type 0} → Subscription R → Subscription R
stop task = record task { running = false }

module _ {C R : Type 0} (bc : Broadcast C R Event) where
  unfoldable pub new : ℕ → EventBus C R
  new capacity = record { sender = bc.channel capacity; tasks = [] }

  unfoldable pub publish : EventBus C R → Event → EventBus C R
  publish bus e = record bus { sender = bc.send bus.sender e }

  -- The task that a subscription spawns.
  unfoldable pub spawn : EventFilter → C → Subscription R
  spawn filter c = record {
    filter = filter;
    receiver = bc.subscribe c;
    handled = [];
    running = true;
  }

  -- The handle of a task is its position.
  unfoldable pub subscribe : EventBus C R → EventFilter → EventBus C R × ℕ
  unfolding spawn
  subscribe bus filter =
      (record bus { tasks = bus.tasks ++ spawn filter bus.sender ∷ [] }, length bus.tasks)

  unfoldable pub abort : EventBus C R → ℕ → EventBus C R
  unfolding stop
  abort bus handle = record bus { tasks = modify_at handle stop bus.tasks }

  -- One round of the loop of a task.
  unfoldable pub poll : C → Subscription R → Subscription R
  unfolding matches
  poll c task =
      if task.running
      then elim (bc.recv c task.receiver).0 [
        | received e ↦ record task {
          receiver = (bc.recv c task.receiver).1;
          handled = if matches task.filter e then task.handled ++ e ∷ [] else task.handled;
        }
        | lagged n ↦ record task { receiver = (bc.recv c task.receiver).1 }
        | closed ↦ record task { running = false }
        | pending ↦ task
      ]
      else task
