-- ===== src/ModuleApi/Event.antt =====
-- crates/nyarix-module-api/src/event.rs: the events and their filters. Names, texts, flows and sessions
-- are numbers.
pub mod Bus
pub mod Delivery
use nyarix_runtime.Base.{ℕ, Bool, true, false, ◌||◌, List, [], ◌∷◌, ◌==◌, any}
use nyarix_runtime.ModuleApi.Capability.{Capability}

-- `Health` of health.rs, with the reason that the two bad states give.
pub data Health : Type 0 where
  healthy : Health
  degraded unhealthy : ℕ → Health

pub data Event : Type 0 where
  module_loaded module_unloaded flow_built flow_changed : ℕ → Event
  handshake_started handshake_completed packet_dropped : ℕ → Event
  transport_switched : ℕ → ℕ → Event
  health_changed : ℕ → Health → Event
  rekey_started rekey_completed profile_applied : ℕ → Event
  health_degraded : ℕ → Health → Event
  health_restored update_available : ℕ → Event
  capability_denied : ℕ → Capability → Event
  custom : ℕ → Event

pub data EventKind : Type 0 where
  module_loaded module_unloaded flow_built flow_changed : EventKind
  handshake_started handshake_completed packet_dropped transport_switched : EventKind
  health_changed rekey_started rekey_completed profile_applied : EventKind
  health_degraded health_restored update_available capability_denied custom : EventKind

unfoldable pub kind : Event → EventKind
kind (module_loaded a) = module_loaded
kind (module_unloaded a) = module_unloaded
kind (flow_built a) = flow_built
kind (flow_changed a) = flow_changed
kind (handshake_started a) = handshake_started
kind (handshake_completed a) = handshake_completed
kind (packet_dropped a) = packet_dropped
kind (transport_switched a b) = transport_switched
kind (health_changed a b) = health_changed
kind (rekey_started a) = rekey_started
kind (rekey_completed a) = rekey_completed
kind (profile_applied a) = profile_applied
kind (health_degraded a b) = health_degraded
kind (health_restored a) = health_restored
kind (update_available a) = update_available
kind (capability_denied a b) = capability_denied
kind (custom a) = custom

-- The derived `==` on kinds compares the place in the declaration.
abbrev pub discriminant : EventKind → ℕ
discriminant module_loaded = 0
discriminant module_unloaded = 1
discriminant flow_built = 2
discriminant flow_changed = 3
discriminant handshake_started = 4
discriminant handshake_completed = 5
discriminant packet_dropped = 6
discriminant transport_switched = 7
discriminant health_changed = 8
discriminant rekey_started = 9
discriminant rekey_completed = 10
discriminant profile_applied = 11
discriminant health_degraded = 12
discriminant health_restored = 13
discriminant update_available = 14
discriminant capability_denied = 15
discriminant custom = 16

abbrev pub same_kind : EventKind → EventKind → Bool
same_kind k j = discriminant k == discriminant j

pub data EventFilter : Type 0 where
  all : EventFilter
  only : List EventKind → EventFilter

unfoldable pub matches : EventFilter → Event → Bool
unfolding kind
matches all e = true
matches (only kinds) e = any (λ k. same_kind k (kind e)) kinds
