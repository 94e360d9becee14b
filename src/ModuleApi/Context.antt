-- ===== src/ModuleApi/Context.antt =====
-- crates/nyarix-module-api/src/context.rs. What a call changes through a lock is in the context that it
-- returns. The parts that are only handed on (configuration, platform, sandbox) are left out, and of
-- the metrics the counter event_rate, where a registry is attached. Names and hosts are numbers; `D` is
-- a handle on another module.
pub mod Access
pub mod Connections
use nyarix_runtime.Base.{
  ℕ, ◌+◌, ◌-◌, ◌%◌, ◌^◌, Bool, true, false, List, [], ◌∷◌, ◌++◌, Option, none, some, Result, ok,
  err, ltb, if◌then◌else◌,
}
use nyarix_runtime.Base.Maps.{Map, lookup, insert, adjust, contains_key}
use nyarix_runtime.Errors.{
  SecurityError, capability_denied, sandbox_violation, file_not_whitelisted,
  network_not_whitelisted, dns_not_whitelisted, rate_limit_exceeded,
}
use nyarix_runtime.ModuleApi.Capability.{
  MaskOps, Capability, filesystem, network, dns, privileged_sockets, CapabilityGrant, empty, has,
  request,
}
use nyarix_runtime.ModuleApi.IoPolicy.{
  FilePath, FilesystemPolicy, NetworkPolicy, no_files, no_network, allows_path, allows, allows_host,
}
use nyarix_runtime.ModuleApi.RateLimiter.{Floats, RateLimiter, try_acquire}
use nyarix_runtime.ModuleApi.Event.{Event, EventFilter}
use nyarix_runtime.ModuleApi.Event.Bus.{Broadcast, EventBus, publish, subscribe, abort}

pub record RuntimeContext (D C R : Type 0) : Type 0 where
  pub dependencies : Map D
  pub event_bus : Option (EventBus C R)
  pub event_rate : Option ℕ
  pub subscriptions : List ℕ
  pub granted_capabilities : ℕ
  pub filesystem_policy : FilesystemPolicy
  pub network_policy : NetworkPolicy
  pub io_rate_limiter : Option RateLimiter
  pub open_connections : Map ℕ

-- The fields of `ModuleMetadata` that the context reads.
pub record ModuleMetadata : Type 0 where
  pub name : ℕ
  pub required_capabilities : List Capability

-- The answer of a check, and the context after it.
abbrev pub Checked : Type 0 → Type 0
Checked K = K × Result (Unit {0}) SecurityError

-- `?` between two checks.
infixl 5 ◌then_check◌
abbrev pub ◌then_check◌ : {K : Type 0} → Checked K → (K → Checked K) → Checked K
(k, ok u) then_check f = f k
(k, err e) then_check f = (k, err e)

module _ {D C R : Type 0} where
  unfoldable pub with_event_bus : Map D → EventBus C R → RuntimeContext D C R
  with_event_bus dependencies bus = record {
    dependencies = dependencies;
    event_bus = some bus;
    event_rate = none;
    subscriptions = [];
    granted_capabilities = empty;
    filesystem_policy = no_files;
    network_policy = no_network;
    io_rate_limiter = none;
    open_connections = [];
  }

  -- `RuntimeContext::new`, and `empty` where there is no dependency.
  unfoldable pub new : Map D → RuntimeContext D C R
  new dependencies = record {
    dependencies = dependencies;
    event_bus = none;
    event_rate = none;
    subscriptions = [];
    granted_capabilities = empty;
    filesystem_policy = no_files;
    network_policy = no_network;
    io_rate_limiter = none;
    open_connections = [];
  }

  unfoldable pub with_granted_capabilities : RuntimeContext D C R → ℕ → RuntimeContext D C R
  with_granted_capabilities k granted = record k { granted_capabilities = granted }

  unfoldable pub with_filesystem_policy :
      RuntimeContext D C R → FilesystemPolicy → RuntimeContext D C R
  with_filesystem_policy k policy = record k { filesystem_policy = policy }

  unfoldable pub with_network_policy : RuntimeContext D C R → NetworkPolicy → RuntimeContext D C R
  with_network_policy k policy = record k { network_policy = policy }

  unfoldable pub with_io_rate_limiter : RuntimeContext D C R → RateLimiter → RuntimeContext D C R
  with_io_rate_limiter k limiter = record k { io_rate_limiter = some limiter }

  unfoldable pub check_rate_limit :
      Floats → ℕ → RuntimeContext D C R → ModuleMetadata → Checked (RuntimeContext D C R)
  unfolding try_acquire
  check_rate_limit fl now k m = elim k.io_rate_limiter [
    | none ↦ (k, ok tt)
    | some limiter ↦
        let k' = record k { io_rate_limiter = some ((try_acquire fl now limiter).0) } in
        if (try_acquire fl now limiter).1
        then (k', ok tt)
        else (k', err (sandbox_violation m.name rate_limit_exceeded))
  ]

  unfoldable pub track_connection_opened :
      RuntimeContext D C R → ModuleMetadata → RuntimeContext D C R
  track_connection_opened k m = elim (lookup m.name k.open_connections) [
    | none ↦ record k { open_connections = insert m.name 1 k.open_connections }
    | some count ↦ record k {
      open_connections = insert m.name ((count + 1) % 2 ^ 64) k.open_connections;
    }
  ]

  unfoldable pub track_connection_closed :
      RuntimeContext D C R → ModuleMetadata → RuntimeContext D C R
  track_connection_closed k m = record k {
    open_connections = adjust m.name (λ count. count - 1) k.open_connections;
  }

  unfoldable pub open_connection_count : RuntimeContext D C R → ℕ → ℕ
  open_connection_count k name = elim (lookup name k.open_connections) [
    | none ↦ 0
    | some count ↦ count
  ]

  unfoldable pub resolve_dependency : RuntimeContext D C R → ℕ → Option D
  resolve_dependency k name = lookup name k.dependencies

  unfoldable pub has_module : RuntimeContext D C R → ℕ → Bool
  has_module k name = contains_key name k.dependencies

module _ {D C R : Type 0} (mo : MaskOps) where
  unfoldable pub request_capabilities : RuntimeContext D C R → ModuleMetadata → CapabilityGrant
  unfolding request
  request_capabilities k m = request mo m.required_capabilities k.granted_capabilities

-- `counter.increment(1)`, if there is one.
abbrev counted : Option ℕ → Option ℕ
counted none = none
counted (some n) = some ((n + 1) % 2 ^ 64)

module _ {C R : Type 0} (bc : Broadcast C R Event) where
  unfoldable pub abort_all : List ℕ → EventBus C R → EventBus C R
  unfolding abort
  abort_all [] bus = bus
  abort_all (handle ∷ handles) bus = abort_all handles (abort bc bus handle)

module _ {D C R : Type 0} (bc : Broadcast C R Event) where
  unfoldable pub emit_event : RuntimeContext D C R → Event → RuntimeContext D C R
  unfolding publish
  emit_event k e = elim k.event_bus [
    | none ↦ record k { event_rate = counted k.event_rate }
    | some bus ↦ record k { event_rate = counted k.event_rate; event_bus = some (publish bc bus e) }
  ]

  unfoldable pub on_event : RuntimeContext D C R → EventFilter → RuntimeContext D C R × Bool
  unfolding subscribe
  on_event k filter = elim k.event_bus [
    | none ↦ (k, false)
    | some bus ↦
        let s = subscribe bc bus filter in
        (record k { event_bus = some s.0; subscriptions = k.subscriptions ++ s.1 ∷ [] }, true)
  ]

  unfoldable pub cancel_subscriptions : RuntimeContext D C R → RuntimeContext D C R
  unfolding abort_all
  cancel_subscriptions k = elim k.event_bus [
    | none ↦ record k { subscriptions = [] }
    | some bus ↦ record k {
      event_bus = some (abort_all bc k.subscriptions bus);
      subscriptions = [];
    }
  ]

module _ {D C R : Type 0} (mo : MaskOps) (bc : Broadcast C R Event) where
  unfoldable pub request_capability :
      Capability → RuntimeContext D C R → ModuleMetadata → Checked (RuntimeContext D C R)
  unfolding has emit_event
  request_capability c k m =
      if has mo k.granted_capabilities c
      then (k, ok tt)
      else (emit_event bc k (Event.capability_denied m.name c), err (capability_denied m.name c))

  unfoldable pub check_file_access :
      Floats → ℕ → FilePath → RuntimeContext D C R → ModuleMetadata → Checked (RuntimeContext D C R)
  unfolding request_capability check_rate_limit allows_path
  check_file_access fl now path k m =
      request_capability filesystem k m
      then_check (λ k. check_rate_limit fl now k m)
      then_check (λ k.
          if allows_path k.filesystem_policy path
          then (k, ok tt)
          else (k, err (sandbox_violation m.name (file_not_whitelisted path))))

  unfoldable pub check_network_access :
      Floats → ℕ → ℕ → ℕ → RuntimeContext D C R → ModuleMetadata → Checked (RuntimeContext D C R)
  unfolding request_capability check_rate_limit allows
  check_network_access fl now host port k m =
      request_capability network k m then_check (λ k. check_rate_limit fl now k m) then_check (λ k.
        if allows k.network_policy host port
        then (k, ok tt)
        else (k, err (sandbox_violation m.name (network_not_whitelisted host port))))

  unfoldable pub check_dns_resolve :
      Floats → ℕ → ℕ → RuntimeContext D C R → ModuleMetadata → Checked (RuntimeContext D C R)
  unfolding request_capability check_rate_limit allows_host
  check_dns_resolve fl now host k m =
      request_capability dns k m then_check (λ k. check_rate_limit fl now k m) then_check (λ k.
        if allows_host k.network_policy host
        then (k, ok tt)
        else (k, err (sandbox_violation m.name (dns_not_whitelisted host))))

  unfoldable pub check_bind_access :
      Floats → ℕ → ℕ → RuntimeContext D C R → ModuleMetadata → Checked (RuntimeContext D C R)
  unfolding request_capability check_rate_limit
  check_bind_access fl now port k m =
      request_capability network k m
      then_check (λ k.
          if ltb port 1024 then request_capability privileged_sockets k m else (k, ok tt))
      then_check (λ k. check_rate_limit fl now k m)
