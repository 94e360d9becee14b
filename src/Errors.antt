-- ===== src/Errors.antt =====
-- crates/nyarix-error/src/lib.rs: the errors of modules, graphs and security. A message is kept as the
-- values that it is formatted from.
use Prim.Native.String.{String}
use nyarix_runtime.Base.{ℕ, List}
use nyarix_runtime.ModuleApi.Capability.{Capability}

pub data ModuleError : Type 0 where
  init_failed crashed : String → String → ModuleError
  api_mismatch : String → String → String → ModuleError
  missing_dependency : String → String → ModuleError
  circular_dependency : String → ModuleError
  quota_exceeded : String → String → ModuleError
  not_exclusively_owned : String → ModuleError

-- The reasons for which the graph code reports `GraphError::BuildFailed`.
pub data BuildReason : Type 0 where
  unreachable_exit orphaned queue_full queue_closed no_accepting_edge : ℕ → BuildReason
  ambiguous_insert : ℕ → ℕ → BuildReason
  ambiguous_reconnect : ℕ → ℕ → ℕ → BuildReason

pub data GraphError : Type 0 where
  cycle : List ℕ → GraphError
  missing_node : ℕ → GraphError
  build_failed : BuildReason → GraphError

-- What a sandbox violation is about.
pub data Violation : Type 0 where
  file_not_whitelisted : List ℕ → Violation
  network_not_whitelisted : ℕ → ℕ → Violation
  dns_not_whitelisted : ℕ → Violation
  rate_limit_exceeded : Violation

-- A module's name is a number here.
pub data SecurityError : Type 0 where
  capability_denied : ℕ → Capability → SecurityError
  signature_failed : ℕ → SecurityError
  insufficient_trust : ℕ → ℕ → ℕ → SecurityError
  sandbox_violation : ℕ → Violation → SecurityError
