-- ===== src/ModuleApi/IoPolicy.antt =====
-- crates/nyarix-module-api/src/io_policy.rs. A path is the list of its components, and a host a number.
use nyarix_runtime.Base.{
  ℕ, Bool, true, false, ◌&&◌, ◌==◌, List, [], ◌∷◌, ◌++◌, Option, none, some, any,
}

abbrev pub FilePath : Type 0
FilePath = List ℕ

-- `Path::starts_with` compares whole components.
abbrev pub starts_with : FilePath → FilePath → Bool
starts_with path [] = true
starts_with [] (c ∷ prefix) = false
starts_with (d ∷ path) (c ∷ prefix) = d == c && starts_with path prefix

pub record FilesystemPolicy : Type 0 where
  pub allowed_prefixes : List FilePath

-- `FilesystemPolicy::deny_all`.
abbrev pub no_files : FilesystemPolicy
no_files = record { allowed_prefixes = [] }

unfoldable pub allowing : List FilePath → FilesystemPolicy
allowing prefixes = record { allowed_prefixes = prefixes }

unfoldable pub allows_path : FilesystemPolicy → FilePath → Bool
allows_path policy path = any (λ prefix. starts_with path prefix) policy.allowed_prefixes

pub record NetworkPolicy : Type 0 where
  pub allowed : List (ℕ × Option ℕ)

-- `NetworkPolicy::deny_all`.
abbrev pub no_network : NetworkPolicy
no_network = record { allowed = [] }

unfoldable pub allow_host : NetworkPolicy → ℕ → NetworkPolicy
allow_host policy host = record policy { allowed = policy.allowed ++ (host, none) ∷ [] }

unfoldable pub allow_host_port : NetworkPolicy → ℕ → ℕ → NetworkPolicy
allow_host_port policy host port = record policy {
  allowed = policy.allowed ++ (host, some port) ∷ [];
}

-- `is_none_or(|allowed| allowed == port)`.
abbrev pub is_for_port : ℕ → Option ℕ → Bool
is_for_port port none = true
is_for_port port (some p) = p == port

unfoldable pub allows : NetworkPolicy → ℕ → ℕ → Bool
allows policy host port = any (λ e. e.0 == host && is_for_port port e.1) policy.allowed

unfoldable pub allows_host : NetworkPolicy → ℕ → Bool
allows_host policy host = any (λ e. e.0 == host) policy.allowed
