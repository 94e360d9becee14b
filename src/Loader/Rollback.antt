-- ===== src/Loader/Rollback.antt =====
-- crates/nyarix-loader/src/rollback.rs, and the verdict of validation.rs that it reads. A package
-- name and a version are numbers; the times of the entries are given by the caller's clock.
pub mod Alternation
use nyarix_runtime.Base.{
  ℕ, suc, Bool, true, false, ◌&&◌, List, [], ◌∷◌, ◌++◌, Option, none, some, Result, ok, err, ◌==◌,
  if◌then◌else◌, find, retain, get_elem?, length,
}

pub data HistoryKind : Type 0 where
  installed rolled_back : HistoryKind

pub record HistoryEntry : Type 0 where
  pub name : ℕ
  pub version : ℕ
  pub kind : HistoryKind
  pub at : ℕ

-- The entries with the newest first: pushing is adding at the head, and the reversed iteration of the
-- source runs from the head.
pub record RollbackHistory : Type 0 where
  pub entries : List HistoryEntry

unfoldable pub record_install : ℕ → RollbackHistory → ℕ → ℕ → RollbackHistory
record_install now h name version = record {
  entries = record { name = name; version = version; kind = installed; at = now } ∷ h.entries;
}

unfoldable pub record_rollback : ℕ → RollbackHistory → ℕ → ℕ → RollbackHistory
record_rollback now h name version = record {
  entries = record { name = name; version = version; kind = rolled_back; at = now } ∷ h.entries;
}

abbrev pub version_of : Option HistoryEntry → Option ℕ
version_of none = none
version_of (some e) = some e.version

unfoldable pub active_version : RollbackHistory → ℕ → Option ℕ
active_version h name = version_of (find (λ e. e.name == name) h.entries)

unfoldable pub previous_version : RollbackHistory → ℕ → Option ℕ
previous_version h name = version_of (get_elem? (retain (λ e. e.name == name) h.entries) 1)

-- What reading an installed archive gives.
pub data Read (D : Type 0) : Type 0 where
  present : D → Read D
  not_found io_failed : Read D

-- `ValidationReport`, without the signature and the trust level, which `is_valid` leaves aside.
pub record ValidationReport (K : Type 0) : Type 0 where
  pub conflicts : List K
  pub platform_supported : Bool

unfoldable pub is_valid : {K : Type 0} → ValidationReport K → Bool
is_valid r = (length r.conflicts == 0) && r.platform_supported

pub data RollbackError (K E : Type 0) : Type 0 where
  io_error no_active_version no_previous_version missing_archive : RollbackError K E
  package_error : E → RollbackError K E
  incompatible : List K → RollbackError K E

module _ {D K E : Type 0} (read : ℕ → ℕ → Read D)
    (validate_package : D → Result (ValidationReport K) E) where
  -- The verdict on the archive, then the new entry.
  judge :
      ℕ
      → RollbackHistory
      → ℕ
      → ℕ
      → Result (ValidationReport K) E
      → RollbackHistory × Result ℕ (RollbackError K E)
  unfolding record_rollback is_valid
  judge now h name previous (err e) = (h, err (package_error e))
  judge now h name previous (ok report) =
      if is_valid report
      then (record_rollback now h name previous, ok previous)
      else (h, err (incompatible report.conflicts))

  restore : ℕ → RollbackHistory → ℕ → ℕ → Read D → RollbackHistory × Result ℕ (RollbackError K E)
  unfolding judge
  restore now h name previous not_found = (h, err missing_archive)
  restore now h name previous io_failed = (h, err io_error)
  restore now h name previous (present data_) = judge now h name previous (validate_package data_)

  -- The history after the call, and the version that is active now.
  unfoldable pub rollback_package :
      ℕ → RollbackHistory → ℕ → RollbackHistory × Result ℕ (RollbackError K E)
  unfolding restore active_version previous_version
  rollback_package now h name = elim (active_version h name) [
    | none ↦ (h, err no_active_version)
    | some active ↦ elim (previous_version h name) [
      | none ↦ (h, err no_previous_version)
      | some previous ↦ restore now h name previous (read name previous)
    ]
  ]
