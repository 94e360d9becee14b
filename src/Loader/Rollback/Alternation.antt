-- ===== src/Loader/Rollback/Alternation.antt =====
-- A rollback exchanges the active version of a package and the one before it.
use nyarix_runtime.Base.{
  ℕ, ◌≡◌, ◌≢◌, refl, inl, inr, List, [], ◌∷◌, none, some, Result, ok, err, ◌==◌, ==_iff,
  if◌then◌else◌, find, retain, get_elem?, arith, Bool-cases, Option-cases,
}
use nyarix_runtime.Loader.Rollback.{
  HistoryEntry, RollbackHistory, record_rollback, active_version, previous_version, Read, present,
  not_found, io_failed, ValidationReport, is_valid, RollbackError, judge, restore, rollback_package,
  no_active_version, no_previous_version,
}

-- The first entry of a package is the first of those retained for it.
find-retain :
    (name : ℕ) (es : List HistoryEntry)
    → find (λ e. e.name == name) es ≡ get_elem? (retain (λ e. e.name == name) es) 0
find-retain name [] = refl
find-retain name (e ∷ es) = ground (arith, find-retain name es)

-- The versions of a package after a rollback entry for `name`.
active-record_rollback :
    (now : ℕ) (h : RollbackHistory) (name version other : ℕ)
    → active_version (record_rollback now h name version) other
      ≡ (if name == other then some version else active_version h other)
unfolding active_version record_rollback
active-record_rollback now h name version other = ground arith

previous-record_rollback :
    (now : ℕ) (h : RollbackHistory) (name version other : ℕ)
    → previous_version (record_rollback now h name version) other
      ≡ (if name == other then active_version h other else previous_version h other)
unfolding active_version previous_version record_rollback
previous-record_rollback now h name version other = ground (arith, find-retain other h.entries)

-- What a call of `rollback_package` leaves: the versions of the named package exchanged, and those of
-- the others as they were; or everything as it was.
abbrev pub Switched :
    {K E : Type 0} → RollbackHistory → ℕ → RollbackHistory × Result ℕ (RollbackError K E) → Type 0
Switched h name (h', ok version) =
    (active_version h' name ≡ some version)
    × (previous_version h name ≡ some version)
    × (previous_version h' name ≡ active_version h name)
    × ((other : ℕ)
        → name ≢ other
        → (active_version h' other ≡ active_version h other)
          × (previous_version h' other ≡ previous_version h other))
Switched h name (h', err no_active_version) = (h' ≡ h) × (active_version h name ≡ none)
Switched h name (h', err no_previous_version) = (h' ≡ h) × (previous_version h name ≡ none)
Switched h name (h', err e) = h' ≡ h

module _ {D K E : Type 0} (read : ℕ → ℕ → Read D)
    (validate_package : D → Result (ValidationReport K) E) where
  judge-Switched :
      (now : ℕ) (h : RollbackHistory) (name previous : ℕ) (r : Result (ValidationReport K) E)
      → previous_version h name ≡ some previous
      → Switched h name (judge read validate_package now h name previous r)
  unfolding judge
  judge-Switched now h name previous (err e) p = refl
  judge-Switched now h name previous (ok report) p = elim (Bool-cases (is_valid report)) [
    | inr bad ↦ rw (bad, judge) refl
    | inl good ↦
        rw (good, judge)
          (
            ground (arith, active-record_rollback now h name previous name),
            p,
            ground (arith, previous-record_rollback now h name previous name),
            λ other ne. (
              ground (arith, active-record_rollback now h name previous other, ==_iff name other),
              ground (arith, previous-record_rollback now h name previous other, ==_iff name other),
            ),
          )
  ]

  restore-Switched :
      (now : ℕ) (h : RollbackHistory) (name previous : ℕ) (r : Read D)
      → previous_version h name ≡ some previous
      → Switched h name (restore read validate_package now h name previous r)
  unfolding restore
  restore-Switched now h name previous not_found p = refl
  restore-Switched now h name previous io_failed p = refl
  restore-Switched now h name previous (present d) p =
      judge-Switched now h name previous (validate_package d) p

  -- A rollback that succeeds makes the version before the active one active, and the active one the
  -- one before, so that a second one would lead back; the versions of every other package stay. A
  -- rollback that fails leaves the history as it was, and it reports a missing active or previous
  -- version only where there is none.
  pub rollback_package-Switched :
      (now : ℕ) (h : RollbackHistory) (name : ℕ)
      → Switched h name (rollback_package read validate_package now h name)
  unfolding rollback_package
  rollback_package-Switched now h name = elim (Option-cases (active_version h name)) [
    | inl e ↦ rw (e, rollback_package) (refl, e)
    | inr (a, e) ↦ elim (Option-cases (previous_version h name)) [
      | inl e' ↦ rw (e, rollback_package, e') (refl, e')
      | inr (p, e') ↦ rw (e, rollback_package, e') (restore-Switched now h name p _ e')
    ]
  ]
