-- ===== src/Loader/Versions/Collecting.antt =====
-- The requirements collected for each name.
use mathlib.Core.List.{append_assoc, append-nil}
use nyarix_runtime.Base.{
  ℕ, ◌≡◌, refl, sym, ◌∙◌, inl, inr, false, List, [], ◌∷◌, ◌++◌, some, ◌==◌, ==_iff, if◌then◌else◌,
  elem, arith, Bool-cases,
}
use nyarix_runtime.Base.Maps.{Map, lookup, insert, keys, elem-keys, lookup-insert}
use nyarix_runtime.Loader.Versions.{
  DependencySpec, Manifest, Requirement, or_empty, requirement, collect_dependencies, collect,
}

-- No key comes twice.
abbrev pub Distinct {ℓ} : {A : Type ℓ} → Map A → Type 0
Distinct [] = Unit {0}
Distinct ((k, v) ∷ m) = (elem k (keys m) ≡ false) × Distinct m

insert-Distinct {ℓ} :
    {A : Type ℓ} (k : ℕ) (v : A) (m : Map A) → Distinct m → Distinct (insert k v m)
insert-Distinct k v [] d = (refl, tt)
insert-Distinct k v ((j, w) ∷ m) d = elim (Bool-cases (j == k)) [
  | inl same ↦ rw same d
  | inr other ↦ rw other (
    ground (arith, elem-keys j (insert k v m), lookup-insert k j v m, elem-keys j m, d.0),
    insert-Distinct k v m d.1,
  )
]

-- What holds of every entry.
abbrev pub AllEntries {ℓ} : {A : Type ℓ} → (ℕ → A → Type 0) → Map A → Type 0
AllEntries P [] = Unit {0}
AllEntries P ((k, v) ∷ m) = P k v × AllEntries P m

AllEntries-found {ℓ} :
    {A : Type ℓ} (P : ℕ → A → Type 0) (m : Map A)
    → Distinct m
    → ((k : ℕ) (v : A) → lookup k m ≡ some v → P k v)
    → AllEntries P m
AllEntries-found P [] d h = tt
AllEntries-found P ((k, v) ∷ m) d h =
    (h k v (ground arith), AllEntries-found P m d.1 (λ j w e. h j w (skip j w e)))
  where
    skip : (j : ℕ) (w : _) → lookup j m ≡ some w → lookup j ((k, v) ∷ m) ≡ some w
    skip j w e = ground (arith, elem-keys k m, d.0, ==_iff k j)

module _ {R : Type 0} where
  -- The requirements that a table of dependencies makes on `name`.
  abbrev pub wanted_by : ℕ → ℕ → Map (DependencySpec R) → List (Requirement R)
  wanted_by name requirer [] = []
  wanted_by name requirer ((k, d) ∷ ds) =
      if k == name
      then requirement requirer d ∷ wanted_by name requirer ds
      else wanted_by name requirer ds

  -- The requirements that the manifests make on `name`, in their order.
  abbrev pub wanted : ℕ → List (Manifest R) → List (Requirement R)
  wanted name [] = []
  wanted name (x ∷ xs) = wanted_by name x.name x.dependencies ++ wanted name xs

  collect_dependencies_lem :
      (name requirer : ℕ) (ds : Map (DependencySpec R)) (m : Map (List (Requirement R)))
      → or_empty (lookup name (collect_dependencies requirer ds m))
        ≡ or_empty (lookup name m) ++ wanted_by name requirer ds
  collect_dependencies_lem name requirer [] m = sym (append-nil _)
  collect_dependencies_lem name requirer ((k, d) ∷ ds) m =
      collect_dependencies_lem name requirer ds _ ∙ elim (Bool-cases (k == name)) [
        | inl same ↦
            rw
              (
                lookup-insert k name (or_empty (lookup k m) ++ requirement requirer d ∷ []) m,
                same,
                (==_iff k name).0 same,
              )
              (append_assoc (or_empty (lookup name m)) (requirement requirer d ∷ [])
                (wanted_by name requirer ds))
        | inr other ↦
            rw
              (lookup-insert k name (or_empty (lookup k m) ++ requirement requirer d ∷ []) m, other)
              refl
      ]

  pub collect_lem :
      (name : ℕ) (xs : List (Manifest R)) (m : Map (List (Requirement R)))
      → or_empty (lookup name (collect xs m)) ≡ or_empty (lookup name m) ++ wanted name xs
  collect_lem name [] m = sym (append-nil _)
  collect_lem name (x ∷ xs) m =
      collect_lem name xs _
      ∙ rw (collect_dependencies_lem name x.name x.dependencies m) (
          append_assoc (or_empty (lookup name m)) (wanted_by name x.name x.dependencies)
            (wanted name xs))

  collect_dependencies-Distinct :
      (requirer : ℕ) (ds : Map (DependencySpec R)) (m : Map (List (Requirement R)))
      → Distinct m
      → Distinct (collect_dependencies requirer ds m)
  collect_dependencies-Distinct requirer [] m d = d
  collect_dependencies-Distinct requirer ((k, s) ∷ ds) m d =
      collect_dependencies-Distinct requirer ds _ (insert-Distinct k _ m d)

  collect-Distinct :
      (xs : List (Manifest R)) (m : Map (List (Requirement R)))
      → Distinct m
      → Distinct (collect xs m)
  collect-Distinct [] m d = d
  collect-Distinct (x ∷ xs) m d =
      collect-Distinct xs _ (collect_dependencies-Distinct x.name x.dependencies m d)

  -- Each name that is collected comes with the requirements that the manifests make on it.
  pub collect-AllEntries :
      (xs : List (Manifest R)) → AllEntries (λ k reqs. reqs ≡ wanted k xs) (collect xs [])
  collect-AllEntries xs =
      AllEntries-found (λ k reqs. reqs ≡ wanted k xs) (collect xs []) (collect-Distinct xs [] tt)
        (λ k reqs e. rw e at (collect_lem k xs []))
