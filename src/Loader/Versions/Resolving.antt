-- ===== src/Loader/Versions/Resolving.antt =====
-- What `resolve_versions` decides for each name that is required.
use nyarix_runtime.Base.{
  ℕ, zero, suc, ◌≡◌, ◌≢◌, refl, sym, ◌∙◌, ◌⊎◌, inl, inr, Bool, true, false, ◌||◌, List, [], ◌∷◌,
  ◌++◌, none, some, ◌==◌, ==_iff, elem, elem-append, arith, Bool-cases, Option-cases, get_elem?,
  retain, map,
}
use nyarix_runtime.Base.Maps.{Map, lookup, insert, keys, contains_key, elem-keys, lookup-insert}
use nyarix_runtime.Loader.Versions.Collecting.{AllEntries, wanted, collect_lem, collect-AllEntries}
use nyarix_runtime.Loader.Versions.{
  Semver, Manifest, Requirement, VersionConflict, ResolvedVersions, or_empty, collect, all_optional,
  satisfies_all, max_version, resolve_one, resolve_each, resolve_versions,
}

AllEntries-insert :
    {A : Type 0} (P : ℕ → A → Type 0) (k : ℕ) (v : A) (m : Map A)
    → P k v
    → AllEntries P m
    → AllEntries P (insert k v m)
AllEntries-insert P k v [] h a = (h, tt)
AllEntries-insert P k v ((j, w) ∷ m) h a = elim (Bool-cases (j == k)) [
  | inl same ↦ rw same (rw ((==_iff j k).0 same) h, a.1)
  | inr other ↦ rw other (a.0, AllEntries-insert P k v m h a.1)
]

-- What holds of every element.
abbrev pub AllOf : {A : Type 0} → (A → Type 0) → List A → Type 0
AllOf P [] = Unit {0}
AllOf P (x ∷ xs) = P x × AllOf P xs

pub AllOf-append :
    {A : Type 0} (P : A → Type 0) (xs : List A) (x : A) → AllOf P xs → P x → AllOf P (xs ++ x ∷ [])
AllOf-append P [] x a h = (h, tt)
AllOf-append P (y ∷ xs) x a h = (a.0, AllOf-append P xs x a.1 h)

module _ {V R : Type 0} (sv : Semver V R) where
  -- No version of the list satisfies every requirement.
  abbrev pub Unsatisfied : List V → List (Requirement R) → Type 0
  Unsatisfied vs reqs = (i : ℕ) (w : V) → get_elem? vs i ≡ some w → satisfies_all sv reqs w ≡ false

  -- The version is in the list and satisfies every requirement, and no newer one does.
  abbrev pub Best : List V → List (Requirement R) → V → Type 0
  Best vs reqs v =
      ((i : ℕ) × (get_elem? vs i ≡ some v))
      × (satisfies_all sv reqs v ≡ true)
      × ((i : ℕ) (w : V)
          → get_elem? vs i ≡ some w
          → satisfies_all sv reqs w ≡ true
          → sv.leq w v ≡ true)

  leq_refl : (v : V) → sv.leq v v ≡ true
  leq_refl v = elim (sv.leq-total v v) [ inl e ↦ e | inr e ↦ e ]

  max_version_lem :
      (reqs : List (Requirement R)) (vs : List V)
      → ((max_version sv (retain (satisfies_all sv reqs) vs) ≡ none) × Unsatisfied vs reqs)
        ⊎ ((v : V) × (max_version sv (retain (satisfies_all sv reqs) vs) ≡ some v) × Best vs reqs v)
  max_version_lem reqs [] = inl (refl, λ i w e. cc)
  max_version_lem reqs (x ∷ xs) = elim (Bool-cases (satisfies_all sv reqs x)) [
    | inr unfit ↦ elim (max_version_lem reqs xs) [
      | inl (e, no_) ↦ inl (rw unfit e, no_later unfit no_)
      | inr (v, e, ((i, g), fit, top)) ↦
          inr (v, rw unfit e, ((suc i, g), fit, top_later v top (λ f. cc)))
    ]
    | inl fits ↦ elim (max_version_lem reqs xs) [
      | inl (e, no_) ↦ inr (
        x,
        rw (fits, e) refl,
        ((zero, refl), fits, top_later x (λ i w g f. let n = no_ i w g in cc) (λ f. leq_refl x)),
      )
      | inr (v, e, ((i, g), fit, top)) ↦ elim (Bool-cases (sv.leq x v)) [
        | inl le ↦ inr (v, rw (fits, e, le) refl, ((suc i, g), fit, top_later v top (λ f. le)))
        | inr gt ↦ inr (
          x,
          rw (fits, e, gt) refl,
          (
            (zero, refl),
            fits,
            top_later x (λ j w h f. sv.leq-trans w v x (top j w h f) (below v gt))
                (λ f. leq_refl x),
          ),
        )
      ]
    ]
  ]
    where
      below : (v : V) → sv.leq x v ≡ false → sv.leq v x ≡ true
      below v gt = elim (sv.leq-total x v) [ inl e ↦ cc | inr e ↦ e ]

      no_later : satisfies_all sv reqs x ≡ false → Unsatisfied xs reqs → Unsatisfied (x ∷ xs) reqs
      no_later unfit no_ zero w e = let e' : x ≡ w = cc in rw (← e') unfit
      no_later unfit no_ (suc i) w e = no_ i w e

      top_later :
          (v : V)
          → ((i : ℕ) (w : V)
              → get_elem? xs i ≡ some w
              → satisfies_all sv reqs w ≡ true
              → sv.leq w v ≡ true)
          → (satisfies_all sv reqs x ≡ true → sv.leq x v ≡ true)
          → (i : ℕ) (w : V) → get_elem? (x ∷ xs) i ≡ some w
          → satisfies_all sv reqs w ≡ true
          → sv.leq w v ≡ true
      top_later v top first zero w e f = let e' : x ≡ w = cc in rw (← e') (first (rw e' f))
      top_later v top first (suc i) w e f = top i w e f

  module _ (xs : List (Manifest R)) (index : Map (List V)) where
    abbrev pub versions : ℕ → List V
    versions name = or_empty (lookup name index)

    -- Each name is decided rightly.
    pub record Decided (out : ResolvedVersions V R) : Type 0 where
      pub chosen : AllEntries (λ k v. Best (versions k) (wanted k xs) v) out.resolved
      pub refused :
          AllOf
            (λ (c : VersionConflict R).
              (c.requirements ≡ wanted c.name xs)
              × Unsatisfied (versions c.name) (wanted c.name xs)
              × (all_optional (wanted c.name xs) ≡ false))
            out.conflicts
      pub waived :
          AllOf
            (λ k. Unsatisfied (versions k) (wanted k xs) × (all_optional (wanted k xs) ≡ true))
            out.unavailable_optional

    -- The name has been decided.
    abbrev pub covers : ResolvedVersions V R → ℕ → Bool
    covers out k =
        contains_key k out.resolved
        || (elem k (map (λ c. c.name) out.conflicts) || elem k out.unavailable_optional)

    resolve_one-Decided :
        (name : ℕ) (out : ResolvedVersions V R)
        → Decided out
        → Decided (resolve_one sv (versions name) name (wanted name xs) out)
    unfolding resolve_one
    resolve_one-Decided name out d = elim (max_version_lem (wanted name xs) (versions name)) [
      | inr (v, e, best) ↦
          rw (e, resolve_one)
            (record {
              chosen =
                  AllEntries-insert (λ k v. Best (versions k) (wanted k xs) v) name v out.resolved
                    best d.chosen;
              refused = d.refused;
              waived = d.waived;
            })
      | inl (e, no_) ↦ elim (Bool-cases (all_optional (wanted name xs))) [
        | inl optional ↦
            rw (e, resolve_one, optional)
              (record {
                chosen = d.chosen;
                refused = d.refused;
                waived = AllOf-append _ out.unavailable_optional name d.waived (no_, optional);
              })
        | inr required ↦
            rw (e, resolve_one, required)
              (record {
                chosen = d.chosen;
                refused =
                    AllOf-append _ out.conflicts
                      (record { name = name; requirements = wanted name xs }) d.refused
                      (refl, no_, required);
                waived = d.waived;
              })
      ]
    ]

    names-append :
        (k : ℕ) (cs : List (VersionConflict R)) (c : VersionConflict R)
        → elem k (map (λ c. c.name) (cs ++ c ∷ []))
          ≡ (elem k (map (λ c. c.name) cs) || (c.name == k))
    names-append k [] c = ground arith
    names-append k (x ∷ cs) c = ground (arith, names-append k cs c)

    resolve_one-covers :
        (name : ℕ) (reqs : List (Requirement R)) (out : ResolvedVersions V R) (k : ℕ)
        → covers (resolve_one sv (versions name) name reqs out) k ≡ ((name == k) || covers out k)
    unfolding resolve_one
    resolve_one-covers name reqs out k =
        elim (Option-cases (max_version sv (retain (satisfies_all sv reqs) (versions name)))) [
          | inr (v, e) ↦ rw (e, resolve_one) (ground (arith, lookup-insert name k v out.resolved))
          | inl e ↦ elim (Bool-cases (all_optional reqs)) [
            | inl optional ↦
                rw (e, resolve_one, optional)
                  (ground (arith, elem-append k out.unavailable_optional (name ∷ [])))
            | inr required ↦
                rw (e, resolve_one, required)
                  (ground (
                    arith,
                    names-append k out.conflicts (record { name = name; requirements = reqs }),
                  ))
          ]
        ]

    resolve_each-covers :
        (rest : Map (List (Requirement R))) (out : ResolvedVersions V R) (k : ℕ)
        → covers (resolve_each sv index rest out) k ≡ (elem k (keys rest) || covers out k)
    unfolding resolve_each
    resolve_each-covers [] out k = refl
    resolve_each-covers ((name, reqs) ∷ rest) out k = ground (
      arith,
      resolve_each-covers rest (resolve_one sv (versions name) name reqs out) k,
      resolve_one-covers name reqs out k,
    )

    resolve_each-Decided :
        (rest : Map (List (Requirement R))) (out : ResolvedVersions V R)
        → AllEntries (λ k reqs. reqs ≡ wanted k xs) rest
        → Decided out
        → Decided (resolve_each sv index rest out)
    unfolding resolve_each
    resolve_each-Decided [] out a d = d
    resolve_each-Decided ((name, reqs) ∷ rest) out a d =
        resolve_each-Decided rest _ a.1 (rw a.0 (resolve_one-Decided name out d))

    -- Every name on which some manifest makes a requirement is decided: it is resolved, in conflict or
    -- unavailable. A resolved name has a version that is in the index, satisfies every requirement on
    -- that name, and is the highest that does. For a name in conflict no version in the index satisfies
    -- all of them and some of them are not optional; it comes with all of them in order. For an
    -- unavailable name no version satisfies all of them and they all are optional.
    pub resolve_versions-Decided :
        Decided (resolve_versions sv xs index)
        × ((k : ℕ) → wanted k xs ≢ [] → covers (resolve_versions sv xs index) k ≡ true)
    unfolding resolve_versions
    resolve_versions-Decided = (
      resolve_each-Decided (collect xs []) _ (collect-AllEntries xs)
          (record { chosen = tt; refused = tt; waived = tt }),
      λ k needed.
          resolve_each-covers (collect xs []) _ k ∙ elim (Option-cases (lookup k (collect xs []))) [
            | inl e ↦ absurd (needed (rw e at (sym (collect_lem k xs []))))
            | inr (reqs, e) ↦
                let there : elem k (keys (collect xs [])) ≡ true =
                  elem-keys k (collect xs []) ∙ rw e refl in
                rw there refl
          ],
    )
