-- ===== src/Loader/Conflicts/Grounds.antt =====
-- Why each conflict is reported, and which conflicts are.
use nyarix_runtime.Base.{
  ℕ, zero, suc, ◌≡◌, ◌≢◌, refl, ap, ◌⊎◌, inl, inr, true, false, List, [], ◌∷◌, ◌++◌, some, map,
  get_elem?, Bool-cases, List-cases, elem, ◌==◌, ==_iff, arith,
}
use nyarix_runtime.Base.Maps.{Map, lookup, contains_key}
use nyarix_runtime.ModuleApi.Versioning.{ApiVersion, is_compatible}
use nyarix_runtime.Loader.Versions.Collecting.{wanted, AllEntries}
use nyarix_runtime.Loader.Versions.Resolving.{AllOf, Unsatisfied, covers, resolve_versions-Decided}
use nyarix_runtime.Loader.Versions.{
  Semver, Manifest, VersionConflict, or_empty, all_optional, resolve_versions,
}
use nyarix_runtime.Loader.Conflicts.{
  Conflict, incompatible_versions, missing_dependency, incompatible_api_version, categorize,
  categorize_all, api_conflicts, detect_conflicts,
}

AllOf-concat :
    {A : Type 0} (P : A → Type 0) (xs ys : List A) → AllOf P xs → AllOf P ys → AllOf P (xs ++ ys)
AllOf-concat P [] ys a b = b
AllOf-concat P (x ∷ xs) ys a b = (a.0, AllOf-concat P xs ys a.1 b)

AllEntries-at :
    {A : Type 0} (P : ℕ → A → Type 0) (k : ℕ) (m : Map A)
    → contains_key k m ≡ true
    → AllEntries P m
    → (v : A) × P k v
AllEntries-at P k [] h a = absurd cc
AllEntries-at P k ((j, w) ∷ m) h a = elim (Bool-cases (j == k)) [
  | inl same ↦ (w, rw (← (==_iff j k).0 same) (a.0))
  | inr other ↦ AllEntries-at P k m (ground (arith, h, other)) a.1
]

AllOf-elem : (P : ℕ → Type 0) (k : ℕ) (xs : List ℕ) → elem k xs ≡ true → AllOf P xs → P k
AllOf-elem P k [] h a = absurd cc
AllOf-elem P k (x ∷ xs) h a = elim (Bool-cases (x == k)) [
  | inl same ↦ rw (← (==_iff x k).0 same) (a.0)
  | inr other ↦ AllOf-elem P k xs (ground (arith, h, other)) a.1
]

module _ {V R : Type 0} (sv : Semver V R) (xs : List (Manifest R)) (index : Map (List V))
    (required : ApiVersion) where
  -- The grounds of a conflict.
  abbrev pub Grounded : Conflict R → Type 0
  Grounded (missing_dependency name requirers) =
      (or_empty (lookup name index) ≡ [])
      × (requirers ≡ map (λ r. r.requirer) (wanted name xs))
      × (all_optional (wanted name xs) ≡ false)
  Grounded (incompatible_versions name reqs) =
      (or_empty (lookup name index) ≢ [])
      × (reqs ≡ wanted name xs)
      × Unsatisfied sv (or_empty (lookup name index)) (wanted name xs)
      × (all_optional (wanted name xs) ≡ false)
  Grounded (incompatible_api_version name wants declares) =
      (wants ≡ required)
      × (is_compatible required declares ≡ false)
      × ((i : ℕ) × (m : Manifest R) × (get_elem? xs i ≡ some m)
          × (m.name ≡ name)
          × (m.api_version ≡ declares))

  abbrev Refused : VersionConflict R → Type 0
  Refused c =
      (c.requirements ≡ wanted c.name xs)
      × Unsatisfied sv (or_empty (lookup c.name index)) (wanted c.name xs)
      × (all_optional (wanted c.name xs) ≡ false)

  categorize-Grounded :
      (c : VersionConflict R) → Refused c → Grounded (categorize (or_empty (lookup c.name index)) c)
  categorize-Grounded c (same, none_, needed) = elim (List-cases (or_empty (lookup c.name index))) [
    | inl e ↦ rw e (e, rw same refl, needed)
    | inr (v, vs, e) ↦ rw e (λ e'. cc, same, none_, needed)
  ]

  categorize_all-Grounded :
      (cs : List (VersionConflict R)) → AllOf Refused cs → AllOf Grounded (categorize_all index cs)
  categorize_all-Grounded [] a = tt
  categorize_all-Grounded (c ∷ cs) a = (categorize-Grounded c a.0, categorize_all-Grounded cs a.1)

  api_conflicts-Grounded :
      (ms : List (Manifest R))
      → ((i : ℕ) (m : Manifest R) → get_elem? ms i ≡ some m → (j : ℕ) × (get_elem? xs j ≡ some m))
      → AllOf Grounded (api_conflicts required ms)
  unfolding api_conflicts
  api_conflicts-Grounded [] there = tt
  api_conflicts-Grounded (m ∷ ms) there =
      let rest = api_conflicts-Grounded ms (λ i n e. there (suc i) n e) in
      elim (Bool-cases (is_compatible required m.api_version)) [
        | inl fine ↦ rw (fine, api_conflicts) rest
        | inr clash ↦
            let (j, e) = there zero m refl in
            rw (clash, api_conflicts) ((refl, clash, (j, m, e, refl, refl)), rest)
      ]

  -- The list has a conflict of the name.
  abbrev pub Reported : ℕ → List (Conflict R) → Type 0
  Reported name [] = ⊥
  Reported name (missing_dependency n requirers ∷ cs) = (n ≡ name) ⊎ Reported name cs
  Reported name (incompatible_versions n reqs ∷ cs) = (n ≡ name) ⊎ Reported name cs
  Reported name (incompatible_api_version n wants declares ∷ cs) = Reported name cs

  Reported-concat :
      (name : ℕ) (cs ds : List (Conflict R)) → Reported name cs → Reported name (cs ++ ds)
  Reported-concat name [] ds r = absurd r
  Reported-concat name (missing_dependency n requirers ∷ cs) ds (inl e) = inl e
  Reported-concat name (missing_dependency n requirers ∷ cs) ds (inr r) =
      inr (Reported-concat name cs ds r)
  Reported-concat name (incompatible_versions n reqs ∷ cs) ds (inl e) = inl e
  Reported-concat name (incompatible_versions n reqs ∷ cs) ds (inr r) =
      inr (Reported-concat name cs ds r)
  Reported-concat name (incompatible_api_version n wants declares ∷ cs) ds r =
      Reported-concat name cs ds r

  categorize_all-Reported :
      (name : ℕ) (cs : List (VersionConflict R))
      → elem name (map (λ c. c.name) cs) ≡ true
      → Reported name (categorize_all index cs)
  categorize_all-Reported name [] h = absurd cc
  categorize_all-Reported name (c ∷ cs) h = elim (Bool-cases (c.name == name)) [
    | inl e ↦ first (or_empty (lookup c.name index)) (inl ((==_iff c.name name).0 e))
    | inr e ↦
        first (or_empty (lookup c.name index)) (inr (categorize_all-Reported name cs (rw e at h)))
  ]
    where
      first :
          (vs : List V)
          → (c.name ≡ name) ⊎ Reported name (categorize_all index cs)
          → Reported name (categorize vs c ∷ categorize_all index cs)
      first [] r = r
      first (v ∷ vs) r = r

  -- A name that was decided, and is neither resolved nor waived, is in conflict.
  refused_name :
      (k : ℕ)
      → Unsatisfied sv (or_empty (lookup k index)) (wanted k xs)
      → all_optional (wanted k xs) ≡ false
      → elem k (map (λ c. c.name) (resolve_versions sv xs index).conflicts) ≡ true
  refused_name k none_ needed =
      let (decided, all_covered) = resolve_versions-Decided sv xs index in
      let some_wanted : wanted k xs ≢ [] = λ e. cc (ap all_optional e, needed) in
      let covered : covers sv xs index (resolve_versions sv xs index) k ≡ true =
        all_covered k some_wanted in
      elim (Bool-cases (contains_key k (resolve_versions sv xs index).resolved)) [
        | inl there ↦
            let (v, ((i, at), fits, top)) =
              AllEntries-at _ k (resolve_versions sv xs index).resolved there decided.chosen in
            absurd (cc (none_ i v at, fits))
        | inr gone ↦
            elim (Bool-cases (elem k (resolve_versions sv xs index).unavailable_optional)) [
              | inl there ↦
                  let (unfit, waived) =
                    AllOf-elem _ k (resolve_versions sv xs index).unavailable_optional there
                      decided.waived in
                  absurd (cc (waived, needed))
              | inr gone' ↦ ground (arith, covered, gone, gone')
            ]
      ]

  api_conflicts-found :
      (ms : List (Manifest R)) (i : ℕ) (m : Manifest R)
      → get_elem? ms i ≡ some m
      → is_compatible required m.api_version ≡ false
      → (j : ℕ) × (get_elem? (api_conflicts required ms) j
          ≡ some (incompatible_api_version m.name required m.api_version))
  unfolding api_conflicts
  api_conflicts-found [] i m e clash = absurd cc
  api_conflicts-found (x ∷ ms) zero m e clash =
      let same : x ≡ m = cc in rw (same, clash, api_conflicts) (zero, refl)
  api_conflicts-found (x ∷ ms) (suc i) m e clash =
      let (j, found) = api_conflicts-found ms i m e clash in
      elim (Bool-cases (is_compatible required x.api_version)) [
        | inl fine ↦ rw (fine, api_conflicts) (j, found)
        | inr bad ↦ rw (bad, api_conflicts) (suc j, found)
      ]

  get_elem?-after :
      {A : Type 0} (ys zs : List A) (j : ℕ) (z : A)
      → get_elem? zs j ≡ some z
      → (k : ℕ) × (get_elem? (ys ++ zs) k ≡ some z)
  get_elem?-after [] zs j z e = (j, e)
  get_elem?-after (y ∷ ys) zs j z e = let (k, found) = get_elem?-after ys zs j z e in (suc k, found)

  -- Every conflict that is reported has its grounds. A missing dependency: the index has no version
  -- of the name, and its requirers are those that name it, of which some do not mark it optional.
  -- Incompatible versions: the index has some, but none satisfies every requirement, and the conflict
  -- comes with all of them. An incompatible API version: it is that of one of the manifests, and not
  -- compatible with the version required. And every conflict is reported: one for each name with a
  -- requirement that is not optional, of which no version in the index satisfies every requirement,
  -- and one for each manifest whose API version is not compatible.
  pub detect_conflicts-Grounded :
      AllOf Grounded (detect_conflicts sv xs index required)
      × ((name : ℕ)
          → Unsatisfied sv (or_empty (lookup name index)) (wanted name xs)
          → all_optional (wanted name xs) ≡ false
          → Reported name (detect_conflicts sv xs index required))
      × ((i : ℕ) (m : Manifest R)
          → get_elem? xs i ≡ some m
          → is_compatible required m.api_version ≡ false
          → (j : ℕ) × (get_elem? (detect_conflicts sv xs index required) j
              ≡ some (incompatible_api_version m.name required m.api_version)))
  unfolding detect_conflicts
  detect_conflicts-Grounded =
      let decided = (resolve_versions-Decided sv xs index).0 in
      let found = (resolve_versions sv xs index).conflicts in
      (
        AllOf-concat Grounded (categorize_all index found) (api_conflicts required xs)
            (categorize_all-Grounded found decided.refused)
            (api_conflicts-Grounded xs (λ i m e. (i, e))),
        λ name none_ needed.
            Reported-concat name (categorize_all index found) (api_conflicts required xs)
              (categorize_all-Reported name found (refused_name name none_ needed)),
        λ i m e clash.
            let (j, there) = api_conflicts-found xs i m e clash in
            get_elem?-after (categorize_all index found) (api_conflicts required xs) j _ there,
      )
