-- ===== src/Runtime/Enforcement/Checked.antt =====
-- When a module is initialized, and what a refusal reports.
use nyarix_runtime.Base.{
  ℕ, ◌≡◌, refl, ap, ◌⊎◌, inl, inr, Bool, true, false, not, ◌&&◌, arith, List, [], ◌∷◌, ◌++◌, some,
  Result, ok, err, retain, Bool-cases,
}
use nyarix_runtime.Errors.{ModuleError, crashed, capability_denied}
use nyarix_runtime.ModuleApi.Capability.{MaskOps, Capability, has, request, is_fully_granted}
use nyarix_runtime.Runtime.Enforcement.{
  Attempt, returned, panicked, Loadable, EnforcementError, denied_by, instantiation,
  catch_module_panic, instantiate, source_of, sandboxed, refuse, enforce_and_instantiate,
}

module _ (mo : MaskOps) where
  -- The mask has every capability of the list.
  abbrev pub has_all : ℕ → List Capability → Bool
  has_all granted [] = true
  has_all granted (c ∷ cs) = has mo granted c && has_all granted cs

  -- `c` is the first capability of the list that the mask has not.
  pub record FirstDenied (granted : ℕ) (required : List Capability) (c : Capability) : Type 0 where
    pub earlier : List Capability
    pub later : List Capability
    pub split : required ≡ earlier ++ c ∷ later
    pub had : has_all granted earlier ≡ true
    pub denied : has mo granted c ≡ false

  abbrev denials : ℕ → List Capability → List Capability
  denials granted cs = retain (λ c. not (has mo granted c)) cs

  denials_cases :
      (granted : ℕ) (cs : List Capability)
      → ((has_all granted cs ≡ true) × (denials granted cs ≡ []))
        ⊎ ((c : Capability) × (rest : List Capability) × FirstDenied granted cs c
            × (denials granted cs ≡ c ∷ rest))
  denials_cases granted [] = inl (refl, refl)
  denials_cases granted (c ∷ cs) = elim (Bool-cases (has mo granted c)) [
    | inr e ↦ inr (
      c,
      denials granted cs,
      record { earlier = []; later = cs; split = refl; had = refl; denied = e },
      rw e refl,
    )
    | inl e ↦ elim (denials_cases granted cs) [
      | inl (all, none_left) ↦ inl (rw e all, rw e none_left)
      | inr (d, rest, first, found) ↦ inr (
        d,
        rest,
        record {
          earlier = c ∷ first.earlier;
          later = first.later;
          split = ap (◌∷◌ c) (first.split);
          had = rw e first.had;
          denied = first.denied;
        },
        rw e found,
      )
    ]
  ]

module _ {M : Type 0} (mo : MaskOps) (ops : Loadable M) where
  -- What `initialize` did, as the answer of the whole.
  abbrev pub answer_of : M → Attempt (Result M ModuleError) → Result M EnforcementError
  answer_of m (returned (ok m')) = ok m'
  answer_of m (returned (err e)) = err (instantiation (record { name = ops.name m; source = e }))
  answer_of m (panicked reason) =
      err (instantiation (record { name = ops.name m; source = crashed (ops.name m) reason }))

  sandboxed-answer_of : (m : M) → sandboxed mo ops m ≡ answer_of m (ops.initialize m)
  unfolding sandboxed catch_module_panic instantiate source_of
  sandboxed-answer_of m = by_answer (ops.initialize m) refl
    where
      by_answer :
          (r : Attempt (Result M ModuleError))
          → ops.initialize m ≡ r
          → sandboxed mo ops m ≡ answer_of m (ops.initialize m)
      by_answer (returned (ok m')) e = ground (arith, e)
      by_answer (returned (err x)) e = ground (arith, e)
      by_answer (panicked reason) e = ground (arith, e)

  -- Either the context grants every capability that the module requires, and the answer is that of
  -- `initialize`, a panic of it being an error; or the module is refused, whatever `initialize` would
  -- do, with the first of its capabilities that is not granted. The code itself never panics.
  pub enforce_and_instantiate-Denied :
      (granted : ℕ) (m : M)
      → ((has_all mo granted (ops.required_capabilities m) ≡ true)
          × (enforce_and_instantiate mo ops granted m ≡ some (answer_of m (ops.initialize m))))
        ⊎ ((c : Capability) × FirstDenied mo granted (ops.required_capabilities m) c
            × (enforce_and_instantiate mo ops granted m
                ≡ some (err (denied_by (capability_denied (ops.name_code m) c)))))
  unfolding enforce_and_instantiate request is_fully_granted refuse
  enforce_and_instantiate-Denied granted m =
      elim (denials_cases mo granted (ops.required_capabilities m)) [
        | inl (all, e) ↦ inl (all, rw e (ap some (sandboxed-answer_of m)))
        | inr (c, rest, first, e) ↦ inr (c, first, rw e refl)
      ]
