-- ===== src/Graph/Validate/Report.antt =====
-- What the answer of `validate` says of the graph.
use nyarix_runtime.Base.{
  ℕ, ◌≡◌, refl, sym, ◌∙◌, ◌⊎◌, inl, inr, true, false, not, ◌&&◌, ◌||◌, List, [], ◌∷◌, Option, none,
  some, Result, ok, err, ◌==◌, any, elem, find_cases, arith, Bool-cases, List-cases, ==_iff,
  ==_refl,
}
use nyarix_runtime.Base.Maps.{keys, contains_key, elem-keys}
use nyarix_runtime.Base.Walks.{Reach, Route, Route-Reach}
use nyarix_runtime.Errors.{
  GraphError, missing_node, build_failed, unreachable_exit, orphaned, BuildReason,
}
use nyarix_runtime.Errors
use nyarix_runtime.Graph.Flow.{FlowGraph, targets}
use nyarix_runtime.Graph.Flow.Sync.{InSync}
use nyarix_runtime.Graph.Search.{Found, path, no_path, failed, find_path}
use nyarix_runtime.Graph.Search.Paths.{Linked, find_path-Answers}
use nyarix_runtime.Graph.Cycle.Marks.{IsCycle}
use nyarix_runtime.Graph.Cycle.Walking.{Dfs-cases}
use nyarix_runtime.Graph.Cycle.Detection.{detect_cycle-Verdict}
use nyarix_runtime.Graph.Cycle.{detect_cycle}
use nyarix_runtime.Graph.Validate.{
  is_path, reaches_an_exit, is_orphan, check_orphans, check_entries, validate,
}

module _ {M C : Type 0} (g : FlowGraph M C) where
  -- A walk leads from the entry to an exit, and both are nodes of the graph.
  abbrev pub Served : ℕ → Type 0
  Served entry =
      (exit : ℕ) × (elem exit g.exit_points ≡ true)
      × (contains_key entry g.nodes && contains_key exit g.nodes ≡ true)
      × Reach (Linked g) entry exit

  -- No edge leads to the node or out of it.
  abbrev pub Isolated : ℕ → Type 0
  Isolated id = (any (λ e. e.to == id) g.edges ≡ false) × ((v : ℕ) → ¬ Linked g id v)

  abbrev pub Acyclic : Type 0
  Acyclic = (c : List ℕ) → ¬ IsCycle g.adjacency g.allowed_feedback_edges c

  pub record Valid : Type 0 where
    pub acyclic : Acyclic
    pub served : (entry : ℕ) → elem entry g.entry_points ≡ true → Served entry
    pub joined :
        (id : ℕ)
        → contains_key id g.nodes ≡ true
        → (elem id g.entry_points || elem id g.exit_points) ≡ false
        → ¬ Isolated id

  -- What each answer says.
  abbrev pub Report : Option (Result (Unit {0}) GraphError) → Type 0
  Report (some (ok u)) = Valid
  Report (some (err (Errors.cycle c))) = IsCycle g.adjacency g.allowed_feedback_edges c
  Report (some (err (build_failed (unreachable_exit entry)))) =
      Acyclic × (elem entry g.entry_points ≡ true) × (¬ Served entry)
  Report (some (err (build_failed (orphaned id)))) =
      Acyclic
      × ((entry : ℕ) → elem entry g.entry_points ≡ true → Served entry)
      × (contains_key id g.nodes ≡ true)
      × ((elem id g.entry_points || elem id g.exit_points) ≡ false)
      × Isolated id
  Report (some (err _)) = ⊥
  Report none = ⊥

  Found-cases : (r : Found) → ((p : List ℕ) × (r ≡ path p)) ⊎ (r ≡ no_path) ⊎ (r ≡ failed)
  Found-cases (path p) = inl (p, refl)
  Found-cases no_path = inr (inl refl)
  Found-cases failed = inr (inr refl)

  is_path_lem :
      (from to : ℕ)
      → InSync g
      → ((is_path (find_path g from to) ≡ true)
          × (contains_key from g.nodes && contains_key to g.nodes ≡ true)
          × Reach (Linked g) from to)
        ⊎ ((is_path (find_path g from to) ≡ false)
            × ¬ (
                (contains_key from g.nodes && contains_key to g.nodes ≡ true)
                × Reach (Linked g) from to))
  is_path_lem from to v =
      let answers = find_path-Answers g from to v in
      elim (Found-cases (find_path g from to)) [
        | inl (p, e) ↦
            let (both, r) : (contains_key from g.nodes && contains_key to g.nodes ≡ true)
                × Route (Linked g) from to p =
              rw e at answers in
            inl (rw e refl, both, Route-Reach r)
        | inr (inl e) ↦ inr (rw e refl, refuted (rw e at answers))
        | inr (inr e) ↦ absurd (rw e at answers)
      ]
    where
      refuted :
          (contains_key from g.nodes && contains_key to g.nodes ≡ false)
            ⊎ (¬ Reach (Linked g) from to)
          → ¬ (
              (contains_key from g.nodes && contains_key to g.nodes ≡ true)
              × Reach (Linked g) from to)
      refuted (inl off) (both, r) = cc
      refuted (inr none_) (both, r) = none_ r

  any_exit :
      (entry : ℕ) (exits : List ℕ)
      → InSync g
      → ((any (λ exit. is_path (find_path g entry exit)) exits ≡ true)
          × ((exit : ℕ) × (elem exit exits ≡ true)
              × (contains_key entry g.nodes && contains_key exit g.nodes ≡ true)
              × Reach (Linked g) entry exit))
        ⊎ ((any (λ exit. is_path (find_path g entry exit)) exits ≡ false)
            × ((exit : ℕ)
                → elem exit exits ≡ true
                → ¬ (
                    (contains_key entry g.nodes && contains_key exit g.nodes ≡ true)
                    × Reach (Linked g) entry exit)))
  any_exit entry [] v = inr (refl, λ exit m h. cc)
  any_exit entry (x ∷ xs) v = elim (is_path_lem entry x v) [
    | inl (e, both, r) ↦ inl (rw e refl, (x, rw (==_refl x) refl, both, r))
    | inr (e, no_path_) ↦ elim (any_exit entry xs v) [
      | inl (a, (exit, m, both, r)) ↦ inl (rw (e, a) refl, (exit, ground arith, both, r))
      | inr (a, none_) ↦ inr (
        rw (e, a) refl,
        λ exit m h. elim (Bool-cases (x == exit)) [
          | inl same ↦ no_path_ (rw (← (==_iff x exit).0 same) at h)
          | inr other ↦ none_ exit (ground arith) h
        ],
      )
    ]
  ]

  is_orphan_lem :
      (id : ℕ)
      → InSync g
      → ((is_orphan g id ≡ true)
          × ((elem id g.entry_points || elem id g.exit_points) ≡ false)
          × Isolated id)
        ⊎ ((is_orphan g id ≡ false)
            × (((elem id g.entry_points || elem id g.exit_points) ≡ false) → ¬ Isolated id))
  is_orphan_lem id v = elim (Bool-cases (elem id g.entry_points || elem id g.exit_points)) [
    | inl at_end ↦ inr (rw at_end refl, λ out. cc)
    | inr inner ↦ elim (Bool-cases (any (λ e. e.to == id) g.edges)) [
      | inl into ↦ inr (rw (inner, into) refl, λ out iso. let (no_, _) = iso in cc)
      | inr none_into ↦ elim (List-cases (targets g.adjacency id)) [
        | inl e ↦ inl (
          rw (inner, none_into, e) refl,
          inner,
          (none_into, λ v' l. let l' : elem v' [] ≡ true = rw (← v.synced id, e) at l in cc),
        )
        | inr (t, ts, e) ↦ inr (
          rw (inner, none_into, e) refl,
          λ out iso. iso.1 t (rw (← v.synced id, e, ==_refl t) refl),
        )
      ]
    ]
  ]

  check_orphans-Report :
      InSync g
      → Acyclic
      → ((entry : ℕ) → elem entry g.entry_points ≡ true → Served entry)
      → Report (some (check_orphans g))
  unfolding check_orphans
  check_orphans-Report v a s = elim (find_cases (is_orphan g) (keys g.nodes)) [
    | inl (e, all) ↦
        rw (e, check_orphans)
          (record {
            acyclic = a;
            served = s;
            joined = λ id k out. elim (is_orphan_lem id v) [
              | inl (yes_, _, _) ↦
                  let no_ = all id (elem-keys id g.nodes ∙ k) in absurd (ground arith)
              | inr (_, h) ↦ h out
            ];
          })
    | inr (id, e, m, h) ↦
        rw (e, check_orphans)
          (elim (is_orphan_lem id v) [
            | inl (_, out, iso) ↦ (a, s, sym (elem-keys id g.nodes) ∙ m, out, iso)
            | inr (no_, _) ↦ absurd (ground arith)
          ])
  ]

  check_entries-Report : InSync g → Acyclic → Report (some (check_entries g))
  unfolding check_entries
  check_entries-Report v a =
      elim (find_cases (λ entry. not (reaches_an_exit g entry)) g.entry_points) [
        | inl (e, all) ↦
            rw (e, check_entries)
              (check_orphans-Report v a (λ entry m. elim (any_exit entry g.exit_points v) [
                | inl (_, s) ↦ s
                | inr (no_, _) ↦ let yes_ = all entry m in absurd (ground arith)
              ]))
        | inr (entry, e, m, h) ↦
            rw (e, check_entries)
              (
                a,
                m,
                elim (any_exit entry g.exit_points v) [
                  | inl (yes_, _) ↦ absurd (ground arith)
                  | inr (_, none_) ↦ λ s. let (exit, m, both, r) = s in none_ exit m (both, r)
                ],
              )
      ]

  -- On a graph whose adjacency index is in step with its edges, `validate` returns, and its answer is
  -- exact. No error: no cycle along edges that are not allowed feedback edges, from every entry point
  -- a walk leads to an exit point, both of them nodes, and no node that is neither is without edges.
  -- Otherwise one of these fails at the cycle, entry point or node that the error names, and those
  -- that are checked before it hold.
  pub validate-Report : InSync g → Report (validate g)
  unfolding validate
  validate-Report v =
      let verdict = detect_cycle-Verdict g v in
      elim (Dfs-cases (detect_cycle g)) [
        | inl (c, e) ↦ rw (e, validate) (rw e at verdict)
        | inr (inl (m, s, e)) ↦ rw (e, validate) (check_entries-Report v (rw e at verdict))
        | inr (inr e) ↦ absurd (rw e at verdict)
      ]
