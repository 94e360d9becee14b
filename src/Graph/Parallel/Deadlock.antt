-- ===== src/Graph/Parallel/Deadlock.antt =====
-- A fork below a fork when there is one permit.
use nyarix_runtime.Base.{ℕ, ◌+◌, ◌-◌, ◌≤◌, ◌≡◌, refl, ◌∙◌, ◌⊎◌, inl, inr, arith, List, err}
use nyarix_runtime.Packet.{Packet}
use nyarix_runtime.Graph.Flow.{FlowGraph}
use nyarix_runtime.Graph.Execution.{ExecutionError}
use nyarix_runtime.Graph.Parallel.Permits.{Reach-held, Reach-same}
use nyarix_runtime.Graph.Parallel.{
  Exited, Branch, Branches, waits_permit, enters, sends, receives, joins, returns, nil, cons,
  Shared, Surroundings, Picked, first, later, ended, held, held_all, advance, Step, StepIn, leaf,
  inner, joined, failed, here, there, Reach, start, next, execute_parallel,
}

-- Every task of the set waits for a permit.
pub data AllWaits : Branches → Type 0 where
  no_more : AllWaits nil
  one_more :
      {x : ℕ} {p : Packet} {bs : Branches} → AllWaits bs → AllWaits (cons (waits_permit x p) bs)

-- A task of the set has come to a fork, below which all tasks wait for a permit.
pub data HasFork : Branches → Type 0 where
  this :
      {b : Branch} {bs cs : Branches} {results : List Exited}
      → AllWaits (cons b bs)
      → HasFork (cons (joins (cons b bs) results) cs)
  other : {b : Branch} {cs : Branches} → HasFork cs → HasFork (cons b cs)

-- The branch is at a fork, below which a task has come to a fork.
pub data Nested : Branch → Type 0 where
  at_forks : {bs : Branches} {results : List Exited} → HasFork bs → Nested (joins bs results)

HasFork-held : (bs : Branches) → HasFork bs → 1 ≤ held_all bs
unfolding held held_all ended
HasFork-held _ (this w) = omega arith
HasFork-held _ (other {b} {cs} h) = omega (arith, HasFork-held cs h)

module _ {M C : Type 0} (sur : Surroundings M C) where
  -- Without a permit, a task that holds none does not move.
  idle :
      (s : Shared M C) (b : Branch) (t : Shared M C) (c : Branch)
      → s.permits ≡ 0
      → held b - ended b ≡ 0
      → ¬ Step sur s b t c
  unfolding advance held ended
  idle s (waits_permit x p) t c e h (leaf k) = absurd (cc (rw (e, advance) at k))
  idle s (returns r) t c e h (leaf k) = absurd (cc k)
  idle s (enters x p) t c e h k = absurd (omega (arith, h))
  idle s (sends x p) t c e h k = absurd (omega (arith, h))
  idle s (receives x) t c e h k = absurd (omega (arith, h))
  idle s (joins bs results) t c e h k = absurd (omega (arith, h))

  all_idle :
      (s : Shared M C) (bs : Branches) (t : Shared M C) (cs : Branches)
      → s.permits ≡ 0
      → held_all bs ≡ 0
      → ¬ StepIn sur s bs t cs
  unfolding held_all
  all_idle s nil t cs e h k = elim k [ ]
  all_idle s (cons b bs) _ _ e h (here {t} {c} k) = idle s b t c e (omega (arith, h)) k
  all_idle s (cons b bs) t _ e h (there {cs} k) = all_idle s bs t cs e (omega (arith, h)) k

  AllWaits-held : (bs : Branches) → AllWaits bs → held_all bs ≡ 0
  unfolding held held_all ended
  AllWaits-held _ no_more = refl
  AllWaits-held _ (one_more {bs} w) = omega (arith, AllWaits-held bs w)

  Picked-AllWaits : {r : _} (bs cs : Branches) → AllWaits bs → ¬ Picked (returns r) bs cs
  Picked-AllWaits _ cs no_more k = elim k [ ]
  Picked-AllWaits _ _ (one_more {bs} w) (later {cs} k) = Picked-AllWaits bs cs w k

  -- Nor does a task at a fork all of whose tasks wait.
  fork_stays :
      (s : Shared M C) (b : Branch) (bs : Branches) (results : List Exited) (t : Shared M C)
      (c : Branch)
      → s.permits ≡ 0
      → AllWaits (cons b bs)
      → ¬ Step sur s (joins (cons b bs) results) t c
  unfolding advance
  fork_stays s b bs results t c e w (leaf k) = absurd (cc k)
  fork_stays s b bs results t _ e w (inner {cs} k) =
      all_idle s (cons b bs) t cs e (AllWaits-held (cons b bs) w) k
  fork_stays s b bs results _ _ e w (joined {cs} k) = Picked-AllWaits (cons b bs) cs w k
  fork_stays s b bs results _ _ e w (failed {cs} k) = Picked-AllWaits (cons b bs) cs w k

  HasFork-stays :
      (s : Shared M C) (bs : Branches) (t : Shared M C) (cs : Branches)
      → s.permits ≡ 0
      → held_all bs ≤ 1
      → HasFork bs
      → ¬ StepIn sur s bs t cs
  unfolding held_all held ended
  HasFork-stays s _ _ _ e le (this {b} {bs} {results} w) (here {t} {c} k) =
      fork_stays s b bs results t c e w k
  HasFork-stays s _ t _ e le (this {cs} w) (there {cs = ds} k) =
      all_idle s cs t ds e (omega (arith, le)) k
  HasFork-stays s _ _ _ e le (other {b} {cs} h) (here {t} {c} k) =
      idle s b t c e (omega (arith, le, HasFork-held cs h)) k
  HasFork-stays s _ t _ e le (other {cs} h) (there {cs = ds} k) =
      HasFork-stays s cs t ds e (omega (arith, le)) h k

  HasFork-Picked : {r : _} (bs cs : Branches) → HasFork bs → Picked (returns r) bs cs → HasFork cs
  HasFork-Picked _ cs (other h) first = h
  HasFork-Picked _ _ (this w) (later k) = this w
  HasFork-Picked _ _ (other {cs = bs} h) (later {cs} k) = other (HasFork-Picked bs cs h k)

  -- A transition at nested forks.
  Nested-step :
      (s : Shared M C) (b : Branch) (t : Shared M C) (c : Branch)
      → s.permits + held b ≡ 2
      → Nested b
      → Step sur s b t c
      → ((t ≡ s) × Nested c) ⊎ ((e : ExecutionError) × (c ≡ returns (err e)))
  unfolding advance held
  Nested-step s _ t c total (at_forks (this w)) (leaf k) = absurd (cc k)
  Nested-step s _ t c total (at_forks (other h)) (leaf k) = absurd (cc k)
  Nested-step s _ t _ total (at_forks {bs} h) (inner {cs} k) =
      let one = HasFork-held bs h in
      let none_left : s.permits ≡ 0 = omega (arith, total, one) in
      absurd (HasFork-stays s bs t cs none_left (omega (arith, total)) h k)
  Nested-step s _ _ _ total (at_forks {bs} h) (joined {cs} k) =
      inl (refl, at_forks (HasFork-Picked bs cs h k))
  Nested-step s _ _ _ total (at_forks h) (failed {e} k) = inr (e, refl)

  no_permit : (s : Shared M C) (b : Branch) → s.permits + held b ≡ 2 → Nested b → s.permits ≡ 0
  unfolding held
  no_permit s _ total (at_forks {bs} h) = omega (arith, total, HasFork-held bs h)

  settled :
      (s : Shared M C) (b : Branch) (t : Shared M C) (c : Branch) (e : ExecutionError)
      → b ≡ returns (err e)
      → ¬ Step sur s b t c
  unfolding advance
  settled s b t c e is k = stays (rw is at k)
    where
      stays : ¬ Step sur s (returns (err e)) t c
      stays (leaf k) = absurd (cc k)

  -- Where `execute_parallel` was called for one branch at once, and is at a fork below which a task has
  -- come to a fork itself, no permit is left, and the call never returns packets: whatever
  -- transitions follow, it is still at such forks and the graph is the same, unless a task that had
  -- ended before with an error is joined.
  pub Reach-Nested :
      (g : FlowGraph M C) (entry : ℕ) (p : Packet) (n : ℕ)
      → n ≤ 1
      → {s t : Shared M C} {b c : Branch}
      → Reach sur (execute_parallel g entry p n).0 (execute_parallel g entry p n).1 s b
      → Nested b
      → Reach sur s b t c
      → ((t ≡ s) × (t.permits ≡ 0) × Nested c) ⊎ ((e : ExecutionError) × (c ≡ returns (err e)))
  Reach-Nested g entry p n le {s} {t} {b} {c} before nested after = go after
    where
      total : s.permits + held b ≡ 2
      total = omega (arith, (Reach-held sur g entry p n before).0, le)

      go :
          {t : Shared M C} {c : Branch}
          → Reach sur s b t c
          → ((t ≡ s) × (t.permits ≡ 0) × Nested c) ⊎ ((e : ExecutionError) × (c ≡ returns (err e)))
      go start = inl (refl, no_permit s b total nested, nested)
      go (next {t} {u} {c} {d} r k) = elim (go r) [
        | inr (e, ended_) ↦ absurd (settled t c u d e ended_ k)
        | inl (same, none_left, still) ↦
            elim (Nested-step t c u d (Reach-same sur r ∙ total) still k) [
              | inr failed_ ↦ inr failed_
              | inl (same', still') ↦ inl (same' ∙ same, rw same' none_left, still')
            ]
      ]
