-- ===== src/Graph/Parallel/Permits.antt =====
-- The permits of a parallel execution: how many branches run at once.
use Prim.Native.Nat.{max}
use nyarix_runtime.Base.{
  ℕ, zero, suc, ◌+◌, ◌-◌, ◌≤◌, ◌≡◌, refl, ◌∙◌, subst, inl, inr, List, [], ◌∷◌, Option, none, some,
  ok, err, arith, elem, retain, Bool-cases, Option-cases, Result-cases,
}
use nyarix_runtime.Base.Maps.{lookup}
use nyarix_runtime.Packet.{Packet}
use nyarix_runtime.Graph.Edge.{Edge, accepts}
use nyarix_runtime.Graph.Node.{GraphNode}
use nyarix_runtime.Graph.Queue.{try_send, try_recv_prioritized}
use nyarix_runtime.Graph.Flow.{FlowGraph, edges_from}
use nyarix_runtime.Graph.Execution.{Hopped, hopped, panicked, check_payload_limit}
use nyarix_runtime.Graph.Parallel.{
  Branch, waits_permit, enters, sends, receives, joins, returns, Branches, nil, cons, Shared,
  Surroundings, is_parallel, spawn_all, fork, ended, held, held_all, with_node, lane, step_on,
  receive, advance, Picked, first, later, Step, leaf, inner, joined, failed, StepIn, here, there,
  Reach, start, next, execute_parallel,
}

held-spawn_all : {C : Type 0} (p : Packet) (es : List (Edge C)) → held_all (spawn_all p es) ≡ 0
unfolding held held_all spawn_all
held-spawn_all p [] = refl
held-spawn_all p (e ∷ es) = omega (arith, held-spawn_all p es)

held-fork :
    {C : Type 0} (x : ℕ) (p : Packet) (par all : List (Edge C)) → held (fork x p par all) ≡ 1
unfolding held fork spawn_all
held-fork x p (e ∷ es) all = rw (held-spawn_all p es) refl
held-fork x p [] [] = refl
held-fork x p [] (e ∷ es) = refl

pub held_all-Picked :
    (b : Branch) (bs cs : Branches)
    → Picked b bs cs
    → held_all bs ≡ (held b - ended b) + held_all cs
unfolding held held_all ended
held_all-Picked b _ _ first = refl
held_all-Picked b _ _ (later {c} {bs} {cs} k) = omega (arith, held_all-Picked b bs cs k)

ended_le : (b : Branch) → ended b ≤ held b
unfolding ended held
ended_le (returns r) = omega arith
ended_le (waits_permit x p) = omega arith
ended_le (enters x p) = omega arith
ended_le (sends x p) = omega arith
ended_le (receives x) = omega arith
ended_le (joins bs results) = omega arith

module _ {M C : Type 0} (sur : Surroundings M C) where
  -- The permits in the semaphore and those held, after a transition.
  Holds : ℕ → Option (Shared M C × Branch) → Type 0
  Holds n none = Unit {0}
  Holds n (some (t, c)) = t.permits + held c ≡ n

  step_on-Holds :
      (s : Shared M C) (x : ℕ) (h : Hopped M C) → Holds (s.permits + 1) (step_on sur s x h)
  unfolding step_on Holds with_node held
  step_on-Holds s x panicked = tt
  step_on-Holds s x (hopped node (err e)) = refl
  step_on-Holds s x (hopped node (ok none)) = refl
  step_on-Holds s x (hopped node (ok (some p))) = elim (Bool-cases (elem x s.graph.exit_points)) [
    | inl on ↦ rw on refl
    | inr off ↦
        let accepting = retain (λ e. accepts sur.fl e p) (edges_from s.graph x) in
        rw (off, held-fork x p (retain is_parallel accepting) accepting) refl
  ]

  receive-Holds :
      (s : Shared M C) (x : ℕ) (node : GraphNode M C) → Holds (s.permits + 1) (receive sur s x node)
  unfolding receive Holds
  receive-Holds s x node = elim (Option-cases (try_recv_prioritized sur.ch node.queue)) [
    | inl e ↦ rw (e, receive) tt
    | inr ((queued, left), e) ↦ rw (e, receive) (step_on-Holds s x _)
  ]

  permit-Holds :
      (n : ℕ) (s : Shared M C) (x : ℕ) (p : Packet)
      → s.permits ≡ n
      → Holds (s.permits + 0) (advance sur s (waits_permit x p))
  unfolding advance Holds held
  permit-Holds zero s x p e = rw (e, advance) tt
  permit-Holds (suc n) s x p e = rw (e, advance) (omega arith)

  advance-Holds : (s : Shared M C) (b : Branch) → Holds (s.permits + held b) (advance sur s b)
  unfolding advance Holds held with_node
  advance-Holds s (waits_permit x p) = permit-Holds s.permits s x p refl
  advance-Holds s (enters x p) = elim (Option-cases (lookup x s.graph.nodes)) [
    | inl e ↦ rw (e, advance) refl
    | inr (node, e) ↦ elim (Result-cases (check_payload_limit sur.ops node p)) [
      | inl (u, r) ↦ rw (e, advance, r) refl
      | inr (x, r) ↦ rw (e, advance, r) refl
    ]
  ]
  advance-Holds s (sends x p) = elim (Option-cases (lookup x s.graph.nodes)) [
    | inl e ↦ rw (e, advance) refl
    | inr (node, e) ↦ elim (Option-cases (try_send sur.ch sur.fl node.queue p)) [
      | inr (q, r) ↦ rw (e, advance, r) refl
      | inl r ↦ elim (Bool-cases (sur.ch.is_open (lane sur node.queue p))) [
        | inl o ↦ rw (e, advance, r, o) tt
        | inr o ↦ rw (e, advance, r, o) refl
      ]
    ]
  ]
  advance-Holds s (receives x) = elim (Option-cases (lookup x s.graph.nodes)) [
    | inl e ↦ rw (e, advance) refl
    | inr (node, e) ↦ rw (e, advance) (receive-Holds s x node)
  ]
  advance-Holds s (joins nil results) = refl
  advance-Holds s (joins (cons b bs) results) = tt
  advance-Holds s (returns r) = tt

  moving : {s t : Shared M C} {b c : Branch} → Step sur s b t c → ended b ≡ 0
  unfolding advance ended
  moving {b = returns r} (leaf e) = absurd (cc e)
  moving {b = waits_permit x p} k = refl
  moving {b = enters x p} k = refl
  moving {b = sends x p} k = refl
  moving {b = receives x} k = refl
  moving {b = joins bs results} k = refl

  mutual
    unfolding held held_all Holds ended

    Step-held :
        {s t : Shared M C} {b c : Branch}
        → Step sur s b t c
        → t.permits + held c ≡ s.permits + held b
    Step-held {s} {t} {b} {c} (leaf e) = subst (Holds (s.permits + held b)) e (advance-Holds s b)
    Step-held (inner k) = omega (arith, StepIn-held k)
    Step-held (joined {s} {bs} {cs} {results} {packets} k) =
        omega (arith, held_all-Picked (returns (ok packets)) bs cs k)
    Step-held (failed {s} {bs} {cs} {results} {e} k) =
        omega (arith, held_all-Picked (returns (err e)) bs cs k)

    StepIn-held :
        {s t : Shared M C} {bs cs : Branches}
        → StepIn sur s bs t cs
        → t.permits + held_all cs ≡ s.permits + held_all bs
    StepIn-held (here {s} {t} {b} {c} k) = omega (arith, Step-held k, moving k, ended_le c)
    StepIn-held (there k) = omega (arith, StepIn-held k)

  pub Reach-same :
      {s : Shared M C} {b : Branch} {t : Shared M C} {c : Branch}
      → Reach sur s b t c
      → t.permits + held c ≡ s.permits + held b
  Reach-same start = refl
  Reach-same (next r k) = Step-held k ∙ Reach-same r

  start-held :
      (g : FlowGraph M C) (entry : ℕ) (p : Packet) (max_branches : ℕ)
      → held ((execute_parallel g entry p max_branches).1) ≡ 1
  unfolding execute_parallel held
  start-held g entry p n = elim (Bool-cases (elem entry g.entry_points)) [
    | inl on ↦ rw on refl
    | inr off ↦ rw off refl
  ]

  -- In every interleaving of the branches, the permits left and the branches that run add up to
  -- `max_concurrent_branches`, or one if this is zero, and one more, the branch of the call itself,
  -- which needs no permit.
  pub Reach-held :
      (g : FlowGraph M C) (entry : ℕ) (p : Packet) (max_branches : ℕ) {s : Shared M C} {b : Branch}
      → Reach sur
          (execute_parallel g entry p max_branches).0
          (execute_parallel g entry p max_branches).1
          s
          b
      → (s.permits + held b ≡ max max_branches 1 + 1) × (held b ≤ max max_branches 1 + 1)
  unfolding execute_parallel
  Reach-held g entry p n {s} {b} r =
      let same : s.permits + held b ≡ max n 1 + 1 =
        Reach-same r ∙ rw (start-held g entry p n) refl in
      (same, omega arith)
