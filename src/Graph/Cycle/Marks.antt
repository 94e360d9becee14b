-- ===== src/Graph/Cycle/Marks.antt =====
-- The relation that the depth-first search follows, and its invariants.
use mathlib.Core.WellFounded.{Acc}
use nyarix_runtime.Base.{
  ℕ, suc, ◌≤◌, ◌≡◌, subst, ◌⊎◌, inl, inr, true, false, List, [], ◌∷◌, ◌++◌, some, arith, ◌==◌,
  ==_iff, length, elem, position, drop, Bool-cases, length-append,
}
use nyarix_runtime.Base.Maps.{Map, lookup}
use nyarix_runtime.Base.Walks.{Route, stop, hop}
use nyarix_runtime.Graph.Flow.{targets}
use nyarix_runtime.Graph.Cycle.{DfsMark, visiting, visited, is_feedback, or_zero, cycle_from}

pub Route-concat :
    {E : ℕ → ℕ → Type 0} {u w x : ℕ} {p : List ℕ}
    → Route E u w p
    → E w x
    → Route E u x (p ++ x ∷ [])
Route-concat {x = x} (stop u) e = hop e (stop x)
Route-concat (hop d r) e = hop d (Route-concat r e)

position-elem :
    (n : ℕ) (p : List ℕ) → elem n p ≡ true → (i : ℕ) × (position (λ x. x == n) p ≡ some i)
position-elem n [] m = cc
position-elem n (x ∷ p) m = elim (Bool-cases (x == n)) [
  | inl hit ↦ (0, rw hit)
  | inr miss ↦ let (i, e) = position-elem n p (ground arith) in (suc i, rw (miss, e))
]

-- A walk passes through each of its nodes: from the first position of `n` on it is a walk from `n`.
pub Route-drop :
    {E : ℕ → ℕ → Type 0} {u w : ℕ} {p : List ℕ} (n : ℕ)
    → Route E u w p
    → elem n p ≡ true
    → Route E n w (drop (or_zero (position (λ x. x == n) p)) p)
Route-drop {E} n (stop u) m =
    let hit : (u == n) ≡ true = ground arith in
    rw hit (subst (λ x. Route E x u (u ∷ [])) ((==_iff u n).0 hit) (stop u))
Route-drop {E} {w = w} {p = q} n (hop {u} {v} {p = p} d r) m = elim (Bool-cases (u == n)) [
  | inl hit ↦ rw hit (subst (λ x. Route E x w (u ∷ p)) ((==_iff u n).0 hit) (hop d r))
  | inr miss ↦
      let (i, e) = position-elem n p (ground arith) in
      rw (miss, e) (rw e at (Route-drop n r (ground arith)))
]

-- Two nodes at least: a cycle repeats its first node at its end.
pub length-Route-concat :
    {E : ℕ → ℕ → Type 0} {u w : ℕ} {p : List ℕ} (x : ℕ) → Route E u w p → 2 ≤ length (p ++ x ∷ [])
length-Route-concat x (stop u) = omega arith
length-Route-concat x (hop {p = p} d r) = omega (arith, length-append p (x ∷ []))

-- Every node in progress is on the stack.
abbrev pub OnStack : Map DfsMark → List ℕ → Type 0
OnStack m s = (k : ℕ) → lookup k m ≡ some visiting → elem k s ≡ true

-- The marks may only grow, and no node is left in progress that was not in progress before.
pub record Grows (m m' : Map DfsMark) : Type 0 where
  pub kept : (k : ℕ) (x : DfsMark) → lookup k m ≡ some x → lookup k m' ≡ some x
  pub settled : (k : ℕ) → lookup k m' ≡ some visiting → lookup k m ≡ some visiting

pub Grows-refl : (m : Map DfsMark) → Grows m m
Grows-refl m = record { kept = λ k x e. e; settled = λ k e. e }

pub Grows-trans : (l m n : Map DfsMark) → Grows l m → Grows m n → Grows l n
Grows-trans l m n g h = record {
  kept = λ k x e. h.kept k x (g.kept k x e);
  settled = λ k e. g.settled k (h.settled k e);
}

module _ (a : Map (List ℕ)) (allowed : List (ℕ × ℕ)) where
  -- An edge in the adjacency index that is not marked as feedback.
  abbrev pub Follows : ℕ → ℕ → Type 0
  Follows u v = (elem v (targets a u) ≡ true) × (is_feedback allowed u v ≡ false)

  -- No walk out of the node goes on for ever.
  abbrev pub Safe : ℕ → Type 0
  Safe u = Acc (λ v w. Follows w v) u

  -- Every node that is done is safe.
  abbrev pub AllSafe : Map DfsMark → Type 0
  AllSafe m = (k : ℕ) → lookup k m ≡ some visited → Safe k

  -- A list that is a walk along followed edges back to its first node.
  abbrev pub IsCycle : List ℕ → Type 0
  IsCycle c = (u : ℕ) × Route Follows u u c × (2 ≤ length c)

  -- The stack is a walk, and its top leads to `node`; or it is empty.
  abbrev pub Above : List ℕ → ℕ → Type 0
  Above s node = (s ≡ []) ⊎ ((b : ℕ) × (t : ℕ) × Route Follows b t s × Follows t node)

  pub push-Route :
      (s : List ℕ) (node : ℕ) → Above s node → (b : ℕ) × Route Follows b node (s ++ node ∷ [])
  push-Route s node (inl e) = (node, rw e (stop node))
  push-Route s node (inr (b, t, r, f)) = (b, Route-concat r f)

  pub cycle_from-IsCycle :
      (s : List ℕ) (b node next : ℕ)
      → Route Follows b node s
      → Follows node next
      → elem next s ≡ true
      → IsCycle (cycle_from s next)
  cycle_from-IsCycle s b node next r f m =
      let loop = Route-drop next r m in (next, Route-concat loop f, length-Route-concat next loop)
