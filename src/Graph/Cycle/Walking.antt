-- ===== src/Graph/Cycle/Walking.antt =====
-- One call of the depth-first search: what it finds is a cycle, and what it leaves done is safe.
use nyarix_runtime.Base.{
  ℕ, ◌≤◌, ◌≡◌, refl, ◌∙◌, ◌⊎◌, inl, inr, true, false, List, [], ◌∷◌, Option, none, some, arith,
  ◌==◌, ==_iff, elem, Bool-cases,
}
use nyarix_runtime.Base.Maps.{Map, lookup, contains_key}
use nyarix_runtime.Base.Walks.{Route, unseen, unseen_mono}
use nyarix_runtime.Graph.Flow.{targets}
use nyarix_runtime.Graph.Cycle.Marks.{
  Follows, AllSafe, OnStack, Grows, Grows-refl, Grows-trans, IsCycle, Above, cycle_from-IsCycle,
}
use nyarix_runtime.Graph.Cycle.{
  DfsMark, visiting, visited, Dfs, cycle, clean, out_of_fuel, is_feedback, visit_neighbors,
}

pub Dfs-cases :
    (r : Dfs)
    → ((c : List ℕ) × (r ≡ cycle c))
      ⊎ ((m : Map DfsMark) × (s : List ℕ) × (r ≡ clean m s))
      ⊎ (r ≡ out_of_fuel)
Dfs-cases (cycle c) = inl (c, refl)
Dfs-cases (clean m s) = inr (inl (m, s, refl))
Dfs-cases out_of_fuel = inr (inr refl)

pub mark-cases : (o : Option DfsMark) → (o ≡ none) ⊎ (o ≡ some visiting) ⊎ (o ≡ some visited)
mark-cases none = inl refl
mark-cases (some visiting) = inr (inl refl)
mark-cases (some visited) = inr (inr refl)

module _ (a : Map (List ℕ)) (allowed : List (ℕ × ℕ)) (keys : List ℕ) where
  abbrev pub unmarked : Map DfsMark → ℕ
  unmarked m = unseen (λ k. contains_key k m) keys

  pub unmarked-Grows : (m m' : Map DfsMark) → Grows m m' → unmarked m' ≤ unmarked m
  unmarked-Grows m m' g = unseen_mono _ _ keys (λ k h. has k (lookup k m) refl h)
    where
      has :
          (k : ℕ) (o : Option DfsMark)
          → lookup k m ≡ o
          → contains_key k m ≡ true
          → contains_key k m' ≡ true
      has k none e h = ground arith
      has k (some x) e h = rw (g.kept k x e)

  -- What a call may assume, with fuel `f`.
  pub record Ready (f : ℕ) (node : ℕ) (m : Map DfsMark) (s : List ℕ) : Type 0 where
    pub new : lookup node m ≡ none
    pub known : elem node keys ≡ true
    pub above : Above a allowed s node
    pub on_stack : OnStack m s
    pub safe : AllSafe a allowed m
    pub enough : unmarked m ≤ f

  -- What a call or a loop leaves.
  pub record Left (m : Map DfsMark) (s : List ℕ) (m' : Map DfsMark) (s' : List ℕ) : Type 0 where
    pub same : s' ≡ s
    pub grows : Grows m m'
    pub safe : AllSafe a allowed m'

  abbrev pub CallOk : ℕ → Map DfsMark → List ℕ → Dfs → Type 0
  CallOk node m s (cycle c) = IsCycle a allowed c
  CallOk node m s (clean m' s') = Left m s m' s' × (lookup node m' ≡ some visited)
  CallOk node m s out_of_fuel = ⊥

  -- Every followed neighbor in the list is done.
  abbrev pub AllDone : ℕ → List ℕ → Map DfsMark → Type 0
  AllDone node ns m =
      (v : ℕ) → elem v ns ≡ true → is_feedback allowed node v ≡ false → lookup v m ≡ some visited

  abbrev pub LoopOk : ℕ → List ℕ → Map DfsMark → List ℕ → Dfs → Type 0
  LoopOk node ns m s (cycle c) = IsCycle a allowed c
  LoopOk node ns m s (clean m' s') = Left m s m' s' × AllDone node ns m'
  LoopOk node ns m s out_of_fuel = ⊥

  -- A neighbor that needs no call: it is skipped as feedback, or done.
  LoopOk-skip :
      (node next : ℕ) (ns : List ℕ) (m : Map DfsMark) (s : List ℕ) (r : Dfs)
      → (is_feedback allowed node next ≡ true) ⊎ (lookup next m ≡ some visited)
      → LoopOk node ns m s r
      → LoopOk node (next ∷ ns) m s r
  LoopOk-skip node next ns m s (cycle c) h l = l
  LoopOk-skip node next ns m s (clean m' s') h (left, done) = (
    left,
    λ v e f. elim (Bool-cases (next == v)) [
      | inr other ↦ done v (ground arith) f
      | inl now ↦ rw (← (==_iff next v).0 now) (settled_by h (rw ((==_iff next v).0 now) f))
    ],
  )
    where
      settled_by :
          (is_feedback allowed node next ≡ true) ⊎ (lookup next m ≡ some visited)
          → is_feedback allowed node next ≡ false
          → lookup next m' ≡ some visited
      settled_by (inl fb) f = cc
      settled_by (inr d) f = left.grows.kept next visited d
  LoopOk-skip node next ns m s out_of_fuel h l = l

  pub Left-trans :
      (m n o : Map DfsMark) (s t u : List ℕ) → Left m s n t → Left n t o u → Left m s o u
  Left-trans m n o s t u l k = record {
    same = k.same ∙ l.same;
    grows = Grows-trans m n o l.grows k.grows;
    safe = k.safe;
  }

  -- A neighbor that a call has settled.
  LoopOk-after :
      (node next : ℕ) (ns : List ℕ) (m n : Map DfsMark) (s t : List ℕ) (r : Dfs)
      → Left m s n t
      → lookup next n ≡ some visited
      → LoopOk node ns n t r
      → LoopOk node (next ∷ ns) m s r
  LoopOk-after node next ns m n s t (cycle c) l d k = k
  LoopOk-after node next ns m n s t (clean m' s') l d k =
      let (left, done) = LoopOk-skip node next ns n t (clean m' s') (inr d) k in
      (Left-trans m n m' s t s' l left, done)
  LoopOk-after node next ns m n s t out_of_fuel l d k = k

  pub visit_neighbors-LoopOk :
      (f : ℕ) (visit : ℕ → Map DfsMark → List ℕ → Dfs)
      → ((n : ℕ) (m : Map DfsMark) (s : List ℕ) → Ready f n m s → CallOk n m s (visit n m s))
      → (node b : ℕ) (ns : List ℕ) (m : Map DfsMark) (s : List ℕ)
      → ((v : ℕ) → elem v ns ≡ true → (elem v (targets a node) ≡ true) × (elem v keys ≡ true))
      → Route (Follows a allowed) b node s
      → OnStack m s
      → AllSafe a allowed m
      → unmarked m ≤ f
      → LoopOk node ns m s (visit_neighbors visit allowed node ns m s)
  unfolding visit_neighbors
  visit_neighbors-LoopOk f visit spec node b [] m s adj r on safe h =
      (record { same = refl; grows = Grows-refl m; safe = safe }, λ v e f. cc)
  visit_neighbors-LoopOk f visit spec node b (next ∷ rest) m s adj r on safe h =
      let later = λ (v : ℕ) (e : elem v rest ≡ true). adj v (ground arith) in
      let now = adj next (ground arith) in
      elim (Bool-cases (is_feedback allowed node next)) [
        | inl fb ↦
            rw (fb, visit_neighbors)
              (LoopOk-skip node next rest m s _ (inl fb)
                (visit_neighbors-LoopOk f visit spec node b rest m s later r on safe h))
        | inr follow ↦ elim (mark-cases (lookup next m)) [
          | inr (inl open_) ↦
              rw (follow, visit_neighbors, open_)
                (cycle_from-IsCycle a allowed s b node next r (now.0, follow) (on next open_))
          | inr (inr done) ↦
              rw (follow, visit_neighbors, done)
                (LoopOk-skip node next rest m s _ (inr done)
                  (visit_neighbors-LoopOk f visit spec node b rest m s later r on safe h))
          | inl fresh ↦
              let ready : Ready f next m s = record {
                new = fresh;
                known = now.1;
                above = inr (b, node, r, (now.0, follow));
                on_stack = on;
                safe = safe;
                enough = h;
              } in
              let ok = spec next m s ready in
              elim (Dfs-cases (visit next m s)) [
                | inl (c, e) ↦ rw (follow, visit_neighbors, fresh, e) (rw e at ok)
                | inr (inl (n, t, e)) ↦
                    let (left, done) : Left m s n t × (lookup next n ≡ some visited) = rw e at ok in
                    let r' : Route (Follows a allowed) b node t = rw left.same r in
                    let on' : OnStack n t = λ (k : ℕ) (e' : lookup k n ≡ some visiting).
                      rw left.same (on k (left.grows.settled k e')) in
                    let enough' : unmarked n ≤ f = ground (arith, unmarked-Grows m n left.grows) in
                    rw (follow, visit_neighbors, fresh, e)
                      (LoopOk-after node next rest m n s t _ left done (
                        visit_neighbors-LoopOk f visit spec node b rest n t later r' on' left.safe
                          enough'))
                | inr (inr e) ↦ absurd (rw e at ok)
              ]
        ]
      ]
