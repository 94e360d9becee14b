-- ===== src/Graph/Cycle/Detection.antt =====
-- What `detect_cycle` answers on a graph whose index is in sync with its edges.
use mathlib.Core.WellFounded.{Acc}
use nyarix_runtime.Base.{
  ℕ, zero, suc, ◌≤◌, ◌≡◌, refl, ◌⊎◌, inl, inr, true, false, List, [], ◌∷◌, ◌++◌, none, some, arith,
  ◌==◌, ==_iff, length, elem, elem-append, drop_last-concat, Bool-cases,
}
use nyarix_runtime.Base.Maps.{Map, lookup, insert, contains_key, lookup-insert, keys, length-keys}
use nyarix_runtime.Base.Walks.{Route, stop, hop, unseen_lt, unseen_zero, unseen_le}
use nyarix_runtime.Graph.Flow.{FlowGraph, targets}
use nyarix_runtime.Graph.Flow.Sync.{InSync, targets-known}
use nyarix_runtime.Graph.Cycle.Marks.{
  Follows, Safe, AllSafe, OnStack, Grows, Route-concat, length-Route-concat, IsCycle, push-Route,
}
use nyarix_runtime.Graph.Cycle.Walking.{
  mark-cases, unmarked, Ready, Left, CallOk, LoopOk, Dfs-cases, visit_neighbors-LoopOk,
  unmarked-Grows,
}
use nyarix_runtime.Graph.Cycle.{
  DfsMark, visiting, visited, Dfs, cycle, clean, out_of_fuel, leave, dfs_detect_cycle, search_from,
  detect_cycle,
}

push-Grows :
    (node : ℕ) (m n : Map DfsMark)
    → lookup node m ≡ none
    → Grows (insert node visiting m) n
    → Grows m (insert node visited n)
push-Grows node m n fresh g = record {
  kept = λ k x e. ground (
    arith,
    lookup-insert node k visited n,
    g.kept k x,
    lookup-insert node k visiting m,
    ==_iff node k,
  );
  settled = λ k e.
      ground (arith, lookup-insert node k visited n, g.settled k, lookup-insert node k visiting m);
}

push-OnStack :
    (node : ℕ) (m : Map DfsMark) (s : List ℕ)
    → OnStack m s
    → OnStack (insert node visiting m) (s ++ node ∷ [])
push-OnStack node m s on k e =
    ground (arith, lookup-insert node k visiting m, on k, elem-append k s (node ∷ []))

insert-contains_key :
    (node k : ℕ) (x : DfsMark) (m : Map DfsMark)
    → contains_key k m ≡ true
    → contains_key k (insert node x m) ≡ true
insert-contains_key node k x m h = ground (arith, lookup-insert node k x m)

module _ (a : Map (List ℕ)) (allowed : List (ℕ × ℕ)) (nodes : List ℕ) where
  push-AllSafe :
      (node : ℕ) (m : Map DfsMark)
      → AllSafe a allowed m
      → AllSafe a allowed (insert node visiting m)
  push-AllSafe node m safe k e = safe k (ground (arith, lookup-insert node k visiting m))

  unmarked-push :
      (f node : ℕ) (m : Map DfsMark) (s : List ℕ)
      → Ready a allowed nodes (suc f) node m s
      → unmarked a allowed nodes (insert node visiting m) ≤ f
  unmarked-push f node m s r =
      let grew = λ (k : ℕ) (h : contains_key k m ≡ true). insert-contains_key node k visiting m h in
      let hidden : contains_key node m ≡ false = rw r.new refl in
      let shown : contains_key node (insert node visiting m) ≡ true =
        ground (arith, lookup-insert node node visiting m) in
      omega (
        arith,
        r.enough,
        unseen_lt (λ k. contains_key k m) (λ k. contains_key k (insert node visiting m)) nodes node
            grew r.known hidden shown,
      )

  leave-CallOk :
      (f node : ℕ) (m : Map DfsMark) (s : List ℕ) (r : Dfs)
      → Ready a allowed nodes f node m s
      → LoopOk a allowed nodes node (targets a node) (insert node visiting m) (s ++ node ∷ []) r
      → CallOk a allowed nodes node m s (leave node r)
  leave-CallOk f node m s (cycle c) ready ok = ok
  leave-CallOk f node m s (clean n t) ready (left, done) =
      let top : lookup node (insert node visited n) ≡ some visited =
        ground (arith, lookup-insert node node visited n) in
      let node_safe : Safe a allowed node = Acc.intro node (λ v e. left.safe v (done v e.0 e.1)) in
      (
        record {
          same = rw left.same (drop_last-concat s node);
          grows = push-Grows node m n ready.new left.grows;
          safe = λ k e. elim (Bool-cases (node == k)) [
            | inl now ↦ rw (← (==_iff node k).0 now) node_safe
            | inr other ↦ left.safe k (ground (arith, lookup-insert node k visited n))
          ];
        },
        top,
      )
  leave-CallOk f node m s out_of_fuel ready ok = ok

  pub dfs_detect_cycle-CallOk :
      ((u v : ℕ) → elem v (targets a u) ≡ true → elem v nodes ≡ true)
      → (f node : ℕ) (m : Map DfsMark) (s : List ℕ) → Ready a allowed nodes f node m s
      → CallOk a allowed nodes node m s (dfs_detect_cycle a allowed f node m s)
  unfolding dfs_detect_cycle
  dfs_detect_cycle-CallOk known zero node m s r =
      let hidden : contains_key node m ≡ false = rw r.new refl in
      absurd (unseen_zero (λ k. contains_key k m) nodes node r.known hidden r.enough)
  dfs_detect_cycle-CallOk known (suc f) node m s r =
      let (b, route) = push-Route a allowed s node r.above in
      leave-CallOk (suc f) node m s _ r (
        visit_neighbors-LoopOk a allowed nodes f (dfs_detect_cycle a allowed f)
          (dfs_detect_cycle-CallOk known f) node b (targets a node) (insert node visiting m)
          (s ++ node ∷ []) (λ v e. (e, known node v e)) route (push-OnStack node m s r.on_stack)
          (push-AllSafe node m r.safe) (unmarked-push f node m s r))

-- A walk back to its start can be walked for ever.
Safe-IsCycle :
    (a : Map (List ℕ)) (allowed : List (ℕ × ℕ)) {u w : ℕ} {c : List ℕ}
    → w ≡ u
    → Safe a allowed u
    → Route (Follows a allowed) u w c
    → ¬ (2 ≤ length c)
Safe-IsCycle a allowed q s (stop v) h = omega arith
Safe-IsCycle a allowed {w = w} q (Acc.intro x f) (hop {v} {p = p} e r) h =
    let back : Follows a allowed w v = rw q e in
    Safe-IsCycle a allowed refl (f v e) (Route-concat r back) (length-Route-concat v r)

Route-into :
    {E : ℕ → ℕ → Type 0} (u : ℕ) {v w : ℕ} {p : List ℕ} → E u v → Route E v w p → (x : ℕ) × E x w
Route-into u e (stop v) = (u, e)
Route-into u e (hop {u = v} d r) = Route-into v d r

Route-last :
    {E : ℕ → ℕ → Type 0} {u w : ℕ} {p : List ℕ} → Route E u w p → 2 ≤ length p → (v : ℕ) × E v w
Route-last (stop u) h = absurd (omega arith)
Route-last (hop {u} e r) h = Route-into u e r

module _ {M C : Type 0} (g : FlowGraph M C) where
  -- What an answer of `detect_cycle` says.
  abbrev pub Verdict : Dfs → Type 0
  Verdict (cycle c) = IsCycle g.adjacency g.allowed_feedback_edges c
  Verdict (clean m s) = (c : List ℕ) → ¬ IsCycle g.adjacency g.allowed_feedback_edges c
  Verdict out_of_fuel = ⊥

  settled :
      (k : ℕ) (ks : List ℕ) (m n : Map DfsMark)
      → ((j : ℕ)
          → elem j (keys g.nodes) ≡ true
          → (lookup j m ≡ some visited) ⊎ (elem j (k ∷ ks) ≡ true))
      → ((j : ℕ) (x : DfsMark) → lookup j m ≡ some x → lookup j n ≡ some x)
      → lookup k n ≡ some visited
      → (j : ℕ) → elem j (keys g.nodes) ≡ true
      → (lookup j n ≡ some visited) ⊎ (elem j ks ≡ true)
  settled k ks m n all kept done j h = elim (all j h) [
    | inl was ↦ inl (kept j visited was)
    | inr left ↦ elim (Bool-cases (k == j)) [
      | inl now ↦ inl (rw (← (==_iff k j).0 now) done)
      | inr other ↦ inr (ground arith)
    ]
  ]

  -- What the loop over the nodes has settled.
  search_from-Verdict :
      (f : ℕ) (starts : List ℕ) (m : Map DfsMark)
      → InSync g
      → ((k : ℕ) → elem k starts ≡ true → elem k (keys g.nodes) ≡ true)
      → ((k : ℕ)
          → elem k (keys g.nodes) ≡ true
          → (lookup k m ≡ some visited) ⊎ (elem k starts ≡ true))
      → OnStack m []
      → AllSafe g.adjacency g.allowed_feedback_edges m
      → unmarked g.adjacency g.allowed_feedback_edges (keys g.nodes) m ≤ f
      → Verdict (search_from (dfs_detect_cycle g.adjacency g.allowed_feedback_edges f) starts m [])
  unfolding search_from
  search_from-Verdict f [] m sync known all on safe enough =
      λ (c : List ℕ) (i : IsCycle g.adjacency g.allowed_feedback_edges c).
        let (u, r, h) = i in
        let (v, e) = Route-last r h in
        elim (all u (targets-known g sync v u e.0)) [
          | inl done ↦ Safe-IsCycle g.adjacency g.allowed_feedback_edges refl (safe u done) r h
          | inr none_left ↦ cc
        ]
  search_from-Verdict f (k ∷ ks) m sync known all on safe enough =
      let known' = λ (j : ℕ) (e : elem j ks ≡ true). known j (ground arith) in
      elim (mark-cases (lookup k m)) [
        | inr (inl open_) ↦ let no_such : elem k [] ≡ true = on k open_ in cc
        | inr (inr done) ↦
            rw (done, search_from)
              (search_from-Verdict f ks m sync known' (settled k ks m m all (λ j x e. e) done) on
                safe enough)
        | inl fresh ↦
            let ready : Ready g.adjacency g.allowed_feedback_edges (keys g.nodes) f k m [] =
              record {
                new = fresh;
                known = known k (ground arith);
                above = inl refl;
                on_stack = on;
                safe = safe;
                enough = enough;
              } in
            let ok =
              dfs_detect_cycle-CallOk g.adjacency g.allowed_feedback_edges (keys g.nodes)
                (targets-known g sync) f k m [] ready in
            elim (Dfs-cases (dfs_detect_cycle g.adjacency g.allowed_feedback_edges f k m [])) [
              | inl (c, e) ↦ rw (fresh, search_from, e) (rw e at ok)
              | inr (inl (n, t, e)) ↦
                  let (left, done) : Left g.adjacency g.allowed_feedback_edges (keys g.nodes) m [] n
                        t
                      × (lookup k n ≡ some visited) =
                    rw e at ok in
                  let shrunk =
                    unmarked-Grows g.adjacency g.allowed_feedback_edges (keys g.nodes) m n
                      left.grows in
                  rw (fresh, search_from, e, left.same)
                    (search_from-Verdict f ks n sync known'
                      (settled k ks m n all left.grows.kept done)
                      (λ j x. on j (left.grows.settled j x)) left.safe
                      (omega (arith, shrunk, enough)))
              | inr (inr e) ↦ absurd (rw e at ok)
            ]
      ]

  -- On a graph whose adjacency index is in step with its edges, `detect_cycle` returns, with a
  -- recursion no deeper than the graph has nodes: either a list of at least two nodes that is a
  -- walk along edges that are not allowed feedback edges, from a node back to that node, or none,
  -- and then there is no such list.
  pub detect_cycle-Verdict : InSync g → Verdict (detect_cycle g)
  unfolding detect_cycle
  detect_cycle-Verdict sync =
      search_from-Verdict (length g.nodes) (keys g.nodes) [] sync (λ k h. h) (λ k h. inr h)
        (λ k h. cc) (λ k h. cc)
        (omega (arith, unseen_le (λ k. false) (keys g.nodes), length-keys g.nodes))
