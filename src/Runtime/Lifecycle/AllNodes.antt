-- ===== src/Runtime/Lifecycle/AllNodes.antt =====
-- In which states the nodes of a graph are after its start.
use nyarix_runtime.Base.{
  ℕ, ◌≡◌, refl, ◌∙◌, ◌⊎◌, inl, inr, true, false, List, [], ◌∷◌, Option, none, some, Result, ok, err,
  ◌==◌, ==_iff, elem, arith, Bool-cases, Option-cases,
}
use nyarix_runtime.Base.Maps.{Map, lookup, insert, keys, elem-keys, lookup-insert}
use nyarix_runtime.Errors.{ModuleError}
use nyarix_runtime.Graph.Node.{
  GraphNode, Modules, NodeState, running, initializing, initialize, settle, exclusively,
}
use nyarix_runtime.Graph.Flow.{FlowGraph}
use nyarix_runtime.Runtime.Lifecycle.{initialize_each, initialize_all_nodes}

-- What holds of a value, if there is one.
abbrev pub IfThere : {A : Type 0} → (A → Type 0) → Option A → Type 0
IfThere P none = Unit {0}
IfThere P (some a) = P a

pub IfThere-map :
    {A : Type 0} (P Q : A → Type 0) (o : Option A)
    → ((a : A) → P a → Q a)
    → IfThere P o
    → IfThere Q o
IfThere-map P Q none f h = tt
IfThere-map P Q (some a) f h = f a h

module _ {M C : Type 0} (ops : Modules M) where
  pub settle-cases :
      (s t : NodeState) (r : GraphNode M C × Result (Unit {0}) ModuleError)
      → r.0.state ≡ t
      → (((settle ops s r).1 ≡ ok tt) × ((settle ops s r).0.state ≡ s))
        ⊎ ((e : ModuleError) × ((settle ops s r).1 ≡ err e) × ((settle ops s r).0.state ≡ t))
  unfolding settle
  settle-cases s t (n, ok u) h = inl (refl, refl)
  settle-cases s t (n, err e) h = inr (e, refl, h)

  pub state-exclusively :
      (n : GraphNode M C) (call : M → M × Result (Unit {0}) ModuleError)
      → (exclusively ops n call).0.state ≡ n.state
  unfolding exclusively
  state-exclusively n call = ground arith

  initialize-cases :
      (n : GraphNode M C)
      → (((initialize ops n).1 ≡ ok tt) × ((initialize ops n).0.state ≡ running))
        ⊎ ((e : ModuleError) × ((initialize ops n).1 ≡ err e)
            × ((initialize ops n).0.state ≡ initializing))
  unfolding initialize
  initialize-cases n = settle-cases running initializing _ (state-exclusively _ ops.initialize)

  -- How a node stands after the start, which began with the nodes `nodes`.
  abbrev pub Started :
      Map (GraphNode M C) → ℕ → Result (Unit {0}) ModuleError → GraphNode M C → Type 0
  Started nodes k (ok u) n = n.state ≡ running
  Started nodes k (err e) n =
      (n.state ≡ running) ⊎ (n.state ≡ initializing) ⊎ (lookup k nodes ≡ some n)

  -- A node in the middle of the start: it runs, or its turn comes.
  abbrev Waiting : Map (GraphNode M C) → List ℕ → ℕ → GraphNode M C → Type 0
  Waiting nodes ids k n = (n.state ≡ running) ⊎ ((elem k ids ≡ true) × (lookup k nodes ≡ some n))

  Waiting-next :
      (nodes : Map (GraphNode M C)) (id k : ℕ) (ids : List ℕ) (n : GraphNode M C)
      → (id == k) ≡ false
      → Waiting nodes (id ∷ ids) k n
      → Waiting nodes ids k n
  Waiting-next nodes id k ids n other (inl r) = inl r
  Waiting-next nodes id k ids n other (inr (m, e)) = inr (ground arith, e)

  Waiting-Started :
      (nodes : Map (GraphNode M C)) (ids : List ℕ) (k : ℕ) (x : ModuleError) (n : GraphNode M C)
      → Waiting nodes ids k n
      → Started nodes k (err x) n
  Waiting-Started nodes ids k x n (inl r) = inl r
  Waiting-Started nodes ids k x n (inr (m, e)) = inr (inr e)

  Waiting-end :
      (nodes : Map (GraphNode M C)) (k : ℕ) (n : GraphNode M C)
      → Waiting nodes [] k n
      → n.state ≡ running
  Waiting-end nodes k n (inl r) = r
  Waiting-end nodes k n (inr (m, e)) = cc

  initialize_each-Started :
      (before : Map (GraphNode M C)) (ids : List ℕ) (nodes : Map (GraphNode M C))
      → ((k : ℕ) → IfThere (Waiting before ids k) (lookup k nodes))
      → (k : ℕ)
      → IfThere
          (Started before k (initialize_each ops ids nodes).1)
          (lookup k (initialize_each ops ids nodes).0)
  unfolding initialize_each
  initialize_each-Started before [] nodes h k =
      IfThere-map (Waiting before [] k) (λ n. n.state ≡ running) (lookup k nodes)
        (Waiting-end before k) (h k)
  initialize_each-Started before (id ∷ ids) nodes h k = elim (Option-cases (lookup id nodes)) [
    | inl e ↦
        rw (e, initialize_each)
          (initialize_each-Started before ids nodes
            (λ j. elim (Bool-cases (id == j)) [
              | inl same ↦
                  let gone : lookup j nodes ≡ none = rw (← (==_iff id j).0 same) e in rw gone tt
              | inr other ↦
                  IfThere-map (Waiting before (id ∷ ids) j) (Waiting before ids j) (lookup j nodes)
                    (λ n. Waiting-next before id j ids n other) (h j)
            ])
            k)
    | inr (n, e) ↦ elim (initialize-cases n) [
      | inl (a, s) ↦
          rw (e, initialize_each, a)
            (initialize_each-Started before ids (insert id (initialize ops n).0 nodes)
              (λ j.
                rw (lookup-insert id j (initialize ops n).0 nodes) (elim (Bool-cases (id == j)) [
                  | inl same ↦ rw same (inl s)
                  | inr other ↦ rw other (
                      IfThere-map (Waiting before (id ∷ ids) j) (Waiting before ids j)
                        (lookup j nodes) (λ n. Waiting-next before id j ids n other) (h j))
                ]))
              k)
      | inr (x, a, s) ↦
          rw (e, initialize_each, a)
            (rw (lookup-insert id k (initialize ops n).0 nodes) (elim (Bool-cases (id == k)) [
              | inl same ↦ rw same (inr (inl s))
              | inr other ↦ rw other (
                  IfThere-map (Waiting before (id ∷ ids) k) (Started before k (err x))
                    (lookup k nodes) (λ n. Waiting-Started before (id ∷ ids) k x n) (h k))
            ]))
    ]
  ]

  begins :
      (k : ℕ) (m : Map (GraphNode M C)) (o : Option (GraphNode M C))
      → lookup k m ≡ o
      → IfThere (Waiting m (keys m) k) o
  begins k m none e = tt
  begins k m (some n) e = inr (elem-keys k m ∙ rw e refl, e)

  -- After `initialize_all_nodes` succeeds every node of the graph runs. After it fails each node runs,
  -- or is left initializing, or is as it was before.
  pub initialize_all_nodes-Started :
      (g : FlowGraph M C) (k : ℕ)
      → IfThere
          (Started g.nodes k (initialize_all_nodes ops g).1)
          (lookup k (initialize_all_nodes ops g).0.nodes)
  unfolding initialize_all_nodes
  initialize_all_nodes-Started g k =
      initialize_each-Started g.nodes (keys g.nodes) g.nodes
        (λ j. begins j g.nodes (lookup j g.nodes) refl) k
