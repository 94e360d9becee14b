-- ===== src/Runtime/Builder/Chain.antt =====
-- What is built from a profile.
use nyarix_runtime.Base.{
  ℕ, zero, suc, ◌≡◌, refl, inl, inr, List, [], ◌∷◌, Option, none, some, Result, ok, err, get_elem?,
  Option-cases, Result-cases,
}
use nyarix_runtime.Errors.{GraphError}
use nyarix_runtime.Packet.{Packet}
use nyarix_runtime.Graph.Channel.{Mpsc}
use nyarix_runtime.Graph.Node.{Modules, default_queue_capacity}
use nyarix_runtime.Graph.Node
use nyarix_runtime.Graph.Flow.{FlowGraph, add_node, connect_all, mark_entry_point, mark_exit_point}
use nyarix_runtime.Graph.Flow
use nyarix_runtime.Graph.Flow.Sync.{InSync}
use nyarix_runtime.Graph.Flow.Preserve.{new-InSync, add_node-InSync, connect_all-InSync}
use nyarix_runtime.Graph.Validate.Report.{Report, Valid, validate-Report}
use nyarix_runtime.Runtime.Builder.Shape.{Shaped, connect_all-Shaped}
use nyarix_runtime.Runtime.Builder.{
  BuildError, unknown_module, graph_error, Built, built, failed, out_of_fuel, mark_ends, accept,
  add_nodes, chain_of, identifiers, complete, build_from_profile,
}

module _ {M C : Type 0} (ops : Modules M) (ch : Mpsc C Packet) (resolve : ℕ → Option M) where
  -- A name of the stack that no module serves.
  abbrev pub Unserved : List (ℕ × ℕ) → ℕ → Type 0
  Unserved stack name =
      (i : ℕ) × (id : ℕ) × (get_elem? stack i ≡ some (name, id)) × (resolve name ≡ none)

  -- What each answer says.
  abbrev pub Outcome : List (ℕ × ℕ) → Built M C → Type 0
  Outcome stack (built g) = InSync g × Valid g × Shaped ops ch resolve stack g
  Outcome stack (failed (unknown_module name)) = Unserved stack name
  Outcome stack (failed (graph_error e)) =
      (g : FlowGraph M C) × Shaped ops ch resolve stack g × Report g (some (err e))
  Outcome stack out_of_fuel = ⊥

  abbrev Added : List (ℕ × ℕ) → Result (FlowGraph M C) BuildError → Type 0
  Added stack (ok g) = InSync g
  Added stack (err (unknown_module name)) = Unserved stack name
  Added stack (err (graph_error e)) = ⊥

  Added-next :
      (name id : ℕ) (rest : List (ℕ × ℕ)) (r : Result (FlowGraph M C) BuildError)
      → Added rest r
      → Added ((name, id) ∷ rest) r
  Added-next name id rest (ok g) a = a
  Added-next name id rest (err (unknown_module x)) (i, j, e, u) = (suc i, j, e, u)
  Added-next name id rest (err (graph_error e)) a = a

  add_nodes-Added :
      (g : FlowGraph M C) (stack : List (ℕ × ℕ))
      → InSync g
      → Added stack (add_nodes ops ch resolve g stack)
  unfolding add_nodes
  add_nodes-Added g [] v = v
  add_nodes-Added g ((name, id) ∷ rest) v = elim (Option-cases (resolve name)) [
    | inl e ↦ rw (e, add_nodes) (zero, id, refl, e)
    | inr (m, e) ↦
        let n = Node.new ops ch id m default_queue_capacity in
        rw (e, add_nodes)
          (Added-next name id rest _ (add_nodes-Added (add_node g n) rest (add_node-InSync g n v)))
  ]

  mark_ends-InSync : (g : FlowGraph M C) (ids : List ℕ) → InSync g → InSync (mark_ends g ids)
  unfolding mark_entry_point mark_exit_point
  mark_ends-InSync g [] v = v
  mark_ends-InSync g (id ∷ ids) v = record { keyed = v.keyed; synced = v.synced; closed = v.closed }

  accept-Outcome :
      (stack : List (ℕ × ℕ)) (g : FlowGraph M C) (r : Option (Result (Unit {0}) GraphError))
      → InSync g
      → Shaped ops ch resolve stack g
      → Report g r
      → Outcome stack (accept g r)
  accept-Outcome stack g none v shape r = r
  accept-Outcome stack g (some (ok u)) v shape r = (v, r, shape)
  accept-Outcome stack g (some (err x)) v shape r = (g, shape, r)

  complete-Outcome :
      (stack : List (ℕ × ℕ)) (g : FlowGraph M C)
      → add_nodes ops ch resolve Flow.new stack ≡ ok g
      → InSync g
      → Outcome stack (
          complete ops ch resolve
            (identifiers ops ch resolve stack)
            (connect_all g (chain_of ops ch resolve (identifiers ops ch resolve stack))))
  complete-Outcome stack g e v =
      let ids = identifiers ops ch resolve stack in
      let (g', done, shape) = connect_all-Shaped ops ch resolve stack g e in
      let linked : InSync g' = rw done at (connect_all-InSync g (chain_of ops ch resolve ids) v) in
      let marked = mark_ends-InSync g' ids linked in
      rw done (accept-Outcome stack (mark_ends g' ids) _ marked shape (validate-Report _ marked))

  -- `build_from_profile` always returns. A graph that it returns has the shape that the stack
  -- describes: for each identifier the node of its module, an edge from each node to the next and no
  -- other, and as entry and exit points the first and the last node, besides the nodes of source and
  -- sink modules. Its adjacency index is in step with its edges, and it is valid: no cycle, an exit
  -- point within reach of each entry point, and no node without edges that is neither. If it reports an
  -- unknown module, this is a name of the stack for which there is none; if it reports an error of the
  -- graph, every name had a module, and the graph of that shape has the fault.
  pub build_from_profile-Outcome :
      (stack : List (ℕ × ℕ)) → Outcome stack (build_from_profile ops ch resolve stack)
  unfolding build_from_profile
  build_from_profile-Outcome stack =
      let added = add_nodes-Added Flow.new stack new-InSync in
      elim (Result-cases (add_nodes ops ch resolve Flow.new stack)) [
        | inl (g, e) ↦ rw (e, build_from_profile) (complete-Outcome stack g e (rw e at added))
        | inr (unknown_module name, e) ↦ rw (e, build_from_profile) (rw e at added)
        | inr (graph_error x, e) ↦ absurd (rw e at added)
      ]
