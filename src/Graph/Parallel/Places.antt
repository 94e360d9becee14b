-- ===== src/Graph/Parallel/Places.antt =====
-- Where the branches of a parallel execution stand, and what they lead to.
use nyarix_runtime.Base.{
  ℕ, ◌≡◌, inl, inr, Bool, true, List, [], ◌∷◌, ◌++◌, Option, none, some, ok, err, arith, elem,
  retain, ◌==◌, ==_refl, Bool-cases,
}
use nyarix_runtime.Base.Walks
use nyarix_runtime.Packet.{Packet}
use nyarix_runtime.Graph.Edge.{Edge}
use nyarix_runtime.Graph.Flow.{FlowGraph}
use nyarix_runtime.Graph.Flow.Sync.{outgoing}
use nyarix_runtime.Graph.Search.Paths.{Linked}
use nyarix_runtime.Graph.Execution.Walk.{SameShape}
use nyarix_runtime.Graph.Parallel.{
  Exited, Branch, waits_permit, enters, sends, receives, joins, returns, Branches, nil, cons,
  Shared, spawn_all, fork, Picked, first, later,
}

-- Every edge of the list leads to a node with a property.
pub To : {C : Type 0} → (ℕ → Type 0) → List (Edge C) → Type 0
To P [] = Unit {0}
To P (e ∷ es) = P e.to × To P es

module _ {C : Type 0} where
  pub To-map : (P Q : ℕ → Type 0) (es : List (Edge C)) → ((v : ℕ) → P v → Q v) → To P es → To Q es
  unfolding To
  To-map P Q [] f h = tt
  To-map P Q (e ∷ es) f (p, ps) = (f e.to p, To-map P Q es f ps)

  pub To-retain :
      (P : ℕ → Type 0) (q : Edge C → Bool) (es : List (Edge C)) → To P es → To P (retain q es)
  unfolding To
  To-retain P q [] h = tt
  To-retain P q (e ∷ es) (p, ps) = elim (Bool-cases (q e)) [
    | inl yes_ ↦ rw yes_ (p, To-retain P q es ps)
    | inr no_ ↦ rw no_ (To-retain P q es ps)
  ]

  -- The edges out of a node lead to nodes that it is linked to.
  pub To-outgoing :
      (u : ℕ) (es : List (Edge C))
      → To (λ v. elem v (outgoing u es) ≡ true) (retain (λ e. e.from == u) es)
  unfolding To
  To-outgoing u [] = tt
  To-outgoing u (e ∷ es) = elim (Bool-cases (e.from == u)) [
    | inl own ↦ rw own (
      ground (arith, own, ==_refl e.to),
      To-map (λ v. elem v (outgoing u es) ≡ true) _ _ (λ v h. ground (arith, own, h))
          (To-outgoing u es),
    )
    | inr other ↦ rw other (To-outgoing u es)
  ]

module _ {M C : Type 0} (g : FlowGraph M C) (entry : ℕ) where
  -- A walk leads from the entry to the node.
  abbrev pub Reached : ℕ → Type 0
  Reached x = Walks.Reach (Linked g) entry x

  -- Each packet left at an exit point of the graph, to which a walk leads.
  unfoldable pub AtExits : List Exited → Type 0
  AtExits [] = Unit {0}
  AtExits ((x, p) ∷ rest) = (elem x g.exit_points ≡ true) × Reached x × AtExits rest

  unfoldable mutual
    unfolding AtExits

    -- The branch stands, with all branches below it, at nodes that walks lead to, and has results from
    -- exit points alone.
    pub Placed : Branch → Type 0
    Placed (waits_permit x p) = Reached x
    Placed (enters x p) = Reached x
    Placed (sends x p) = Reached x
    Placed (receives x) = Reached x
    Placed (joins bs results) = AllPlaced bs × AtExits results
    Placed (returns (ok results)) = AtExits results
    Placed (returns (err e)) = Unit {0}

    pub AllPlaced : Branches → Type 0
    AllPlaced nil = Unit {0}
    AllPlaced (cons b bs) = Placed b × AllPlaced bs

  pub AtExits-append : (xs ys : List Exited) → AtExits xs → AtExits ys → AtExits (xs ++ ys)
  unfolding AtExits
  AtExits-append [] ys h k = k
  AtExits-append ((x, p) ∷ xs) ys (e, r, h) k = (e, r, AtExits-append xs ys h k)

  spawn_all-Placed : (p : Packet) (es : List (Edge C)) → To Reached es → AllPlaced (spawn_all p es)
  unfolding To Placed AllPlaced spawn_all
  spawn_all-Placed p [] h = tt
  spawn_all-Placed p (e ∷ es) (r, h) = (r, spawn_all-Placed p es h)

  pub fork-Placed :
      (x : ℕ) (p : Packet) (par all : List (Edge C))
      → To Reached par
      → To Reached all
      → Placed (fork x p par all)
  unfolding To Placed AllPlaced spawn_all fork AtExits
  fork-Placed x p (e ∷ es) all (r, h) k = ((r, spawn_all-Placed p es h), tt)
  fork-Placed x p [] [] h k = tt
  fork-Placed x p [] (e ∷ es) h (r, k) = r

  pub Placed-Picked :
      (b : Branch) (bs cs : Branches) → Picked b bs cs → AllPlaced bs → Placed b × AllPlaced cs
  unfolding Placed AllPlaced
  Placed-Picked b _ _ first (p, ps) = (p, ps)
  Placed-Picked b _ _ (later {c} {bs} {cs} k) (p, ps) =
      let (q, qs) = Placed-Picked b bs cs k ps in (q, (p, qs))

  -- After a transition the graph has the shape of `g`, and the branch is placed.
  unfoldable pub After : Option (Shared M C × Branch) → Type 0
  After none = Unit {0}
  After (some (t, c)) = SameShape g t.graph × Placed c
