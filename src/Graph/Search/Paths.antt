-- ===== src/Graph/Search/Paths.antt =====
-- `find_path` always returns, and says whether there is a path.
use nyarix_runtime.Base.{
  ℕ, zero, suc, ◌≤◌, ◌<◌, ◌≡◌, refl, subst, ap, ◌∙◌, ◌⊎◌, inl, inr, true, false, ◌&&◌, List, [],
  ◌∷◌, some, arith, ◌==◌, ==_iff, length, elem, Bool-cases, List-cases,
}
use nyarix_runtime.Base.Maps.{Map, contains_key, keys, elem-keys, length-keys}
use nyarix_runtime.Base.Walks.{
  Route, stop, hop, Reach, here, step, Route-map, Reach-map, unseen_le, unseen_lt,
}
use nyarix_runtime.Graph.Flow.{FlowGraph, targets}
use nyarix_runtime.Graph.Flow.Sync.{targets-known, InSync, outgoing}
use nyarix_runtime.Graph.Search.Scanning.{
  Adj, Rooted, root, link, Chain, Inv, Scanned, work, scan-ScanOk,
}
use nyarix_runtime.Graph.Search.{
  Search, Scan, found, more, scan, Outcome, reached, exhausted, out_of_fuel, search,
  reconstruct_path, Found, path, no_path, failed, start, of_outcome, find_path,
}

Scan-cases : (r : Scan) → ((p : Map ℕ) × (r ≡ found p)) ⊎ ((t : Search) × (r ≡ more t))
Scan-cases (found p) = inl (p, refl)
Scan-cases (more t) = inr (t, refl)

module _ (a : Map (List ℕ)) (from to : ℕ) where
  reconstruct_path-Route :
      (p : Map ℕ) (fuel n v : ℕ) (tail : List ℕ)
      → Rooted a from p n v
      → n < fuel
      → Route (Adj a) v to tail
      → (q : List ℕ) × (reconstruct_path p from fuel v tail ≡ some q) × Route (Adj a) from to q
  unfolding reconstruct_path
  reconstruct_path-Route p zero n v tail r h t = absurd (omega arith)
  reconstruct_path-Route p (suc fuel) zero v tail root h t = (tail, ground arith, t)
  reconstruct_path-Route p (suc fuel) (suc n) v tail (link {u = u} e adj r) h t =
      elim (Bool-cases (v == from)) [
        | inl at_start ↦ (
          tail,
          rw (at_start, reconstruct_path),
          subst (λ w. Route (Adj a) w to tail) ((==_iff v from).0 at_start) t,
        )
        | inr away ↦
            let (q, ends, route) =
              reconstruct_path-Route p fuel n u (u ∷ tail) r (omega arith) (hop adj t) in
            (q, rw (away, reconstruct_path, e) ends, route)
      ]

  -- Every edge out of a visited node leads to a visited node, or the node still waits.
  abbrev Closed : Search → Type 0
  Closed s =
      (u v : ℕ)
      → elem u s.visited ≡ true
      → Adj a u v
      → (elem u s.queue ≡ true) ⊎ (elem v s.visited ≡ true)

  complete :
      (t : Search)
      → Inv a from to t
      → Closed t
      → t.queue ≡ []
      → {v : ℕ} → Reach (Adj a) from v
      → elem v t.visited ≡ true
  complete t i c e here = i.source
  complete t i c e (step {v} {w} r adj) = ground (arith, c v w (complete t i c e r) adj)

  -- How the search may end.
  abbrev Ended : Outcome → Type 0
  Ended (reached p) = Chain a from p to
  Ended exhausted = (t : Search) × Inv a from to t × Closed t × (t.queue ≡ [])
  Ended out_of_fuel = ⊥

  module _ (keys : List ℕ) (known : (u v : ℕ) → Adj a u v → elem v keys ≡ true) where
    -- One round, for the search `s` whose queue is `current ∷ rest`.
    round-Closed :
        (s t : Search) (current : ℕ) (rest : List ℕ)
        → s.queue ≡ current ∷ rest
        → Closed s
        → Scanned (targets a current) (record s { queue = rest }) t
        → Closed t
    round-Closed s t current rest e c sc u v seen adj = elim (sc.new u seen) [
      | inr waits ↦ inl waits
      | inl before ↦ elim (c u v before adj) [
        | inr done ↦ inr (sc.kept v done)
        | inl queued ↦ elim (Bool-cases (current == u)) [
          | inl now ↦ inr (sc.all v (rw ((==_iff current u).0 now) adj))
          | inr later ↦ inl (sc.waits u (ground arith))
        ]
      ]
    ]

    dequeue-Inv :
        (s : Search) (current : ℕ) (rest : List ℕ)
        → s.queue ≡ current ∷ rest
        → Inv a from to s
        → Inv a from to (record s { queue = rest })
    dequeue-Inv s current rest e v = record {
      source = v.source;
      rooted = v.rooted;
      fresh = v.fresh;
      queued = λ w h. v.queued w (rw e (ground arith));
      missed = v.missed;
    }

    search-Ended :
        (fuel : ℕ) (s : Search)
        → Inv a from to s
        → Closed s
        → work keys s ≤ fuel
        → Ended (search a to fuel s)
    unfolding search
    search-Ended zero s v c h = elim (List-cases s.queue) [
      | inl e ↦ rw (e, search) (s, v, c, e)
      | inr (current, rest, e) ↦ absurd (omega (arith, ap length e))
    ]
    search-Ended (suc fuel) s v c h = elim (List-cases s.queue) [
      | inl e ↦ rw (e, search) (s, v, c, e)
      | inr (current, rest, e) ↦
          let s0 = record s { queue = rest } in
          let ok =
            scan-ScanOk a from to keys current (targets a current) s0
              (λ w m. (m, known current w m)) (v.queued current (rw e (ground arith)))
              (dequeue-Inv s current rest e v) in
          elim (Scan-cases (scan to current (targets a current) s0)) [
            | inl (p, hit) ↦ rw (e, search, hit) (rw hit at ok)
            | inr (t, on) ↦
                let (inv, scanned, less) = rw on at ok in
                rw (e, search, on)
                  (search-Ended fuel t inv (round-Closed s t current rest e c scanned)
                    (omega (arith, ap length e)))
          ]
    ]

    start-Inv : (to == from) ≡ false → Inv a from to (start from)
    start-Inv ne = record {
      source = ground arith;
      rooted = λ v h. (0, omega arith, rw (← (==_iff from v).0 (ground arith)) root);
      fresh = λ v h. refl;
      queued = λ v h. h;
      missed = ground arith;
    }

    start-Closed : Closed (start from)
    start-Closed u v h adj = inl h

    start-Ended :
        (from == to) ≡ false
        → elem from keys ≡ true
        → Ended (search a to (length keys) (start from))
    start-Ended ne known_from =
        search-Ended (length keys) (start from) (start-Inv (ground arith)) start-Closed (
          omega (
            arith,
            unseen_le (λ k. false) keys,
            unseen_lt (λ k. false) (λ k. elem k (from ∷ [])) keys from (λ k h. cc) known_from refl
                (ground arith),
          ))

-- There is an edge from `u` to `v` in the graph.
abbrev pub Linked : {M C : Type 0} → FlowGraph M C → ℕ → ℕ → Type 0
Linked g u v = elem v (outgoing u g.edges) ≡ true

module _ {M C : Type 0} (g : FlowGraph M C) where
  -- What an answer of `find_path` says.
  abbrev pub Answers : ℕ → ℕ → Found → Type 0
  Answers from to (path p) =
      (contains_key from g.nodes && contains_key to g.nodes ≡ true) × Route (Linked g) from to p
  Answers from to no_path =
      (contains_key from g.nodes && contains_key to g.nodes ≡ false) ⊎ (¬ Reach (Linked g) from to)
  Answers from to failed = ⊥

  Ended-Answers :
      (from to : ℕ) (r : Outcome)
      → InSync g
      → (contains_key from g.nodes && contains_key to g.nodes ≡ true)
      → Ended g.adjacency from to r
      → Answers from to (of_outcome from to r)
  Ended-Answers from to (reached p) v both (n, le, r) =
      let (q, e, route) =
        reconstruct_path-Route g.adjacency from to p (suc (length p)) n to (to ∷ []) r (omega arith)
          (stop to) in
      rw e (both, Route-map (λ u w h. rw (← v.synced u) h) route)
  Ended-Answers from to exhausted v both (t, inv, closed, empty) = inr (λ r. ground (
    arith,
    inv.missed,
    complete g.adjacency from to t inv closed empty (Reach-map (λ u w h. rw (v.synced u) h) r),
  ))
  Ended-Answers from to out_of_fuel v both h = h

  -- On a graph whose adjacency index is in step with its edges, `find_path` returns, without panic
  -- and within as many rounds as the graph has nodes: either a list of nodes that is a walk along
  -- edges of the graph from the first node to the second, both of them nodes of the graph, or no path, and then one of the two is
  -- no node of the graph or no walk leads from the first to the second.
  pub find_path-Answers : (from to : ℕ) → InSync g → Answers from to (find_path g from to)
  unfolding find_path
  find_path-Answers from to v = elim (Bool-cases (contains_key from g.nodes)) [
    | inr off ↦ rw (off, find_path) (inl (rw off))
    | inl on ↦ elim (Bool-cases (contains_key to g.nodes)) [
      | inr off ↦ rw (on, find_path, off) (inl (rw (on, off)))
      | inl there ↦ elim (Bool-cases (from == to)) [
        | inl same ↦
            rw (on, find_path, there, same)
              (
                rw (on, there) refl,
                subst (λ w. Route (Linked g) from w (from ∷ [])) ((==_iff from to).0 same)
                    (stop from),
              )
        | inr apart ↦
            rw (on, find_path, there, apart)
              (Ended-Answers from to _ v (rw (on, there) refl)
                (rw length-keys at (started apart on)))
      ]
    ]
  ]
    where
      started :
          (from == to) ≡ false
          → contains_key from g.nodes ≡ true
          → Ended g.adjacency from to (search g.adjacency to (length (keys g.nodes)) (start from))
      started apart on =
          start-Ended g.adjacency from to (keys g.nodes) (targets-known g v) apart
            (elem-keys from g.nodes ∙ on)
