-- ===== src/Graph/Search/Scanning.antt =====
-- The invariant of the breadth-first search, and what the loop over the neighbors of a node does.
use nyarix_runtime.Base.{
  ℕ, suc, ◌+◌, ◌≤◌, ◌≡◌, ◌⊎◌, inl, inr, true, false, List, [], ◌∷◌, none, some, arith, ◌==◌, ==_iff,
  length, elem, elem-append, length-append, Bool-cases,
}
use nyarix_runtime.Base.Maps.{Map, lookup, insert, lookup-insert, length-insert_new}
use nyarix_runtime.Base.Walks.{unseen, unseen_lt}
use nyarix_runtime.Graph.Flow.{targets}
use nyarix_runtime.Graph.Search.{Search, Scan, found, more, visit, scan}

-- An edge in the adjacency index.
abbrev pub Adj : Map (List ℕ) → ℕ → ℕ → Type 0
Adj a u v = elem v (targets a u) ≡ true

module _ (a : Map (List ℕ)) (from : ℕ) where
  -- The chain of predecessors from a node back to `from`, along edges of the graph.
  pub data Rooted (p : Map ℕ) : ℕ → ℕ → Type 0 where
    root : Rooted p 0 from
    link : {n u v : ℕ} → lookup v p ≡ some u → Adj a u v → Rooted p n u → Rooted p (suc n) v

  Rooted-insert :
      {p : Map ℕ} {n v : ℕ} (k c : ℕ) → lookup k p ≡ none → Rooted p n v → Rooted (insert k c p) n v
  Rooted-insert k c h root = root
  Rooted-insert {p} k c h (link {n} {u} {v} e adj r) =
      link (ground (arith, lookup-insert k v c p)) adj (Rooted-insert k c h r)

  -- A chain no longer than the map that it runs through.
  abbrev pub Chain : Map ℕ → ℕ → Type 0
  Chain p v = (n : ℕ) × (n ≤ length p) × Rooted p n v

  Chain-insert : (p : Map ℕ) (v k c : ℕ) → lookup k p ≡ none → Chain p v → Chain (insert k c p) v
  Chain-insert p v k c h (n, le, r) =
      (n, omega (arith, length-insert_new k c p h), Rooted-insert k c h r)

  Chain-next :
      (p : Map ℕ) (k c : ℕ) → lookup k p ≡ none → Adj a c k → Chain p c → Chain (insert k c p) k
  Chain-next p k c h adj (n, le, r) = (
    suc n,
    omega (arith, length-insert_new k c p h),
    link (ground (arith, lookup-insert k k c p)) adj (Rooted-insert k c h r),
  )

  pub record Inv (to : ℕ) (s : Search) : Type 0 where
    pub source : elem from s.visited ≡ true
    pub rooted : (v : ℕ) → elem v s.visited ≡ true → Chain s.predecessor v
    pub fresh : (v : ℕ) → elem v s.visited ≡ false → lookup v s.predecessor ≡ none
    pub queued : (v : ℕ) → elem v s.queue ≡ true → elem v s.visited ≡ true
    pub missed : elem to s.visited ≡ false

  visit-Inv :
      (to : ℕ) (s : Search) (current next : ℕ)
      → elem current s.visited ≡ true
      → Adj a current next
      → elem next s.visited ≡ false
      → (next == to) ≡ false
      → Inv to s
      → Inv to (visit s current next)
  visit-Inv to s current next c adj new ne v = record {
    source = ground (arith, v.source);
    rooted = λ w h. elim (Bool-cases (next == w)) [
      | inl e ↦
          rw (← (==_iff next w).0 e)
            (Chain-next s.predecessor next current (v.fresh next new) adj (v.rooted current c))
      | inr d ↦
          Chain-insert s.predecessor w next current (v.fresh next new) (v.rooted w (ground arith))
    ];
    fresh = λ w h. ground (arith, v.fresh w, lookup-insert next w current s.predecessor);
    queued = λ w h. ground (arith, v.queued w, elem-append w s.queue (next ∷ []));
    missed = ground (arith, v.missed);
  }

-- What a scan that finds nothing leaves, for the list of neighbors `ns`.
pub record Scanned (ns : List ℕ) (s t : Search) : Type 0 where
  pub kept : (w : ℕ) → elem w s.visited ≡ true → elem w t.visited ≡ true
  pub all : (w : ℕ) → elem w ns ≡ true → elem w t.visited ≡ true
  pub waits : (w : ℕ) → elem w s.queue ≡ true → elem w t.queue ≡ true
  pub new : (w : ℕ) → elem w t.visited ≡ true → (elem w s.visited ≡ true) ⊎ (elem w t.queue ≡ true)

-- The nodes still to be seen and those still to be expanded: a round of the outer loop lowers this.
abbrev pub work : List ℕ → Search → ℕ
work keys s = unseen (λ k. elem k s.visited) keys + length s.queue

module _ (a : Map (List ℕ)) (from to : ℕ) (keys : List ℕ) where
  abbrev pub ScanOk : List ℕ → Search → Scan → Type 0
  ScanOk ns s (found p) = Chain a from p to
  ScanOk ns s (more t) = Inv a from to t × Scanned ns s t × (work keys t ≤ work keys s)

  widen-seen :
      (next : ℕ) (ns : List ℕ) (s : Search) (r : Scan)
      → elem next s.visited ≡ true
      → ScanOk ns s r
      → ScanOk (next ∷ ns) s r
  widen-seen next ns s (found p) seen h = h
  widen-seen next ns s (more t) seen (inv, sc, le) = (
    inv,
    record {
      kept = sc.kept;
      all = λ w m. ground (arith, sc.all w, sc.kept next seen, ==_iff next w);
      waits = sc.waits;
      new = sc.new;
    },
    le,
  )

  work-visit :
      (current next : ℕ) (s : Search)
      → elem next s.visited ≡ false
      → elem next keys ≡ true
      → work keys (visit s current next) ≤ work keys s
  work-visit current next s fresh known = omega (
    arith,
    unseen_lt (λ k. elem k s.visited) (λ k. elem k (next ∷ s.visited)) keys next
        (λ k h. ground arith) known fresh (ground arith),
    length-append s.queue (next ∷ []),
  )

  widen-visit :
      (current next : ℕ) (ns : List ℕ) (s : Search) (r : Scan)
      → elem next s.visited ≡ false
      → elem next keys ≡ true
      → ScanOk ns (visit s current next) r
      → ScanOk (next ∷ ns) s r
  widen-visit current next ns s (found p) fresh known h = h
  widen-visit current next ns s (more t) fresh known (inv, sc, le) =
      let queued = λ (w : ℕ). elem-append w s.queue (next ∷ []) in
      (
        inv,
        record {
          kept = λ w h. ground (arith, sc.kept w);
          all = λ w h. ground (arith, sc.all w, sc.kept w);
          waits = λ w h. ground (arith, sc.waits w, queued w);
          new = λ w h. ground (arith, sc.new w h, sc.waits w, queued w);
        },
        omega (arith, work-visit current next s fresh known),
      )

  -- A scan from a search that satisfies the invariant finds a chain to the target, or visits every
  -- neighbor, queues the new ones and adds no work.
  pub scan-ScanOk :
      (current : ℕ) (ns : List ℕ) (s : Search)
      → ((v : ℕ) → elem v ns ≡ true → Adj a current v × (elem v keys ≡ true))
      → elem current s.visited ≡ true
      → Inv a from to s
      → ScanOk ns s (scan to current ns s)
  unfolding scan
  scan-ScanOk current [] s adj c v = (
    v,
    record { kept = λ w h. h; all = λ w h. cc; waits = λ w h. h; new = λ w h. inl h },
    omega arith,
  )
  scan-ScanOk current (next ∷ rest) s adj c v =
      let later = λ (w : ℕ) (h : elem w rest ≡ true). adj w (ground arith) in
      let now = adj next (ground arith) in
      elim (Bool-cases (elem next s.visited)) [
        | inl seen ↦
            rw (seen, scan) (widen-seen next rest s _ seen (scan-ScanOk current rest s later c v))
        | inr fresh ↦ elim (Bool-cases (next == to)) [
          | inl hit ↦
              rw (fresh, scan, hit)
                (rw (← (==_iff next to).0 hit) (
                  Chain-next a from s.predecessor next current (v.fresh next fresh) now.0
                    (v.rooted current c)))
          | inr miss ↦
              rw (fresh, scan, miss)
                (widen-visit current next rest s _ fresh now.1 (
                  scan-ScanOk current rest (visit s current next) later (ground arith)
                    (visit-Inv a from to s current next c now.0 fresh miss v)))
        ]
      ]
