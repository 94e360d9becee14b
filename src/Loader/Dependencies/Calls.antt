-- ===== src/Loader/Dependencies/Calls.antt =====
-- Every call of `visit` returns: a cycle, or its package done after all that it needs.
use nyarix_runtime.Base.{
  ℕ, zero, suc, ◌<◌, ◌≡◌, refl, sym, ◌∙◌, inl, inr, true, false, List, [], ◌∷◌, ◌++◌, arith, ◌==◌,
  ==_iff, ==_refl, elem, elem-append, drop_last-concat, Bool-cases,
}
use nyarix_runtime.Base.Maps.{Map, insert, contains_key, keys, elem-keys}
use nyarix_runtime.Base.Walks.{unseen_lt}
use nyarix_runtime.Loader.Dependencies.Ordering.{Ordered-append, elem-followed}
use nyarix_runtime.Loader.Dependencies.Visiting.{
  is_visited, mark_of-insert, Grows, Grows-refl, Grows-trans, mark-cases, Visit-cases, push-Grows,
  IsCycle, unmarked, unmarked-Grows, Inv, Above, push-Route, cycle_from-IsCycle,
}
use nyarix_runtime.Loader.Dependencies.{
  Mark, unvisited, in_progress, done, mark_of, followed, Visit, cyclic, visited, out_of_fuel,
  visit_all, finish, visit,
}

mark_stays :
    (name : ℕ) (m : Map Mark)
    → mark_of m name ≡ unvisited
    → (k : ℕ) → is_visited (mark_of m k) ≡ true
    → is_visited (mark_of (insert name in_progress m) k) ≡ true
mark_stays name m e k h = elim (Bool-cases (name == k)) [
  | inl now ↦ rw (mark_of-insert name k in_progress m, now) refl
  | inr other ↦ rw (mark_of-insert name k in_progress m, other) h
]

module _ (edges : Map (List ℕ)) where
  pub record Ready (f : ℕ) (name : ℕ) (m : Map Mark) (path order : List ℕ) : Type 0 where
    pub inv : Inv edges m path order
    pub above : Above edges path name
    pub known : contains_key name edges ≡ true
    pub enough : unmarked edges m < f

  -- What a loop over `names` leaves.
  abbrev pub LoopOk : List ℕ → Map Mark → List ℕ → Visit → Type 0
  LoopOk names m path (cyclic c) = IsCycle edges c
  LoopOk names m path (visited m' path' order') =
      (path' ≡ path)
      × Grows m m'
      × Inv edges m' path order'
      × ((k : ℕ) → elem k names ≡ true → mark_of m' k ≡ done)
  LoopOk names m path out_of_fuel = ⊥

  pub visit_all-LoopOk :
      (f : ℕ) (call : ℕ → Map Mark → List ℕ → List ℕ → Visit)
      → ((n : ℕ) (m : Map Mark) (path order : List ℕ)
          → Ready f n m path order
          → LoopOk (n ∷ []) m path (call n m path order))
      → (names : List ℕ) (m : Map Mark) (path order : List ℕ) → Inv edges m path order
      → ((k : ℕ) → elem k names ≡ true → Above edges path k × (contains_key k edges ≡ true))
      → unmarked edges m < f
      → LoopOk names m path (visit_all call names m path order)
  unfolding visit_all
  visit_all-LoopOk f call spec [] m path order inv known h = (refl, Grows-refl m, inv, λ k e. cc)
  visit_all-LoopOk f call spec (n ∷ ns) m path order inv known h =
      let (above, there) = known n (rw (==_refl n) refl) in
      let ready : Ready f n m path order = record {
        inv = inv;
        above = above;
        known = there;
        enough = h;
      } in
      let ok_ = spec n m path order ready in
      elim (Visit-cases (call n m path order)) [
        | inl (c, e) ↦ rw (e, visit_all) (rw e at ok_)
        | inr (inr e) ↦ absurd (rw e at ok_)
        | inr (inl (m', path', order', e)) ↦
            let (same, grows, inv', one) : LoopOk (n ∷ []) m path (visited m' path' order') =
              rw e at ok_ in
            let shrunk = unmarked-Grows edges m m' grows in
            rw (e, visit_all, same)
              (loop_after n ns m m' path _ grows (one n (rw (==_refl n) refl)) (
                visit_all-LoopOk f call spec ns m' path order' inv' (λ k x. known k (ground arith))
                  (omega (arith, shrunk, h))))
      ]
    where
      loop_after :
          (n : ℕ) (ns : List ℕ) (m m' : Map Mark) (path : List ℕ) (r : Visit)
          → Grows m m'
          → mark_of m' n ≡ done
          → LoopOk ns m' path r
          → LoopOk (n ∷ ns) m path r
      loop_after n ns m m' path (cyclic c) g d l = l
      loop_after n ns m m' path (visited m'' path'' order'') g d (same, grows, inv'', rest) = (
        same,
        Grows-trans m m' m'' g grows,
        inv'',
        λ k e. elim (Bool-cases (n == k)) [
          | inl now ↦ rw (← (==_iff n k).0 now) (grows.finished n d)
          | inr other ↦ rest k (ground arith)
        ],
      )
      loop_after n ns m m' path out_of_fuel g d l = l

  -- The state in which the loop of a call begins.
  push-Inv :
      (name : ℕ) (m : Map Mark) (path order : List ℕ)
      → mark_of m name ≡ unvisited
      → Inv edges m path order
      → Inv edges (insert name in_progress m) (path ++ name ∷ []) order
  push-Inv name m path order new inv = record {
    listed = λ k e. elim (Bool-cases (name == k)) [
      | inl now ↦
          let e' : in_progress ≡ done = rw (mark_of-insert name k in_progress m, now) at e in cc
      | inr other ↦ inv.listed k (rw (mark_of-insert name k in_progress m, other) at e)
    ];
    marked = λ k e. elim (Bool-cases (name == k)) [
      | inl now ↦ let e' : mark_of m name ≡ done = rw ((==_iff name k).0 now) (inv.marked k e) in cc
      | inr other ↦ rw (mark_of-insert name k in_progress m, other) (inv.marked k e)
    ];
    ordered = inv.ordered;
    inside = inv.inside;
    on_path = λ k e. elim (Bool-cases (name == k)) [
      | inl now ↦ ground (arith, elem-append k path (name ∷ []))
      | inr other ↦
          let before = inv.on_path k (rw (mark_of-insert name k in_progress m, other) at e) in
          ground (arith, elem-append k path (name ∷ []))
    ];
  }

  -- The package goes from the path to the order.
  pop-Inv :
      (name : ℕ) (m : Map Mark) (path : List ℕ) (n : Map Mark) (q : List ℕ)
      → mark_of m name ≡ unvisited
      → (order : List ℕ) → Inv edges m path order
      → contains_key name edges ≡ true
      → Grows (insert name in_progress m) n
      → Inv edges n (path ++ name ∷ []) q
      → ((k : ℕ) → elem k (followed edges name) ≡ true → mark_of n k ≡ done)
      → Inv edges (insert name done n) path (q ++ name ∷ [])
  pop-Inv name m path n q new order before known grows inv all = record {
    listed = λ k e. elim (Bool-cases (name == k)) [
      | inl now ↦ ground (arith, elem-append k q (name ∷ []))
      | inr other ↦
          let was = inv.listed k (rw (mark_of-insert name k done n, other) at e) in
          ground (arith, elem-append k q (name ∷ []))
    ];
    marked = λ k e. elim (Bool-cases (name == k)) [
      | inl now ↦ rw (mark_of-insert name k done n, now) refl
      | inr other ↦
          rw (mark_of-insert name k done n, other)
            (inv.marked k (ground (arith, elem-append k q (name ∷ []))))
    ];
    ordered =
        Ordered-append edges [] q name inv.ordered
          (λ d need. inv.listed d (all d (elem-followed edges name d ∙ ground arith))) new_to_q;
    inside = λ k e. elim (Bool-cases (name == k)) [
      | inl now ↦ rw (← (==_iff name k).0 now) known
      | inr other ↦ inv.inside k (ground (arith, elem-append k q (name ∷ [])))
    ];
    on_path = λ k e. elim (Bool-cases (name == k)) [
      | inl now ↦ let e' : done ≡ in_progress = rw (mark_of-insert name k done n, now) at e in cc
      | inr other ↦
          let open_ = grows.settled k (rw (mark_of-insert name k done n, other) at e) in
          before.on_path k (rw (mark_of-insert name k in_progress m, other) at open_)
    ];
  }
    where
      in_n : mark_of n name ≡ in_progress
      in_n = grows.opened name (rw (mark_of-insert name name in_progress m, ==_refl name) refl)

      new_to_q : elem name q ≡ false
      new_to_q = elim (Bool-cases (elem name q)) [
        | inl there ↦ let i : done ≡ in_progress = sym (inv.marked name there) ∙ in_n in cc
        | inr gone ↦ gone
      ]

  finish-LoopOk :
      (f name : ℕ) (m : Map Mark) (path order : List ℕ) (r : Visit)
      → mark_of m name ≡ unvisited
      → Ready f name m path order
      → LoopOk (followed edges name) (insert name in_progress m) (path ++ name ∷ []) r
      → LoopOk (name ∷ []) m path (finish name r)
  finish-LoopOk f name m path order (cyclic c) new ready ok_ = ok_
  finish-LoopOk f name m path order out_of_fuel new ready ok_ = ok_
  finish-LoopOk f name m path order (visited n t q) new ready (same, grows, inv, all) = (
    rw same (drop_last-concat path name),
    push-Grows name m n new grows,
    pop-Inv name m path n q new order ready.inv ready.known grows inv all,
    λ k e. rw (mark_of-insert name k done n) (ground arith),
  )

  pub visit-LoopOk :
      (f name : ℕ) (m : Map Mark) (path order : List ℕ)
      → Ready f name m path order
      → LoopOk (name ∷ []) m path (visit edges f name m path order)
  unfolding visit
  visit-LoopOk zero name m path order r = absurd (omega (arith, r.enough))
  visit-LoopOk (suc f) name m path order r = elim (mark-cases (mark_of m name)) [
    | inr (inr e) ↦
        rw (e, visit) (refl, Grows-refl m, r.inv, λ k x. rw (← (==_iff name k).0 (ground arith)) e)
    | inr (inl e) ↦
        rw (e, visit) (cycle_from-IsCycle edges path name r.above (r.inv.on_path name e))
    | inl e ↦
        let (b, route) = push-Route edges path name r.above in
        let m' = insert name in_progress m in
        rw (e, visit)
          (finish-LoopOk (suc f) name m path order _ e r (
            visit_all-LoopOk f (visit edges f) (visit-LoopOk f) (followed edges name) m'
              (path ++ name ∷ []) order (push-Inv name m path order e r.inv)
              (λ k x.
                let h = rw (elem-followed edges name k) at x in
                (inr (b, name, route, (ground arith, ground arith)), ground arith))
              (push_lt f name m path order e r)))
  ]
    where
      push_lt :
          (f name : ℕ) (m : Map Mark) (path order : List ℕ)
          → mark_of m name ≡ unvisited
          → Ready (suc f) name m path order
          → unmarked edges (insert name in_progress m) < f
      push_lt f name m path order e r =
          let seen = λ (k : ℕ) (h : is_visited (mark_of m k) ≡ true). mark_stays name m e k h in
          let hidden : is_visited (mark_of m name) ≡ false = rw e refl in
          let shown : is_visited (mark_of (insert name in_progress m) name) ≡ true =
            rw (mark_of-insert name name in_progress m, ==_refl name) refl in
          omega (
            arith,
            r.enough,
            unseen_lt (λ k. is_visited (mark_of m k))
                (λ k. is_visited (mark_of (insert name in_progress m) k)) (keys edges) name seen
                (elem-keys name edges ∙ r.known) hidden shown,
          )
