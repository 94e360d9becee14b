-- ===== src/Loader/Dependencies/Visiting.antt =====
-- One call of `visit`: a cycle that it reports is one, and what it leaves done is ordered.
use nyarix_runtime.Base.{
  ℕ, ◌≤◌, ◌≡◌, refl, ◌⊎◌, inl, inr, Bool, true, false, List, [], ◌∷◌, ◌++◌, arith, ◌==◌, ==_iff,
  if◌then◌else◌, length, elem, Bool-cases,
}
use nyarix_runtime.Base.Maps.{Map, insert, contains_key, keys, lookup-insert}
use nyarix_runtime.Base.Walks.{Route, stop, unseen, unseen_mono}
use nyarix_runtime.Graph.Cycle.{cycle_from}
use nyarix_runtime.Graph.Cycle.Marks.{Route-concat, Route-drop, length-Route-concat}
use nyarix_runtime.Loader.Dependencies.Ordering.{Needs, Ordered}
use nyarix_runtime.Loader.Dependencies.{
  Mark, unvisited, in_progress, done, mark_of, Visit, cyclic, visited, out_of_fuel,
}

abbrev pub is_visited : Mark → Bool
is_visited unvisited = false
is_visited in_progress = true
is_visited done = true

pub mark_of-insert :
    (k j : ℕ) (x : Mark) (m : Map Mark)
    → mark_of (insert k x m) j ≡ (if k == j then x else mark_of m j)
mark_of-insert k j x m = ground (arith, lookup-insert k j x m)

-- Packages that were visited stay so, and none is left in progress that was not before.
pub record Grows (m m' : Map Mark) : Type 0 where
  pub finished : (k : ℕ) → mark_of m k ≡ done → mark_of m' k ≡ done
  pub opened : (k : ℕ) → mark_of m k ≡ in_progress → mark_of m' k ≡ in_progress
  pub settled : (k : ℕ) → mark_of m' k ≡ in_progress → mark_of m k ≡ in_progress

pub Grows-refl : (m : Map Mark) → Grows m m
Grows-refl m = record { finished = λ k e. e; opened = λ k e. e; settled = λ k e. e }

pub Grows-trans : (l m n : Map Mark) → Grows l m → Grows m n → Grows l n
Grows-trans l m n g h = record {
  finished = λ k e. h.finished k (g.finished k e);
  opened = λ k e. h.opened k (g.opened k e);
  settled = λ k e. g.settled k (h.settled k e);
}

pub mark-cases : (x : Mark) → (x ≡ unvisited) ⊎ (x ≡ in_progress) ⊎ (x ≡ done)
mark-cases unvisited = inl refl
mark-cases in_progress = inr (inl refl)
mark-cases done = inr (inr refl)

pub Visit-cases :
    (r : Visit)
    → ((c : List ℕ) × (r ≡ cyclic c))
      ⊎ ((m : Map Mark) × (p : List ℕ) × (o : List ℕ) × (r ≡ visited m p o))
      ⊎ (r ≡ out_of_fuel)
Visit-cases (cyclic c) = inl (c, refl)
Visit-cases (visited m p o) = inr (inl (m, p, o, refl))
Visit-cases out_of_fuel = inr (inr refl)

pub push-Grows :
    (n : ℕ) (m m' : Map Mark)
    → mark_of m n ≡ unvisited
    → Grows (insert n in_progress m) m'
    → Grows m (insert n done m')
push-Grows n m m' new g = record {
  finished = λ k e. elim (Bool-cases (n == k)) [
    | inl now ↦ rw (mark_of-insert n k done m', now) refl
    | inr other ↦
        rw (mark_of-insert n k done m', other)
          (g.finished k (rw (mark_of-insert n k in_progress m, other) e))
  ];
  opened = λ k e. elim (Bool-cases (n == k)) [
    | inl now ↦ absurd (clash k now e)
    | inr other ↦
        rw (mark_of-insert n k done m', other)
          (g.opened k (rw (mark_of-insert n k in_progress m, other) e))
  ];
  settled = λ k e. elim (Bool-cases (n == k)) [
    | inl now ↦ absurd (closed k now e)
    | inr other ↦
        rw (mark_of-insert n k in_progress m, other) at
          (g.settled k (rw (mark_of-insert n k done m', other) at e))
  ];
}
  where
    clash : (k : ℕ) → (n == k) ≡ true → mark_of m k ≡ in_progress → ⊥
    clash k now e = let e' : mark_of m n ≡ in_progress = rw ((==_iff n k).0 now) e in cc

    closed : (k : ℕ) → (n == k) ≡ true → mark_of (insert n done m') k ≡ in_progress → ⊥
    closed k now e = let e' : done ≡ in_progress = rw (mark_of-insert n k done m', now) at e in cc

module _ (edges : Map (List ℕ)) where
  -- A walk along needed packages back to its first one.
  abbrev pub IsCycle : List ℕ → Type 0
  IsCycle c = (x : ℕ) × Route (Needs edges) x x c × (2 ≤ length c)

  abbrev pub unmarked : Map Mark → ℕ
  unmarked m = unseen (λ k. is_visited (mark_of m k)) (keys edges)

  pub unmarked-Grows : (m m' : Map Mark) → Grows m m' → unmarked m' ≤ unmarked m
  unmarked-Grows m m' g = unseen_mono _ _ (keys edges) (λ k h. elim (mark-cases (mark_of m k)) [
    | inl e ↦ absurd (no_ k e h)
    | inr (inl e) ↦ rw (g.opened k e) refl
    | inr (inr e) ↦ rw (g.finished k e) refl
  ])
    where
      no_ : (k : ℕ) → mark_of m k ≡ unvisited → is_visited (mark_of m k) ≡ true → ⊥
      no_ k e h = let h' : false ≡ true = rw e at h in cc

  -- The order holds the packages that are done, each after what it needs.
  pub record Inv (m : Map Mark) (path order : List ℕ) : Type 0 where
    pub listed : (k : ℕ) → mark_of m k ≡ done → elem k order ≡ true
    pub marked : (k : ℕ) → elem k order ≡ true → mark_of m k ≡ done
    pub ordered : Ordered edges [] order
    pub inside : (k : ℕ) → elem k order ≡ true → contains_key k edges ≡ true
    pub on_path : (k : ℕ) → mark_of m k ≡ in_progress → elem k path ≡ true

  abbrev pub Above : List ℕ → ℕ → Type 0
  Above path name =
      (path ≡ []) ⊎ ((b : ℕ) × (t : ℕ) × Route (Needs edges) b t path × Needs edges t name)

  pub push-Route :
      (path : List ℕ) (name : ℕ)
      → Above path name
      → (b : ℕ) × Route (Needs edges) b name (path ++ name ∷ [])
  push-Route path name (inl e) = (name, rw e (stop name))
  push-Route path name (inr (b, t, r, f)) = (b, Route-concat r f)

  pub cycle_from-IsCycle :
      (path : List ℕ) (name : ℕ)
      → Above path name
      → elem name path ≡ true
      → IsCycle (cycle_from path name)
  cycle_from-IsCycle path name (inl e) m = let m' : elem name [] ≡ true = rw e at m in cc
  cycle_from-IsCycle path name (inr (b, t, r, f)) m =
      let loop = Route-drop name r m in (name, Route-concat loop f, length-Route-concat name loop)
