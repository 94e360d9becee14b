-- ===== src/Loader/Dependencies/Ordering.antt =====
-- What a load order is, and the sorting of names.
use nyarix_runtime.Base.{
  ℕ, ◌≡◌, refl, inl, inr, Bool, true, false, ◌&&◌, ◌||◌, List, [], ◌∷◌, ◌++◌, arith, ◌==◌, ==_iff,
  elem, elem-append, retain, Bool-cases,
}
use nyarix_runtime.Base.Maps.{Map, contains_key}
use nyarix_runtime.Loader.Dependencies.{dependencies, insert_sorted, sort, followed}

elem-insert_sorted : (k n : ℕ) (xs : List ℕ) → elem k (insert_sorted n xs) ≡ ((n == k) || elem k xs)
elem-insert_sorted k n [] = refl
elem-insert_sorted k n (x ∷ xs) = ground (arith, elem-insert_sorted k n xs)

pub elem-sort : (k : ℕ) (xs : List ℕ) → elem k (sort xs) ≡ elem k xs
elem-sort k [] = refl
elem-sort k (x ∷ xs) = ground (arith, elem-insert_sorted k x (sort xs), elem-sort k xs)

elem-retain : (p : ℕ → Bool) (k : ℕ) (xs : List ℕ) → elem k (retain p xs) ≡ (elem k xs && p k)
elem-retain p k [] = refl
elem-retain p k (x ∷ xs) = elim (Bool-cases (x == k)) [
  | inl now ↦ rw ((==_iff x k).0 now) (ground (arith, elem-retain p k xs))
  | inr other ↦ ground (arith, elem-retain p k xs)
]

module _ (edges : Map (List ℕ)) where
  -- The package `x` depends on `d`, and `d` is a known package.
  abbrev pub Needs : ℕ → ℕ → Type 0
  Needs x d = (elem d (dependencies edges x) ≡ true) × (contains_key d edges ≡ true)

  pub elem-followed :
      (x d : ℕ)
      → elem d (followed edges x) ≡ (elem d (dependencies edges x) && contains_key d edges)
  elem-followed x d = ground (
    arith,
    elem-retain (λ k. contains_key k edges) d (sort (dependencies edges x)),
    elem-sort d (dependencies edges x),
  )

  -- Each package of the list comes after the packages that it needs, those in `before` included,
  -- and comes once.
  abbrev pub Ordered : List ℕ → List ℕ → Type 0
  Ordered before [] = Unit {0}
  Ordered before (x ∷ xs) =
      ((d : ℕ) → Needs x d → elem d before ≡ true)
      × (elem x before ≡ false)
      × Ordered (before ++ x ∷ []) xs

  pub Ordered-append :
      (before xs : List ℕ) (x : ℕ)
      → Ordered before xs
      → ((d : ℕ) → Needs x d → (elem d before || elem d xs) ≡ true)
      → (elem x before || elem x xs) ≡ false
      → Ordered before (xs ++ x ∷ [])
  Ordered-append before [] x o needs new =
      (λ d n. let h = needs d n in ground arith, ground arith, tt)
  Ordered-append before (y ∷ ys) x (first, fresh, rest) needs new = (
    first,
    fresh,
    Ordered-append (before ++ y ∷ []) ys x rest
        (λ d n. ground (arith, needs d n, elem-append d before (y ∷ [])))
        (ground (arith, elem-append x before (y ∷ []))),
  )
