-- ===== src/Base/Lists.antt =====
-- Lists measured, searched and filtered by Boolean tests, as the source does with its iterators.
use Prim.Native.Nat.{ℕ, zero, suc, ◌+◌, ◌≤◌}
use mathlib.Core.Path.{◌≡◌, refl, ap}
use mathlib.Core.Bool.{Bool, true, false, ◌||◌}
use mathlib.Core.Option.{Option, none, some}
use mathlib.Core.List.{List, [], ◌∷◌, ◌++◌}
use mathlib.Core.Logic.{◌⊎◌, inl, inr}
use native.Mathlib.Omega.{arith}
use nyarix_runtime.Base.Tests.{Bool-cases, ==_iff, ◌==◌, if◌then◌else◌}

module _ {ℓ} {A : Type ℓ} where
  abbrev pub length : List A → ℕ
  length [] = 0
  length (x ∷ xs) = suc (length xs)

  pub length-append : (xs ys : List A) → length (xs ++ ys) ≡ length xs + length ys
  length-append [] ys = omega arith
  length-append (x ∷ xs) ys = omega (arith, length-append xs ys)

  abbrev pub get_elem? : List A → ℕ → Option A
  get_elem? [] i = none
  get_elem? (x ∷ xs) zero = some x
  get_elem? (x ∷ xs) (suc i) = get_elem? xs i

  abbrev pub drop : ℕ → List A → List A
  drop zero xs = xs
  drop (suc n) [] = []
  drop (suc n) (x ∷ xs) = drop n xs

  -- `Iterator::filter` and `Vec::retain`.
  abbrev pub retain : (A → Bool) → List A → List A
  retain p [] = []
  retain p (x ∷ xs) = if p x then x ∷ retain p xs else retain p xs

  -- `Iterator::find`.
  abbrev pub find : (A → Bool) → List A → Option A
  find p [] = none
  find p (x ∷ xs) = if p x then some x else find p xs

  abbrev pub any : (A → Bool) → List A → Bool
  any p [] = false
  any p (x ∷ xs) = p x || any p xs

  -- `Vec::remove` at the first position that passes the test, if there is one.
  abbrev pub remove_first : (A → Bool) → List A → List A
  remove_first p [] = []
  remove_first p (x ∷ xs) = if p x then xs else x ∷ remove_first p xs

  -- `Vec::pop`, the value dropped.
  abbrev pub drop_last : List A → List A
  drop_last [] = []
  drop_last (x ∷ []) = []
  drop_last (x ∷ y ∷ xs) = x ∷ drop_last (y ∷ xs)

module _ {ℓ} {A : Type ℓ} where
  pub retain-append :
      (p : A → Bool) (xs ys : List A) → retain p (xs ++ ys) ≡ retain p xs ++ retain p ys
  retain-append p [] ys = refl
  retain-append p (x ∷ xs) ys = ground (arith, retain-append p xs ys)

  pub length-retain : (p : A → Bool) (xs : List A) → length (retain p xs) ≤ length xs
  length-retain p [] = omega arith
  length-retain p (x ∷ xs) = ground (arith, length-retain p xs)

  pub any-append : (p : A → Bool) (xs ys : List A) → any p (xs ++ ys) ≡ (any p xs || any p ys)
  any-append p [] ys = refl
  any-append p (x ∷ xs) ys = ground (arith, any-append p xs ys)

  pub drop_last-concat : (xs : List A) (x : A) → drop_last (xs ++ x ∷ []) ≡ xs
  drop_last-concat [] x = refl
  drop_last-concat (y ∷ []) x = refl
  drop_last-concat (y ∷ z ∷ xs) x = ap (◌∷◌ y) (drop_last-concat (z ∷ xs) x)

-- `Vec::contains` on identifiers.
abbrev pub elem : ℕ → List ℕ → Bool
elem v xs = any (λ x. x == v) xs

-- `Iterator::position`.
abbrev pub position : (ℕ → Bool) → List ℕ → Option ℕ
position p [] = none
position p (x ∷ xs) =
    if p x then some 0 else elim (position p xs) [ none ↦ none | some i ↦ some (suc i) ]

pub elem-append : (v : ℕ) (xs ys : List ℕ) → elem v (xs ++ ys) ≡ (elem v xs || elem v ys)
elem-append v xs ys = any-append (λ x. x == v) xs ys

-- What `find` answers.
pub find_cases :
    (p : ℕ → Bool) (xs : List ℕ)
    → ((find p xs ≡ none) × ((x : ℕ) → elem x xs ≡ true → p x ≡ false))
      ⊎ ((x : ℕ) × (find p xs ≡ some x) × (elem x xs ≡ true) × (p x ≡ true))
find_cases p [] = inl (refl, λ x h. cc)
find_cases p (x ∷ xs) = elim (Bool-cases (p x)) [
  | inl hit ↦ inr (x, rw hit refl, ground arith, hit)
  | inr miss ↦ elim (find_cases p xs) [
    | inl (e, all) ↦ inl (rw miss e, λ y h. ground (arith, all y, ==_iff x y))
    | inr (y, e, m, h) ↦ inr (y, rw miss e, ground arith, h)
  ]
]

module _ {ℓ} {A : Type ℓ} where
  pub find-none : (p : A → Bool) (xs : List A) → find p xs ≡ none → retain p xs ≡ []
  find-none p [] h = refl
  find-none p (x ∷ xs) h = ground (arith, h, find-none p xs)

  pub find-some :
      (p : A → Bool) (xs : List A) (x : A)
      → find p xs ≡ some x
      → (rest : List A) × (retain p xs ≡ x ∷ rest)
  find-some p [] x h = absurd cc
  find-some p (y ∷ ys) x h = elim (Bool-cases (p y)) [
    | inl yes_ ↦ (retain p ys, ground (arith, yes_, h))
    | inr no_ ↦
        let (rest, e) = find-some p ys x (ground (arith, no_, h)) in (rest, ground (arith, no_, e))
  ]

  -- Nothing passes the test.
  abbrev pub None : (A → Bool) → List A → Type ℓ
  None p xs = retain p xs ≡ []

  pub None-retain : (p q : A → Bool) (xs : List A) → None p xs → None p (retain q xs)
  None-retain p q [] h = refl
  None-retain p q (x ∷ xs) h = ground (arith, h, None-retain p q xs)
