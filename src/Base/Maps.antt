-- ===== src/Base/Maps.antt =====
-- `HashMap` keyed by identifiers, as an association list. Its order stands for the order, which the
-- source leaves open, in which the entries are iterated.
use Prim.Native.Nat.{ℕ, suc}
use mathlib.Core.Path.{◌≡◌, refl, ap}
use mathlib.Core.Bool.{Bool, not}
use mathlib.Core.Logic.{inl, inr}
use mathlib.Core.Option.{Option, none, some}
use mathlib.Core.List.{List, [], ◌∷◌}
use native.Mathlib.Omega.{arith}
use nyarix_runtime.Base.Tests.{◌==◌, ==_refl, if◌then◌else◌, is_some, Bool-cases}
use nyarix_runtime.Base.Lists.{elem, length, retain}

abbrev pub Map {ℓ} : Type ℓ → Type ℓ
Map V = List (ℕ × V)

module _ {ℓ} {V : Type ℓ} where
  abbrev pub lookup : ℕ → Map V → Option V
  lookup k [] = none
  lookup k ((j, v) ∷ m) = if j == k then some v else lookup k m

  abbrev pub insert : ℕ → V → Map V → Map V
  insert k v [] = (k, v) ∷ []
  insert k v ((j, w) ∷ m) = if j == k then (j, v) ∷ m else (j, w) ∷ insert k v m

  abbrev pub remove : ℕ → Map V → Map V
  remove k m = retain (λ e. not (e.0 == k)) m

  abbrev pub keys : Map V → List ℕ
  keys [] = []
  keys ((k, v) ∷ m) = k ∷ keys m

  abbrev pub contains_key : ℕ → Map V → Bool
  contains_key k m = is_some (lookup k m)

  -- The value at a key that may be missing is passed through `f`.
  abbrev pub adjust : ℕ → (V → V) → Map V → Map V
  adjust k f [] = []
  adjust k f ((j, w) ∷ m) = if j == k then (j, f w) ∷ m else (j, w) ∷ adjust k f m

  abbrev pub map_values : (V → V) → Map V → Map V
  map_values f [] = []
  map_values f ((j, w) ∷ m) = (j, f w) ∷ map_values f m

module _ {ℓ} {V : Type ℓ} where
  pub lookup-insert :
      (k j : ℕ) (v : V) (m : Map V)
      → lookup j (insert k v m) ≡ (if k == j then some v else lookup j m)
  lookup-insert k j v [] = refl
  lookup-insert k j v ((i, w) ∷ m) = ground (arith, lookup-insert k j v m)

  pub lookup-remove :
      (k j : ℕ) (m : Map V) → lookup j (remove k m) ≡ (if k == j then none else lookup j m)
  lookup-remove k j [] = ground arith
  lookup-remove k j ((i, w) ∷ m) = ground (arith, lookup-remove k j m)

  pub lookup-map_values :
      (j : ℕ) (f : V → V) (m : Map V)
      → lookup j (map_values f m) ≡ elim (lookup j m) [ none ↦ none | some w ↦ some (f w) ]
  lookup-map_values j f [] = refl
  lookup-map_values j f ((i, w) ∷ m) = ground (arith, lookup-map_values j f m)

  pub lookup-adjust :
      (k j : ℕ) (f : V → V) (m : Map V)
      → lookup j (adjust k f m)
        ≡ elim (lookup j m) [ none ↦ none | some w ↦ if k == j then some (f w) else some w ]
  lookup-adjust k j f [] = refl
  lookup-adjust k j f ((i, w) ∷ m) = ground (arith, lookup-adjust k j f m)

  pub elem-keys : (k : ℕ) (m : Map V) → elem k (keys m) ≡ contains_key k m
  elem-keys k [] = refl
  elem-keys k ((j, w) ∷ m) = ground (arith, elem-keys k m)

  pub length-insert_new :
      (k : ℕ) (v : V) (m : Map V) → lookup k m ≡ none → length (insert k v m) ≡ suc (length m)
  length-insert_new k v [] h = refl
  length-insert_new k v ((j, w) ∷ m) h = ground (arith, length-insert_new k v m)

  pub length-keys : (m : Map V) → length (keys m) ≡ length m
  length-keys [] = refl
  length-keys ((j, w) ∷ m) = ap suc (length-keys m)

module _ {ℓ} {V : Type ℓ} where
  pub insert_same : (k : ℕ) (v : V) (m : Map V) → lookup k m ≡ some v → insert k v m ≡ m
  insert_same k v [] h = absurd cc
  insert_same k v ((j, w) ∷ m) h = elim (Bool-cases (j == k)) [
    | inl yes_ ↦ ground (arith, yes_, h)
    | inr no_ ↦ ground (arith, no_, h, insert_same k v m)
  ]

  pub insert_twice : (k : ℕ) (v w : V) (m : Map V) → insert k v (insert k w m) ≡ insert k v m
  insert_twice k v w [] = rw (==_refl k) refl
  insert_twice k v w ((j, u) ∷ m) = elim (Bool-cases (j == k)) [
    | inl yes_ ↦ rw (yes_, yes_) refl
    | inr no_ ↦ rw (no_, no_) (ap (λ xs. (j, u) ∷ xs) (insert_twice k v w m))
  ]
