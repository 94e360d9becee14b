-- ===== src/Base/Walks.antt =====
-- Walks in a relation on identifiers, and how many identifiers of a list a search has not seen.
use Prim.Native.Nat.{ℕ, suc, ◌≤◌, ◌<◌}
use mathlib.Core.Path.{◌≡◌}
use mathlib.Core.Bool.{Bool, true, false}
use mathlib.Core.List.{List, [], ◌∷◌}
use native.Mathlib.Omega.{arith}
use mathlib.Core.Logic.{inl, inr}
use nyarix_runtime.Base.Tests.{◌==◌, ==_iff, if◌then◌else◌, Bool-cases}
use nyarix_runtime.Base.Lists.{elem, length}

-- `Route E u w p`: the list `p` is a walk from `u` to `w`, both ends included.
pub data Route (E : ℕ → ℕ → Type 0) : ℕ → ℕ → List ℕ → Type 0 where
  stop : (u : ℕ) → Route E u u (u ∷ [])
  hop : {u v w : ℕ} {p : List ℕ} → E u v → Route E v w p → Route E u w (u ∷ p)

-- There is a walk from `u` to the index.
pub data Reach (E : ℕ → ℕ → Type 0) (u : ℕ) : ℕ → Type 0 where
  here : Reach E u u
  step : {v w : ℕ} → Reach E u v → E v w → Reach E u w

pub Reach-trans : {E : ℕ → ℕ → Type 0} {u v w : ℕ} → Reach E u v → Reach E v w → Reach E u w
Reach-trans r here = r
Reach-trans r (step s e) = step (Reach-trans r s) e

pub Route-Reach : {E : ℕ → ℕ → Type 0} {u w : ℕ} {p : List ℕ} → Route E u w p → Reach E u w
Route-Reach (stop u) = here
Route-Reach (hop e r) = Reach-trans (step here e) (Route-Reach r)

pub unseen : (ℕ → Bool) → List ℕ → ℕ
unseen f [] = 0
unseen f (k ∷ ks) = if f k then unseen f ks else suc (unseen f ks)

pub unseen_mono :
    (f g : ℕ → Bool) (ks : List ℕ) → ((k : ℕ) → f k ≡ true → g k ≡ true) → unseen g ks ≤ unseen f ks
unfolding unseen
unseen_mono f g [] h = omega arith
unseen_mono f g (k ∷ ks) h = ground (arith, h k, unseen_mono f g ks h)

pub unseen_lt :
    (f g : ℕ → Bool) (ks : List ℕ) (k : ℕ)
    → ((k : ℕ) → f k ≡ true → g k ≡ true)
    → elem k ks ≡ true
    → f k ≡ false
    → g k ≡ true
    → unseen g ks < unseen f ks
unfolding unseen
unseen_lt f g [] k h m a b = cc
unseen_lt f g (j ∷ ks) k h m a b = elim (Bool-cases (j == k)) [
  | inl e ↦ rw ((==_iff j k).0 e, a, b) (omega (arith, unseen_mono f g ks h))
  | inr ne ↦ ground (arith, h j, unseen_lt f g ks k h)
]

pub unseen_zero :
    (f : ℕ → Bool) (ks : List ℕ) (k : ℕ) → elem k ks ≡ true → f k ≡ false → ¬ (unseen f ks ≤ 0)
unfolding unseen
unseen_zero f [] k m h = cc
unseen_zero f (j ∷ ks) k m h = ground (arith, unseen_zero f ks k, ==_iff j k)

pub unseen_le : (f : ℕ → Bool) (ks : List ℕ) → unseen f ks ≤ length ks
unfolding unseen
unseen_le f [] = omega arith
unseen_le f (k ∷ ks) = ground (arith, unseen_le f ks)

pub Route-map :
    {E F : ℕ → ℕ → Type 0} {u w : ℕ} {p : List ℕ}
    → ((u v : ℕ) → E u v → F u v)
    → Route E u w p
    → Route F u w p
Route-map f (stop u) = stop u
Route-map f (hop {u} {v} e r) = hop (f u v e) (Route-map f r)

pub Reach-map :
    {E F : ℕ → ℕ → Type 0} {u w : ℕ} → ((u v : ℕ) → E u v → F u v) → Reach E u w → Reach F u w
Reach-map f here = here
Reach-map f (step {v} {w} r e) = step (Reach-map f r) (f v w e)
