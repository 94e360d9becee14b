-- ===== src/ModuleApi/Fallback/Choice.antt =====
-- Which module a load request is resolved to.
use nyarix_runtime.Base.{
  ℕ, ◌≡◌, refl, ◌⊎◌, inl, inr, Bool, true, false, ◌&&◌, List, [], ◌∷◌, Option, none, some, find,
  arith, Bool-cases, leb, ◌==◌,
}
use nyarix_runtime.ModuleApi.Versioning.{ApiVersion, equal, is_compatible}
use nyarix_runtime.ModuleApi.Fallback.{
  Resolution, exact_match, compatible_version, fallback, incompatible, last_resort, resolve,
}

-- The first element that passes the test.
pub data First {A : Type 0} (p : A → Bool) : List A → A → Type 0 where
  now : {x : A} {xs : List A} → p x ≡ true → First p (x ∷ xs) x
  later : {x y : A} {xs : List A} → p y ≡ false → First p xs x → First p (y ∷ xs) x

-- No element passes the test.
abbrev pub NoneOf : {A : Type 0} → (A → Bool) → List A → Type 0
NoneOf p [] = Unit {0}
NoneOf p (x ∷ xs) = (p x ≡ false) × NoneOf p xs

find-First :
    {A : Type 0} (p : A → Bool) (xs : List A)
    → ((find p xs ≡ none) × NoneOf p xs) ⊎ ((x : A) × (find p xs ≡ some x) × First p xs x)
find-First p [] = inl (refl, tt)
find-First p (x ∷ xs) = elim (Bool-cases (p x)) [
  | inl hit ↦ inr (x, rw hit refl, now hit)
  | inr miss ↦ elim (find-First p xs) [
    | inl (e, n) ↦ inl (rw miss e, (miss, n))
    | inr (y, e, f) ↦ inr (y, rw miss e, later miss f)
  ]
]

-- The version with the same numbers.
abbrev pub exactly : ApiVersion → ℕ × ApiVersion → Bool
exactly required c = equal c.1 required

-- The version with the same major number and no smaller a minor number.
abbrev pub serves : ApiVersion → ℕ × ApiVersion → Bool
serves required c = (c.1.major == required.major) && leb required.minor c.1.minor

-- What each resolution says of the candidates.
abbrev pub Justified : ApiVersion → List (ℕ × ApiVersion) → Option ℕ → Resolution → Type 0
Justified required cs alternative (exact_match name) =
    (v : ApiVersion) × First (exactly required) cs (name, v)
Justified required cs alternative (compatible_version name) =
    NoneOf (exactly required) cs × ((v : ApiVersion) × First (serves required) cs (name, v))
Justified required cs alternative (fallback name) =
    NoneOf (serves required) cs × (alternative ≡ some name)
Justified required cs alternative incompatible = NoneOf (serves required) cs × (alternative ≡ none)

serves-is_compatible :
    (required : ApiVersion) (c : ℕ × ApiVersion) → is_compatible required c.1 ≡ serves required c
unfolding is_compatible
serves-is_compatible required c = ground arith

NoneOf-map :
    {A : Type 0} (p q : A → Bool) (xs : List A) → ((x : A) → p x ≡ q x) → NoneOf p xs → NoneOf q xs
NoneOf-map p q [] h n = tt
NoneOf-map p q (x ∷ xs) h n = (rw (← h x) (n.0), NoneOf-map p q xs h n.1)

First-map :
    {A : Type 0} (p q : A → Bool) (xs : List A) (x : A)
    → ((x : A) → p x ≡ q x)
    → First p xs x
    → First q xs x
First-map p q [] x h f = elim f [ ]
First-map p q (y ∷ xs) x h (now e) = now (rw (← h x) e)
First-map p q (y ∷ xs) x h (later e f) = later (rw (← h y) e) (First-map p q xs x h f)

last_resort-Justified :
    (required : ApiVersion) (cs : List (ℕ × ApiVersion)) (alternative : Option ℕ)
    → NoneOf (serves required) cs
    → Justified required cs alternative (last_resort alternative)
last_resort-Justified required cs none n = (n, refl)
last_resort-Justified required cs (some name) n = (n, refl)

-- A load request is resolved to the first candidate of exactly the required version if there is one,
-- else to the first with the required major number and no smaller a minor number, else to the
-- declared alternative, and is refused only if there is none of these.
pub resolve-Justified :
    (required : ApiVersion) (cs : List (ℕ × ApiVersion)) (alternative : Option ℕ)
    → Justified required cs alternative (resolve required cs alternative)
unfolding resolve
resolve-Justified required cs alternative = elim (find-First (exactly required) cs) [
  | inr (c, e, f) ↦ rw (e, resolve) (c.1, f)
  | inl (e, n) ↦ elim (find-First (λ (c : ℕ × ApiVersion). is_compatible required c.1) cs) [
    | inr (c, e', f) ↦
        rw (e, resolve, e')
          (n, (c.1, First-map _ (serves required) cs c (serves-is_compatible required) f))
    | inl (e', n') ↦
        rw (e, resolve, e')
          (last_resort-Justified required cs alternative
            (NoneOf-map _ (serves required) cs (serves-is_compatible required) n'))
  ]
]
