-- ===== src/Package/Signing/Injective.antt =====
-- The signed bytes determine the files that they are made from.
use Prim.Native.Nat.{◌^◌}
use native.Mathlib.Nat.{pow-suc}
use nyarix_runtime.Base.{
  ℕ, zero, suc, ◌/◌, ◌%◌, ◌<◌, ◌≡◌, refl, sym, ap, ◌∙◌, Bool, ◌||◌, List, [], ◌∷◌, ◌++◌, arith, inl,
  inr, length, any, retain, Bool-cases,
}
use nyarix_runtime.Package.Signing.{
  Bytes, Entry, before, insert_by_path, sort_by_path, covered, le_bytes, serialize, signable_bytes,
}

-- A path has no zero byte.
abbrev pub NoZero : Bytes → Type 0
NoZero [] = Unit {0}
NoZero (x ∷ xs) = (0 < x) × NoZero xs

-- The entries are what an archive can hold.
abbrev pub Sound : List Entry → Type 0
Sound [] = Unit {0}
Sound (e ∷ es) = NoZero e.0 × (length e.1 < 2 ^ 64) × Sound es

cons-injective : (x y : ℕ) (xs ys : Bytes) → x ∷ xs ≡ y ∷ ys → (x ≡ y) × (xs ≡ ys)
cons-injective x y xs ys h = ground (arith, h)

path_split : (p q r s : Bytes) → NoZero p → NoZero q → p ++ 0 ∷ r ≡ q ++ 0 ∷ s → (p ≡ q) × (r ≡ s)
path_split [] [] r s m n h = (refl, (cons-injective 0 0 r s h).1)
path_split [] (y ∷ q) r s m n h = absurd (ground (arith, cons-injective 0 y r (q ++ 0 ∷ s) h, n.0))
path_split (x ∷ p) [] r s m n h = absurd (ground (arith, cons-injective x 0 (p ++ 0 ∷ r) s h, m.0))
path_split (x ∷ p) (y ∷ q) r s m n h =
    let (e, rest) = cons-injective x y (p ++ 0 ∷ r) (q ++ 0 ∷ s) h in
    let (path, after) = path_split p q r s m.1 n.1 rest in (cc (e, path), after)

length_split : (a b r s : Bytes) → length a ≡ length b → a ++ r ≡ b ++ s → (a ≡ b) × (r ≡ s)
length_split [] [] r s l h = (refl, h)
length_split [] (y ∷ b) r s l h = absurd (omega arith)
length_split (x ∷ a) [] r s l h = absurd (omega arith)
length_split (x ∷ a) (y ∷ b) r s l h =
    let (e, rest) = cons-injective x y (a ++ r) (b ++ s) h in
    let (same, after) = length_split a b r s (omega arith) rest in (cc (e, same), after)

le_bytes_split :
    (w n m : ℕ) (r s : Bytes)
    → n < 256 ^ w
    → m < 256 ^ w
    → le_bytes w n ++ r ≡ le_bytes w m ++ s
    → (n ≡ m) × (r ≡ s)
le_bytes_split zero n m r s a b h = (omega arith, h)
le_bytes_split (suc w) n m r s a b h =
    let (low, rest) = cons-injective (n % 256) (m % 256) _ _ h in
    let (high, after) =
      le_bytes_split w (n / 256) (m / 256) r s (omega (arith, pow-suc 256 w))
        (omega (arith, pow-suc 256 w)) rest in
    (omega arith, after)

serialize-injective :
    (es fs : List Entry) → Sound es → Sound fs → serialize es ≡ serialize fs → es ≡ fs
unfolding serialize
serialize-injective [] [] a b h = refl
serialize-injective [] (([], c) ∷ fs) a b h = absurd cc
serialize-injective [] (((x ∷ p), c) ∷ fs) a b h = absurd cc
serialize-injective (([], c) ∷ es) [] a b h = absurd cc
serialize-injective (((x ∷ p), c) ∷ es) [] a b h = absurd cc
serialize-injective ((p, c) ∷ es) ((q, d) ∷ fs) a b h =
    let (path, rest) = path_split p q _ _ a.0 b.0 h in
    let (size, rest') = le_bytes_split 8 (length c) (length d) _ _ a.1 b.1 rest in
    let (contents, rest'') = length_split c d _ _ size rest' in
    let more = serialize-injective es fs a.2 b.2 rest'' in cc (path, contents, more)

module _ (P : Entry → Bool) where
  any-insert_by_path :
      (e : Entry) (es : List Entry) → any P (insert_by_path e es) ≡ (P e || any P es)
  unfolding insert_by_path
  any-insert_by_path e [] = refl
  any-insert_by_path e (f ∷ fs) = ground (arith, any-insert_by_path e fs)

  any-sort_by_path : (es : List Entry) → any P (sort_by_path es) ≡ any P es
  unfolding sort_by_path
  any-sort_by_path [] = refl
  any-sort_by_path (e ∷ es) =
      any-insert_by_path e (sort_by_path es) ∙ ground (arith, any-sort_by_path es)

Sound-insert_by_path :
    (e : Entry) (es : List Entry)
    → NoZero e.0
    → length e.1 < 2 ^ 64
    → Sound es
    → Sound (insert_by_path e es)
unfolding insert_by_path
Sound-insert_by_path e [] n l s = (n, l, tt)
Sound-insert_by_path e (f ∷ fs) n l s = elim (Bool-cases (before e.0 f.0)) [
  | inl first ↦ rw first (n, l, s)
  | inr after ↦ rw after (s.0, s.1, Sound-insert_by_path e fs n l s.2)
]

Sound-sort_by_path : (es : List Entry) → Sound es → Sound (sort_by_path es)
unfolding sort_by_path
Sound-sort_by_path [] s = tt
Sound-sort_by_path (e ∷ es) s =
    Sound-insert_by_path e (sort_by_path es) s.0 s.1 (Sound-sort_by_path es s.2)

Sound-retain : (q : Entry → Bool) (es : List Entry) → Sound es → Sound (retain q es)
Sound-retain q [] s = tt
Sound-retain q (e ∷ es) s = elim (Bool-cases (q e)) [
  | inl yes_ ↦ rw yes_ (s.0, s.1, Sound-retain q es s.2)
  | inr no_ ↦ rw no_ (Sound-retain q es s.2)
]

-- Two archives with the same signable bytes, whose paths have no zero byte and whose files are shorter
-- than 2 ^ 64, have the same files outside signatures/, with the same contents, once they are sorted by
-- path: whatever can be tested of a file, one has a file that passes if the other has.
pub signable_bytes-covered :
    (es fs : List Entry)
    → Sound es
    → Sound fs
    → signable_bytes es ≡ signable_bytes fs
    → (sort_by_path (covered es) ≡ sort_by_path (covered fs))
      × ((P : Entry → Bool) → any P (covered es) ≡ any P (covered fs))
unfolding signable_bytes
signable_bytes-covered es fs a b h =
    let same : sort_by_path (covered es) ≡ sort_by_path (covered fs) =
      serialize-injective (sort_by_path (covered es)) (sort_by_path (covered fs))
        (Sound-sort_by_path (covered es) (Sound-retain _ es a))
        (Sound-sort_by_path (covered fs) (Sound-retain _ fs b)) h in
    (
      same,
      λ P.
          sym (any-sort_by_path P (covered es)) ∙ ap (any P) same ∙ any-sort_by_path P (covered fs),
    )
