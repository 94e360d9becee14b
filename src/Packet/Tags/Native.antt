-- ===== src/Packet/Tags/Native.antt =====
-- The tag operations at the native bitwise functions: the parameter `Bitflags` can be met.
use Prim.Native.Nat.{
  zero, suc, ◌*◌, ◌/◌, ◌%◌, ◌^◌, min, max, digits, bit_and, bit_or, bit_and-bitwise, bit_or-bitwise,
}
use native.Mathlib.Nat.{pow-suc}
use nyarix_runtime.Base.{ℕ, ◌+◌, ◌≤◌, ◌≡◌, refl, ◌∙◌, Bool, ◌||◌, ◌&&◌, not, ◌==◌, arith}
use nyarix_runtime.Packet.Tags.{bit, Bitflags}

-- The recursion on digits gives the same for any count that covers the first number.
and_enough :
    (n m a b : ℕ) → a ≤ n → a ≤ m → digits (λ b. zero) min n a b ≡ digits (λ b. zero) min m a b
and_enough zero zero a b p q = refl
and_enough zero (suc m) zero b p q = refl
and_enough zero (suc m) (suc a) b p q = absurd (omega arith)
and_enough (suc n) zero zero b p q = refl
and_enough (suc n) zero (suc a) b p q = absurd (omega arith)
and_enough (suc n) (suc m) zero b p q = refl
and_enough (suc n) (suc m) (suc a) b p q =
    omega (arith, and_enough n m (suc a / 2) (b / 2) (omega arith) (omega arith))

or_enough : (n m a b : ℕ) → a ≤ n → a ≤ m → digits (λ b. b) max n a b ≡ digits (λ b. b) max m a b
or_enough zero zero a b p q = refl
or_enough zero (suc m) zero b p q = refl
or_enough zero (suc m) (suc a) b p q = absurd (omega arith)
or_enough (suc n) zero zero b p q = refl
or_enough (suc n) zero (suc a) b p q = absurd (omega arith)
or_enough (suc n) (suc m) zero b p q = refl
or_enough (suc n) (suc m) (suc a) b p q =
    omega (arith, or_enough n m (suc a / 2) (b / 2) (omega arith) (omega arith))

zero-bit_and : (b : ℕ) → bit_and 0 b ≡ 0
zero-bit_and b = bit_and-bitwise 0 b

zero-bit_or : (b : ℕ) → bit_or 0 b ≡ b
zero-bit_or b = bit_or-bitwise 0 b

and_low : (a b : ℕ) → bit_and a b ≡ bit_and (a / 2) (b / 2) * 2 + min (a % 2) (b % 2)
and_low zero b = omega (arith, zero-bit_and b, zero-bit_and (b / 2))
and_low (suc a) b = omega (
  arith,
  bit_and-bitwise (suc a) b,
  bit_and-bitwise (suc a / 2) (b / 2),
  and_enough a (suc a / 2) (suc a / 2) (b / 2) (omega arith) (omega arith),
)

or_low : (a b : ℕ) → bit_or a b ≡ bit_or (a / 2) (b / 2) * 2 + max (a % 2) (b % 2)
or_low zero b = omega (arith, zero-bit_or b, zero-bit_or (b / 2))
or_low (suc a) b = omega (
  arith,
  bit_or-bitwise (suc a) b,
  bit_or-bitwise (suc a / 2) (b / 2),
  or_enough a (suc a / 2) (suc a / 2) (b / 2) (omega arith) (omega arith),
)

or_parts :
    (a b : ℕ) → (bit_or a b / 2 ≡ bit_or (a / 2) (b / 2)) × (bit_or a b % 2 ≡ max (a % 2) (b % 2))
or_parts a b = (omega (arith, or_low a b), omega (arith, or_low a b))

pub bit-bit_or : (i s t : ℕ) → bit i (bit_or s t) ≡ (bit i s || bit i t)
bit-bit_or zero s t = ground (arith, or_parts s t)
bit-bit_or (suc i) s t = rw ((or_parts s t).0) (bit-bit_or i (s / 2) (t / 2))

and_parts :
    (a b : ℕ)
    → (bit_and a b / 2 ≡ bit_and (a / 2) (b / 2)) × (bit_and a b % 2 ≡ min (a % 2) (b % 2))
and_parts a b = (omega (arith, and_low a b), omega (arith, and_low a b))

pub bit-bit_and : (i s t : ℕ) → bit i (bit_and s t) ≡ (bit i s && bit i t)
bit-bit_and zero s t = ground (arith, and_parts s t)
bit-bit_and (suc i) s t = rw ((and_parts s t).0) (bit-bit_and i (s / 2) (t / 2))

and-zero : (n s : ℕ) → s ≤ n → bit_and s 0 ≡ 0
and-zero zero zero h = zero-bit_and 0
and-zero zero (suc s) h = absurd (omega arith)
and-zero (suc n) zero h = zero-bit_and 0
and-zero (suc n) (suc s) h = omega (arith, and_low (suc s) 0, and-zero n (suc s / 2) (omega arith))

pow_parts : (i : ℕ) → ((2 ^ suc i) / 2 ≡ 2 ^ i) × ((2 ^ suc i) % 2 ≡ 0)
pow_parts i = (omega (arith, pow-suc 2 i), omega (arith, pow-suc 2 i))

abbrev pub covers : ℕ → ℕ → Bool
covers s t = bit_and s t == t

covers-low : (s t : ℕ) → t % 2 ≡ 0 → covers s t ≡ covers (s / 2) (t / 2)
covers-low s t h = ground (arith, and_low s t)

pub covers-single : (i s : ℕ) → covers s (2 ^ i) ≡ bit i s
covers-single zero s = ground (arith, and_low s 1, and-zero (s / 2) (s / 2) (omega arith))
covers-single (suc i) s =
    covers-low s (2 ^ suc i) ((pow_parts i).1) ∙ rw ((pow_parts i).0) (covers-single i (s / 2))

abbrev pub meets : ℕ → ℕ → Bool
meets s t = not (bit_and s t == 0)

meets-low : (s t : ℕ) → meets s t ≡ (meets (s / 2) (t / 2) || (s % 2 == 1) && (t % 2 == 1))
meets-low s t = ground (arith, and_low s t)

pub meets-single : (i s : ℕ) → meets s (2 ^ i) ≡ bit i s
meets-single zero s = ground (arith, and_low s 1, and-zero (s / 2) (s / 2) (omega arith))
meets-single (suc i) s =
    meets-low s (2 ^ suc i)
    ∙ rw ((pow_parts i).0, (pow_parts i).1) (ground (arith, meets-single i (s / 2)))

pub meets-or : (n s t u : ℕ) → s ≤ n → meets s (bit_or t u) ≡ (meets s t || meets s u)
meets-or n zero t u h = ground (arith, zero-bit_and (bit_or t u), zero-bit_and t, zero-bit_and u)
meets-or zero (suc s) t u h = absurd (omega arith)
meets-or (suc n) (suc s) t u h = ground (
  arith,
  meets-low (suc s) (bit_or t u),
  meets-low (suc s) t,
  meets-low (suc s) u,
  or_parts t u,
  meets-or n (suc s / 2) (t / 2) (u / 2),
)

abbrev pub native_flags : Bitflags
native_flags = record {
  insert = bit_or;
  contains = covers;
  intersects = meets;
  bit-insert = bit-bit_or;
  contains-single = covers-single;
  intersects-single = meets-single;
  intersects-insert = λ s t u. meets-or s s t u (omega arith);
}
