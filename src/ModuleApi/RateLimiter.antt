-- ===== src/ModuleApi/RateLimiter.antt =====
-- crates/nyarix-module-api/src/rate_limiter.rs. Times are nanoseconds. An `f64` is its bit pattern, and
-- its arithmetic is the parameter `Floats`. The mutex makes each call one step.
pub mod Bound
use nyarix_runtime.Base.{ℕ, suc, ◌-◌, ◌^◌, ◌<◌, ◌≤◌, ◌≡◌, Bool, true, false, if◌then◌else◌}

-- The operations of `f64`, and what IEEE 754 says of them: the numbers of 32 bits and sums, differences
-- and minima of them that are such numbers are exact, and rounding keeps the order.
pub record Floats : Type 0 where
  -- `f64::from` of a `u32`, `Duration::as_secs_f64` of nanoseconds, and `<=`.
  pub of_u32 : ℕ → ℕ
  pub as_secs : ℕ → ℕ
  pub add : ℕ → ℕ → ℕ
  pub sub : ℕ → ℕ → ℕ
  pub mul : ℕ → ℕ → ℕ
  pub minimum : ℕ → ℕ → ℕ
  pub at_most : ℕ → ℕ → Bool
  pub minimum-right : (x n : ℕ) → at_most (minimum x (of_u32 n)) (of_u32 n) ≡ true
  pub minimum-left : (x y z : ℕ) → at_most x y ≡ true → at_most (minimum x z) y ≡ true
  pub add-nothing :
      (x y r : ℕ) → at_most x y ≡ true → at_most (add x (mul (as_secs 0) (of_u32 r))) y ≡ true
  pub sub-one :
      (x n : ℕ)
      → suc n < 2 ^ 32
      → at_most x (of_u32 (suc n)) ≡ true
      → at_most (sub x (of_u32 1)) (of_u32 n) ≡ true
  pub at_most-zero : (x : ℕ) → at_most x (of_u32 0) ≡ true → at_most (of_u32 1) x ≡ false
  pub add-nothing_exact :
      (n r : ℕ) → n < 2 ^ 32 → add (of_u32 n) (mul (as_secs 0) (of_u32 r)) ≡ of_u32 n
  pub minimum_exact : (m n : ℕ) → m ≤ n → n < 2 ^ 32 → minimum (of_u32 m) (of_u32 n) ≡ of_u32 m
  pub sub-one_exact : (n : ℕ) → suc n < 2 ^ 32 → sub (of_u32 (suc n)) (of_u32 1) ≡ of_u32 n
  pub at_most-one : (n : ℕ) → suc n < 2 ^ 32 → at_most (of_u32 1) (of_u32 (suc n)) ≡ true

-- `RateLimiter` with its `State`.
pub record RateLimiter : Type 0 where
  pub capacity : ℕ
  pub refill_per_second : ℕ
  pub tokens : ℕ
  pub last_refill : ℕ

module _ (fl : Floats) where
  unfoldable pub new : ℕ → ℕ → ℕ → RateLimiter
  new now capacity refill_per_second = record {
    capacity = fl.of_u32 capacity;
    refill_per_second = fl.of_u32 refill_per_second;
    tokens = fl.of_u32 capacity;
    last_refill = now;
  }

  -- `duration_since` is zero for a later time.
  unfoldable pub refill : ℕ → RateLimiter → RateLimiter
  refill now l = record l {
    tokens =
        fl.minimum (fl.add l.tokens (fl.mul (fl.as_secs (now - l.last_refill)) l.refill_per_second))
          l.capacity;
    last_refill = now;
  }

  unfoldable pub consume : RateLimiter → RateLimiter × Bool
  consume l =
      if fl.at_most (fl.of_u32 1) l.tokens
      then (record l { tokens = fl.sub l.tokens (fl.of_u32 1) }, true)
      else (l, false)

  unfoldable pub try_acquire : ℕ → RateLimiter → RateLimiter × Bool
  unfolding refill consume
  try_acquire now l = consume (refill now l)
