-- ===== src/ModuleApi/RateLimiter/Bound.antt =====
-- How many calls a limiter lets through at one instant.
use nyarix_runtime.Base.{
  ℕ, zero, suc, ◌-◌, ◌^◌, ◌<◌, ◌≤◌, ◌≡◌, refl, ◌∙◌, ◌⊎◌, inl, inr, true, false, List, [], ◌∷◌,
  arith, if◌then◌else◌, min, Bool-cases,
}
use nyarix_runtime.ModuleApi.RateLimiter.{Floats, RateLimiter, new, refill, consume, try_acquire}

-- The time, as often as said.
abbrev pub repeated : ℕ → ℕ → List ℕ
repeated zero now = []
repeated (suc n) now = now ∷ repeated n now

module _ (fl : Floats) where
  -- Calls at the given times, the first first: the limiter after them, and how many got a token.
  unfoldable pub calls : List ℕ → RateLimiter → RateLimiter × ℕ
  unfolding try_acquire
  calls [] l = (l, 0)
  calls (now ∷ times) l =
      let first = try_acquire fl now l in
      let rest = calls times first.0 in (rest.0, if first.1 then suc rest.1 else rest.1)

  -- The limiter has the capacity and the rate with which it was built.
  record Built (capacity rate : ℕ) (l : RateLimiter) : Type 0 where
    same_capacity : l.capacity ≡ fl.of_u32 capacity
    same_rate : l.refill_per_second ≡ fl.of_u32 rate

  abbrev Below : ℕ → RateLimiter → Type 0
  Below k l = fl.at_most l.tokens (fl.of_u32 k) ≡ true

  consume-Built :
      (c r : ℕ) (l : RateLimiter)
      → Built c r l
      → Built c r (consume fl l).0 × ((consume fl l).0.last_refill ≡ l.last_refill)
  unfolding consume
  consume-Built c r l b = elim (Bool-cases (fl.at_most (fl.of_u32 1) l.tokens)) [
    | inl e ↦
        rw (e, consume) (record { same_capacity = b.same_capacity; same_rate = b.same_rate }, refl)
    | inr e ↦ rw (e, consume) (b, refl)
  ]

  refill-Built : (c r now : ℕ) (l : RateLimiter) → Built c r l → Built c r (refill fl now l)
  unfolding refill
  refill-Built c r now l b = record { same_capacity = b.same_capacity; same_rate = b.same_rate }

  calls-Built :
      (c r : ℕ) (times : List ℕ) (l : RateLimiter) → Built c r l → Built c r (calls times l).0
  unfolding calls try_acquire
  calls-Built c r [] l b = b
  calls-Built c r (now ∷ times) l b =
      calls-Built c r times _ (consume-Built c r (refill fl now l) (refill-Built c r now l b)).0

  -- Refilling never fills more than the capacity, and at the same instant it adds nothing.
  refill-full : (c r now : ℕ) (l : RateLimiter) → Built c r l → Below c (refill fl now l)
  unfolding refill
  refill-full c r now l b = rw (b.same_capacity) (fl.minimum-right _ c)

  refill-Below :
      (c r k now : ℕ) (l : RateLimiter)
      → Built c r l
      → l.last_refill ≡ now
      → Below k l
      → Below k (refill fl now l)
  unfolding refill
  refill-Below c r k now l b at h =
      let nothing : now - l.last_refill ≡ 0 = omega (arith, at) in
      rw (nothing, b.same_rate)
        (fl.minimum-left _ (fl.of_u32 k) l.capacity (fl.add-nothing l.tokens (fl.of_u32 k) r h))

  -- A token that is given is one of those that are there.
  consume-Below :
      (k : ℕ) (l : RateLimiter)
      → k < 2 ^ 32
      → Below k l
      → (((consume fl l).1 ≡ false) × Below k (consume fl l).0)
        ⊎ ((j : ℕ) × (k ≡ suc j) × ((consume fl l).1 ≡ true) × Below j (consume fl l).0)
  unfolding consume
  consume-Below k l small h = elim (Bool-cases (fl.at_most (fl.of_u32 1) l.tokens)) [
    | inr e ↦ inl (rw (e, consume) refl, rw (e, consume) h)
    | inl e ↦ taken k small h e
  ]
    where
      taken :
          (k : ℕ)
          → k < 2 ^ 32
          → Below k l
          → fl.at_most (fl.of_u32 1) l.tokens ≡ true
          → (((consume fl l).1 ≡ false) × Below k (consume fl l).0)
            ⊎ ((j : ℕ) × (k ≡ suc j) × ((consume fl l).1 ≡ true) × Below j (consume fl l).0)
      taken zero small h e = absurd (let none_left = fl.at_most-zero l.tokens h in cc)
      taken (suc j) small h e =
          inr (j, refl, rw (e, consume) refl, rw (e, consume) (fl.sub-one l.tokens j small h))

  refilled : (now : ℕ) (l : RateLimiter) → (refill fl now l).last_refill ≡ now
  unfolding refill
  refilled now l = refl

  burst :
      (n k c r now : ℕ) (l : RateLimiter)
      → k < 2 ^ 32
      → Built c r l
      → Below k (refill fl now l)
      → (calls (repeated n now) l).1 ≤ k
  unfolding calls try_acquire
  burst zero k c r now l small b h = omega arith
  burst (suc n) k c r now l small b h =
      let full = refill-Built c r now l b in
      let (next, at) = consume-Built c r (refill fl now l) full in
      elim (consume-Below k (refill fl now l) small h) [
        | inl (e, below) ↦
            rw (e, calls)
              (burst n k c r now _ small next
                (refill-Below c r k now _ next (at ∙ refilled now l) below))
        | inr (j, ks, e, below) ↦
            let fewer : j < 2 ^ 32 = omega arith in
            let rest =
              burst n j c r now _ fewer next
                (refill-Below c r j now _ next (at ∙ refilled now l) below) in
            rw (e, calls) (omega arith)
      ]

  -- A limiter with `m` tokens, at the instant of its last refill.
  refill_exact :
      (c r m now : ℕ) (l : RateLimiter)
      → m ≤ c
      → c < 2 ^ 32
      → Built c r l
      → l.last_refill ≡ now
      → l.tokens ≡ fl.of_u32 m
      → (refill fl now l).tokens ≡ fl.of_u32 m
  unfolding refill
  refill_exact c r m now l le small b at e =
      let nothing : now - l.last_refill ≡ 0 = omega (arith, at) in
      let fewer : m < 2 ^ 32 = omega arith in
      rw (nothing, b.same_rate, b.same_capacity, e, fl.add-nothing_exact m r fewer)
        (fl.minimum_exact m c le small)

  consume-zero :
      (l : RateLimiter)
      → l.tokens ≡ fl.of_u32 0
      → ((consume fl l).1 ≡ false) × ((consume fl l).0.tokens ≡ fl.of_u32 0)
  unfolding consume
  consume-zero l e =
      let same : fl.at_most l.tokens (fl.of_u32 0) ≡ true = rw e (
        rw (fl.minimum_exact 0 0 (omega arith) (omega arith)) at
          (fl.minimum-right (fl.of_u32 0) 0)) in
      let no_ : fl.at_most (fl.of_u32 1) l.tokens ≡ false = fl.at_most-zero l.tokens same in
      (rw (no_, consume) refl, rw (no_, consume) e)

  consume-suc :
      (m : ℕ) (l : RateLimiter)
      → suc m < 2 ^ 32
      → l.tokens ≡ fl.of_u32 (suc m)
      → ((consume fl l).1 ≡ true) × ((consume fl l).0.tokens ≡ fl.of_u32 m)
  unfolding consume
  consume-suc m l small e =
      let yes_ : fl.at_most (fl.of_u32 1) l.tokens ≡ true = rw e (fl.at_most-one m small) in
      (rw (yes_, consume) refl, rw (yes_, consume) (rw e (fl.sub-one_exact m small)))

  burst_exact :
      (n m c r now : ℕ) (l : RateLimiter)
      → m ≤ c
      → c < 2 ^ 32
      → Built c r l
      → l.last_refill ≡ now
      → l.tokens ≡ fl.of_u32 m
      → (calls (repeated n now) l).1 ≡ min n m
  unfolding calls try_acquire
  burst_exact zero m c r now l le small b at e = omega arith
  burst_exact (suc n) zero c r now l le small b at e =
      let (next, last) = consume-Built c r (refill fl now l) (refill-Built c r now l b) in
      let (no_, left) = consume-zero (refill fl now l) (refill_exact c r 0 now l le small b at e) in
      let rest = burst_exact n zero c r now _ le small next (last ∙ refilled now l) left in
      rw (no_, calls) (omega (arith, rest))
  burst_exact (suc n) (suc m) c r now l le small b at e =
      let (next, last) = consume-Built c r (refill fl now l) (refill-Built c r now l b) in
      let (yes_, left) =
        consume-suc m (refill fl now l) (omega arith)
          (refill_exact c r (suc m) now l le small b at e) in
      let rest = burst_exact n m c r now _ (omega arith) small next (last ∙ refilled now l) left in
      rw (yes_, calls) (omega (arith, rest))

  -- A new limiter lets exactly as many of the calls at its first instant through as it has capacity.
  -- After calls at any times, it lets at most that many of any number of calls at one instant through.
  pub calls-new :
      (start capacity rate : ℕ) (times : List ℕ) (n now : ℕ)
      → capacity < 2 ^ 32
      → ((calls (repeated n start) (new fl start capacity rate)).1 ≡ min n capacity)
        × ((calls (repeated n now) (calls times (new fl start capacity rate)).0).1 ≤ capacity)
  unfolding new
  calls-new start capacity rate times n now small =
      let built : Built capacity rate (new fl start capacity rate) = record {
        same_capacity = refl;
        same_rate = refl;
      } in
      let later = calls-Built capacity rate times (new fl start capacity rate) built in
      (
        burst_exact n capacity capacity rate start (new fl start capacity rate) (omega arith) small
            built refl refl,
        burst n capacity capacity rate now _ small later (refill-full capacity rate now _ later),
      )
