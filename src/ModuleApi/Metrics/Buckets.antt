-- ===== src/ModuleApi/Metrics/Buckets.antt =====
-- What the buckets of a histogram hold after any observations.
use Prim.Native.Nat.{◌^◌}
use mathlib.Core.List.{append-nil, append_assoc}
use nyarix_runtime.Base.{
  ℕ, suc, ◌+◌, ◌-◌, ◌%◌, ◌≡◌, refl, sym, ap, ◌∙◌, Bool, true, false, not, arith, List, [], ◌∷◌,
  ◌++◌, Option, none, some, inl, inr, length, length-append, retain, retain-append, Bool-cases,
}
use nyarix_runtime.ModuleApi.Metrics.{
  Floats, HistogramState, zeros, new, position, bucket_of, increment_at, observe,
}

module _ {F : Type 0} (fl : Floats F) where
  -- The values sifted by the bounds in their order: each bucket has those that no earlier bound caught
  -- and that are at most its own, and the last bucket has what is left.
  abbrev pub sifted : List F → List F → List ℕ
  sifted [] values = length values % 2 ^ 64 ∷ []
  sifted (bound ∷ bounds) values =
      length (retain (λ v. fl.at_most v bound) values) % 2 ^ 64
      ∷ sifted bounds (retain (λ v. not (fl.at_most v bound)) values)

  abbrev pub observe_all : HistogramState F → List F → Option (HistogramState F)
  observe_all h [] = some h
  observe_all h (v ∷ vs) = elim (observe fl h v) [ none ↦ none | some h' ↦ observe_all h' vs ]

  abbrev pub total : List F → F → F
  total [] sum = sum
  total (v ∷ vs) sum = total vs (fl.add sum v)

  length-sifted : (bounds values : List F) → length (sifted bounds values) ≡ suc (length bounds)
  length-sifted [] values = refl
  length-sifted (b ∷ bounds) values = ap suc (length-sifted bounds (retain _ values))

  zeros-sifted : (bounds : List F) → zeros fl (suc (length bounds)) ≡ sifted bounds []
  unfolding zeros
  zeros-sifted [] = refl
  zeros-sifted (b ∷ bounds) = ap (◌∷◌ 0) (zeros-sifted bounds)

  kept-last :
      (p : F → Bool) (values : List F) (v : F)
      → p v ≡ true
      → retain p (values ++ v ∷ []) ≡ retain p values ++ v ∷ []
  kept-last p values v e = retain-append p values (v ∷ []) ∙ rw e refl

  dropped-last :
      (p : F → Bool) (values : List F) (v : F)
      → p v ≡ false
      → retain p (values ++ v ∷ []) ≡ retain p values
  dropped-last p values v e = retain-append p values (v ∷ []) ∙ rw e (append-nil (retain p values))

  -- The bucket, or `d` if no bound catches the value.
  abbrev slot : F → List F → ℕ → ℕ
  slot v bounds d = elim (position fl v bounds) [ none ↦ d | some i ↦ i ]

  slot_caught :
      (v b : F) (bounds : List F) (d : ℕ) → fl.at_most v b ≡ true → slot v (b ∷ bounds) d ≡ 0
  unfolding position
  slot_caught v b bounds d e = ground (arith, e)

  slot_passed :
      (v b : F) (bounds : List F) (d : ℕ)
      → fl.at_most v b ≡ false
      → slot v (b ∷ bounds) (suc d) ≡ suc (slot v bounds d)
  unfolding position
  slot_passed v b bounds d e = ground (arith, e)

  mod-suc : (n : ℕ) → (n % 2 ^ 64 + 1) % 2 ^ 64 ≡ (n + 1) % 2 ^ 64
  mod-suc n = omega arith

  sifted_caught :
      (v b : F) (bounds values : List F)
      → fl.at_most v b ≡ true
      → sifted (b ∷ bounds) (values ++ v ∷ [])
        ≡ (length (retain (λ w. fl.at_most w b) values) % 2 ^ 64 + 1) % 2 ^ 64
          ∷ sifted bounds (retain (λ w. not (fl.at_most w b)) values)
  sifted_caught v b bounds values e =
      rw
        (
          kept-last (λ w. fl.at_most w b) values v e,
          dropped-last (λ w. not (fl.at_most w b)) values v (ap not e),
          length-append (retain (λ w. fl.at_most w b) values) (v ∷ []),
          mod-suc (length (retain (λ w. fl.at_most w b) values)),
        )
        refl

  sifted_passed :
      (v b : F) (bounds values : List F)
      → fl.at_most v b ≡ false
      → sifted (b ∷ bounds) (values ++ v ∷ [])
        ≡ length (retain (λ w. fl.at_most w b) values) % 2 ^ 64
          ∷ sifted bounds (retain (λ w. not (fl.at_most w b)) values ++ v ∷ [])
  sifted_passed v b bounds values e =
      rw
        (
          dropped-last (λ w. fl.at_most w b) values v e,
          kept-last (λ w. not (fl.at_most w b)) values v (ap not e),
        )
        refl

  increment_at-sifted :
      (v : F) (bounds values : List F)
      → increment_at fl (slot v bounds (length bounds)) (sifted bounds values)
        ≡ some (sifted bounds (values ++ v ∷ []))
  unfolding increment_at position
  increment_at-sifted v [] values =
      ground (arith, mod-suc (length values), length-append values (v ∷ []))
  increment_at-sifted v (b ∷ bounds) values = elim (Bool-cases (fl.at_most v b)) [
    | inl e ↦
        ap (λ i. increment_at fl i (sifted (b ∷ bounds) values))
          (slot_caught v b bounds (suc (length bounds)) e)
        ∙ ap some (sym (sifted_caught v b bounds values e))
    | inr e ↦
        let rest = retain (λ w. not (fl.at_most w b)) values in
        ap (λ i. increment_at fl i (sifted (b ∷ bounds) values))
          (slot_passed v b bounds (length bounds) e)
        ∙ (ground (arith, increment_at-sifted v bounds rest)
            ∙ ap some (sym (sifted_passed v b bounds values e)))
  ]

  -- The histogram after observations that left `values` in it.
  record Holds (bounds values : List F) (h : HistogramState F) : Type 0 where
    same_bounds : h.bounds ≡ bounds
    buckets : h.counts ≡ sifted bounds values
    number : h.count ≡ length values % 2 ^ 64

  bucket_of-slot :
      (v : F) (bounds values : List F) (h : HistogramState F)
      → Holds bounds values h
      → bucket_of fl v h ≡ slot v bounds (length bounds)
  unfolding bucket_of
  bucket_of-slot v bounds values h k =
      let last : length h.counts - 1 ≡ length bounds =
        omega (arith, ap length k.buckets, length-sifted bounds values) in
      ap (λ d. slot v h.bounds d) last ∙ ap (λ b. slot v b (length bounds)) k.same_bounds

  observe-Holds :
      (v : F) (bounds values : List F) (h : HistogramState F)
      → Holds bounds values h
      → (h' : HistogramState F) × (observe fl h v ≡ some h')
        × Holds bounds (values ++ v ∷ []) h'
        × (h'.sum ≡ fl.add h.sum v)
  unfolding observe
  observe-Holds v bounds values h k = (
    record h {
      counts = sifted bounds (values ++ v ∷ []);
      sum = fl.add h.sum v;
      count = (h.count + 1) % 2 ^ 64;
    },
    ground
        (arith, bucket_of-slot v bounds values h k, k.buckets, increment_at-sifted v bounds values),
    record {
      same_bounds = k.same_bounds;
      buckets = refl;
      number = ground (arith, k.number, mod-suc (length values), length-append values (v ∷ []));
    },
    refl,
  )

  observe_all-Holds :
      (vs bounds values : List F) (h : HistogramState F)
      → Holds bounds values h
      → (h' : HistogramState F) × (observe_all h vs ≡ some h')
        × Holds bounds (values ++ vs) h'
        × (h'.sum ≡ total vs h.sum)
  observe_all-Holds [] bounds values h k = (h, refl, rw (append-nil values) k, refl)
  observe_all-Holds (v ∷ vs) bounds values h k =
      let (one, e, k1, added) = observe-Holds v bounds values h k in
      let (all, e', k2, summed) = observe_all-Holds vs bounds (values ++ v ∷ []) one k1 in
      (
        all,
        rw (observe_all, e) e',
        rw⁻¹ (append_assoc values (v ∷ []) vs) k2,
        summed ∙ ap (total vs) added,
      )

  -- A new histogram takes any values without a panic. After that there is a bucket for each bound and
  -- one more, and a bucket counts the values that are at most its bound and were caught by no earlier
  -- one; the number of values is kept, both modulo 2 ^ 64, and the sum is that of the values in turn.
  pub observe_all-new :
      (bounds values : List F)
      → (h : HistogramState F) × (observe_all (new fl bounds) values ≡ some h)
        × (h.bounds ≡ bounds)
        × (h.counts ≡ sifted bounds values)
        × (length h.counts ≡ suc (length bounds))
        × (h.count ≡ length values % 2 ^ 64)
        × (h.sum ≡ total values fl.zero_value)
  unfolding new
  observe_all-new bounds values =
      let one_more : length bounds + 1 ≡ suc (length bounds) = omega arith in
      let empty : Holds bounds [] (new fl bounds) = record {
        same_bounds = refl;
        buckets = ap (zeros fl) one_more ∙ zeros-sifted bounds;
        number = refl;
      } in
      let (h, e, k, summed) = observe_all-Holds values bounds [] (new fl bounds) empty in
      (
        h,
        e,
        k.same_bounds,
        k.buckets,
        ap length k.buckets ∙ length-sifted bounds values,
        k.number,
        summed,
      )
