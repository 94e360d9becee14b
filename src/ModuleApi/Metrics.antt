-- ===== src/ModuleApi/Metrics.antt =====
-- crates/nyarix-module-api/src/metrics.rs: the histogram. Its lock makes each observation one step.
pub mod Buckets
use nyarix_runtime.Base.{
  ℕ, zero, suc, ◌+◌, ◌-◌, ◌%◌, ◌^◌, Bool, List, [], ◌∷◌, Option, none, some, if◌then◌else◌, length,
}

-- What the source uses of `f64`.
pub record Floats (F : Type 0) : Type 0 where
  pub zero_value : F
  pub add : F → F → F
  pub at_most : F → F → Bool

pub record HistogramState (F : Type 0) : Type 0 where
  pub bounds : List F
  pub counts : List ℕ
  pub sum : F
  pub count : ℕ

module _ {F : Type 0} (fl : Floats F) where
  -- `vec![0; n]`.
  unfoldable pub zeros : ℕ → List ℕ
  zeros zero = []
  zeros (suc n) = 0 ∷ zeros n

  unfoldable pub new : List F → HistogramState F
  unfolding zeros
  new bounds = record {
    bounds = bounds;
    counts = zeros (length bounds + 1);
    sum = fl.zero_value;
    count = 0;
  }

  -- `bounds.iter().position(|&bound| value <= bound)`.
  unfoldable pub position : F → List F → Option ℕ
  position value [] = none
  position value (bound ∷ bounds) =
      let rest = position value bounds in
      if fl.at_most value bound then some 0 else elim rest [ none ↦ none | some i ↦ some (suc i) ]

  unfoldable pub bucket_of : F → HistogramState F → ℕ
  unfolding position
  bucket_of value state = elim (position value state.bounds) [
    | some bucket ↦ bucket
    | none ↦ length state.counts - 1
  ]

  -- `state.counts[bucket] += 1` on 64 bits, where an overflow wraps; `none` is the panic of an index
  -- that is out of range.
  unfoldable pub increment_at : ℕ → List ℕ → Option (List ℕ)
  increment_at bucket [] = none
  increment_at zero (n ∷ counts) = some ((n + 1) % 2 ^ 64 ∷ counts)
  increment_at (suc bucket) (n ∷ counts) = elim (increment_at bucket counts) [
    | none ↦ none
    | some counts' ↦ some (n ∷ counts')
  ]

  unfoldable pub observe : HistogramState F → F → Option (HistogramState F)
  unfolding bucket_of increment_at
  observe state value = elim (increment_at (bucket_of value state) state.counts) [
    | none ↦ none
    | some counts ↦ some (record state {
      counts = counts;
      sum = fl.add state.sum value;
      count = (state.count + 1) % 2 ^ 64;
    })
  ]
