-- ===== src/Graph/Throughput.antt =====
-- crates/nyarix-graph/src/throughput.rs, without the gauges that it exports. Times and durations are
-- nanoseconds, and a sample is its time and its bytes.
pub mod Window
pub mod Recent
use nyarix_runtime.Base.{
  ℕ, suc, ◌+◌, ◌-◌, ◌%◌, ◌^◌, Bool, true, false, List, [], ◌∷◌, ◌++◌, Option, none, some, ltb, ◌==◌,
  if◌then◌else◌,
}
use nyarix_runtime.Base.Maps.{Map, lookup, insert, map_values}

pub record ThroughputTracker : Type 0 where
  pub window : ℕ
  pub total : List (ℕ × ℕ)
  pub flows : Map (List (ℕ × ℕ))

-- `new` followed by `with_window`.
unfoldable pub with_window : ℕ → ThroughputTracker
with_window window = record { window = window; total = []; flows = [] }

-- The samples of a flow; none if the flow has no window.
abbrev pub samples_in : Map (List (ℕ × ℕ)) → ℕ → List (ℕ × ℕ)
samples_in flows flow = elim (lookup flow flows) [ none ↦ [] | some samples ↦ samples ]

abbrev pub prune_window : ℕ → List (ℕ × ℕ) → List (ℕ × ℕ)
prune_window cutoff [] = []
prune_window cutoff (s ∷ rest) = if ltb s.0 cutoff then prune_window cutoff rest else s ∷ rest

-- `none` is the panic of `now - self.window` below the start of the clock.
unfoldable pub prune : ℕ → ThroughputTracker → Option ThroughputTracker
prune now t =
    if ltb now t.window
    then none
    else some (record t {
      total = prune_window (now - t.window) t.total;
      flows = map_values (prune_window (now - t.window)) t.flows;
    })

-- `record`, at the time `now`.
unfoldable pub record_bytes : ℕ → ThroughputTracker → ℕ → ℕ → Option ThroughputTracker
unfolding prune
record_bytes now t flow bytes = prune now (record t {
  total = t.total ++ (now, bytes) ∷ [];
  flows = insert flow (samples_in t.flows flow ++ (now, bytes) ∷ []) t.flows;
})
