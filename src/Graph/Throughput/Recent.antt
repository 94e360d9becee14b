-- ===== src/Graph/Throughput/Recent.antt =====
-- The tracker holds exactly the recent samples.
use nyarix_runtime.Base.{
  ℕ, ◌-◌, ◌≤◌, ◌≡◌, refl, ◌∙◌, inl, inr, true, false, List, [], ◌∷◌, ◌++◌, some, ltb, ◌==◌,
  if◌then◌else◌, arith, Bool-cases, Option-cases, ==_iff,
}
use nyarix_runtime.Base.Maps.{Map, insert, map_values, lookup-insert, lookup-map_values}
use nyarix_runtime.Graph.Throughput.{
  ThroughputTracker, with_window, samples_in, prune_window, prune, record_bytes,
}
use nyarix_runtime.Graph.Throughput.Window.{
  Sample, run, Timely, samples, recent, AllUntil-le, prune_window-recent, latest, cutoff,
  Timely-older, samples-Rising, grown, Holds,
}

samples_in-pruned :
    (d flow : ℕ) (m : Map (List (ℕ × ℕ)))
    → samples_in (map_values (prune_window d) m) flow ≡ prune_window d (samples_in m flow)
samples_in-pruned d flow m = ground (arith, lookup-map_values flow (prune_window d) m)

samples_in-insert :
    (k flow : ℕ) (v : List (ℕ × ℕ)) (m : Map (List (ℕ × ℕ)))
    → samples_in (insert k v m) flow ≡ (if k == flow then v else samples_in m flow)
samples_in-insert k flow v m = ground (arith, lookup-insert k flow v m)

record_bytes-Holds :
    (window now flow bytes : ℕ) (older : List Sample) (t : ThroughputTracker)
    → Timely window ((now, flow, bytes) ∷ older)
    → Holds window (cutoff window older) older (some t)
    → Holds window (now - window) ((now, flow, bytes) ∷ older) (record_bytes now t flow bytes)
unfolding record_bytes prune
record_bytes-Holds window now flow bytes older t timely (w, total, flows) =
    let (timely', le, sooner, room) = Timely-older window now flow bytes older timely in
    let c = cutoff window older in
    let d = now - window in
    let early : c ≤ now = omega (arith, sooner) in
    let (rise, until) = samples-Rising (λ f. true) window older timely' in
    let until' = AllUntil-le (latest older) now (samples (λ f. true) older) le until in
    let runs : ltb now t.window ≡ false = rw w (ground arith) in
    rw (runs, record_bytes, prune, w)
      (
        refl,
        grown c d now bytes (samples (λ f. true) older) t.total sooner early rise until' total,
        λ f.
            samples_in-pruned d f
              (insert flow (samples_in t.flows flow ++ (now, bytes) ∷ []) t.flows)
            ∙ rw (samples_in-insert flow f (samples_in t.flows flow ++ (now, bytes) ∷ []) t.flows)
                (one_flow f timely' le sooner early),
      )
  where
    one_flow :
        (f : ℕ)
        → Timely window older
        → latest older ≤ now
        → cutoff window older ≤ now - window
        → cutoff window older ≤ now
        → prune_window (now - window) (
            if flow == f
            then samples_in t.flows flow ++ (now, bytes) ∷ []
            else samples_in t.flows f)
          ≡ recent (now - window) (samples (λ g. g == f) ((now, flow, bytes) ∷ older))
    one_flow f timely' le sooner early =
        let (rise, until) = samples-Rising (λ g. g == f) window older timely' in
        let until' = AllUntil-le (latest older) now (samples (λ g. g == f) older) le until in
        elim (Bool-cases (flow == f)) [
          | inl same ↦ rw same (
              grown (cutoff window older) (now - window) now bytes (samples (λ g. g == f) older)
                (samples_in t.flows flow) sooner early rise until'
                (rw ((==_iff flow f).0 same) (flows f)))
          | inr other ↦
              rw (other, flows f)
                (prune_window-recent (cutoff window older) (now - window)
                  (samples (λ g. g == f) older) sooner rise)
        ]

-- After any history of samples whose times do not go back, on a clock that has run for at least a
-- window, no call has panicked, and the tracker holds exactly the samples of the window that ends at
-- the newest one, oldest first, in total and for each flow.
pub run-Holds :
    (window : ℕ) (hist : List Sample)
    → Timely window hist
    → Holds window (cutoff window hist) hist (run window hist)
unfolding run with_window
run-Holds window [] h = (refl, refl, λ flow. refl)
run-Holds window ((now, flow, bytes) ∷ older) h =
    let before = run-Holds window older (Timely-older window now flow bytes older h).0 in
    elim (Option-cases (run window older)) [
      | inl e ↦ absurd (rw e at before)
      | inr (t, e) ↦
          rw (e, run) (record_bytes-Holds window now flow bytes older t h (rw e at before))
    ]
