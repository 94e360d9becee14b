-- ===== src/Graph/Throughput/Window.antt =====
-- What the tracker holds after any history of samples.
use nyarix_runtime.Base.{
  ℕ, ◌-◌, ◌≤◌, ◌≡◌, refl, sym, ap, ◌∙◌, inl, inr, Bool, true, false, List, [], ◌∷◌, ◌++◌, Option,
  none, some, ltb, leb, ◌==◌, if◌then◌else◌, arith, retain, retain-append, Bool-cases,
}
use nyarix_runtime.Graph.Throughput.{
  ThroughputTracker, with_window, samples_in, prune_window, record_bytes,
}

-- A sample that is recorded: its time, its flow and its bytes.
abbrev pub Sample : Type 0
Sample = ℕ × ℕ × ℕ

-- The tracker after a history, the newest sample first; `none` if a call panicked.
unfoldable pub run : ℕ → List Sample → Option ThroughputTracker
run window [] = some (with_window window)
run window ((now, flow, bytes) ∷ older) = elim (run window older) [
  | none ↦ none
  | some t ↦ record_bytes now t flow bytes
]

-- The times do not go back, and the clock has run for at least a window.
abbrev pub Timely : ℕ → List Sample → Type 0
Timely window [] = Unit {0}
Timely window ((now, flow, bytes) ∷ []) = window ≤ now
Timely window ((now, flow, bytes) ∷ (before, f, b) ∷ older) =
    (before ≤ now) × Timely window ((before, f, b) ∷ older)

-- The samples that pass a test on their flow, the oldest first.
abbrev pub samples : (ℕ → Bool) → List Sample → List (ℕ × ℕ)
samples p [] = []
samples p ((now, flow, bytes) ∷ older) =
    if p flow then samples p older ++ (now, bytes) ∷ [] else samples p older

-- Those taken at `cutoff` or later.
abbrev pub recent : ℕ → List (ℕ × ℕ) → List (ℕ × ℕ)
recent cutoff xs = retain (λ s. leb cutoff s.0) xs

abbrev pub AllFrom : ℕ → List (ℕ × ℕ) → Type 0
AllFrom t [] = Unit {0}
AllFrom t (x ∷ xs) = (t ≤ x.0) × AllFrom t xs

abbrev pub AllUntil : ℕ → List (ℕ × ℕ) → Type 0
AllUntil t [] = Unit {0}
AllUntil t (x ∷ xs) = (x.0 ≤ t) × AllUntil t xs

abbrev pub Rising : List (ℕ × ℕ) → Type 0
Rising [] = Unit {0}
Rising (x ∷ xs) = AllFrom x.0 xs × Rising xs

AllFrom-append :
    (t : ℕ) (xs : List (ℕ × ℕ)) (x : ℕ × ℕ) → AllFrom t xs → t ≤ x.0 → AllFrom t (xs ++ x ∷ [])
AllFrom-append t [] x a h = (h, tt)
AllFrom-append t (y ∷ xs) x a h = (a.0, AllFrom-append t xs x a.1 h)

Rising-append :
    (xs : List (ℕ × ℕ)) (x : ℕ × ℕ) → Rising xs → AllUntil x.0 xs → Rising (xs ++ x ∷ [])
Rising-append [] x r u = (tt, tt)
Rising-append (y ∷ xs) x r u = (AllFrom-append y.0 xs x r.0 u.0, Rising-append xs x r.1 u.1)

AllUntil-append :
    (t : ℕ) (xs : List (ℕ × ℕ)) (x : ℕ × ℕ) → AllUntil t xs → x.0 ≤ t → AllUntil t (xs ++ x ∷ [])
AllUntil-append t [] x a h = (h, tt)
AllUntil-append t (y ∷ xs) x a h = (a.0, AllUntil-append t xs x a.1 h)

pub AllUntil-le : (s t : ℕ) (xs : List (ℕ × ℕ)) → s ≤ t → AllUntil s xs → AllUntil t xs
AllUntil-le s t [] h a = tt
AllUntil-le s t (x ∷ xs) h a = (omega (arith, a.0), AllUntil-le s t xs h a.1)

recent_all : (c t : ℕ) (xs : List (ℕ × ℕ)) → c ≤ t → AllFrom t xs → recent c xs ≡ xs
recent_all c t [] h a = refl
recent_all c t (x ∷ xs) h a =
    let keep : leb c x.0 ≡ true = let le = a.0 in ground arith in
    rw keep (ap (◌∷◌ x) (recent_all c t xs h a.1))

-- Pruning what an earlier pruning left is pruning the whole.
pub prune_window-recent :
    (c d : ℕ) (xs : List (ℕ × ℕ)) → c ≤ d → Rising xs → prune_window d (recent c xs) ≡ recent d xs
prune_window-recent c d [] h r = refl
prune_window-recent c d (x ∷ xs) h r = elim (Bool-cases (leb c x.0)) [
  | inr gone ↦
      let gone' : leb d x.0 ≡ false = ground arith in
      rw (gone, gone') (prune_window-recent c d xs h r.1)
  | inl kept ↦ elim (Bool-cases (leb d x.0)) [
    | inr gone ↦
        let drop_ : ltb x.0 d ≡ true = ground arith in
        rw (kept, gone, drop_) (prune_window-recent c d xs h r.1)
    | inl stays ↦
        let stop_ : ltb x.0 d ≡ false = ground arith in
        let low : c ≤ x.0 = ground arith in
        let high : d ≤ x.0 = ground arith in
        rw (kept, stays, stop_)
          (ap (◌∷◌ x) (recent_all c x.0 xs low r.0 ∙ sym (recent_all d x.0 xs high r.0)))
  ]
]

-- The time of the newest sample.
abbrev pub latest : List Sample → ℕ
latest [] = 0
latest ((now, flow, bytes) ∷ older) = now

-- The start of the window that ends at the newest sample.
abbrev pub cutoff : ℕ → List Sample → ℕ
cutoff window [] = 0
cutoff window ((now, flow, bytes) ∷ older) = now - window

pub Timely-older :
    (window now flow bytes : ℕ) (older : List Sample)
    → Timely window ((now, flow, bytes) ∷ older)
    → Timely window older
      × (latest older ≤ now)
      × (cutoff window older ≤ now - window)
      × (window ≤ now)
Timely-older window now flow bytes [] h = (tt, omega arith, omega arith, h)
Timely-older window now flow bytes ((before, f, b) ∷ older) h =
    (h.1, h.0, omega (arith, h.0), late before f b older h.1 h.0)
  where
    late :
        (before f b : ℕ) (older : List Sample)
        → Timely window ((before, f, b) ∷ older)
        → before ≤ now
        → window ≤ now
    late before f b [] h le = omega (arith, h, le)
    late before f b ((x, y, z) ∷ older) h le = late x y z older h.1 (omega (arith, h.0, le))

pub samples-Rising :
    (p : ℕ → Bool) (window : ℕ) (hist : List Sample)
    → Timely window hist
    → Rising (samples p hist) × AllUntil (latest hist) (samples p hist)
samples-Rising p window [] h = (tt, tt)
samples-Rising p window ((now, flow, bytes) ∷ older) h =
    let (h', le, _, _) = Timely-older window now flow bytes older h in
    let (r, u) = samples-Rising p window older h' in
    let u' = AllUntil-le (latest older) now (samples p older) le u in
    elim (Bool-cases (p flow)) [
      | inl mine ↦ rw mine (
        Rising-append (samples p older) (now, bytes) r u',
        AllUntil-append now (samples p older) (now, bytes) u' (omega arith),
      )
      | inr other ↦ rw other (r, u')
    ]

-- One window over one record: with the sample or without it.
pub grown :
    (c d now bytes : ℕ) (xs ws : List (ℕ × ℕ))
    → c ≤ d
    → c ≤ now
    → Rising xs
    → AllUntil now xs
    → ws ≡ recent c xs
    → prune_window d (ws ++ (now, bytes) ∷ []) ≡ recent d (xs ++ (now, bytes) ∷ [])
grown c d now bytes xs ws h k r u e =
    let keep : leb c now ≡ true = ground arith in
    let whole : recent c (xs ++ (now, bytes) ∷ []) ≡ ws ++ (now, bytes) ∷ [] =
      retain-append (λ (s : ℕ × ℕ). leb c s.0) xs ((now, bytes) ∷ []) ∙ rw (keep, e) refl in
    rw (← whole) (prune_window-recent c d _ h (Rising-append xs (now, bytes) r u))

-- The tracker holds the samples from `c` on, in total and for each flow.
abbrev pub Holds : ℕ → ℕ → List Sample → Option ThroughputTracker → Type 0
Holds window c hist none = ⊥
Holds window c hist (some t) =
    (t.window ≡ window)
    × (t.total ≡ recent c (samples (λ f. true) hist))
    × ((flow : ℕ) → samples_in t.flows flow ≡ recent c (samples (λ f. f == flow) hist))
