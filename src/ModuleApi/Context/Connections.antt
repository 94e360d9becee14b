-- ===== src/ModuleApi/Context/Connections.antt =====
-- The counts of open connections.
use nyarix_runtime.Base.{
  ℕ, suc, ◌+◌, ◌-◌, ◌^◌, ◌%◌, ◌<◌, ◌≤◌, ◌≡◌, refl, ◌∙◌, List, [], ◌∷◌, none, some, arith, ◌==◌,
  if◌then◌else◌, length, ==_iff, Option-cases, Bool-cases, inl, inr,
}
use nyarix_runtime.Base.Maps.{lookup, lookup-insert, lookup-adjust}
use nyarix_runtime.ModuleApi.Context.{
  RuntimeContext, ModuleMetadata, track_connection_opened, track_connection_closed,
  open_connection_count,
}

-- A connection of a module opens or closes.
pub data Change : Type 0 where
  opens closes : ModuleMetadata → Change

-- The count of one module, where the changes of the others are passed over.
abbrev pub tally : ℕ → ℕ → List Change → ℕ
tally name n [] = n
tally name n (opens m ∷ cs) = if m.name == name then tally name (suc n) cs else tally name n cs
tally name n (closes m ∷ cs) = if m.name == name then tally name (n - 1) cs else tally name n cs

tally_bounds : (name n : ℕ) (cs : List Change) → tally name n cs ≤ n + length cs
tally_bounds name n [] = omega arith
tally_bounds name n (opens m ∷ cs) =
    ground (arith, tally_bounds name (suc n) cs, tally_bounds name n cs)
tally_bounds name n (closes m ∷ cs) =
    ground (arith, tally_bounds name (n - 1) cs, tally_bounds name n cs)

module _ {D C R : Type 0} where
  unfoldable pub track : List Change → RuntimeContext D C R → RuntimeContext D C R
  unfolding track_connection_opened track_connection_closed
  track [] k = k
  track (opens m ∷ cs) k = track cs (track_connection_opened k m)
  track (closes m ∷ cs) k = track cs (track_connection_closed k m)

  opened-count :
      (name : ℕ) (k : RuntimeContext D C R) (m : ModuleMetadata)
      → suc (open_connection_count k name) < 2 ^ 64
      → open_connection_count (track_connection_opened k m) name ≡ (
          if m.name == name
          then suc (open_connection_count k name)
          else open_connection_count k name)
  unfolding open_connection_count track_connection_opened
  opened-count name k m h = elim (Bool-cases (m.name == name)) [
    | inl own ↦
        let same : m.name ≡ name = (==_iff m.name name).0 own in
        elim (Option-cases (lookup m.name k.open_connections)) [
          | inl e ↦
              let e' : lookup name k.open_connections ≡ none = rw (← same) e in
              ground (arith, own, e, e', lookup-insert m.name name 1 k.open_connections)
          | inr (n, e) ↦
              let e' : lookup name k.open_connections ≡ some n = rw (← same) e in
              ground
                (arith, own, e, e', lookup-insert m.name name ((n + 1) % 2 ^ 64) k.open_connections)
        ]
    | inr other ↦ elim (Option-cases (lookup m.name k.open_connections)) [
      | inl e ↦ ground (arith, other, e, lookup-insert m.name name 1 k.open_connections)
      | inr (n, e) ↦
          ground (arith, other, e, lookup-insert m.name name ((n + 1) % 2 ^ 64) k.open_connections)
    ]
  ]

  closed-count :
      (name : ℕ) (k : RuntimeContext D C R) (m : ModuleMetadata)
      → open_connection_count (track_connection_closed k m) name ≡ (
          if m.name == name then open_connection_count k name - 1 else open_connection_count k name)
  unfolding open_connection_count track_connection_closed
  closed-count name k m = elim (Option-cases (lookup name k.open_connections)) [
    | inl e ↦ ground (arith, e, lookup-adjust m.name name (λ count. count - 1) k.open_connections)
    | inr (n, e) ↦
        ground (arith, e, lookup-adjust m.name name (λ count. count - 1) k.open_connections)
  ]

  track_lem :
      (cs : List Change) (name : ℕ) (k : RuntimeContext D C R)
      → open_connection_count k name + length cs < 2 ^ 64
      → open_connection_count (track cs k) name ≡ tally name (open_connection_count k name) cs
  unfolding track
  track_lem [] name k h = refl
  track_lem (opens m ∷ cs) name k h =
      let next = opened-count name k m (omega arith) in
      elim (Bool-cases (m.name == name)) [
        | inl own ↦
            let e : open_connection_count (track_connection_opened k m) name
                ≡ suc (open_connection_count k name) =
              rw own at next in
            track_lem cs name (track_connection_opened k m) (rw e (omega arith)) ∙ rw (e, own) refl
        | inr other ↦
            let e : open_connection_count (track_connection_opened k m) name
                ≡ open_connection_count k name =
              rw other at next in
            track_lem cs name (track_connection_opened k m) (rw e (omega arith))
            ∙ rw (e, other) refl
      ]
  track_lem (closes m ∷ cs) name k h =
      let next = closed-count name k m in
      elim (Bool-cases (m.name == name)) [
        | inl own ↦
            let e : open_connection_count (track_connection_closed k m) name
                ≡ open_connection_count k name - 1 =
              rw own at next in
            track_lem cs name (track_connection_closed k m) (rw e (omega arith)) ∙ rw (e, own) refl
        | inr other ↦
            let e : open_connection_count (track_connection_closed k m) name
                ≡ open_connection_count k name =
              rw other at next in
            track_lem cs name (track_connection_closed k m) (rw e (omega arith))
            ∙ rw (e, other) refl
      ]

  -- As long as fewer than 2 ^ 64 connections can be counted, the count of a module after any changes is
  -- that of its own openings and closings alone, one more for each opening and one less, but never below
  -- zero, for each closing; and it is at most what it was and the number of changes.
  pub track-count :
      (cs : List Change) (name : ℕ) (k : RuntimeContext D C R)
      → open_connection_count k name + length cs < 2 ^ 64
      → (open_connection_count (track cs k) name ≡ tally name (open_connection_count k name) cs)
        × (open_connection_count (track cs k) name ≤ open_connection_count k name + length cs)
  track-count cs name k h =
      let same = track_lem cs name k h in
      (same, rw same (tally_bounds name (open_connection_count k name) cs))
