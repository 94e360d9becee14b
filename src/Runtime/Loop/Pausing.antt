-- ===== src/Runtime/Loop/Pausing.antt =====
-- What the execution loop does while the graph is paused.
use nyarix_runtime.Base.{
  ℕ, zero, suc, ◌≡◌, refl, ap, ◌∙◌, ◌⊎◌, inl, inr, true, false, List, [], ◌∷◌, none, some, arith,
  Option-cases, is_some,
}
use nyarix_runtime.Runtime.Pause.{is_paused, wait_until_resumed, wait_until_paused}
use nyarix_runtime.Runtime.Loop.{
  waiting, selecting, Setting, Running, Action, pauses, resumes, drops_handles, cancels, sends,
  drops_senders, reads, drops_reader, expires, changes, expire, act, select, turn, turns,
}

module _ {M C W : Type 0} (cfg : Setting M C W) where
  -- The other tasks neither resume the graph nor drop the handles.
  abbrev pub Holding : List (Action M C) → Type 0
  Holding [] = Unit {0}
  Holding (resumes ∷ actions) = ⊥
  Holding (drops_handles ∷ actions) = ⊥
  Holding (a ∷ actions) = Holding actions

  abbrev pub acts_in_turn : List (Action M C) → Running M C W → Running M C W
  acts_in_turn [] s = s
  acts_in_turn (a ∷ actions) s = acts_in_turn actions (act cfg a s)

  -- At `wait_until_resumed`, paused, with a handle left.
  pub record Held (s : Running M C W) : Type 0 where
    pub at : s.phase ≡ waiting
    pub paused : is_paused cfg.watch s.pause ≡ true
    pub held : cfg.watch.is_open s.pause ≡ true

  -- Paused for good: every handle was dropped during a pause, and no shutdown is requested.
  pub record Abandoned (s : Running M C W) : Type 0 where
    pub at : (s.phase ≡ waiting) ⊎ (s.phase ≡ selecting)
    pub paused : is_paused cfg.watch s.pause ≡ true
    pub dropped : cfg.watch.is_open s.pause ≡ false
    pub running : s.shutdown ≡ false

  turn-Abandoned :
      (extra : ℕ) (s : Running M C W)
      → Abandoned s
      → (t : Running M C W) × (turn cfg extra s ≡ some t)
        × Abandoned t
        × (t.source ≡ s.source)
        × (t.taken ≡ s.taken)
  unfolding turn select is_paused wait_until_resumed wait_until_paused
  turn-Abandoned extra s a = elim a.at [
    | inl at ↦ (
      record s { phase = selecting },
      ground (arith, at, a.paused, a.dropped),
      record { at = inr refl; paused = a.paused; dropped = a.dropped; running = a.running },
      refl,
      refl,
    )
    | inr at ↦ (
      record s { phase = waiting },
      ground (arith, at, a.paused, a.running),
      record { at = inl refl; paused = a.paused; dropped = a.dropped; running = a.running },
      refl,
      refl,
    )
  ]

  -- Once every pause handle was dropped during a pause, and while no shutdown is requested and no
  -- other task acts, the task at one of the two waits for the pause goes round its loop for ever:
  -- after any number of transitions it has another one, and has taken no packet out of the source.
  pub turns-Abandoned :
      (extra n : ℕ) (s : Running M C W)
      → Abandoned s
      → Abandoned (turns cfg extra n s)
        × (is_some (turn cfg extra (turns cfg extra n s)) ≡ true)
        × ((turns cfg extra n s).source ≡ s.source)
        × ((turns cfg extra n s).taken ≡ s.taken)
  unfolding turns
  turns-Abandoned extra zero s a =
      let (t, e, b, source, taken) = turn-Abandoned extra s a in (a, rw e refl, refl, refl)
  turns-Abandoned extra (suc n) s a =
      let (t, e, b, source, taken) = turn-Abandoned extra s a in
      let (c, more, source', taken') = turns-Abandoned extra n t b in
      rw (e, turns) (c, more, source' ∙ source, taken' ∙ taken)

  act-Held :
      (a : Action M C) (s : Running M C W)
      → Holding (a ∷ [])
      → Held s
      → Held (act cfg a s) × ((act cfg a s).taken ≡ s.taken)
  unfolding act is_paused nyarix_runtime.Runtime.Pause.pause nyarix_runtime.Runtime.Loop.expire
  act-Held pauses s h k =
      let (seen, still) = cfg.watch.send_seen s.pause true in
      (record { at = k.at; paused = seen; held = still ∙ k.held }, refl)
  act-Held resumes s h k = absurd h
  act-Held drops_handles s h k = absurd h
  act-Held cancels s h k = (record { at = k.at; paused = k.paused; held = k.held }, refl)
  act-Held (sends p) s h k = elim (Option-cases (cfg.ch.try_send s.source p)) [
    | inl e ↦ rw (e, act) (k, refl)
    | inr (c, e) ↦ rw (e, act) (record { at = k.at; paused = k.paused; held = k.held }, refl)
  ]
  act-Held drops_senders s h k = (record { at = k.at; paused = k.paused; held = k.held }, refl)
  act-Held reads s h k = elim (Option-cases (cfg.ch.try_recv s.sink)) [
    | inl e ↦ rw (e, act) (k, refl)
    | inr ((p, c), e) ↦ rw (e, act) (record { at = k.at; paused = k.paused; held = k.held }, refl)
  ]
  act-Held drops_reader s h k = (record { at = k.at; paused = k.paused; held = k.held }, refl)
  act-Held expires s h k =
      (record { at = ap (expire cfg) k.at; paused = k.paused; held = k.held }, refl)
  act-Held (changes g) s h k = (record { at = k.at; paused = k.paused; held = k.held }, refl)

  turn-Held : (extra : ℕ) (s : Running M C W) → Held s → turn cfg extra s ≡ none
  unfolding turn is_paused wait_until_resumed
  turn-Held extra s k = ground (arith, k.at, k.paused, k.held)

  Holding-step :
      (a : Action M C) (actions : List (Action M C))
      → Holding (a ∷ actions)
      → Holding (a ∷ []) × Holding actions
  Holding-step resumes actions h = absurd h
  Holding-step drops_handles actions h = absurd h
  Holding-step a actions h = (tt, h)

  -- A task that waits for the end of a pause makes no transition as long as the other tasks neither
  -- resume the graph nor drop the pause handles: whatever else they do, a request to shut down
  -- included, it still waits there and has taken no packet.
  pub acts_in_turn-Held :
      (extra : ℕ) (actions : List (Action M C)) (s : Running M C W)
      → Held s
      → Holding actions
      → Held (acts_in_turn actions s)
        × (turn cfg extra (acts_in_turn actions s) ≡ none)
        × ((acts_in_turn actions s).taken ≡ s.taken)
  acts_in_turn-Held extra [] s k h = (k, turn-Held extra s k, refl)
  acts_in_turn-Held extra (a ∷ actions) s k h =
      let (one, rest) = Holding-step a actions h in
      let (still, same) = act-Held a s one k in
      let (last, waits, kept) = acts_in_turn-Held extra actions (act cfg a s) still rest in
      (last, waits, kept ∙ same)
