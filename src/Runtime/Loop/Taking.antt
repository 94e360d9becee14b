-- ===== src/Runtime/Loop/Taking.antt =====
-- When the execution loop takes a packet out of its source, and that it takes them in order.
use mathlib.Core.List.{append_assoc}
use nyarix_runtime.Base.{
  ℕ, ◌≡◌, refl, sym, ap, ◌∙◌, ◌⊎◌, inl, inr, false, [], ◌∷◌, ◌++◌, none, some, arith, length,
  Bool-cases, Option-cases,
}
use nyarix_runtime.Packet.{Packet}
use nyarix_runtime.Runtime.Pause.{is_paused, wait_until_paused}
use nyarix_runtime.Runtime.Loop.{
  Phase, waiting, selecting, sending, drain_sending, draining, stopping, done, Setting, Running,
  Action, process_one, take, forward, select, turn, act, sends, reads, runs, acts, Reach, start,
  later,
}

module _ {M C W : Type 0} (cfg : Setting M C W) where
  -- The source and its history are as before.
  abbrev pub Untouched : Running M C W → Running M C W → Type 0
  Untouched s t = (t.source ≡ s.source) × (t.taken ≡ s.taken) × (t.pushed ≡ s.pushed)

  -- The task may take a packet: it drains the source, or is neither stopped nor paused.
  pub data MayTake (s : Running M C W) : Type 0 where
    drains : s.phase ≡ draining → MayTake s
    serves :
        s.phase ≡ selecting → s.shutdown ≡ false → is_paused cfg.watch s.pause ≡ false → MayTake s

  -- The first packet of the source was taken.
  pub record Took (s t : Running M C W) : Type 0 where
    pub packet : Packet
    pub may : MayTake s
    pub front : cfg.ch.items s.source ≡ packet ∷ cfg.ch.items t.source
    pub noted : t.taken ≡ s.taken ++ packet ∷ []
    pub pushed : t.pushed ≡ s.pushed

  take_lem :
      (extra : ℕ) (next : Phase) (send : Packet → Phase) (p : Packet) (c : C) (s t : Running M C W)
      → take cfg extra next send p c s ≡ some t
      → (t.source ≡ c) × (t.taken ≡ s.taken ++ p ∷ []) × (t.pushed ≡ s.pushed)
  unfolding take
  take_lem extra next send p c s t h =
      elim (Option-cases (process_one cfg extra s.graph (length s.taken) p)) [
        | inl e ↦ cc (e, h)
        | inr ((g, none), e) ↦ ground (arith, e)
        | inr ((g, some out), e) ↦ ground (arith, e)
      ]

  forward_lem :
      (sent failed : Phase) (out : Packet) (s t : Running M C W)
      → forward cfg sent failed out s ≡ some t
      → Untouched s t
  unfolding forward
  forward_lem sent failed out s t h = ground arith

  Took-of :
      (extra : ℕ) (next : Phase) (send : Packet → Phase) (p : Packet) (c : C) (s t : Running M C W)
      → MayTake s
      → cfg.ch.items s.source ≡ p ∷ cfg.ch.items c
      → take cfg extra next send p c s ≡ some t
      → Took s t
  Took-of extra next send p c s t may front h =
      let (left, noted, pushed) = take_lem extra next send p c s t h in
      record { packet = p; may = may; front = rw left front; noted = noted; pushed = pushed }

  select_lem :
      (extra : ℕ) (s t : Running M C W)
      → s.phase ≡ selecting
      → select cfg extra s ≡ some t
      → Untouched s t ⊎ Took s t
  unfolding select is_paused wait_until_paused
  select_lem extra s t at h = elim (Bool-cases s.shutdown) [
    | inl stop ↦ inl (ground (arith, stop))
    | inr go ↦ elim (Bool-cases (wait_until_paused cfg.watch s.pause)) [
      | inl hold ↦ inl (ground (arith, go, hold))
      | inr on ↦ elim (cfg.ch.try_recv_cases s.source) [
        | inl (empty, none_left) ↦ inl (ground (arith, go, on, none_left))
        | inr (p, c, front, got, _, _) ↦
            let taken : take cfg extra waiting sending p c s ≡ some t =
              ground (arith, go, on, got) in
            inr (Took-of extra waiting sending p c s t (serves at go on) front taken)
      ]
    ]
  ]

  drain_lem :
      (extra : ℕ) (s t : Running M C W)
      → s.phase ≡ draining
      → turn cfg extra s ≡ some t
      → Untouched s t ⊎ Took s t
  unfolding turn
  drain_lem extra s t at h = elim (cfg.ch.try_recv_cases s.source) [
    | inl (empty, none_left) ↦ inl (ground (arith, at, none_left))
    | inr (p, c, front, got, _, _) ↦
        let taken : take cfg extra draining drain_sending p c s ≡ some t =
          ground (arith, at, got) in
        inr (Took-of extra draining drain_sending p c s t (drains at) front taken)
  ]

  turn_at :
      (extra : ℕ) (ph : Phase) (s t : Running M C W)
      → s.phase ≡ ph
      → turn cfg extra s ≡ some t
      → Untouched s t ⊎ Took s t
  unfolding turn
  turn_at extra waiting s t at h = inl (ground (arith, at))
  turn_at extra selecting s t at h = select_lem extra s t at (ground (arith, at))
  turn_at extra (sending out) s t at h =
      inl (forward_lem waiting draining out s t (ground (arith, at)))
  turn_at extra (drain_sending out) s t at h =
      inl (forward_lem draining stopping out s t (ground (arith, at)))
  turn_at extra draining s t at h = drain_lem extra s t at h
  turn_at extra stopping s t at h = inl (ground (arith, at))
  turn_at extra done s t at h = inl (ground (arith, at))

  -- A transition of the task either leaves the source alone or takes its first packet, and takes one
  -- only while it drains the source, or while no shutdown is requested and the graph is not paused.
  pub turn-Took :
      (extra : ℕ) (s t : Running M C W) → turn cfg extra s ≡ some t → Untouched s t ⊎ Took s t
  turn-Took extra s t h = turn_at extra s.phase s t refl h

  -- Every packet that the source accepted was taken, in this order, or is still in it.
  abbrev pub InOrder : Running M C W → Type 0
  InOrder s = s.taken ++ cfg.ch.items s.source ≡ s.pushed

  turn-InOrder :
      (extra : ℕ) (s t : Running M C W) → turn cfg extra s ≡ some t → InOrder s → InOrder t
  turn-InOrder extra s t h inv = elim (turn-Took extra s t h) [
    | inl (source, taken, pushed) ↦ rw (source, taken, pushed) inv
    | inr took ↦
        rw (took.noted, took.pushed)
          (append_assoc s.taken (took.packet ∷ []) (cfg.ch.items t.source)
            ∙ ap (λ xs. s.taken ++ xs) (sym took.front)
            ∙ inv)
  ]

  act-InOrder : (a : Action M C) (s : Running M C W) → InOrder s → InOrder (act cfg a s)
  unfolding act
  act-InOrder (sends p) s inv = elim (cfg.ch.try_send_cases s.source p) [
    | inl (full, refused) ↦ rw (refused, act) inv
    | inr (c, room, sent, items, _, _) ↦
        rw (sent, act, items)
          (sym (append_assoc s.taken (cfg.ch.items s.source) (p ∷ []))
            ∙ ap (λ xs. xs ++ p ∷ []) inv)
  ]
  act-InOrder reads s inv = elim (cfg.ch.try_recv_cases s.sink) [
    | inl (empty, none_left) ↦ rw (none_left, act) inv
    | inr (p, c, front, got, _, _) ↦ rw (got, act) inv
  ]
  act-InOrder a s inv = inv

  -- In every interleaving of the task with the tasks around it, the packets taken so far, followed by
  -- those still in the source, are the packets that the source accepted, if this was so at the start:
  -- no packet is lost, taken twice or overtaken.
  pub Reach-InOrder : {s t : Running M C W} → InOrder s → Reach cfg s t → InOrder t
  Reach-InOrder inv start = inv
  Reach-InOrder inv (later {t} {u} r (runs extra h)) =
      turn-InOrder extra t u h (Reach-InOrder inv r)
  Reach-InOrder inv (later {t} r (acts a)) = act-InOrder a t (Reach-InOrder inv r)
