-- ===== src/Runtime/Loop/Draining.antt =====
-- After a request to shut down, the execution loop empties its source and ends.
use mathlib.Core.List.{append-nil, append_assoc}
use nyarix_runtime.Base.{
  ℕ, zero, suc, ◌+◌, ◌*◌, ◌≤◌, ◌<◌, ◌≡◌, refl, sym, ap, ◌∙◌, ◌⊎◌, inl, inr, true, [], ◌∷◌, ◌++◌,
  Option, none, some, Result, ok, err, arith, length, length-append,
}
use nyarix_runtime.Packet.{Packet}
use nyarix_runtime.Graph.Flow.{FlowGraph}
use nyarix_runtime.Graph.Execution.{ExecutionError, returned, execute_sequential}
use nyarix_runtime.Graph.Execution.Runnable.{Runnable, execute_sequential-Runnable}
use nyarix_runtime.Runtime.Lifecycle.{shutdown_all_nodes}
use nyarix_runtime.Runtime.Loop.{
  selecting, drain_sending, draining, stopping, done, Setting, Running, process_one, take, forward,
  select, turn, turns,
}

module _ {M C W : Type 0} (cfg : Setting M C W) (extra : ℕ) where
  -- The reader of the sink is there, and the sink has room for as many packets as the source holds.
  abbrev pub Room : Running M C W → Type 0
  Room s =
      (cfg.ch.is_open s.sink ≡ true)
      × (length (cfg.ch.items s.sink) + length (cfg.ch.items s.source) ≤ cfg.ch.capacity s.sink)

  -- The task has ended, after it took all packets that were in the source of `s`.
  pub record Drained (s t : Running M C W) : Type 0 where
    pub finished : t.phase ≡ done
    pub empty : cfg.ch.items t.source ≡ []
    pub taken : t.taken ≡ s.taken ++ cfg.ch.items s.source

  turns_step :
      (n : ℕ) (s t : Running M C W)
      → turn cfg extra s ≡ some t
      → turns cfg extra (suc n) s ≡ turns cfg extra n t
  unfolding turns
  turns_step n s t e = rw (e, turns) refl

  turns_done : (n : ℕ) (s : Running M C W) → s.phase ≡ done → turns cfg extra n s ≡ s
  unfolding turns turn
  turns_done zero s at = refl
  turns_done (suc n) s at = ground (arith, at)

  output_of : Result (Option Packet) ExecutionError → Option Packet
  output_of (ok out) = out
  output_of (err e) = none

  process_one_returned :
      (g g' : FlowGraph M C) (n : ℕ) (p : Packet) (answer : Result (Option Packet) ExecutionError)
      → execute_sequential cfg.ops cfg.ch cfg.fl (cfg.clock n) extra g cfg.entry p
        ≡ returned g' answer
      → process_one cfg extra g n p ≡ some (g', output_of answer)
  unfolding process_one output_of
  process_one_returned g g' n p (ok out) ran = rw (ran, process_one) refl
  process_one_returned g g' n p (err e) ran = rw (ran, process_one) refl

  -- Ready for the next packet, after `p` left the source as `c`.
  abbrev Next : Packet → C → Running M C W → Running M C W → Type 0
  Next p c s t =
      Runnable t.graph
      × (t.source ≡ c)
      × (t.sink ≡ s.sink)
      × (t.taken ≡ s.taken ++ p ∷ [])
      × ((t.phase ≡ draining) ⊎ ((out : Packet) × (t.phase ≡ drain_sending out)))

  take_output :
      (g : FlowGraph M C) (out : Option Packet) (p : Packet) (c : C) (s : Running M C W)
      → process_one cfg extra s.graph (length s.taken) p ≡ some (g, out)
      → Runnable g
      → (t : Running M C W) × (take cfg extra draining drain_sending p c s ≡ some t) × Next p c s t
  unfolding take
  take_output g none p c s e r = (
    record s { graph = g; source = c; taken = s.taken ++ p ∷ []; phase = draining },
    rw (e, take) refl,
    (r, refl, refl, refl, inl refl),
  )
  take_output g (some out) p c s e r = (
    record s { graph = g; source = c; taken = s.taken ++ p ∷ []; phase = drain_sending out },
    rw (e, take) refl,
    (r, refl, refl, refl, inr (out, refl)),
  )

  -- One packet, from the source to the draining of the rest.
  take_lem :
      (p : Packet) (c : C) (s : Running M C W)
      → Runnable s.graph
      → (t : Running M C W) × (take cfg extra draining drain_sending p c s ≡ some t) × Next p c s t
  take_lem p c s r =
      let (g, answer, ran, r') =
        execute_sequential-Runnable cfg.ops cfg.ch cfg.fl (cfg.clock (length s.taken)) extra s.graph
          cfg.entry p r in
      take_output g (output_of answer) p c s
        (process_one_returned s.graph g (length s.taken) p answer ran) r'

  -- Sending succeeds while there is room.
  forward_lem :
      (out : Packet) (s : Running M C W)
      → cfg.ch.is_open s.sink ≡ true
      → length (cfg.ch.items s.sink) < cfg.ch.capacity s.sink
      → (c : C) × (forward cfg draining stopping out s
          ≡ some (record s { sink = c; phase = draining }))
        × (length (cfg.ch.items c) ≡ suc (length (cfg.ch.items s.sink)))
        × (cfg.ch.capacity c ≡ cfg.ch.capacity s.sink)
        × (cfg.ch.is_open c ≡ true)
  unfolding forward
  forward_lem out s open_ room = elim (cfg.ch.try_send_cases s.sink out) [
    | inl (full, refused) ↦ absurd (ground arith)
    | inr (c, fits, sent, items, capacity, same) ↦ (
      c,
      rw (sent, forward) refl,
      rw items (omega (arith, length-append (cfg.ch.items s.sink) (out ∷ []))),
      capacity,
      same ∙ open_,
    )
  ]

  Drained-after :
      (p : Packet) (s t u : Running M C W)
      → cfg.ch.items s.source ≡ p ∷ cfg.ch.items t.source
      → t.taken ≡ s.taken ++ p ∷ []
      → Drained t u
      → Drained s u
  Drained-after p s t u front taken d = record {
    finished = d.finished;
    empty = d.empty;
    taken = d.taken ∙ rw (taken, front) (append_assoc s.taken (p ∷ []) (cfg.ch.items t.source));
  }

  -- The state after the shutdown of the nodes, where the source was found empty.
  abbrev ended : Running M C W → Running M C W
  ended s = record s { graph = (shutdown_all_nodes cfg.ops cfg.ch s.graph).0; phase = done }

  abbrev Drains : ℕ → Type 0
  Drains n =
      (s : Running M C W)
      → s.phase ≡ draining
      → Runnable s.graph
      → Room s
      → 2 * length (cfg.ch.items s.source) + 2 ≤ n
      → Drained s (turns cfg extra n s)

  -- From a packet taken on, in one transition or in two.
  Next-Drained :
      (n : ℕ) (p : Packet) (c : C) (s t : Running M C W)
      → Drains n
      → Drains (suc n)
      → cfg.ch.items s.source ≡ p ∷ cfg.ch.items c
      → Room s
      → 2 * length (cfg.ch.items c) + 2 ≤ n
      → Next p c s t
      → Drained s (turns cfg extra (suc n) t)
  unfolding turn
  Next-Drained n p c s t rec rec' front (open_, room) h (r, source, sink, taken, next) =
      let front' : cfg.ch.items s.source ≡ p ∷ cfg.ch.items t.source = rw source front in
      let len : length (cfg.ch.items s.source) ≡ suc (length (cfg.ch.items t.source)) =
        ap length front' in
      let small : 2 * length (cfg.ch.items t.source) + 2 ≤ n = rw source h in
      let open' : cfg.ch.is_open t.sink ≡ true = rw sink open_ in
      let room' : length (cfg.ch.items t.sink) + suc (length (cfg.ch.items t.source))
          ≤ cfg.ch.capacity t.sink =
        rw sink (omega arith) in
      elim next [
        | inl at ↦
            Drained-after p s t _ front' taken (rec' t at r (open', omega arith) (omega arith))
        | inr (out, at) ↦
            let (sink', sent, longer, capacity, still) = forward_lem out t open' (omega arith) in
            let u : Running M C W = record t { sink = sink'; phase = draining } in
            let sends : turn cfg extra t ≡ some u = ground (arith, at, sent) in
            rw (turns_step n t u sends) (
              Drained-after p s u _ front' taken
                (rec u refl r (still, rw (longer, capacity) (omega arith)) small))
      ]

  drains : (n : ℕ) → Drains n
  unfolding turn
  drains zero s at r room h = absurd (omega arith)
  drains (suc zero) s at r room h = absurd (omega arith)
  drains (suc (suc n)) s at r room h = elim (cfg.ch.try_recv_cases s.source) [
    | inl (empty, nothing) ↦
        let stops : turn cfg extra s ≡ some (record s { phase = stopping }) =
          ground (arith, at, nothing) in
        let ends : turn cfg extra (record s { phase = stopping }) ≡ some (ended s) = refl in
        rw
          (
            turns_step (suc n) s _ stops,
            turns_step n (record s { phase = stopping }) (ended s) ends,
            turns_done n (ended s) refl,
          )
          (record { finished = refl; empty = empty; taken = sym (rw empty (append-nil s.taken)) })
    | inr (p, c, front, got, _, _) ↦
        let (t, taken, next) = take_lem p c s r in
        let step : turn cfg extra s ≡ some t = ground (arith, at, got, taken) in
        rw (turns_step (suc n) s t step) (
          Next-Drained n p c s t (drains n) (drains (suc n)) front room
            (omega (arith, ap length front)) next)
  ]

  -- Once a shutdown is requested while the task waits for a packet, on a runnable graph and a sink
  -- whose reader is there and that has room for what the source holds, the task ends within two
  -- transitions for each packet in the source and three more, after it took all these packets in order.
  pub turns-Drained :
      (n : ℕ) (s : Running M C W)
      → s.phase ≡ selecting
      → s.shutdown ≡ true
      → Runnable s.graph
      → Room s
      → 2 * length (cfg.ch.items s.source) + 3 ≤ n
      → Drained s (turns cfg extra n s)
  unfolding turn select
  turns-Drained zero s at stop r room h = absurd (omega arith)
  turns-Drained (suc n) s at stop r room h =
      let step : turn cfg extra s ≡ some (record s { phase = draining }) =
        ground (arith, at, stop) in
      let d : Drained (record s { phase = draining })
          (turns cfg extra n (record s { phase = draining })) =
        drains n (record s { phase = draining }) refl r room (omega arith) in
      rw (turns_step n s _ step)
        (record { finished = d.finished; empty = d.empty; taken = d.taken })
