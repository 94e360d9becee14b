-- ===== src/Runtime/Loop.antt =====
-- crates/nyarix-runtime/src/execution_loop.rs: `run_with_timeout` after the start of the nodes, as the
-- transitions of one task among those that feed it, read from it, pause it and stop it.
pub mod Taking
pub mod Pausing
pub mod Draining
use nyarix_runtime.Base.{
  ℕ, zero, suc, ◌≡◌, Bool, true, false, List, [], ◌∷◌, ◌++◌, Option, none, some, Result, ok, err,
  if◌then◌else◌, length,
}
use nyarix_runtime.Packet.{Packet}
use nyarix_runtime.Packet.Tags.{Bitflags}
use nyarix_runtime.Graph.Channel.{Mpsc}
use nyarix_runtime.Graph.Node.{Modules}
use nyarix_runtime.Graph.Flow.{FlowGraph}
use nyarix_runtime.Graph.Execution.{
  Ran, returned, panicked, out_of_fuel, ExecutionError, execute_sequential,
}
use nyarix_runtime.Runtime.Pause.{Watch, pause, resume, wait_until_resumed, wait_until_paused}
use nyarix_runtime.Runtime.Lifecycle.{shutdown_all_nodes}

-- Where the task is: at `wait_until_resumed`, at the `select!`, at `sink.send` in the loop or in the
-- draining, at the draining, at the shutdown of the nodes, and returned.
pub data Phase : Type 0 where
  waiting selecting : Phase
  sending drain_sending : Packet → Phase
  draining stopping done : Phase

-- `RunConfig`, with the place in the code. `senders` is whether a sender of the source is left,
-- `pushed` is every packet that the source accepted, and `taken` every packet taken out of it.
pub record Running (M C W : Type 0) : Type 0 where
  pub graph : FlowGraph M C
  pub source : C
  pub senders : Bool
  pub sink : C
  pub shutdown : Bool
  pub pause : W
  pub phase : Phase
  pub pushed : List Packet
  pub taken : List Packet

-- What the other tasks do; a change of the graph, which takes its lock, may leave any graph.
pub data Action (M C : Type 0) : Type 0 where
  pauses resumes drops_handles cancels : Action M C
  sends : Packet → Action M C
  drops_senders reads drops_reader expires : Action M C
  changes : FlowGraph M C → Action M C

-- What the task is given and does not change. `clock n` gives the times of the hops of packet `n`;
-- `wreck` is the graph that a panic leaves, which `catch_panic` stops.
pub record Setting (M C W : Type 0) : Type 0 where
  pub ops : Modules M
  pub ch : Mpsc C Packet
  pub fl : Bitflags
  pub watch : Watch W
  pub clock : ℕ → ℕ → ℕ
  pub wreck : FlowGraph M C → FlowGraph M C
  pub entry : ℕ

module _ {M C W : Type 0} (cfg : Setting M C W) where
  -- `process_one` up to the sending: the graph after it, and the packet to send; `none` as long as the
  -- walk goes on after `extra` rounds more than the graph needs without feedback edges.
  unfoldable pub process_one :
      ℕ → FlowGraph M C → ℕ → Packet → Option (FlowGraph M C × Option Packet)
  process_one extra g n p =
      elim (execute_sequential cfg.ops cfg.ch cfg.fl (cfg.clock n) extra g cfg.entry p) [
        | returned g' (ok out) ↦ some (g', out)
        | returned g' (err e) ↦ some (g', none)
        | panicked ↦ some (cfg.wreck g, none)
        | out_of_fuel ↦ none
      ]

  -- The packet `p` is taken out of the source, which leaves `source`, and processed.
  unfoldable pub take :
      ℕ → Phase → (Packet → Phase) → Packet → C → Running M C W → Option (Running M C W)
  unfolding process_one
  take extra next send p source s = elim (process_one extra s.graph (length s.taken) p) [
    | none ↦ none
    | some (g, none) ↦
        some (record s { graph = g; source = source; taken = s.taken ++ p ∷ []; phase = next })
    | some (g, some out) ↦
        some (record s { graph = g; source = source; taken = s.taken ++ p ∷ []; phase = send out })
  ]

  -- `sink.send(out)`: it fails once the reader is gone, and waits while there is no room.
  unfoldable pub forward : Phase → Phase → Packet → Running M C W → Option (Running M C W)
  forward sent failed out s = elim (cfg.ch.try_send s.sink out) [
    | some sink ↦ some (record s { sink = sink; phase = sent })
    | none ↦ if cfg.ch.is_open s.sink then none else some (record s { phase = failed })
  ]

  -- The branch of the biased `select!` that is ready first, if there is one.
  unfoldable pub select : ℕ → Running M C W → Option (Running M C W)
  unfolding take wait_until_paused
  select extra s =
      if s.shutdown
      then some (record s { phase = draining })
      else (if wait_until_paused cfg.watch s.pause
          then some (record s { phase = waiting })
          else elim (cfg.ch.try_recv s.source) [
            | some (p, source) ↦ take extra waiting sending p source s
            | none ↦ if s.senders then none else some (record s { phase = draining })
          ])

  -- The next transition of the task; `none` while it waits, and while the walk of a packet goes on
  -- after `extra` rounds.
  unfoldable pub turn : ℕ → Running M C W → Option (Running M C W)
  unfolding select take forward wait_until_resumed
  turn extra s = elim s.phase [
    | waiting ↦
        if wait_until_resumed cfg.watch s.pause then some (record s { phase = selecting }) else none
    | selecting ↦ select extra s
    | sending out ↦ forward waiting draining out s
    | draining ↦ elim (cfg.ch.try_recv s.source) [
      | some (p, source) ↦ take extra draining drain_sending p source s
      | none ↦ some (record s { phase = stopping })
    ]
    | drain_sending out ↦ forward draining stopping out s
    | stopping ↦
        some (record s { graph = (shutdown_all_nodes cfg.ops cfg.ch s.graph).0; phase = done })
    | done ↦ none
  ]

  -- `timeout` around the draining, and around the shutdown of the nodes.
  unfoldable pub expire : Phase → Phase
  expire draining = stopping
  expire (drain_sending out) = stopping
  expire stopping = done
  expire phase = phase

  -- A transition of another task. A send that finds no room waits, and is left out.
  unfoldable pub act : Action M C → Running M C W → Running M C W
  unfolding expire pause resume
  act pauses s = record s { pause = pause cfg.watch s.pause }
  act resumes s = record s { pause = resume cfg.watch s.pause }
  act drops_handles s = record s { pause = cfg.watch.drop_senders s.pause }
  act cancels s = record s { shutdown = true }
  act (sends p) s = elim (cfg.ch.try_send s.source p) [
    | none ↦ s
    | some source ↦ record s { source = source; pushed = s.pushed ++ p ∷ [] }
  ]
  act drops_senders s = record s { senders = false }
  act reads s = elim (cfg.ch.try_recv s.sink) [
    | none ↦ s
    | some (p, sink) ↦ record s { sink = sink }
  ]
  act drops_reader s = record s { sink = cfg.ch.close s.sink }
  act expires s = record s { phase = expire s.phase }
  act (changes g) s = record s { graph = g }

  -- A walk may take any number of rounds before the task goes on.
  pub data Step (s : Running M C W) : Running M C W → Type 0 where
    runs : {t : Running M C W} (extra : ℕ) → turn extra s ≡ some t → Step s t
    acts : (a : Action M C) → Step s (act a s)

  -- The states that interleavings of the task and the others lead to.
  pub data Reach (s : Running M C W) : Running M C W → Type 0 where
    start : Reach s s
    later : {t u : Running M C W} → Reach s t → Step t u → Reach s u

  -- The task alone, for at most a number of transitions.
  unfoldable pub turns : ℕ → ℕ → Running M C W → Running M C W
  unfolding turn
  turns extra zero s = s
  turns extra (suc n) s = elim (turn extra s) [ none ↦ s | some t ↦ turns extra n t ]
