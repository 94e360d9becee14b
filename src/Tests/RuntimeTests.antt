-- ===== src/Tests/RuntimeTests.antt =====
-- The building, the start and the end of a graph at concrete inputs.
use nyarix_runtime.Base.{
  ℕ, ◌≡◌, ◌⊎◌, true, false, List, [], ◌∷◌, ◌++◌, Option, none, some, err, ok, ◌==◌, if◌then◌else◌,
}
use nyarix_runtime.Base.Maps.{lookup}
use nyarix_runtime.Graph.Node.{NodeType, transformer}
use nyarix_runtime.Runtime.Builder.{build_from_profile}
use nyarix_runtime.Runtime.Builder.Chain.{Outcome, build_from_profile-Outcome}
use nyarix_runtime.Runtime.Lifecycle.{initialize_all_nodes, shutdown_all_nodes}
use nyarix_runtime.Runtime.Lifecycle.AllNodes.{IfThere, Started, initialize_all_nodes-Started}
use nyarix_runtime.Runtime.Lifecycle.Ending.{Shut, error_of, shutdown_all_nodes-Shut}
use nyarix_runtime.Graph.Channel.{Buffer, buffers}
use nyarix_runtime.Runtime.Priority.{high}
use nyarix_runtime.Runtime.Priority.Queue.{PriorityQueue, ready, as_usize, try_send, recv}
use nyarix_runtime.Runtime.Priority.Service.{
  queued, upto, beyond, has_room, head_or_wait, tail, try_send-queued, recv-queued, recv_ended,
}
use nyarix_runtime.Errors.{capability_denied}
use nyarix_runtime.ModuleApi.Capability.{Capability, network, dns}
use nyarix_runtime.Runtime.Enforcement.{returned, Loadable, denied_by, enforce_and_instantiate}
use nyarix_runtime.Runtime.Enforcement.Checked.{
  has_all, FirstDenied, answer_of, enforce_and_instantiate-Denied,
}
use nyarix_runtime.Tests.Fixtures.{channels, masks, relays, row}

initialize_all_nodes-Started_example :
    IfThere
      (Started relays row.nodes 2 (initialize_all_nodes relays row).1)
      (lookup 2 (initialize_all_nodes relays row).0.nodes)
initialize_all_nodes-Started_example = initialize_all_nodes-Started relays row 2

shutdown_all_nodes-Shut_example :
    IfThere
      (Shut relays channels (error_of relays channels (shutdown_all_nodes relays channels row).1))
      (lookup 2 (shutdown_all_nodes relays channels row).0.nodes)
shutdown_all_nodes-Shut_example = shutdown_all_nodes-Shut relays channels row 2

-- There is a module for each name but 9.
abbrev modules : ℕ → Option NodeType
modules name = if name == 9 then none else some transformer

abbrev stack : List (ℕ × ℕ)
stack = (4, 1) ∷ (5, 2) ∷ (6, 3) ∷ []

build_from_profile-Outcome_example :
    Outcome relays channels modules stack (build_from_profile relays channels modules stack)
build_from_profile-Outcome_example = build_from_profile-Outcome relays channels modules stack

abbrev lane : List ℕ → Buffer ℕ
lane items = record { items = items; capacity = 2; is_open = true }

-- Nothing is in the first lane, and work is in three of the others.
abbrev upper : Buffer ℕ
upper = lane []

abbrev lower : List (Buffer ℕ)
lower = lane (3 ∷ []) ∷ lane [] ∷ lane (7 ∷ 8 ∷ []) ∷ lane (9 ∷ []) ∷ []

abbrev five : PriorityQueue (Buffer ℕ)
five = record { lanes = upper ∷ lower; senders = true }

try_send-queued_example :
    ((has_room buffers (as_usize high) five.lanes ≡ false) × (try_send buffers five high 4 ≡ none))
    ⊎ ((r : PriorityQueue (Buffer ℕ)) × (has_room buffers (as_usize high) five.lanes ≡ true)
        × (try_send buffers five high 4 ≡ some r)
        × (r.senders ≡ five.senders)
        × (queued buffers r.lanes
            ≡ upto buffers (as_usize high) five.lanes
              ++ 4 ∷ beyond buffers (as_usize high) five.lanes))
try_send-queued_example = try_send-queued buffers five high 4

recv-queued_example :
    ((recv buffers (record { lanes = upper ∷ lower; senders = true })).0
      ≡ head_or_wait buffers (queued buffers (upper ∷ lower)))
    × (queued buffers (recv buffers (record { lanes = upper ∷ lower; senders = true })).1.lanes
        ≡ tail buffers (queued buffers (upper ∷ lower)))
recv-queued_example = recv-queued buffers (upper ∷ lower)

-- The answer is `None` although four items are queued.
recv_ended_example :
    ((recv buffers (record { lanes = upper ∷ lower; senders = false })).0 ≡ ready none)
    × (queued buffers (recv buffers (record { lanes = upper ∷ lower; senders = false })).1.lanes
        ≡ 3 ∷ 7 ∷ 8 ∷ 9 ∷ [])
recv_ended_example = recv_ended buffers upper lower

-- A module that requires two capabilities, of which the mask 2 has the first.
abbrev resolver : Loadable ℕ
resolver = record {
  name = λ m. "resolver";
  name_code = λ m. m;
  required_capabilities = λ m. network ∷ dns ∷ [];
  initialize = λ m. returned (ok m);
}

enforce_and_instantiate-Denied_example :
    ((has_all masks 2 (network ∷ dns ∷ []) ≡ true)
      × (enforce_and_instantiate masks resolver 2 1
          ≡ some (answer_of masks resolver 1 (returned (ok 1)))))
    ⊎ ((c : Capability) × FirstDenied masks 2 (network ∷ dns ∷ []) c
        × (enforce_and_instantiate masks resolver 2 1
            ≡ some (err (denied_by (capability_denied 1 c)))))
enforce_and_instantiate-Denied_example = enforce_and_instantiate-Denied masks resolver 2 1
