-- ===== src/Runtime/Priority.antt =====
-- crates/nyarix-runtime/src/priority.rs: the priority of a packet's work.
pub mod Lanes
pub mod Queue
pub mod Service
use nyarix_runtime.Base.{ℕ, ◌^◌, Bool, if◌then◌else◌}
use nyarix_runtime.Packet.Tags.{Bitflags}

pub data TaskPriority : Type 0 where
  realtime high normal low background : TaskPriority

-- `CONTROL`, `HANDSHAKE`, `REKEY` and `INTERACTIVE` are the bits 2, 4, 6 and 0.
unfoldable pub from_tags : Bitflags → ℕ → TaskPriority
from_tags fl tags =
    if fl.intersects tags (fl.insert (fl.insert (2 ^ 2) (2 ^ 4)) (2 ^ 6))
    then realtime
    else (if fl.contains tags (2 ^ 0) then high else normal)
