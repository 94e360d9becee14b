-- ===== src/Packet/Pool.antt =====
-- crates/nyarix-packet/src/pool.rs. The mutex makes each call one step on the pool.
pub mod Reuse
use nyarix_runtime.Base.{ℕ, zero, Bool, List, [], ◌∷◌, ltb, if◌then◌else◌, length}
use nyarix_runtime.Packet.{Packet, set_payload, reset_id}

-- The head of the list is the back of the vector.
pub record PacketPool : Type 0 where
  pub inner : List Packet
  pub max_size : ℕ

unfoldable pub new : ℕ → PacketPool
new max_size = record { inner = []; max_size = max_size }

-- `fresh` is the packet that `Packet::new` would create with an empty payload.
unfoldable pub acquire : PacketPool → Packet → Packet × PacketPool
acquire pool fresh = elim pool.inner [
  | [] ↦ (fresh, pool)
  | p ∷ rest ↦ (p, record pool { inner = rest })
]

-- `id` is the fresh identifier that the packet gets.
unfoldable pub release : PacketPool → Packet → ℕ → PacketPool
unfolding set_payload reset_id
release pool packet id =
    let p = reset_id (set_payload packet []) id in
    if ltb (length pool.inner) pool.max_size then record pool { inner = p ∷ pool.inner } else pool

unfoldable pub available : PacketPool → ℕ
available pool = length pool.inner

unfoldable pub clear : PacketPool → PacketPool
clear pool = record pool { inner = [] }
