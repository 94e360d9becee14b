-- ===== src/Packet.antt =====
-- crates/nyarix-packet/src/packet.rs. The `Arc` inside a packet is copied on write, so a packet is a
-- value. A payload is the sequence of its bytes.
pub mod Tags
pub mod Metadata
pub mod Pool
pub mod Life
use nyarix_runtime.Base.{ℕ, ◌-◌, Bool, true, false, List, [], ◌==◌, ltb, if◌then◌else◌, length}
use Tags.{Bitflags, Tag, insert_tag, has_tag}

-- The bytes of a `Payload`.
abbrev pub Payload : Type 0
Payload = List ℕ

pub record Packet : Type 0 where
  pub id : ℕ
  pub payload : Payload
  pub metadata : Metadata.Metadata
  pub tags : ℕ

-- The fresh identifier is an argument.
unfoldable pub with_metadata : ℕ → Payload → Metadata.Metadata → Packet
with_metadata id payload metadata = record {
  id = id;
  payload = payload;
  metadata = metadata;
  tags = Tags.new;
}

-- `Packet::new`, with the metadata of `Metadata::new` for its fresh identifiers and creation time.
unfoldable pub new : ℕ → Payload → ℕ → ℕ → ℕ → ℕ → Packet
unfolding Metadata.new
new id payload session flow stream now = record {
  id = id;
  payload = payload;
  metadata = Metadata.new session flow stream now;
  tags = Tags.new;
}

unfoldable pub reset_id : Packet → ℕ → Packet
reset_id p id = record p { id = id }

unfoldable pub len : Packet → ℕ
len p = length p.payload

unfoldable pub is_empty : Packet → Bool
is_empty p = length p.payload == 0

unfoldable pub set_payload : Packet → Payload → Packet
set_payload p payload = record p { payload = payload }

-- The payload taken out, and the packet that is left.
unfoldable pub take_payload : Packet → Payload × Packet
take_payload p = (p.payload, record p { payload = [] })

unfoldable pub tag : Bitflags → Packet → Tag → Packet
unfolding insert_tag
tag fl p t = record p { tags = insert_tag fl p.tags t }

unfoldable pub packet_has_tag : Bitflags → Packet → Tag → Bool
unfolding has_tag
packet_has_tag fl p t = has_tag fl p.tags t

unfoldable pub ttl : Packet → ℕ
ttl p = p.metadata.ttl

-- The packet after the call, and whether it is still alive.
unfoldable pub decrement_ttl : Packet → Packet × Bool
decrement_ttl p =
    if p.metadata.ttl == 0
    then (p, false)
    else (let m = record (p.metadata) { ttl = p.metadata.ttl - 1 } in
        (record p { metadata = m }, ltb 0 (p.metadata.ttl - 1)))

unfoldable pub trace_id : Packet → ℕ
trace_id p = p.metadata.flow_id

-- `packet.metadata_mut().record_hop(node)` at the time `now`.
unfoldable pub record_hop : ℕ → Packet → ℕ → Packet
unfolding Metadata.record_hop
record_hop now p node = record p { metadata = Metadata.record_hop now p.metadata node }
