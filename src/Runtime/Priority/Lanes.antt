-- ===== src/Runtime/Priority/Lanes.antt =====
-- The priority of a packet's work and the lane of a node's queue by which the packet goes.
use nyarix_runtime.Base.{ℕ, ◌^◌, ◌≡◌, refl, ◌||◌, if◌then◌else◌, arith}
use nyarix_runtime.Packet.{Packet}
use nyarix_runtime.Packet.Tags.{Bitflags, handshake, rekey, has_tag}
use nyarix_runtime.Graph.Queue.{Lane, control, interactive, bulk, lane_for}
use nyarix_runtime.Runtime.Priority.{TaskPriority, realtime, high, normal, from_tags}

-- The priority that the order of the lanes suggests.
abbrev pub of_lane : Lane → TaskPriority
of_lane control = realtime
of_lane interactive = high
of_lane bulk = normal

module _ (fl : Bitflags) where
  intersects_lem :
      (s : ℕ)
      → fl.intersects s (fl.insert (fl.insert (2 ^ 2) (2 ^ 4)) (2 ^ 6))
        ≡ ((fl.contains s (2 ^ 2) || fl.contains s (2 ^ 4)) || fl.contains s (2 ^ 6))
  intersects_lem s =
      rw
        (
          fl.intersects-insert s (fl.insert (2 ^ 2) (2 ^ 4)) (2 ^ 6),
          fl.intersects-insert s (2 ^ 2) (2 ^ 4),
          fl.intersects-single 2 s,
          fl.intersects-single 4 s,
          fl.intersects-single 6 s,
          fl.contains-single 2 s,
          fl.contains-single 4 s,
          fl.contains-single 6 s,
        )
        refl

  -- A packet that is tagged as handshake or rekey has the highest priority; that of any other packet is
  -- the one that the lane of its queue stands for: control packets first, then interactive ones, then
  -- the rest.
  pub from_tags-lane_for :
      (p : Packet)
      → from_tags fl p.tags ≡ (
          if has_tag fl p.tags handshake || has_tag fl p.tags rekey
          then realtime
          else of_lane (lane_for fl p))
  unfolding from_tags lane_for has_tag
  from_tags-lane_for p = ground (arith, intersects_lem p.tags)
