-- ===== src/Packet/Tags.antt =====
-- crates/nyarix-packet/src/tags.rs. A tag set is the `u32` that the `bitflags!` macro wraps; the
-- operations that the macro generates are the parameter `Bitflags`.
pub mod Laws
pub mod Native
use Prim.Native.Nat.{zero, suc, ◌/◌, ◌%◌, ◌^◌}
use mathlib.Core.Path.{◌≡◌, refl}
use mathlib.Core.Bool.{Bool, true, false, ◌||◌}
use nyarix_runtime.Base.{ℕ, ◌==◌, arith, ==_iff}

-- Binary digit `i` of `s`.
abbrev pub bit : ℕ → ℕ → Bool
bit zero s = s % 2 == 1
bit (suc i) s = bit i (s / 2)

-- What the `bitflags` crate documents of the operations that the source calls: `insert` and `|` are
-- the bitwise or; `contains` and `intersects` ask for all and for any bit of the second set.
pub record Bitflags : Type 0 where
  pub insert : ℕ → ℕ → ℕ
  pub contains : ℕ → ℕ → Bool
  pub intersects : ℕ → ℕ → Bool
  pub bit-insert : (i s t : ℕ) → bit i (insert s t) ≡ (bit i s || bit i t)
  pub contains-single : (i s : ℕ) → contains s (2 ^ i) ≡ bit i s
  pub intersects-single : (i s : ℕ) → intersects s (2 ^ i) ≡ bit i s
  pub intersects-insert :
      (s t u : ℕ) → intersects s (insert t u) ≡ (intersects s t || intersects s u)

pub data Tag : Type 0 where
  interactive bulk control diagnostic : Tag
  handshake heartbeat rekey shutdown : Tag
  roaming fallback retransmit fragment last_fragment : Tag
  high_priority low_priority : Tag
  flow_start flow_end local_only : Tag

-- `Tags::empty()`.
abbrev pub new : ℕ
new = 0

module _ (fl : Bitflags) where
  unfoldable pub insert_tag : ℕ → Tag → ℕ
  insert_tag s interactive = fl.insert s (2 ^ 0)
  insert_tag s bulk = fl.insert s (2 ^ 1)
  insert_tag s control = fl.insert s (2 ^ 2)
  insert_tag s diagnostic = fl.insert s (2 ^ 3)
  insert_tag s handshake = fl.insert s (2 ^ 4)
  insert_tag s heartbeat = fl.insert s (2 ^ 5)
  insert_tag s rekey = fl.insert s (2 ^ 6)
  insert_tag s shutdown = fl.insert s (2 ^ 7)
  insert_tag s roaming = fl.insert s (2 ^ 8)
  insert_tag s fallback = fl.insert s (2 ^ 9)
  insert_tag s retransmit = fl.insert s (2 ^ 10)
  insert_tag s fragment = fl.insert s (2 ^ 11)
  insert_tag s last_fragment = fl.insert s (2 ^ 12)
  insert_tag s high_priority = fl.insert s (2 ^ 13)
  insert_tag s low_priority = fl.insert s (2 ^ 14)
  insert_tag s flow_start = fl.insert s (2 ^ 15)
  insert_tag s flow_end = fl.insert s (2 ^ 16)
  insert_tag s local_only = fl.insert s (2 ^ 17)

  unfoldable pub has_tag : ℕ → Tag → Bool
  has_tag s interactive = fl.contains s (2 ^ 0)
  has_tag s bulk = fl.contains s (2 ^ 1)
  has_tag s control = fl.contains s (2 ^ 2)
  has_tag s diagnostic = fl.contains s (2 ^ 3)
  has_tag s handshake = fl.contains s (2 ^ 4)
  has_tag s heartbeat = fl.contains s (2 ^ 5)
  has_tag s rekey = fl.contains s (2 ^ 6)
  has_tag s shutdown = fl.contains s (2 ^ 7)
  has_tag s roaming = fl.contains s (2 ^ 8)
  has_tag s fallback = fl.contains s (2 ^ 9)
  has_tag s retransmit = fl.contains s (2 ^ 10)
  has_tag s fragment = fl.contains s (2 ^ 11)
  has_tag s last_fragment = fl.contains s (2 ^ 12)
  has_tag s high_priority = fl.contains s (2 ^ 13)
  has_tag s low_priority = fl.contains s (2 ^ 14)
  has_tag s flow_start = fl.contains s (2 ^ 15)
  has_tag s flow_end = fl.contains s (2 ^ 16)
  has_tag s local_only = fl.contains s (2 ^ 17)

  unfoldable pub is_interactive : ℕ → Bool
  is_interactive s = fl.contains s (2 ^ 0)

  unfoldable pub is_control : ℕ → Bool
  is_control s = fl.contains s (2 ^ 2)

  unfoldable pub is_handshake : ℕ → Bool
  is_handshake s = fl.contains s (2 ^ 4)
