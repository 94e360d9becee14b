-- ===== src/Packet/Life.antt =====
-- The time-to-live of a packet.
use nyarix_runtime.Base.{ℕ, zero, suc, ◌-◌, ◌<◌, ◌≡◌, ◌↔◌, Bool, true, arith, ltb}
use nyarix_runtime.Packet.{Packet, decrement_ttl, ttl}

-- `n` hops in a row, each of which decrements the time-to-live, and what the last one answered.
pub hops : ℕ → Packet → Packet × Bool
hops zero p = (p, true)
hops (suc zero) p = decrement_ttl p
hops (suc (suc n)) p = hops (suc n) (decrement_ttl p).0

ttl-decrement_ttl : (p : Packet) → ttl (decrement_ttl p).0 ≡ ttl p - 1
unfolding ttl decrement_ttl
ttl-decrement_ttl p = ground arith

alive-decrement_ttl : (p : Packet) → (decrement_ttl p).1 ≡ ltb 1 (ttl p)
unfolding ttl decrement_ttl
alive-decrement_ttl p = ground arith

kept-decrement_ttl :
    (p : Packet)
    → ((decrement_ttl p).0.payload ≡ p.payload)
      × ((decrement_ttl p).0.id ≡ p.id)
      × ((decrement_ttl p).0.tags ≡ p.tags)
unfolding decrement_ttl
kept-decrement_ttl p = ground arith

-- After a positive number of decrements a packet is reported alive exactly if there were fewer than
-- its time-to-live, which has then gone down by that number, stopping at 0; its payload, its
-- identifier and its tags are as before.
pub hops-alive_iff :
    (n : ℕ) (p : Packet)
    → (((hops (suc n) p).1 ≡ true) ↔ (suc n < ttl p))
      × (ttl (hops (suc n) p).0 ≡ ttl p - suc n)
      × ((hops (suc n) p).0.payload ≡ p.payload)
      × ((hops (suc n) p).0.id ≡ p.id)
      × ((hops (suc n) p).0.tags ≡ p.tags)
unfolding hops
hops-alive_iff zero p =
    ground (arith, ttl-decrement_ttl p, alive-decrement_ttl p, kept-decrement_ttl p)
hops-alive_iff (suc n) p =
    ground (arith, hops-alive_iff n (decrement_ttl p).0, ttl-decrement_ttl p, kept-decrement_ttl p)
