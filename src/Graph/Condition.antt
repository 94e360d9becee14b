-- ===== src/Graph/Condition.antt =====
-- crates/nyarix-graph/src/condition.rs. `Conditions` is the vector of conditions inside one.
use nyarix_runtime.Base.{ℕ, Bool, true, false, not, ◌&&◌, ◌||◌, leb}
use nyarix_runtime.Packet.{Packet, packet_has_tag}
use nyarix_runtime.Packet.Tags.{Bitflags, Tag}

mutual
  pub data Condition : Type 0 where
    has_tag : Tag → Condition
    tags_intersect : ℕ → Condition
    priority_at_least : ℕ → Condition
    negation : Condition → Condition
    all : Conditions → Condition
    any : Conditions → Condition

  pub data Conditions : Type 0 where
    nil : Conditions
    cons : Condition → Conditions → Conditions

module _ (fl : Bitflags) where
  unfoldable mutual
    unfolding packet_has_tag

    pub evaluate : Condition → Packet → Bool
    evaluate (has_tag t) p = packet_has_tag fl p t
    evaluate (tags_intersect mask) p = fl.intersects p.tags mask
    evaluate (priority_at_least min) p = leb min p.metadata.priority
    evaluate (negation inner) p = not (evaluate inner p)
    evaluate (all conditions) p = evaluate_all conditions p
    evaluate (any conditions) p = evaluate_any conditions p

    pub evaluate_all : Conditions → Packet → Bool
    evaluate_all nil p = true
    evaluate_all (cons c cs) p = evaluate c p && evaluate_all cs p

    pub evaluate_any : Conditions → Packet → Bool
    evaluate_any nil p = false
    evaluate_any (cons c cs) p = evaluate c p || evaluate_any cs p
