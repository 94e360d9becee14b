-- ===== src/Runtime/Priority/Service.antt =====
-- The queue of five lanes seen as one list: what is queued, in the order of the lanes.
use mathlib.Core.List.{append-nil, append_assoc}
use nyarix_runtime.Base.{
  ℕ, zero, suc, ◌≤◌, ◌≡◌, refl, sym, ap, ◌∙◌, ◌⊎◌, inl, inr, Bool, true, false, ◌&&◌, List, [], ◌∷◌,
  ◌++◌, Option, none, some, arith, ltb, length,
}
use nyarix_runtime.Graph.Channel.{Mpsc}
use nyarix_runtime.Runtime.Priority.{TaskPriority}
use nyarix_runtime.Runtime.Priority.Queue.{
  PriorityQueue, Poll, pending, ready, as_usize, send_at, try_send, recv_lanes, recv, drain_lane,
  drain_lanes, drain,
}

module _ {C A : Type 0} (ch : Mpsc C A) where
  abbrev pub queued : List C → List A
  queued [] = []
  queued (c ∷ cs) = ch.items c ++ queued cs

  -- What is queued in the lanes up to number `n`, and in those after it.
  abbrev pub upto : ℕ → List C → List A
  upto n [] = []
  upto zero (c ∷ cs) = ch.items c
  upto (suc n) (c ∷ cs) = ch.items c ++ upto n cs

  abbrev pub beyond : ℕ → List C → List A
  beyond n [] = []
  beyond zero (c ∷ cs) = queued cs
  beyond (suc n) (c ∷ cs) = beyond n cs

  -- Lane number `n` is there, open and not full.
  abbrev pub has_room : ℕ → List C → Bool
  has_room n [] = false
  has_room zero (c ∷ cs) = ch.is_open c && ltb (length (ch.items c)) (ch.capacity c)
  has_room (suc n) (c ∷ cs) = has_room n cs

  send_at_cases :
      (n : ℕ) (cs : List C) (a : A)
      → ((has_room n cs ≡ false) × (send_at ch n cs a ≡ none))
        ⊎ ((ds : List C) × (has_room n cs ≡ true)
            × (send_at ch n cs a ≡ some ds)
            × (queued ds ≡ upto n cs ++ a ∷ beyond n cs))
  unfolding send_at
  send_at_cases n [] a = inl (refl, ground arith)
  send_at_cases zero (c ∷ cs) a = elim (ch.try_send_cases c a) [
    | inl (h, e) ↦ inl (h, ground arith)
    | inr (d, h, e, i, _, _) ↦
        inr (d ∷ cs, h, ground arith, rw i (append_assoc (ch.items c) (a ∷ []) (queued cs)))
  ]
  send_at_cases (suc n) (c ∷ cs) a = elim (send_at_cases n cs a) [
    | inl (h, e) ↦ inl (h, ground arith)
    | inr (ds, h, e, i) ↦ inr (
      c ∷ ds,
      h,
      ground arith,
      rw i (sym (append_assoc (ch.items c) (upto n cs) (a ∷ beyond n cs))),
    )
  ]

  -- The call fails exactly if the lane of the priority is full or closed. Otherwise the item is queued
  -- behind all of the same or a higher priority, and ahead of all of a lower one.
  pub try_send-queued :
      (q : PriorityQueue C) (priority : TaskPriority) (a : A)
      → ((has_room (as_usize priority) q.lanes ≡ false) × (try_send ch q priority a ≡ none))
        ⊎ ((r : PriorityQueue C) × (has_room (as_usize priority) q.lanes ≡ true)
            × (try_send ch q priority a ≡ some r)
            × (r.senders ≡ q.senders)
            × (queued r.lanes
                ≡ upto (as_usize priority) q.lanes ++ a ∷ beyond (as_usize priority) q.lanes))
  unfolding try_send
  try_send-queued q priority a = elim (send_at_cases (as_usize priority) q.lanes a) [
    | inl (h, e) ↦ inl (h, ground arith)
    | inr (ds, h, e, i) ↦ inr (record q { lanes = ds }, h, ground arith, refl, i)
  ]

  -- The first of the list, or `None` with nothing more to come, as the answer of a receiver.
  abbrev pub head_or_wait : List A → Poll (Option A)
  head_or_wait [] = pending
  head_or_wait (a ∷ rest) = ready (some a)

  abbrev pub head_or_end : List A → Poll (Option A)
  head_or_end [] = ready none
  head_or_end (a ∷ rest) = ready (some a)

  abbrev pub tail : List A → List A
  tail [] = []
  tail (a ∷ rest) = rest

  recv_lanes-queued :
      (cs : List C)
      → ((recv_lanes ch true cs).0 ≡ head_or_wait (queued cs))
        × (queued (recv_lanes ch true cs).1 ≡ tail (queued cs))
  unfolding recv_lanes
  recv_lanes-queued [] = (refl, refl)
  recv_lanes-queued (c ∷ cs) = elim (ch.try_recv_cases c) [
    | inr (a, d, e, r, _, _) ↦ (rw (recv_lanes, r, e) refl, rw (recv_lanes, r, e) refl)
    | inl (e, r) ↦
        let (item, left) = recv_lanes-queued cs in
        (rw (recv_lanes, r, e) item, rw (recv_lanes, r, e) left)
  ]

  -- A poll while a sender is left answers with the first of all that is queued, and takes it; it waits
  -- exactly if nothing is queued.
  pub recv-queued :
      (cs : List C)
      → ((recv ch (record { lanes = cs; senders = true })).0 ≡ head_or_wait (queued cs))
        × (queued (recv ch (record { lanes = cs; senders = true })).1.lanes ≡ tail (queued cs))
  unfolding recv
  recv-queued cs = recv_lanes-queued cs

  -- A poll after the last sender is gone answers from the first lane alone: once that is empty, the
  -- answer is `None`, whatever is queued in the other lanes, and stays there.
  pub recv_ended :
      (c : C) (cs : List C)
      → ((recv ch (record { lanes = c ∷ cs; senders = false })).0 ≡ head_or_end (ch.items c))
        × (queued (recv ch (record { lanes = c ∷ cs; senders = false })).1.lanes
            ≡ tail (ch.items c) ++ queued cs)
  unfolding recv recv_lanes
  recv_ended c cs = elim (ch.try_recv_cases c) [
    | inr (a, d, e, r, _, _) ↦ (rw (recv_lanes, r, e) refl, rw (recv_lanes, r, e) refl)
    | inl (e, r) ↦ (rw (recv_lanes, r, e) refl, rw (recv_lanes, r, e) refl)
  ]

  drain_lane_lem :
      (fuel : ℕ) (c : C) (drained : List A)
      → length (ch.items c) ≤ fuel
      → ((drain_lane ch fuel c drained).0 ≡ drained ++ ch.items c)
        × (ch.items (drain_lane ch fuel c drained).1 ≡ [])
  unfolding drain_lane
  drain_lane_lem zero c drained h = elim (ch.try_recv_cases c) [
    | inl (e, r) ↦ (rw e (sym (append-nil drained)), e)
    | inr (a, d, e, r, _, _) ↦ absurd (omega (arith, ap length e))
  ]
  drain_lane_lem (suc fuel) c drained h = elim (ch.try_recv_cases c) [
    | inl (e, r) ↦ (rw (r, drain_lane, e) (sym (append-nil drained)), rw (r, drain_lane) e)
    | inr (a, d, e, r, _, _) ↦
        let (all, left) = drain_lane_lem fuel d (drained ++ a ∷ []) (omega (arith, ap length e)) in
        (
          rw (r, drain_lane, e) (all ∙ append_assoc drained (a ∷ []) (ch.items d)),
          rw (r, drain_lane) left,
        )
  ]

  drain_lanes-queued :
      (cs : List C) (drained : List A)
      → ((drain_lanes ch cs drained).0 ≡ drained ++ queued cs)
        × (queued (drain_lanes ch cs drained).1 ≡ [])
  unfolding drain_lanes
  drain_lanes-queued [] drained = (sym (append-nil drained), refl)
  drain_lanes-queued (c ∷ cs) drained =
      let (first, empty) = drain_lane_lem (ch.len c) c drained (omega (arith, ch.len-items c)) in
      let (all, left) = drain_lanes-queued cs (drain_lane ch (ch.len c) c drained).0 in
      (
        all ∙ (ap (λ l. l ++ queued cs) first ∙ append_assoc drained (ch.items c) (queued cs)),
        rw (empty) left,
      )

  -- Draining takes all that is queued, in the order of the lanes, whether or not a sender is left, and
  -- leaves nothing.
  pub drain-queued :
      (q : PriorityQueue C) → ((drain ch q).0 ≡ queued q.lanes) × (queued (drain ch q).1.lanes ≡ [])
  unfolding drain
  drain-queued q = drain_lanes-queued q.lanes []
