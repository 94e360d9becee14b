-- ===== src/ModuleApi/Event/Delivery.antt =====
-- Which of the published events a subscription handles.
use mathlib.Core.List.{append_assoc, append-nil}
use nyarix_runtime.Base.{
  ℕ, zero, suc, ◌+◌, ◌<◌, ◌≤◌, ◌≡◌, refl, sym, ap, ◌∙◌, ◌⊎◌, inl, inr, Bool, true, false, List, [],
  ◌∷◌, ◌++◌, some, arith, if◌then◌else◌, length, length-append, get_elem?, retain, retain-append,
  Bool-cases,
}
use nyarix_runtime.ModuleApi.Event.{Event, EventFilter, matches}
use nyarix_runtime.ModuleApi.Event.Bus.{Broadcast, Subscription, stop, spawn, poll}

-- `xs` is left of `ys` when some of its elements are dropped.
pub data Sublist {A : Type 0} : List A → List A → Type 0 where
  none_left : Sublist [] []
  keeps : {x : A} {xs ys : List A} → Sublist xs ys → Sublist (x ∷ xs) (x ∷ ys)
  drops : {y : A} {xs ys : List A} → Sublist xs ys → Sublist xs (y ∷ ys)

module _ {A : Type 0} where
  Sublist-concat : (x : A) {xs ys : List A} → Sublist xs ys → Sublist (xs ++ x ∷ []) (ys ++ x ∷ [])
  Sublist-concat x none_left = keeps none_left
  Sublist-concat x (keeps s) = keeps (Sublist-concat x s)
  Sublist-concat x (drops s) = drops (Sublist-concat x s)

  Sublist-append : {xs ys : List A} (zs : List A) → Sublist xs ys → Sublist xs (ys ++ zs)
  Sublist-append [] none_left = none_left
  Sublist-append (z ∷ zs) none_left = drops (Sublist-append zs none_left)
  Sublist-append zs (keeps s) = keeps (Sublist-append zs s)
  Sublist-append zs (drops s) = drops (Sublist-append zs s)

  get_elem?-append : (xs ys : List A) → get_elem? (xs ++ ys) (length xs) ≡ get_elem? ys zero
  get_elem?-append [] ys = refl
  get_elem?-append (x ∷ xs) ys = get_elem?-append xs ys

  head-cases :
      (ys : List A) (y : A) → get_elem? ys zero ≡ some y → (rest : List A) × (ys ≡ y ∷ rest)
  head-cases [] y h = absurd cc
  head-cases (x ∷ rest) y h = (rest, ground arith)

  -- A list split at a length it has.
  split-at :
      (n : ℕ) (ys : List A)
      → n ≤ length ys
      → (front : List A) × (rest : List A) × (ys ≡ front ++ rest) × (length front ≡ n)
  split-at zero ys h = ([], ys, refl, refl)
  split-at (suc n) [] h = absurd (omega arith)
  split-at (suc n) (y ∷ ys) h =
      let (front, rest, e, l) = split-at n ys (omega arith) in
      (y ∷ front, rest, ap (λ zs. y ∷ zs) e, ap suc l)

-- What happens after a subscription: an event is published, its task is polled, or it is cancelled.
pub data Happening : Type 0 where
  publishes : Event → Happening
  polls cancels : Happening

abbrev pub published : List Happening → List Event
published [] = []
published (publishes e ∷ hs) = e ∷ published hs
published (_ ∷ hs) = published hs

module _ {C R : Type 0} (bc : Broadcast C R Event) where
  unfoldable pub happen : Happening → C × Subscription R → C × Subscription R
  unfolding poll stop
  happen (publishes e) (c, task) = (bc.send c e, task)
  happen polls (c, task) = (c, poll bc c task)
  happen cancels (c, task) = (c, stop task)

  unfoldable pub happens : List Happening → C × Subscription R → C × Subscription R
  unfolding happen
  happens [] s = s
  happens (h ∷ hs) s = happens hs (happen h s)

  -- Of the events published since the subscription, the task is past `seen`. It has handled some of the
  -- matching ones of them in order, and all of them unless more events were published than the channel
  -- holds.
  pub record Delivery (old : List Event) (events : List Event) (s : C × Subscription R)
      : Type 0 where
    pub seen : List Event
    pub unseen : List Event
    pub split : events ≡ seen ++ unseen
    pub log : bc.sent s.0 ≡ old ++ events
    pub place : bc.position s.1.receiver ≡ length old + length seen
    pub heard : Sublist s.1.handled (retain (matches s.1.filter) seen)
    pub exact : (bc.capacity s.0 < length events) ⊎ (s.1.handled ≡ retain (matches s.1.filter) seen)

  spawn-Delivery : (c : C) (filter : EventFilter) → Delivery (bc.sent c) [] (c, spawn bc filter c)
  unfolding spawn
  spawn-Delivery c filter = record {
    seen = [];
    unseen = [];
    split = refl;
    log = sym (append-nil (bc.sent c));
    place = rw (bc.position-subscribe c) (omega arith);
    heard = none_left;
    exact = inr refl;
  }

  publish-Delivery :
      (old events : List Event) (e : Event) (s : C × Subscription R)
      → Delivery old events s
      → Delivery old (events ++ e ∷ []) (happen (publishes e) s)
  unfolding happen
  publish-Delivery old events e (c, task) d =
      let (log, capacity) = bc.sent-send c e in
      record {
        seen = d.seen;
        unseen = d.unseen ++ e ∷ [];
        split = rw d.split (append_assoc d.seen d.unseen (e ∷ []));
        log = log ∙ rw d.log (append_assoc old events (e ∷ []));
        place = d.place;
        heard = d.heard;
        exact = elim d.exact [
          | inl many ↦ inl (rw capacity (omega (arith, length-append events (e ∷ []))))
          | inr same ↦ inr same
        ];
      }

  -- The invariant does not depend on whether the task runs.
  Delivery-running :
      (b : Bool) (old events : List Event) (c : C) (task : Subscription R)
      → Delivery old events (c, task)
      → Delivery old events (c, record task { running = b })
  Delivery-running b old events c task d = record {
    seen = d.seen;
    unseen = d.unseen;
    split = d.split;
    log = d.log;
    place = d.place;
    heard = d.heard;
    exact = d.exact;
  }

  -- The next event was received.
  received-Delivery :
      (old events : List Event) (c : C) (task : Subscription R) (e : Event) (r : R)
      → Delivery old events (c, task)
      → get_elem? (bc.sent c) (bc.position task.receiver) ≡ some e
      → bc.position r ≡ suc (bc.position task.receiver)
      → Delivery old events (
        c,
        record task {
          receiver = r;
          handled = if matches task.filter e then task.handled ++ e ∷ [] else task.handled;
        },
      )
  received-Delivery old events c task e r d here next =
      let there : get_elem? d.unseen zero ≡ some e =
        sym (get_elem?-append (old ++ d.seen) d.unseen)
        ∙ rw
            (
              length-append old d.seen,
              ← d.place,
              append_assoc old d.seen d.unseen,
              ← d.split,
              ← d.log,
            )
            here in
      let (rest, first) = head-cases d.unseen e there in
      let one_more : retain (matches task.filter) (d.seen ++ e ∷ [])
          ≡ retain (matches task.filter) d.seen ++ retain (matches task.filter) (e ∷ []) =
        retain-append (matches task.filter) d.seen (e ∷ []) in
      record {
        seen = d.seen ++ e ∷ [];
        unseen = rest;
        split = d.split ∙ rw first (sym (append_assoc d.seen (e ∷ []) rest));
        log = d.log;
        place = omega (arith, next, d.place, length-append d.seen (e ∷ []));
        heard = elim (Bool-cases (matches task.filter e)) [
          | inl yes_ ↦ rw (one_more, yes_) (Sublist-concat e d.heard)
          | inr no_ ↦ rw (one_more, no_) (Sublist-append [] d.heard)
        ];
        exact = elim d.exact [
          | inl many ↦ inl many
          | inr same ↦ inr (elim (Bool-cases (matches task.filter e)) [
            | inl yes_ ↦ rw (one_more, yes_) (ap (λ xs. xs ++ e ∷ []) same)
            | inr no_ ↦ rw (one_more, no_) (same ∙ sym (append-nil _))
          ])
        ];
      }

  -- Events were skipped.
  lagged-Delivery :
      (old events : List Event) (c : C) (task : Subscription R) (n : ℕ) (r : R)
      → Delivery old events (c, task)
      → bc.position task.receiver + bc.capacity c < length (bc.sent c)
      → bc.position r ≡ bc.position task.receiver + n
      → bc.position task.receiver + n ≤ length (bc.sent c)
      → Delivery old events (c, record task { receiver = r })
  lagged-Delivery old events c task n r d behind next within =
      let total : length (bc.sent c) ≡ length old + (length d.seen + length d.unseen) =
        rw (d.log, length-append old events, d.split, length-append d.seen d.unseen) refl in
      let (skipped, rest, e, l) = split-at n d.unseen (omega (arith, d.place)) in
      record {
        seen = d.seen ++ skipped;
        unseen = rest;
        split = d.split ∙ rw e (sym (append_assoc d.seen skipped rest));
        log = d.log;
        place = omega (arith, next, d.place, l, length-append d.seen skipped);
        heard =
            rw (retain-append (matches task.filter) d.seen skipped)
              (Sublist-append (retain (matches task.filter) skipped) d.heard);
        exact = inl (omega (arith, d.place, ap length d.split, length-append d.seen d.unseen));
      }

  polled-Delivery :
      (old events : List Event) (c : C) (task : Subscription R)
      → task.running ≡ true
      → Delivery old events (c, task)
      → Delivery old events (c, poll bc c task)
  unfolding poll
  polled-Delivery old events c task on d = elim (bc.recv_cases c task.receiver) [
    | inl (end, got) ↦ elim (Bool-cases (bc.is_open c)) [
      | inl open_ ↦ let e : poll bc c task ≡ task = ground (arith, on, got, open_) in rw e d
      | inr shut ↦
          let e : poll bc c task ≡ record task { running = false } =
            ground (arith, on, got, shut) in
          rw e (Delivery-running false old events c task d)
    ]
    | inr (inl (e, r, here, got, next)) ↦
        let same : poll bc c task ≡ record task {
          receiver = r;
          handled = if matches task.filter e then task.handled ++ e ∷ [] else task.handled;
        } =
          ground (arith, on, got) in
        rw same (received-Delivery old events c task e r d here next)
    | inr (inr (n, r, behind, got, next, within)) ↦
        let same : poll bc c task ≡ record task { receiver = r } = ground (arith, on, got) in
        rw same (lagged-Delivery old events c task n r d behind next within)
  ]

  -- After a happening, for the events that were published with it.
  happen-Delivery :
      (old events : List Event) (h : Happening) (s : C × Subscription R)
      → Delivery old events s
      → Delivery old (events ++ published (h ∷ [])) (happen h s)
  unfolding happen
  happen-Delivery old events (publishes e) s d = publish-Delivery old events e s d
  happen-Delivery old events cancels (c, task) d =
      rw (append-nil events) (Delivery-running false old events c task d)
  happen-Delivery old events polls (c, task) d = elim (Bool-cases task.running) [
    | inl on ↦ rw (append-nil events) (polled-Delivery old events c task on d)
    | inr off ↦
        let same : poll bc c task ≡ task = ground (arith, off) in rw (append-nil events, same) d
  ]

  published-cons :
      (h : Happening) (hs : List Happening)
      → published (h ∷ hs) ≡ published (h ∷ []) ++ published hs
  published-cons (publishes e) hs = refl
  published-cons _ hs = refl

  happens-Delivery :
      (hs : List Happening) (old events : List Event) (s : C × Subscription R)
      → Delivery old events s
      → Delivery old (events ++ published hs) (happens hs s)
  unfolding happens
  happens-Delivery [] old events s d = rw (append-nil events) d
  happens-Delivery (h ∷ hs) old events s d =
      rw (published-cons h hs, ← append_assoc events (published (h ∷ [])) (published hs))
        (happens-Delivery hs old (events ++ published (h ∷ [])) (happen h s)
          (happen-Delivery old events h s d))

  -- After any interleaving of published events with the work of a subscription's task and its
  -- cancellation, the task has handled, in order and once each, events that match its filter among the
  -- published ones that it is past, and all of these unless more events were published since the
  -- subscription than the capacity of the bus.
  pub spawn-happens :
      (hs : List Happening) (c : C) (filter : EventFilter)
      → Delivery (bc.sent c) (published hs) (happens hs (c, spawn bc filter c))
  spawn-happens hs c filter =
      happens-Delivery hs (bc.sent c) [] (c, spawn bc filter c) (spawn-Delivery c filter)
