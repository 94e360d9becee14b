-- ===== src/Graph/Channel.antt =====
-- Bounded channels: what `tokio::sync::mpsc` documents of the calls that the source makes. `C` is a
-- channel with both of its halves, and `items` is what is buffered in it, oldest first.
use nyarix_runtime.Base.{
  ℕ, ◌<◌, ◌≡◌, refl, ◌⊎◌, inl, inr, Bool, true, false, ◌&&◌, List, [], ◌∷◌, ◌++◌, Option, none,
  some, arith, ltb, if◌then◌else◌, length,
}

pub record Mpsc (C A : Type 0) : Type 0 where
  pub channel : ℕ → C
  pub try_send : C → A → Option C
  pub try_recv : C → Option (A × C)
  pub len : C → ℕ
  -- The channel after its receiver was dropped.
  pub close : C → C
  pub items : C → List A
  pub capacity : C → ℕ
  pub is_open : C → Bool
  -- `channel` panics at capacity 0.
  pub channel_new :
      (n : ℕ)
      → 0 < n
      → (items (channel n) ≡ []) × (capacity (channel n) ≡ n) × (is_open (channel n) ≡ true)
  pub len-items : (c : C) → len c ≡ length (items c)
  pub try_send_cases :
      (c : C) (a : A)
      → ((is_open c && ltb (length (items c)) (capacity c) ≡ false) × (try_send c a ≡ none))
        ⊎ ((d : C) × (is_open c && ltb (length (items c)) (capacity c) ≡ true)
            × (try_send c a ≡ some d)
            × (items d ≡ items c ++ a ∷ [])
            × (capacity d ≡ capacity c)
            × (is_open d ≡ is_open c))
  pub try_recv_cases :
      (c : C)
      → ((items c ≡ []) × (try_recv c ≡ none))
        ⊎ ((a : A) × (d : C) × (items c ≡ a ∷ items d)
            × (try_recv c ≡ some (a, d))
            × (capacity d ≡ capacity c)
            × (is_open d ≡ is_open c))
  pub close_closed : (c : C) → (is_open (close c) ≡ false) × (items (close c) ≡ [])

-- A channel as the record of what can be observed of it.
pub record Buffer (A : Type 0) : Type 0 where
  pub items : List A
  pub capacity : ℕ
  pub is_open : Bool

module _ {A : Type 0} where
  abbrev pub buffer_send : Buffer A → A → Option (Buffer A)
  buffer_send b a =
      if b.is_open && ltb (length b.items) b.capacity
      then some (record b { items = b.items ++ a ∷ [] })
      else none

  abbrev pub next_of : Buffer A → List A → Option (A × Buffer A)
  next_of b [] = none
  next_of b (a ∷ rest) = some (a, record b { items = rest })

  abbrev pub buffer_recv : Buffer A → Option (A × Buffer A)
  buffer_recv b = next_of b b.items

  pub buffer_send_cases :
      (c : Buffer A) (a : A)
      → ((c.is_open && ltb (length c.items) c.capacity ≡ false) × (buffer_send c a ≡ none))
        ⊎ ((d : Buffer A) × (c.is_open && ltb (length c.items) c.capacity ≡ true)
            × (buffer_send c a ≡ some d)
            × (d.items ≡ c.items ++ a ∷ [])
            × (d.capacity ≡ c.capacity)
            × (d.is_open ≡ c.is_open))
  buffer_send_cases c a = go (c.is_open && ltb (length c.items) c.capacity) refl
    where
      sent : Buffer A
      sent = record c { items = c.items ++ a ∷ [] }

      go :
          (b : Bool)
          → (c.is_open && ltb (length c.items) c.capacity) ≡ b
          → ((c.is_open && ltb (length c.items) c.capacity ≡ false) × (buffer_send c a ≡ none))
            ⊎ ((d : Buffer A) × (c.is_open && ltb (length c.items) c.capacity ≡ true)
                × (buffer_send c a ≡ some d)
                × (d.items ≡ c.items ++ a ∷ [])
                × (d.capacity ≡ c.capacity)
                × (d.is_open ≡ c.is_open))
      go true e = inr (sent, e, ground arith, refl, refl, refl)
      go false e = inl (e, ground arith)

  pub next_of_cases :
      (c : Buffer A) (l : List A)
      → c.items ≡ l
      → ((c.items ≡ []) × (buffer_recv c ≡ none))
        ⊎ ((a : A) × (d : Buffer A) × (c.items ≡ a ∷ d.items)
            × (buffer_recv c ≡ some (a, d))
            × (d.capacity ≡ c.capacity)
            × (d.is_open ≡ c.is_open))
  next_of_cases c [] e = inl (e, ground arith)
  next_of_cases c (a ∷ rest) e = inr (a, record c { items = rest }, e, ground arith, refl, refl)

  -- The parameter can be met.
  abbrev pub buffers : Mpsc (Buffer A) A
  buffers = record {
    channel = λ n. record { items = []; capacity = n; is_open = true };
    try_send = buffer_send;
    try_recv = buffer_recv;
    len = λ c. length c.items;
    close = λ c. record c { items = []; is_open = false };
    items = λ c. c.items;
    capacity = λ c. c.capacity;
    is_open = λ c. c.is_open;
    channel_new = λ n h. (refl, refl, refl);
    len-items = λ c. refl;
    try_send_cases = buffer_send_cases;
    try_recv_cases = λ c. next_of_cases c c.items refl;
    close_closed = λ c. (refl, refl);
  }
