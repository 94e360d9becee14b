-- ===== src/Packet/Pool/Reuse.antt =====
-- What the packet pool hands out after any history of calls.
use nyarix_runtime.Base.{ℕ, ◌≤◌, ◌<◌, ◌≡◌, refl, ◌∙◌, List, [], ◌∷◌, arith, length}
use nyarix_runtime.Packet.{Packet, set_payload}
use nyarix_runtime.Packet.Pool.{PacketPool, new, acquire, release, available, clear}

-- A call on the pool: `acquires` with the identity of the packet that an empty pool would create,
-- `releases` with the fresh identifier that the packet gets.
pub data Call : Type 0 where
  acquires : Packet → Call
  releases : Packet → ℕ → Call
  clears : Call

pub step : PacketPool → Call → PacketPool
step pool (acquires fresh) = (acquire pool (set_payload fresh [])).1
step pool (releases packet id) = release pool packet id
step pool clears = clear pool

pub run : PacketPool → List Call → PacketPool
run pool [] = pool
run pool (c ∷ cs) = run (step pool c) cs

abbrev AllEmpty : List Packet → Type 0
AllEmpty [] = Unit {0}
AllEmpty (p ∷ ps) = (p.payload ≡ []) × AllEmpty ps

record IsClean (pool : PacketPool) : Type 0 where
  empty : AllEmpty pool.inner
  bounded : length pool.inner ≤ pool.max_size

inner-acquire-IsClean :
    (pool : PacketPool) (fresh : Packet) (ps : List Packet)
    → pool.inner ≡ ps
    → IsClean pool
    → IsClean (acquire pool fresh).1
unfolding acquire
inner-acquire-IsClean pool fresh [] e c = ground arith
inner-acquire-IsClean pool fresh (p ∷ ps) e c = ground arith

step-IsClean : (pool : PacketPool) (c : Call) → IsClean pool → IsClean (step pool c)
unfolding step release clear
step-IsClean pool (acquires fresh) c =
    inner-acquire-IsClean pool (set_payload fresh []) pool.inner refl c
step-IsClean pool (releases packet id) c = ground arith
step-IsClean pool clears c = ground arith

run-IsClean : (pool : PacketPool) (cs : List Call) → IsClean pool → IsClean (run pool cs)
unfolding run
run-IsClean pool [] c = c
run-IsClean pool (x ∷ cs) c = run-IsClean (step pool x) cs (step-IsClean pool x c)

max_size-step : (pool : PacketPool) (c : Call) → (step pool c).max_size ≡ pool.max_size
unfolding step acquire release clear
max_size-step pool (acquires fresh) = ground arith
max_size-step pool (releases packet id) = ground arith
max_size-step pool clears = refl

max_size-run : (pool : PacketPool) (cs : List Call) → (run pool cs).max_size ≡ pool.max_size
unfolding run
max_size-run pool [] = refl
max_size-run pool (c ∷ cs) = max_size-run (step pool c) cs ∙ max_size-step pool c

payload-acquire :
    (pool : PacketPool) (fresh : Packet)
    → IsClean pool
    → fresh.payload ≡ []
    → (acquire pool fresh).0.payload ≡ []
unfolding acquire
payload-acquire pool fresh c e = ground arith

-- After any history of calls on a new pool, a packet that is acquired has an empty payload, and the
-- pool holds at most as many packets as it was created for.
pub run-acquire_empty :
    (max_size : ℕ) (cs : List Call) (fresh : Packet)
    → let pool = run (new max_size) cs in
      ((acquire pool (set_payload fresh [])).0.payload ≡ []) × (available pool ≤ max_size)
unfolding new available set_payload
run-acquire_empty max_size cs fresh =
    let clean = run-IsClean (new max_size) cs (record { empty = tt; bounded = omega arith }) in
    (payload-acquire _ _ clean refl, omega (arith, clean.bounded, max_size-run (new max_size) cs))

-- A packet that is released into a pool with room and acquired next comes back with the identifier
-- that the release gave it and with an empty payload, but with the metadata and the tags of its
-- earlier use.
pub acquire-release_stale :
    (pool : PacketPool) (packet fresh : Packet) (id : ℕ)
    → available pool < pool.max_size
    → let (p, after) = acquire (release pool packet id) fresh in
      (p.id ≡ id)
      × (p.payload ≡ [])
      × (p.metadata ≡ packet.metadata)
      × (p.tags ≡ packet.tags)
      × (available after ≡ available pool)
unfolding acquire release available
acquire-release_stale pool packet fresh id h = ground arith
