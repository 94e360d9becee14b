-- ===== src/Packet/Tags/Laws.antt =====
-- The tag operations over single bits: each of the eighteen tags has a bit of its own.
use Prim.Native.Nat.{zero, suc, ◌/◌, ◌%◌, ◌^◌}
use native.Mathlib.Nat.{pow-suc}
use mathlib.Core.Logic.{ite, if_pos, if_neg}
use nyarix_runtime.Base.{
  ℕ, ◌≡◌, refl, ap, true, false, ◌||◌, ◌==◌, arith, List, [], ◌∷◌, some, get_elem?,
}
use nyarix_runtime.Packet.Tags.{
  bit, Bitflags, Tag, interactive, bulk, control, diagnostic, handshake, heartbeat, rekey, shutdown,
  roaming, fallback, retransmit, fragment, last_fragment, high_priority, low_priority, flow_start,
  flow_end, local_only, insert_tag, has_tag,
}

pow-half : (i : ℕ) → (2 ^ suc i) / 2 ≡ 2 ^ i
pow-half i = omega (arith, pow-suc 2 i)

pow-even : (i : ℕ) → (2 ^ suc i) % 2 ≡ 0
pow-even i = omega (arith, pow-suc 2 i)

bit-zero : (i : ℕ) → bit i 0 ≡ false
bit-zero zero = refl
bit-zero (suc i) = bit-zero i

pub bit-pow : (i j : ℕ) → bit i (2 ^ j) ≡ (i == j)
bit-pow zero zero = refl
bit-pow zero (suc j) = ground (arith, pow-even j)
bit-pow (suc i) zero = ground (arith, bit-zero i)
bit-pow (suc i) (suc j) = rw (pow-half j) (ground (arith, bit-pow i j))

-- The position of a tag's bit.
pub code : Tag → ℕ
code interactive = 0
code bulk = 1
code control = 2
code diagnostic = 3
code handshake = 4
code heartbeat = 5
code rekey = 6
code shutdown = 7
code roaming = 8
code fallback = 9
code retransmit = 10
code fragment = 11
code last_fragment = 12
code high_priority = 13
code low_priority = 14
code flow_start = 15
code flow_end = 16
code local_only = 17

abbrev all_tags : List Tag
all_tags =
    interactive ∷ bulk ∷ control ∷ diagnostic ∷ handshake ∷ heartbeat ∷ rekey ∷ shutdown ∷ roaming
    ∷ fallback ∷ retransmit ∷ fragment ∷ last_fragment ∷ high_priority ∷ low_priority ∷ flow_start
    ∷ flow_end ∷ local_only ∷ []

get_elem?-code : (t : Tag) → get_elem? all_tags (code t) ≡ some t
unfolding code
get_elem?-code interactive = refl
get_elem?-code _ = refl

code-injective : (t u : Tag) → code t ≡ code u → t ≡ u
code-injective t u e = cc (get_elem?-code t, get_elem?-code u)

pub Tag-discrete : Discrete Tag
Tag-discrete = hlevel

module _ (fl : Bitflags) where
  insert_tag-code : (s : ℕ) (t : Tag) → insert_tag fl s t ≡ fl.insert s (2 ^ code t)
  unfolding insert_tag code
  insert_tag-code s interactive = refl
  insert_tag-code s _ = refl

  has_tag-code : (s : ℕ) (t : Tag) → has_tag fl s t ≡ bit (code t) s
  unfolding has_tag code
  has_tag-code s interactive = fl.contains-single 0 s
  has_tag-code s t = fl.contains-single (code t) s

  has_tag-insert_tag_eq :
      (s : ℕ) (t u : Tag)
      → has_tag fl (insert_tag fl s t) u ≡ (has_tag fl s u || (code u == code t))
  has_tag-insert_tag_eq s t u =
      rw
        (
          has_tag-code (insert_tag fl s t) u,
          insert_tag-code s t,
          fl.bit-insert (code u) s _,
          bit-pow (code u) (code t),
          has_tag-code s u,
        )
        refl

  -- After a tag is inserted into any tag set, that tag is set, and any other of the eighteen tags is
  -- set exactly if it was set before.
  pub has_tag-insert_tag :
      (s : ℕ) (t u : Tag)
      → has_tag fl (insert_tag fl s t) u ≡ ite (Tag-discrete t u) true (has_tag fl s u)
  has_tag-insert_tag s t u = elim (Tag-discrete t u) [
    | yes e ↦ rw (if_pos _ e) (ground (arith, has_tag-insert_tag_eq s t u, ap code e))
    | no ne ↦ rw (if_neg _ ne) (ground (arith, has_tag-insert_tag_eq s t u, code-injective t u))
  ]
