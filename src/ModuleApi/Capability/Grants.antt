-- ===== src/ModuleApi/Capability/Grants.antt =====
-- Which capabilities a request grants and which it denies.
use Prim.Native.Nat.{◌^◌}
use mathlib.Core.Logic.{◌↔◌}
use nyarix_runtime.Base.{
  ℕ, zero, suc, ◌≡◌, refl, ap, ◌∙◌, Bool, true, false, not, ◌&&◌, ◌||◌, ◌==◌, arith, List, [], ◌∷◌,
  some, get_elem?, any, retain, inl, inr, Bool-cases, List-cases, ==_refl,
}
use nyarix_runtime.Packet.Tags.{bit}
use nyarix_runtime.Packet.Tags.Laws.{bit-pow}
use nyarix_runtime.ModuleApi.Capability.{
  MaskOps, Capability, filesystem, network, tun, random, crypto, clock, scheduler, storage, metrics,
  dns, ui_hooks, background, privileged_sockets, mask, empty, add_capabilities, from_capabilities,
  has, request, is_fully_granted, grant_has,
}

-- The position of a capability's bit.
pub code : Capability → ℕ
code filesystem = 0
code network = 1
code tun = 2
code random = 3
code crypto = 4
code clock = 5
code scheduler = 6
code storage = 7
code metrics = 8
code dns = 9
code ui_hooks = 10
code background = 11
code privileged_sockets = 12

-- `Capability::ALL`.
abbrev pub all_capabilities : List Capability
all_capabilities =
    filesystem ∷ network ∷ tun ∷ random ∷ crypto ∷ clock ∷ scheduler ∷ storage ∷ metrics ∷ dns
    ∷ ui_hooks ∷ background ∷ privileged_sockets ∷ []

get_elem?-code : (c : Capability) → get_elem? all_capabilities (code c) ≡ some c
unfolding code
get_elem?-code filesystem = refl
get_elem?-code _ = refl

code-injective : (c d : Capability) → code c ≡ code d → c ≡ d
code-injective c d e = cc (get_elem?-code c, get_elem?-code d)

mask-code : (c : Capability) → mask c ≡ 2 ^ code c
unfolding mask code
mask-code filesystem = refl
mask-code _ = refl

-- `==` on capabilities.
abbrev pub same : Capability → Capability → Bool
same c d = code c == code d

abbrev pub requests : Capability → List Capability → Bool
requests c cs = any (λ d. same c d) cs

bit-zero : (i : ℕ) → bit i 0 ≡ false
bit-zero zero = refl
bit-zero (suc i) = bit-zero i

module _ (mo : MaskOps) where
  has-code : (m : ℕ) (c : Capability) → has mo m c ≡ bit (code c) m
  unfolding has
  has-code m c = ap (λ x. mo.flags.contains m x) (mask-code c) ∙ mo.flags.contains-single (code c) m

  add_capabilities-has :
      (c : Capability) (m : ℕ) (cs : List Capability)
      → bit (code c) (add_capabilities mo m cs) ≡ (bit (code c) m || requests c cs)
  unfolding add_capabilities
  add_capabilities-has c m [] = ground arith
  add_capabilities-has c m (d ∷ cs) =
      let e : bit (code c) (mo.flags.insert m (mask d)) ≡ (bit (code c) m || same c d) =
        mo.flags.bit-insert (code c) m (mask d)
        ∙ rw (mask-code d, bit-pow (code c) (code d)) refl in
      add_capabilities-has c (mo.flags.insert m (mask d)) cs ∙ rw e (ground arith)

  denied-requests :
      (c : Capability) (cs : List Capability) (granted : ℕ)
      → requests c (retain (λ d. not (has mo granted d)) cs)
        ≡ (requests c cs && not (has mo granted c))
  denied-requests c [] granted = refl
  denied-requests c (d ∷ cs) granted = elim (Bool-cases (same c d)) [
    | inr other ↦ ground (arith, other, denied-requests c cs granted)
    | inl hit ↦
        let e : has mo granted c ≡ has mo granted d =
          ap (has mo granted) (code-injective c d (ground (arith, hit))) in
        ground (arith, hit, e, denied-requests c cs granted)
  ]

  none_requested : (cs : List Capability) → ((c : Capability) → requests c cs ≡ false) → cs ≡ []
  none_requested [] h = refl
  none_requested (d ∷ cs) h = absurd (ground (arith, h d, ==_refl (code d)))

  -- The list, gone through in order: each capability that the policy grants is left out, and each
  -- other one is denied.
  pub data Denials (granted : ℕ) : List Capability → List Capability → Type 0 where
    ends : Denials granted [] []
    granted_one :
        {c : Capability} {cs ds : List Capability}
        → has mo granted c ≡ true
        → Denials granted cs ds
        → Denials granted (c ∷ cs) ds
    denied_one :
        {c : Capability} {cs ds : List Capability}
        → has mo granted c ≡ false
        → Denials granted cs ds
        → Denials granted (c ∷ cs) (c ∷ ds)

  retain-Denials :
      (granted : ℕ) (cs : List Capability)
      → Denials granted cs (retain (λ c. not (has mo granted c)) cs)
  retain-Denials granted [] = ends
  retain-Denials granted (c ∷ cs) = elim (Bool-cases (has mo granted c)) [
    | inl e ↦ rw e (granted_one e (retain-Denials granted cs))
    | inr e ↦ rw e (denied_one e (retain-Denials granted cs))
  ]

  -- Of the required capabilities, a request grants those that the policy grants, denies the others, in
  -- their order and as often as they are required, and grants nothing that was not required. It is
  -- fully granted exactly if the policy grants every required capability.
  pub request-has :
      (required : List Capability) (granted : ℕ)
      → ((c : Capability)
          → grant_has mo (request mo required granted) c
            ≡ (requests c required && has mo granted c))
        × Denials granted required (request mo required granted).denied
        × ((is_fully_granted mo (request mo required granted) ≡ true)
            ↔ ((c : Capability) → requests c required ≡ true → has mo granted c ≡ true))
  unfolding request grant_has from_capabilities is_fully_granted
  request-has required granted = (given, retain-Denials granted required, (all, full))
    where
      given :
          (c : Capability)
          → has mo (mo.both (from_capabilities mo required) granted) c
            ≡ (requests c required && has mo granted c)
      given c =
          has-code _ c
          ∙ mo.bit-both (code c) _ granted
          ∙ rw (add_capabilities-has c empty required, bit-zero (code c), has-code granted c) refl

      all :
          is_fully_granted mo (request mo required granted) ≡ true
          → (c : Capability) → requests c required ≡ true
          → has mo granted c ≡ true
      all h c r = elim (List-cases (retain (λ d. not (has mo granted d)) required)) [
        | inl e ↦
            let none_denied : requests c (retain (λ d. not (has mo granted d)) required) ≡ false =
              ap (requests c) e in
            ground (arith, none_denied, denied-requests c required granted, r)
        | inr (d, ds, e) ↦ absurd (ground (arith, rw e at h))
      ]

      full :
          ((c : Capability) → requests c required ≡ true → has mo granted c ≡ true)
          → is_fully_granted mo (request mo required granted) ≡ true
      full h =
          rw
            (none_requested (retain (λ d. not (has mo granted d)) required)
              (λ c. ground (arith, denied-requests c required granted, h c)))
            refl
