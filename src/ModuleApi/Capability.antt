-- ===== src/ModuleApi/Capability.antt =====
-- crates/nyarix-module-api/src/capability.rs. A mask is the `u16` that the `bitflags!` macro wraps; the
-- operations that the macro generates are the parameter `MaskOps`.
pub mod Grants
use Prim.Native.String.{String}
use nyarix_runtime.Base.{ℕ, ◌^◌, ◌≡◌, Bool, true, false, not, ◌&&◌, ◌==◌, List, [], ◌∷◌, retain}
use nyarix_runtime.Packet.Tags.{bit, Bitflags}

-- What `bitflags` documents of the two further calls: `&` is the bitwise and, and a set contains
-- another if it has all its bits; the masks are below 2 ^ 16.
pub record MaskOps : Type 0 where
  pub flags : Bitflags
  pub both : ℕ → ℕ → ℕ
  pub bit-both : (i s t : ℕ) → bit i (both s t) ≡ (bit i s && bit i t)

pub data Capability : Type 0 where
  filesystem network tun random crypto clock scheduler : Capability
  storage metrics dns ui_hooks background privileged_sockets : Capability

-- `format!("{capability:?}").to_lowercase()`.
abbrev pub capability_name : Capability → String
capability_name filesystem = "filesystem"
capability_name network = "network"
capability_name tun = "tun"
capability_name random = "random"
capability_name crypto = "crypto"
capability_name clock = "clock"
capability_name scheduler = "scheduler"
capability_name storage = "storage"
capability_name metrics = "metrics"
capability_name dns = "dns"
capability_name ui_hooks = "uihooks"
capability_name background = "background"
capability_name privileged_sockets = "privilegedsockets"

unfoldable pub mask : Capability → ℕ
mask filesystem = 2 ^ 0
mask network = 2 ^ 1
mask tun = 2 ^ 2
mask random = 2 ^ 3
mask crypto = 2 ^ 4
mask clock = 2 ^ 5
mask scheduler = 2 ^ 6
mask storage = 2 ^ 7
mask metrics = 2 ^ 8
mask dns = 2 ^ 9
mask ui_hooks = 2 ^ 10
mask background = 2 ^ 11
mask privileged_sockets = 2 ^ 12

pub record CapabilityGrant : Type 0 where
  pub granted : ℕ
  pub denied : List Capability

-- `CapabilityMask::empty()`.
abbrev pub empty : ℕ
empty = 0

module _ (mo : MaskOps) where
  -- The fold from the left, from a mask on.
  unfoldable pub add_capabilities : ℕ → List Capability → ℕ
  unfolding mask
  add_capabilities m [] = m
  add_capabilities m (c ∷ cs) = add_capabilities (mo.flags.insert m (mask c)) cs

  unfoldable pub from_capabilities : List Capability → ℕ
  unfolding add_capabilities
  from_capabilities cs = add_capabilities empty cs

  unfoldable pub has : ℕ → Capability → Bool
  unfolding mask
  has m c = mo.flags.contains m (mask c)

  unfoldable pub request : List Capability → ℕ → CapabilityGrant
  unfolding from_capabilities has
  request required granted = record {
    granted = mo.both (from_capabilities required) granted;
    denied = retain (λ c. not (has granted c)) required;
  }

  unfoldable pub is_fully_granted : CapabilityGrant → Bool
  is_fully_granted grant = elim grant.denied [ [] ↦ true | _ ↦ false ]

  unfoldable pub grant_has : CapabilityGrant → Capability → Bool
  unfolding has
  grant_has grant c = has grant.granted c
