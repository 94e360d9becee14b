-- ===== src/Loader/Cache.antt =====
-- crates/nyarix-loader/src/cache.rs. Names, versions, paths and times are numbers. The deletion of an
-- evicted entry's directory, whose failure is ignored, is left out.
pub mod Eviction
pub mod Recording
use nyarix_runtime.Base.{
  ℕ, zero, suc, ◌+◌, ◌%◌, ◌^◌, Bool, true, false, not, ◌&&◌, List, [], ◌∷◌, ◌++◌, ◌==◌, leb, ltb,
  if◌then◌else◌, retain, length, any,
}

pub record CacheEntry : Type 0 where
  pub name : ℕ
  pub version : ℕ
  pub path : ℕ
  pub installed_at : ℕ
  pub size_bytes : ℕ

pub record PackageCache : Type 0 where
  pub entries : List CacheEntry

unfoldable pub record_entry : PackageCache → CacheEntry → PackageCache
record_entry c entry = record {
  entries =
      retain (λ e. not ((e.name == entry.name) && (e.version == entry.version))) c.entries
      ++ entry ∷ [];
}

-- `version_is_cached` of crates/nyarix-runtime/src/version_switch.rs.
unfoldable pub version_is_cached : PackageCache → ℕ → ℕ → Bool
version_is_cached c name version = any (λ e. (e.name == name) && (e.version == version)) c.entries

-- The 64-bit sum wraps.
abbrev pub sizes : List CacheEntry → ℕ
sizes [] = 0
sizes (e ∷ es) = (e.size_bytes + sizes es) % 2 ^ 64

unfoldable pub total_size : PackageCache → ℕ
total_size c = sizes c.entries

-- Before the first entry that is not older, so that entries of one time keep their order.
abbrev pub insert_by_age : CacheEntry → List CacheEntry → List CacheEntry
insert_by_age e [] = e ∷ []
insert_by_age e (x ∷ xs) =
    if leb e.installed_at x.installed_at then e ∷ x ∷ xs else x ∷ insert_by_age e xs

-- `sort_by_key`, which is stable.
abbrev pub sort_by_age : List CacheEntry → List CacheEntry
sort_by_age [] = []
sort_by_age (x ∷ xs) = insert_by_age x (sort_by_age xs)

-- The loop: what it evicts, oldest first, and what is left. Each round takes the head.
evict : ℕ → List CacheEntry → List CacheEntry × List CacheEntry
evict limit [] = ([], [])
evict limit (e ∷ es) =
    let (out, left) = evict limit es in
    if ltb limit (sizes (e ∷ es)) then (e ∷ out, left) else ([], e ∷ es)

unfoldable pub evict_to_fit : PackageCache → ℕ → List CacheEntry × PackageCache
unfolding evict
evict_to_fit c limit =
    let (out, left) = evict limit (sort_by_age c.entries) in (out, record { entries = left })
