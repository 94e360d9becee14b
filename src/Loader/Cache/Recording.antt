-- ===== src/Loader/Cache/Recording.antt =====
-- The index of the cache holds each version of a package once.
use nyarix_runtime.Base.{
  ℕ, ◌≡◌, ◌∙◌, Bool, not, ◌&&◌, ◌||◌, List, [], ◌∷◌, ◌++◌, ◌==◌, retain, any, any-append, arith,
}
use nyarix_runtime.Loader.Cache.{CacheEntry, PackageCache, record_entry, version_is_cached}
use nyarix_runtime.Loader.Cache.Eviction.{count}

-- The entry is that of the version `v` of the package `n`.
abbrev pub is_for : ℕ → ℕ → CacheEntry → Bool
is_for n v e = (e.name == n) && (e.version == v)

any_kept :
    (entry : CacheEntry) (n v : ℕ) (es : List CacheEntry)
    → (any (is_for n v) (retain (λ e. not (is_for entry.name entry.version e)) es)
        || is_for n v entry)
      ≡ (is_for n v entry || any (is_for n v) es)
any_kept entry n v [] = ground arith
any_kept entry n v (e ∷ es) = ground (arith, any_kept entry n v es)

count_kept :
    (entry : CacheEntry) (es : List CacheEntry)
    → count
        (is_for entry.name entry.version)
        (retain (λ e. not (is_for entry.name entry.version e)) es ++ entry ∷ [])
      ≡ 1
count_kept entry [] = ground arith
count_kept entry (e ∷ es) = ground (arith, count_kept entry es)

-- After an entry is recorded its version is cached, every other version is cached exactly if it was
-- before, and there is one entry for the recorded version, whatever was recorded earlier.
pub version_is_cached-record_entry :
    (c : PackageCache) (entry : CacheEntry) (n v : ℕ)
    → (version_is_cached (record_entry c entry) n v ≡ (is_for n v entry || version_is_cached c n v))
      × (count (is_for entry.name entry.version) (record_entry c entry).entries ≡ 1)
unfolding version_is_cached record_entry
version_is_cached-record_entry c entry n v = (
  any-append (is_for n v) (retain (λ e. not (is_for entry.name entry.version e)) c.entries)
        (entry ∷ [])
      ∙ ground (arith, any_kept entry n v c.entries),
  count_kept entry c.entries,
)
