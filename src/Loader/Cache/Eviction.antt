-- ===== src/Loader/Cache/Eviction.antt =====
-- What the cache keeps, and what it evicts.
use nyarix_runtime.Base.{
  ℕ, suc, ◌≤◌, ◌<◌, ◌≡◌, refl, ap, ◌∙◌, inl, inr, Bool, List, [], ◌∷◌, ◌++◌, leb, ltb,
  if◌then◌else◌, arith, Bool-cases,
}
use nyarix_runtime.Loader.Cache.{
  CacheEntry, PackageCache, sizes, total_size, insert_by_age, sort_by_age, evict, evict_to_fit,
}

-- How often the list holds an entry that passes the test.
abbrev pub count : (CacheEntry → Bool) → List CacheEntry → ℕ
count p [] = 0
count p (e ∷ es) = if p e then suc (count p es) else count p es

-- Every entry is at least as new as `t`.
abbrev pub NotOlder : ℕ → List CacheEntry → Type 0
NotOlder t [] = Unit {0}
NotOlder t (e ∷ es) = (t ≤ e.installed_at) × NotOlder t es

-- Each entry is at least as old as all that follow it.
abbrev pub ByAge : List CacheEntry → Type 0
ByAge [] = Unit {0}
ByAge (e ∷ es) = NotOlder e.installed_at es × ByAge es

-- Each entry of `out` was evicted while the total of what then was left exceeded the limit.
abbrev pub Forced : ℕ → List CacheEntry → List CacheEntry → Type 0
Forced limit [] left = Unit {0}
Forced limit (e ∷ out) left = (limit < sizes (e ∷ out ++ left)) × Forced limit out left

count-insert_by_age :
    (p : CacheEntry → Bool) (e : CacheEntry) (es : List CacheEntry)
    → count p (insert_by_age e es) ≡ count p (e ∷ es)
count-insert_by_age p e [] = refl
count-insert_by_age p e (x ∷ xs) = ground (arith, count-insert_by_age p e xs)

count-sort_by_age :
    (p : CacheEntry → Bool) (es : List CacheEntry) → count p (sort_by_age es) ≡ count p es
count-sort_by_age p [] = refl
count-sort_by_age p (e ∷ es) =
    count-insert_by_age p e (sort_by_age es) ∙ ground (arith, count-sort_by_age p es)

NotOlder-le : (s t : ℕ) (es : List CacheEntry) → s ≤ t → NotOlder t es → NotOlder s es
NotOlder-le s t [] h n = tt
NotOlder-le s t (e ∷ es) h n = (omega (arith, n.0), NotOlder-le s t es h n.1)

NotOlder-insert_by_age :
    (t : ℕ) (e : CacheEntry) (es : List CacheEntry)
    → t ≤ e.installed_at
    → NotOlder t es
    → NotOlder t (insert_by_age e es)
NotOlder-insert_by_age t e [] h n = (h, tt)
NotOlder-insert_by_age t e (x ∷ xs) h n = elim (Bool-cases (leb e.installed_at x.installed_at)) [
  | inl first ↦ rw first (h, n)
  | inr later ↦ rw later (n.0, NotOlder-insert_by_age t e xs h n.1)
]

insert_by_age-ByAge :
    (e : CacheEntry) (es : List CacheEntry) → ByAge es → ByAge (insert_by_age e es)
insert_by_age-ByAge e [] b = (tt, tt)
insert_by_age-ByAge e (x ∷ xs) b = elim (Bool-cases (leb e.installed_at x.installed_at)) [
  | inl first ↦
      let le : e.installed_at ≤ x.installed_at = ground arith in
      rw first ((le, NotOlder-le _ _ xs le b.0), b)
  | inr later ↦
      let le : x.installed_at ≤ e.installed_at = ground arith in
      rw later (NotOlder-insert_by_age x.installed_at e xs le b.0, insert_by_age-ByAge e xs b.1)
]

sort_by_age-ByAge : (es : List CacheEntry) → ByAge (sort_by_age es)
sort_by_age-ByAge [] = tt
sort_by_age-ByAge (e ∷ es) = insert_by_age-ByAge e (sort_by_age es) (sort_by_age-ByAge es)

evict_lem :
    (limit : ℕ) (es : List CacheEntry)
    → ((evict limit es).0 ++ (evict limit es).1 ≡ es)
      × (sizes (evict limit es).1 ≤ limit)
      × Forced limit (evict limit es).0 (evict limit es).1
unfolding evict
evict_lem limit [] = (refl, omega arith, tt)
evict_lem limit (e ∷ es) =
    let (all, fits, forced) = evict_lem limit es in
    elim (Bool-cases (ltb limit (sizes (e ∷ es)))) [
      | inl over ↦
          let more : limit < sizes (e ∷ es) = ground arith in
          rw (over, evict) (ap (◌∷◌ e) all, fits, (rw all more, forced))
      | inr under ↦
          let le : sizes (e ∷ es) ≤ limit = ground arith in rw (under, evict) (refl, le, tt)
    ]

-- Eviction always ends with a total of at most the limit. The evicted entries followed by those that
-- stay are the entries of the cache from the oldest to the newest, each as often as before, and each
-- entry was evicted while the total of it and all that were left exceeded the limit.
pub evict_to_fit-Forced :
    (c : PackageCache) (limit : ℕ)
    → let (out, c') = evict_to_fit c limit in
      (total_size c' ≤ limit)
      × ByAge (out ++ c'.entries)
      × ((p : CacheEntry → Bool) → count p (out ++ c'.entries) ≡ count p c.entries)
      × Forced limit out c'.entries
unfolding evict_to_fit total_size
evict_to_fit-Forced c limit =
    let (all, fits, forced) = evict_lem limit (sort_by_age c.entries) in
    (
      fits,
      rw all (sort_by_age-ByAge c.entries),
      λ p. rw all (count-sort_by_age p c.entries),
      forced,
    )
