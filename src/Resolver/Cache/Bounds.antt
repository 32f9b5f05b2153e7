-- ===== src/Resolver/Cache/Bounds.antt =====
-- How large the cache of the resolver grows.
use dnn_node.Base.{
  ℕ, zero, suc, ◌≤◌, ◌<◌, ◌%◌, ◌≡◌, refl, true, List, [], ◌∷◌, Option, none, some, arith, length,
  get_elem?, get_elem?_total, leb, leb→le, Bool-cases, inl, inr,
}
use dnn_node.Base.Bytes.{Bytes, bytes_eq, bytes_eq_refl}
use dnn_node.Base.Dict.{Dict, lookup, length-remove, length-remove_lt}
use dnn_node.Resolver.Record.{ResolutionResult}
use dnn_node.Resolver.Cache.{
  ResolverCache, CacheEntry, CacheOp, new_cache, get, got, set, clear, evict, remove_found, step,
  run, count_expired, get_stats, getting, setting, clearing, is_expired,
}

pub record IsBounded (cache : ResolverCache) : Type 0 where
  pub limit : cache.max_size ≡ 1000
  pub fits : length cache.entries ≤ cache.max_size

lookup-get_elem? :
    (d : Dict CacheEntry) (i : ℕ) (key : Bytes) (e : CacheEntry)
    → get_elem? d i ≡ some (key, e)
    → (v : CacheEntry) × (lookup key d ≡ some v)
lookup-get_elem? [] i key e h = absurd (cc)
lookup-get_elem? ((k, w) ∷ d) zero key e h =
    let same : k ≡ key = cc in (w, rw (same, bytes_eq_refl key) refl)
lookup-get_elem? ((k, w) ∷ d) (suc i) key e h =
    let (v, found) = lookup-get_elem? d i key e h in
    elim (Bool-cases (bytes_eq key k)) [
      | inl same ↦ (w, rw same refl)
      | inr other ↦ (v, rw other found)
    ]

length-remove_found :
    (d : Dict CacheEntry) (i : ℕ)
    → i < length d
    → length (remove_found (get_elem? d i) d) < length d
unfolding remove_found
length-remove_found d i h =
    let (found, e) = get_elem?_total d i h in
    let (v, present) = lookup-get_elem? d i found.0 found.1 e in
    rw e (omega (arith, length-remove_lt found.0 v d present))

-- A full cache loses an entry.
length-evict :
    (choice : ℕ) (d : Dict CacheEntry) → 0 < length d → length (evict choice d) < length d
unfolding evict
length-evict choice d h = length-remove_found d (choice % length d) (omega arith)

size_pos :
    (cache : ResolverCache)
    → IsBounded cache
    → leb cache.max_size (length cache.entries) ≡ true
    → 0 < length cache.entries
size_pos cache h full = omega (arith, h.limit, leb→le cache.max_size (length cache.entries) full)

set-IsBounded :
    (now choice : ℕ) (key : Bytes) (result : ResolutionResult) (cache : ResolverCache)
    → IsBounded cache
    → IsBounded (set now choice key result cache)
unfolding set
set-IsBounded now choice key result cache h =
    elim (Bool-cases (leb cache.max_size (length cache.entries))) [
      | inl full ↦ record {
        limit = h.limit;
        fits = rw full (
            ground (
              arith,
              leb→le cache.max_size (length cache.entries) full,
              h.limit,
              h.fits,
              length-evict choice cache.entries (size_pos cache h full),
              length-remove key (evict choice cache.entries),
            ));
      }
      | inr free ↦ record {
        limit = h.limit;
        fits = rw free (ground (arith, h.fits, length-remove key cache.entries));
      }
    ]

got-IsBounded :
    (now : ℕ) (key : Bytes) (cache : ResolverCache) (found : Option CacheEntry)
    → IsBounded cache
    → IsBounded (got now key cache found).1
unfolding got
got-IsBounded now key cache none h = h
got-IsBounded now key cache (some e) h = elim (Bool-cases (is_expired now e)) [
  | inl old ↦
      rw old
        (record { limit = h.limit; fits = omega (arith, h.fits, length-remove key cache.entries) })
  | inr fresh ↦ rw fresh h
]

get-IsBounded :
    (now : ℕ) (key : Bytes) (cache : ResolverCache)
    → IsBounded cache
    → IsBounded (get now key cache).1
unfolding get
get-IsBounded now key cache h = got-IsBounded now key cache _ h

step-IsBounded :
    (op : CacheOp) (cache : ResolverCache) → IsBounded cache → IsBounded (step op cache)
step-IsBounded (getting now key) cache h = get-IsBounded now key cache h
step-IsBounded (setting now choice key result) cache h = set-IsBounded now choice key result cache h
step-IsBounded clearing cache h = unfold clear in record { limit = h.limit; fits = omega arith }

run-IsBounded :
    (ops : List CacheOp) (cache : ResolverCache) → IsBounded cache → IsBounded (run ops cache)
unfolding run
run-IsBounded [] cache h = h
run-IsBounded (op ∷ ops) cache h = run-IsBounded ops (step op cache) (step-IsBounded op cache h)

count_expired_le : (now : ℕ) (d : Dict CacheEntry) → count_expired now d ≤ length d
count_expired_le now [] = omega arith
count_expired_le now ((key, e) ∷ d) = ground (arith, count_expired_le now d)

-- After any operations on the cache of a new resolver, GetStats reports a size of at most 1000, and
-- not more expired entries than entries.
pub get_stats-run :
    (ops : List CacheOp) (now : ℕ)
    → let stats = get_stats now (run ops new_cache) in
      (stats.size ≤ 1000) × (stats.expired ≤ stats.size)
unfolding get_stats
get_stats-run ops now =
    let start : IsBounded new_cache =
      unfold new_cache in record { limit = refl; fits = omega arith } in
    let bounded = run-IsBounded ops new_cache start in
    (omega (arith, bounded.limit, bounded.fits), count_expired_le now (run ops new_cache).entries)
