-- ===== src/Resolver/Cache.antt =====
-- internal/resolver/resolver.go: the cache of resolved names. Times are nanoseconds; the entry
-- that a loop over the Go map meets first is chosen by an argument.
pub mod Bounds
pub mod Refinement
use dnn_node.Base.{
  ℕ, ◌+◌, ◌*◌, ◌%◌, ◌^◌, Bool, true, false, List, [], ◌∷◌, Option, none, some, ltb, leb, length,
  get_elem?, if◌then◌else◌,
}
use dnn_node.Base.Bytes.{Bytes}
use dnn_node.Base.Dict.{Dict, lookup, insert, remove}
use dnn_node.Resolver.Record.{ResolutionResult}

pub record CacheEntry : Type 0 where
  pub result : ResolutionResult
  pub expires_at : ℕ

pub record ResolverCache : Type 0 where
  pub entries : Dict CacheEntry
  pub max_size : ℕ
  pub ttl : ℕ

pub record CacheStats : Type 0 where
  pub size : ℕ
  pub max_size : ℕ
  pub expired : ℕ
  pub ttl : ℕ

-- The cache of `NewResolverWithNetwork`: 1000 entries, 5 minutes.
unfoldable pub new_cache : ResolverCache
new_cache = record { entries = []; max_size = 1000; ttl = 5 * 60 * 10 ^ 9 }

-- `now.After(entry.ExpiresAt)`
abbrev pub is_expired : ℕ → CacheEntry → Bool
is_expired now entry = ltb entry.expires_at now

unfoldable pub got :
    ℕ → Bytes → ResolverCache → Option CacheEntry → Option ResolutionResult × ResolverCache
got now key cache none = (none, cache)
got now key cache (some entry) =
    if is_expired now entry
    then (none, record cache { entries = remove key cache.entries })
    else (some entry.result, cache)

unfoldable pub get : ℕ → Bytes → ResolverCache → Option ResolutionResult × ResolverCache
unfolding got
get now key cache = got now key cache (lookup key cache.entries)

-- The loop that deletes the first key and stops.
unfoldable pub remove_found : Option (Bytes × CacheEntry) → Dict CacheEntry → Dict CacheEntry
remove_found none d = d
remove_found (some (key, entry)) d = remove key d

unfoldable pub evict : ℕ → Dict CacheEntry → Dict CacheEntry
unfolding remove_found
evict choice d = remove_found (get_elem? d (choice % length d)) d

unfoldable pub set : ℕ → ℕ → Bytes → ResolutionResult → ResolverCache → ResolverCache
unfolding evict
set now choice key result cache =
    let kept =
      if leb cache.max_size (length cache.entries)
      then evict choice cache.entries
      else cache.entries in
    record cache {
      entries = insert key (record { result = result; expires_at = now + cache.ttl }) kept;
    }

unfoldable pub clear : ResolverCache → ResolverCache
clear cache = record cache { entries = [] }

abbrev pub count_expired : ℕ → Dict CacheEntry → ℕ
count_expired now [] = 0
count_expired now ((key, entry) ∷ es) =
    if is_expired now entry then count_expired now es + 1 else count_expired now es

unfoldable pub get_stats : ℕ → ResolverCache → CacheStats
get_stats now cache = record {
  size = length cache.entries;
  max_size = cache.max_size;
  expired = count_expired now cache.entries;
  ttl = cache.ttl;
}

-- What a client does with the cache.
pub data CacheOp : Type 0 where
  getting : ℕ → Bytes → CacheOp
  setting : ℕ → ℕ → Bytes → ResolutionResult → CacheOp
  clearing : CacheOp

abbrev pub step : CacheOp → ResolverCache → ResolverCache
step (getting now key) cache = (get now key cache).1
step (setting now choice key result) cache = set now choice key result cache
step clearing cache = clear cache

unfoldable pub run : List CacheOp → ResolverCache → ResolverCache
unfolding get set clear
run [] cache = cache
run (op ∷ ops) cache = run ops (step op cache)
