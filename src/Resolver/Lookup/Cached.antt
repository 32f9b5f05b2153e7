-- ===== src/Resolver/Lookup/Cached.antt =====
-- How `Resolve` uses the cache.
use dnn_node.Base.{
  ℕ, ◌+◌, ◌≤◌, ◌≡◌, refl, ◌≢◌, List, Option, none, some, Result, ok, err, panic, arith,
}
use dnn_node.Base.Bytes.{Bytes}
use dnn_node.Base.Dict.{lookup-insert_self}
use dnn_node.Encoder.{Encoder}
use dnn_node.Resolver.Record.{ResolutionResult}
use dnn_node.Resolver.Cache.{ResolverCache, CacheEntry, get, got, set}
use dnn_node.Resolver.Lookup.{ResolverDb, ResolveError, resolve, resolve_from, resolve_query}

got_entry :
    (now : ℕ) (key : Bytes) (cache : ResolverCache) (e : CacheEntry)
    → now ≤ e.expires_at
    → got now key cache (some e) ≡ (some e.result, cache)
unfolding got
got_entry now key cache e h = ground arith

-- What is stored is found until its time is over.
pub get-set :
    (now t choice : ℕ) (key : Bytes) (r : ResolutionResult) (cache : ResolverCache)
    → t ≤ now + cache.ttl
    → get t key (set now choice key r cache) ≡ (some r, set now choice key r cache)
unfolding get set
get-set now t choice key r cache h =
    let e : CacheEntry = record { result = r; expires_at = now + cache.ttl } in
    rw (lookup-insert_self key e _) (got_entry t key _ _ h)

not_stored :
    (fresh : Result ResolveError ResolutionResult) (later choice : ℕ) (input : Bytes)
    (found : Option ResolutionResult × ResolverCache)
    → ((r : ResolutionResult) → (resolve_from fresh later choice input found).0 ≢ ok r)
    → (resolve_from fresh later choice input found).1 ≡ found.1
not_stored (ok r) later choice input (none, cache) h = absurd (h r refl)
not_stored (err e) later choice input (none, cache) h = refl
not_stored panic later choice input (none, cache) h = refl
not_stored fresh later choice input (some r, cache) h = absurd (h r refl)

-- A name that Resolve does not resolve leaves nothing in the cache: it is only looked up there.
pub resolve-error :
    (s : ResolverDb) (e : Encoder) (order : List (Bytes × ℕ)) (now later choice : ℕ) (input : Bytes)
    (cache : ResolverCache)
    → ((r : ResolutionResult) → (resolve s e order now later choice input cache).0 ≢ ok r)
    → (resolve s e order now later choice input cache).1 ≡ (get now input cache).1
unfolding resolve
resolve-error s e order now later choice input cache h =
    not_stored (resolve_query s e order input) later choice input (get now input cache) h
