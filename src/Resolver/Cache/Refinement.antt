-- ===== src/Resolver/Cache/Refinement.antt =====
-- The cache as a part of a plain store, in which every result is found until it is replaced.
use dnn_node.Base.{
  ℕ, ◌+◌, ◌≤◌, ◌≡◌, refl, ap, Bool, true, false, List, [], ◌∷◌, Option, none, some, arith,
  if◌then◌else◌, Bool-cases, inl, inr,
}
use dnn_node.Base.Bytes.{Bytes, bytes_eq}
use dnn_node.Base.Dict.{Dict, lookup, remove, lookup_of_removed, lookup-insert_cases}
use dnn_node.Resolver.Record.{ResolutionResult}
use dnn_node.Resolver.Cache.{
  ResolverCache, CacheEntry, CacheOp, new_cache, get, got, set, clear, evict, remove_found, step,
  run, getting, setting, clearing, is_expired,
}

-- What was stored last under each key.
abbrev pub Store : Type 0
Store = Bytes → Option CacheEntry

abbrev pub spec_step : ℕ → CacheOp → Store → Store
spec_step ttl (getting now key) a = a
spec_step ttl (setting now choice key result) a =
    λ j. if bytes_eq j key then some (record { result = result; expires_at = now + ttl }) else a j
spec_step ttl clearing a = λ j. none

unfoldable pub spec_run : ℕ → List CacheOp → Store → Store
spec_run ttl [] a = a
spec_run ttl (op ∷ ops) a = spec_run ttl ops (spec_step ttl op a)

-- The cache has nothing but what the store has.
record Refines (ttl : ℕ) (cache : ResolverCache) (a : Store) : Type 0 where
  keeps_ttl : cache.ttl ≡ ttl
  sound : (key : Bytes) (e : CacheEntry) → lookup key cache.entries ≡ some e → a key ≡ some e

lookup-remove_found :
    (found : Option (Bytes × CacheEntry)) (d : Dict CacheEntry) (key : Bytes) (e : CacheEntry)
    → lookup key (remove_found found d) ≡ some e
    → lookup key d ≡ some e
unfolding remove_found
lookup-remove_found none d key e h = h
lookup-remove_found (some (k, v)) d key e h = lookup_of_removed key k e d h

lookup-kept :
    (b : Bool) (choice : ℕ) (d : Dict CacheEntry) (key : Bytes) (e : CacheEntry)
    → lookup key (if b then evict choice d else d) ≡ some e
    → lookup key d ≡ some e
unfolding evict
lookup-kept true choice d key e h = lookup-remove_found _ d key e h
lookup-kept false choice d key e h = h

set-Refines :
    (ttl now choice : ℕ) (key : Bytes) (result : ResolutionResult) (cache : ResolverCache)
    (a : Store)
    → Refines ttl cache a
    → Refines ttl
        (set now choice key result cache)
        (spec_step ttl (setting now choice key result) a)
unfolding set
set-Refines ttl now choice key result cache a h = record {
  keeps_ttl = h.keeps_ttl;
  sound = λ j e found. elim (lookup-insert_cases j key _ e _ found) [
    | inl (same, entry) ↦ rw same (ap some (let k = h.keeps_ttl in cc))
    | inr (other, old) ↦ rw other (h.sound j e (lookup-kept _ choice cache.entries j e old))
  ];
}

remove-Refines :
    (ttl : ℕ) (key : Bytes) (cache : ResolverCache) (a : Store)
    → Refines ttl cache a
    → Refines ttl (record cache { entries = remove key cache.entries }) a
remove-Refines ttl key cache a h = record {
  keeps_ttl = h.keeps_ttl;
  sound = λ j e found. h.sound j e (lookup_of_removed j key e cache.entries found);
}

got-Refines :
    (ttl now : ℕ) (key : Bytes) (cache : ResolverCache) (a : Store) (found : Option CacheEntry)
    → Refines ttl cache a
    → Refines ttl (got now key cache found).1 a
unfolding got
got-Refines ttl now key cache a none h = h
got-Refines ttl now key cache a (some e) h = elim (Bool-cases (is_expired now e)) [
  | inl old ↦ rw old (remove-Refines ttl key cache a h)
  | inr fresh ↦ rw fresh h
]

get-Refines :
    (ttl now : ℕ) (key : Bytes) (cache : ResolverCache) (a : Store)
    → Refines ttl cache a
    → Refines ttl (get now key cache).1 a
unfolding get
get-Refines ttl now key cache a h = got-Refines ttl now key cache a _ h

step-Refines :
    (ttl : ℕ) (op : CacheOp) (cache : ResolverCache) (a : Store)
    → Refines ttl cache a
    → Refines ttl (step op cache) (spec_step ttl op a)
step-Refines ttl (getting now key) cache a h = get-Refines ttl now key cache a h
step-Refines ttl (setting now choice key result) cache a h =
    set-Refines ttl now choice key result cache a h
step-Refines ttl clearing cache a h =
    unfold clear in record { keeps_ttl = h.keeps_ttl; sound = λ j e found. absurd (cc) }

run-Refines :
    (ttl : ℕ) (ops : List CacheOp) (cache : ResolverCache) (a : Store)
    → Refines ttl cache a
    → Refines ttl (run ops cache) (spec_run ttl ops a)
unfolding run spec_run
run-Refines ttl [] cache a h = h
run-Refines ttl (op ∷ ops) cache a h =
    run-Refines ttl ops (step op cache) (spec_step ttl op a) (step-Refines ttl op cache a h)

got_sound :
    (now : ℕ) (key : Bytes) (cache : ResolverCache) (found : Option CacheEntry)
    (r : ResolutionResult)
    → (got now key cache found).0 ≡ some r
    → (e : CacheEntry) × (found ≡ some e) × (e.result ≡ r) × (now ≤ e.expires_at)
unfolding got
got_sound now key cache none r h = absurd (cc)
got_sound now key cache (some e) r h = (e, refl, ground arith, ground arith)

get_sound :
    (now : ℕ) (key : Bytes) (cache : ResolverCache) (r : ResolutionResult)
    → (get now key cache).0 ≡ some r
    → (e : CacheEntry) × (lookup key cache.entries ≡ some e) × (e.result ≡ r) × (now ≤ e.expires_at)
unfolding get
get_sound now key cache r h = got_sound now key cache (lookup key cache.entries) r h

-- After any operations on the cache of a new resolver, a result that Get returns is the one that
-- was stored last under the key, since the last Clear, and its time to live of five minutes is not
-- over.
pub get-run :
    (ops : List CacheOp) (now : ℕ) (key : Bytes) (r : ResolutionResult)
    → (get now key (run ops new_cache)).0 ≡ some r
    → (e : CacheEntry) × (spec_run new_cache.ttl ops (λ j. none) key ≡ some e)
      × (e.result ≡ r)
      × (now ≤ e.expires_at)
get-run ops now key r h =
    let (e, found, result, fresh) = get_sound now key (run ops new_cache) r h in
    let start : Refines new_cache.ttl new_cache (λ j. none) = record {
      keeps_ttl = refl;
      sound = λ j e' f. absurd (unfold new_cache in cc);
    } in
    let refined = run-Refines new_cache.ttl ops new_cache (λ j. none) start in
    (e, refined.sound key e found, result, fresh)
