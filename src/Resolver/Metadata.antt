-- ===== src/Resolver/Metadata.antt =====
-- internal/resolver/resolver.go: `resolveMetadataPath` and `ResolvePath`.
use dnn_node.Base.{
  ℕ, ◌≡◌, refl, sym, ◌++◌, List, [], ◌∷◌, Option, none, some, Result, ok, err, panic,
}
use dnn_node.Base.Bytes.{Bytes, split}
use dnn_node.Nostr.{Json, Props, null, bool, num, str, arr, obj, lookup_prop}
use dnn_node.Resolver.Record.{ResolutionResult}
use dnn_node.Resolver.Lookup.{ResolveError, ResolverDb, empty_path, resolve}
use dnn_node.Encoder.{Encoder}
use dnn_node.Resolver.Cache.{ResolverCache}

-- A nil map is `none`, and so is the nil value. `walk` is the rest of the loop.
unfoldable pub descend : Option Json → (Props → Option Json) → Option Json
descend none walk = none
descend (some null) walk = none
descend (some (obj next)) walk = walk next
descend (some (bool b)) walk = some (bool b)
descend (some (num text)) walk = some (num text)
descend (some (str text)) walk = some (str text)
descend (some (arr elems)) walk = some (arr elems)

unfoldable pub resolve_metadata_path : Option Props → List Bytes → Option Json
unfolding descend
resolve_metadata_path none segments = none
resolve_metadata_path (some current) [] = some (obj current)
resolve_metadata_path (some current) (segment ∷ segments) =
    descend (lookup_prop segment current) (λ next. resolve_metadata_path (some next) segments)

pub record PathResolution : Type 0 where
  pub base : ResolutionResult
  pub path : Bytes
  pub segments : List Bytes
  pub resolved_value : Option Json

abbrev value_at : Option Props → List Bytes → Option Json
value_at metadata [] = none
value_at metadata (segment ∷ segments) = resolve_metadata_path metadata (segment ∷ segments)

-- `parts[1:]` of the parts of the path.
abbrev at_path :
    Bytes → List Bytes → Result ResolveError ResolutionResult → Result ResolveError PathResolution
at_path path segments (ok base) = ok (record {
  base = base;
  path = path;
  segments = segments;
  resolved_value = value_at base.metadata segments;
})
at_path path segments (err e) = err e
at_path path segments panic = panic

-- `resolve_base` is `Resolve`; the cache goes through it.
unfoldable pub resolve_parts :
    (Bytes → Result ResolveError ResolutionResult × ResolverCache)
    → Bytes
    → List Bytes
    → Result ResolveError PathResolution × ResolverCache
    → Result ResolveError PathResolution × ResolverCache
resolve_parts resolve_base path [] empty = empty
resolve_parts resolve_base path (base ∷ segments) empty =
    let (result, cache) = resolve_base base in (at_path path segments result, cache)

unfoldable pub resolve_path :
    ResolverDb
    → Encoder
    → List (Bytes × ℕ)
    → ℕ
    → ℕ
    → ℕ
    → Bytes
    → ResolverCache
    → Result ResolveError PathResolution × ResolverCache
unfolding resolve_parts
resolve_path s e order now later choice path cache =
    resolve_parts (λ base. resolve s e order now later choice base cache) path (split path b'/')
      (err empty_path, cache)

-- What a value has below it: a map is walked on, anything else stands for itself.
abbrev pub below : Json → List Bytes → Option Json
below (obj current) segments = resolve_metadata_path (some current) segments
below value segments = some value

descend-append :
    (found : Option Json) (segments more : List Bytes) (value : Json)
    → ((m : Props)
        → resolve_metadata_path (some m) segments ≡ some value
        → resolve_metadata_path (some m) (segments ++ more) ≡ below value more)
    → descend found (λ m. resolve_metadata_path (some m) segments) ≡ some value
    → descend found (λ m. resolve_metadata_path (some m) (segments ++ more)) ≡ below value more
unfolding descend
descend-append none segments more value ih h = absurd (cc)
descend-append (some null) segments more value ih h = absurd (cc)
descend-append (some (obj next)) segments more value ih h = ih next h
descend-append (some (bool b)) segments more value ih h =
    let e : bool b ≡ value = cc in rw (sym e) refl
descend-append (some (num text)) segments more value ih h =
    let e : num text ≡ value = cc in rw (sym e) refl
descend-append (some (str text)) segments more value ih h =
    let e : str text ≡ value = cc in rw (sym e) refl
descend-append (some (arr elems)) segments more value ih h =
    let e : arr elems ≡ value = cc in rw (sym e) refl

-- A path that leads to a value leads on from there: behind a map the rest of the path is looked up
-- in it, and behind any other value the rest of the path is ignored.
pub resolve_metadata_path-append :
    (metadata : Option Props) (segments more : List Bytes) (value : Json)
    → resolve_metadata_path metadata segments ≡ some value
    → resolve_metadata_path metadata (segments ++ more) ≡ below value more
unfolding resolve_metadata_path
resolve_metadata_path-append none segments more value h = absurd (cc)
resolve_metadata_path-append (some current) [] more value h =
    let e : obj current ≡ value = cc in rw (sym e) refl
resolve_metadata_path-append (some current) (segment ∷ segments) more value h =
    descend-append (lookup_prop segment current) segments more value
      (λ m. resolve_metadata_path-append (some m) segments more value) h
