-- ===== src/Resolver/Lookup.antt =====
-- internal/resolver/resolver.go: `Resolve` and `buildResult`.
-- `GetAnchorByName` and `json.Unmarshal` are the fields of `ResolverDb`.
pub mod Cached
use dnn_node.Base.{ℕ, List, Option, none, some, Result, ok, err, panic, ◌>>=◌, or_err, wrap_err}
use dnn_node.Base.Bytes.{Bytes, codes}
use dnn_node.Nostr.{Json, Props, obj, lookup_prop}
use dnn_node.Encoder.{Encoder, EncodeError, encode}
use dnn_node.Resolver.Record.{AnchorRecord, ResolutionResult}
use dnn_node.Resolver.Cache.{ResolverCache, get, set}
use dnn_node.Resolver.Input.{
  Query, ParsedInput, query, invalid_format, parse_panic, parse_input, generate_alternate_notations,
}

-- A query fails (`none`), or finds a record or none. A document that is `null` is an empty map.
pub record ResolverDb : Type 0 where
  pub get_anchor_by_name : Query → Option (Option AnchorRecord)
  pub unmarshal : Bytes → Option Props

pub data ResolveError : Type 0 where
  invalid_input database_failed name_not_found invalid_connection invalid_metadata empty_path :
      ResolveError

abbrev map_of : Option Json → Option Props
map_of (some (obj props)) = some props
map_of _ = none

-- `encoded, _ := Encode(...)`: an error leaves the empty text.
abbrev text_or_empty : Result EncodeError Bytes → Result ResolveError Bytes
text_or_empty (ok text) = ok text
text_or_empty (err _) = ok (codes "")
text_or_empty panic = panic

unfoldable pub build_result :
    ResolverDb → Encoder → AnchorRecord → Result ResolveError ResolutionResult
build_result s e anchor = do
  connection ← or_err (s.unmarshal anchor.connection_content) invalid_connection
  wrapper ← or_err (s.unmarshal anchor.metadata_content) invalid_metadata
  encoded ← text_or_empty (encode e anchor.dnn_block anchor.position)
  ok (record {
    name = anchor.name;
    pubkey = anchor.pubkey;
    dnn_block = anchor.dnn_block;
    bitcoin_block = anchor.bitcoin_block;
    position = anchor.position;
    connection = connection;
    metadata = map_of (lookup_prop (codes "metadata") wrapper);
    encoded_notation = encoded;
    alternate_notations =
        generate_alternate_notations e anchor.name anchor.dnn_block anchor.position encoded;
    created_at = anchor.created_at;
  })

abbrev query_of : ParsedInput → Result ResolveError Query
query_of (query q) = ok q
query_of invalid_format = err invalid_input
query_of parse_panic = panic

-- `Resolve` behind the cache.
unfoldable pub resolve_query :
    ResolverDb → Encoder → List (Bytes × ℕ) → Bytes → Result ResolveError ResolutionResult
unfolding build_result
resolve_query s e order input = do
  q ← query_of (parse_input e order input)
  answer ← or_err (s.get_anchor_by_name q) database_failed
  anchor ← or_err answer name_not_found
  build_result s e anchor

-- What is resolved is stored; an error leaves the cache.
abbrev store_result :
    ℕ
    → ℕ
    → Bytes
    → ResolverCache
    → Result ResolveError ResolutionResult
    → Result ResolveError ResolutionResult × ResolverCache
store_result now choice input cache (ok result) = (ok result, set now choice input result cache)
store_result now choice input cache (err e) = (err e, cache)
store_result now choice input cache panic = (panic, cache)

abbrev resolve_from :
    Result ResolveError ResolutionResult
    → ℕ
    → ℕ
    → Bytes
    → Option ResolutionResult × ResolverCache
    → Result ResolveError ResolutionResult × ResolverCache
resolve_from fresh now choice input (some cached, cache) = (ok cached, cache)
resolve_from fresh now choice input (none, cache) = store_result now choice input cache fresh

-- The clock is read twice: `now` by Get, `later` by Set.
unfoldable pub resolve :
    ResolverDb
    → Encoder
    → List (Bytes × ℕ)
    → ℕ
    → ℕ
    → ℕ
    → Bytes
    → ResolverCache
    → Result ResolveError ResolutionResult × ResolverCache
unfolding resolve_query
resolve s e order now later choice input cache =
    resolve_from (resolve_query s e order input) later choice input (get now input cache)
