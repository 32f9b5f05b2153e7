-- ===== src/Resolver/Tests.antt =====
-- The resolver on small inputs, and its theorems at some.
use dnn_node.Base.{◌+◌, ◌-◌, ◌≤◌, ◌≡◌, refl, List, [], ◌∷◌, none, some, arith, All, take, drop, map}
use dnn_node.Base.Bytes.{codes}
use dnn_node.Base.Int.{pos}
use dnn_node.Nostr.{Props, str, obj, end, prop}
use dnn_node.Encoder.Samples.{testnet, first_code, testnet_start}
use dnn_node.Encoder.RoundTrip.{new_encoder_with_params-IsEncoder}
use dnn_node.Encoder.Notation.{multipliers}
use dnn_node.Encoder.Notation.Ambiguity.{multipliers-IsOrder}
use dnn_node.Resolver.Record.{AnchorRecord, ResolutionResult}
use dnn_node.Resolver.Cache.{
  CacheEntry, CacheOp, new_cache, get, got, set, evict, remove_found, run, getting, setting,
  get_stats,
}
use dnn_node.Resolver.Cache.Bounds.{get_stats-run}
use dnn_node.Resolver.Cache.Refinement.{spec_run, get-run}
use dnn_node.Resolver.Input.{parse_input, at_block, generate_alternate_notations}
use dnn_node.Resolver.Input.RoundTrip.{
  IsLabel, parse_input-generate_alternate_notations, parse_input-bitcoin_shorthand,
}
use dnn_node.Resolver.Lookup.{ResolverDb}
use dnn_node.Resolver.Metadata.{resolve_metadata_path}

abbrev alice : ResolutionResult
alice = record {
  name = codes "alice";
  pubkey = [];
  dnn_block = pos 50;
  bitcoin_block = pos 940050;
  position = pos 0;
  connection = end;
  metadata = none;
  encoded_notation = [];
  alternate_notations = [];
  created_at = pos 0;
}

abbrev stored_once : List CacheOp
stored_once = setting 5 0 (codes "alice") alice ∷ getting 6 (codes "bob") ∷ []

found_alice : (get 7 (codes "alice") (run stored_once new_cache)).0 ≡ some alice
unfolding get got run set evict remove_found new_cache
found_alice = refl

get-run_example :
    (e : CacheEntry) × (spec_run new_cache.ttl stored_once (λ j. none) (codes "alice") ≡ some e)
    × (e.result ≡ alice)
    × (7 ≤ e.expires_at)
get-run_example = get-run stored_once 7 (codes "alice") alice found_alice

get_stats-run_example :
    let stats = get_stats 7 (run stored_once new_cache) in
    (stats.size ≤ 1000) × (stats.expired ≤ stats.size)
get_stats-run_example = get_stats-run stored_once 7

abbrev anchor : AnchorRecord
anchor = record {
  pubkey = [];
  created_at = pos 0;
  bitcoin_block = pos 940050;
  dnn_block = pos 50;
  position = pos 0;
  name = codes "alice";
  connection_content = [];
  metadata_content = [];
}

-- A database with one anchor, and one without.
abbrev full : ResolverDb
full = record { get_anchor_by_name = λ q. some (some anchor); unmarshal = λ text. some end }

abbrev empty : ResolverDb
empty = record { get_anchor_by_name = λ q. some none; unmarshal = λ text. some end }

abbrev fresh : ResolutionResult
fresh = record {
  name = codes "alice";
  pubkey = [];
  dnn_block = pos 50;
  bitcoin_block = pos 940050;
  position = pos 0;
  connection = end;
  metadata = none;
  encoded_notation = [];
  alternate_notations = generate_alternate_notations testnet (codes "alice") (pos 50) (pos 0) [];
  created_at = pos 0;
}

alice-IsLabel : IsLabel (codes "alice")
alice-IsLabel = record { no_dot = omega arith; no_colon = omega arith }

parse_input-generate_alternate_notations_example :
    All
      (λ notation.
        parse_input testnet multipliers notation ≡ at_block (codes "alice") (pos 1998) (pos 1))
      (take 3 (
        generate_alternate_notations testnet
          (codes "alice")
          (pos 1998)
          (pos 1)
          (codes "nabandonzooa")))
parse_input-generate_alternate_notations_example =
    parse_input-generate_alternate_notations testnet multipliers (codes "alice")
      (codes "nabandonzooa") 1998 1 940000 testnet_start
      (new_encoder_with_params-IsEncoder (pos 5) (pos 1000000) (pos 940000)) multipliers-IsOrder
      alice-IsLabel (omega arith) (omega arith) (omega arith) first_code

parse_input-bitcoin_shorthand_example :
    map
      (parse_input testnet multipliers)
      (drop 4 (generate_alternate_notations testnet (codes "alice") (pos 50) (pos 1) (codes "")))
    ≡ at_block (codes "alice") (pos (50 + (1000000 - 940000))) (pos 1) ∷ []
parse_input-bitcoin_shorthand_example =
    parse_input-bitcoin_shorthand testnet multipliers (codes "alice") (codes "") 50 940000
      testnet_start multipliers-IsOrder alice-IsLabel (omega arith) (omega arith)

-- A value below two maps.
abbrev profile : Props
profile = prop (codes "profile") (obj (prop (codes "name") (str (codes "Alice")) end)) end

deep :
    resolve_metadata_path (some profile) (codes "profile" ∷ codes "name" ∷ codes "more" ∷ [])
    ≡ some (str (codes "Alice"))
unfolding resolve_metadata_path
deep = refl
