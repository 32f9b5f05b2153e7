-- ===== src/Lib.antt =====
-- The node of the Decentralized Naming Network (DNN), a Go program.
--
-- A DNN name is anchored by a Bitcoin self-transfer. The node follows the Bitcoin chain, picks the
-- self-transfers of each block, orders them and gives each a position (`internal/sync`); when the chain
-- changes it scans the changed blocks again (`internal/reorg`). A block and a position have a code of
-- two words (`internal/encoder`). Nostr events carry names, connections, metadata and anchors; the
-- relay accepts them after the checks of `internal/validation` and `internal/policy`.
--
-- Files and code:
-- `Base` has bytes, lists, results, 64-bit integers and decimal numbers. A text is the list of its
-- bytes. `Result` is what a Go function with an error returns, with a case for a run-time panic. `ℤ` is
-- Go's int64, with its wrap-around.
-- `Constants` is internal/constants/constants.go.
-- `Encoder` is internal/encoder/encoder.go, with the word list of bip39_wordlist.go in `Encoder/Words`
-- and the notations (`ParseNotation`, `expandShorthand`, `FormatDNNBlock`, ...) in `Encoder/Notation`.
-- `Nostr` has the event of the package go-nostr and decoded JSON, as far as the node reads them.
-- `Validation` is internal/validation/validator.go, `ValidateDNNEvent` and all it calls.
-- `Policy` is internal/policy/policy.go: `Policy/Content` has `checkForBinaryData`, `Policy/References`
-- has `ValidateTagReferences`, `Policy/Limits` has `EnforceRateLimits`.
-- `Chain` has the data types of internal/bitcoin/client.go.
-- `Merkle` is `calcMerkleRoot` and `validateBlockMerkleRoot` of internal/bitcoin/p2p_client.go,
-- `Peers` its statistics of the peers and `getSortedPeersByPerformance`, `Peers/Height`
-- `getBlockCountConsensus`.
-- `Sync` is the part of internal/sync/syncer.go from `findValidDNNTransactions` to `hexCharToInt`.
-- `Reorg` is internal/reorg/reorg.go. It takes the check's range from `Policy`. Its block numbers are
-- int64, also in the loops.
-- `Relay` is `handleEvent` and `handleAnchorEvent` of internal/relay/relay.go, and calls `Validation` and
-- `Policy` as the relay does; `Relay/Filters` is `eventMatchesFilter`.
-- `Sync/Blocks` is `syncBitcoin` and `SyncSpecificBlock` of internal/sync/syncer.go: the range of a run,
-- the loop over its blocks and how it ends, what is written for a block, and the sync state.
-- `Resolver` is internal/resolver/resolver.go: the cache (`Resolver/Cache`), the forms of an input
-- (`Resolver/Input`), `Resolve` (`Resolver/Lookup`), and the paths into metadata (`Resolver/Metadata`).
-- `Dns` is internal/dns/server.go from `handleDNSRequest` on, with the conversion of records in
-- `Dns/Records`. It reads codes with `Encoder`.
-- `Node` is `parseDNNName` of internal/node/node.go and the two functions it calls. It reads codes with
-- `Encoder`.
-- `Awareness` is the part of internal/database/queries.go on the marks of the operator and of peers, as
-- tables of rows with the keys of internal/database/migrations.go; `Awareness/Peers` is
-- `parseDNNAwarenessEvent` of internal/sync/syncer.go.
-- `Metrics` is internal/metrics/metrics.go, `Config` internal/config/config.go.
-- An operation keeps its name in small letters: `validate_name_event` is `ValidateNameEvent`.
--
-- Parameters. `Validation.Runtime` has the case mapping outside ASCII, JSON decoding and the
-- signature check. The order in which Go walks a map is a list that the callers choose. `sort.Slice`
-- is an argument; `Sync/Sorting` states its contract, and `Sync/Insertion` has a sort that keeps it.
-- The database and the chain are records of functions (`RateLimitChecker`, `Sources`, `Recovery`,
-- `Relay`, `BlockSources`, `ResolverDb`, `Server`); `RateLimitChecker` has one function for each of
-- the two counts of the versions of a d-tag, as their answers can differ. And what a recovery or a
-- run of the synchronisation writes is a list. Times are arguments, and so are the hash functions of
-- `Merkle` and what a peer answers in `Peers/Height`. Where Go takes the first key of a map, an
-- argument chooses it.
--
-- Loops and fuel. Loops over a list are recursion on it. `letters_loop` has as many rounds as the
-- number it divides by 26, which ends sooner. The loop of `Sync/Blocks` has the number of blocks as
-- rounds. The two loops of `Reorg` take the rounds as an argument, and `rounds_used` and
-- `scan_rounds_used` say that they were too few; 1010 are enough for the scan, the number of blocks
-- and one more for the recovery. The other loops count on the data: `merkle_loop` the number of
-- hashes, which each round halves, and `exchange_loop`, `sort_heights` and `peers_from` the number
-- of elements. No other function takes fuel.
--
-- Not modelled: the transport to Bitcoin nodes and relays, SQL apart from the statements on marks,
-- the relay's subscriptions, the rates of the metrics (floating-point numbers), the sockets of the
-- DNS server, `ResolveMultiple`, the HTTP handlers, the dashboard and the command lines. Log lines
-- are left out, except where the text of one can panic: these panics keep the writes made before
-- them.
pub mod Awareness
pub mod Base
pub mod Chain
pub mod Config
pub mod Constants
pub mod Dns
pub mod Encoder
pub mod Merkle
pub mod Metrics
pub mod Node
pub mod Nostr
pub mod Peers
pub mod Policy
pub mod Relay
pub mod Reorg
pub mod Resolver
pub mod Sync
pub mod Validation
