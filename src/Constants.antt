-- ===== src/Constants.antt =====
-- internal/constants/constants.go
use dnn_node.Base.{ℕ, ◌*◌, List, [], ◌∷◌, if◌then◌else◌}
use dnn_node.Base.Bytes.{Bytes, codes, bytes_eq}

abbrev pub network_mainnet : Bytes
network_mainnet = codes "mainnet"

abbrev pub network_testnet : Bytes
network_testnet = codes "testnet"

abbrev pub network_dev : Bytes
network_dev = codes "dev"

abbrev pub genesis_block_mainnet : ℕ
genesis_block_mainnet = 940000

abbrev pub genesis_block_testnet : ℕ
genesis_block_testnet = 940000

abbrev pub genesis_block_dev : ℕ
genesis_block_dev = 940000

abbrev pub min_fee_rate_mainnet : ℕ
min_fee_rate_mainnet = 1

abbrev pub min_fee_rate_testnet : ℕ
min_fee_rate_testnet = 1

abbrev pub min_fee_rate_dev : ℕ
min_fee_rate_dev = 1

-- Limits on the size of an event, in bytes.
abbrev pub max_size_kind_60600 : ℕ
max_size_kind_60600 = 10 * 1024

abbrev pub max_size_kind_61600 : ℕ
max_size_kind_61600 = 10 * 1024

abbrev pub max_size_kind_62600 : ℕ
max_size_kind_62600 = 10 * 1024

abbrev pub max_size_kind_63600 : ℕ
max_size_kind_63600 = 50 * 1024

abbrev pub reorg_check_interval : ℕ
reorg_check_interval = 144

abbrev pub reorg_lookback : ℕ
reorg_lookback = 1008

abbrev pub max_versions_per_d_tag : ℕ
max_versions_per_d_tag = 10

abbrev pub max_d_tags_per_kind : ℕ
max_d_tags_per_kind = 5

abbrev pub default_blocks_per_batch : ℕ
default_blocks_per_batch = 5

abbrev pub default_tx_max : ℕ
default_tx_max = 1000000

abbrev pub reserved_prefixes : List (Bytes × Bytes)
reserved_prefixes = (codes "n", codes "DNN") ∷ (codes "b", codes "Bitcoin") ∷ []

abbrev pub reserved_addresses : List (Bytes × Bytes)
reserved_addresses =
    (codes "n0.0", codes "DNN Node Registry")
    ∷ (codes "b1m.0", codes "Bitcoin Node Registry")
    ∷ (codes "b1000000.0", codes "Bitcoin Node Registry")
    ∷ []

-- The arms of the source's `switch` on the network, and its default.
abbrev by_network : ℕ → ℕ → ℕ → Bytes → ℕ
by_network mainnet testnet dev network =
    if bytes_eq network network_mainnet
    then mainnet
    else if bytes_eq network network_testnet
    then testnet
    else if bytes_eq network network_dev
    then dev
    else testnet

unfoldable pub get_genesis_block : Bytes → ℕ
get_genesis_block = by_network genesis_block_mainnet genesis_block_testnet genesis_block_dev

unfoldable pub get_min_fee_rate : Bytes → ℕ
get_min_fee_rate = by_network min_fee_rate_mainnet min_fee_rate_testnet min_fee_rate_dev
