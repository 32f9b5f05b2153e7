-- ===== src/Config.antt =====
-- internal/config/config.go: the settings of a node, read from a file or made anew, and checked.
-- Files, keys and the JSON decoding are the fields of `Env`; log lines are left out.
pub mod Checked
mod Tests
use dnn_node.Base.{
  ℕ, Bool, true, false, not, ◌||◌, List, [], ◌∷◌, Option, none, some, Result, ok, err, panic, ◌>>=◌,
  ◌>>◌, fail_if, or_err, ltb, ◌==◌, if◌then◌else◌, any,
}
use dnn_node.Base.Bytes.{Bytes, codes, bytes_eq}
use dnn_node.Base.Int.{ℤ, pos, negsuc, ltb_ℤ}

pub record BitcoinRpc : Type 0 where
  pub use_p2p : Bool
  pub p2p_peers : List Bytes

pub record Dns : Type 0 where
  pub enabled : Bool
  pub port : ℤ
  pub upstream_dns : List Bytes
  pub cache_ttl : ℤ
  pub query_timeout : ℤ

pub record Config : Type 0 where
  pub node_private_key : Bytes
  pub node_pubkey : Bytes
  pub node_npub : Bytes
  pub network : Bytes
  pub port : ℤ
  pub data_dir : Bytes
  pub relay_urls : List Bytes
  pub peer_nodes : List Bytes
  pub bitcoin_rpc : BitcoinRpc
  pub sync_interval : ℤ
  pub block_batch_size : ℤ
  pub max_connections : ℤ
  pub dns : Dns
  pub enable_awareness : Bool
  pub admin_npub : Bytes
  pub announce_addresses : List Bytes

unfoldable pub default_config : ℤ → Bytes → Config
default_config port data_dir = record {
  node_private_key = codes "";
  node_pubkey = codes "";
  node_npub = codes "";
  network = codes "testnet";
  port = port;
  data_dir = data_dir;
  relay_urls =
      codes "wss://relay.damus.io"
      ∷ codes "wss://relay.nostr.band"
      ∷ codes "wss://nos.lol"
      ∷ codes "wss://relay.primal.net"
      ∷ [];
  peer_nodes = [];
  bitcoin_rpc = record { use_p2p = true; p2p_peers = [] };
  sync_interval = pos 60;
  block_batch_size = pos 5;
  max_connections = pos 1000;
  dns = record {
    enabled = true;
    port = pos 53;
    upstream_dns = codes "8.8.8.8:53" ∷ codes "1.1.1.1:53" ∷ [];
    cache_ttl = pos 300;
    query_timeout = pos 5;
  };
  enable_awareness = true;
  admin_npub = codes "";
  announce_addresses = [];
}

-- What lies outside: a `false` or `none` is an error of the call. `unmarshal` fills in a config.
pub record Env : Type 0 where
  pub mkdir_all : Bytes → Bool
  pub file_exists : Bytes → Bool
  pub generate_private_key : Bytes
  pub get_public_key : Bytes → Option Bytes
  pub encode_public_key : Bytes → Option Bytes
  pub read_file : Bytes → Option Bytes
  pub unmarshal : Bytes → Config → Option Config
  pub marshal_indent : Config → Option Bytes
  pub dir : Bytes → Bytes
  pub write_file : Bytes → Bytes → Bool

pub data LoadError : Type 0 where
  no_data_directory no_public_key no_npub not_read not_parsed : LoadError
  not_marshaled no_config_directory not_written : LoadError

unfoldable pub save : Env → Bytes → Config → Result LoadError (Unit {0})
save env path c = do
  data_bytes ← or_err (env.marshal_indent c) not_marshaled
  fail_if (not (env.mkdir_all (env.dir path))) no_config_directory
  fail_if (not (env.write_file path data_bytes)) not_written

-- A new key pair for the defaults, and the file written.
unfoldable pub create_config : Env → Bytes → Config → Result LoadError Config
unfolding save
create_config env path cfg = do
  pubkey ← or_err (env.get_public_key env.generate_private_key) no_public_key
  npub ← or_err (env.encode_public_key pubkey) no_npub
  let created = record cfg {
    node_private_key = env.generate_private_key;
    node_pubkey = pubkey;
    node_npub = npub;
  }
  save env path created
  ok created

abbrev pub is_default_port : ℤ → Bool
is_default_port (pos n) = n == 8080
is_default_port (negsuc n) = false

-- The flags win over the file, unless they are the defaults of the command line.
unfoldable pub override : ℤ → Bytes → Config → Config
override port data_dir cfg =
    let with_port = if is_default_port port then cfg else record cfg { port = port } in
    if bytes_eq data_dir (codes "./data")
    then with_port
    else record with_port { data_dir = data_dir }

unfoldable pub read_config : Env → Bytes → ℤ → Bytes → Config → Result LoadError Config
unfolding override
read_config env path port data_dir cfg = do
  text ← or_err (env.read_file path) not_read
  read ← or_err (env.unmarshal text cfg) not_parsed
  ok (override port data_dir read)

unfoldable pub load_from : Env → Bytes → ℤ → Bytes → Bool → Result LoadError Config
unfolding default_config create_config read_config
load_from env path port data_dir true = create_config env path (default_config port data_dir)
load_from env path port data_dir false =
    read_config env path port data_dir (default_config port data_dir)

unfoldable pub load : Env → Bytes → ℤ → Bytes → Bool → Result LoadError Config
unfolding load_from
load env path port data_dir init_mode = do
  fail_if (not (env.mkdir_all data_dir)) no_data_directory
  load_from env path port data_dir (init_mode || not (env.file_exists path))

abbrev pub networks : List Bytes
networks = codes "mainnet" ∷ codes "testnet" ∷ codes "dev" ∷ []

abbrev pub is_port : ℤ → Bool
is_port port = not (ltb_ℤ port (pos 1) || ltb_ℤ (pos 65535) port)

unfoldable pub fix_network : Config → Config
fix_network c =
    if any (bytes_eq c.network) networks then c else record c { network = codes "testnet" }

unfoldable pub fix_port : Config → Config
fix_port c = if is_port c.port then c else record c { port = pos 8080 }

-- `Validate`, which only logs about the relays and the DNS server.
unfoldable pub validate : Config → Config
unfolding fix_network fix_port
validate c = fix_port (fix_network c)
