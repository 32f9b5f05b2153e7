-- ===== src/Config/Checked.antt =====
-- What `Validate` makes of the settings.
use dnn_node.Base.{
  one_of_iff, ℕ, ◌≡◌, refl, ◌↔◌, ◌≤◌, ◌⊎◌, inl, inr, Bool, true, false, not, ok, arith, any,
  if◌then◌else◌, Bool-cases, subst, Ensures, or_err, fail_if, bind-Ensures, ok-Ensures,
}
use dnn_node.Base.Bytes.{Bytes, codes, bytes_eq, bytes_eq_iff}
use dnn_node.Base.Int.{ℤ, pos, negsuc}
use dnn_node.Config.{
  Config, Env, not_read, not_parsed, no_public_key, no_npub, no_data_directory, is_default_port,
  load, load_from, override, default_config, create_config, read_config, save, networks, is_port,
  validate, fix_network, fix_port,
}

-- A network that is known and a port of TCP.
pub record IsValid (c : Config) : Type 0 where
  pub known_network :
      (c.network ≡ codes "mainnet") ⊎ (c.network ≡ codes "testnet") ⊎ (c.network ≡ codes "dev")
  pub usable_port : (n : ℕ) × (c.port ≡ pos n) × (1 ≤ n) × (n ≤ 65535)

is_network_iff :
    (s : Bytes)
    → (any (bytes_eq s) networks ≡ true)
      ↔ ((s ≡ codes "mainnet") ⊎ (s ≡ codes "testnet") ⊎ (s ≡ codes "dev"))
is_network_iff s =
    let one =
      one_of_iff (bytes_eq s (codes "mainnet")) (bytes_eq s (codes "testnet"))
        (bytes_eq s (codes "dev")) in
    let mainnet = bytes_eq_iff s (codes "mainnet") in
    let testnet = bytes_eq_iff s (codes "testnet") in
    let dev = bytes_eq_iff s (codes "dev") in
    (
      λ h. elim (one.0 h) [
        | inl e ↦ inl (mainnet.0 e)
        | inr (inl e) ↦ inr (inl (testnet.0 e))
        | inr (inr e) ↦ inr (inr (dev.0 e))
      ],
      λ k. one.1 (elim k [
        | inl e ↦ inl (mainnet.1 e)
        | inr (inl e) ↦ inr (inl (testnet.1 e))
        | inr (inr e) ↦ inr (inr (dev.1 e))
      ]),
    )

is_port_iff :
    (port : ℤ) → (is_port port ≡ true) ↔ ((n : ℕ) × (port ≡ pos n) × (1 ≤ n) × (n ≤ 65535))
is_port_iff (pos n) = (
  λ h. (n, refl, ground arith, ground arith),
  λ (m, e, lo, hi). let same : n ≡ m = cc in ground arith,
)
is_port_iff (negsuc n) = (λ h. absurd (ground arith), λ (m, e, lo, hi). absurd (cc))

fix_network-known : (c : Config) → any (bytes_eq (fix_network c).network) networks ≡ true
unfolding fix_network
fix_network-known c = elim (Bool-cases (any (bytes_eq c.network) networks)) [
  | inl known ↦ rw known known
  | inr other ↦ rw other refl
]

fix_port-usable :
    (c : Config) → (is_port (fix_port c).port ≡ true) × ((fix_port c).network ≡ c.network)
unfolding fix_port
fix_port-usable c = elim (Bool-cases (is_port c.port)) [
  | inl usable ↦ rw usable (usable, refl)
  | inr other ↦ rw other (refl, refl)
]

validate_repairs : (c : Config) → IsValid (validate c)
unfolding validate
validate_repairs c =
    let (usable, same) = fix_port-usable (fix_network c) in
    record {
      known_network =
          (is_network_iff (fix_port (fix_network c)).network).0 (rw same (fix_network-known c));
      usable_port = (is_port_iff (fix_port (fix_network c)).port).0 usable;
    }

validate_same : (c : Config) → IsValid c → validate c ≡ c
unfolding validate fix_network fix_port
validate_same c h =
    rw ((is_network_iff c.network).1 h.known_network, (is_port_iff c.port).1 h.usable_port) refl

-- Validate makes every configuration valid, with the network mainnet, testnet or dev and a port
-- from 1 to 65535, and leaves exactly the valid ones as they are.
pub validate-IsValid : (c : Config) → IsValid (validate c) × ((validate c ≡ c) ↔ IsValid c)
validate-IsValid c =
    (validate_repairs c, (λ e. subst IsValid e (validate_repairs c), validate_same c))

-- The two fields that the flags set.
record HasFlags (port : ℤ) (data_dir : Bytes) (c : Config) : Type 0 where
  port_set : is_default_port port ≡ false → c.port ≡ port
  data_dir_set : bytes_eq data_dir (codes "./data") ≡ false → c.data_dir ≡ data_dir

set_port :
    (b : Bool) (port : ℤ) (data_dir : Bytes) (c : Config)
    → b ≡ is_default_port port
    → HasFlags port data_dir
        (record (if b then c else record c { port = port }) { data_dir = data_dir })
set_port true port data_dir c h = record { port_set = λ e. absurd (cc); data_dir_set = λ e. refl }
set_port false port data_dir c h = record { port_set = λ e. refl; data_dir_set = λ e. refl }

keep_dir :
    (b : Bool) (port : ℤ) (data_dir : Bytes) (c : Config)
    → b ≡ is_default_port port
    → bytes_eq data_dir (codes "./data") ≡ true
    → HasFlags port data_dir (if b then c else record c { port = port })
keep_dir true port data_dir c h k = record {
  port_set = λ e. absurd (cc);
  data_dir_set = λ e. absurd (cc);
}
keep_dir false port data_dir c h k = record {
  port_set = λ e. refl;
  data_dir_set = λ e. absurd (cc);
}

override-HasFlags :
    (port : ℤ) (data_dir : Bytes) (c : Config) → HasFlags port data_dir (override port data_dir c)
unfolding override
override-HasFlags port data_dir c = elim (Bool-cases (bytes_eq data_dir (codes "./data"))) [
  | inl same ↦ rw same (keep_dir (is_default_port port) port data_dir c refl same)
  | inr other ↦ rw other (set_port (is_default_port port) port data_dir c refl)
]

read_config-HasFlags :
    (env : Env) (path : Bytes) (port : ℤ) (data_dir : Bytes) (cfg : Config)
    → Ensures (HasFlags port data_dir) (read_config env path port data_dir cfg)
unfolding read_config
read_config-HasFlags env path port data_dir cfg =
    let flags = HasFlags port data_dir in
    bind-Ensures flags (or_err (env.read_file path) not_read) _ (λ text.
      bind-Ensures flags (or_err (env.unmarshal text cfg) not_parsed) _
        (λ read. override-HasFlags port data_dir read))

create_config-HasFlags :
    (env : Env) (path : Bytes) (port : ℤ) (data_dir : Bytes)
    → Ensures (HasFlags port data_dir) (create_config env path (default_config port data_dir))
unfolding create_config
create_config-HasFlags env path port data_dir =
    let flags = HasFlags port data_dir in
    bind-Ensures flags (or_err (env.get_public_key env.generate_private_key) no_public_key) _
      (λ pubkey. bind-Ensures flags (or_err (env.encode_public_key pubkey) no_npub) _ (λ npub.
        let created = record (default_config port data_dir) {
          node_private_key = env.generate_private_key;
          node_pubkey = pubkey;
          node_npub = npub;
        } in
        let set : flags created =
          unfold default_config in record { port_set = λ e. refl; data_dir_set = λ e. refl } in
        bind-Ensures flags (save env path created) _ (λ saved. set)))

load_from-HasFlags :
    (env : Env) (path : Bytes) (port : ℤ) (data_dir : Bytes) (anew : Bool)
    → Ensures (HasFlags port data_dir) (load_from env path port data_dir anew)
unfolding load_from
load_from-HasFlags env path port data_dir true = create_config-HasFlags env path port data_dir
load_from-HasFlags env path port data_dir false = read_config-HasFlags env path port data_dir _

load-HasFlags :
    (env : Env) (path : Bytes) (port : ℤ) (data_dir : Bytes) (init_mode : Bool)
    → Ensures (HasFlags port data_dir) (load env path port data_dir init_mode)
unfolding load
load-HasFlags env path port data_dir init_mode =
    bind-Ensures (HasFlags port data_dir) (fail_if (not (env.mkdir_all data_dir)) no_data_directory)
      _ (λ made. load_from-HasFlags env path port data_dir _)

-- The flags of the command line, which are not the defaults, are in the configuration that Load
-- returns, whether it was made anew or read from a file.
pub load-flags :
    (env : Env) (path : Bytes) (port : ℤ) (data_dir : Bytes) (init_mode : Bool) (c : Config)
    → load env path port data_dir init_mode ≡ ok c
    → (is_default_port port ≡ false → c.port ≡ port)
      × (bytes_eq data_dir (codes "./data") ≡ false → c.data_dir ≡ data_dir)
load-flags env path port data_dir init_mode c h =
    let flags =
      ok-Ensures (HasFlags port data_dir) _ c h (load-HasFlags env path port data_dir init_mode) in
    (flags.port_set, flags.data_dir_set)
