-- ===== src/Config.antt =====
-- internal/config/config.go: the configuration, its normal form, the admin proof in it, and the
-- node's key.
pub mod Normal
pub mod Idempotent
pub mod Keys
pub mod Changes
use p2pos.Env.{Env}
use p2pos.Time.{Time}
use p2pos.Text.{trim_space, to_lower, is_blank, same, codes, Text}
use p2pos.Common.{
  first, [], ◌>>=◌, ◌>>◌, ◌>>=◌, ◌==◌, ◌||◌, ◌&&◌, ◌∷◌, if◌then◌else◌, Result, Bool, Option, List,
  ℕ, not, ltb, or_err, require, is_empty, err, ok, false, some, none,
}
use p2pos.Base64
use p2pos.Membership

-- An `int`: n, or -(n + 1).
pub data ℤ : Type 0 where
  pos : ℕ → ℤ
  negsuc : ℕ → ℤ

pub record AutoTlsConfig : Type 0 where
  pub mode : Text
  pub enabled : Bool
  pub user_email : Text
  pub port : ℤ
  pub cache_dir : Text
  pub forge_auth : Text

pub record RawProof : Type 0 where
  pub cluster_id : Text
  pub peer_id : Text
  pub role : Text
  pub valid_from : Text
  pub valid_to : Text
  pub sig : Text

pub record Connection : Type 0 where
  pub kind : Text
  pub address : Text

pub record Config : Type 0 where
  pub init_connections : List Connection
  pub listen : List Text
  pub network_mode : Text
  pub auto_tls : AutoTlsConfig
  pub update_channel : Text
  pub update_feed_url : Text
  pub node_private_key : Text
  pub cluster_id : Text
  pub system_pub_key : Text
  pub admin_proof : RawProof

abbrev pub default_listen : List Text
default_listen = codes "0.0.0.0:4100" ∷ codes "[::]:4100" ∷ []

abbrev pub default_update_feed_url : Text
default_update_feed_url = codes "https://api.github.com/repos/ZhongWwwHhh/p2pos/releases/latest"

abbrev pub default_auto_tls_port : ℤ
default_auto_tls_port = pos 4101

abbrev pub default_auto_tls_cache_dir : Text
default_auto_tls_cache_dir = codes ".autotls-cache"

abbrev no_raw_proof : RawProof
no_raw_proof = record {
  cluster_id = [];
  peer_id = [];
  role = [];
  valid_from = [];
  valid_to = [];
  sig = [];
}

abbrev pub default_config : Config
default_config = record {
  init_connections = [];
  listen = default_listen;
  network_mode = codes "auto";
  auto_tls = record {
    mode = codes "auto";
    enabled = false;
    user_email = [];
    port = default_auto_tls_port;
    cache_dir = default_auto_tls_cache_dir;
    forge_auth = [];
  };
  update_channel = codes "stable";
  update_feed_url = default_update_feed_url;
  node_private_key = [];
  cluster_id = codes "default";
  system_pub_key = [];
  admin_proof = no_raw_proof;
}

-- ListenConfig.Values
abbrev pub listen_values : List Text → List Text
listen_values l = if is_empty l then default_listen else l

-- The parts of normalize, in the source's order.
unfoldable pub normal_network_mode : Text → Text
normal_network_mode raw =
    let mode = to_lower (trim_space raw) in
    if same mode (codes "public") || same mode (codes "private") then mode else codes "auto"

unfoldable pub normal_channel : Text → Text
normal_channel raw =
    if same (to_lower (trim_space raw)) (codes "develop") then codes "develop" else codes "stable"

unfoldable pub or_default : Text → Text → Text
or_default t default = if is_blank t then default else t

unfoldable pub normal_auto_tls_mode : Text → Bool → Text
normal_auto_tls_mode raw enabled =
    let mode = to_lower (trim_space raw) in
    if same mode (codes "on") || same mode (codes "off") || same mode (codes "auto")
    then mode
    else if is_blank mode && enabled
    then codes "on"
    else codes "auto"

unfoldable pub normal_port : ℤ → ℤ
normal_port (pos p) = if p == 0 || ltb 65535 p then default_auto_tls_port else pos p
normal_port (negsuc p) = default_auto_tls_port

unfoldable pub normalize : Config → Config
normalize c = record c {
  listen = listen_values c.listen;
  network_mode = normal_network_mode c.network_mode;
  update_feed_url =
      if is_blank (trim_space c.update_feed_url)
      then default_update_feed_url
      else c.update_feed_url;
  update_channel = normal_channel c.update_channel;
  node_private_key = trim_space c.node_private_key;
  system_pub_key = trim_space c.system_pub_key;
  cluster_id = or_default (trim_space c.cluster_id) (codes "default");
  auto_tls = record c.auto_tls {
    user_email = trim_space c.auto_tls.user_email;
    cache_dir = or_default (trim_space c.auto_tls.cache_dir) default_auto_tls_cache_dir;
    forge_auth = trim_space c.auto_tls.forge_auth;
    mode = normal_auto_tls_mode c.auto_tls.mode c.auto_tls.enabled;
    port = normal_port c.auto_tls.port;
  };
}

-- copyConfig; a field that it does not set is the zero value.
unfoldable pub copy_config : Config → Config
copy_config c = record {
  init_connections = c.init_connections;
  listen = c.listen;
  network_mode = c.network_mode;
  auto_tls = c.auto_tls;
  update_channel = [];
  update_feed_url = c.update_feed_url;
  node_private_key = c.node_private_key;
  cluster_id = c.cluster_id;
  system_pub_key = c.system_pub_key;
  admin_proof = c.admin_proof;
}

pub data ConfigError : Type 0 where
  load_failed save_failed generate_failed marshal_failed : ConfigError
  valid_from_invalid valid_to_invalid proof_incomplete : ConfigError

-- What os.ReadFile and json.Unmarshal make of the file: there is none, it cannot be read as a
-- configuration, or it holds one.
pub data File : Type 0 where
  missing unreadable : File
  stored : Config → File

-- json.MarshalIndent and os.WriteFile under saveToFile: whether a configuration is written, and what
-- a file is when it is not. os.WriteFile empties the file before it writes, so `left` need not be the
-- file that was.
pub record Saving : Type 0 where
  pub saves : Config → Bool
  pub left : Config → File → File

module _ (env : Env) where
  open env use {PrivKey, unmarshal_private, marshal_private, parse_nano, parse_rfc}

  pub record Store : Type 0 where
    pub config : Config
    pub node_key : Option PrivKey

  unfoldable pub new_store : Store
  new_store = record { config = default_config; node_key = none }

  -- Store.Get
  unfoldable pub get : Store → Config
  get s = copy_config s.config

  unfoldable pub parse_time : Text → Option Time
  parse_time raw =
      let value = trim_space raw in
      if is_blank value then none else first (parse_nano value) (parse_rfc value)

  abbrev is_unset : Text → Bool
  is_unset t = is_blank (trim_space t)

  unfoldable pub parse_admin_proof :
      RawProof → Text → Result ConfigError (Option Membership.AdminProof)
  parse_admin_proof raw cluster =
      if is_unset raw.peer_id
        && is_unset raw.sig
        && is_unset raw.valid_from
        && is_unset raw.valid_to
        && is_unset raw.cluster_id
        && is_unset raw.role
      then ok none
      else do
        valid_from ← or_err (parse_time raw.valid_from) valid_from_invalid
        valid_to ← or_err (parse_time raw.valid_to) valid_to_invalid
        require (not (is_blank raw.peer_id || is_blank raw.sig)) proof_incomplete
        ok (
            some (record {
              cluster_id = if is_unset raw.cluster_id then cluster else raw.cluster_id;
              peer_id = raw.peer_id;
              role = if is_unset raw.role then codes "admin" else raw.role;
              valid_from = valid_from;
              valid_to = valid_to;
              sig = raw.sig;
            }))

  -- Store.AdminProof
  unfoldable pub admin_proof_of : Store → Result ConfigError (Option Membership.AdminProof)
  admin_proof_of s = parse_admin_proof s.config.admin_proof s.config.cluster_id

  -- The disk, and the key that crypto.GenerateEd25519Key returns.
  module _ (disk : Saving) (generated : Option PrivKey) where
    -- The closure generateAndPersistNodeKey.
    unfoldable pub generate_and_persist :
        Config → File → File × Result ConfigError (PrivKey × Config)
    generate_and_persist c f = elim generated [
      | none ↦ (f, err generate_failed)
      | some key ↦ elim (marshal_private key) [
        | none ↦ (f, err marshal_failed)
        | some bytes ↦
            let next = record c { node_private_key = Base64.encode bytes } in
            if disk.saves next
            then (stored next, ok (key, next))
            else (disk.left next f, err save_failed)
      ]
    ]

    -- The key that the configuration holds.
    unfoldable pub stored_key : Config → Option PrivKey
    stored_key c =
        if is_blank c.node_private_key then none else elim (Base64.decode c.node_private_key) [
          | none ↦ none
          | some bytes ↦ unmarshal_private bytes
        ]

    unfoldable pub load_or_create_private_key :
        Config → File → File × Result ConfigError (PrivKey × Config)
    load_or_create_private_key c f = elim (stored_key c) [
      | some key ↦ (f, ok (key, c))
      | none ↦ generate_and_persist c f
    ]

    -- The part of Init after the file is loaded or written.
    unfoldable pub init_from :
        Config → File → Store → (File × Store) × Result ConfigError (Unit {0})
    init_from loaded f s =
        let (file, result) = load_or_create_private_key (normalize loaded) f in
        elim result [
          | err e ↦ ((file, s), err e)
          | ok (key, c) ↦ ((file, record { config = c; node_key = some key }), ok tt)
        ]

    unfoldable pub init : File → Store → (File × Store) × Result ConfigError (Unit {0})
    init (stored c) s = init_from c (stored c) s
    init unreadable s = ((unreadable, s), err load_failed)
    init missing s =
        if disk.saves default_config
        then init_from default_config (stored default_config) s
        else ((disk.left default_config missing, s), err save_failed)

    -- Store.Update; the event that it publishes is told by `ok`.
    unfoldable pub update : Config → File → Store → (File × Store) × Result ConfigError (Unit {0})
    update next f s =
        if disk.saves (normalize next)
        then ((stored (normalize next), record s { config = normalize next }), ok tt)
        else ((disk.left (normalize next) f, s), err save_failed)
