-- ===== src/Node/DaemonConfig.antt =====
-- server/crates/sn-node/src/daemon_config.rs: the raw sections of the TOML file and their validation. The
-- TOML library, the file system and the parsers of addresses of the standard library are parameters, as is
-- `lower_wide` (Node/Settings). A `Duration` is nanoseconds.
pub mod Raw
pub mod Each
pub mod Quota
pub mod Exit
pub mod Valid
use Prim.Native.String.{String}
use spider_net.Prelude.{
  ℕ, ◌+◌, ◌*◌, ◌^◌, ◌-◌, Bool, true, false, not, ◌&&◌, List, [], ◌∷◌, ◌++◌, Option, none, some,
  if◌then◌else◌, ◌==◌, ltb, Result, ok, err, ◌>>=◌, u64_mod, saturating_mul64,
}
use spider_net.Prelude.Text.{Text, codes, text_eq}
use spider_net.Exit.Address.{IpAddr, SocketAddr}
use spider_net.Exit.Config.{
  parse_bind, parse_source, SourceAllowlist, loopback_only, new_allowlist, is_loopback,
}
use spider_net.Exit.Ledger.{QuotaPolicy, try_new_quota, second}
use spider_net.Node.Types
use spider_net.Node.DaemonConfig.Raw.{RawExitSection, RawDaemonConfig}
use spider_net.Node.Types.{ConfigFault}
use spider_net.Node.Endpoint.{AdminEndpoint, parse_endpoint}
use spider_net.Node.Settings.{
  InvalidUri, invalid_uri, parse_peer, parse_listen, parse_key, IfName, parse_ifname, MulticastMode,
  platform_default, disabled, NodeSettings,
}

-- Where the exit service binds.
pub data ExitBind : Type 0 where
  explicit : SocketAddr → ExitBind
  overlay : ℕ → ExitBind

-- `ExitBind::resolve`.
unfoldable pub resolve : ExitBind → IpAddr → SocketAddr
resolve (explicit addr) address = addr
resolve (overlay port) address = record { ip = address; port = port }

pub record ExitServiceSettings : Type 0 where
  pub bind : ExitBind
  pub allowlist : SourceAllowlist
  pub quota : Option QuotaPolicy

pub record ValidatedDaemonConfig : Type 0 where
  pub admin_endpoint : AdminEndpoint
  pub state_dir : Text
  pub manage : Bool
  pub yggdrasil_binary : Text
  pub peers : List Text
  pub listen : List Text
  pub allowed_keys : List Text
  pub no_multicast : Bool
  pub if_name : IfName
  pub exit : Option ExitServiceSettings

-- `node_settings`; `join` puts a name behind a directory.
unfoldable pub node_settings : (Text → Text → Text) → ValidatedDaemonConfig → NodeSettings
node_settings join config = record {
  peers = config.peers;
  listen = config.listen;
  multicast = some (if config.no_multicast then disabled else platform_default);
  admin_listen = some config.admin_endpoint;
  if_name = some config.if_name;
  allowed_public_keys = config.allowed_keys;
  private_key_path = some (join config.state_dir (codes "node.key"));
}

-- `unwrap_or`.
unfoldable pub unwrap_or : {A : Type 0} → A → Option A → A
unwrap_or default none = default
unwrap_or default (some a) = a

unfoldable pub is_none : {A : Type 0} → Option A → Bool
is_none none = true
is_none (some a) = false

-- `map_err`.
unfoldable pub map_err : {A E F : Type 0} → (E → F) → Result E A → Result F A
map_err f (ok a) = ok a
map_err f (err e) = err (f e)

-- The loop of `parse_each`, which stops at the first entry that is refused.
unfoldable pub parse_all :
    {E T : Type 0}
    → (E → ConfigFault)
    → (Text → Result E T)
    → List Text
    → Result ConfigFault (List T)
parse_all fault parse [] = ok []
parse_all fault parse (input ∷ inputs) = do
  value ← map_err fault (parse input)
  values ← parse_all fault parse inputs
  ok (value ∷ values)

unfoldable pub parse_each :
    {E T : Type 0}
    → Option (List Text)
    → (E → ConfigFault)
    → (Text → Result E T)
    → Result ConfigFault (List T)
parse_each inputs fault parse = parse_all fault parse (unwrap_or [] inputs)

unfoldable pub peers_fault : InvalidUri → ConfigFault
peers_fault (invalid_uri input hint) = Types.ConfigFault.peers input hint

unfoldable pub listen_fault : InvalidUri → ConfigFault
listen_fault (invalid_uri input hint) = Types.ConfigFault.listen input hint

abbrev pub mib : ℕ
mib = 1024 * 1024

unfoldable pub is_empty : List IpAddr → Bool
is_empty [] = true
is_empty (ip ∷ ips) = false

-- Whether the bind address that was given is a loopback one.
unfoldable pub dev_mode : Option SocketAddr → Bool
dev_mode none = false
dev_mode (some addr) = is_loopback addr.ip

unfoldable pub validate_quota : Option ℕ → Option ℕ → Result ConfigFault (Option QuotaPolicy)
validate_quota quota_mib window_hours =
    if unwrap_or 1024 quota_mib == 0
    then ok none
    else map_err Types.ConfigFault.quota (
        try_new_quota (saturating_mul64 (unwrap_or 1024 quota_mib) mib)
          (saturating_mul64 (unwrap_or 24 window_hours) 3600 * second))
      >>= (λ quota. ok (some quota))

unfoldable pub explicit_bind :
    (Text → Option SocketAddr) → Option Text → Result ConfigFault (Option SocketAddr)
explicit_bind to_addr none = ok none
explicit_bind to_addr (some value) =
    if text_eq value []
    then ok none
    else map_err Types.ConfigFault.bind (parse_bind to_addr value) >>= (λ addr. ok (some addr))

unfoldable pub bind_of : Option SocketAddr → Option ℕ → ExitBind
bind_of (some addr) port = explicit addr
bind_of none port = overlay (unwrap_or 8080 port)

unfoldable pub allowlist_of : List IpAddr → SourceAllowlist
allowlist_of sources = if is_empty sources then loopback_only else new_allowlist sources

-- The end of `validate`.
unfoldable pub validated :
    RawDaemonConfig
    → AdminEndpoint
    → List Text
    → List Text
    → List Text
    → IfName
    → Option ExitServiceSettings
    → Result ConfigFault ValidatedDaemonConfig
validated raw admin peers listen allowed_keys if_name exit =
    if not (unwrap_or true raw.yggdrasil.manage) && is_none exit
    then err Types.ConfigFault.nothing_to_do
    else ok (record {
      admin_endpoint = admin;
      state_dir = unwrap_or (codes "spidernet-state") raw.node.state_dir;
      manage = unwrap_or true raw.yggdrasil.manage;
      yggdrasil_binary = unwrap_or (codes "yggdrasil") raw.yggdrasil.binary;
      peers = peers;
      listen = listen;
      allowed_keys = allowed_keys;
      no_multicast = unwrap_or false raw.yggdrasil.no_multicast;
      if_name = if_name;
      exit = exit;
    })

-- The end of `validate_exit`, from the test of the allowlist on.
unfoldable pub admitted :
    RawExitSection
    → Option SocketAddr
    → List IpAddr
    → Result ConfigFault (Option ExitServiceSettings)
admitted raw bind sources =
    if unwrap_or false raw.enabled && is_empty sources && not (dev_mode bind)
    then err Types.ConfigFault.no_allowlist
    else validate_quota raw.quota_mib raw.window_hours >>= (λ quota. ok (
        if unwrap_or false raw.enabled
        then some (record {
          bind = bind_of bind raw.port;
          allowlist = allowlist_of sources;
          quota = quota;
        })
        else none))

module _ (to_addr : Text → Option SocketAddr) (to_ip : Text → Option IpAddr) where
  unfoldable pub validate_exit : RawExitSection → Result ConfigFault (Option ExitServiceSettings)
  validate_exit raw = do
    bind ← explicit_bind to_addr raw.bind
    sources ← parse_each raw.allow Types.ConfigFault.allow (parse_source to_ip)
    admitted raw bind sources

  unfoldable pub validate : (ℕ → Text) → RawDaemonConfig → Result ConfigFault ValidatedDaemonConfig
  validate lower_wide raw = do
    admin ←
        map_err Types.ConfigFault.admin_endpoint
          (parse_endpoint (unwrap_or (codes "tcp://localhost:9001") raw.node.admin_endpoint))
    peers ← parse_each raw.yggdrasil.peers peers_fault parse_peer
    listen ← parse_each raw.yggdrasil.listen listen_fault parse_listen
    allowed_keys ←
        parse_each raw.yggdrasil.allow_keys Types.ConfigFault.allow_keys (parse_key lower_wide)
    if_name ←
        map_err Types.ConfigFault.ifname
          (parse_ifname (unwrap_or (codes "auto") raw.yggdrasil.ifname))
    exit ← validate_exit raw.exit
    validated raw admin peers listen allowed_keys if_name exit

  -- `parse` over the TOML library, and `load` over the file's text.
  unfoldable pub parse_config :
      (ℕ → Text) → (Text → Option RawDaemonConfig) → Text → Result ConfigFault ValidatedDaemonConfig
  parse_config lower_wide from_str input = elim (from_str input) [
    | none ↦ err Types.ConfigFault.cannot_parse
    | some raw ↦ validate lower_wide raw
  ]

  unfoldable pub load :
      (ℕ → Text)
      → (Text → Option RawDaemonConfig)
      → Option Text
      → Result ConfigFault ValidatedDaemonConfig
  load lower_wide from_str none = err Types.ConfigFault.cannot_read
  load lower_wide from_str (some text) = parse_config lower_wide from_str text
