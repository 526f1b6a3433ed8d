-- ===== src/Node/Tests/Config.antt =====
-- The properties of the daemon's config at concrete files.
use spider_net.Prelude.{
  ℕ, ◌*◌, saturating_mul64, ◌≡◌, ◌⊎◌, refl, true, false, [], ◌∷◌, Option, none, some, ok,
}
use spider_net.Prelude.Text.{
  Text, codes, text_eq, is_whitespace, trim_start, cons_trimmed, trim_end, trim, strip_prefix,
  starts_with, rsplit_once, is_digit, parse_digits, parse_uint,
}
use spider_net.Exit.Config.{contains, collect_set, new_allowlist, parse_source}
use spider_net.Exit.Address.{IpAddr, v4, v6, SocketAddr}
use spider_net.Exit.Ledger.{second, try_new_quota}
use spider_net.Node.Endpoint.{tcp, tcp_endpoint, parse_trimmed, parse_endpoint}
use spider_net.Node.Settings.{
  auto, str_len, utf8_len, find_scheme, validate_scheme, parse_peer, parse_ifname,
}
use spider_net.Node.DaemonConfig.{
  overlay, ExitServiceSettings, ValidatedDaemonConfig, unwrap_or, is_none, map_err, parse_all,
  parse_each, mib, is_empty, dev_mode, validate_quota, explicit_bind, bind_of, allowlist_of,
  admitted, validated, validate_exit, validate,
}
use spider_net.Node.DaemonConfig.Raw.{RawExitSection, RawDaemonConfig}
use spider_net.Node.DaemonConfig.Quota.{QuotaOf}
use spider_net.Node.DaemonConfig.Exit.{Admits, validate_exit-Admits}
use spider_net.Node.DaemonConfig.Valid.{IsValid, validate-IsValid}
use spider_net.Node.Tests.{known}

abbrev to_addr : Text → Option SocketAddr
to_addr = known (record { ip = v4 127 0 0 1; port = 8080 }) (codes "127.0.0.1:8080")

abbrev to_ip : Text → Option IpAddr
to_ip = known (v6 512 0 0 0 0 0 0 7) (codes "200::7")

abbrev pub wide : ℕ → Text
wide c = []

abbrev shared : RawExitSection
shared = record {
  enabled = some true;
  bind = none;
  port = some 9000;
  allow = some (codes "200::7" ∷ []);
  quota_mib = some 2;
  window_hours = none;
}

abbrev service : ExitServiceSettings
service = record {
  bind = overlay 9000;
  allowlist = record { allowed = v6 512 0 0 0 0 0 0 7 ∷ []; allow_loopback = false };
  quota = some (record { max_bytes = 2 * mib; window = 24 * 3600 * second });
}

shared_valid : validate_exit to_addr to_ip shared ≡ ok (some service)
unfolding validate_exit explicit_bind parse_each parse_all unwrap_or map_err parse_source text_eq
    admitted is_empty validate_quota try_new_quota saturating_mul64 bind_of allowlist_of
    new_allowlist collect_set contains
shared_valid = refl

validate_exit-Admits_example :
    ((unwrap_or false shared.enabled ≡ false)
      × (◌≡◌ {A = Option ExitServiceSettings} (some service) none))
    ⊎ ((s : ExitServiceSettings) × (◌≡◌ {A = Option ExitServiceSettings} (some service) (some s))
        × (unwrap_or false shared.enabled ≡ true)
        × Admits to_addr to_ip shared s
        × QuotaOf shared.quota_mib shared.window_hours s.quota)
validate_exit-Admits_example = validate_exit-Admits to_addr to_ip shared (some service) shared_valid

abbrev file : RawDaemonConfig
file = record {
  node = record { admin_endpoint = none; state_dir = none };
  yggdrasil = record {
    manage = none;
    binary = none;
    peers = some (codes " tls://a:1" ∷ []);
    listen = none;
    allow_keys = none;
    no_multicast = some true;
    ifname = none;
  };
  exit = record {
    enabled = none;
    bind = none;
    port = none;
    allow = none;
    quota_mib = none;
    window_hours = none;
  };
}

abbrev pub config : ValidatedDaemonConfig
config = record {
  admin_endpoint = tcp (codes "localhost") 9001;
  state_dir = codes "spidernet-state";
  manage = true;
  yggdrasil_binary = codes "yggdrasil";
  peers = codes "tls://a:1" ∷ [];
  listen = [];
  allowed_keys = [];
  no_multicast = true;
  if_name = auto;
  exit = none;
}

file_valid : validate to_addr to_ip wide file ≡ ok config
unfolding validate validate_exit explicit_bind parse_each parse_all unwrap_or map_err text_eq
    admitted is_empty validate_quota try_new_quota saturating_mul64 validated is_none dev_mode
    parse_endpoint parse_trimmed tcp_endpoint parse_peer validate_scheme find_scheme starts_with
    str_len utf8_len parse_ifname trim trim_start trim_end cons_trimmed is_whitespace strip_prefix
    rsplit_once parse_uint parse_digits is_digit
file_valid = refl

validate-IsValid_example : IsValid wide config
validate-IsValid_example = validate-IsValid to_addr to_ip wide file config (λ c. tt) file_valid
