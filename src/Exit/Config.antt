-- ===== src/Exit/Config.antt =====
-- `SourceAllowlist` and `ExitConfig` of server/crates/sn-exit/src/config.rs.
pub mod Members
use spider_net.Prelude.{
  ℕ, suc, ◌+◌, ◌*◌, ◌^◌, Bool, true, false, ◌&&◌, ◌||◌, List, [], ◌∷◌, Option, none, some, Result,
  ok, err, if◌then◌else◌, ◌==◌, length,
}
use spider_net.Prelude.Text.{Text}
use spider_net.Exit.Address.{IpAddr, v4, v6, SocketAddr, OriginPolicy, public_only}
use spider_net.Exit.Ledger.{QuotaPolicy}

unfoldable pub ip_eq : IpAddr → IpAddr → Bool
ip_eq (v4 a b c d) (v4 a' b' c' d') = a == a' && b == b' && c == c' && d == d'
ip_eq (v4 a b c d) (v6 s t u v w x y z) = false
ip_eq (v6 s t u v w x y z) (v4 a b c d) = false
ip_eq (v6 s t u v w x y z) (v6 s' t' u' v' w' x' y' z') =
    s == s' && t == t' && u == u' && v == v' && w == w' && x == x' && y == y' && z == z'

-- `IpAddr::is_loopback`.
unfoldable pub is_loopback : IpAddr → Bool
is_loopback (v4 a b c d) = a == 127
is_loopback (v6 s t u v w x y z) =
    s == 0 && t == 0 && u == 0 && v == 0 && w == 0 && x == 0 && y == 0 && z == 1

-- `HashSet::contains`, and `collect` into a set.
unfoldable pub contains : List IpAddr → IpAddr → Bool
contains [] ip = false
contains (x ∷ xs) ip = ip_eq x ip || contains xs ip

unfoldable pub collect_set : List IpAddr → List IpAddr
collect_set [] = []
collect_set (ip ∷ ips) = let rest = collect_set ips in if contains rest ip then rest else ip ∷ rest

pub record SourceAllowlist : Type 0 where
  pub allowed : List IpAddr
  pub allow_loopback : Bool

unfoldable pub loopback_only : SourceAllowlist
loopback_only = record { allowed = []; allow_loopback = true }

-- `SourceAllowlist::new`.
unfoldable pub new_allowlist : List IpAddr → SourceAllowlist
new_allowlist allowed = record { allowed = collect_set allowed; allow_loopback = false }

unfoldable pub is_allowed : SourceAllowlist → IpAddr → Bool
is_allowed list source = (is_loopback source && list.allow_loopback) || contains list.allowed source

-- `SourceAllowlist::len` and `is_loopback_only`.
unfoldable pub entries : SourceAllowlist → ℕ
entries list = length list.allowed

abbrev pub is_loopback_only : SourceAllowlist → Bool
is_loopback_only list = list.allow_loopback

pub record ExitConfig : Type 0 where
  pub bind : SocketAddr
  pub allowlist : SourceAllowlist
  pub quota : Option QuotaPolicy
  pub origin_policy : OriginPolicy

-- `ExitConfig::new`.
unfoldable pub new_config : SocketAddr → SourceAllowlist → Option QuotaPolicy → ExitConfig
new_config bind allowlist quota = record {
  bind = bind;
  allowlist = allowlist;
  quota = quota;
  origin_policy = public_only;
}

unfoldable pub with_origin_policy : ExitConfig → OriginPolicy → ExitConfig
with_origin_policy config policy = record config { origin_policy = policy }

-- `parse_bind` and `parse_source`, over the standard library's parsers; the errors have the input.
unfoldable pub parse_bind : (Text → Option SocketAddr) → Text → Result Text SocketAddr
parse_bind parse input = elim (parse input) [ none ↦ err input | some addr ↦ ok addr ]

unfoldable pub parse_source : (Text → Option IpAddr) → Text → Result Text IpAddr
parse_source parse input = elim (parse input) [ none ↦ err input | some ip ↦ ok ip ]
