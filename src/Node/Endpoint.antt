-- ===== src/Node/Endpoint.antt =====
-- `AdminEndpoint` of server/crates/sn-node/src/yggdrasil.rs.
pub mod Print
use spider_net.Prelude.{
  ℕ, List, [], ◌∷◌, ◌++◌, Option, none, some, if◌then◌else◌, Result, ok, err, u16_mod,
}
use Prim.Native.String.{String}
use spider_net.Prelude.Text.{Text, codes, text_eq, trim, strip_prefix, rsplit_once, parse_uint}
use spider_net.Prelude.Text.Decimal.{decimal}

pub data AdminEndpoint : Type 0 where
  tcp : Text → ℕ → AdminEndpoint
  unix : Text → AdminEndpoint

unfoldable pub default_local : AdminEndpoint
default_local = tcp (codes "localhost") 9001

-- Every error is `NodeError::InvalidAdminEndpoint` with the trimmed text.
unfoldable pub tcp_endpoint : Text → Text → Result Text AdminEndpoint
tcp_endpoint trimmed rest = elim (rsplit_once 58 rest) [
  | none ↦ err trimmed
  | some (host, port) ↦ elim (parse_uint u16_mod port) [
    | none ↦ err trimmed
    | some number ↦ if text_eq host [] then err trimmed else ok (tcp host number)
  ]
]

unfoldable pub unix_endpoint : Text → Text → Result Text AdminEndpoint
unix_endpoint trimmed rest = if text_eq rest [] then err trimmed else ok (unix rest)

unfoldable pub parse_trimmed : Text → Result Text AdminEndpoint
parse_trimmed trimmed = elim (strip_prefix (codes "tcp://") trimmed) [
  | some rest ↦ tcp_endpoint trimmed rest
  | none ↦ elim (strip_prefix (codes "unix://") trimmed) [
    | some rest ↦ unix_endpoint trimmed rest
    | none ↦ err trimmed
  ]
]

-- `AdminEndpoint::parse`.
unfoldable pub parse_endpoint : Text → Result Text AdminEndpoint
parse_endpoint input = parse_trimmed (trim input)

-- `AdminEndpoint::config_value`.
unfoldable pub config_value : AdminEndpoint → Text
config_value (tcp host port) = codes "tcp://" ++ host ++ codes ":" ++ decimal port
config_value (unix path) = codes "unix://" ++ path
