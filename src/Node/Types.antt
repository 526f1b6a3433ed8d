-- ===== src/Node/Types.antt =====
-- `NodeError` of server/crates/sn-node/src/error.rs, over the errors `I` of the operating system and `J`
-- of the JSON library, and the newtypes over text of config.rs. A message that the code builds from
-- another error carries that error; the error of the exit service, an `ExitError`, is left out.
use spider_net.Prelude.{ℕ}
use spider_net.Prelude.Text.{Text}
use spider_net.Exit.Address.{SocketAddr}
use spider_net.Exit.Ledger.{QuotaFault}

-- The hints of `NodeError::InvalidUri`.
pub data UriHint : Type 0 where
  binds_address peer_schemes listen_schemes : UriHint

-- What an admin response lacks.
pub data AdminGap : Type 0 where
  no_status no_data not_object no_record no_key : AdminGap
  bad_address : Text → AdminGap

-- What a daemon config is refused for, with the text that was refused.
pub data ConfigFault : Type 0 where
  admin_endpoint : Text → ConfigFault
  peers listen : Text → UriHint → ConfigFault
  allow_keys ifname bind allow : Text → ConfigFault
  quota : QuotaFault → ConfigFault
  cannot_read cannot_parse no_allowlist nothing_to_do : ConfigFault
  bad_key_file no_private_key bad_generated_key : ConfigFault

pub data NodeError (I J : Type 0) : Type 0 where
  io : I → NodeError I J
  json : J → NodeError I J
  yggdrasil_binary : Text → NodeError I J
  invalid_uri : Text → UriHint → NodeError I J
  invalid_admin_endpoint : Text → NodeError I J
  invalid_public_key : Text → NodeError I J
  unexpected_config_shape : NodeError I J
  admin_protocol : AdminGap → NodeError I J
  admin_failed : Text → NodeError I J
  timeout : NodeError I J
  daemon_config : ConfigFault → NodeError I J
  overlay_not_up : Text → ℕ → NodeError I J
  sidecar_exited : Text → NodeError I J
  exit_listen : SocketAddr → I → NodeError I J
  exit : NodeError I J
  invalid_if_name : Text → NodeError I J
