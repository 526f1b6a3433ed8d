-- ===== src/Node/DaemonConfig/Raw.antt =====
-- The raw sections of the TOML file, server/crates/sn-node/src/daemon_config.rs.
use spider_net.Prelude.{ℕ, Bool, List, Option}
use spider_net.Prelude.Text.{Text}

pub record RawNodeSection : Type 0 where
  pub admin_endpoint : Option Text
  pub state_dir : Option Text

pub record RawYggdrasilSection : Type 0 where
  pub manage : Option Bool
  pub binary : Option Text
  pub peers : Option (List Text)
  pub listen : Option (List Text)
  pub allow_keys : Option (List Text)
  pub no_multicast : Option Bool
  pub ifname : Option Text

pub record RawExitSection : Type 0 where
  pub enabled : Option Bool
  pub bind : Option Text
  pub port : Option ℕ
  pub allow : Option (List Text)
  pub quota_mib : Option ℕ
  pub window_hours : Option ℕ

pub record RawDaemonConfig : Type 0 where
  pub node : RawNodeSection
  pub yggdrasil : RawYggdrasilSection
  pub exit : RawExitSection
