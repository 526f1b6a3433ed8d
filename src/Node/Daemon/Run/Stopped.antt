-- ===== src/Node/Daemon/Run/Stopped.antt =====
-- The daemon ends, and leaves no sidecar running.
use spider_net.Prelude.Text.{Text}
use spider_net.Node.Json.{Json}
