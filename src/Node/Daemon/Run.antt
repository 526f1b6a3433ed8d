-- ===== src/Node/Daemon/Run.antt =====
-- `run_daemon` of server/crates/sn-node/src/daemon.rs, from the start of the sidecar to its end. The exit
-- service itself (Exit) is given by whether it ends well.
pub mod Endings
pub mod Ready
pub mod Stopped
use spider_net.Prelude.{ℕ, Bool, List, Option, none, some, if◌then◌else◌, Result, ok, err}
use mathlib.Core.Option
use spider_net.Prelude.Text.{Text}
use spider_net.Exit.Address.{IpAddr, SocketAddr}
use spider_net.Node.Types
use spider_net.Node.Types.{NodeError, exit_listen, sidecar_exited}
use spider_net.Node.Json.{Json}
use spider_net.Node.DaemonConfig.{
  ExitServiceSettings, ValidatedDaemonConfig, resolve, node_settings,
}
use spider_net.Node.Daemon.{Sidecar, Wait, Ending, terminate_sidecar, kill_child}
use spider_net.Node.Daemon.Overlay.{
  Round, OverlayOutcome, up, stopped, failed, RoundEnd, settled, again, stuck, unfinished,
  child_exit, wait_for_overlay,
}
use spider_net.Node.Daemon.Spawn.{Boot, Files, spawn_sidecar}

-- What happens to the daemon: the start, the rounds of waiting, whether it can listen, whether the sidecar exits
-- before the service ends or the shutdown comes, whether the service ends and whether well, whether a shutdown
-- comes without the service, and the sidecar's end. `serve_until` ends well at a shutdown, badly at an error, and
-- without either it never ends: `served` is then `none`.
pub record Life (I : Type 0) : Type 0 where
  pub boot : Boot I
  pub rounds : ℕ → Round I
  pub listening : Option I
  pub sidecar : Option Wait
  pub served : Option Bool
  pub shutdown : Bool
  pub ending : Ending

-- How the daemon ends, with the sidecar that it leaves.
pub data Finish (I J : Type 0) : Type 0 where
  ended : Result (NodeError I J) Unit → Option Sidecar → Finish I J
  waits_forever : Finish I J
  no_end : Finish I J

-- `Some` around a value.
unfoldable pub map_ok : {E A : Type 0} → Result E A → Result E (Option A)
map_ok (err e) = err e
map_ok (ok a) = ok (some a)

unfoldable pub finish :
    {I J : Type 0} → Result (NodeError I J) Unit → Option (Option Sidecar) → Finish I J
finish result none = waits_forever
finish result (some child) = ended result child

-- `run_daemon` with the exit service, on the address that it binds.
unfoldable pub serve : {I J : Type 0} → Life I → SocketAddr → Option Sidecar → Finish I J
serve life bind child = elim life.listening [
  | some source ↦ finish (err (exit_listen bind source)) (kill_child life.ending child)
  | none ↦ elim (child_exit child life.sidecar) [
    | some (status, dead) ↦ finish (err (sidecar_exited status)) (kill_child life.ending dead)
    | none ↦ elim life.served [
      | some well ↦
          if well
          then finish (ok tt) (terminate_sidecar life.ending child)
          else finish (err Types.NodeError.exit) (kill_child life.ending child)
      | none ↦ waits_forever
    ]
  ]
]

-- `run_daemon` without it, until a shutdown or the sidecar's exit.
unfoldable pub leech : {I J : Type 0} → Life I → Option Sidecar → Finish I J
leech life child = elim (child_exit child life.sidecar) [
  | some (status, dead) ↦ ended (err (sidecar_exited status)) dead
  | none ↦
      if life.shutdown then finish (ok tt) (terminate_sidecar life.ending child) else waits_forever
]

unfoldable pub run_service :
    {I J : Type 0} → Life I → Option ExitServiceSettings → IpAddr → Option Sidecar → Finish I J
run_service life none address child = leech life child
run_service life (some exit) address child = serve life (resolve exit.bind address) child

unfoldable pub after_overlay :
    {I J : Type 0} → Life I → Option ExitServiceSettings → RoundEnd I J → Finish I J
after_overlay life exit (settled (up address) child) = run_service life exit address child
after_overlay life exit (settled stopped child) =
    finish (ok tt) (terminate_sidecar life.ending child)
after_overlay life exit (settled (failed e) child) = finish (err e) (kill_child life.ending child)
after_overlay life exit (again later) = no_end
after_overlay life exit stuck = waits_forever
after_overlay life exit unfinished = no_end

module _ {I J V O : Type 0} (library : Json V O) (from_slice : List ℕ → Result J V)
    (pretty : O → Result J (List ℕ)) where
  module _ (parse_ipv6 : Text → Option IpAddr) (lower_wide : ℕ → Text) (not_utf8 : I)
      (join : Text → Text → Text) where
    -- The start of the sidecar, if the daemon manages it.
    unfoldable pub begin_sidecar :
        Life I → ValidatedDaemonConfig → Files → Files × Result (NodeError I J) (Option Sidecar)
    begin_sidecar life config files =
        if config.manage
        then (let (left, result) =
              spawn_sidecar library from_slice pretty lower_wide not_utf8 life.boot
                (node_settings join config) files in
            (left, map_ok result))
        else (files, ok none)

    -- `run_daemon`, with the files that it leaves.
    unfoldable pub run_daemon : Life I → ValidatedDaemonConfig → Files → Files × Finish I J
    run_daemon life config files =
        let (left, begun) = begin_sidecar life config files in
        elim begun [
          | err e ↦ (left, ended (err e) none)
          | ok child ↦ (
            left,
            after_overlay life config.exit (
                wait_for_overlay library from_slice parse_ipv6 61 config.admin_endpoint life.rounds
                  0 0 child),
          )
        ]
