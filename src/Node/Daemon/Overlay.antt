-- ===== src/Node/Daemon/Overlay.antt =====
-- `wait_for_overlay` of server/crates/sn-node/src/daemon.rs, round by round. A round has what its select meets
-- by the time that it ends, and the time lost around it. Times are nanoseconds since the waiting began.
pub mod Waiting
pub mod Stuck
use spider_net.Prelude.{
  ℕ, zero, suc, ◌+◌, ◌-◌, ◌*◌, min, Bool, List, Option, none, some, if◌then◌else◌, ◌==◌, Result, ok,
  err,
}
use spider_net.Prelude.Text.{Text}
use spider_net.Exit.Address.{IpAddr}
use spider_net.Exit.Ledger.{second}
use spider_net.Node.Types.{NodeError, overlay_not_up, sidecar_exited}
use spider_net.Node.Json.{Json}
use spider_net.Node.Endpoint.{AdminEndpoint, config_value}
use spider_net.Node.Admin.{SelfInfo}
use spider_net.Node.Admin.Client.{Attempt, get_self, get_peers}
use spider_net.Node.Daemon.{Sidecar, Wait, after, status_text}

pub record Round (I : Type 0) : Type 0 where
  -- Whether the shutdown is requested, and how the sidecar has exited, if it has.
  pub shutdown : Bool
  pub sidecar : Option Wait
  pub own : Attempt I
  pub peers : Attempt I
  pub pause : ℕ

pub data OverlayOutcome (I J : Type 0) : Type 0 where
  up : IpAddr → OverlayOutcome I J
  stopped : OverlayOutcome I J
  failed : NodeError I J → OverlayOutcome I J

-- What a round comes to: an outcome, another round at a later time, or nothing ever.
pub data RoundEnd (I J : Type 0) : Type 0 where
  settled : OverlayOutcome I J → Option Sidecar → RoundEnd I J
  again : ℕ → RoundEnd I J
  stuck : RoundEnd I J
  unfinished : RoundEnd I J

-- `OVERLAY_WAIT` and `OVERLAY_POLL`.
abbrev pub overlay_wait : ℕ
overlay_wait = 60 * second

abbrev pub overlay_poll : ℕ
overlay_poll = second

-- `child_exit`, which never ends without a sidecar.
unfoldable pub child_exit : Option Sidecar → Option Wait → Option (Text × Option Sidecar)
child_exit none answer = none
child_exit (some child) none = none
child_exit (some child) (some w) = some (status_text w, some (after w child))

module _ {I J V O : Type 0} (json : Json V O) (from_slice : List ℕ → Result J V)
    (parse_ipv6 : Text → Option IpAddr) where
  -- The end of a round whose query of the node's own status has ended.
  unfoldable pub answered :
      Option Sidecar → ℕ → Round I → ℕ × Result (NodeError I J) (SelfInfo IpAddr V) → RoundEnd I J
  answered child elapsed round (spent, err e) = again (elapsed + spent + overlay_poll + round.pause)
  answered child elapsed round (spent, ok info) =
      elim (get_peers json from_slice parse_ipv6 (min (overlay_wait - elapsed) overlay_poll)
        round.peers) [ none ↦ stuck | some peers ↦ settled (up info.address) child ]

  -- One round, the select being biased.
  unfoldable pub wait_round : AdminEndpoint → Option Sidecar → ℕ → Round I → RoundEnd I J
  wait_round admin child elapsed round =
      if (overlay_wait - elapsed) == 0
      then settled (failed (overlay_not_up (config_value admin) 60)) child
      else if round.shutdown
      then settled stopped child
      else elim (child_exit child round.sidecar) [
        | some (status, left) ↦ settled (failed (sidecar_exited status)) left
        | none ↦
            elim (get_self json from_slice parse_ipv6 (min (overlay_wait - elapsed) overlay_poll)
              round.own) [ none ↦ stuck | some answer ↦ answered child elapsed round answer ]
      ]

  -- The loop, from round `n` on.
  unfoldable pub wait_for_overlay :
      ℕ → AdminEndpoint → (ℕ → Round I) → ℕ → ℕ → Option Sidecar → RoundEnd I J
  wait_for_overlay zero admin rounds n elapsed child = unfinished
  wait_for_overlay (suc fuel) admin rounds n elapsed child =
      elim (wait_round admin child elapsed (rounds n)) [
        | settled outcome left ↦ settled outcome left
        | again later ↦ wait_for_overlay fuel admin rounds (suc n) later child
        | stuck ↦ stuck
        | unfinished ↦ unfinished
      ]
