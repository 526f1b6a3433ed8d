-- ===== src/Node/Daemon.antt =====
-- The sidecar process of server/crates/sn-node/src/daemon.rs: waiting for it and stopping it. What the
-- operating system does is given: a wait that never ends is `none`, and a signal may fail to be sent.
pub mod Overlay
pub mod Spawn
pub mod Run
use Prim.Native.String.{String}
use spider_net.Prelude.{
  ℕ, Bool, true, false, List, [], ◌∷◌, ◌++◌, Option, none, some, if◌then◌else◌,
}
use mathlib.Core.Option
use spider_net.Prelude.Text.{Text, codes}

pub data Signal : Type 0 where
  term kill : Signal

-- A `Child`: whether a wait for it has succeeded, so that `id` gives nothing, and the signals sent to it.
pub record Sidecar : Type 0 where
  pub reaped : Bool
  pub signals : List Signal

unfoldable pub spawned : Sidecar
spawned = record { reaped = false; signals = [] }

-- How a wait for the process ends: with its status, or with an error.
pub data Wait : Type 0 where
  exited : Text → Wait
  wait_failed : Text → Wait

unfoldable pub after : Wait → Sidecar → Sidecar
after (exited status) child = record child { reaped = true }
after (wait_failed e) child = child

-- The text of `child_exit`.
unfoldable pub status_text : Wait → Text
status_text (exited status) = status
status_text (wait_failed e) = codes "wait failed: " ++ e

-- The signal, if it could be sent.
unfoldable pub sent : Bool → Signal → List Signal
sent could s = if could then s ∷ [] else []

unfoldable pub signal : Bool → Signal → Sidecar → Sidecar
signal could s child = record child { signals = child.signals ++ sent could s }

-- `Child::wait`, which ends at once on a process that was waited for.
unfoldable pub wait : Option Wait → Sidecar → Option Sidecar
wait answer child =
    if child.reaped then some child else elim answer [ none ↦ none | some w ↦ some (after w child) ]

-- What happens when the sidecar is stopped: whether `kill -TERM` succeeds, the wait within the grace period,
-- whether `start_kill` succeeds, and the wait behind it.
pub record Ending : Type 0 where
  pub term_sent : Bool
  pub graced : Option Wait
  pub kill_sent : Bool
  pub killed : Option Wait

-- `terminate_sidecar`, which goes on when a signal cannot be sent: that is only logged.
unfoldable pub terminate_sidecar : Ending → Option Sidecar → Option (Option Sidecar)
terminate_sidecar ending none = some none
terminate_sidecar ending (some child) =
    if child.reaped then some (some child) else elim ending.graced [
      | some w ↦ some (some (after w (signal ending.term_sent term child)))
      | none ↦
          Option.map some
            (wait ending.killed (signal ending.kill_sent kill (signal ending.term_sent term child)))
    ]

-- `kill_child`, which also goes on when the signal cannot be sent.
unfoldable pub kill_child : Ending → Option Sidecar → Option (Option Sidecar)
kill_child ending none = some none
kill_child ending (some child) =
    Option.map some
      (wait ending.killed (if child.reaped then child else signal ending.kill_sent kill child))
