-- ===== src/Node/Daemon/Run/Ready.antt =====
-- The sidecar while the daemon waits for the overlay, in server/crates/sn-node/src/daemon.rs.
use spider_net.Prelude.{
  ℕ, zero, suc, ◌-◌, min, ◌≡◌, inl, inr, refl, List, Option, none, some, Option-cases, Bool-cases,
  ◌==◌, Result, ok, err,
}
use spider_net.Prelude.Text.{Text}
use spider_net.Exit.Address.{IpAddr}
use spider_net.Node.Types.{NodeError}
use spider_net.Node.Json.{Json}
use spider_net.Node.Endpoint.{AdminEndpoint}
use spider_net.Node.Daemon.{Sidecar}
use spider_net.Node.Admin.Client.{get_self, get_peers}
use spider_net.Node.Daemon.Overlay.{
  overlay_wait, overlay_poll, Round, up, stopped, failed, RoundEnd, settled, again, stuck,
  unfinished, child_exit, answered, wait_round, wait_for_overlay,
}
use spider_net.Node.Daemon.Run.Endings.{IsHealthy, IsFresh, IsQuiet, child_exit-reaped}

pub quiet : (child : Option Sidecar) → IsFresh child → IsQuiet child
quiet none fresh = tt
quiet (some child) fresh = fresh.1

-- The sidecar in the hands of the loop.
abbrev pub IsReady : {I J : Type 0} → Option Sidecar → RoundEnd I J → Type 0
IsReady child (settled (up address) left) = IsFresh left × (left ≡ child)
IsReady child (settled stopped left) = IsFresh left
IsReady child (settled (failed e) left) = IsQuiet left
IsReady child (again later) = Unit
IsReady child stuck = Unit
IsReady child unfinished = Unit

module _ {I J V O : Type 0} (library : Json V O) (from_slice : List ℕ → Result J V)
    (parse_ipv6 : Text → Option IpAddr) where
  answered-IsReady :
      (child : Option Sidecar) (elapsed spent : ℕ) (round : Round I) (r : Result (NodeError I J) _)
      → IsFresh child
      → IsReady child (answered library from_slice parse_ipv6 child elapsed round (spent, r))
  unfolding answered
  answered-IsReady child elapsed spent round (err e) fresh = tt
  answered-IsReady child elapsed spent round (ok info) fresh =
      elim (Option-cases (
        get_peers library from_slice parse_ipv6 (min (overlay_wait - elapsed) overlay_poll)
          round.peers)) [
            | inl never ↦ rw (never, answered) tt
            | inr (peers, e) ↦ rw (e, answered) (fresh, refl)
          ]

  wait_round-IsReady :
      (admin : AdminEndpoint) (child : Option Sidecar) (elapsed : ℕ) (round : Round I)
      → IsFresh child
      → IsHealthy round.sidecar
      → IsReady child (wait_round library from_slice parse_ipv6 admin child elapsed round)
  unfolding wait_round
  wait_round-IsReady admin child elapsed round fresh healthy =
      elim (Bool-cases ((overlay_wait - elapsed) == 0)) [
        | inl over ↦ rw over (quiet child fresh)
        | inr early ↦ elim (Bool-cases round.shutdown) [
          | inl stop ↦ rw (early, stop) fresh
          | inr running ↦ elim (Option-cases (child_exit child round.sidecar)) [
            | inr ((status, left), dead) ↦
                let (c, same, gone, unsent) =
                  child_exit-reaped child left round.sidecar status (quiet child fresh) healthy
                    dead in
                rw (early, running, dead, wait_round) (rw same unsent)
            | inl alive ↦
                elim (Option-cases (
                  get_self library from_slice parse_ipv6 (min (overlay_wait - elapsed) overlay_poll)
                    round.own)) [
                      | inl never ↦ rw (early, running, alive, never, wait_round) tt
                      | inr ((spent, r), e) ↦
                          rw (early, running, alive, e, wait_round)
                            (answered-IsReady child elapsed spent round r fresh)
                    ]
          ]
        ]
      ]

  pub wait_for_overlay-IsReady :
      (fuel n elapsed : ℕ) (admin : AdminEndpoint) (rounds : ℕ → Round I) (child : Option Sidecar)
      → IsFresh child
      → ((m : ℕ) → IsHealthy ((rounds m).sidecar))
      → IsReady child
          (wait_for_overlay library from_slice parse_ipv6 fuel admin rounds n elapsed child)
  unfolding wait_for_overlay
  wait_for_overlay-IsReady zero n elapsed admin rounds child fresh healthy = tt
  wait_for_overlay-IsReady (suc fuel) n elapsed admin rounds child fresh healthy =
      onward (wait_round library from_slice parse_ipv6 admin child elapsed (rounds n))
        (wait_round-IsReady admin child elapsed (rounds n) fresh (healthy n))
        (λ later. wait_for_overlay-IsReady fuel (suc n) later admin rounds child fresh healthy)
    where
      onward :
          (end : RoundEnd I J)
          → IsReady child end
          → ((later : ℕ)
              → IsReady child (
                  wait_for_overlay library from_slice parse_ipv6 fuel admin rounds
                    (suc n)
                    later
                    child))
          → IsReady {I = I} {J = J} child (elim end [
            | settled outcome left ↦ settled outcome left
            | again later ↦
                wait_for_overlay library from_slice parse_ipv6 fuel admin rounds (suc n) later child
            | stuck ↦ stuck
            | unfinished ↦ unfinished
          ])
      onward (settled outcome left) ready next = ready
      onward (again later) ready next = next later
      onward stuck ready next = tt
      onward unfinished ready next = tt
