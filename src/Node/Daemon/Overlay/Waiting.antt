-- ===== src/Node/Daemon/Overlay/Waiting.antt =====
-- How long the daemon waits for the overlay.
use spider_net.Prelude.{
  ℕ, zero, suc, ◌+◌, ◌-◌, ◌*◌, ◌≤◌, ◌<◌, min, ◌≡◌, ◌≢◌, ◌⊎◌, inl, inr, refl, List, Option, none,
  Bool-cases, Option-cases, ◌==◌, ==→≢, Result, ok, err, arith,
}
use spider_net.Prelude.Text.{Text}
use spider_net.Exit.Address.{IpAddr}
use spider_net.Exit.Ledger.{second}
use spider_net.Node.Types.{NodeError}
use spider_net.Node.Json.{Json}
use spider_net.Node.Endpoint.{AdminEndpoint}
use spider_net.Node.Admin.Client.{get_self, get_peers}
use spider_net.Node.Daemon.{Sidecar}
use spider_net.Node.Daemon.Overlay.{
  Round, OverlayOutcome, RoundEnd, settled, again, stuck, unfinished, overlay_wait, overlay_poll,
  child_exit, answered, wait_round, wait_for_overlay,
}

module _ {I J V O : Type 0} (json : Json V O) (from_slice : List ℕ → Result J V)
    (parse_ipv6 : Text → Option IpAddr) where
  -- Every query of the admin socket ends.
  abbrev pub Ends : (ℕ → Round I) → Type 0
  Ends rounds =
      (n limit : ℕ)
      → (get_self json from_slice parse_ipv6 limit ((rounds n).own) ≢ none)
        × (get_peers json from_slice parse_ipv6 limit ((rounds n).peers) ≢ none)

  -- A round settles the waiting, or another one begins at least a second later.
  abbrev Progress : ℕ → RoundEnd I J → Type 0
  Progress elapsed (settled outcome left) = Unit
  Progress elapsed (again later) = (elapsed < overlay_wait) × (elapsed + second ≤ later)
  Progress elapsed stuck = ⊥
  Progress elapsed unfinished = ⊥

  answered-Progress :
      (child : Option Sidecar) (elapsed spent : ℕ) (round : Round I)
      → (r : Result (NodeError I J) _) → elapsed < overlay_wait
      → get_peers json from_slice parse_ipv6 (min (overlay_wait - elapsed) overlay_poll) round.peers
        ≢ none
      → Progress elapsed (answered json from_slice parse_ipv6 child elapsed round (spent, r))
  unfolding answered
  answered-Progress child elapsed spent round (err e) early ends = (early, omega arith)
  answered-Progress child elapsed spent round (ok info) early ends =
      elim (Option-cases (
        get_peers json from_slice parse_ipv6 (min (overlay_wait - elapsed) overlay_poll)
          round.peers)) [ inl never ↦ absurd (ends never) | inr (peers, e) ↦ rw (e, answered) tt ]

  wait_round-Progress :
      (admin : AdminEndpoint) (child : Option Sidecar) (elapsed n : ℕ) (rounds : ℕ → Round I)
      → Ends rounds
      → Progress elapsed (wait_round json from_slice parse_ipv6 admin child elapsed (rounds n))
  unfolding wait_round
  wait_round-Progress admin child elapsed n rounds ends =
      let round = rounds n in
      let limit = min (overlay_wait - elapsed) overlay_poll in
      elim (Bool-cases ((overlay_wait - elapsed) == 0)) [
        | inl over ↦ rw over tt
        | inr early ↦ elim (Bool-cases round.shutdown) [
          | inl stop ↦ rw (early, stop) tt
          | inr running ↦ elim (Option-cases (child_exit child round.sidecar)) [
            | inr ((status, left), dead) ↦ rw (early, running, dead, wait_round) tt
            | inl alive ↦
                elim (Option-cases (get_self json from_slice parse_ipv6 limit round.own)) [
                  | inl never ↦ absurd ((ends n limit).0 never)
                  | inr ((spent, r), e) ↦
                      rw (early, running, alive, e, wait_round)
                        (answered-Progress child elapsed spent round r
                          (let p = ==→≢ (overlay_wait - elapsed) 0 early in omega (arith, p))
                          (ends n limit).1)
                ]
          ]
        ]
      ]

  Progress-cases :
      (elapsed : ℕ) (r : RoundEnd I J)
      → Progress elapsed r
      → ((outcome : OverlayOutcome I J) × (left : Option Sidecar) × (r ≡ settled outcome left))
        ⊎ ((later : ℕ) × (r ≡ again later) × (elapsed < overlay_wait) × (elapsed + second ≤ later))
  Progress-cases elapsed (settled outcome left) p = inl (outcome, left, refl)
  Progress-cases elapsed (again later) p = inr (later, refl, p.0, p.1)
  Progress-cases elapsed stuck p = absurd p
  Progress-cases elapsed unfinished p = absurd p

  -- Enough rounds for the time that is left.
  waits :
      (fuel n elapsed : ℕ) (admin : AdminEndpoint) (rounds : ℕ → Round I) (child : Option Sidecar)
      → Ends rounds
      → overlay_wait ≤ elapsed + fuel * second
      → (outcome : OverlayOutcome I J) × (left : Option Sidecar) × (wait_for_overlay json from_slice
            parse_ipv6
            (suc fuel)
            admin
            rounds
            n
            elapsed
            child
          ≡ settled outcome left)
  unfolding wait_for_overlay
  waits zero n elapsed admin rounds child ends enough =
      elim (Progress-cases elapsed _ (wait_round-Progress admin child elapsed n rounds ends)) [
        | inl (outcome, left, e) ↦ (outcome, left, rw (e, wait_for_overlay) refl)
        | inr (later, e, early, on) ↦ absurd (omega (arith, early, enough))
      ]
  waits (suc fuel) n elapsed admin rounds child ends enough =
      elim (Progress-cases elapsed _ (wait_round-Progress admin child elapsed n rounds ends)) [
        | inl (outcome, left, e) ↦ (outcome, left, rw (e, wait_for_overlay) refl)
        | inr (later, e, early, on) ↦
            let (outcome, left, rest) =
              waits fuel (suc n) later admin rounds child ends (omega (arith, on, enough)) in
            (outcome, left, rw (e, wait_for_overlay) rest)
      ]

  -- Where every query of the admin socket ends, 61 rounds settle the waiting, whatever the sidecar and the
  -- shutdown do.
  pub wait_for_overlay-settled :
      (admin : AdminEndpoint) (rounds : ℕ → Round I) (child : Option Sidecar)
      → Ends rounds
      → (outcome : OverlayOutcome I J) × (left : Option Sidecar) × (wait_for_overlay json from_slice
            parse_ipv6 61 admin rounds 0 0 child
          ≡ settled outcome left)
  wait_for_overlay-settled admin rounds child ends =
      waits 60 0 0 admin rounds child ends (omega arith)
