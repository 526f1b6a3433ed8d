-- ===== src/Node/Daemon/Overlay/Stuck.antt =====
-- When `wait_for_overlay` of server/crates/sn-node/src/daemon.rs waits for ever.
use spider_net.Prelude.{
  ℕ, zero, suc, ◌+◌, ◌-◌, ◌*◌, ◌≤◌, ◌<◌, min, ◌≡◌, ◌↔◌, ◌⊎◌, inl, inr, refl, sym, ap, ◌∙◌, subst,
  false, List, Option, none, some, Bool-cases, Option-cases, ◌==◌, ==→≢, Result, ok, err, arith,
}
use spider_net.Prelude.Text.{Text}
use spider_net.Exit.Address.{IpAddr}
use spider_net.Exit.Ledger.{second}
use spider_net.Node.Types.{NodeError, overlay_not_up, sidecar_exited}
use spider_net.Node.Json.{Json}
use spider_net.Node.Endpoint.{AdminEndpoint, config_value}
use spider_net.Node.Admin.{SelfInfo}
use spider_net.Node.Admin.Client.{
  Attempt, Endless, get_self, get_peers, get_self-ends_iff, get_peers-ends_iff,
}
use spider_net.Node.Daemon.{Sidecar, Wait}
use spider_net.Node.Daemon.Overlay.{
  Round, OverlayOutcome, up, stopped, failed, RoundEnd, settled, again, stuck, overlay_wait,
  overlay_poll, child_exit, answered, wait_round, wait_for_overlay,
}

child_exit-none_iff :
    (child : Option Sidecar) (answer : Option Wait)
    → (child_exit child answer ≡ none) ↔ ((child ≡ none) ⊎ (answer ≡ none))
unfolding child_exit
child_exit-none_iff none answer = (λ h. inl refl, λ h. refl)
child_exit-none_iff (some child) none = (λ h. inr refl, λ h. refl)
child_exit-none_iff (some child) (some w) =
    (λ h. absurd (ground (arith, h)), λ h. absurd (ground (arith, h)))

module _ {I J V O : Type 0} (json : Json V O) (from_slice : List ℕ → Result J V)
    (parse_ipv6 : Text → Option IpAddr) (admin : AdminEndpoint) (rounds : ℕ → Round I)
    (child : Option Sidecar) where
  -- The time that a query has for its connection.
  abbrev pub limit_at : ℕ → ℕ
  limit_at t = min (overlay_wait - t) overlay_poll

  -- Round `n` queries the socket at time `t`: the deadline is not over, no shutdown came and the sidecar, if there
  -- is one, has not exited.
  abbrev pub IsOpen : ℕ → ℕ → Type 0
  IsOpen n t =
      (t < overlay_wait)
      × ((rounds n).shutdown ≡ false)
      × ((child ≡ none) ⊎ ((rounds n).sidecar ≡ none))

  -- The query ends with an error, and the next round begins a second later.
  abbrev pub IsRetried : ℕ → ℕ → ℕ → Type 0
  IsRetried n t later =
      IsOpen n t
      × ((spent : ℕ) × (e : NodeError I J) × (get_self json from_slice parse_ipv6 (limit_at t)
              (rounds n).own
            ≡ some (spent, err e))
          × (later ≡ t + spent + overlay_poll + (rounds n).pause))

  -- A socket takes the connection in time, and then neither answers nor closes: at the query for the node's own
  -- status, or behind a good answer to this at the query for the peers.
  abbrev pub IsSilent : ℕ → Attempt I → Type 0
  IsSilent limit attempt = Endless json from_slice limit attempt.connected attempt.answered

  abbrev pub IsHung : ℕ → ℕ → Type 0
  IsHung n t =
      IsOpen n t
      × (IsSilent (limit_at t) (rounds n).own
          ⊎ ((spent : ℕ) × (info : SelfInfo IpAddr V) × (get_self {J = J} json from_slice parse_ipv6
                  (limit_at t) (rounds n).own
                ≡ some (spent, ok info))
              × IsSilent (limit_at t) (rounds n).peers))

  -- Round `n` begins at time `t`.
  pub data Begins : ℕ → ℕ → Type 0 where
    first : Begins 0 0
    next : {n t later : ℕ} → Begins n t → IsRetried n t later → Begins (suc n) later

  round_at : ℕ → ℕ → RoundEnd I J
  round_at n t = wait_round json from_slice parse_ipv6 admin child t (rounds n)

  round_at-open :
      (n t : ℕ)
      → IsOpen n t
      → (r : Option (ℕ × Result (NodeError I J) (SelfInfo IpAddr V)))
      → get_self json from_slice parse_ipv6 (limit_at t) (rounds n).own ≡ r
      → round_at n t ≡ (elim r [
        | none ↦ stuck
        | some answer ↦ answered json from_slice parse_ipv6 child t (rounds n) answer
      ])
  unfolding round_at wait_round
  round_at-open n t (early, running, alive) r e =
      let left : ((overlay_wait - t) == 0) ≡ false = ground (arith, early) in
      let waiting = (child_exit-none_iff child (rounds n).sidecar).1 alive in
      rw (left, running, waiting, e, wait_round) refl

  round_at-again : (n t later : ℕ) → IsRetried n t later → round_at n t ≡ again later
  unfolding answered
  round_at-again n t later (runs, (spent, e, ended, time)) =
      round_at-open n t runs (some (spent, err e)) ended ∙ ap again (sym time)

  round_at-stuck : (n t : ℕ) → IsHung n t → round_at n t ≡ stuck
  unfolding answered
  round_at-stuck n t (runs, inl silent) =
      round_at-open n t runs none
        ((get_self-ends_iff json from_slice parse_ipv6 (limit_at t) (rounds n).own).1 silent)
  round_at-stuck n t (runs, inr (spent, info, ended, silent)) =
      let never =
        (get_peers-ends_iff json from_slice parse_ipv6 (limit_at t) (rounds n).peers).1 silent in
      round_at-open n t runs (some (spent, ok info)) ended ∙ (rw (never, answered) refl)

  -- How a round ends.
  abbrev Outcome : ℕ → ℕ → Type 0
  Outcome n t =
      ((later : ℕ) × IsRetried n t later × (round_at n t ≡ again later))
      ⊎ (IsHung n t
          ⊎ ((outcome : OverlayOutcome I J) × (left : Option Sidecar) × (round_at n t
                ≡ settled outcome left)))

  answered-Outcome :
      (n t : ℕ) (r : Option (ℕ × Result (NodeError I J) (SelfInfo IpAddr V)))
      → IsOpen n t
      → get_self json from_slice parse_ipv6 (limit_at t) (rounds n).own ≡ r
      → Outcome n t
  unfolding answered
  answered-Outcome n t none runs e = inr (
      inl (
        runs,
        inl ((get_self-ends_iff json from_slice parse_ipv6 (limit_at t) (rounds n).own).0 e),
      ))
  answered-Outcome n t (some (spent, err fault)) runs e =
      let later = t + spent + overlay_poll + (rounds n).pause in
      let retried : IsRetried n t later = (runs, (spent, fault, e, refl)) in
      inl (later, retried, round_at-again n t later retried)
  answered-Outcome n t (some (spent, ok info)) runs e =
      elim (Option-cases (get_peers json from_slice parse_ipv6 (limit_at t) (rounds n).peers)) [
        | inl never ↦
            let silent =
              (get_peers-ends_iff json from_slice parse_ipv6 (limit_at t) (rounds n).peers).0
                never in
            inr (inl (runs, inr (spent, info, e, silent)))
        | inr (peers, f) ↦ inr (
            inr (
              up info.address,
              child,
              round_at-open n t runs (some (spent, ok info)) e ∙ (rw (f, answered) refl),
            ))
      ]

  round_at-Outcome : (n t : ℕ) → Outcome n t
  unfolding round_at wait_round
  round_at-Outcome n t = elim (Bool-cases ((overlay_wait - t) == 0)) [
    | inl over ↦
        inr
          (inr (failed (overlay_not_up (config_value admin) 60), child, rw (over, wait_round) refl))
    | inr early ↦ elim (Bool-cases (rounds n).shutdown) [
      | inl stop ↦ inr (inr (stopped, child, rw (early, stop, wait_round) refl))
      | inr running ↦ elim (Option-cases (child_exit child (rounds n).sidecar)) [
        | inr ((status, left), dead) ↦
            inr (
              inr
                (failed (sidecar_exited status), left, rw (early, running, dead, wait_round) refl))
        | inl alive ↦
            let p = ==→≢ (overlay_wait - t) 0 early in
            answered-Outcome n t _
              (omega (arith, p), running, (child_exit-none_iff child (rounds n).sidecar).0 alive)
              refl
      ]
    ]
  ]

  -- A round that begins has had at least a second for each one before it.
  Begins-late : (n t : ℕ) → Begins n t → n * second ≤ t
  Begins-late zero _ first = omega arith
  Begins-late _ _ (next {n = n} {t = t} {later = later} b (runs, (spent, e, ended, time))) =
      omega (arith, time, Begins-late n t b)

  -- The loop comes to a round that begins.
  wait_for_overlay-Begins :
      (n t fuel : ℕ)
      → Begins n t
      → wait_for_overlay {J = J} json from_slice parse_ipv6 (n + fuel) admin rounds 0 0 child
        ≡ wait_for_overlay json from_slice parse_ipv6 fuel admin rounds n t child
  unfolding wait_for_overlay round_at
  wait_for_overlay-Begins zero _ fuel first = ground arith
  wait_for_overlay-Begins _ _ fuel (next {n = n} {t = t} {later = later} b r) =
      let on = round_at-again n t later r in
      let more : suc n + fuel ≡ n + suc fuel = omega arith in
      rw more (wait_for_overlay-Begins n t (suc fuel) b ∙ (rw (on, wait_for_overlay) refl))

  stuck-IsHung :
      (fuel n t : ℕ)
      → Begins n t
      → wait_for_overlay {J = J} json from_slice parse_ipv6 fuel admin rounds n t child ≡ stuck
      → (m : ℕ) × (u : ℕ) × Begins m u × IsHung m u
  unfolding wait_for_overlay round_at
  stuck-IsHung zero n t b h = absurd (ground (arith, h))
  stuck-IsHung (suc fuel) n t b h = elim (round_at-Outcome n t) [
    | inl (later, r, on) ↦
        stuck-IsHung fuel (suc n) later (next b r) (rw (on, wait_for_overlay) at h)
    | inr (inl hung) ↦ (n, t, b, hung)
    | inr (inr (outcome, left, end)) ↦ absurd (ground (arith, rw (end, wait_for_overlay) at h))
  ]

  -- The 61 rounds wait for ever if and only if a round that begins hangs: before the deadline, with no shutdown
  -- and no exit of the sidecar, a socket takes a connection in time and then neither answers nor closes, be it
  -- for the node's own status or, behind a good answer to that, for the peers. A round begins at time 0, and
  -- then after each query for the own status that fails, a second and the pause later.
  pub wait_for_overlay-stuck_iff :
      (wait_for_overlay {J = J} json from_slice parse_ipv6 61 admin rounds 0 0 child ≡ stuck)
      ↔ ((n : ℕ) × (t : ℕ) × Begins n t × IsHung n t)
  unfolding wait_for_overlay round_at
  wait_for_overlay-stuck_iff = (stuck-IsHung 61 0 0 first, back)
    where
      back :
          (n : ℕ) × (t : ℕ) × Begins n t × IsHung n t
          → wait_for_overlay {J = J} json from_slice parse_ipv6 61 admin rounds 0 0 child ≡ stuck
      back (n, t, b, hung) =
          let late = Begins-late n t b in
          let enough : 61 ≡ n + suc (60 - n) = omega (arith, late, hung.0.0) in
          let stays = round_at-stuck n t hung in
          subst
            (λ k.
              wait_for_overlay {J = J} json from_slice parse_ipv6 k admin rounds 0 0 child ≡ stuck)
            (sym enough)
            (wait_for_overlay-Begins n t (suc (60 - n)) b ∙ (rw (stays, wait_for_overlay) refl))
