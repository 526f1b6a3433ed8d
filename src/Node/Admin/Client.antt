-- ===== src/Node/Admin/Client.antt =====
-- `AdminClient` of server/crates/sn-node/src/yggdrasil.rs, on when and how the socket answers. A time is
-- nanoseconds; what never happens is `none`.
use spider_net.Prelude.{
  ℕ, ◌+◌, ◌≤◌, ◌≡◌, ◌↔◌, refl, ap, inl, inr, Bool-cases, leb→le, leb→gt, arith, List, Option, none,
  some, if◌then◌else◌, leb, Result, ok, err, ◌>>=◌,
}
use spider_net.Prelude.Text.{Text}
use spider_net.Node.Json.{Json}
use spider_net.Node.Types.{NodeError, io, json, timeout, admin_protocol, admin_failed}
use spider_net.Node.Admin
use spider_net.Node.Admin.{
  AdminFault, SelfInfo, PeerInfo, parse_response, self_from_response, peers_from_response,
}

-- One connection: how long connecting takes and whether it fails, and how long the request takes until the
-- socket closes, with the bytes that were read.
pub record Attempt (I : Type 0) : Type 0 where
  pub connected : Option (ℕ × Option I)
  pub answered : Option (ℕ × Result I (List ℕ))

unfoldable pub of_fault : {I J : Type 0} → AdminFault → NodeError I J
of_fault (Admin.AdminFault.admin_protocol gap) = admin_protocol gap
of_fault (Admin.AdminFault.admin_failed message) = admin_failed message

-- The result of a step that cannot fail otherwise.
unfoldable pub or_fault : {I J A : Type 0} → Result AdminFault A → Result (NodeError I J) A
or_fault (ok a) = ok a
or_fault (err fault) = err (of_fault fault)

-- `AdminClient::connect`: `timeout` around the connection, which is polled before the timer.
unfoldable pub connect :
    {I J : Type 0} → ℕ → Option (ℕ × Option I) → ℕ × Result (NodeError I J) Unit
connect limit none = (limit, err timeout)
connect limit (some (delay, none)) =
    if leb delay limit then (delay, ok tt) else (limit, err timeout)
connect limit (some (delay, some e)) =
    if leb delay limit then (delay, err (io e)) else (limit, err timeout)

delay_of : {I : Type 0} → Option (ℕ × Option I) → ℕ
delay_of none = 0
delay_of (some (delay, e)) = delay

module _ {I J V O : Type 0} (library : Json V O) (from_slice : List ℕ → Result J V) where
  -- What `request` makes of the bytes it read.
  unfoldable pub respond : Result I (List ℕ) → Result (NodeError I J) V
  respond (err e) = err (io e)
  respond (ok buffer) = elim (from_slice buffer) [
    | err e ↦ err (json e)
    | ok envelope ↦ or_fault (parse_response library envelope)
  ]

  -- The request on a connection, which no timeout covers, and what is made of the response.
  unfoldable pub finish :
      {A : Type 0}
      → (V → Result AdminFault A)
      → ℕ
      → Option (ℕ × Result I (List ℕ))
      → Option (ℕ × Result (NodeError I J) A)
  finish read spent none = none
  finish read spent (some (delay, answer)) =
      some (spent + delay, respond answer >>= (λ value. or_fault (read value)))

  -- `connect` and then `request`; nothing if the request never ends.
  unfoldable pub query :
      {A : Type 0}
      → (V → Result AdminFault A)
      → ℕ
      → Attempt I
      → Option (ℕ × Result (NodeError I J) A)
  query read limit attempt =
      let (spent, connection) = connect {I = I} {J = J} limit attempt.connected in
      elim connection [ err e ↦ some (spent, err e) | ok done ↦ finish read spent attempt.answered ]

  -- When a query never ends.
  abbrev pub Endless : ℕ → Option (ℕ × Option I) → Option (ℕ × Result I (List ℕ)) → Type 0
  Endless limit connected answered =
      (delay : ℕ) × (connected ≡ some (delay, none)) × (delay ≤ limit) × (answered ≡ none)

  pub query-ends_iff :
      {A : Type 0}
      → (read : V → Result AdminFault A) (limit : ℕ) (connected : Option (ℕ × Option I))
      → (answered : Option (ℕ × Result I (List ℕ)))
      → (query read limit (record { connected = connected; answered = answered }) ≡ none)
        ↔ Endless limit connected answered
  unfolding query connect finish
  query-ends_iff read limit none answered =
      (λ h. absurd (ground (arith, h)), λ e. absurd (ground (arith, e.1)))
  query-ends_iff read limit (some (delay, some e)) answered = elim (Bool-cases (leb delay limit)) [
    | inl timely ↦ (
      λ h. absurd (ground (arith, rw (timely, query, connect) at h)),
      λ w. absurd (ground (arith, w.1)),
    )
    | inr late ↦ (
      λ h. absurd (ground (arith, rw (late, query, connect) at h)),
      λ w. absurd (ground (arith, w.1)),
    )
  ]
  query-ends_iff read limit (some (delay, none)) (some (wait, answer)) =
      elim (Bool-cases (leb delay limit)) [
        | inl timely ↦ (
          λ h. absurd (ground (arith, rw (timely, query, connect) at h)),
          λ w. absurd (ground (arith, w.3)),
        )
        | inr late ↦ (
          λ h. absurd (ground (arith, rw (late, query, connect) at h)),
          λ w. absurd (ground (arith, w.3)),
        )
      ]
  query-ends_iff read limit (some (delay, none)) none = elim (Bool-cases (leb delay limit)) [
    | inl timely ↦
        (λ h. (delay, refl, leb→le delay limit timely, refl), λ w. rw (timely, query, connect) refl)
    | inr late ↦ (
      λ h. absurd (ground (arith, rw (late, query, connect) at h)),
      λ w. absurd (ground (arith, ap (λ c. delay_of c) w.1, w.2, leb→gt delay limit late)),
    )
  ]

  module _ {A : Type 0} (parse_ipv6 : Text → Option A) where
    -- `AdminClient::get_self` and `AdminClient::get_peers`.
    unfoldable pub get_self : ℕ → Attempt I → Option (ℕ × Result (NodeError I J) (SelfInfo A V))
    get_self limit attempt = query (self_from_response library parse_ipv6) limit attempt

    unfoldable pub get_peers :
        ℕ → Attempt I → Option (ℕ × Result (NodeError I J) (List (PeerInfo A V)))
    get_peers limit attempt = query (peers_from_response library parse_ipv6) limit attempt

    -- The timeout covers the connection alone: where it succeeds in time and the socket neither answers nor
    -- closes, the query never ends, whatever the timeout; where the request ends, so does the query.
    pub get_self-ends_iff :
        (limit : ℕ) (attempt : Attempt I)
        → (get_self limit attempt ≡ none) ↔ (
            (delay : ℕ) × (attempt.connected ≡ some (delay, none))
            × (delay ≤ limit)
            × (attempt.answered ≡ none))
    unfolding get_self
    get_self-ends_iff limit attempt =
        query-ends_iff (self_from_response library parse_ipv6) limit attempt.connected
          attempt.answered

    pub get_peers-ends_iff :
        (limit : ℕ) (attempt : Attempt I)
        → (get_peers limit attempt ≡ none) ↔ Endless limit attempt.connected attempt.answered
    unfolding get_peers
    get_peers-ends_iff limit attempt =
        query-ends_iff (peers_from_response library parse_ipv6) limit attempt.connected
          attempt.answered
