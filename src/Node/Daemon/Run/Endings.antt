-- ===== src/Node/Daemon/Run/Endings.antt =====
-- What stopping the sidecar leaves.
use spider_net.Prelude.{
  ℕ, ◌≡◌, ◌≢◌, ◌⊎◌, ◌++◌, inl, inr, refl, sym, subst, ap, Bool, true, false, List, [], Option, none,
  some, Result, ok, err, arith,
}
use spider_net.Prelude.Text.{Text}
use spider_net.Node.Types.{NodeError}
use spider_net.Node.Daemon.{
  Signal, term, kill, Sidecar, Wait, exited, wait_failed, after, sent, signal, wait, Ending,
  terminate_sidecar, kill_child,
}
use spider_net.Node.Daemon.Overlay.{child_exit}
use spider_net.Node.DaemonConfig.{ExitServiceSettings, ValidatedDaemonConfig}
use spider_net.Node.Daemon.Run.{Life, Finish, ended, finish}

-- A wait that does not fail.
abbrev pub IsHealthy : Option Wait → Type 0
IsHealthy none = Unit
IsHealthy (some (exited status)) = Unit
IsHealthy (some (wait_failed e)) = ⊥

-- No wait for the sidecar fails, and a killed sidecar exits.
abbrev pub IsCalm : {I : Type 0} → Life I → Type 0
IsCalm life =
    ((n : ℕ) → IsHealthy ((life.rounds n).sidecar))
    × IsHealthy life.sidecar
    × IsHealthy life.ending.graced
    × ((status : Text) × (life.ending.killed ≡ some (exited status)))

-- No sidecar, or one that runs and was sent nothing; and one that was sent nothing.
abbrev pub IsFresh : Option Sidecar → Type 0
IsFresh none = Unit
IsFresh (some child) = (child.reaped ≡ false) × (child.signals ≡ [])

abbrev pub IsQuiet : Option Sidecar → Type 0
IsQuiet none = Unit
IsQuiet (some child) = child.signals ≡ []

-- Something ends the daemon once it is up: the service ends, or without a service a shutdown comes.
abbrev pub IsComing : {I : Type 0} → Option ExitServiceSettings → Life I → Type 0
IsComing none life = life.shutdown ≡ true
IsComing (some exit) life = (well : Bool) × (life.served ≡ some well)

-- That, or the daemon manages a sidecar and this exits first.
abbrev pub IsCalled : {I : Type 0} → ValidatedDaemonConfig → Life I → Type 0
IsCalled config life =
    IsComing config.exit life ⊎ ((config.manage ≡ true) × ((w : Wait) × (life.sidecar ≡ some w)))

-- The sidecar that is left has exited. After a clean end SIGTERM was tried, and SIGKILL behind it if and only if
-- the grace period was over; after an error SIGKILL was tried at most. A signal that failed was not sent.
abbrev pub IsLeft : {I J : Type 0} → Ending → Result (NodeError I J) Unit → Option Sidecar → Type 0
IsLeft ending result none = Unit
IsLeft ending (ok done) (some child) =
    (child.reaped ≡ true)
    × (((ending.graced ≢ none) × (child.signals ≡ sent ending.term_sent term))
        ⊎ ((ending.graced ≡ none)
            × (child.signals ≡ sent ending.term_sent term ++ sent ending.kill_sent kill)))
IsLeft ending (err e) (some child) =
    (child.reaped ≡ true) × ((child.signals ≡ []) ⊎ (child.signals ≡ sent ending.kill_sent kill))

-- The daemon ends with such a sidecar.
abbrev pub EndsWell : {I J : Type 0} → Ending → Finish I J → Type 0
EndsWell {I} {J} ending f =
    (result : Result (NodeError I J) Unit) × (left : Option Sidecar) × (f ≡ ended result left)
    × IsLeft ending result left

sidecar : Bool → List Signal → Sidecar
sidecar reaped signals = record { reaped = reaped; signals = signals }

ending_of : Bool → Bool → Option Wait → Option Wait → Ending
ending_of t k graced killed = record {
  term_sent = t;
  graced = graced;
  kill_sent = k;
  killed = killed;
}

sidecar-eq :
    (child : Sidecar) (r : Bool) (s : List Signal)
    → child.reaped ≡ r
    → child.signals ≡ s
    → sidecar r s ≡ child
unfolding sidecar
sidecar-eq child r s p q = λ i. record { reaped = sym p i; signals = sym q i }

terminated :
    {I J : Type 0}
    → (t k : Bool) (graced killed : Option Wait) (status : Text) → IsHealthy graced
    → killed ≡ some (exited status)
    → EndsWell {I = I} {J = J}
        (ending_of t k graced killed)
        (finish (ok tt) (terminate_sidecar (ending_of t k graced killed) (some (sidecar false []))))
unfolding sidecar ending_of terminate_sidecar finish wait after signal
terminated t k none killed status healthy dies = (
  ok tt,
  some (sidecar true (sent t term ++ sent k kill)),
  rw (dies, wait) refl,
  (refl, inr (refl, refl)),
)
terminated t k (some (exited s)) killed status healthy dies = (
  ok tt,
  some (sidecar true (sent t term)),
  refl,
  (refl, inl ((λ h. absurd (ground (arith, h))), refl)),
)
terminated t k (some (wait_failed e)) killed status healthy dies = absurd healthy

pub terminate_sidecar-Left :
    {I J : Type 0}
    → (ending : Ending) (child : Option Sidecar) (status : Text) → IsFresh child
    → IsHealthy ending.graced
    → ending.killed ≡ some (exited status)
    → EndsWell {I = I} {J = J} ending (finish (ok tt) (terminate_sidecar ending child))
unfolding terminate_sidecar finish ending_of
terminate_sidecar-Left {I} {J} ending none status fresh healthy dies = (ok tt, none, refl, tt)
terminate_sidecar-Left {I} {J} ending (some child) status fresh healthy dies =
    subst
      (λ c. EndsWell {I = I} {J = J} ending (finish (ok tt) (terminate_sidecar ending (some c))))
      (sidecar-eq child false [] fresh.0 fresh.1)
      (terminated ending.term_sent ending.kill_sent ending.graced ending.killed status healthy dies)

killed_off :
    {I J : Type 0}
    → (t k : Bool) (graced killed : Option Wait) (status : Text) (e : NodeError I J) (reaped : Bool)
    → killed ≡ some (exited status)
    → EndsWell
        (ending_of t k graced killed)
        (finish (err e) (kill_child (ending_of t k graced killed) (some (sidecar reaped []))))
unfolding sidecar ending_of kill_child finish wait after signal
killed_off t k graced killed status e true dies =
    (err e, some (sidecar true []), refl, (refl, inl refl))
killed_off t k graced killed status e false dies =
    (err e, some (sidecar true (sent k kill)), rw (dies, wait) refl, (refl, inr refl))

pub kill_child-Left :
    {I J : Type 0}
    → (ending : Ending) (child : Option Sidecar) (status : Text) (e : NodeError I J) → IsQuiet child
    → ending.killed ≡ some (exited status)
    → EndsWell ending (finish (err e) (kill_child ending child))
unfolding kill_child finish ending_of
kill_child-Left ending none status e quiet dies = (err e, none, refl, tt)
kill_child-Left ending (some child) status e quiet dies =
    subst (λ c. EndsWell ending (finish (err e) (kill_child ending (some c))))
      (sidecar-eq child child.reaped [] refl quiet)
      (killed_off ending.term_sent ending.kill_sent ending.graced ending.killed status e
        child.reaped dies)

left_of : Option (Text × Option Sidecar) → Option Sidecar
left_of none = none
left_of (some (status, left)) = left

-- What `child_exit` leaves.
pub child_exit-reaped :
    (child left : Option Sidecar) (answer : Option Wait) (status : Text)
    → IsQuiet child
    → IsHealthy answer
    → child_exit child answer ≡ some (status, left)
    → (c : Sidecar) × (left ≡ some c) × (c.reaped ≡ true) × (c.signals ≡ [])
unfolding child_exit after left_of
child_exit-reaped none left answer status quiet healthy h = absurd (ground (arith, h))
child_exit-reaped (some child) left none status quiet healthy h = absurd (ground (arith, h))
child_exit-reaped (some child) left (some (exited s)) status quiet healthy h =
    (record child { reaped = true }, sym (ap left_of h), refl, quiet)
child_exit-reaped (some child) left (some (wait_failed e)) status quiet healthy h = absurd healthy
