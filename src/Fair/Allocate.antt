-- ===== src/Fair/Allocate.antt =====
-- `allocate` of server/crates/sn-fair/src/fair.rs: the checks of the input, then contributors over
-- the whole capacity, then leeches over what the contributors leave.
pub mod Checks
pub mod Demands
pub mod Classes
pub mod Phases
pub mod Input
pub mod Success
pub mod Rates
pub mod Guarantees
pub mod Refusals
use spider_net.Prelude.{
  ok, err, ◌>>=◌, ℕ, ◌+◌, ◌-◌, ◌≡◌, Bool, List, [], ◌∷◌, if◌then◌else◌, Option, none, some, wrap128,
}
use spider_net.Prelude.TreeMap.{lookup, insert, get_or_zero, sum_values}
use spider_net.Fair.Types.{
  Participation, contributing, leeching, same_class, Participant, Demand, FairShare, Checked,
  unknown_participant, duplicate_demand, duplicate_participant, conflicting_participation,
}
use spider_net.Fair.MaxMin.{Entry, to_u64, weighted_max_min}

-- What `insert` returned for a participant: `None`, or the class under the same id before.
unfoldable pub check_previous :
    Participant
    → Option Participation
    → Checked (List (ℕ × Participation))
    → Checked (List (ℕ × Participation))
check_previous p none rest = rest
check_previous p (some previous) rest =
    if same_class previous p.participation
    then err (duplicate_participant p.id)
    else err (conflicting_participation p.id)

-- The loop that fills `participation_of`.
unfoldable pub register :
    List Participant → List (ℕ × Participation) → Checked (List (ℕ × Participation))
register [] classes = ok classes
register (p ∷ ps) classes =
    check_previous p (lookup p.id classes) (register ps (insert p.id p.participation classes))

-- The loop that looks for a demand of an unknown participant.
unfoldable pub check_known : List (ℕ × Participation) → List Demand → Checked (Unit {0})
check_known classes [] = ok tt
check_known classes (d ∷ ds) = elim (lookup d.participant classes) [
  | none ↦ err (unknown_participant d.participant)
  | some _ ↦ check_known classes ds
]

-- The loop that fills `demand_of`.
unfoldable pub collect : List Demand → List (ℕ × ℕ) → Checked (List (ℕ × ℕ))
collect [] demand_of = ok demand_of
collect (d ∷ ds) demand_of = elim (lookup d.participant demand_of) [
  | none ↦ collect ds (insert d.participant d.rate demand_of)
  | some _ ↦ err (duplicate_demand d.participant)
]

-- The two lists that the loop over `participation_of` fills, in ascending id order.
unfoldable pub contributors : List (ℕ × Participation) → List (ℕ × ℕ) → List Entry
contributors [] demand_of = []
contributors ((id, contributing weight) ∷ classes) demand_of =
    record { id = id; demand = get_or_zero id demand_of; weight = weight }
    ∷ contributors classes demand_of
contributors ((id, leeching) ∷ classes) demand_of = contributors classes demand_of

unfoldable pub leeches : List (ℕ × Participation) → List (ℕ × ℕ) → List Entry
leeches [] demand_of = []
leeches ((id, contributing weight) ∷ classes) demand_of = leeches classes demand_of
leeches ((id, leeching) ∷ classes) demand_of =
    record { id = id; demand = get_or_zero id demand_of; weight = 1 } ∷ leeches classes demand_of

-- `allocations.extend(phase_two)`.
unfoldable pub extend : List (ℕ × ℕ) → List (ℕ × ℕ) → List (ℕ × ℕ)
extend m [] = m
extend m ((k, v) ∷ more) = extend (insert k v m) more

-- The two phases and the totals.
unfoldable pub share_out : ℕ → List (ℕ × Participation) → List (ℕ × ℕ) → FairShare
share_out capacity classes demand_of =
    let phase_one = weighted_max_min (contributors classes demand_of) capacity in
    let allocated = wrap128 (sum_values phase_one) in
    let leftover = capacity - to_u64 allocated in
    let phase_two = weighted_max_min (leeches classes demand_of) leftover in
    let allocations = extend phase_one phase_two in
    let total = to_u64 (wrap128 (sum_values allocations)) in
    record { allocations = allocations; total_allocated = total; unused = capacity - total }

unfoldable pub allocate : ℕ → List Participant → List Demand → Checked FairShare
allocate capacity participants demands = do
  classes ← register participants []
  _ ← check_known classes demands
  demand_of ← collect demands []
  ok (share_out capacity classes demand_of)
