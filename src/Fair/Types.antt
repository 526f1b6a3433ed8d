-- ===== src/Fair/Types.antt =====
-- server/crates/sn-fair/src/types.rs, error.rs and the data types of fair.rs.
-- A newtype over a number is that number; its range is a predicate.
use spider_net.Prelude.{ok, err, Result, ℕ, Bool, true, false, List, map, if◌then◌else◌, ◌==◌}
use spider_net.Prelude.TreeMap.{get_or_zero}
use Prim.Native.String.{String}

-- `FairnessError`.
pub data FairnessError : Type 0 where
  zero_capacity : FairnessError
  invalid_participant_id : String → FairnessError
  unknown_participant : ℕ → FairnessError
  duplicate_demand : ℕ → FairnessError
  duplicate_participant : ℕ → FairnessError
  conflicting_participation : ℕ → FairnessError

-- A result whose error is a `FairnessError`.
abbrev pub Checked : Type 0 → Type 0
Checked A = Result FairnessError A

-- `Participation`: the weight of a contributor is a `NonZeroU32`.
pub data Participation : Type 0 where
  contributing : ℕ → Participation
  leeching : Participation

-- The derived `PartialEq` of `Participation`.
abbrev pub same_class : Participation → Participation → Bool
same_class (contributing v) (contributing w) = v == w
same_class leeching leeching = true
same_class _ _ = false

pub record Participant : Type 0 where
  pub id : ℕ
  pub participation : Participation

pub record Demand : Type 0 where
  pub participant : ℕ
  pub rate : ℕ

pub record Allocation : Type 0 where
  pub participant : ℕ
  pub rate : ℕ

-- `FairShare`: the rates by participant id, and the totals.
pub record FairShare : Type 0 where
  pub allocations : List (ℕ × ℕ)
  pub total_allocated : ℕ
  pub unused : ℕ

-- `FairShare::rate_of`.
unfoldable pub rate_of : FairShare → ℕ → ℕ
unfolding get_or_zero
rate_of s p = get_or_zero p s.allocations

-- `FairShare::iter`.
unfoldable pub iter : FairShare → List Allocation
iter s = map (λ b. record { participant = b.0; rate = b.1 }) s.allocations

-- `Capacity::try_new`.
unfoldable pub try_new_capacity : ℕ → Checked ℕ
try_new_capacity value = if value == 0 then err zero_capacity else ok value

-- `Weight::default`.
abbrev pub default_weight : ℕ
default_weight = 1
