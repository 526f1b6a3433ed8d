-- ===== src/Fair/Tests.antt =====
-- Runs of the fair sharing, and the properties at these runs.
use spider_net.Prelude.{
  ok, err, ℕ, ◌+◌, ◌*◌, ◌≤◌, ◌<◌, ◌≡◌, ◌≢◌, refl, inl, inr, List, [], ◌∷◌, arith, min, sum_of,
  wrap64, wrap128, ◌↔◌, All, ◌∈◌,
}
use spider_net.Prelude.TreeMap.{lookup, insert, get_or_zero, sum_values}
use spider_net.Fair.Types.{
  contributing, leeching, Participant, Demand, FairShare, rate_of, conflicting_participation,
  unknown_participant,
}
use spider_net.Fair.MaxMin.{
  Entry, weighted_max_min, intake, sort_by_id, insert_by_id, fill, total_weight, share, fits,
  satisfied, remaining, grant, top_up, spread_pass, spread, floor_shares, to_u64,
}
use spider_net.Fair.MaxMin.Whole.{Shares, weighted_max_min-Shares}
use spider_net.Fair.Allocate.{
  allocate, register, check_previous, check_known, collect, share_out, contributors, leeches,
  extend,
}
use spider_net.Fair.Allocate.Checks.{DistinctIds}
use spider_net.Fair.Allocate.Demands.{DistinctDemands}
use spider_net.Fair.Allocate.Guarantees.{
  allocate_total, allocate_capped, contributors_fair, leeches_fair, leeches_yield,
}
use spider_net.Fair.Allocate.Refusals.{Known, allocate-ok_iff}

entry : ℕ → ℕ → ℕ → Entry
entry i d w = record { id = i; demand = d; weight = w }

rounding :
    weighted_max_min (entry 2 900 1 ∷ entry 1 900 1 ∷ entry 3 7 1 ∷ []) 1008
    ≡ (1, 501) ∷ (2, 500) ∷ (3, 7) ∷ []
unfolding entry weighted_max_min intake sort_by_id insert_by_id fill total_weight share fits
    satisfied remaining grant top_up spread_pass spread floor_shares to_u64 wrap64 wrap128 insert
    lookup
rounding = refl

abbrev short_entries : List Entry
short_entries =
    record { id = 1; demand = 900; weight = 2 } ∷ record { id = 2; demand = 900; weight = 1 } ∷ []

weighted_max_min-Shares_example : Shares short_entries 1000 (weighted_max_min short_entries 1000)
weighted_max_min-Shares_example =
    weighted_max_min-Shares short_entries 1000 (omega arith) (omega arith) (omega arith)
      (omega arith)

-- Two contributors and two leeches.
abbrev heavy : Participant
heavy = record { id = 1; participation = contributing 2 }

abbrev light : Participant
light = record { id = 2; participation = contributing 1 }

abbrev leech : Participant
leech = record { id = 3; participation = leeching }

abbrev other_leech : Participant
other_leech = record { id = 4; participation = leeching }

abbrev household : List Participant
household = leech ∷ heavy ∷ light ∷ other_leech ∷ []

-- The contributors ask for more than there is.
abbrev crowded : List Demand
crowded =
    record { participant = 1; rate = 900 }
    ∷ record { participant = 2; rate = 800 }
    ∷ record { participant = 3; rate = 50 }
    ∷ []

abbrev crowded_share : FairShare
crowded_share = record {
  allocations = (1, 667) ∷ (2, 333) ∷ (3, 0) ∷ (4, 0) ∷ [];
  total_allocated = 1000;
  unused = 0;
}

-- The contributors ask for little, the leeches for more than the rest.
abbrev relaxed : List Demand
relaxed =
    record { participant = 3; rate = 500 }
    ∷ record { participant = 1; rate = 250 }
    ∷ record { participant = 4; rate = 400 }
    ∷ record { participant = 2; rate = 100 }
    ∷ []

abbrev relaxed_share : FairShare
relaxed_share = record {
  allocations = (1, 250) ∷ (2, 100) ∷ (3, 126) ∷ (4, 125) ∷ [];
  total_allocated = 601;
  unused = 0;
}

crowded_run : allocate 1000 household crowded ≡ ok crowded_share
unfolding allocate register check_previous check_known collect share_out contributors leeches extend
    get_or_zero sum_values weighted_max_min intake sort_by_id insert_by_id fill total_weight share
    fits satisfied remaining grant top_up spread_pass spread floor_shares to_u64 wrap64 wrap128
    insert lookup
crowded_run = refl

relaxed_run : allocate 601 household relaxed ≡ ok relaxed_share
unfolding allocate register check_previous check_known collect share_out contributors leeches extend
    get_or_zero sum_values weighted_max_min intake sort_by_id insert_by_id fill total_weight share
    fits satisfied remaining grant top_up spread_pass spread floor_shares to_u64 wrap64 wrap128
    insert lookup
relaxed_run = refl

twice_listed :
    allocate 10 (leech ∷ heavy ∷ record { id = 3; participation = contributing 1 } ∷ []) []
    ≡ err (conflicting_participation 3)
unfolding allocate register check_previous lookup insert
twice_listed = refl

stranger :
    allocate 10 (leech ∷ []) (record { participant = 9; rate = 1 } ∷ [])
    ≡ err (unknown_participant 9)
unfolding allocate register check_previous check_known lookup insert
stranger = refl

allocate_total_example :
    (1000 ≡ min 1000 (sum_of (λ d. d.rate) crowded))
    × (1000 + 0 ≡ 1000)
    × (sum_values crowded_share.allocations ≡ 1000)
allocate_total_example =
    allocate_total 1000 household crowded crowded_share (omega arith) (omega arith) (omega arith)
      crowded_run

allocate_capped_example :
    ((d : Demand) → d ∈ crowded → d.participant ≡ 4 → rate_of crowded_share 4 ≤ d.rate)
    × (All (λ d. d.participant ≢ 4) crowded → rate_of crowded_share 4 ≡ 0)
allocate_capped_example =
    allocate_capped 1000 household crowded crowded_share (omega arith) (omega arith) (omega arith)
      crowded_run other_leech (inr (inr (inr (inl refl))))

contributors_fair_example : rate_of crowded_share 1 * 1 < (rate_of crowded_share 2 + 1) * 2 + 1
unfolding rate_of get_or_zero lookup
contributors_fair_example =
    contributors_fair 1000 household crowded crowded_share (omega arith) (omega arith) (omega arith)
      crowded_run light heavy 1 2 (record { participant = 2; rate = 800 }) (inr (inr (inl refl)))
      (inr (inl refl)) refl refl (inr (inl refl)) refl short
  where
    short : rate_of crowded_share 2 < 800
    short = omega arith

leeches_fair_example : rate_of relaxed_share 3 ≤ rate_of relaxed_share 4 + 1
unfolding rate_of get_or_zero lookup
leeches_fair_example =
    leeches_fair 601 household relaxed relaxed_share (omega arith) (omega arith) (omega arith)
      relaxed_run other_leech leech (record { participant = 4; rate = 400 })
      (inr (inr (inr (inl refl)))) (inl refl) refl refl (inr (inr (inl refl))) refl (omega arith)

leeches_yield_example : rate_of relaxed_share 2 ≡ 100
unfolding rate_of get_or_zero lookup
leeches_yield_example =
    leeches_yield 601 household relaxed relaxed_share (omega arith) (omega arith) (omega arith)
      relaxed_run leech light 1 (record { participant = 2; rate = 100 }) (inl refl)
      (inr (inr (inl refl))) refl refl (inr (inr (inr (inl refl)))) refl (omega arith)

allocate-ok_iff_example : ((s : FairShare) × (allocate 601 household relaxed ≡ ok s)) ↔ (
    DistinctIds household
    × All (λ d. Known household d.participant) relaxed
    × DistinctDemands relaxed)
allocate-ok_iff_example = allocate-ok_iff 601 household relaxed
