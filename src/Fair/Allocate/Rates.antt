-- ===== src/Fair/Allocate/Rates.antt =====
-- The rates of an accepted input, read off the two phases.
use spider_net.Prelude.{
  ℕ, ◌-◌, ◌≤◌, ◌<◌, ◌≡◌, ap, ◌∙◌, List, arith, ◌∈◌, some, u64_mod, sum_of, min,
}
use spider_net.Prelude.TreeMap.{get_or_zero, sum_values}
use spider_net.Fair.Types.{
  Participation, contributing, leeching, Participant, Demand, FairShare, rate_of,
}
use spider_net.Fair.MaxMin.{Entry}
use spider_net.Fair.MaxMin.Entries.{rate-of_lookup}
use spider_net.Fair.MaxMin.Whole.{Shares}
use spider_net.Fair.Allocate.{contributors, leeches, extend}
use spider_net.Fair.Allocate.Classes.{mem-contributors, mem-leeches}
use spider_net.Fair.Allocate.Input.{Accepted}
use spider_net.Fair.Allocate.Success.{
  phase_one, phase_two, first-Shares, second-Shares, both-asked, share_out-eq, contributor_rate,
  leech_rate,
}

module _ (c : ℕ) (ps : List Participant) (ds : List Demand) (s : FairShare) (b : c < u64_mod)
    (a : Accepted c ps ds s) where
  abbrev pub one : List (ℕ × ℕ)
  one = phase_one c a.classes a.demand_of

  abbrev pub two : List (ℕ × ℕ)
  two = phase_two c a.classes a.demand_of

  pub Shares-one : Shares (contributors a.classes a.demand_of) c one
  Shares-one = first-Shares c a.classes a.demand_of b a.ascending a.in_range a.demand_fits

  pub Shares-two : Shares (leeches a.classes a.demand_of) (c - sum_values one) two
  Shares-two = second-Shares c a.classes a.demand_of b a.ascending a.in_range a.demand_fits

  pub result : s ≡ record {
    allocations = extend one two;
    total_allocated = sum_values (extend one two);
    unused = c - sum_values (extend one two);
  }
  result = a.returns ∙ share_out-eq c a.classes a.demand_of b a.ascending a.in_range a.demand_fits

  pub total_asked : sum_values (extend one two) ≡ min c (sum_of (λ d. d.rate) ds)
  total_asked =
      both-asked c a.classes a.demand_of b a.ascending a.in_range a.demand_fits
      ∙ ap (min c) a.total_asked

  -- The entries of a contributor and of a leech.
  abbrev pub entry_of : ℕ → ℕ → Entry
  entry_of k w = record { id = k; demand = get_or_zero k a.demand_of; weight = w }

  pub contributor_entry :
      (p : Participant) (w : ℕ)
      → p ∈ ps
      → p.participation ≡ contributing w
      → (rate_of s p.id ≡ get_or_zero p.id one)
        × (entry_of p.id w ∈ contributors a.classes a.demand_of)
  contributor_entry p w mem e =
      let held = a.registered.listed p mem ∙ ap some e in
      (
        ap (λ t. rate_of t p.id) a.returns
            ∙ contributor_rate c a.classes a.demand_of b a.ascending a.in_range a.demand_fits p.id w
                held,
        mem-contributors a.demand_of p.id w a.classes held,
      )

  pub leech_entry :
      (p : Participant)
      → p ∈ ps
      → p.participation ≡ leeching
      → (rate_of s p.id ≡ get_or_zero p.id two) × (entry_of p.id 1 ∈ leeches a.classes a.demand_of)
  leech_entry p mem e =
      let held = a.registered.listed p mem ∙ ap some e in
      (
        ap (λ t. rate_of t p.id) a.returns
            ∙ leech_rate c a.classes a.demand_of b a.ascending a.in_range a.demand_fits p.id held,
        mem-leeches a.demand_of p.id a.classes held,
      )

  pub asked_rate : (d : Demand) → d ∈ ds → get_or_zero d.participant a.demand_of ≡ d.rate
  asked_rate d mem = rate-of_lookup d.participant d.rate a.demand_of (a.collected.listed d mem)

  -- Nobody has more than the map of demands says.
  pub within :
      (p : Participant) (x : Participation)
      → p ∈ ps
      → p.participation ≡ x
      → rate_of s p.id ≤ get_or_zero p.id a.demand_of
  within p (contributing w) mem e =
      let (r, h) = contributor_entry p w mem e in omega (arith, r, Shares-one.capped _ h)
  within p leeching mem e =
      let (r, h) = leech_entry p mem e in omega (arith, r, Shares-two.capped _ h)
