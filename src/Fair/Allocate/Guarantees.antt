-- ===== src/Fair/Allocate/Guarantees.antt =====
-- What `allocate` guarantees of the shares that it returns.
use spider_net.Prelude.{
  ok, ℕ, ◌+◌, ◌*◌, ◌≤◌, ◌<◌, ◌≡◌, ◌≢◌, refl, sym, ap, ◌∙◌, List, arith, All, ◌∈◌, u64_mod, sum_of,
  min,
}
use spider_net.Prelude.TreeMap.{lookup, get_or_zero, get_or_zero-le, sum_values}
use spider_net.Fair.Types.{contributing, leeching, Participant, Demand, FairShare, rate_of}
use spider_net.Fair.MaxMin.Entries.{demands}
use spider_net.Fair.Allocate.{allocate, contributors}
use spider_net.Fair.Allocate.Input.{IsParticipant, IsDemand, Accepted, allocate-Accepted}
use spider_net.Fair.Allocate.Success.{phase_two}
use spider_net.Fair.Allocate.Rates.{
  Shares-one, Shares-two, result, total_asked, contributor_entry, leech_entry, asked_rate, within,
}

module _ (c : ℕ) (ps : List Participant) (ds : List Demand) (s : FairShare)
    (vp : All IsParticipant ps) (vd : All IsDemand ds) (b : c < u64_mod)
    (run : allocate c ps ds ≡ ok s) where
  a : Accepted c ps ds s
  a = allocate-Accepted c ps ds s vp vd run

  -- For participants, demands and a capacity within their machine ranges, an accepted call
  -- allots in all the lesser of the capacity and the sum of the demanded rates: capacity stays
  -- unused only if every demand is met. The totals of the result are the sum of its rates and
  -- what is left of the capacity.
  pub allocate_total :
      (s.total_allocated ≡ min c (sum_of (λ d. d.rate) ds))
      × (s.total_allocated + s.unused ≡ c)
      × (sum_values s.allocations ≡ s.total_allocated)
  allocate_total =
      let r = result c ps ds s b a in
      let t = total_asked c ps ds s b a in
      let total = ap (λ x. x.total_allocated) r in
      (
        total ∙ t,
        omega (arith, total, t, ap (λ x. x.unused) r),
        ap (λ x. sum_values x.allocations) r ∙ sym total,
      )

  -- In an accepted call within the machine ranges, a participant is allotted at most what it
  -- demands, and nothing if no demand is its own.
  pub allocate_capped :
      (p : Participant)
      → p ∈ ps
      → ((d : Demand) → d ∈ ds → d.participant ≡ p.id → rate_of s p.id ≤ d.rate)
        × (All (λ d. d.participant ≢ p.id) ds → rate_of s p.id ≡ 0)
  unfolding get_or_zero lookup
  allocate_capped p mem =
      let most = within c ps ds s b a p p.participation mem refl in
      (
        λ d hd own.
            omega
              (arith, most, ap (λ k. get_or_zero k a.demand_of) own, asked_rate c ps ds s b a d hd),
        λ others. ground (arith, most, a.collected.kept p.id others),
      )

  -- Weighted max-min fairness among the contributors of an accepted call within the machine
  -- ranges: if `p` gets less than it demands, then no contributor `q` has, per unit of weight, more
  -- than `p` would have with one unit added, up to one unit of rounding for `q`.
  pub contributors_fair :
      (p q : Participant) (wp wq : ℕ) (d : Demand)
      → p ∈ ps
      → q ∈ ps
      → p.participation ≡ contributing wp
      → q.participation ≡ contributing wq
      → d ∈ ds
      → d.participant ≡ p.id
      → rate_of s p.id < d.rate
      → rate_of s q.id * wp < (rate_of s p.id + 1) * wq + wp
  contributors_fair p q wp wq d hp hq ep eq hd own short =
      let (rp, mp) = contributor_entry c ps ds s b a p wp hp ep in
      let (rq, mq) = contributor_entry c ps ds s b a q wq hq eq in
      let demand = ap (λ k. get_or_zero k a.demand_of) own in
      rw (rp, rq)
        ((Shares-one c ps ds s b a).fair _ _ mp mq
          (omega (arith, rp, demand, short, asked_rate c ps ds s b a d hd)))

  -- Leeches share evenly: in an accepted call within the machine ranges, if the leech `p` gets less
  -- than it demands, then no leech has over one unit more than `p`.
  pub leeches_fair :
      (p q : Participant) (d : Demand)
      → p ∈ ps
      → q ∈ ps
      → p.participation ≡ leeching
      → q.participation ≡ leeching
      → d ∈ ds
      → d.participant ≡ p.id
      → rate_of s p.id < d.rate
      → rate_of s q.id ≤ rate_of s p.id + 1
  leeches_fair p q d hp hq ep eq hd own short =
      let (rp, mp) = leech_entry c ps ds s b a p hp ep in
      let (rq, mq) = leech_entry c ps ds s b a q hq eq in
      let demand = ap (λ k. get_or_zero k a.demand_of) own in
      omega (
        arith,
        rp,
        rq,
        (Shares-two c ps ds s b a).fair _ _ mp mq
            (omega (arith, rp, demand, short, asked_rate c ps ds s b a d hd)),
      )

  -- Contributors come first: in an accepted call within the machine ranges, if any leech is allotted
  -- anything, then every contributor is allotted all that it demands.
  pub leeches_yield :
      (l q : Participant) (w : ℕ) (d : Demand)
      → l ∈ ps
      → q ∈ ps
      → l.participation ≡ leeching
      → q.participation ≡ contributing w
      → d ∈ ds
      → d.participant ≡ q.id
      → 0 < rate_of s l.id
      → rate_of s q.id ≡ d.rate
  leeches_yield l q w d hl hq el eq hd own some_rate =
      let (rl, ml) = leech_entry c ps ds s b a l hl el in
      let (rq, mq) = contributor_entry c ps ds s b a q w hq eq in
      let demand = ap (λ k. get_or_zero k a.demand_of) own in
      let positive = get_or_zero-le l.id (phase_two c a.classes a.demand_of) in
      let enough : demands (contributors a.classes a.demand_of) ≤ c =
        omega (
          arith,
          rl,
          positive,
          (Shares-two c ps ds s b a).total,
          (Shares-one c ps ds s b a).total,
        ) in
      omega (
        arith,
        rq,
        demand,
        asked_rate c ps ds s b a d hd,
        (Shares-one c ps ds s b a).settled enough _ mq,
      )
