-- ===== src/Fetch/Exec/Retry/Outcome.antt =====
-- How `download_with_retry` ends.
use spider_net.Prelude.{
  ℕ, zero, suc, ◌+◌, ◌≤◌, ◌<◌, ◌≡◌, ◌⊎◌, inl, inr, refl, sym, ap, subst, Bool, true, false, List,
  [], ◌∷◌, Option, some, leb, length, wrap32, wrap64, u32_mod, ◌∙◌, wrap32-eq_of_lt, Bool-cases,
  All, All-mem, arith,
}
use spider_net.Prelude.TreeMap.{lookup}
use spider_net.Fetch.Types.{len}
use spider_net.Fetch.Error.{
  FetchError, HttpErrors, is_retryable, http, range_rejected, segment_attempts_exhausted,
}
use spider_net.Fetch.Exec.Selector.{
  ExitSelector, mark_failed, pick_retry, Rising, pick_retry-NoWorse,
}
use spider_net.Fetch.Exec.Attempt.{
  Attempted, fetched, failed, Honest, download_attempt-Honest, remove_part_file,
}
use spider_net.Fetch.Exec.Retry.{
  SegmentTask, World, Progress, Verdict, done, aborted, Turn, again, over, mark_all, succeed, retry,
  fail, conclude, try_client, with_client, turn, turns, download_with_retry,
}

mark_all-ids : (s : ExitSelector) (marks : List (ℕ × ℕ)) → (mark_all s marks).ids ≡ s.ids
unfolding mark_all mark_failed
mark_all-ids s [] = refl
mark_all-ids s (mark ∷ marks) = mark_all-ids (mark_failed s mark.0 mark.1) marks

module _ {C H I : Type 0} (hs : HttpErrors H) (task : SegmentTask C) (world : World C H I) where
  -- There is a client for the exit.
  abbrev pub Known : ℕ → Type 0
  Known exit = (client : C) × (lookup exit task.clients ≡ some client)

  -- An error that another attempt does not avoid: a status of the HTTP library that is no server error,
  -- or an answer that is neither the range nor a server error.
  abbrev pub Permanent : FetchError H I → Type 0
  Permanent e =
      (is_retryable hs e ≡ false)
      × (((h : H) × (e ≡ http h))
          ⊎ ((exit : ℕ) × (status : ℕ) × (e ≡ range_rejected exit task.index status)))

  -- All attempts are used up, the last by an error that another attempt may avoid.
  abbrev pub Exhausted : FetchError H I → Type 0
  Exhausted e =
      (last : FetchError H I) × (e ≡ segment_attempts_exhausted task.index task.max_attempts last)
      × (is_retryable hs last ≡ true)

  -- A task ends well with a part file of the length of the range after at most `max_attempts` attempts.
  abbrev pub Sound : Verdict H I → Progress H I → Type 0
  Sound (done stats) p =
      (stats.bytes ≡ len task.range)
      × ((content : List ℕ) × (p.part ≡ some content) × (stats.bytes ≡ wrap64 (length content)))
      × (stats.index ≡ task.index)
      × (1 ≤ stats.attempts)
      × (stats.attempts ≤ task.max_attempts)
  Sound (aborted e) p = Exhausted e ⊎ Permanent e

  permanent :
      (exit : ℕ) (part : Option (List ℕ)) (e : FetchError H I)
      → Honest exit task.index task.range (failed e) part
      → is_retryable hs e ≡ false
      → Permanent e
  unfolding is_retryable
  permanent exit part e (inl (h, same)) r = (r, inl (h, same))
  permanent exit part e (inr (inl (i, same))) r = absurd (temporary (ap (is_retryable hs) same))
    where
      temporary : is_retryable hs e ≡ true → ⊥
      temporary t = cc
  permanent exit part e (inr (inr (inl (status, same)))) r = (r, inr (exit, status, same))
  permanent exit part e (inr (inr (inr (got, same)))) r =
      absurd (temporary (ap (is_retryable hs) same))
    where
      temporary : is_retryable hs e ≡ true → ⊥
      temporary t = cc

  module _ (ids : List ℕ) (rising : Rising 0 ids) (known : All Known ids) where
    -- The loop may go on after `n` turns.
    abbrev Ready : ℕ → Progress H I → Type 0
    Ready n p = (p.attempt ≡ n) × (n < task.max_attempts) × (p.selector.ids ≡ ids) × Known p.exit

    abbrev Good : ℕ → Turn H I → Type 0
    Good n (again p) = Ready n p
    Good n (over verdict p) = Sound verdict p

    pick_retry-Known :
        (s : ExitSelector) (exit : ℕ) → s.ids ≡ ids → Known exit → Known (pick_retry s exit)
    pick_retry-Known s exit same k = elim (pick_retry-NoWorse s exit 0 (rw same rising)) [
      | inl (e, all) ↦ rw e k
      | inr (m, d, all) ↦
          All-mem Known s.ids (pick_retry s exit) (subst (All Known) (sym same) known) m
    ]

    retry-Good :
        (n : ℕ) (p : Progress H I) (e : FetchError H I)
        → p.attempt ≡ n
        → n ≤ task.max_attempts
        → p.selector.ids ≡ ids
        → Known p.exit
        → is_retryable hs e ≡ true
        → Good n (retry hs task world p e)
    unfolding retry mark_failed
    retry-Good n p e a bound same k r = elim (Bool-cases (leb task.max_attempts p.attempt)) [
      | inl last ↦
          let full : p.attempt ≡ task.max_attempts = ground (arith, last, a, bound) in
          rw last (inl (e, ap (λ m. segment_attempts_exhausted task.index m e) full, r))
      | inr more ↦
          let marked = mark_failed p.selector p.exit (world.clock p.attempt) in
          rw more (a, ground (arith, more, a), same, pick_retry-Known marked p.exit same k)
    ]

    fail-Good :
        (n : ℕ) (p : Progress H I) (e : FetchError H I)
        → p.attempt ≡ suc n
        → n < task.max_attempts
        → p.selector.ids ≡ ids
        → Known p.exit
        → (is_retryable hs e ≡ false → Permanent e)
        → Good (suc n) (fail hs task world p (is_retryable hs e) e)
    unfolding fail
    fail-Good n p e a bound same k stop = elim (Bool-cases (is_retryable hs e)) [
      | inl temporary ↦
          rw temporary (retry-Good (suc n) p e a (omega (arith, bound)) same k temporary)
      | inr lasting ↦ rw lasting (inr (stop lasting))
    ]

    conclude-Good :
        (n : ℕ) (p : Progress H I) (removes : Bool) (part : Option (List ℕ))
        (result : Attempted H I)
        → p.attempt ≡ suc n
        → n < task.max_attempts
        → p.selector.ids ≡ ids
        → Known p.exit
        → Honest p.exit task.index task.range result part
        → Good (suc n) (conclude hs task world p removes part result)
    unfolding conclude succeed remove_part_file
    conclude-Good n p removes part (fetched bytes) a bound same k (full, content) =
        (full, content, refl, omega (arith, a), omega (arith, a, bound))
    conclude-Good n p removes part (failed e) a bound same k honest =
        fail-Good n _ e a bound same k (permanent p.exit part e honest)

    turn-Good :
        (n : ℕ) (p : Progress H I)
        → task.max_attempts < u32_mod
        → Ready n p
        → Good (suc n) (turn hs task world p)
    unfolding turn with_client try_client
    turn-Good n p fits (a, more, same, (client, k)) =
        let next : wrap32 (p.attempt + 1) ≡ suc n =
          omega (
            arith,
            a,
            more,
            fits,
            wrap32-eq_of_lt (p.attempt + 1) (omega (arith, a, more, fits)),
          ) in
        rw k (
          conclude-Good n _ _ _ _ next more
            (mark_all-ids p.selector (world.others (wrap32 (p.attempt + 1))) ∙ same) (client, k)
            (download_attempt-Honest p.exit task.index task.range
              (world.attempts (wrap32 (p.attempt + 1)) client) p.part))

    -- Enough fuel for the turns that are left.
    turns-Sound :
        (fuel n : ℕ) (t : Turn H I)
        → task.max_attempts < u32_mod
        → task.max_attempts ≤ fuel + n
        → Good n t
        → (verdict : Verdict H I) × (p : Progress H I) × (turns hs task world fuel t
            ≡ some (verdict, p))
          × Sound verdict p
    unfolding turns
    turns-Sound zero n (over verdict p) fits enough good = (verdict, p, refl, good)
    turns-Sound (suc fuel) n (over verdict p) fits enough good = (verdict, p, refl, good)
    turns-Sound zero n (again p) fits enough good = absurd (omega (arith, enough, good.1))
    turns-Sound (suc fuel) n (again p) fits enough good =
        turns-Sound fuel (suc n) (turn hs task world p) fits (omega (arith, enough))
          (turn-Good n p fits good)

-- The retry loop always ends, whatever the network, the file system and the other tasks do: with a part
-- file exactly as long as the range (lengths counted in 64 bits) after between 1 and `max_attempts`
-- attempts; or with the error that all `max_attempts` attempts are used up, the last one by an error
-- that another attempt may avoid; or with an error that none avoids. It never ends for an unknown exit.
-- The ids ascend, the planned exit and all the ids have a client, and `max_attempts` is at
-- least 1 and below 2 ^ 32.
pub download_with_retry-Sound :
    {C H I : Type 0} (hs : HttpErrors H) (task : SegmentTask C) (world : World C H I)
    (selector : ExitSelector)
    → Rising 0 selector.ids
    → All (Known hs task world) selector.ids
    → Known hs task world task.planned_exit
    → 1 ≤ task.max_attempts
    → task.max_attempts < u32_mod
    → (verdict : Verdict H I) × (p : Progress H I) × (download_with_retry hs task world selector
        ≡ some (verdict, p))
      × Sound hs task world verdict p
unfolding download_with_retry
download_with_retry-Sound hs task world selector rising known planned some_try fits =
    turns-Sound hs task world selector.ids rising known task.max_attempts 0 _ fits (omega arith)
      (refl, some_try, refl, planned)
