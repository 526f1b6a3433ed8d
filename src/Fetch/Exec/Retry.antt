-- ===== src/Fetch/Exec/Retry.antt =====
-- `download_with_retry` of server/crates/sn-fetch/src/exec.rs, one segment task, as a machine that
-- takes one turn of the loop at a time, and the events of progress.rs that it sends. The network, the
-- clock and the failures that the other tasks mark meanwhile are given per attempt. Log output is left
-- out. The part file of the code is named after the segment's index, so no other task touches it.
pub mod Outcome
use spider_net.Prelude.{
  ℕ, zero, suc, ◌+◌, ◌-◌, ◌≤◌, Bool, true, false, List, [], ◌∷◌, Option, none, some, if◌then◌else◌,
  leb, wrap32,
}
use spider_net.Prelude.TreeMap.{lookup}
use spider_net.Fetch.Types.{ByteRange}
use spider_net.Fetch.Error.{
  FetchError, HttpErrors, is_retryable, unknown_exit, segment_attempts_exhausted,
}
use spider_net.Fetch.Exec.Selector.{ExitSelector, mark_failed, pick_retry}
use spider_net.Fetch.Exec.Attempt.{
  Surroundings, Attempted, fetched, failed, Attempt, download_attempt, remove_part_file,
}

-- `ProgressEvent`, those of one segment; a failure carries the error instead of its text.
pub data ProgressEvent (H I : Type 0) : Type 0 where
  segment_started : ℕ → ℕ → ℕ → ProgressEvent H I
  segment_finished : ℕ → ℕ → ℕ → ℕ → ProgressEvent H I
  segment_failed : ℕ → ℕ → ℕ → FetchError H I → ProgressEvent H I

-- `SegmentAttemptStats`.
pub record SegmentAttemptStats : Type 0 where
  pub index : ℕ
  pub exit : ℕ
  pub bytes : ℕ
  pub duration : ℕ
  pub attempts : ℕ

-- `SegmentTask` with the policy's `max_attempts`; `clients` maps an exit to its client.
pub record SegmentTask (C : Type 0) : Type 0 where
  pub index : ℕ
  pub range : ByteRange
  pub planned_exit : ℕ
  pub clients : List (ℕ × C)
  pub max_attempts : ℕ

-- What is outside of the task: the surroundings of each attempt by a client, the clock at the end of an
-- attempt, and the failures that other tasks have marked during it.
pub record World (C H I : Type 0) : Type 0 where
  pub attempts : ℕ → C → Surroundings H I
  pub clock : ℕ → ℕ
  pub others : ℕ → List (ℕ × ℕ)

-- The variables of the loop, the shared selector, the part file and the events, the latest first.
pub record Progress (H I : Type 0) : Type 0 where
  pub attempt : ℕ
  pub exit : ℕ
  pub selector : ExitSelector
  pub part : Option (List ℕ)
  pub events : List (ProgressEvent H I)

pub data Verdict (H I : Type 0) : Type 0 where
  done : SegmentAttemptStats → Verdict H I
  aborted : FetchError H I → Verdict H I

-- One turn of the loop goes on to the next or ends with the state it leaves.
pub data Turn (H I : Type 0) : Type 0 where
  again : Progress H I → Turn H I
  over : Verdict H I → Progress H I → Turn H I

-- The failures that other tasks mark.
unfoldable pub mark_all : ExitSelector → List (ℕ × ℕ) → ExitSelector
mark_all s [] = s
mark_all s (mark ∷ marks) = mark_all (mark_failed s mark.0 mark.1) marks

module _ {C H I : Type 0} (hs : HttpErrors H) (task : SegmentTask C) (world : World C H I) where
  -- The attempt succeeded.
  unfoldable pub succeed : Progress H I → Option (List ℕ) → ℕ → Turn H I
  succeed p part bytes =
      let duration = world.clock p.attempt - world.clock 0 in
      over
        (done (record {
          index = task.index;
          exit = p.exit;
          bytes = bytes;
          duration = duration;
          attempts = p.attempt;
        }))
        (record p {
          part = part;
          events = segment_finished task.index p.exit bytes duration ∷ p.events;
        })

  -- The attempt failed with an error that another attempt may avoid; the part file is removed.
  unfoldable pub retry : Progress H I → FetchError H I → Turn H I
  retry p e =
      let marked = record p { selector = mark_failed p.selector p.exit (world.clock p.attempt) } in
      if leb task.max_attempts p.attempt
      then over (aborted (segment_attempts_exhausted task.index p.attempt e)) marked
      else again (record marked { exit = pick_retry marked.selector p.exit })

  unfoldable pub fail : Progress H I → Bool → FetchError H I → Turn H I
  fail p retryable e = if retryable then retry p e else over (aborted e) p

  unfoldable pub conclude : Progress H I → Bool → Option (List ℕ) → Attempted H I → Turn H I
  conclude p removes part (fetched bytes) = succeed p part bytes
  conclude p removes part (failed e) =
      fail
        (record p {
          part = remove_part_file removes part;
          events = segment_failed task.index p.exit p.attempt e ∷ p.events;
        })
        (is_retryable hs e) e

  unfoldable pub try_client : Progress H I → C → Turn H I
  try_client p client =
      let env = world.attempts p.attempt client in
      let attempt = download_attempt p.exit task.index task.range env p.part in
      conclude
        (record p {
          selector = mark_all p.selector (world.others p.attempt);
          events = segment_started task.index p.exit p.attempt ∷ p.events;
        })
        env.removes attempt.part attempt.result

  unfoldable pub with_client : Progress H I → Option C → Turn H I
  with_client p none = over (aborted (unknown_exit p.exit)) p
  with_client p (some client) = try_client p client

  -- One turn of the loop.
  unfoldable pub turn : Progress H I → Turn H I
  turn p =
      let next = record p { attempt = wrap32 (p.attempt + 1) } in
      with_client next (lookup p.exit task.clients)

  -- The loop, or nothing if `fuel` turns are not enough.
  unfoldable pub turns : ℕ → Turn H I → Option (Verdict H I × Progress H I)
  turns fuel (over verdict p) = some (verdict, p)
  turns zero (again p) = none
  turns (suc fuel) (again p) = turns fuel (turn p)

  -- `download_with_retry` with the registry's ids and marks in `selector`.
  unfoldable pub download_with_retry : ExitSelector → Option (Verdict H I × Progress H I)
  download_with_retry selector = turns task.max_attempts (
      again (record {
        attempt = 0;
        exit = task.planned_exit;
        selector = selector;
        part = none;
        events = [];
      }))
