-- ===== src/Fetch/Exec/Tests.antt =====
-- Runs of the retry loop, and the properties at these runs.
use spider_net.Prelude.TreeMap.{lookup, insert}
use spider_net.Prelude.{
  ℕ, wrap32, wrap64, ◌*◌, if◌then◌else◌, ◌==◌, ◌≡◌, ◌≢◌, refl, ◌⊎◌, [], ◌∷◌, none, some, true, All,
  ◌∈◌, arith,
}
use spider_net.Fetch.Types.{ByteRange, len}
use spider_net.Fetch.Error.{HttpErrors, http, is_retryable}
use spider_net.Fetch.Exec.Selector.{
  ExitSelector, mark_failed, best_of, better, prefer, or_avoid, pick_retry, NoWorse,
  pick_retry-NoWorse,
}
use spider_net.Fetch.Exec.Attempt.{
  Surroundings, refused, answered, ended, chunk, check_status, create, write_chunks, flush,
  check_length, remove_part_file, download_attempt, Honest, download_attempt-Honest,
}
use spider_net.Fetch.Exec.Retry.{
  SegmentTask, World, Verdict, Progress, download_with_retry, done, segment_started,
  segment_finished, segment_failed, turns, turn, with_client, try_client, conclude, fail, retry,
  succeed, mark_all,
}
use spider_net.Fetch.Exec.Retry.Outcome.{Sound, download_with_retry-Sound}

abbrev selector : ExitSelector
selector = record { ids = 1 ∷ 2 ∷ 3 ∷ []; last_failed = (1, 40) ∷ (2, 50) ∷ (3, 30) ∷ [] }

pick_retry-NoWorse_example :
    ((pick_retry selector 3 ≡ 3) × All (λ (id : ℕ). id ≡ 3) (1 ∷ 2 ∷ 3 ∷ []))
    ⊎ ((pick_retry selector 3 ∈ 1 ∷ 2 ∷ 3 ∷ [])
        × (pick_retry selector 3 ≢ 3)
        × All
            (λ (id : ℕ). (id ≡ 3) ⊎ NoWorse selector.last_failed (pick_retry selector 3) id)
            (1 ∷ 2 ∷ 3 ∷ []))
pick_retry-NoWorse_example =
    pick_retry-NoWorse selector 3 0 (omega arith, (omega arith, (omega arith, tt)))

-- An error of the HTTP library is its status.
abbrev http_errors : HttpErrors ℕ
http_errors = record { is_status = λ status. true; status = λ status. some status }

abbrev range : ByteRange
range = record { start = 4; end_inclusive = 6 }

-- The exit of client 10 answers with server errors, that of client 20 with the range.
surroundings : ℕ → ℕ → Surroundings ℕ ℕ
surroundings attempt client = record {
  response = if client == 20 then answered 206 else refused 503;
  create_fault = none;
  body = chunk (7 ∷ 8 ∷ []) (chunk (9 ∷ []) ended);
  flush_fault = none;
  removes = true;
}

download_attempt-Honest_example :
    Honest {H = ℕ} {I = ℕ} 2 0 range
      (download_attempt 2 0 range (surroundings 1 20) none).result
      (download_attempt 2 0 range (surroundings 1 20) none).part
download_attempt-Honest_example = download_attempt-Honest 2 0 range (surroundings 1 20) none

abbrev task : SegmentTask ℕ
task = record {
  index = 0;
  range = range;
  planned_exit = 1;
  clients = (1, 10) ∷ (2, 20) ∷ [];
  max_attempts = 3;
}

abbrev world : World ℕ ℕ ℕ
world = record { attempts = surroundings; clock = λ attempt. attempt * 5; others = λ attempt. [] }

abbrev fresh : ExitSelector
fresh = record { ids = 1 ∷ 2 ∷ []; last_failed = [] }

download_with_retry-Sound_example :
    (verdict : Verdict ℕ ℕ) × (p : Progress ℕ ℕ) × (download_with_retry http_errors task world fresh
      ≡ some (verdict, p))
    × Sound http_errors task world verdict p
unfolding lookup
download_with_retry-Sound_example =
    download_with_retry-Sound http_errors task world fresh (omega arith, (omega arith, tt))
      ((10, refl), ((20, refl), tt)) (10, refl) (omega arith) (omega arith)

-- The first exit fails, the second one serves the range.
retried :
    download_with_retry http_errors task world fresh
    ≡ some (
      done (record { index = 0; exit = 2; bytes = 3; duration = 10; attempts = 2 }),
      record {
        attempt = 2;
        exit = 2;
        selector = record { ids = 1 ∷ 2 ∷ []; last_failed = (1, 5) ∷ [] };
        part = some (7 ∷ 8 ∷ 9 ∷ []);
        events =
            segment_finished 0 2 3 10
            ∷ segment_started 0 2 2
            ∷ segment_failed 0 1 1 (http 503)
            ∷ segment_started 0 1 1
            ∷ [];
      },
    )
unfolding surroundings download_with_retry turns turn with_client try_client conclude fail retry
    succeed mark_all mark_failed pick_retry best_of better prefer or_avoid is_retryable
    download_attempt check_status create write_chunks flush check_length remove_part_file len wrap64
    wrap32 lookup insert
retried = refl
