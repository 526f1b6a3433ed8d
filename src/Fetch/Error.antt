-- ===== src/Fetch/Error.antt =====
-- server/crates/sn-fetch/src/error.rs, and `is_retryable` of exec.rs. The errors of the HTTP library
-- and of the operating system are parameters.
use Prim.Native.String.{String}
use spider_net.Prelude.{ℕ, Bool, true, false, not, ◌&&◌, ◌||◌, Option, none, some, leb, ltb}
use spider_net.Prelude.Text.{Text}
use spider_net.Fetch.Types.{PlanFault}

-- What the code asks an error of the HTTP library for.
pub record HttpErrors (H : Type 0) : Type 0 where
  pub is_status : H → Bool
  pub status : H → Option ℕ

-- `FetchError`, over the errors `H` of the HTTP library and `I` of the operating system.
pub data FetchError (H I : Type 0) : Type 0 where
  http : H → FetchError H I
  io : I → FetchError H I
  invalid_url : String → FetchError H I
  zero_file_size : FetchError H I
  segment_length_mismatch : ℕ → ℕ → ℕ → FetchError H I
  range_rejected : ℕ → ℕ → ℕ → FetchError H I
  total_length_mismatch : ℕ → ℕ → FetchError H I
  hash_mismatch : String → String → FetchError H I
  invalid_plan : PlanFault → FetchError H I
  unknown_exit : ℕ → FetchError H I
  corrupt_part : Text → FetchError H I
  invalid_digest : FetchError H I
  segment_attempts_exhausted : ℕ → ℕ → FetchError H I → FetchError H I

-- `StatusCode::is_server_error`: 500 to 599.
abbrev pub is_server_error : Option ℕ → Bool
is_server_error none = false
is_server_error (some status) = leb 500 status && ltb status 600

unfoldable pub is_retryable : {H I : Type 0} → HttpErrors H → FetchError H I → Bool
is_retryable hs (http e) = not (hs.is_status e) || is_server_error (hs.status e)
is_retryable hs (io e) = true
is_retryable hs (segment_length_mismatch index got expected) = true
is_retryable hs (range_rejected exit index status) = leb 500 status
is_retryable hs _ = false
