-- ===== src/Fetch/Exec/Attempt.antt =====
-- `download_attempt` of server/crates/sn-fetch/src/exec.rs. What the network and the file system do
-- during the attempt is the record `Surroundings`; an error of the HTTP library is of type `H`, one of
-- the operating system of type `I`.
use spider_net.Prelude.{
  ℕ, ◌+◌, ◌≡◌, ◌⊎◌, inl, inr, refl, Bool, List, [], ◌++◌, Option, none, some, if◌then◌else◌, ◌==◌,
  length, length-append, wrap64, Bool-cases, ==→≡, wrap64-add,
}
use spider_net.Fetch.Types.{ByteRange, len}
use spider_net.Fetch.Error.{FetchError, http, io, range_rejected, segment_length_mismatch}

-- The body of a response as the loop over its chunks meets it.
pub data Body (H I : Type 0) : Type 0 where
  ended : Body H I
  chunk : List ℕ → Body H I → Body H I
  chunk_lost : H → Body H I
  write_lost : I → Body H I

-- What `send` and `error_for_status` give.
pub data Response (H : Type 0) : Type 0 where
  refused : H → Response H
  answered : ℕ → Response H

pub record Surroundings (H I : Type 0) : Type 0 where
  pub response : Response H
  pub create_fault : Option I
  pub body : Body H I
  pub flush_fault : Option I
  -- Whether removing the part file succeeds.
  pub removes : Bool

pub data Attempted (H I : Type 0) : Type 0 where
  fetched : ℕ → Attempted H I
  failed : FetchError H I → Attempted H I

-- The result of an attempt and the part file after it.
pub record Attempt (H I : Type 0) : Type 0 where
  pub result : Attempted H I
  pub part : Option (List ℕ)

-- Best-effort removal of the part file.
unfoldable pub remove_part_file : Bool → Option (List ℕ) → Option (List ℕ)
remove_part_file removes part = if removes then none else part

module _ {H I : Type 0} (exit index : ℕ) (range : ByteRange) where
  -- The test of the length after the last chunk.
  unfoldable pub check_length : Surroundings H I → List ℕ → ℕ → Attempt H I
  check_length env content written =
      if written == len range
      then record { result = fetched written; part = some content }
      else record {
        result = failed (segment_length_mismatch index written (len range));
        part = remove_part_file env.removes (some content);
      }

  unfoldable pub flush : Surroundings H I → List ℕ → ℕ → Attempt H I
  flush env content written = elim env.flush_fault [
    | none ↦ check_length env content written
    | some e ↦ record { result = failed (io e); part = some content }
  ]

  -- The loop over the chunks, with the file's content and the bytes counted so far.
  unfoldable pub write_chunks : Surroundings H I → Body H I → List ℕ → ℕ → Attempt H I
  write_chunks env ended content written = flush env content written
  write_chunks env (chunk bytes body) content written =
      write_chunks env body (content ++ bytes) (wrap64 (written + length bytes))
  write_chunks env (chunk_lost e) content written = record {
    result = failed (http e);
    part = some content;
  }
  write_chunks env (write_lost e) content written = record {
    result = failed (io e);
    part = some content;
  }

  unfoldable pub create : Surroundings H I → Option (List ℕ) → Attempt H I
  create env part = elim env.create_fault [
    | none ↦ write_chunks env env.body [] 0
    | some e ↦ record { result = failed (io e); part = part }
  ]

  unfoldable pub check_status : Surroundings H I → Option (List ℕ) → ℕ → Attempt H I
  check_status env part status =
      if status == 206
      then create env part
      else record { result = failed (range_rejected exit index status); part = part }

  -- `download_attempt`, from the part file that an earlier attempt may have left.
  unfoldable pub download_attempt : Surroundings H I → Option (List ℕ) → Attempt H I
  download_attempt env part = elim env.response [
    | refused e ↦ record { result = failed (http e); part = part }
    | answered status ↦ check_status env part status
  ]

  -- An attempt fails with one of four errors, and if it succeeds the part file is as long as the range.
  abbrev pub Honest : Attempted H I → Option (List ℕ) → Type 0
  Honest (fetched bytes) part =
      (bytes ≡ len range)
      × ((content : List ℕ) × (part ≡ some content) × (bytes ≡ wrap64 (length content)))
  Honest (failed e) part =
      ((h : H) × (e ≡ http h))
      ⊎ (((i : I) × (e ≡ io i))
          ⊎ (((status : ℕ) × (e ≡ range_rejected exit index status))
              ⊎ ((got : ℕ) × (e ≡ segment_length_mismatch index got (len range)))))

  check_length-Honest :
      (env : Surroundings H I) (content : List ℕ) (written : ℕ)
      → written ≡ wrap64 (length content)
      → Honest (check_length env content written).result (check_length env content written).part
  unfolding check_length
  check_length-Honest env content written h = elim (Bool-cases (written == len range)) [
    | inl full ↦ rw full (==→≡ written (len range) full, (content, refl, h))
    | inr short ↦ rw short (inr (inr (inr (written, refl))))
  ]

  flush-Honest :
      (env : Surroundings H I) (content : List ℕ) (written : ℕ)
      → written ≡ wrap64 (length content)
      → Honest (flush env content written).result (flush env content written).part
  unfolding flush
  flush-Honest env content written h = flushed env.flush_fault
    where
      flushed :
          (fault : Option I)
          → (let a = (elim fault as (λ f. Attempt H I) [
            | none ↦ check_length env content written
            | some e ↦ record { result = failed (io e); part = some content }
          ]) in
              Honest a.result a.part)
      flushed none = check_length-Honest env content written h
      flushed (some e) = inr (inl (e, refl))

  write_chunks-Honest :
      (env : Surroundings H I) (body : Body H I) (content : List ℕ) (written : ℕ)
      → written ≡ wrap64 (length content)
      → Honest
          (write_chunks env body content written).result
          (write_chunks env body content written).part
  unfolding write_chunks
  write_chunks-Honest env ended content written h = flush-Honest env content written h
  write_chunks-Honest env (chunk bytes body) content written h =
      write_chunks-Honest env body (content ++ bytes) (wrap64 (written + length bytes))
        (rw (h, length-append content bytes) (wrap64-add (length content) (length bytes)))
  write_chunks-Honest env (chunk_lost e) content written h = inl (e, refl)
  write_chunks-Honest env (write_lost e) content written h = inr (inl (e, refl))

  create-Honest :
      (env : Surroundings H I) (part : Option (List ℕ))
      → Honest (create env part).result (create env part).part
  unfolding create wrap64
  create-Honest env part = created env.create_fault
    where
      created :
          (fault : Option I)
          → (let a = (elim fault as (λ f. Attempt H I) [
            | none ↦ write_chunks env env.body [] 0
            | some e ↦ record { result = failed (io e); part = part }
          ]) in
              Honest a.result a.part)
      created none = write_chunks-Honest env env.body [] 0 refl
      created (some e) = inr (inl (e, refl))

  check_status-Honest :
      (env : Surroundings H I) (part : Option (List ℕ)) (status : ℕ)
      → Honest (check_status env part status).result (check_status env part status).part
  unfolding check_status
  check_status-Honest env part status = elim (Bool-cases (status == 206)) [
    | inl partial ↦ rw partial (create-Honest env part)
    | inr other ↦ rw other (inr (inr (inl (status, refl))))
  ]

  -- Whatever the network and the file system do, an attempt that succeeds reports exactly the length of
  -- the range and leaves a part file of that length (counted in 64 bits); an attempt that fails does so
  -- with an error of the HTTP library, of the operating system, a rejected range or a wrong length.
  pub download_attempt-Honest :
      (env : Surroundings H I) (part : Option (List ℕ))
      → Honest (download_attempt env part).result (download_attempt env part).part
  unfolding download_attempt
  download_attempt-Honest env part = answer env.response
    where
      answer :
          (response : Response H)
          → (let a = (elim response as (λ r. Attempt H I) [
            | refused e ↦ record { result = failed (http e); part = part }
            | answered status ↦ check_status env part status
          ]) in
              Honest a.result a.part)
      answer (refused e) = inl (e, refl)
      answer (answered status) = check_status-Honest env part status
