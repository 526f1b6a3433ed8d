-- ===== src/Exit/Head.antt =====
-- `read_head` of server/crates/sn-exit/src/proxy.rs, on what each read of the stream gives; an error of
-- the operating system is of type `I`.
pub mod Shortest
use spider_net.Prelude.{
  ℕ, zero, suc, ◌+◌, ◌*◌, Bool, true, false, ◌&&◌, ◌||◌, List, [], ◌∷◌, ◌++◌, if◌then◌else◌, ◌==◌,
  Result, ok, err,
}

-- One read of one byte under the deadline.
pub data Reading (I : Type 0) : Type 0 where
  byte : ℕ → Reading I
  closed : Reading I
  late : Reading I
  failed : I → Reading I

-- The errors of `read_head`.
pub data HeadFault (I : Type 0) : Type 0 where
  too_large : HeadFault I
  closed_early : HeadFault I
  timed_out : HeadFault I
  io : I → HeadFault I

-- `MAX_HEAD_BYTES` of parse.rs.
abbrev pub max_head_bytes : ℕ
max_head_bytes = 16 * 1024

abbrev pub terminator : List ℕ
terminator = 13 ∷ 10 ∷ 13 ∷ 10 ∷ []

unfoldable pub same_bytes : List ℕ → List ℕ → Bool
same_bytes [] [] = true
same_bytes [] (y ∷ ys) = false
same_bytes (x ∷ xs) [] = false
same_bytes (x ∷ xs) (y ∷ ys) = x == y && same_bytes xs ys

-- `ends_with` of a slice.
unfoldable pub ends_with : List ℕ → List ℕ → Bool
ends_with [] ending = same_bytes [] ending
ends_with (x ∷ xs) ending = same_bytes (x ∷ xs) ending || ends_with xs ending

module _ {I : Type 0} (stream : ℕ → Reading I) where
  -- The loop, with the room that is left below the limit and the number of the next read.
  unfoldable pub read_loop : ℕ → ℕ → List ℕ → Result (HeadFault I) (List ℕ)
  read_loop zero n head = err too_large
  read_loop (suc room) n head = elim (stream n) [
    | byte b ↦
        let longer = head ++ b ∷ [] in
        let rest = read_loop room (suc n) longer in
        if ends_with longer terminator then ok longer else rest
    | closed ↦ err closed_early
    | late ↦ err timed_out
    | failed e ↦ err (io e)
  ]

  unfoldable pub read_head : Result (HeadFault I) (List ℕ)
  read_head = read_loop max_head_bytes 0 []
