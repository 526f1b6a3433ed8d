-- ===== src/Fetch/Exec/Assemble.antt =====
-- `assemble` and `collect_part_files` of server/crates/sn-fetch/src/exec.rs. What the file system gives is a
-- parameter: the entries of the directory, and the reads of each part. The digest is taken by a hasher with
-- states `S` and digests `D`.
pub mod Order
pub mod Names
pub mod Whole
mod Tests
use Prim.Native.String.{String}
use spider_net.Prelude.{
  ℕ, zero, suc, ◌+◌, ◌-◌, ◌≡◌, Bool, true, false, ◌&&◌, ◌||◌, List, [], ◌∷◌, ◌++◌, map, Option,
  none, some, if◌then◌else◌, ◌==◌, ltb, length, Result, ok, err, ◌>>=◌, u32_mod, wrap64,
}
use mathlib.Core.Option
use spider_net.Prelude.Text.{Text, codes, text_eq, strip_prefix, parse_uint}
use spider_net.Prelude.Text.Decimal.{decimal}
use spider_net.Fetch.Error.{FetchError, io, corrupt_part, total_length_mismatch, hash_mismatch}

-- What is used of the SHA-256 library.
pub record Hasher (S D : Type 0) : Type 0 where
  pub new : S
  pub update : S → List ℕ → S
  pub finalize : S → D
  pub same_digest : D → D → Bool
  pub to_hex : D → String
  -- Nothing changes nothing, and two updates are one.
  pub update-nil : (s : S) → update s [] ≡ s
  pub update-update : (s : S) (a b : List ℕ) → update (update s a) b ≡ update s (a ++ b)

-- One turn of the loop over a part: what is read, and whether the output takes it.
pub record Chunk (I : Type 0) : Type 0 where
  pub read : Result I (List ℕ)
  pub write_fault : Option I

pub record Part (I : Type 0) : Type 0 where
  pub name : Text
  pub open_fault : Option I
  pub chunks : List (Chunk I)

-- An entry of the directory: an error, or a part, whose name need not be UTF-8.
pub data DirEntry (I : Type 0) : Type 0 where
  broken : I → DirEntry I
  no_utf8 : DirEntry I
  entry : Part I → DirEntry I

unfoldable pub strip_suffix : Text → Text → Option Text
strip_suffix suffix [] = if text_eq [] suffix then some [] else none
strip_suffix suffix (c ∷ s) =
    if text_eq (c ∷ s) suffix then some [] else Option.map (λ t. c ∷ t) (strip_suffix suffix s)

-- The name that `part_file` gives a segment's part; `{:06}` fills up with zeros.
unfoldable pub zeros : ℕ → Text
zeros zero = []
zeros (suc n) = 48 ∷ zeros n

unfoldable pub padded : ℕ → Text
padded index = zeros (6 - length (decimal index)) ++ decimal index

unfoldable pub part_name : ℕ → Text
part_name index = codes "seg-" ++ (padded index ++ codes ".part")

-- Whether `collect_part_files` takes a name.
unfoldable pub is_part_name : Text → Bool
is_part_name name = elim (strip_prefix (codes "seg-") name) [
  | none ↦ false
  | some rest ↦ elim (strip_suffix (codes ".part") rest) [
    | none ↦ false
    | some middle ↦ elim (parse_uint u32_mod middle) [ none ↦ false | some index ↦ true ]
  ]
]

unfoldable pub collect_part_files :
    {H I : Type 0} → List (DirEntry I) → Result (FetchError H I) (List (Part I))
collect_part_files [] = ok []
collect_part_files (broken e ∷ entries) = err (io e)
collect_part_files (no_utf8 ∷ entries) = err (corrupt_part (codes "<non-utf8 file name>"))
collect_part_files (entry part ∷ entries) =
    let rest = collect_part_files entries in
    if is_part_name part.name
    then rest >>= (λ parts. ok (part ∷ parts))
    else err (corrupt_part part.name)

-- The order of paths in one directory: that of their names' bytes.
unfoldable pub before : Text → Text → Bool
before [] t = true
before (c ∷ s) [] = false
before (c ∷ s) (d ∷ t) = ltb c d || (c == d && before s t)

unfoldable pub insert_part : {I : Type 0} → Part I → List (Part I) → List (Part I)
insert_part part [] = part ∷ []
insert_part part (p ∷ parts) =
    let rest = insert_part part parts in
    if before part.name p.name then part ∷ p ∷ parts else p ∷ rest

-- `sort`.
unfoldable pub sort_parts : {I : Type 0} → List (Part I) → List (Part I)
sort_parts [] = []
sort_parts (part ∷ parts) = insert_part part (sort_parts parts)

-- The output file, the hasher and the count of the bytes.
pub record Sink (S : Type 0) : Type 0 where
  pub output : List ℕ
  pub hasher : S
  pub total : ℕ

module _ {S D : Type 0} (h : Hasher S D) where
  unfoldable pub put : Sink S → List ℕ → Sink S
  put sink bytes = record {
    output = sink.output ++ bytes;
    hasher = h.update sink.hasher bytes;
    total = wrap64 (sink.total + length bytes);
  }

module _ {H I S D : Type 0} (h : Hasher S D) where
  -- The loop over one part, which ends at an empty read.
  unfoldable pub copy_part : Sink S → List (Chunk I) → Result (FetchError H I) (Sink S)
  copy_part sink [] = ok sink
  copy_part sink (chunk ∷ chunks) = elim chunk.read [
    | err e ↦ err (io e)
    | ok [] ↦ ok sink
    | ok (b ∷ bytes) ↦ elim chunk.write_fault [
      | some e ↦ err (io e)
      | none ↦ copy_part (put h sink (b ∷ bytes)) chunks
    ]
  ]

  unfoldable pub copy_parts : Sink S → List (Part I) → Result (FetchError H I) (Sink S)
  copy_parts sink [] = ok sink
  copy_parts sink (part ∷ parts) = elim part.open_fault [
    | some e ↦ err (io e)
    | none ↦ copy_part sink part.chunks >>= (λ next. copy_parts next parts)
  ]

  unfoldable pub check_digest : Option D → D → Result (FetchError H I) D
  check_digest none digest = ok digest
  check_digest (some expected) digest =
      if h.same_digest digest expected
      then ok digest
      else err (hash_mismatch (h.to_hex expected) (h.to_hex digest))

  -- The checks behind the loop.
  unfoldable pub check : ℕ → Option D → Sink S → Result (FetchError H I) D
  check expected_size expected_digest sink =
      if sink.total == expected_size
      then check_digest expected_digest (h.finalize sink.hasher)
      else err (total_length_mismatch sink.total expected_size)

  -- The flush and the checks, with the output.
  unfoldable pub flushed : Option I → ℕ → Option D → Sink S → Result (FetchError H I) (List ℕ × D)
  flushed (some e) expected_size expected_digest sink = err (io e)
  flushed none expected_size expected_digest sink =
      check expected_size expected_digest sink >>= (λ digest. ok (sink.output, digest))

  -- `assemble` in a directory that could be made and with an output that could be created; the result has the
  -- output file besides the digest.
  unfoldable pub assemble :
      List (DirEntry I) → Option I → ℕ → Option D → Result (FetchError H I) (List ℕ × D)
  assemble entries flush_fault expected_size expected_digest = do
    parts ← collect_part_files entries
    sink ← copy_parts (record { output = []; hasher = h.new; total = 0 }) (sort_parts parts)
    flushed flush_fault expected_size expected_digest sink
