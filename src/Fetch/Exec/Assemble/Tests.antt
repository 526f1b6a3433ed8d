-- ===== src/Fetch/Exec/Assemble/Tests.antt =====
-- Assembling a concrete directory.
use mathlib.Core.List.{Perm, append_assoc, append-nil}
use spider_net.Prelude.{
  All, if◌then◌else◌, ℕ, ◌≡◌, refl, true, List, [], ◌∷◌, ◌++◌, Option, none, some, length, ◌==◌, ok,
  wrap64, arith,
}
use spider_net.Prelude.Text.{codes, text_eq, strip_prefix, is_digit, parse_digits, parse_uint}
use spider_net.Prelude.Text.Decimal.{digits, decimal}
use spider_net.Fetch.Exec.Assemble.{
  Hasher, Chunk, Part, DirEntry, entry, strip_suffix, zeros, padded, part_name, is_part_name,
  before, insert_part, sort_parts, collect_part_files, put, copy_part, copy_parts, check_digest,
  check, flushed, assemble,
}
use spider_net.Fetch.Exec.Assemble.Order.{IsAscending}
use spider_net.Fetch.Exec.Assemble.Names.{IsNamed, IsInOrder, sort_parts-IsInOrder}
use spider_net.Fetch.Exec.Assemble.Whole.{AreParts, contents, assemble-Whole}

-- A hasher that keeps all bytes, with their number for a digest.
abbrev counter : Hasher (List ℕ) ℕ
counter = record {
  new = [];
  update = λ s bytes. s ++ bytes;
  finalize = λ s. length s;
  same_digest = λ a b. a == b;
  to_hex = λ d. "";
  update-nil = λ s. append-nil s;
  update-update = λ s a b. append_assoc s a b;
}

abbrev chunk : List ℕ → Chunk ℕ
chunk bytes = record { read = ok bytes; write_fault = none }

abbrev early : Part ℕ
early = record {
  name = codes "seg-000000.part";
  open_fault = none;
  chunks = chunk (1 ∷ 2 ∷ []) ∷ chunk (3 ∷ []) ∷ chunk [] ∷ [];
}

abbrev late : Part ℕ
late = record { name = codes "seg-000001.part"; open_fault = none; chunks = chunk (4 ∷ []) ∷ [] }

abbrev whole : List ℕ
whole = 1 ∷ 2 ∷ 3 ∷ 4 ∷ []

abbrev directory : List (DirEntry ℕ)
directory = entry late ∷ entry early ∷ []

assembled : assemble {H = ℕ} counter directory none 4 (some 4) ≡ ok (whole, 4)
unfolding assemble collect_part_files is_part_name strip_prefix strip_suffix text_eq parse_uint
    parse_digits is_digit sort_parts insert_part before copy_parts copy_part put wrap64 flushed
    check check_digest
assembled = refl

assemble-Whole_example :
    (parts : List (Part ℕ)) × AreParts directory parts
    × IsAscending (sort_parts parts)
    × (whole ≡ contents (sort_parts parts))
    × (wrap64 (length whole) ≡ 4)
    × (◌≡◌ {A = ℕ} 4 (counter.finalize (counter.update counter.new whole)))
    × ((e : ℕ) → ◌≡◌ {A = Option ℕ} (some 4) (some e) → counter.same_digest 4 e ≡ true)
assemble-Whole_example = assemble-Whole {H = ℕ} counter directory none 4 (some 4) whole 4 assembled

abbrev index_of : Part ℕ → ℕ
index_of part = if text_eq part.name early.name then 0 else 1

late_first : All (IsNamed index_of) (late ∷ early ∷ [])
unfolding text_eq part_name padded decimal digits zeros
late_first = ((refl, omega arith), ((refl, omega arith), tt))

sort_parts-IsInOrder_example :
    Perm (sort_parts (late ∷ early ∷ [])) (late ∷ early ∷ [])
    × IsInOrder index_of (sort_parts (late ∷ early ∷ []))
sort_parts-IsInOrder_example = sort_parts-IsInOrder index_of (late ∷ early ∷ []) late_first

-- From a million on the names grow longer, and the order breaks.
million_first : before (part_name 1000000) (part_name 999999) ≡ true
unfolding before part_name padded decimal digits zeros
million_first = refl
