-- ===== src/Fetch/Exec/Assemble/Whole.antt =====
-- What an assembled file is.
use mathlib.Core.List.{append_assoc, append-nil}
use spider_net.Prelude.{
  ℕ, ◌+◌, ◌≡◌, ◌⊎◌, inl, inr, refl, sym, ap, subst, ◌∙◌, true, List, [], ◌∷◌, ◌++◌, Option, none,
  some, Option-cases, Bool-cases, ◌==◌, ==→≡, length, length-append, Result, ok, err, ok-inj,
  >>=-eq-ok, wrap64, wrap64-add, arith,
}
use spider_net.Fetch.Exec.Assemble.Order.{IsAscending, sort_parts-IsAscending}
use spider_net.Fetch.Exec.Assemble.{
  Hasher, Chunk, Part, DirEntry, broken, no_utf8, entry, is_part_name, sort_parts,
  collect_part_files, Sink, put, copy_part, copy_parts, check_digest, check, flushed, assemble,
}

-- What is read, and the bytes behind it unless it ends the part.
abbrev pub read_then : {I : Type 0} → Result I (List ℕ) → List ℕ → List ℕ
read_then (err e) later = []
read_then (ok []) later = []
read_then (ok (b ∷ bytes)) later = (b ∷ bytes) ++ later

-- The bytes of a part up to the first empty read, and those of several parts.
abbrev pub content : {I : Type 0} → List (Chunk I) → List ℕ
content [] = []
content (chunk ∷ chunks) = read_then chunk.read (content chunks)

abbrev pub contents : {I : Type 0} → List (Part I) → List ℕ
contents [] = []
contents (part ∷ parts) = content part.chunks ++ contents parts

some-inj : {A : Type 0} {x y : A} → ◌≡◌ {A = Option A} (some x) (some y) → x ≡ y
some-inj h = cc

read_cases :
    {I : Type 0}
    → (r : Result I (List ℕ))
    → ((e : I) × (r ≡ err e)) ⊎ ((r ≡ ok []) ⊎ ((b : ℕ) × (bytes : List ℕ) × (r ≡ ok (b ∷ bytes))))
read_cases (err e) = inl (e, refl)
read_cases (ok []) = inr (inl refl)
read_cases (ok (b ∷ bytes)) = inr (inr (b, bytes, refl))

module _ {S D : Type 0} (h : Hasher S D) where
  -- The hasher and the count are those of the output.
  abbrev IsFaithful : Sink S → Type 0
  IsFaithful sink =
      (sink.hasher ≡ h.update h.new sink.output) × (sink.total ≡ wrap64 (length sink.output))

  new_IsFaithful : IsFaithful (record { output = []; hasher = h.new; total = 0 })
  unfolding wrap64
  new_IsFaithful = (sym (h.update-nil h.new), refl)

  put-IsFaithful :
      (sink : Sink S) (bytes : List ℕ) → IsFaithful sink → IsFaithful (put h sink bytes)
  unfolding put
  put-IsFaithful sink bytes (hashed, counted) = (
    ap (λ s. h.update s bytes) hashed ∙ h.update-update h.new sink.output bytes,
    ap (λ t. wrap64 (t + length bytes)) counted
        ∙ wrap64-add (length sink.output) (length bytes)
        ∙ ap wrap64 (sym (length-append sink.output bytes)),
  )

  -- The sink has taken the bytes.
  abbrev Takes : Sink S → List ℕ → Sink S → Type 0
  Takes sink bytes next = (next.output ≡ sink.output ++ bytes) × IsFaithful next

module _ {H I S D : Type 0} (h : Hasher S D) where
  copy_part-Takes :
      (chunks : List (Chunk I)) (sink next : Sink S)
      → IsFaithful h sink
      → copy_part {H = H} h sink chunks ≡ ok next
      → Takes h sink (content chunks) next
  unfolding copy_part put
  copy_part-Takes [] sink next f e =
      let same : sink ≡ next = ok-inj e in
      subst (Takes h sink []) same (sym (append-nil sink.output), f)
  copy_part-Takes (chunk ∷ chunks) sink next f e = elim (read_cases chunk.read) [
    | inl (x, bad) ↦ absurd (ground (arith, rw (bad, copy_part) at e))
    | inr (inl stop) ↦
        let same : sink ≡ next = ok-inj (rw (stop, copy_part) at e) in
        rw stop (subst (Takes h sink []) same (sym (append-nil sink.output), f))
    | inr (inr (b, bytes, more)) ↦ elim (Option-cases chunk.write_fault) [
      | inr (x, bad) ↦ absurd (ground (arith, rw (more, bad, copy_part) at e))
      | inl fine ↦
          let (grown, last) =
            copy_part-Takes chunks (put h sink (b ∷ bytes)) next
              (put-IsFaithful h sink (b ∷ bytes) f) (rw (more, fine, copy_part) at e) in
          rw more (grown ∙ append_assoc sink.output (b ∷ bytes) (content chunks), last)
    ]
  ]

  copy_parts-Takes :
      (parts : List (Part I)) (sink next : Sink S)
      → IsFaithful h sink
      → copy_parts {H = H} h sink parts ≡ ok next
      → Takes h sink (contents parts) next
  unfolding copy_parts
  copy_parts-Takes [] sink next f e =
      let same : sink ≡ next = ok-inj e in
      subst (Takes h sink []) same (sym (append-nil sink.output), f)
  copy_parts-Takes (part ∷ parts) sink next f e = elim (Option-cases part.open_fault) [
    | inr (x, bad) ↦ absurd (ground (arith, rw (bad, copy_parts) at e))
    | inl opens ↦
        let (middle, got, rest) =
          >>=-eq-ok (copy_part h sink part.chunks) _ (rw (opens, copy_parts) at e) in
        let (grown, faithful) = copy_part-Takes part.chunks sink middle f got in
        let (more, last) = copy_parts-Takes parts middle next faithful rest in
        (
          more
              ∙ ap (λ o. o ++ contents parts) grown
              ∙ append_assoc sink.output (content part.chunks) (contents parts),
          last,
        )
  ]

-- The entries that are parts, all of them with the name of one.
abbrev pub AreParts : {I : Type 0} → List (DirEntry I) → List (Part I) → Type 0
AreParts [] [] = Unit
AreParts [] (p ∷ parts) = ⊥
AreParts (broken e ∷ entries) parts = ⊥
AreParts (no_utf8 ∷ entries) parts = ⊥
AreParts (entry p ∷ entries) [] = ⊥
AreParts (entry p ∷ entries) (q ∷ parts) =
    (p ≡ q) × (is_part_name p.name ≡ true) × AreParts entries parts

collect_part_files-AreParts :
    {H I : Type 0}
    → (entries : List (DirEntry I)) (parts : List (Part I))
    → collect_part_files {H = H} entries ≡ ok parts
    → AreParts entries parts
unfolding collect_part_files
collect_part_files-AreParts [] [] e = tt
collect_part_files-AreParts [] (p ∷ parts) e = absurd (ground (arith, e))
collect_part_files-AreParts (broken x ∷ entries) parts e = absurd (ground (arith, e))
collect_part_files-AreParts (no_utf8 ∷ entries) parts e = absurd (ground (arith, e))
collect_part_files-AreParts {H} (entry p ∷ entries) parts e =
    elim (Bool-cases (is_part_name p.name)) [
      | inr other ↦ absurd (ground (arith, rw other at e))
      | inl named ↦
          let (rest, got, last) =
            >>=-eq-ok (collect_part_files {H = H} entries) _ (rw named at e) in
          let same : (p ∷ rest) ≡ parts = ok-inj last in
          subst (AreParts (entry p ∷ entries)) same
            (refl, named, collect_part_files-AreParts entries rest got)
    ]

module _ {H I S D : Type 0} (h : Hasher S D) where
  check_digest-ok :
      (expected : Option D) (digest last : D)
      → check_digest {H = H} {I = I} h expected digest ≡ ok last
      → (last ≡ digest) × ((e : D) → expected ≡ some e → h.same_digest last e ≡ true)
  unfolding check_digest
  check_digest-ok none digest last e = (sym (ok-inj e), λ x same. absurd (ground (arith, same)))
  check_digest-ok (some x) digest last e = elim (Bool-cases (h.same_digest digest x)) [
    | inr other ↦ absurd (ground (arith, rw other at e))
    | inl good ↦
        let same : digest ≡ last = ok-inj (rw good at e) in
        (
          sym same,
          λ y is.
              let z : x ≡ y = some-inj is in
              subst (λ d. h.same_digest d y ≡ true) same
                (subst (λ k. h.same_digest digest k ≡ true) z good),
        )
  ]

  check-ok :
      (size : ℕ) (expected : Option D) (sink : Sink S) (last : D)
      → check {H = H} {I = I} h size expected sink ≡ ok last
      → (sink.total ≡ size)
        × ((last ≡ h.finalize sink.hasher)
            × ((e : D) → expected ≡ some e → h.same_digest last e ≡ true))
  unfolding check
  check-ok size expected sink last e = elim (Bool-cases (sink.total == size)) [
    | inr other ↦ absurd (ground (arith, rw other at e))
    | inl long ↦ (
      ==→≡ sink.total size long,
      check_digest-ok expected (h.finalize sink.hasher) last (rw long at e),
    )
  ]

  -- Assembling succeeds only if every entry of the directory is a part, and then the output is all the parts
  -- in the order of their names, each up to its first empty read. Its length in 64 bits is the expected one, the
  -- digest is that of the output, and the expected digest if one was given.
  pub assemble-Whole :
      (entries : List (DirEntry I)) (flush_fault : Option I) (size : ℕ) (expected : Option D)
      (output : List ℕ) (digest : D)
      → assemble {H = H} h entries flush_fault size expected ≡ ok (output, digest)
      → (parts : List (Part I)) × AreParts entries parts
        × IsAscending (sort_parts parts)
        × (output ≡ contents (sort_parts parts))
        × (wrap64 (length output) ≡ size)
        × (digest ≡ h.finalize (h.update h.new output))
        × ((e : D) → expected ≡ some e → h.same_digest digest e ≡ true)
  unfolding assemble flushed
  assemble-Whole entries (some x) size expected output digest e =
      let (parts, got, e1) = >>=-eq-ok (collect_part_files {H = H} entries) _ e in
      let (sink, copied, e2) = >>=-eq-ok (copy_parts {H = H} h _ (sort_parts parts)) _ e1 in
      absurd (ground (arith, e2))
  assemble-Whole entries none size expected output digest e =
      let (parts, got, e1) = >>=-eq-ok (collect_part_files {H = H} entries) _ e in
      let (sink, copied, e2) = >>=-eq-ok (copy_parts {H = H} h _ (sort_parts parts)) _ e1 in
      let (last, checked, e3) = >>=-eq-ok (check {H = H} h size expected sink) _ e2 in
      let (out, (hashed, counted)) =
        copy_parts-Takes {H = H} h (sort_parts parts) _ sink (new_IsFaithful h) copied in
      let (long, digested) = check-ok size expected sink last checked in
      let (final, same) = digested in
      let both = ok-inj e3 in
      let o : sink.output ≡ output = ap (λ p. p.0) both in
      let d : last ≡ digest = ap (λ p. p.1) both in
      (
        parts,
        collect_part_files-AreParts entries parts got,
        sort_parts-IsAscending parts,
        sym o ∙ out,
        ap (λ x. wrap64 (length x)) (sym o) ∙ sym counted ∙ long,
        sym d ∙ final ∙ ap h.finalize hashed ∙ ap (λ x. h.finalize (h.update h.new x)) o,
        subst (λ x. (e : D) → expected ≡ some e → h.same_digest x e ≡ true) d same,
      )
