-- ===== src/Exit/Head/Shortest.antt =====
-- Which bytes of the stream `read_head` gives.
use spider_net.Prelude.{
  ok-inj, ℕ, zero, suc, ◌≤◌, ◌≡◌, ◌↔◌, ◌∙◌, refl, sym, ap, subst, true, false, inl, inr, List, [],
  ◌∷◌, ◌++◌, length, Bool-cases, ok, arith,
}
use mathlib.Core.List.{append_assoc}
use spider_net.Exit.Head.{
  Reading, byte, closed, late, failed, read_loop, read_head, ends_with, terminator, max_head_bytes,
}

module _ {I : Type 0} (stream : ℕ → Reading I) where
  -- The reads from number `n` on give these bytes.
  abbrev pub Sent : ℕ → List ℕ → Type 0
  Sent n [] = Unit {0}
  Sent n (b ∷ rest) = (stream n ≡ byte b) × Sent (suc n) rest

  -- `head` does not end with the terminator before all the bytes of the list are behind it, and then it
  -- does; there is a byte.
  abbrev pub Completes : List ℕ → List ℕ → Type 0
  Completes head [] = ⊥
  Completes head (b ∷ []) = ends_with (head ++ b ∷ []) terminator ≡ true
  Completes head (b ∷ c ∷ rest) =
      (ends_with (head ++ b ∷ []) terminator ≡ false) × Completes (head ++ b ∷ []) (c ∷ rest)

  -- The bytes behind `head` in `out` were sent, and complete it within the room.
  abbrev Explained : ℕ → ℕ → List ℕ → List ℕ → Type 0
  Explained room n head out =
      (rest : List ℕ) × (out ≡ head ++ rest)
      × Sent n rest
      × Completes head rest
      × (length rest ≤ room)

  longer :
      (room n : ℕ) (head out : List ℕ) (b : ℕ)
      → stream n ≡ byte b
      → ends_with (head ++ b ∷ []) terminator ≡ false
      → Explained room (suc n) (head ++ b ∷ []) out
      → Explained (suc room) n head out
  longer room n head out b e more ([], same, sent, completes, bound) = absurd completes
  longer room n head out b e more (c ∷ rest, same, sent, completes, bound) = (
    b ∷ c ∷ rest,
    same ∙ append_assoc head (b ∷ []) (c ∷ rest),
    (e, sent),
    (more, completes),
    omega arith,
  )

  read_step :
      (room n : ℕ) (head out : List ℕ) (r : Reading I)
      → stream n ≡ r
      → read_loop stream (suc room) n head ≡ ok out
      → ((b : ℕ)
          → read_loop stream room (suc n) (head ++ b ∷ []) ≡ ok out
          → Explained room (suc n) (head ++ b ∷ []) out)
      → Explained (suc room) n head out
  unfolding read_loop
  read_step room n head out (byte b) e h next =
      elim (Bool-cases (ends_with (head ++ b ∷ []) terminator)) [
        | inl last ↦
            (b ∷ [], sym (ok-inj (rw (e, last, read_loop) at h)), (e, tt), last, omega arith)
        | inr more ↦ longer room n head out b e more (next b (rw (e, more, read_loop) at h))
      ]
  read_step room n head out closed e h next = absurd (ground (arith, rw (e, read_loop) at h))
  read_step room n head out late e h next = absurd (ground (arith, rw (e, read_loop) at h))
  read_step room n head out (failed x) e h next = absurd (ground (arith, rw (e, read_loop) at h))

  read_loop-ok :
      (room n : ℕ) (head out : List ℕ)
      → read_loop stream room n head ≡ ok out
      → Explained room n head out
  unfolding read_loop
  read_loop-ok zero n head out h = absurd (refused h)
    where
      refused : read_loop stream 0 n head ≡ ok out → ⊥
      refused h = ground (arith, h)
  read_loop-ok (suc room) n head out h =
      read_step room n head out (stream n) refl h
        (λ b. read_loop-ok room (suc n) (head ++ b ∷ []) out)

  read_loop-total :
      (room n : ℕ) (head rest : List ℕ)
      → Sent n rest
      → Completes head rest
      → length rest ≤ room
      → read_loop stream room n head ≡ ok (head ++ rest)
  unfolding read_loop
  read_loop-total room n head [] sent completes bound = absurd completes
  read_loop-total zero n head (b ∷ rest) sent completes bound = absurd (omega (arith, bound))
  read_loop-total (suc room) n head (b ∷ []) sent completes bound =
      rw (sent.0, completes, read_loop) refl
  read_loop-total (suc room) n head (b ∷ c ∷ rest) sent completes bound =
      rw (sent.0, completes.0, read_loop)
        (read_loop-total room (suc n) (head ++ b ∷ []) (c ∷ rest) sent.1 completes.1
            (omega (arith, bound))
          ∙ ap ok (append_assoc head (b ∷ []) (c ∷ rest)))

  -- Reading the head gives exactly the shortest beginning of the stream that ends with the terminator,
  -- if it has at most `max_head_bytes` bytes, and in every other case it is an error.
  pub read_head-ok_iff :
      (out : List ℕ)
      → (read_head stream ≡ ok out)
        ↔ (Sent 0 out × Completes [] out × (length out ≤ max_head_bytes))
  unfolding read_head
  read_head-ok_iff out = (
    λ h.
        let (rest, same, sent, completes, bound) = read_loop-ok max_head_bytes 0 [] out h in
        subst (λ xs. Sent 0 xs × Completes [] xs × (length xs ≤ max_head_bytes)) (sym same)
          (sent, completes, bound),
    λ h. read_loop-total max_head_bytes 0 [] out h.0 h.1 h.2,
  )
