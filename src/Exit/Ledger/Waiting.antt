-- ===== src/Exit/Ledger/Waiting.antt =====
-- The time to wait that a refused source is told.
use spider_net.Prelude.{
  ℕ, ◌+◌, ◌-◌, ◌*◌, ◌/◌, ◌%◌, max, ◌≤◌, ◌<◌, ◌≡◌, ◌↔◌, ◌⊎◌, inl, inr, List, [], ◌∷◌, some, leb,
  Bool-cases, u64_mod, arith,
}
use spider_net.Prelude.TreeMap.{lookup}
use spider_net.Exit.Ledger.{
  QuotaPolicy, ClientWindow, allowed, quota_exhausted, decide, admit, started, apply, run, second,
}
use spider_net.Exit.Ledger.Window.{admit-run_iff, roll_window-same, traffic}

told :
    (policy : QuotaPolicy) (w : ClientWindow) (now secs : ℕ)
    → decide policy w now ≡ quota_exhausted secs
    → (policy.max_bytes ≤ w.used_bytes)
      × (secs ≡ max ((policy.window - (now - w.window_started)) / second) 1)
unfolding decide
told policy w now secs h = elim (Bool-cases (leb policy.max_bytes w.used_bytes)) [
  | inl full ↦ (ground (arith, full), ground (arith, full, h))
  | inr room ↦ absurd (ground (arith, room, h))
]

-- A source that is refused within its window, and that tries again after exactly the seconds it was
-- told with no use by it in between, is let in if and only if the rest of its window was below a second
-- or a whole number of seconds: otherwise the seconds, rounded down, end before the window does.
pub admit-retry_iff :
    (policy : QuotaPolicy) (source : ℕ) (clients : List (ℕ × ClientWindow)) (w : ClientWindow)
    (now later secs : ℕ)
    → 0 < policy.window
    → 0 < policy.max_bytes
    → policy.max_bytes < u64_mod
    → lookup source clients ≡ some w
    → w.used_bytes < u64_mod
    → w.window_started ≤ now
    → now < w.window_started + policy.window
    → (admit clients source (some policy) now now).0 ≡ quota_exhausted secs
    → ((admit
          (admit clients source (some policy) now now).1
          source
          (some policy)
          (now + secs * second)
          later).0
        ≡ allowed)
      ↔ ((w.window_started + policy.window - now < second)
          ⊎ ((w.window_started + policy.window - now) % second ≡ 0))
unfolding admit run apply traffic
admit-retry_iff policy source clients w now later secs pos some_bytes fits here room past soon
      told_secs =
    let (full, wait) =
      told policy w now secs (rw (here, roll_window-same policy w now pos soon) at told_secs) in
    let again =
      admit-run_iff policy source clients w (started source now now ∷ []) (now + secs * second)
        later pos some_bytes fits here room ((λ e. soon), tt) in
    (
      λ h. ground (arith, again.0 h, full, wait, past, soon),
      λ h. again.1 (ground (arith, h, full, wait, past, soon)),
    )
