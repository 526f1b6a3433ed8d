-- ===== src/Exit/Ledger/Window.antt =====
-- What the ledger counts for one source within its window, beside the uses by other sources.
use spider_net.Prelude.{
  ℕ, ◌+◌, ◌-◌, ◌≤◌, ◌<◌, ◌≡◌, ◌↔◌, ◌∙◌, refl, sym, ap, min, List, [], ◌∷◌, some, if◌then◌else◌,
  ◌==◌, true, false, leb, Bool-cases, ◌⊎◌, leb→le, leb→gt, inl, inr, saturating_add64-capped,
  saturating_add64, u64_mod, arith, ==→≡,
}
use spider_net.Prelude.TreeMap.{lookup, insert, lookup-insert}
use spider_net.Exit.Ledger.{
  QuotaPolicy, ClientWindow, allowed, quota_exhausted, or_fresh, roll_window, decide, admit,
  record_traffic, Use, started, ended, apply, run,
}

-- The bytes of the connections of one source that ended.
unfoldable pub traffic : ℕ → List Use → ℕ
traffic source [] = 0
traffic source (started _ _ _ ∷ uses) = traffic source uses
traffic source (ended s _ bytes ∷ uses) = (if source == s then bytes else 0) + traffic source uses

abbrev pub InTime : QuotaPolicy → ℕ → ℕ → Use → Type 0
InTime policy start source (started s now _) = source ≡ s → now < start + policy.window
InTime policy start source (ended s now _) = source ≡ s → now < start + policy.window

-- The uses of one source happen before the window that began at `start` is over.
abbrev pub Within : QuotaPolicy → ℕ → ℕ → List Use → Type 0
Within policy start source [] = Unit {0}
Within policy start source (u ∷ uses) =
    InTime policy start source u × Within policy start source uses

abbrev pub capped : ℕ → ℕ
capped bytes = min bytes (u64_mod - 1)

abbrev with_bytes : ClientWindow → ℕ → ClientWindow
with_bytes w bytes = record w { used_bytes = bytes }

pub roll_window-same :
    (policy : QuotaPolicy) (w : ClientWindow) (now : ℕ)
    → 0 < policy.window
    → now < w.window_started + policy.window
    → roll_window (some w) policy now ≡ w
unfolding roll_window or_fresh
roll_window-same policy w now pos h = ground arith

roll_window-over :
    (policy : QuotaPolicy) (w : ClientWindow) (now : ℕ)
    → w.window_started + policy.window ≤ now
    → roll_window (some w) policy now ≡ record { window_started = now; used_bytes = 0 }
unfolding roll_window or_fresh
roll_window-over policy w now h = ground arith

lookup_other :
    (clients : List (ℕ × ClientWindow)) (source s : ℕ) (w : ClientWindow)
    → (source == s) ≡ false
    → lookup source (insert s w clients) ≡ lookup source clients
lookup_other clients source s w other = rw (lookup-insert s source w clients, other) refl

lookup_own :
    (clients : List (ℕ × ClientWindow)) (source s : ℕ) (w : ClientWindow)
    → (source == s) ≡ true
    → lookup source (insert s w clients) ≡ some w
lookup_own clients source s w own = rw (lookup-insert s source w clients, own) refl

module _ (policy : QuotaPolicy) (source : ℕ) (pos : 0 < policy.window) where
  -- The window that a use at `now` finds.
  found :
      (clients : List (ℕ × ClientWindow)) (w : ClientWindow) (s now : ℕ)
      → lookup source clients ≡ some w
      → source ≡ s
      → now < w.window_started + policy.window
      → roll_window (lookup s clients) policy now ≡ w
  found clients w s now here same soon =
      rw (sym same, here) (roll_window-same policy w now pos soon)

  recount :
      (w : ClientWindow) (bytes : ℕ)
      → bytes ≡ w.used_bytes
      → some w ≡ some (record w { used_bytes = bytes })
  recount w bytes same = ap (λ b. some (record w { used_bytes = b })) (sym same)

  -- One use adds its bytes to the window of its source.
  apply-lookup :
      (clients : List (ℕ × ClientWindow)) (w : ClientWindow) (u : Use)
      → lookup source clients ≡ some w
      → w.used_bytes < u64_mod
      → InTime policy w.window_started source u
      → lookup source (apply policy u clients)
        ≡ some (record w { used_bytes = capped (w.used_bytes + traffic source (u ∷ [])) })
  unfolding apply admit record_traffic traffic
  apply-lookup clients w (started s now later) here fits soon = elim (Bool-cases (source == s)) [
    | inl own ↦
        let same = ==→≡ source s own in
        lookup_own clients source s _ own
        ∙ ap some (found clients w s now here same (soon same))
        ∙ recount w _ (omega (arith, fits))
    | inr other ↦ lookup_other clients source s _ other ∙ here ∙ recount w _ (omega (arith, fits))
  ]
  apply-lookup clients w (ended s now bytes) here fits soon = elim (Bool-cases (source == s)) [
    | inl own ↦
        let same = ==→≡ source s own in
        rw own (
          lookup_own clients source s _ own
          ∙ ap (λ v. some (with_bytes v (saturating_add64 v.used_bytes bytes)))
              (found clients w s now here same (soon same))
          ∙ ap (λ b. some (with_bytes w b))
              (saturating_add64-capped w.used_bytes bytes ∙ omega arith))
    | inr other ↦
        rw other (lookup_other clients source s _ other ∙ here ∙ recount w _ (omega (arith, fits)))
  ]

  run-lookup :
      (clients : List (ℕ × ClientWindow)) (w : ClientWindow) (uses : List Use)
      → lookup source clients ≡ some w
      → w.used_bytes < u64_mod
      → Within policy w.window_started source uses
      → lookup source (run policy uses clients)
        ≡ some (record w { used_bytes = capped (w.used_bytes + traffic source uses) })
  unfolding run traffic
  run-lookup clients w [] here fits soon = here ∙ recount w _ (omega (arith, fits))
  run-lookup clients w (u ∷ uses) here fits soon =
      run-lookup (apply policy u clients)
        (record w { used_bytes = capped (w.used_bytes + traffic source (u ∷ [])) }) uses
        (apply-lookup clients w u here fits soon.0) (omega arith) soon.1
      ∙ ap (λ b. some (record w { used_bytes = b })) (joined u uses)
    where
      joined :
          (u : Use) (uses : List Use)
          → capped (capped (w.used_bytes + traffic source (u ∷ [])) + traffic source uses)
            ≡ capped (w.used_bytes + traffic source (u ∷ uses))
      joined (started s now later) uses = omega arith
      joined (ended s now bytes) uses = omega arith

decide_iff :
    (policy : QuotaPolicy) (w : ClientWindow) (later : ℕ)
    → (decide policy w later ≡ allowed) ↔ (w.used_bytes < policy.max_bytes)
unfolding decide
decide_iff policy w later = elim (Bool-cases (leb policy.max_bytes w.used_bytes)) [
  | inl full ↦ rw full (λ h. absurd (exhausted h), λ h. absurd (ground (arith, full, h)))
  | inr room ↦ rw room (λ h. leb→gt policy.max_bytes w.used_bytes room, λ h. refl)
]
  where
    exhausted : {secs : ℕ} → quota_exhausted secs ≡ allowed → ⊥
    exhausted h = ground (arith, h)

-- From a ledger with a window of the source, and with any uses by any sources, of which those of this
-- source are before the end of its window: the source may start another connection within the window
-- if and only if the bytes of its own connections, with those it had used, are below the quota. From the
-- end of the window on it may in any case.
pub admit-run_iff :
    (policy : QuotaPolicy) (source : ℕ) (clients : List (ℕ × ClientWindow)) (w : ClientWindow)
    (uses : List Use) (now later : ℕ)
    → 0 < policy.window
    → 0 < policy.max_bytes
    → policy.max_bytes < u64_mod
    → lookup source clients ≡ some w
    → w.used_bytes < u64_mod
    → Within policy w.window_started source uses
    → ((admit (run policy uses clients) source (some policy) now later).0 ≡ allowed) ↔ (
        (w.window_started + policy.window ≤ now)
        ⊎ (w.used_bytes + traffic source uses < policy.max_bytes))
unfolding admit
admit-run_iff policy source clients w uses now later pos some_bytes fits here room soon =
    let counted = with_bytes w (capped (w.used_bytes + traffic source uses)) in
    rw (run-lookup policy source pos clients w uses here room soon)
      (elim (Bool-cases (leb (w.window_started + policy.window) now)) [
        | inl late ↦
            let over = leb→le (w.window_started + policy.window) now late in
            rw (roll_window-over policy counted now over) (
              λ h. inl over,
              λ h.
                  (decide_iff policy (record { window_started = now; used_bytes = 0 }) later).1
                    some_bytes,
            )
        | inr early ↦
            let still = leb→gt (w.window_started + policy.window) now early in
            rw (roll_window-same policy counted now pos still) (
              λ h. inr (omega (arith, fits, (decide_iff policy counted later).0 h)),
              λ h. (decide_iff policy counted later).1 (ground (arith, h, still)),
            )
      ])
