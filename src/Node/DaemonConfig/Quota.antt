-- ===== src/Node/DaemonConfig/Quota.antt =====
-- The quota of an exit section.
use spider_net.Prelude.{
  ℕ, ◌*◌, ◌-◌, ◌<◌, min, ◌≡◌, ◌⊎◌, inl, inr, ap, sym, Option, none, some, Bool-cases, ok, ok-inj,
  ◌==◌, ==→≡, ==→≢, arith, u64_mod, saturating_mul64, saturating_mul64-capped,
}
use spider_net.Exit.Ledger.{QuotaPolicy, try_new_quota, second}
use spider_net.Node.DaemonConfig.{unwrap_or, map_err, mib, validate_quota}

-- The quota that the two numbers of the section set.
abbrev pub QuotaOf : Option ℕ → Option ℕ → Option QuotaPolicy → Type 0
QuotaOf quota_mib window_hours quota =
    ((unwrap_or 1024 quota_mib ≡ 0) × (quota ≡ none))
    ⊎ ((q : QuotaPolicy) × (quota ≡ some q)
        × (q.max_bytes ≡ min (unwrap_or 1024 quota_mib * mib) (u64_mod - 1))
        × (0 < q.max_bytes)
        × (q.window ≡ min (unwrap_or 24 window_hours * 3600) (u64_mod - 1) * second)
        × (0 < q.window))

pub validate_quota-QuotaOf :
    (quota_mib window_hours : Option ℕ) (quota : Option QuotaPolicy)
    → validate_quota quota_mib window_hours ≡ ok quota
    → QuotaOf quota_mib window_hours quota
unfolding validate_quota try_new_quota map_err
validate_quota-QuotaOf quota_mib window_hours quota h =
    let bytes = saturating_mul64 (unwrap_or 1024 quota_mib) mib in
    let window = saturating_mul64 (unwrap_or 24 window_hours) 3600 * second in
    elim (Bool-cases (unwrap_or 1024 quota_mib == 0)) [
      | inl off ↦ inl (==→≡ (unwrap_or 1024 quota_mib) 0 off, sym (ok-inj (rw off at h)))
      | inr on ↦ elim (Bool-cases (bytes == 0)) [
        | inl no_bytes ↦ absurd (ground (arith, rw (on, no_bytes) at h))
        | inr some_bytes ↦ elim (Bool-cases (window == 0)) [
          | inl no_window ↦ absurd (ground (arith, rw (on, some_bytes, no_window) at h))
          | inr some_window ↦ inr (
            record { max_bytes = bytes; window = window },
            sym (ok-inj (rw (on, some_bytes, some_window) at h)),
            saturating_mul64-capped (unwrap_or 1024 quota_mib) mib,
            (let p = ==→≢ bytes 0 some_bytes in omega (arith, p)),
            ap (λ s. s * second) (saturating_mul64-capped (unwrap_or 24 window_hours) 3600),
            (let p = ==→≢ window 0 some_window in omega (arith, p)),
          )
        ]
      ]
    ]
