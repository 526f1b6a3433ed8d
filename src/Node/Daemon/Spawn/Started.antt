-- ===== src/Node/Daemon/Spawn/Started.antt =====
-- Every start of the sidecar, taken apart.
use spider_net.Prelude.{
  ℕ, ◌≡◌, ◌⊎◌, inl, inr, refl, ◌∙◌, false, List, [], some, Option-cases, Result, ok, err, arith,
}
use spider_net.Prelude.Text.{Text}
use spider_net.Node.Types
use spider_net.Node.Types.{NodeError, io, daemon_config}
use spider_net.Node.Json.{Json}
use spider_net.Node.Settings.{NodeSettings}
use spider_net.Node.Settings.Written.{File, write_config}
use spider_net.Node.Daemon.{Sidecar, spawned}
use spider_net.Node.Daemon.Spawn.{
  Files, Boot, generate_config, node_key, start, keyed, spawn_sidecar,
}

pub Result-cases :
    {E A : Type 0} (r : Result E A) → ((e : E) × (r ≡ err e)) ⊎ ((a : A) × (r ≡ ok a))
Result-cases (err e) = inl (e, refl)
Result-cases (ok a) = inr (a, refl)

-- A start that goes through gives a running sidecar that was sent nothing.
abbrev pub IsStarted : {E : Type 0} → Result E Sidecar → Type 0
IsStarted (err e) = Unit
IsStarted (ok child) = (child.reaped ≡ false) × (child.signals ≡ [])

module _ {I J V O : Type 0} (library : Json V O) (from_slice : List ℕ → Result J V)
    (pretty : O → Result J (List ℕ)) where
  module _ (lower_wide : ℕ → Text) (not_utf8 : I) where
    -- The start of a process, the key being in place.
    start_lem :
        (boot : Boot I) (files : Files) (text : List ℕ)
        → IsStarted (start library from_slice pretty lower_wide not_utf8 boot files text).1
          × ((start library from_slice pretty lower_wide not_utf8 boot files text).0.key
              ≡ files.key)
    unfolding start spawned
    start_lem boot files text =
        elim (Result-cases (write_config boot.conf_system files.conf text).1) [
          | inl (e, bad) ↦ rw (bad, start) (tt, refl)
          | inr (done, good) ↦ elim (Option-cases boot.started) [
            | inr (e, bad) ↦ rw (good, bad, start) (tt, refl)
            | inl runs ↦ rw (good, runs, start) ((refl, refl), refl)
          ]
        ]

    pub keyed_lem :
        (boot : Boot I) (files : Files) (text : List ℕ) (base : V)
        → IsStarted (keyed library from_slice pretty lower_wide not_utf8 boot files text base).1
          × ((keyed library from_slice pretty lower_wide not_utf8 boot files text base).0.key
              ≡ (node_key library from_slice pretty lower_wide not_utf8 boot files.key base).0)
          × ((c : Sidecar)
              → (keyed library from_slice pretty lower_wide not_utf8 boot files text base).1 ≡ ok c
              → (node_key library from_slice pretty lower_wide not_utf8 boot files.key base).1
                ≡ ok tt)
    unfolding keyed
    keyed_lem boot files text base =
        elim (Result-cases
          (node_key library from_slice pretty lower_wide not_utf8 boot files.key base).1) [
            | inl (e, bad) ↦ rw (bad, keyed) (tt, refl, λ c h. absurd (ground (arith, h)))
            | inr (done, good) ↦
                let key =
                  (node_key library from_slice pretty lower_wide not_utf8 boot files.key base).0 in
                let (runs, kept) = start_lem boot (record files { key = key }) text in
                rw (good, keyed) (runs, kept, λ c h. refl)
          ]

    -- Every start fails before it comes to the key, or comes to it.
    pub spawn_sidecar_cases :
        (boot : Boot I) (settings : NodeSettings) (files : Files)
        → ((e : NodeError I J) × (spawn_sidecar library from_slice pretty lower_wide not_utf8 boot
                settings files
              ≡ (files, err e)))
          ⊎ ((text : List ℕ) × (base : V) × (spawn_sidecar library from_slice pretty lower_wide
                  not_utf8 boot settings files
                ≡ keyed library from_slice pretty lower_wide not_utf8 boot files text base))
    unfolding spawn_sidecar
    spawn_sidecar_cases boot settings files = elim (Option-cases boot.dir_made) [
      | inr (e, bad) ↦ inl (io e, rw (bad, spawn_sidecar) refl)
      | inl made ↦
          elim (Result-cases (generate_config library from_slice pretty settings boot.generated)) [
            | inl (e, bad) ↦ inl (e, rw (made, bad, spawn_sidecar) refl)
            | inr (text, generated) ↦ elim (Result-cases (from_slice text)) [
              | inl (e, bad) ↦
                  inl (Types.NodeError.json e, rw (made, generated, bad, spawn_sidecar) refl)
              | inr (base, parsed) ↦ inr (text, base, ground (arith, made, generated, parsed))
            ]
          ]
    ]

    pub spawn_sidecar-IsStarted :
        (boot : Boot I) (settings : NodeSettings) (files : Files)
        → IsStarted
            (spawn_sidecar library from_slice pretty lower_wide not_utf8 boot settings files).1
    spawn_sidecar-IsStarted boot settings files = elim (spawn_sidecar_cases boot settings files) [
      | inl (e, same) ↦ rw same tt
      | inr (text, base, same) ↦ rw same (keyed_lem boot files text base).0
    ]

    -- A node key that exists is never changed, however the start goes.
    pub spawn_sidecar-keeps :
        (boot : Boot I) (settings : NodeSettings) (files : Files) (file : File)
        → files.key ≡ some file
        → (spawn_sidecar library from_slice pretty lower_wide not_utf8 boot settings files).0.key
          ≡ some file
    unfolding node_key
    spawn_sidecar-keeps boot settings files file has =
        elim (spawn_sidecar_cases boot settings files) [
          | inl (e, same) ↦ rw same has
          | inr (text, base, same) ↦
              rw same ((keyed_lem boot files text base).1 ∙ rw (has, node_key) refl)
        ]
