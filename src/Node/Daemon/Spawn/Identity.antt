-- ===== src/Node/Daemon/Spawn/Identity.antt =====
-- The node key over the starts of the sidecar.
use spider_net.Prelude.{
  ℕ, ◌<◌, ◌≡◌, inl, inr, refl, subst, ap, ◌∙◌, List, [], ◌∷◌, All, length, none, some, Option-cases,
  Result, ok, err, arith,
}
use spider_net.Prelude.Text.{Text, codes, trim}
use spider_net.Prelude.Text.Splits.{trim_of_IsTrimmed}
use spider_net.Prelude.Text.Utf8.{from_utf8, from_utf8-ascii}
use spider_net.Node.Json.{Json, get_text}
use spider_net.Node.Settings.{parse_key, NodeSettings}
use spider_net.Node.Settings.Parsed.{IsHex, Lowers, parse_key_canonical, hex-IsTrimmed}
use spider_net.Node.Settings.Written.{File, write_private_key, write_private_key-Modes, owner_only}
use spider_net.Node.Daemon.{Sidecar}
use spider_net.Node.Daemon.Spawn.{
  Files, Boot, read_to_string, io_error, existing_key, new_key, node_key, spawn_sidecar,
}
use spider_net.Node.Daemon.Spawn.Started.{Result-cases, keyed_lem, spawn_sidecar_cases}

hex_ascii : (s : Text) → All IsHex s → All (λ c. c < 128) s
hex_ascii [] h = tt
hex_ascii (c ∷ s) h = (ground (arith, h.0), hex_ascii s h.1)

io_error-ok :
    {I J A : Type 0} → (r : Result I A) (a : A) → io_error {I = I} {J = J} r ≡ ok a → r ≡ ok a
unfolding io_error
io_error-ok (err e) a h = absurd (ground (arith, h))
io_error-ok (ok b) a h = cc

module _ {I J V O : Type 0} (library : Json V O) (from_slice : List ℕ → Result J V)
    (pretty : O → Result J (List ℕ)) where
  module _ (lower_wide : ℕ → Text) (not_utf8 : I) where
    -- What a stored key is: owner-only, 64 hex digits, and accepted by every later start that can read it.
    abbrev pub IsStored : File → Type 0
    IsStored file =
        (file.mode ≡ owner_only)
        × (length file.bytes ≡ 64)
        × All IsHex file.bytes
        × ((boot : Boot I)
            → boot.key_read ≡ none
            → existing_key library from_slice pretty lower_wide not_utf8 boot file ≡ ok tt)

    stored :
        (generated key : Text)
        → Lowers lower_wide
        → parse_key lower_wide generated ≡ ok key
        → IsStored (record { bytes = key; mode = owner_only })
    unfolding existing_key read_to_string
    stored generated key lowers h =
        let (long, hex, again) = parse_key_canonical lower_wide generated key lowers h in
        let text : from_utf8 key ≡ some key = from_utf8-ascii key (hex_ascii key hex) in
        let kept : trim key ≡ key = trim_of_IsTrimmed key (hex-IsTrimmed key hex) in
        (refl, long, hex, λ boot reads. ground (arith, reads, text, kept, again))

    -- A first start that goes through stores such a key.
    new_key-IsStored :
        (boot : Boot I) (base : V)
        → Lowers lower_wide
        → (new_key library from_slice pretty lower_wide not_utf8 boot base).1 ≡ ok tt
        → (file : File) × ((new_key library from_slice pretty lower_wide not_utf8 boot base).0
            ≡ some file)
          × IsStored file
    unfolding new_key io_error
    new_key-IsStored boot base lowers h =
        elim (Option-cases (get_text library base (codes "PrivateKey"))) [
          | inl e ↦ absurd (ground (arith, rw (e, new_key) at h))
          | inr (generated, e) ↦ elim (Result-cases (parse_key lower_wide generated)) [
            | inl (x, bad) ↦ absurd (ground (arith, rw (e, bad, new_key) at h))
            | inr (key, good) ↦
                let wrote : (write_private_key boot.key_system none key).1 ≡ ok tt =
                  io_error-ok (write_private_key boot.key_system none key).1 tt
                    (rw (e, good, new_key) at h) in
                (
                  record { bytes = key; mode = owner_only },
                  rw (e, good, new_key)
                      ((write_private_key-Modes boot.key_system none key).0 wrote),
                  stored generated key lowers good,
                )
          ]
        ]

    -- A start without a node key that goes through leaves a key file of mode 600 with 64 hex digits, which every
    -- later start accepts if it can read it.
    pub spawn_sidecar-stores :
        (boot : Boot I) (settings : NodeSettings) (files : Files) (child : Sidecar)
        → Lowers lower_wide
        → files.key ≡ none
        → (spawn_sidecar library from_slice pretty lower_wide not_utf8 boot settings files).1
          ≡ ok child
        → (file : File) × ((spawn_sidecar library from_slice pretty lower_wide not_utf8 boot
              settings files).0.key
            ≡ some file)
          × IsStored file
    unfolding node_key
    spawn_sidecar-stores boot settings files child lowers bare h =
        elim (spawn_sidecar_cases library from_slice pretty lower_wide not_utf8 boot settings
          files) [
            | inl (e, same) ↦ absurd (ground (arith, rw same at h))
            | inr (text, base, same) ↦
                let (runs, kept, fine) =
                  keyed_lem library from_slice pretty lower_wide not_utf8 boot files text base in
                let checked : (new_key library from_slice pretty lower_wide not_utf8 boot base).1
                    ≡ ok tt =
                  subst
                    (λ k.
                      (node_key library from_slice pretty lower_wide not_utf8 boot k base).1
                      ≡ ok tt)
                    bare (fine child (rw same at h)) in
                let (file, is, good) = new_key-IsStored boot base lowers checked in
                (
                  file,
                  rw same (
                      kept
                      ∙ ap
                          (λ k.
                            (node_key library from_slice pretty lower_wide not_utf8 boot k base).0)
                          bare
                      ∙ is),
                  good,
                )
          ]
