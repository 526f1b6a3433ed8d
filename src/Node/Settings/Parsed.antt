-- ===== src/Node/Settings/Parsed.antt =====
-- The keys and interface names that parsing accepts, and that they are read back as they are kept.
use spider_net.Prelude.{
  ℕ, ◌≤◌, ◌<◌, ◌≡◌, ◌⊎◌, inl, inr, refl, ap, subst, ◌∙◌, true, ◌&&◌, [], ◌∷◌, All, All-append,
  length, Bool-cases, ok, ok-inj, leb, ltb, ◌==◌, arith,
}
use spider_net.Prelude.Text.{
  Text, codes, is_whitespace, text_eq, trim, trim_end, trim_start, cons_trimmed,
}
use spider_net.Prelude.Text.Splits.{IsTrimmed, trim_of_IsTrimmed, trim_idem, Solid}
use spider_net.Node.Settings.{
  utf8_len, str_len, is_ascii_hexdigit, all_hexdigits, lower_char, to_lowercase, parse_key, IfName,
  auto, headless, named, parse_ifname, if_name_text,
}

-- A digit or a small letter up to `f`.
abbrev pub IsHex : ℕ → Type 0
IsHex c = ((48 ≤ c) × (c ≤ 57)) ⊎ ((97 ≤ c) × (c ≤ 102))

-- No capital letter of ASCII.
abbrev pub IsLowered : ℕ → Type 0
IsLowered c = (c < 65) ⊎ (90 < c)

IsHex-lowered : (s : Text) → all_hexdigits s ≡ true → All IsLowered s → All IsHex s
unfolding all_hexdigits is_ascii_hexdigit
IsHex-lowered [] h low = tt
IsHex-lowered (c ∷ s) h low = (ground (arith, h, low.0), IsHex-lowered s (ground (arith, h)) low.1)

hex_whole : (s : Text) → All IsHex s → all_hexdigits s ≡ true
unfolding all_hexdigits is_ascii_hexdigit
hex_whole [] h = refl
hex_whole (c ∷ s) h = ground (arith, hex_whole s h.1, h.0)

hex-str_len : (s : Text) → All IsHex s → str_len s ≡ length s
unfolding str_len utf8_len
hex-str_len [] h = refl
hex-str_len (c ∷ s) h = ground (arith, hex-str_len s h.1, h.0)

hex-Solid : (c : ℕ) (s : Text) → All IsHex (c ∷ s) → Solid (c ∷ s)
unfolding is_whitespace
hex-Solid c [] h = ground (arith, h.0)
hex-Solid c (d ∷ s) h = hex-Solid d s h.1

pub hex-IsTrimmed : (s : Text) → All IsHex s → IsTrimmed s
unfolding is_whitespace
hex-IsTrimmed [] h = tt
hex-IsTrimmed (c ∷ s) h = (ground (arith, h.0), hex-Solid c s h)

module _ (lower_wide : ℕ → Text) where
  hex-to_lowercase : (s : Text) → All IsHex s → to_lowercase lower_wide s ≡ s
  unfolding to_lowercase lower_char
  hex-to_lowercase [] h = refl
  hex-to_lowercase (c ∷ s) h = ground (arith, hex-to_lowercase s h.1, h.0)

  -- How a wide character is lowered leaves no capital letter of ASCII.
  abbrev pub Lowers : Type 0
  Lowers = (c : ℕ) → All IsLowered (lower_wide c)

  lower_char-IsLowered : (c : ℕ) → Lowers → All IsLowered (lower_char lower_wide c)
  unfolding lower_char
  lower_char-IsLowered c low = elim (Bool-cases (ltb c 128)) [
    | inl narrow ↦ elim (Bool-cases (leb 65 c && leb c 90)) [
      | inl capital ↦ rw (narrow, capital) (ground (arith, capital), tt)
      | inr other ↦ rw (narrow, other) (ground (arith, other), tt)
    ]
    | inr wide ↦ rw wide (low c)
  ]

  to_lowercase-IsLowered : (s : Text) → Lowers → All IsLowered (to_lowercase lower_wide s)
  unfolding to_lowercase
  to_lowercase-IsLowered [] low = tt
  to_lowercase-IsLowered (c ∷ s) low =
      All-append IsLowered (lower_char lower_wide c) (to_lowercase lower_wide s)
        (lower_char-IsLowered c low) (to_lowercase-IsLowered s low)

  -- A key that is accepted is 64 digits or small letters up to `f`, and is accepted as it is.
  pub parse_key_canonical :
      (input key : Text)
      → Lowers
      → parse_key lower_wide input ≡ ok key
      → (length key ≡ 64) × All IsHex key × (parse_key lower_wide key ≡ ok key)
  unfolding parse_key
  parse_key_canonical input key low h =
      let t = to_lowercase lower_wide (trim input) in
      elim (Bool-cases (str_len t == 64 && all_hexdigits t)) [
        | inr bad ↦ absurd (ground (arith, rw bad at h))
        | inl good ↦
            let hex =
              IsHex-lowered t (ground (arith, good)) (to_lowercase-IsLowered (trim input) low) in
            let same : t ≡ key = ok-inj (rw good at h) in
            let long : length t ≡ 64 = ground (arith, good, hex-str_len t hex) in
            let again : to_lowercase lower_wide (trim t) ≡ t =
              ap (to_lowercase lower_wide) (trim_of_IsTrimmed t (hex-IsTrimmed t hex))
              ∙ hex-to_lowercase t hex in
            subst (λ k. (length k ≡ 64) × All IsHex k × (parse_key lower_wide k ≡ ok k)) same
              (long, hex, rw (again, good) refl)
      ]

-- An interface setting that is accepted is read back from the text that is written for it.
pub parse_ifname_printed :
    (input : Text) (name : IfName)
    → parse_ifname input ≡ ok name
    → parse_ifname (if_name_text name) ≡ ok name
unfolding parse_ifname if_name_text trim trim_end trim_start cons_trimmed text_eq is_whitespace
parse_ifname_printed input name h = elim (Bool-cases (text_eq (trim input) (codes "auto"))) [
  | inl e ↦
      let same : auto ≡ name = ok-inj (rw e at h) in
      subst (λ n. parse_ifname (if_name_text n) ≡ ok n) same refl
  | inr not_auto ↦ elim (Bool-cases (text_eq (trim input) (codes "none"))) [
    | inl e ↦
        let same : headless ≡ name = ok-inj (rw (not_auto, e) at h) in
        subst (λ n. parse_ifname (if_name_text n) ≡ ok n) same refl
    | inr not_none ↦ elim (Bool-cases (text_eq (trim input) [])) [
      | inl empty ↦ absurd (ground (arith, rw (not_auto, not_none, empty) at h))
      | inr full ↦
          let same : named (trim input) ≡ name = ok-inj (rw (not_auto, not_none, full) at h) in
          subst (λ n. parse_ifname (if_name_text n) ≡ ok n) same
            (rw (trim_idem input, not_auto, not_none, full) refl)
    ]
  ]
]
