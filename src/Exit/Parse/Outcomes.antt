-- ===== src/Exit/Parse/Outcomes.antt =====
-- What `parse_authority` gives for any text.
use spider_net.Prelude.{
  ℕ, if◌then◌else◌, ◌<◌, ◌≡◌, ◌≢◌, ◌⊎◌, inl, inr, refl, Bool, true, [], ◌∷◌, ◌++◌, Option-cases,
  All, Result, ok, err, ◌>>=◌, u16_mod, arith, Bool-cases,
}
use spider_net.Prelude.Text.{
  Text, codes, text_eq, is_whitespace, trim, strip_prefix, split_once, rsplit_once, parse_uint,
}
use spider_net.Prelude.Text.Splits.{
  split_once-append, split_once-none, rsplit_once-eq_none, Solid, Solid-append, trim-Solid,
}
use spider_net.Prelude.Text.Decimal.{parse_uint-lt}
use spider_net.Exit.Parse.{
  HeadSyntax, empty_host, bare_ipv6, bad_port, port_of, port_behind, parse_plain, parse_bracketed,
  parse_trimmed, parse_authority,
}

-- An accepted authority has a port of 16 bits, and a host that is an IPv6 address or not empty; a refused
-- one is not refused for a missing bracket.
abbrev pub Outcome : (Text → Bool) → Result HeadSyntax (Text × ℕ) → Type 0
Outcome is_ipv6 (ok (host, port)) = (port < u16_mod) × ((is_ipv6 host ≡ true) ⊎ (host ≢ []))
Outcome is_ipv6 (err e) = e ≢ bare_ipv6

abbrev Port : Result HeadSyntax ℕ → Type 0
Port (ok port) = port < u16_mod
Port (err e) = e ≡ bad_port

port_of-Port : (s : Text) → Port (port_of s)
unfolding port_of
port_of-Port s = elim (Option-cases (parse_uint u16_mod s)) [
  | inl e ↦ rw (e, port_of) refl
  | inr (port, e) ↦ rw (e, port_of) (parse_uint-lt u16_mod port s (omega arith) e)
]

port_behind-Port : (s : Text) → Port (port_behind s)
unfolding port_behind
port_behind-Port s = elim (Option-cases (strip_prefix (codes ":") s)) [
  | inl e ↦ rw (e, port_behind) (omega arith)
  | inr (rest, e) ↦ rw (e, port_behind) (port_of-Port rest)
]

module _ (is_ipv6 : Text → Bool) where
  host_checked :
      (host : Text) (r : Result HeadSyntax ℕ)
      → Port r
      → Outcome is_ipv6 (r >>= λ port. if text_eq host [] then err empty_host else ok (host, port))
  unfolding text_eq
  host_checked [] (ok port) h = λ e. ground (arith, e)
  host_checked (c ∷ host) (ok port) h = (h, inr (λ e. ground (arith, e)))
  host_checked host (err e) h = λ same. ground (arith, h, same)

  parse_plain-Outcome : (s : Text) → s ≢ [] → Outcome is_ipv6 (parse_plain s)
  unfolding parse_plain
  parse_plain-Outcome s some_byte = elim (Option-cases (rsplit_once 58 s)) [
    | inl e ↦
        rw (e, split_once-none 58 s (rsplit_once-eq_none 58 s e), parse_plain)
          (omega arith, inr some_byte)
    | inr (parts, e) ↦
        rw (e, parse_plain) (host_checked parts.0 (port_of parts.1) (port_of-Port parts.1))
  ]

  bracket_checked :
      (host : Text) (r : Result HeadSyntax ℕ)
      → is_ipv6 host ≡ true
      → Port r
      → Outcome is_ipv6 (r >>= λ port. ok (host, port))
  bracket_checked host (ok port) known h = (h, inl known)
  bracket_checked host (err e) known h = λ same. ground (arith, h, same)

  parse_bracketed-Outcome : (s : Text) → Outcome is_ipv6 (parse_bracketed is_ipv6 s)
  unfolding parse_bracketed
  parse_bracketed-Outcome s = elim (Option-cases (split_once 93 s)) [
    | inl e ↦ rw (e, parse_bracketed) (λ same. ground (arith, same))
    | inr (parts, e) ↦ elim (Bool-cases (is_ipv6 parts.0)) [
      | inl known ↦
          rw (e, parse_bracketed, known)
            (bracket_checked parts.0 (port_behind parts.1) known (port_behind-Port parts.1))
      | inr unknown ↦ rw (e, parse_bracketed, unknown) (λ same. ground (arith, same))
    ]
  ]

  parse_trimmed-Outcome : (s : Text) → Outcome is_ipv6 (parse_trimmed is_ipv6 s)
  unfolding parse_trimmed text_eq
  parse_trimmed-Outcome [] = λ same. ground (arith, same)
  parse_trimmed-Outcome (c ∷ s) = elim (Option-cases (strip_prefix (codes "[") (c ∷ s))) [
    | inl e ↦ rw (e, parse_trimmed) (parse_plain-Outcome (c ∷ s) (λ same. ground (arith, same)))
    | inr (rest, e) ↦ rw (e, parse_trimmed) (parse_bracketed-Outcome rest)
  ]

  -- An authority is accepted only with a port below 2 ^ 16 and a host that is not empty, or in brackets
  -- and an IPv6 address. The message that a bare IPv6 address needs brackets is never given.
  pub parse_authority-Outcome : (s : Text) → Outcome is_ipv6 (parse_authority is_ipv6 s)
  unfolding parse_authority
  parse_authority-Outcome s = parse_trimmed-Outcome (trim s)

  -- Whatever stands behind the closing bracket of an IPv6 address is accepted with port 80, unless it
  -- begins with a colon or ends in white space.
  pub parse_authority_behind :
      (host : Text) (c : ℕ) (behind : Text)
      → is_ipv6 host ≡ true
      → All (λ d. d ≢ 93) host
      → c ≢ 58
      → Solid (c ∷ behind)
      → parse_authority is_ipv6 (91 ∷ host ++ 93 ∷ c ∷ behind) ≡ ok (host, 80)
  unfolding parse_authority parse_trimmed strip_prefix text_eq parse_bracketed port_behind
      is_whitespace
  parse_authority_behind host c behind known no_bracket no_colon solid =
      let whole =
        trim-Solid 91 (host ++ 93 ∷ c ∷ behind) refl
          (Solid-append (91 ∷ host) (93 ∷ c ∷ behind) solid) in
      rw (whole, split_once-append 93 host (c ∷ behind) no_bracket, parse_bracketed, known)
        (ground (arith, no_colon))
