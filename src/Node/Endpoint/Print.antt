-- ===== src/Node/Endpoint/Print.antt =====
-- Printing an admin endpoint, and reading it back.
use spider_net.Prelude.{
  ℕ, ◌<◌, ◌≡◌, ◌≢◌, refl, [], ◌∷◌, ◌++◌, Option-cases, inl, inr, ok, err, ok-inj, subst, ◌⊎◌,
  if◌then◌else◌, u16_mod, arith,
}
use mathlib.Core.List.{append_assoc}
use spider_net.Prelude.Text.{
  Text, codes, text_eq, is_whitespace, trim, trim_start, strip_prefix, rsplit_once, parse_uint,
}
use spider_net.Prelude.Text.Decimal.{
  decimal, decimal-Solid, decimal_apart, parse_uint-decimal, parse_uint-lt,
}
use spider_net.Prelude.Text.Splits.{
  Solid, Solid-append, trim-Solid, trim_end-Solid_or_empty, Solid-suffix, strip_prefix-some,
  rsplit_once-append,
}
use spider_net.Node.Endpoint.{
  AdminEndpoint, tcp, unix, tcp_endpoint, unix_endpoint, parse_trimmed, parse_endpoint,
  config_value,
}

-- A host that is not empty and a port of 16 bits, or a path that does not end in white space.
abbrev pub IsEndpoint : AdminEndpoint → Type 0
IsEndpoint (tcp host port) = (host ≢ []) × (port < u16_mod)
IsEndpoint (unix path) = Solid path

tcp_endpoint-print :
    (trimmed host : Text) (port : ℕ)
    → host ≢ []
    → port < u16_mod
    → tcp_endpoint trimmed (host ++ codes ":" ++ decimal port) ≡ ok (tcp host port)
unfolding tcp_endpoint text_eq
tcp_endpoint-print trimmed [] port some_host fits = absurd (some_host refl)
tcp_endpoint-print trimmed (c ∷ host) port some_host fits =
    rw
      (
        append_assoc (c ∷ host) (codes ":") (decimal port),
        rsplit_once-append 58 (c ∷ host) (decimal port) (decimal_apart port 58 (omega arith)),
        tcp_endpoint,
        parse_uint-decimal u16_mod port fits,
      )
      refl

unix_endpoint-print :
    (trimmed path : Text) → Solid path → unix_endpoint trimmed path ≡ ok (unix path)
unfolding unix_endpoint text_eq
unix_endpoint-print trimmed [] solid = absurd solid
unix_endpoint-print trimmed (c ∷ path) solid = refl

-- What `config_value` prints of a valid endpoint is read back as the same endpoint.
pub parse_endpoint-config_value :
    (e : AdminEndpoint) → IsEndpoint e → parse_endpoint (config_value e) ≡ ok e
unfolding parse_endpoint config_value parse_trimmed strip_prefix is_whitespace
parse_endpoint-config_value (tcp host port) (some_host, fits) =
    let rest = host ++ codes ":" ++ decimal port in
    let solid =
      Solid-append (codes "tcp://") rest
        (Solid-append (host ++ codes ":") (decimal port) (decimal-Solid port)) in
    rw (trim-Solid 116 (codes "cp://" ++ rest) refl solid)
      (tcp_endpoint-print (codes "tcp://" ++ rest) host port some_host fits)
parse_endpoint-config_value (unix path) solid =
    rw (trim-Solid 117 (codes "nix://" ++ path) refl (Solid-append (codes "unix://") path solid))
      (unix_endpoint-print (codes "unix://" ++ path) path solid)

tcp_endpoint-IsEndpoint :
    (trimmed rest : Text) (e : AdminEndpoint) → tcp_endpoint trimmed rest ≡ ok e → IsEndpoint e
unfolding tcp_endpoint text_eq
tcp_endpoint-IsEndpoint trimmed rest e h = elim (Option-cases (rsplit_once 58 rest)) [
  | inl f ↦ absurd (ground (arith, rw (f, tcp_endpoint) at h))
  | inr (parts, f) ↦ elim (Option-cases (parse_uint u16_mod parts.1)) [
    | inl g ↦ absurd (ground (arith, rw (f, tcp_endpoint, g) at h))
    | inr (port, g) ↦
        host_checked parts.0 port (parse_uint-lt u16_mod port parts.1 (omega arith) g)
          (rw (f, tcp_endpoint, g) at h)
  ]
]
  where
    host_checked :
        (host : Text) (port : ℕ)
        → port < u16_mod
        → (if text_eq host [] then err trimmed else ok (tcp host port)) ≡ ok e
        → IsEndpoint e
    host_checked [] port fits h = absurd (ground (arith, h))
    host_checked (c ∷ host) port fits h =
        subst IsEndpoint (ok-inj h) ((λ f. ground (arith, f)), fits)

unix_endpoint-IsEndpoint :
    (trimmed rest : Text) (e : AdminEndpoint)
    → (rest ≢ [] → Solid rest)
    → unix_endpoint trimmed rest ≡ ok e
    → IsEndpoint e
unfolding unix_endpoint text_eq
unix_endpoint-IsEndpoint trimmed [] e solid h = absurd (ground (arith, h))
unix_endpoint-IsEndpoint trimmed (c ∷ rest) e solid h =
    subst IsEndpoint (ok-inj h) (solid (λ f. ground (arith, f)))

parse_trimmed-IsEndpoint :
    (t : Text) (e : AdminEndpoint) → (t ≡ []) ⊎ Solid t → parse_trimmed t ≡ ok e → IsEndpoint e
unfolding parse_trimmed
parse_trimmed-IsEndpoint t e solid h = elim (Option-cases (strip_prefix (codes "tcp://") t)) [
  | inr (rest, f) ↦ tcp_endpoint-IsEndpoint t rest e (rw (f, parse_trimmed) at h)
  | inl f ↦ elim (Option-cases (strip_prefix (codes "unix://") t)) [
    | inl g ↦ absurd (ground (arith, rw (f, parse_trimmed, g) at h))
    | inr (rest, g) ↦
        unix_endpoint-IsEndpoint t rest e
          (λ some_rest. suffix (strip_prefix-some (codes "unix://") t rest g) some_rest solid)
          (rw (f, parse_trimmed, g) at h)
  ]
]
  where
    suffix :
        {rest : Text} → t ≡ codes "unix://" ++ rest → rest ≢ [] → (t ≡ []) ⊎ Solid t → Solid rest
    suffix same some_rest (inl none_at_all) = absurd (ground (arith, same, none_at_all))
    suffix {rest} same some_rest (inr s) =
        Solid-suffix (codes "unix://") rest some_rest (subst Solid same s)

-- An endpoint that was read is read back from what `config_value` prints of it.
pub parse_endpoint_canonical :
    (input : Text) (e : AdminEndpoint)
    → parse_endpoint input ≡ ok e
    → parse_endpoint (config_value e) ≡ ok e
unfolding parse_endpoint trim
parse_endpoint_canonical input e h =
    parse_endpoint-config_value e
      (parse_trimmed-IsEndpoint (trim input) e (trim_end-Solid_or_empty (trim_start input)) h)
