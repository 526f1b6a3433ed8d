-- ===== src/Node/Settings/Uris.antt =====
-- The peer and listen URIs that parsing accepts.
use spider_net.Prelude.{
  ◌<◌, ◌≡◌, ◌≢◌, inl, inr, sym, ap, subst, ◌∙◌, true, false, List, [], ◌∷◌, ◌++◌, Option, some,
  Option-cases, Bool-cases, ok, ok-inj, ltb, ltb→lt, ◌∈◌, arith,
}
use mathlib.Core.List.{append-nil}
use spider_net.Prelude.Text.{Text, codes, trim, strip_prefix, starts_with}
use spider_net.Prelude.Text.Splits.{trim_idem, strip_prefix-some}
use spider_net.Node.Types.{UriHint, peer_schemes, listen_schemes}
use spider_net.Node.Settings.{
  str_len, schemes, find_scheme, validate_scheme, parse_peer, parse_listen,
}

some-inj : {A : Type 0} {x y : A} → ◌≡◌ {A = Option A} (some x) (some y) → x ≡ y
some-inj h = cc

find_scheme-some :
    (list : List Text) (s scheme : Text)
    → find_scheme list s ≡ some scheme
    → (scheme ∈ list) × (starts_with s scheme ≡ true)
unfolding find_scheme
find_scheme-some [] s scheme h = absurd (ground (arith, h))
find_scheme-some (x ∷ list) s scheme h = elim (Bool-cases (starts_with s x)) [
  | inl here ↦
      let same : x ≡ scheme = some-inj (rw here at h) in
      (inl same, subst (λ y. starts_with s y ≡ true) same here)
  | inr later ↦ let (m, begins) = find_scheme-some list s scheme (rw later at h) in (inr m, begins)
]

longer : (scheme s rest : Text) → s ≡ scheme ++ rest → rest ≡ [] → str_len scheme < str_len s → ⊥
longer scheme s rest same none_left h =
    let whole : s ≡ scheme = same ∙ ap (λ r. scheme ++ r) none_left ∙ append-nil scheme in
    let lens : str_len s ≡ str_len scheme = ap str_len whole in omega (arith, lens)

begins :
    (s scheme : Text)
    → find_scheme schemes s ≡ some scheme
    → ltb (str_len scheme) (str_len s) ≡ true
    → (scheme rest : Text) × (scheme ∈ schemes) × (rest ≢ []) × (s ≡ scheme ++ rest)
unfolding starts_with
begins s scheme e long =
    let (m, start) = find_scheme-some schemes s scheme e in
    elim (Option-cases (strip_prefix scheme s)) [
      | inl none_such ↦ absurd (ground (arith, rw (none_such, starts_with) at start))
      | inr (rest, f) ↦
          let same = strip_prefix-some scheme s rest f in
          (
            scheme,
            rest,
            m,
            λ none_left.
                longer scheme s rest same none_left (ltb→lt (str_len scheme) (str_len s) long),
            same,
          )
    ]

again_scheme :
    (t scheme : Text)
    → (hint : UriHint) → trim t ≡ t
    → find_scheme schemes t ≡ some scheme
    → ltb (str_len scheme) (str_len t) ≡ true
    → validate_scheme t hint ≡ ok t
unfolding validate_scheme
again_scheme t scheme hint kept e long = ground (arith, kept, e, long)

-- What an accepted text is made of.
validate_scheme-ok :
    (input uri : Text) (hint : UriHint)
    → validate_scheme input hint ≡ ok uri
    → (scheme : Text) × (trim input ≡ uri)
      × (find_scheme schemes (trim input) ≡ some scheme)
      × (ltb (str_len scheme) (str_len (trim input)) ≡ true)
unfolding validate_scheme
validate_scheme-ok input uri hint h = elim (Option-cases (find_scheme schemes (trim input))) [
  | inl e ↦ absurd (ground (arith, rw (e, validate_scheme) at h))
  | inr (scheme, e) ↦ elim (Bool-cases (ltb (str_len scheme) (str_len (trim input)))) [
    | inr short ↦ absurd (ground (arith, rw (e, validate_scheme, short) at h))
    | inl long ↦ (scheme, ok-inj (rw (e, validate_scheme, long) at h), e, long)
  ]
]

-- A peer URI that is accepted begins with one of the schemes, goes on behind it, and is accepted as it is.
pub parse_peer_canonical :
    (input uri : Text)
    → parse_peer input ≡ ok uri
    → ((scheme rest : Text) × (scheme ∈ schemes) × (rest ≢ []) × (uri ≡ scheme ++ rest))
      × (parse_peer uri ≡ ok uri)
unfolding parse_peer
parse_peer_canonical input uri h =
    let (scheme, same, e, long) = validate_scheme-ok input uri peer_schemes h in
    subst
      (λ u.
        ((scheme rest : Text) × (scheme ∈ schemes) × (rest ≢ []) × (u ≡ scheme ++ rest))
        × (parse_peer u ≡ ok u))
      same
      (
        begins (trim input) scheme e long,
        again_scheme (trim input) scheme peer_schemes (trim_idem input) e long,
      )

-- A listen URI that is accepted is accepted as it is.
pub parse_listen_canonical :
    (input uri : Text) → parse_listen input ≡ ok uri → parse_listen uri ≡ ok uri
unfolding parse_listen
parse_listen_canonical input uri h =
    elim (Bool-cases (starts_with (trim input) (codes "socks://"))) [
      | inl socks ↦ absurd (ground (arith, rw socks at h))
      | inr other ↦
          let (scheme, same, e, long) =
            validate_scheme-ok (trim input) uri listen_schemes (rw other at h) in
          let kept : trim uri ≡ uri = subst (λ u. trim u ≡ u) same (trim_idem (trim input)) in
          let start : starts_with uri (codes "socks://") ≡ false =
            subst (λ u. starts_with u (codes "socks://") ≡ false) (sym (trim_idem input) ∙ same)
              other in
          let valid : validate_scheme uri listen_schemes ≡ ok uri =
            again_scheme uri scheme listen_schemes kept
              (subst (λ u. find_scheme schemes u ≡ some scheme) same e)
              (subst (λ u. ltb (str_len scheme) (str_len u) ≡ true) same long) in
          ground (arith, kept, start, valid)
    ]
