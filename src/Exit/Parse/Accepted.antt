-- ===== src/Exit/Parse/Accepted.antt =====
-- Which requests `parse_request_head` accepts.
use spider_net.Prelude.{
  ℕ, ◌≤◌, ◌<◌, ◌≡◌, ◌≢◌, refl, sym, ap, Bool, false, [], ◌∷◌, ◌++◌, some, All, All-append, ok,
  u16_mod, arith,
}
use mathlib.Core.List.{append_assoc}
use spider_net.Prelude.Text.{Text, codes, text_eq, is_whitespace, strip_prefix, rsplit_once}
use spider_net.Prelude.Text.Splits.{split_once-append, rsplit_once-append, Solid-append, trim-Solid}
use spider_net.Prelude.Text.Decimal.{
  decimal, decimal-IsDigit, decimal-Solid, decimal_apart, parse_uint-decimal, IsDigit,
}
use spider_net.Prelude.Text.Utf8.{from_utf8-ascii}
use spider_net.Exit.Parse.{
  tunnel, drop_return, first_line, word, next_word, port_of, parse_plain, parse_trimmed,
  parse_authority, head_of, parse_line, parse_text, parse_request_head,
}

-- Printable ASCII without the space.
abbrev pub Visible : ℕ → Type 0
Visible c = (33 ≤ c) × (c < 127)

Visible-is_whitespace : (c : ℕ) → Visible c → is_whitespace c ≡ false
unfolding is_whitespace
Visible-is_whitespace c h = ground arith

word-append : (a s : Text) → All Visible a → word (a ++ 32 ∷ s) ≡ (a, 32 ∷ s)
unfolding word is_whitespace
word-append [] s h = refl
word-append (c ∷ a) s h = rw (Visible-is_whitespace c h.0, word-append a s h.1) refl

drop_return-append : (a : Text) → drop_return (a ++ 13 ∷ []) ≡ a
unfolding drop_return
drop_return-append [] = refl
drop_return-append (c ∷ []) = refl
drop_return-append (c ∷ d ∷ a) = ap (λ s. c ∷ s) (drop_return-append (d ∷ a))

port_of-decimal : (port : ℕ) → port < u16_mod → port_of (decimal port) ≡ ok port
unfolding port_of
port_of-decimal port fits = rw (parse_uint-decimal u16_mod port fits, port_of) refl

-- A host, a colon and a port.
abbrev pub authority : ℕ → Text → ℕ → Text
authority c host port = c ∷ host ++ 58 ∷ decimal port

parse_plain-authority :
    (c : ℕ) (host : Text) (port : ℕ)
    → port < u16_mod
    → parse_plain (authority c host port) ≡ ok (c ∷ host, port)
unfolding parse_plain text_eq rsplit_once
parse_plain-authority c host port fits =
    rw
      (
        rsplit_once-append 58 (c ∷ host) (decimal port) (decimal_apart port 58 (omega arith)),
        port_of-decimal port fits,
      )
      refl

authority-Visible :
    (c : ℕ) (host : Text) (port : ℕ) → All Visible (c ∷ host) → All Visible (authority c host port)
authority-Visible c host port h =
    All-append Visible (c ∷ host) (58 ∷ decimal port) h
      (omega arith, digits (decimal port) (decimal-IsDigit port))
  where
    digits : (s : Text) → All IsDigit s → All Visible s
    digits [] h = tt
    digits (d ∷ s) h = (omega (arith, h.0), digits s h.1)

parse_authority-authority :
    (is_ipv6 : Text → Bool) (c : ℕ) (host : Text) (port : ℕ)
    → Visible c
    → c ≢ 91
    → port < u16_mod
    → parse_authority is_ipv6 (authority c host port) ≡ ok (c ∷ host, port)
unfolding parse_authority parse_trimmed text_eq strip_prefix
parse_authority-authority is_ipv6 c host port visible open_bracket fits =
    let solid =
      Solid-append (c ∷ host) (58 ∷ decimal port)
        (Solid-append (58 ∷ []) (decimal port) (decimal-Solid port)) in
    let whole = trim-Solid c (host ++ 58 ∷ decimal port) (Visible-is_whitespace c visible) solid in
    rw whole (ground (arith, parse_plain-authority c host port fits, open_bracket))

-- The request line of a tunnel.
abbrev pub connect_line : Text → Text
connect_line target = codes "CONNECT " ++ target ++ codes " HTTP/1.1"

next_word_connect :
    (a : Text) → next_word (connect_line a) ≡ (codes "CONNECT", 32 ∷ a ++ codes " HTTP/1.1")
unfolding next_word word is_whitespace
next_word_connect a = refl

next_word_target :
    (c : ℕ) (a : Text)
    → All Visible (c ∷ a)
    → next_word (32 ∷ (c ∷ a) ++ codes " HTTP/1.1") ≡ (c ∷ a, codes " HTTP/1.1")
unfolding next_word is_whitespace
next_word_target c a h = rw (Visible-is_whitespace c h.0) (word-append (c ∷ a) (codes "HTTP/1.1") h)

-- No byte of the request line ends it.
abbrev InLine : ℕ → Type 0
InLine b = (32 ≤ b) × (b < 127)

connect_line-InLine : (a : Text) → All Visible a → All InLine (connect_line a)
connect_line-InLine a h =
    All-append InLine (codes "CONNECT ") (a ++ codes " HTTP/1.1") (omega arith)
      (All-append InLine a (codes " HTTP/1.1") (inside a h) (omega arith))
  where
    inside : (a : Text) → All Visible a → All InLine a
    inside [] h = tt
    inside (c ∷ a) h = (omega (arith, h.0), inside a h.1)

first_line-append :
    (line rest : Text)
    → line ≢ []
    → All InLine line
    → first_line (line ++ 13 ∷ 10 ∷ rest) ≡ some line
unfolding first_line
first_line-append [] rest some_byte h = absurd (some_byte refl)
first_line-append (c ∷ line) rest some_byte h =
    rw
      (
        sym (append_assoc (c ∷ line) (13 ∷ []) (10 ∷ rest)),
        split_once-append 10 (c ∷ line ++ 13 ∷ []) rest (apart (c ∷ line) h),
        first_line,
      )
      (ap some (drop_return-append (c ∷ line)))
  where
    apart : (s : Text) → All InLine s → All (λ b. b ≢ 10) (s ++ 13 ∷ [])
    apart [] h = ((λ e. omega (arith, e)), tt)
    apart (b ∷ s) h = ((λ e. omega (arith, e, h.0)), apart s h.1)

parse_line-connect :
    (is_ipv6 : Text → Bool) (c : ℕ) (host : Text) (port : ℕ)
    → All Visible (c ∷ host)
    → c ≢ 91
    → port < u16_mod
    → parse_line is_ipv6 (connect_line (authority c host port))
      ≡ ok (record { target = tunnel; host = c ∷ host; port = port })
unfolding parse_line head_of text_eq
parse_line-connect is_ipv6 c host port visible open_bracket fits =
    rw
      (
        next_word_connect (authority c host port),
        next_word_target c (host ++ 58 ∷ decimal port) (authority-Visible c host port visible),
        parse_authority-authority is_ipv6 c host port visible.0 open_bracket fits,
      )
      refl

-- A tunnel request for a host and a port, followed by any ASCII bytes, is parsed into these. The host
-- is any visible ASCII text that does not begin with `[`; it may have colons of its own.
pub parse_request_head-connect :
    (is_ipv6 : Text → Bool) (c : ℕ) (host rest : Text) (port : ℕ)
    → All Visible (c ∷ host)
    → c ≢ 91
    → port < u16_mod
    → All (λ b. b < 128) rest
    → parse_request_head is_ipv6 (connect_line (authority c host port) ++ 13 ∷ 10 ∷ rest)
      ≡ ok (record { target = tunnel; host = c ∷ host; port = port })
unfolding parse_request_head parse_text
parse_request_head-connect is_ipv6 c host rest port visible open_bracket fits ascii =
    let a = authority c host port in
    let line = connect_line-InLine a (authority-Visible c host port visible) in
    rw
      (
        from_utf8-ascii (connect_line a ++ 13 ∷ 10 ∷ rest) (
            All-append (λ b. b < 128) (connect_line a) (13 ∷ 10 ∷ rest)
              (below (connect_line a) line) (omega arith, (omega arith, ascii))),
        first_line-append (connect_line a) rest (λ e. ground (arith, e)) line,
        parse_request_head,
        parse_text,
      )
      (parse_line-connect is_ipv6 c host port visible open_bracket fits)
  where
    below : (s : Text) → All InLine s → All (λ b. b < 128) s
    below [] h = tt
    below (b ∷ s) h = (omega (arith, h.0), below s h.1)
