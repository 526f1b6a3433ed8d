-- ===== src/Exit/Parse.antt =====
-- server/crates/sn-exit/src/parse.rs. Whether a text is an IPv6 address is the parameter `is_ipv6`, the
-- parser of `std::net::Ipv6Addr`.
pub mod Accepted
pub mod Outcomes
mod Tests
use Prim.Native.String.{String}
use spider_net.Prelude.{
  ℕ, Bool, true, false, ◌||◌, List, [], ◌∷◌, Option, none, some, if◌then◌else◌, ◌==◌, Result, ok,
  err, ◌>>=◌, u16_mod,
}
use spider_net.Prelude.Text.{
  Text, codes, text_eq, is_whitespace, trim, strip_prefix, split_once, rsplit_once, parse_uint,
}
use spider_net.Prelude.Text.Utf8.{from_utf8}

pub data RequestTarget : Type 0 where
  tunnel forward : RequestTarget

pub record RequestHead : Type 0 where
  pub target : RequestTarget
  pub host : Text
  pub port : ℕ

-- The messages of `ExitError::Protocol` that parsing raises.
pub data HeadSyntax : Type 0 where
  not_utf8 empty_head not_absolute unsupported_method empty_authority unterminated_ipv6 : HeadSyntax
  bad_ipv6 bad_port bare_ipv6 empty_host : HeadSyntax

-- A line without the carriage return before its line feed.
unfoldable pub drop_return : Text → Text
drop_return [] = []
drop_return (c ∷ []) = if c == 13 then [] else c ∷ []
drop_return (c ∷ d ∷ s) = c ∷ drop_return (d ∷ s)

-- `lines().next()`.
unfoldable pub first_line : Text → Option Text
first_line [] = none
first_line (c ∷ s) = elim (split_once 10 (c ∷ s)) [
  | some (line, _) ↦ some (drop_return line)
  | none ↦ some (c ∷ s)
]

-- The characters up to the next white space, and the rest.
unfoldable pub word : Text → Text × Text
word [] = ([], [])
word (c ∷ s) = let (w, rest) = word s in if is_whitespace c then ([], c ∷ s) else (c ∷ w, rest)

-- One step of `split_whitespace`, empty at the end.
unfoldable pub next_word : Text → Text × Text
next_word [] = ([], [])
next_word (c ∷ s) = if is_whitespace c then next_word s else word (c ∷ s)

-- A port, or the message for it.
unfoldable pub port_of : Text → Result HeadSyntax ℕ
port_of s = elim (parse_uint u16_mod s) [ some port ↦ ok port | none ↦ err bad_port ]

-- What may stand behind `]`.
unfoldable pub port_behind : Text → Result HeadSyntax ℕ
port_behind s = elim (strip_prefix (codes ":") s) [ none ↦ ok 80 | some port ↦ port_of port ]

-- The authority without brackets.
unfoldable pub parse_plain : Text → Result HeadSyntax (Text × ℕ)
parse_plain authority = elim (rsplit_once 58 authority) [
  | none ↦ elim (split_once 58 authority) [ some _ ↦ err bare_ipv6 | none ↦ ok (authority, 80) ]
  | some (host, port) ↦
      port_of port >>= λ port. if text_eq host [] then err empty_host else ok (host, port)
]

-- `rest.split('/').next()`.
unfoldable pub before_slash : Text → Text
before_slash s = elim (split_once 47 s) [ some (before, _) ↦ before | none ↦ s ]

unfoldable pub is_forwarded : Text → Bool
is_forwarded method =
    text_eq method (codes "GET")
    || text_eq method (codes "HEAD")
    || text_eq method (codes "POST")
    || text_eq method (codes "PUT")
    || text_eq method (codes "DELETE")
    || text_eq method (codes "OPTIONS")

module _ (is_ipv6 : Text → Bool) where
  -- The authority behind `[`.
  unfoldable pub parse_bracketed : Text → Result HeadSyntax (Text × ℕ)
  parse_bracketed rest = elim (split_once 93 rest) [
    | none ↦ err unterminated_ipv6
    | some (host, behind) ↦
        if is_ipv6 host then (port_behind behind >>= λ port. ok (host, port)) else err bad_ipv6
  ]

  unfoldable pub parse_trimmed : Text → Result HeadSyntax (Text × ℕ)
  parse_trimmed authority =
      if text_eq authority []
      then err empty_authority
      else elim (strip_prefix (codes "[") authority) [
        | some rest ↦ parse_bracketed rest
        | none ↦ parse_plain authority
      ]

  -- `parse_authority`.
  unfoldable pub parse_authority : Text → Result HeadSyntax (Text × ℕ)
  parse_authority authority = parse_trimmed (trim authority)

  unfoldable pub head_of : RequestTarget → Text → Result HeadSyntax RequestHead
  head_of target authority = do
    (host, port) ← parse_authority authority
    ok (record { target = target; host = host; port = port })

  unfoldable pub parse_absolute : Text → Result HeadSyntax RequestHead
  parse_absolute raw_target = elim (strip_prefix (codes "http://") raw_target) [
    | none ↦ err not_absolute
    | some rest ↦ head_of forward (before_slash rest)
  ]

  -- The request line by its method and target.
  unfoldable pub parse_line : Text → Result HeadSyntax RequestHead
  parse_line line =
      let (method, rest) = next_word line in
      let (raw_target, _) = next_word rest in
      if text_eq method (codes "CONNECT")
      then head_of tunnel raw_target
      else if is_forwarded method
      then parse_absolute raw_target
      else err unsupported_method

  unfoldable pub parse_text : Text → Result HeadSyntax RequestHead
  parse_text head = elim (first_line head) [ none ↦ err empty_head | some line ↦ parse_line line ]

  -- `parse_request_head`.
  unfoldable pub parse_request_head : List ℕ → Result HeadSyntax RequestHead
  parse_request_head head = elim (from_utf8 head) [ none ↦ err not_utf8 | some s ↦ parse_text s ]
