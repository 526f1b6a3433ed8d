-- ===== src/Exit/Parse/Tests.antt =====
-- The properties of the request line at concrete requests.
use spider_net.Prelude.{◌≡◌, Bool, [], ◌∷◌, ◌++◌, ok, arith}
use spider_net.Prelude.Text.{Text, codes, text_eq}
use spider_net.Exit.Parse.{tunnel, parse_request_head, parse_authority}
use spider_net.Exit.Parse.Accepted.{authority, connect_line, parse_request_head-connect}
use spider_net.Exit.Parse.Outcomes.{Outcome, parse_authority-Outcome}

-- The one IPv6 address that these tests know.
abbrev only_loopback : Text → Bool
only_loopback s = text_eq s (codes "::1")

abbrev host_end : Text
host_end = codes "xample.com"

parse_request_head-connect_example :
    parse_request_head only_loopback
      (connect_line (authority 101 host_end 443) ++ 13 ∷ 10 ∷ 13 ∷ 10 ∷ [])
    ≡ ok (record { target = tunnel; host = 101 ∷ host_end; port = 443 })
parse_request_head-connect_example =
    parse_request_head-connect only_loopback 101 host_end (13 ∷ 10 ∷ []) 443 (omega arith)
      (λ e. omega (arith, e)) (omega arith) (omega arith)

parse_authority-Outcome_example :
    Outcome only_loopback (parse_authority only_loopback (codes "example.com:8080"))
parse_authority-Outcome_example = parse_authority-Outcome only_loopback (codes "example.com:8080")
