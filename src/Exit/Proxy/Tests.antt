-- ===== src/Exit/Proxy/Tests.antt =====
-- The properties of a connection at a concrete one.
use spider_net.Prelude.{
  ℕ, ◌*◌, ◌≡◌, refl, Bool, true, false, List, [], ◌∷◌, ◌++◌, none, some, ok, get_elem?,
}
use spider_net.Prelude.Text.{Text, codes}
use spider_net.Exit.Address.{IpAddr, v4, SocketAddr, public_only, resolve_public_origin}
use spider_net.Exit.Config.{ExitConfig, new_allowlist, is_allowed}
use spider_net.Exit.Head.{Reading, byte, closed, read_head}
use spider_net.Exit.Ledger.{allowed, second, admit}
use spider_net.Prelude.TreeMap.{lookup}
use spider_net.Prelude.Text.{
  text_eq, is_whitespace, trim_start, cons_trimmed, trim_end, trim, strip_prefix, split_once,
  rsplit_once, is_digit, parse_digits, parse_uint,
}
use spider_net.Prelude.Text.Utf8.{begin, decode_from, from_utf8}
use spider_net.Exit.Address.{check_public, is_public_origin, is_public_v4}
use spider_net.Exit.Config.{ip_eq, is_loopback, contains, collect_set}
use spider_net.Exit.Head.{read_loop, ends_with, same_bytes}
use spider_net.Exit.Ledger.{or_fresh, roll_window, decide}
use spider_net.Exit.Parse.{
  drop_return, first_line, word, next_word, port_of, parse_plain, parse_trimmed, parse_authority,
  head_of, parse_line, parse_text,
}
use spider_net.Exit.Parse.{tunnel, parse_request_head}
use spider_net.Exit.Proxy.{
  with_head, admitted, parsed, resolved, to_origin, acknowledge, connect, send_head, relay, Peer,
  ready, pending, key, handle_connection,
}
use spider_net.Exit.Proxy.Contact.{Granted, handle_connection-Granted}
use spider_net.Exit.Proxy.Account.{accounted, handle_connection-accounted}

abbrev head_bytes : List ℕ
head_bytes = codes "CONNECT a:80 HTTP/1.1" ++ (13 ∷ 10 ∷ 13 ∷ 10 ∷ [])

abbrev neighbour : IpAddr
neighbour = v4 10 0 0 7

abbrev origin : List SocketAddr
origin = record { ip = v4 93 184 216 34; port = 80 } ∷ []

abbrev no_ipv6 : Text → Bool
no_ipv6 s = false

stream : ℕ → Reading ℕ
stream n = elim (get_elem? head_bytes n) [ none ↦ closed | some b ↦ byte b ]

abbrev config : ExitConfig
config = record {
  bind = record { ip = v4 127 0 0 1; port = 8080 };
  allowlist = new_allowlist (neighbour ∷ []);
  quota = some (record { max_bytes = 1000; window = 60 * second });
  origin_policy = public_only;
}

abbrev peer : Peer ℕ
peer = record {
  stream = stream;
  now = 5;
  later = 6;
  lookup_host = λ host port. ok origin;
  ack_fault = none;
  connect_fault = none;
  head_polls = [];
  send_fault = none;
  up_polls = ready 100 ∷ pending ∷ ready 20 ∷ [];
  down_polls = ready 500 ∷ [];
  relay_fault = none;
  others = [];
  ended = 50;
}

head_read : read_head stream ≡ ok head_bytes
unfolding read_head read_loop ends_with same_bytes stream
head_read = refl

on_list : is_allowed config.allowlist neighbour ≡ true
unfolding is_allowed is_loopback contains new_allowlist collect_set ip_eq
on_list = refl

has_quota : (admit [] (key neighbour) config.quota 5 6).0 ≡ allowed
unfolding admit decide roll_window or_fresh lookup
has_quota = refl

syntax :
    parse_request_head no_ipv6 head_bytes
    ≡ ok (record { target = tunnel; host = codes "a"; port = 80 })
unfolding parse_request_head parse_text from_utf8 decode_from begin first_line parse_line head_of
    parse_authority parse_trimmed parse_plain parse_uint parse_digits is_digit drop_return
    split_once rsplit_once trim trim_start trim_end cons_trimmed is_whitespace strip_prefix text_eq
    port_of next_word word
syntax = refl

public : resolve_public_origin origin public_only ≡ ok origin
unfolding resolve_public_origin check_public is_public_origin is_public_v4
public = refl

connected : (handle_connection no_ipv6 config neighbour peer []).contacted ≡ some origin
unfolding handle_connection with_head admitted parsed resolved to_origin acknowledge connect
    send_head relay
connected =
    rw
      (
        head_read, handle_connection, on_list, has_quota, admitted, syntax, parsed, resolved,
        public, to_origin, acknowledge, connect,
      )
      refl

handle_connection-Granted_example : Granted no_ipv6 config neighbour peer [] origin
handle_connection-Granted_example =
    handle_connection-Granted no_ipv6 config neighbour peer [] origin connected

handle_connection-accounted_example :
    (handle_connection no_ipv6 config neighbour peer []).ledger
    ≡ accounted no_ipv6 config neighbour peer tunnel (admit [] (key neighbour) config.quota 5 6).1
handle_connection-accounted_example =
    handle_connection-accounted no_ipv6 config neighbour peer [] head_bytes
      (record { target = tunnel; host = codes "a"; port = 80 }) origin origin head_read on_list
      has_quota syntax refl public refl refl refl
