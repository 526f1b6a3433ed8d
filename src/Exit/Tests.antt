-- ===== src/Exit/Tests.antt =====
-- Runs of the ledger and of the origin check, and the properties at these runs.
use spider_net.Prelude.{
  ℕ, ◌+◌, ◌-◌, ◌%◌, ◌*◌, ◌≤◌, ◌<◌, ◌≡◌, ◌≢◌, ◌↔◌, ◌⊎◌, refl, false, true, List, [], ◌∷◌, some, ok,
  All, arith,
}
use spider_net.Prelude.TreeMap.{lookup, insert}
use spider_net.Exit.Address.{
  v4, v6, is_public_v4, is_public_v6, is_public_origin, SocketAddr, public_only,
  resolve_public_origin,
}
use spider_net.Exit.Address.Blocks.{
  value, Refused, is_public_v4-Refused, resolve_public_origin-ok_iff,
}
use spider_net.Exit.Ledger.{
  QuotaPolicy, ClientWindow, allowed, admit, Use, started, ended, run, second, roll_window,
  or_fresh, decide,
}
use spider_net.Exit.Ledger.Window.{traffic, admit-run_iff}
use spider_net.Exit.Ledger.Waiting.{admit-retry_iff}
use spider_net.Prelude.{get_elem?, ◌++◌, length, none}
use spider_net.Exit.Head.{
  Reading, byte, closed, read_head, read_loop, ends_with, same_bytes, max_head_bytes,
}
use spider_net.Exit.Head.Shortest.{Sent, Completes, read_head-ok_iff}

-- ::ffff:127.0.0.1 and 2606:2800:220:1:248:1893:25c8:1946.
mapped_loopback : is_public_origin (v6 0 0 0 0 0 65535 32512 1) ≡ false
unfolding is_public_origin is_public_v6 is_public_v4
mapped_loopback = refl

public_v6 : is_public_origin (v6 9734 10240 544 1 584 6291 9672 6470) ≡ true
unfolding is_public_origin is_public_v6 is_public_v4
public_v6 = refl

is_public_v4-Refused_example : (is_public_v4 172 20 3 4 ≡ false) ↔ Refused (value 172 20 3 4)
is_public_v4-Refused_example =
    is_public_v4-Refused 172 20 3 4 (omega arith) (omega arith) (omega arith) (omega arith)

abbrev answers : List SocketAddr
answers = record { ip = v4 93 184 216 34; port = 80 } ∷ record { ip = v4 10 0 0 5; port = 80 } ∷ []

resolve_public_origin-ok_iff_example :
    (resolve_public_origin answers public_only ≡ ok answers)
    ↔ ((answers ≡ answers) × (answers ≢ []) × All (λ addr. is_public_origin addr.ip ≡ true) answers)
resolve_public_origin-ok_iff_example = resolve_public_origin-ok_iff answers answers

-- 1000 bytes in a minute.
abbrev policy : QuotaPolicy
policy = record { max_bytes = 1000; window = 60 * second }

abbrev window : ClientWindow
window = record { window_started = 5; used_bytes = 100 }

abbrev clients : List (ℕ × ClientWindow)
clients = (7, window) ∷ (8, record { window_started = 0; used_bytes = 0 }) ∷ []

abbrev uses : List Use
uses = started 7 20 21 ∷ ended 8 25 5000 ∷ ended 7 30 800 ∷ []

admit-run_iff_example :
    ((admit (run policy uses clients) 7 (some policy) 40 41).0 ≡ allowed)
    ↔ ((5 + 60 * second ≤ 40) ⊎ (100 + traffic 7 uses < 1000))
unfolding lookup
admit-run_iff_example =
    admit-run_iff policy 7 clients window uses 40 41 (omega arith) (omega arith) (omega arith) refl
      (omega arith) ((λ e. omega arith), ((λ e. omega arith), ((λ e. omega arith), tt)))

abbrev spent : ClientWindow
spent = record { window_started = 0; used_bytes = 1000 }

admit-retry_iff_example :
    ((admit
        (admit ((7, spent) ∷ []) 7 (some policy) 100 100).1
        7
        (some policy)
        (100 + 59 * second)
        (101 + 59 * second)).0
      ≡ allowed)
    ↔ ((60 * second - 100 < second) ⊎ ((60 * second - 100) % second ≡ 0))
unfolding lookup insert admit roll_window or_fresh decide
admit-retry_iff_example =
    admit-retry_iff policy 7 ((7, spent) ∷ []) spent 100 (101 + 59 * second) 59 (omega arith)
      (omega arith) (omega arith) refl (omega arith) (omega arith) (omega arith) refl

abbrev head_bytes : List ℕ
head_bytes = 71 ∷ 13 ∷ 10 ∷ 13 ∷ 10 ∷ []

-- A stream that sends `G` and the terminator, and one byte more.
request : ℕ → Reading ℕ
request n = elim (get_elem? (head_bytes ++ 66 ∷ []) n) [ none ↦ closed | some b ↦ byte b ]

request_read : read_head request ≡ ok head_bytes
unfolding read_head read_loop ends_with same_bytes request
request_read = refl

read_head-ok_iff_example : (read_head request ≡ ok head_bytes) ↔ (
    Sent request 0 head_bytes
    × Completes request [] head_bytes
    × (length head_bytes ≤ max_head_bytes))
read_head-ok_iff_example = read_head-ok_iff request head_bytes
