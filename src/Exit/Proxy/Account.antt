-- ===== src/Exit/Proxy/Account.antt =====
-- What `handle_connection` puts into the ledger.
use spider_net.Prelude.{
  ℕ, ◌+◌, ◌≡◌, refl, ap, ◌∙◌, Bool, true, List, [], ◌∷◌, none, ok, wrap64, arith,
}
use spider_net.Prelude.Text.{Text}
use spider_net.Exit.Address.{IpAddr, SocketAddr, resolve_public_origin}
use spider_net.Exit.Config.{ExitConfig, is_allowed}
use spider_net.Exit.Head.{read_head}
use spider_net.Exit.Ledger.{ClientWindow, allowed, admit, record_traffic}
use spider_net.Exit.Parse.{RequestTarget, tunnel, forward, RequestHead, parse_request_head}
use spider_net.Exit.Proxy.{
  Poll, pending, ready, broken, CountingIo, new_counting, Peer, Handled, key, poll_write,
  poll_writes, run_others, relay, send_head, connect, acknowledge, to_origin, resolved, parsed,
  admitted, with_head, handle_connection,
}

wrap64-sums :
    (up down before bytes up_total down_total : ℕ)
    → wrap64 up ≡ wrap64 (before + up_total)
    → wrap64 down ≡ wrap64 (0 + down_total)
    → wrap64 before ≡ wrap64 bytes
    → wrap64 (up + down) ≡ wrap64 (bytes + up_total + down_total)
unfolding wrap64
wrap64-sums up down before bytes up_total down_total p q r = omega (arith, p, q, r)

module _ {I : Type 0} where
  -- The bytes that the polls wrote.
  abbrev pub bytes_of : Poll I → ℕ
  bytes_of pending = 0
  bytes_of (ready n) = n
  bytes_of (broken e) = 0

  abbrev pub total : List (Poll I) → ℕ
  total [] = 0
  total (p ∷ polls) = bytes_of p + total polls

  poll_writes-total :
      (c : CountingIo) (polls : List (Poll I))
      → wrap64 (poll_writes c polls).written ≡ wrap64 (c.written + total polls)
  unfolding poll_writes poll_write wrap64
  poll_writes-total c [] = omega arith
  poll_writes-total c (pending ∷ polls) = omega (arith, poll_writes-total c polls)
  poll_writes-total c (ready n ∷ polls) =
      omega (arith, poll_writes-total (poll_write c (ready n)) polls)
  poll_writes-total c (broken e ∷ polls) = omega (arith, poll_writes-total c polls)

  -- The bytes of the head, which is only written to the origin of a request that is no tunnel.
  abbrev pub head_total : RequestTarget → Peer I → ℕ
  head_total tunnel peer = 0
  head_total forward peer = total peer.head_polls

module _ {I : Type 0} (is_ipv6 : Text → Bool) (config : ExitConfig) (source : IpAddr)
    (peer : Peer I) where
  -- The ledger with the traffic of the connection.
  abbrev pub accounted : RequestTarget → List (ℕ × ClientWindow) → List (ℕ × ClientWindow)
  accounted target ledger =
      record_traffic (run_others config.quota peer.others ledger) (key source)
        (wrap64 (head_total target peer + total peer.up_polls + total peer.down_polls)) config.quota
        peer.ended

  relay-accounted :
      (origin : CountingIo) (h : Handled I) (bytes : ℕ)
      → wrap64 origin.written ≡ wrap64 bytes
      → (relay is_ipv6 config source peer origin h).ledger
        ≡ record_traffic
            (run_others config.quota peer.others h.ledger)
            (key source)
            (wrap64 (bytes + total peer.up_polls + total peer.down_polls))
            config.quota
            peer.ended
  unfolding relay
  relay-accounted origin h bytes same =
      ap
        (λ n.
          record_traffic (run_others config.quota peer.others h.ledger) (key source) n config.quota
            peer.ended)
        (wrap64-sums _ _ origin.written bytes (total peer.up_polls) (total peer.down_polls)
          (poll_writes-total origin peer.up_polls) (poll_writes-total new_counting peer.down_polls)
          same)

  send_head-accounted :
      (target : RequestTarget) (h : Handled I)
      → peer.send_fault ≡ none
      → (send_head is_ipv6 config source peer target h).ledger ≡ accounted target h.ledger
  unfolding send_head
  send_head-accounted tunnel h e = relay-accounted new_counting h 0 refl
  send_head-accounted forward h e =
      rw (e, send_head)
        (relay-accounted (poll_writes new_counting peer.head_polls) h (total peer.head_polls)
          (poll_writes-total new_counting peer.head_polls ∙ ap wrap64 (omega arith)))

  acknowledge-accounted :
      (target : RequestTarget) (addrs : List SocketAddr) (h : Handled I)
      → peer.ack_fault ≡ none
      → peer.connect_fault ≡ none
      → peer.send_fault ≡ none
      → (acknowledge is_ipv6 config source peer target addrs h).ledger ≡ accounted target h.ledger
  unfolding acknowledge connect
  acknowledge-accounted forward addrs h ack reached sent =
      rw (reached, connect) (send_head-accounted forward _ sent)
  acknowledge-accounted tunnel addrs h ack reached sent =
      rw (ack, acknowledge, reached, connect) (send_head-accounted tunnel _ sent)

  -- A connection of an allowed source with quota left, whose request is parsed and resolved and whose
  -- origin is reached, is accounted with all the bytes that were written to the origin and to the
  -- neighbour, the forwarded head included, also if the relay ends in an error. The other connections
  -- may use the ledger in between. Sums are counted in 64 bits.
  pub handle_connection-accounted :
      (ledger : List (ℕ × ClientWindow)) (raw_head : List ℕ) (head : RequestHead)
      (found addrs : List SocketAddr)
      → read_head peer.stream ≡ ok raw_head
      → is_allowed config.allowlist source ≡ true
      → (admit ledger (key source) config.quota peer.now peer.later).0 ≡ allowed
      → parse_request_head is_ipv6 raw_head ≡ ok head
      → peer.lookup_host head.host head.port ≡ ok found
      → resolve_public_origin found config.origin_policy ≡ ok addrs
      → peer.ack_fault ≡ none
      → peer.connect_fault ≡ none
      → peer.send_fault ≡ none
      → (handle_connection is_ipv6 config source peer ledger).ledger
        ≡ accounted head.target (admit ledger (key source) config.quota peer.now peer.later).1
  unfolding handle_connection with_head admitted parsed resolved to_origin
  handle_connection-accounted ledger raw_head head found addrs got entry grant syntax lookup public
        ack reached sent =
      rw
        (
          got, handle_connection, entry, grant, admitted, syntax, parsed, lookup, resolved, public,
          to_origin,
        )
        (acknowledge-accounted head.target addrs _ ack reached sent)
