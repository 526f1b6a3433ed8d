-- ===== src/Exit/Proxy.antt =====
-- `handle_connection` of server/crates/sn-exit/src/proxy.rs with the counters of `CountingIo`. What the
-- two streams, the resolver and the clock give is the record `Peer`; an error of the operating system is
-- of type `I`. Log output is left out.
pub mod Contact
pub mod Account
mod Tests
use Prim.Native.String.{String}
use spider_net.Prelude.{
  ℕ, ◌+◌, ◌*◌, ◌^◌, Bool, true, false, List, [], ◌∷◌, ◌++◌, Option, none, some, if◌then◌else◌,
  Result, ok, err, wrap64,
}
use mathlib.Core.Option
use spider_net.Prelude.Text.{Text}
use spider_net.Exit.Address.{IpAddr, v4, v6, SocketAddr, OriginFault, resolve_public_origin}
use spider_net.Exit.Config.{ExitConfig, is_allowed}
use spider_net.Exit.Head.{Reading, HeadFault, read_head}
use spider_net.Exit.Ledger.{
  QuotaPolicy, ClientWindow, AdmitDecision, allowed, quota_exhausted, admit, record_traffic, Use,
  run,
}
use spider_net.Exit.Parse.{
  RequestTarget, tunnel, forward, RequestHead, HeadSyntax, parse_request_head,
}

-- What a poll of the inner stream gives.
pub data Poll (I : Type 0) : Type 0 where
  pending : Poll I
  ready : ℕ → Poll I
  broken : I → Poll I

-- `CountingIo` by its two counters.
pub record CountingIo : Type 0 where
  pub read : ℕ
  pub written : ℕ

abbrev pub new_counting : CountingIo
new_counting = record { read = 0; written = 0 }

-- The number under which the ledger keeps an address.
unfoldable pub key : IpAddr → ℕ
key (v4 a b c d) = ((a * 256 + b) * 256 + c) * 256 + d
key (v6 s t u v w x y z) =
    2 ^ 32
    + (((((((s * 65536 + t) * 65536 + u) * 65536 + v) * 65536 + w) * 65536 + x) * 65536 + y) * 65536
        + z)

-- What the code writes to the neighbour itself.
pub data Reply : Type 0 where
  forbidden : Reply
  unavailable : ℕ → Reply
  bad_request : Reply
  tunnel_ok : Reply

-- `ExitError` as `handle_connection` gives it.
pub data ExitFault (I : Type 0) : Type 0 where
  head_fault : HeadFault I → ExitFault I
  unparseable : ExitFault I
  origin_fault : OriginFault → ExitFault I
  io : I → ExitFault I
  connect_timed_out : ExitFault I

-- What happens outside of the code while it handles one connection.
pub record Peer (I : Type 0) : Type 0 where
  pub stream : ℕ → Reading I
  pub now : ℕ
  pub later : ℕ
  pub lookup_host : Text → ℕ → Result I (List SocketAddr)
  pub ack_fault : Option I
  pub connect_fault : Option (ExitFault I)
  -- The polls that write the head to the origin, and whether that fails.
  pub head_polls : List (Poll I)
  pub send_fault : Option I
  -- The polls of the relay that write to the origin and to the neighbour.
  pub up_polls : List (Poll I)
  pub down_polls : List (Poll I)
  pub relay_fault : Option I
  -- What the other connections do with the ledger in the meantime, and the time at the end.
  pub others : List Use
  pub ended : ℕ

-- The ledger, the replies, the addresses that the code connected to, and the result.
pub record Handled (I : Type 0) : Type 0 where
  pub ledger : List (ℕ × ClientWindow)
  pub replies : List Reply
  pub contacted : Option (List SocketAddr)
  pub result : Option (ExitFault I)

-- What other connections do with the ledger of this policy.
unfoldable pub run_others :
    Option QuotaPolicy → List Use → List (ℕ × ClientWindow) → List (ℕ × ClientWindow)
run_others none uses ledger = ledger
run_others (some policy) uses ledger = run policy uses ledger

module _ {I : Type 0} where
  -- `poll_write`, and `poll_read` with the bytes that the buffer gained.
  unfoldable pub poll_write : CountingIo → Poll I → CountingIo
  poll_write c (ready n) = record c { written = wrap64 (c.written + n) }
  poll_write c pending = c
  poll_write c (broken e) = c

  unfoldable pub poll_read : CountingIo → Poll I → CountingIo
  poll_read c (ready n) = record c { read = wrap64 (c.read + n) }
  poll_read c pending = c
  poll_read c (broken e) = c

  unfoldable pub poll_writes : CountingIo → List (Poll I) → CountingIo
  poll_writes c [] = c
  poll_writes c (p ∷ polls) = poll_writes (poll_write c p) polls

  module _ (is_ipv6 : Text → Bool) (config : ExitConfig) (source : IpAddr) (peer : Peer I) where
    -- The relay and the accounting behind it.
    unfoldable pub relay : CountingIo → Handled I → Handled I
    relay origin h =
        let up = (poll_writes origin peer.up_polls).written in
        let down = (poll_writes new_counting peer.down_polls).written in
        record h {
          ledger =
              record_traffic (run_others config.quota peer.others h.ledger) (key source)
                (wrap64 (up + down)) config.quota peer.ended;
          result = Option.map io peer.relay_fault;
        }

    -- Forward the head of a request that is no tunnel.
    unfoldable pub send_head : RequestTarget → Handled I → Handled I
    send_head tunnel h = relay new_counting h
    send_head forward h = elim peer.send_fault [
      | none ↦ relay (poll_writes new_counting peer.head_polls) h
      | some e ↦ record h { result = some (io e) }
    ]

    -- `connect_origin` and what follows it.
    unfoldable pub connect : RequestTarget → List SocketAddr → Handled I → Handled I
    connect target addrs h =
        let tried = record h { contacted = some addrs } in
        elim peer.connect_fault [
          | none ↦ send_head target tried
          | some e ↦ record tried { result = some e }
        ]

    unfoldable pub acknowledge : RequestTarget → List SocketAddr → Handled I → Handled I
    acknowledge forward addrs h = connect forward addrs h
    acknowledge tunnel addrs h = elim peer.ack_fault [
      | none ↦ connect tunnel addrs (record h { replies = h.replies ++ tunnel_ok ∷ [] })
      | some e ↦ record h { result = some (io e) }
    ]

    unfoldable pub to_origin :
        RequestTarget → Result OriginFault (List SocketAddr) → Handled I → Handled I
    to_origin target (err e) h = record h { result = some (origin_fault e) }
    to_origin target (ok addrs) h = acknowledge target addrs h

    unfoldable pub resolved : RequestTarget → Result I (List SocketAddr) → Handled I → Handled I
    resolved target (err e) h = record h { result = some (io e) }
    resolved target (ok found) h =
        to_origin target (resolve_public_origin found config.origin_policy) h

    unfoldable pub parsed : Result HeadSyntax RequestHead → Handled I → Handled I
    parsed (err e) h = record h {
      replies = h.replies ++ bad_request ∷ [];
      result = some unparseable;
    }
    parsed (ok head) h = resolved head.target (peer.lookup_host head.host head.port) h

    unfoldable pub admitted : List ℕ → AdmitDecision → Handled I → Handled I
    admitted raw_head (quota_exhausted secs) h = record h {
      replies = h.replies ++ unavailable secs ∷ [];
    }
    admitted raw_head allowed h = parsed (parse_request_head is_ipv6 raw_head) h

    unfoldable pub with_head : Result (HeadFault I) (List ℕ) → Handled I → Handled I
    with_head (err e) h = record h { result = some (head_fault e) }
    with_head (ok raw_head) h =
        if is_allowed config.allowlist source
        then (let (decision, ledger) =
              admit h.ledger (key source) config.quota peer.now peer.later in
            admitted raw_head decision (record h { ledger = ledger }))
        else record h { replies = h.replies ++ forbidden ∷ [] }

    -- `handle_connection`.
    unfoldable pub handle_connection : List (ℕ × ClientWindow) → Handled I
    handle_connection ledger =
        with_head (read_head peer.stream)
          (record { ledger = ledger; replies = []; contacted = none; result = none })
