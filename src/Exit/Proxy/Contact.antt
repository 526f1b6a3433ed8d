-- ===== src/Exit/Proxy/Contact.antt =====
-- Whom `handle_connection` contacts, and for whom.
use spider_net.Prelude.{
  ℕ, ◌≡◌, ◌≢◌, ◌⊎◌, inl, inr, refl, sym, ap, subst, Bool, true, List, [], ◌∷◌, none, some,
  Option-cases, Bool-cases, All, Result, ok, err, arith,
}
use spider_net.Prelude.Text.{Text}
use spider_net.Exit.Address.{
  IpAddr, SocketAddr, OriginPolicy, public_only, any_for_testing, OriginFault, is_public_origin,
  resolve_public_origin,
}
use spider_net.Exit.Address.Blocks.{resolve_public_origin-ok_iff}
use spider_net.Exit.Config.{ExitConfig, is_allowed}
use spider_net.Exit.Head.{HeadFault, read_head}
use spider_net.Exit.Ledger.{ClientWindow, AdmitDecision, allowed, quota_exhausted, admit}
use spider_net.Exit.Parse.{
  RequestTarget, tunnel, forward, RequestHead, HeadSyntax, parse_request_head,
}
use spider_net.Exit.Proxy.{
  Peer, Handled, key, relay, send_head, connect, acknowledge, to_origin, resolved, parsed, admitted,
  with_head, handle_connection,
}

module _ {I : Type 0} (is_ipv6 : Text → Bool) (config : ExitConfig) (source : IpAddr)
    (peer : Peer I) where
  send_head-contacted :
      (target : RequestTarget) (h : Handled I)
      → (send_head is_ipv6 config source peer target h).contacted ≡ h.contacted
  unfolding send_head relay
  send_head-contacted tunnel h = refl
  send_head-contacted forward h = elim (Option-cases peer.send_fault) [
    | inl e ↦ rw (e, send_head) refl
    | inr (x, e) ↦ rw (e, send_head) refl
  ]

  connect-contacted :
      (target : RequestTarget) (addrs : List SocketAddr) (h : Handled I)
      → (connect is_ipv6 config source peer target addrs h).contacted ≡ some addrs
  unfolding connect
  connect-contacted target addrs h = elim (Option-cases peer.connect_fault) [
    | inl e ↦ rw (e, connect) (send_head-contacted target _)
    | inr (x, e) ↦ rw (e, connect) refl
  ]

  -- The addresses, if the code connects at all.
  abbrev Contacts : List SocketAddr → Handled I → Type 0
  Contacts addrs h = (h.contacted ≡ none) ⊎ (h.contacted ≡ some addrs)

  acknowledge-Contacts :
      (target : RequestTarget) (addrs : List SocketAddr) (h : Handled I)
      → h.contacted ≡ none
      → Contacts addrs (acknowledge is_ipv6 config source peer target addrs h)
  unfolding acknowledge
  acknowledge-Contacts forward addrs h e = inr (connect-contacted forward addrs h)
  acknowledge-Contacts tunnel addrs h e = elim (Option-cases peer.ack_fault) [
    | inl f ↦ rw (f, acknowledge) (inr (connect-contacted tunnel addrs _))
    | inr (x, f) ↦ rw (f, acknowledge) (inl e)
  ]

  -- What the code checked of the addresses that it connects to: they are the answer to its one lookup,
  -- there is one, and in production all are public.
  abbrev pub Vetted : Result I (List SocketAddr) → List SocketAddr → Type 0
  Vetted answer addrs =
      (answer ≡ ok addrs)
      × (addrs ≢ [])
      × (config.origin_policy ≡ public_only → All (λ addr. is_public_origin addr.ip ≡ true) addrs)

  resolve-Vetted :
      (found : List SocketAddr) (policy : OriginPolicy) (addrs : List SocketAddr)
      → resolve_public_origin found policy ≡ ok addrs
      → (addrs ≡ found)
        × (addrs ≢ [])
        × (policy ≡ public_only → All (λ addr. is_public_origin addr.ip ≡ true) addrs)
  unfolding resolve_public_origin
  resolve-Vetted [] policy addrs h = absurd (ground (arith, h))
  resolve-Vetted (addr ∷ more) any_for_testing addrs h =
      (ground (arith, h), ground (arith, h), λ p. ground (arith, p))
  resolve-Vetted (addr ∷ more) public_only addrs h =
      let (same, some_addr, public) = (resolve_public_origin-ok_iff addrs (addr ∷ more)).0 h in
      (same, subst (λ xs. xs ≢ []) (sym same) some_addr, λ p. subst (All _) (sym same) public)

  -- A stage of the code either connects nowhere, or to addresses that it vetted.
  abbrev pub Careful : (List SocketAddr → Type 0) → Handled I → Type 0
  Careful P h =
      (h.contacted ≡ none) ⊎ ((addrs : List SocketAddr) × (h.contacted ≡ some addrs) × P addrs)

  to_origin-Careful :
      (target : RequestTarget) (found : List SocketAddr) (r : Result OriginFault (List SocketAddr))
      (h : Handled I)
      → resolve_public_origin found config.origin_policy ≡ r
      → h.contacted ≡ none
      → Careful (Vetted (ok found)) (to_origin is_ipv6 config source peer target r h)
  unfolding to_origin
  to_origin-Careful target found (err x) h e c = inl c
  to_origin-Careful target found (ok addrs) h e c =
      let (same, some_addr, public) = resolve-Vetted found config.origin_policy addrs e in
      elim (acknowledge-Contacts target addrs h c) [
        | inl nowhere ↦ inl nowhere
        | inr there ↦ inr (addrs, there, (ap ok (sym same), some_addr, public))
      ]

  resolved-Careful :
      (target : RequestTarget) (answer : Result I (List SocketAddr)) (h : Handled I)
      → h.contacted ≡ none
      → Careful (Vetted answer) (resolved is_ipv6 config source peer target answer h)
  unfolding resolved
  resolved-Careful target (err x) h c = inl c
  resolved-Careful target (ok found) h c =
      to_origin-Careful target found (resolve_public_origin found config.origin_policy) h refl c

  -- The request that leads to the addresses.
  abbrev pub Requested : List ℕ → List SocketAddr → Type 0
  Requested raw_head addrs =
      (head : RequestHead) × (parse_request_head is_ipv6 raw_head ≡ ok head)
      × Vetted (peer.lookup_host head.host head.port) addrs

  parsed-Careful :
      (raw_head : List ℕ) (r : Result HeadSyntax RequestHead) (h : Handled I)
      → parse_request_head is_ipv6 raw_head ≡ r
      → h.contacted ≡ none
      → Careful (Requested raw_head) (parsed is_ipv6 config source peer r h)
  unfolding parsed
  parsed-Careful raw_head (err x) h e c = inl c
  parsed-Careful raw_head (ok head) h e c =
      elim (resolved-Careful head.target (peer.lookup_host head.host head.port) h c) [
        | inl nowhere ↦ inl nowhere
        | inr (addrs, there, vetted) ↦ inr (addrs, there, (head, e, vetted))
      ]

  admitted-Careful :
      (raw_head : List ℕ) (decision : AdmitDecision) (h : Handled I)
      → h.contacted ≡ none
      → Careful
          (λ addrs. (decision ≡ allowed) × Requested raw_head addrs)
          (admitted is_ipv6 config source peer raw_head decision h)
  unfolding admitted
  admitted-Careful raw_head (quota_exhausted secs) h c = inl c
  admitted-Careful raw_head allowed h c =
      elim (parsed-Careful raw_head (parse_request_head is_ipv6 raw_head) h refl c) [
        | inl nowhere ↦ inl nowhere
        | inr (addrs, there, requested) ↦ inr (addrs, there, (refl, requested))
      ]

  -- Everything that stands before a connection to an origin.
  abbrev pub Granted : List (ℕ × ClientWindow) → List SocketAddr → Type 0
  Granted ledger addrs =
      (is_allowed config.allowlist source ≡ true)
      × ((admit ledger (key source) config.quota peer.now peer.later).0 ≡ allowed)
      × ((raw_head : List ℕ) × (read_head peer.stream ≡ ok raw_head) × Requested raw_head addrs)

  with_head-Careful :
      (r : Result (HeadFault I) (List ℕ)) (h : Handled I)
      → read_head peer.stream ≡ r
      → h.contacted ≡ none
      → Careful (Granted h.ledger) (with_head is_ipv6 config source peer r h)
  unfolding with_head
  with_head-Careful (err x) h e c = inl c
  with_head-Careful (ok raw_head) h e c = elim (Bool-cases (is_allowed config.allowlist source)) [
    | inr no_entry ↦ rw no_entry (inl c)
    | inl entry ↦
        let decision = (admit h.ledger (key source) config.quota peer.now peer.later).0 in
        rw entry (elim (admitted-Careful raw_head decision _ c) [
          | inl nowhere ↦ inl nowhere
          | inr (addrs, there, (grant, requested)) ↦
              inr (addrs, there, (refl, grant, (raw_head, e, requested)))
        ])
  ]

  -- If the code connects to an origin, then the source is on the allowlist and has quota left, the head
  -- of its request was read and parsed, the addresses are the whole answer to the one lookup of the host
  -- in that head, and unless the policy is for tests all of them are public.
  pub handle_connection-Granted :
      (ledger : List (ℕ × ClientWindow)) (addrs : List SocketAddr)
      → (handle_connection is_ipv6 config source peer ledger).contacted ≡ some addrs
      → Granted ledger addrs
  unfolding handle_connection
  handle_connection-Granted ledger addrs there =
      elim (with_head-Careful (read_head peer.stream)
        (record { ledger = ledger; replies = []; contacted = none; result = none }) refl refl) [
          | inl nowhere ↦ absurd (ground (arith, nowhere, there))
          | inr (found, here, granted) ↦
              subst (Granted ledger) (ground (arith, here, there)) granted
        ]
