-- ===== src/Node/DaemonConfig/Valid.antt =====
-- What every validated daemon config has.
use spider_net.Prelude.{
  ℕ, ◌≡◌, ◌⊎◌, inl, inr, refl, sym, subst, Bool, true, false, not, ◌&&◌, List, All, length, Option,
  Bool-cases, Result, ok, err, ok-inj, >>=-eq-ok, arith,
}
use spider_net.Prelude.Text.{Text, codes}
use spider_net.Exit.Address.{IpAddr, SocketAddr}
use spider_net.Node.Types
use spider_net.Node.Types.{ConfigFault}
use spider_net.Node.Endpoint.{AdminEndpoint, parse_endpoint, config_value}
use spider_net.Node.Endpoint.Print.{parse_endpoint_canonical}
use spider_net.Node.Settings.{
  parse_peer, parse_listen, parse_key, IfName, parse_ifname, if_name_text,
}
use spider_net.Node.Settings.Parsed.{IsHex, Lowers, parse_key_canonical, parse_ifname_printed}
use spider_net.Node.Settings.Uris.{parse_peer_canonical, parse_listen_canonical}
use spider_net.Node.DaemonConfig.{
  ExitServiceSettings, ValidatedDaemonConfig, unwrap_or, is_none, map_err, parse_each, peers_fault,
  listen_fault, validated, validate_exit, validate,
}
use spider_net.Node.DaemonConfig.Raw.{RawDaemonConfig}
use spider_net.Node.DaemonConfig.Each.{parse_each-ok, ParsedAs-All}

-- There is something to do, and every part is accepted as it is kept or written.
pub record IsValid (lower_wide : ℕ → Text) (config : ValidatedDaemonConfig) : Type 0 where
  pub has_work : (config.manage ≡ true) ⊎ (is_none config.exit ≡ false)
  pub endpoint_again :
      parse_endpoint (config_value config.admin_endpoint) ≡ ok config.admin_endpoint
  pub peers_again : All (λ uri. parse_peer uri ≡ ok uri) config.peers
  pub listen_again : All (λ uri. parse_listen uri ≡ ok uri) config.listen
  pub keys_again :
      All
        (λ key. (length key ≡ 64) × All IsHex key × (parse_key lower_wide key ≡ ok key))
        config.allowed_keys
  pub if_name_again : parse_ifname (if_name_text config.if_name) ≡ ok config.if_name

map_err-ok : {A E F : Type 0} (f : E → F) (r : Result E A) (a : A) → map_err f r ≡ ok a → r ≡ ok a
unfolding map_err
map_err-ok f (ok b) a h = cc
map_err-ok f (err e) a h = absurd (ground (arith, h))

work : (manage idle : Bool) → (not manage && idle) ≡ false → (manage ≡ true) ⊎ (idle ≡ false)
work true idle h = inl refl
work false idle h = inr h

validated-ok :
    (raw : RawDaemonConfig) (admin : AdminEndpoint) (peers listen keys : List Text)
    (if_name : IfName)
    → (exit : Option ExitServiceSettings) (config : ValidatedDaemonConfig)
    → validated raw admin peers listen keys if_name exit ≡ ok config
    → ((unwrap_or true raw.yggdrasil.manage ≡ true) ⊎ (is_none exit ≡ false))
      × (config ≡ record {
        admin_endpoint = admin;
        state_dir = unwrap_or (codes "spidernet-state") raw.node.state_dir;
        manage = unwrap_or true raw.yggdrasil.manage;
        yggdrasil_binary = unwrap_or (codes "yggdrasil") raw.yggdrasil.binary;
        peers = peers;
        listen = listen;
        allowed_keys = keys;
        no_multicast = unwrap_or false raw.yggdrasil.no_multicast;
        if_name = if_name;
        exit = exit;
      })
unfolding validated
validated-ok raw admin peers listen keys if_name exit config h =
    elim (Bool-cases (not (unwrap_or true raw.yggdrasil.manage) && is_none exit)) [
      | inl idle ↦ absurd (ground (arith, rw idle at h))
      | inr busy ↦ (
        work (unwrap_or true raw.yggdrasil.manage) (is_none exit) busy,
        sym (ok-inj (rw busy at h)),
      )
    ]

module _ (to_addr : Text → Option SocketAddr) (to_ip : Text → Option IpAddr)
    (lower_wide : ℕ → Text) where
  -- A config that validation accepts manages the sidecar or has an exit service. Its endpoint and its
  -- interface are read back from what is written of them, and its URIs and keys, the keys of 64 hex digits,
  -- are accepted as they are.
  pub validate-IsValid :
      (raw : RawDaemonConfig) (config : ValidatedDaemonConfig)
      → Lowers lower_wide
      → validate to_addr to_ip lower_wide raw ≡ ok config
      → IsValid lower_wide config
  unfolding validate
  validate-IsValid raw config lowers h =
      let (admin, e0, h0) = >>=-eq-ok (map_err Types.ConfigFault.admin_endpoint _) _ h in
      let (peers, e1, h1) =
        >>=-eq-ok (parse_each raw.yggdrasil.peers peers_fault parse_peer) _ h0 in
      let (listen, e2, h2) =
        >>=-eq-ok (parse_each raw.yggdrasil.listen listen_fault parse_listen) _ h1 in
      let (keys, e3, h3) =
        >>=-eq-ok
          (parse_each raw.yggdrasil.allow_keys Types.ConfigFault.allow_keys (parse_key lower_wide))
          _ h2 in
      let (if_name, e4, h4) = >>=-eq-ok (map_err Types.ConfigFault.ifname _) _ h3 in
      let (exit, e5, h5) = >>=-eq-ok (validate_exit to_addr to_ip raw.exit) _ h4 in
      let (busy, same) = validated-ok raw admin peers listen keys if_name exit config h5 in
      subst (IsValid lower_wide) (sym same) (record {
        has_work = busy;
        endpoint_again = parse_endpoint_canonical _ admin (map_err-ok _ _ admin e0);
        peers_again =
            ParsedAs-All parse_peer (λ uri. parse_peer uri ≡ ok uri) _ peers
              (parse_each-ok parse_peer raw.yggdrasil.peers peers_fault peers e1)
              (λ input uri e. (parse_peer_canonical input uri e).1);
        listen_again =
            ParsedAs-All parse_listen (λ uri. parse_listen uri ≡ ok uri) _ listen
              (parse_each-ok parse_listen raw.yggdrasil.listen listen_fault listen e2)
              parse_listen_canonical;
        keys_again =
            ParsedAs-All (parse_key lower_wide)
              (λ key. (length key ≡ 64) × All IsHex key × (parse_key lower_wide key ≡ ok key)) _
              keys
              (parse_each-ok (parse_key lower_wide) raw.yggdrasil.allow_keys
                Types.ConfigFault.allow_keys keys e3)
              (λ input key e. parse_key_canonical lower_wide input key lowers e);
        if_name_again = parse_ifname_printed _ if_name (map_err-ok _ _ if_name e4);
      })
