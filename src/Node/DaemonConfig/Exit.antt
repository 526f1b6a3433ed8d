-- ===== src/Node/DaemonConfig/Exit.antt =====
-- What a validated exit section admits and which quota it sets.
use spider_net.Prelude.{
  ℕ, ◌≡◌, ◌≢◌, ◌↔◌, ◌⊎◌, inl, inr, refl, ap, sym, subst, ◌∙◌, Bool, true, false, not, ◌&&◌, List,
  [], ◌∷◌, ◌∈◌, Option, none, some, Option-cases, Bool-cases, Result, ok, ok-inj, >>=-eq-ok, arith,
  if◌then◌else◌,
}
use spider_net.Prelude.Text.{Text}
use spider_net.Exit.Address.{IpAddr, SocketAddr}
use spider_net.Exit.Config.{is_loopback, new_allowlist, is_allowed, parse_source}
use spider_net.Exit.Config.Members.{is_allowed-new_allowlist, is_allowed-loopback_only}
use spider_net.Exit.Ledger.{QuotaPolicy}
use spider_net.Node.Types
use spider_net.Node.Types.{ConfigFault}
use spider_net.Node.DaemonConfig.{
  explicit, ExitServiceSettings, unwrap_or, parse_each, is_empty, dev_mode, validate_quota,
  explicit_bind, bind_of, allowlist_of, admitted, validate_exit,
}
use spider_net.Node.DaemonConfig.Quota.{QuotaOf, validate_quota-QuotaOf}
use spider_net.Node.DaemonConfig.Raw.{RawExitSection}
use spider_net.Node.DaemonConfig.Each.{
  parse_each-ok, ParsedAs, ParsedAs-value, ParsedAs-input, ParsedAs-nil, ParsedAs-cons,
}

-- A loopback bind address was given, and the service binds it.
abbrev pub BindsLoopback : ExitServiceSettings → Type 0
BindsLoopback s = (addr : SocketAddr) × (s.bind ≡ explicit addr) × (is_loopback addr.ip ≡ true)

-- The settings that are made of a section whose addresses are parsed.
abbrev Made : RawExitSection → Option SocketAddr → List IpAddr → ExitServiceSettings → Type 0
Made raw bind sources s =
    ((is_empty sources ≡ false) ⊎ (dev_mode bind ≡ true))
    × (s.bind ≡ bind_of bind raw.port)
    × (s.allowlist ≡ allowlist_of sources)
    × QuotaOf raw.quota_mib raw.window_hours s.quota

-- No service, or an enabled one.
abbrev Settled :
    RawExitSection → Option SocketAddr → List IpAddr → Option ExitServiceSettings → Type 0
Settled raw bind sources result =
    ((unwrap_or false raw.enabled ≡ false) × (result ≡ none))
    ⊎ ((s : ExitServiceSettings) × (result ≡ some s)
        × (unwrap_or false raw.enabled ≡ true)
        × Made raw bind sources s)

admission :
    (enabled listed_none dev : Bool)
    → (enabled && listed_none && not dev) ≡ false
    → enabled ≡ true
    → (listed_none ≡ false) ⊎ (dev ≡ true)
admission enabled false dev f on = inl refl
admission enabled true true f on = inr refl
admission enabled true false f on = absurd (ground (arith, f, on))

settled :
    (raw : RawExitSection) (bind : Option SocketAddr) (sources : List IpAddr)
    (quota : Option QuotaPolicy)
    → (result : Option ExitServiceSettings)
    → (unwrap_or false raw.enabled && is_empty sources && not (dev_mode bind)) ≡ false
    → QuotaOf raw.quota_mib raw.window_hours quota
    → ◌≡◌ {A = Result ConfigFault (Option ExitServiceSettings)}
        (ok (
          if unwrap_or false raw.enabled
          then some (record {
            bind = bind_of bind raw.port;
            allowlist = allowlist_of sources;
            quota = quota;
          })
          else none))
        (ok result)
    → Settled raw bind sources result
settled raw bind sources quota result fine valid rest =
    elim (Bool-cases (unwrap_or false raw.enabled)) [
      | inr off ↦ inl (off, sym (ok-inj (rw off at rest)))
      | inl on ↦ inr (
        record { bind = bind_of bind raw.port; allowlist = allowlist_of sources; quota = quota },
        sym (ok-inj (rw on at rest)),
        on,
        (
          admission (unwrap_or false raw.enabled) (is_empty sources) (dev_mode bind) fine on,
          refl,
          refl,
          valid,
        ),
      )
    ]

admitted-Settled :
    (raw : RawExitSection) (bind : Option SocketAddr) (sources : List IpAddr)
    (result : Option ExitServiceSettings)
    → admitted raw bind sources ≡ ok result
    → Settled raw bind sources result
unfolding admitted
admitted-Settled raw bind sources result h =
    elim (Bool-cases (unwrap_or false raw.enabled && is_empty sources && not (dev_mode bind))) [
      | inl refused ↦ absurd (ground (arith, rw refused at h))
      | inr fine ↦
          let (quota, valid, rest) =
            >>=-eq-ok (validate_quota raw.quota_mib raw.window_hours) _ (rw fine at h) in
          settled raw bind sources quota result fine
            (validate_quota-QuotaOf raw.quota_mib raw.window_hours quota valid) rest
    ]

is_empty-false : (ips : List IpAddr) → is_empty ips ≡ false → allowlist_of ips ≡ new_allowlist ips
unfolding is_empty allowlist_of
is_empty-false ips h = rw h refl

explicit_bind-dev :
    (bind : Option SocketAddr) (port : Option ℕ)
    → dev_mode bind ≡ true
    → (addr : SocketAddr) × (bind_of bind port ≡ explicit addr) × (is_loopback addr.ip ≡ true)
unfolding dev_mode bind_of
explicit_bind-dev none port h = absurd (ground (arith, h))
explicit_bind-dev (some addr) port h = (addr, refl, h)

module _ (to_addr : Text → Option SocketAddr) (to_ip : Text → Option IpAddr) where
  -- The service admits exactly the addresses that the section lists; with none listed it admits loopback
  -- ones and binds to one.
  abbrev pub Admits : RawExitSection → ExitServiceSettings → Type 0
  Admits raw s =
      ((unwrap_or [] raw.allow ≢ [])
        × ((ip : IpAddr)
            → (is_allowed s.allowlist ip ≡ true)
              ↔ ((input : Text) × (input ∈ unwrap_or [] raw.allow) × (to_ip input ≡ some ip))))
      ⊎ ((unwrap_or [] raw.allow ≡ [])
          × ((ip : IpAddr) → is_allowed s.allowlist ip ≡ is_loopback ip)
          × BindsLoopback s)

  parse_source-some :
      (input : Text) (ip : IpAddr) → parse_source to_ip input ≡ ok ip → to_ip input ≡ some ip
  unfolding parse_source
  parse_source-some input ip h = elim (Option-cases (to_ip input)) [
    | inl e ↦ absurd (ground (arith, rw (e, parse_source) at h))
    | inr (found, e) ↦ e ∙ ap some (ok-inj (rw (e, parse_source) at h))
  ]

  parse_source-ok :
      (input : Text) (ip : IpAddr) → to_ip input ≡ some ip → parse_source to_ip input ≡ ok ip
  unfolding parse_source
  parse_source-ok input ip e = rw (e, parse_source) refl

  listed_iff :
      (inputs : List Text) (sources : List IpAddr) (ip : IpAddr)
      → ParsedAs (parse_source to_ip) inputs sources
      → (ip ∈ sources) ↔ ((input : Text) × (input ∈ inputs) × (to_ip input ≡ some ip))
  listed_iff inputs sources ip p = (
    λ m.
        let (input, there, e) = ParsedAs-value (parse_source to_ip) inputs sources ip p m in
        (input, there, parse_source-some input ip e),
    λ found.
        let (value, there, e) =
          ParsedAs-input (parse_source to_ip) inputs sources found.0 p found.1 in
        let same : value ≡ ip = ok-inj (sym e ∙ parse_source-ok found.0 ip found.2) in
        subst (λ x. x ∈ sources) same there,
  )

  Made-Admits :
      (raw : RawExitSection) (bind : Option SocketAddr) (sources : List IpAddr)
      (s : ExitServiceSettings)
      → ParsedAs (parse_source to_ip) (unwrap_or [] raw.allow) sources
      → Made raw bind sources s
      → Admits raw s
  unfolding bind_of dev_mode is_empty allowlist_of
  Made-Admits raw bind [] s p (inl listed, at, list, quota) = absurd (ground (arith, listed))
  Made-Admits raw bind [] s p (inr dev, at, list, quota) =
      let (addr, e, loop) = explicit_bind-dev bind raw.port dev in
      inr (
        ParsedAs-nil (parse_source to_ip) (unwrap_or [] raw.allow) p,
        λ ip. ap (λ l. is_allowed l ip) list ∙ is_allowed-loopback_only ip,
        (addr, at ∙ e, loop),
      )
  Made-Admits raw bind (x ∷ sources) s p (reason, at, list, quota) = inl (
    ParsedAs-cons (parse_source to_ip) (unwrap_or [] raw.allow) x sources p,
    λ ip.
        let member = is_allowed-new_allowlist (x ∷ sources) ip in
        let listed = listed_iff (unwrap_or [] raw.allow) (x ∷ sources) ip p in
        let same : is_allowed s.allowlist ip ≡ is_allowed (new_allowlist (x ∷ sources)) ip =
          ap (λ l. is_allowed l ip) list in
        (λ h. listed.0 (member.0 (sym same ∙ h)), λ h. same ∙ member.1 (listed.1 h)),
  )

  -- A section that is accepted gives no service when it is not enabled. When it is, the service admits
  -- exactly the addresses that the section lists, or, if it lists none, the loopback ones, bound to a loopback
  -- address. Its quota is off exactly at 0 MiB, and otherwise both numbers are positive, the given ones
  -- held below 2^64.
  pub validate_exit-Admits :
      (raw : RawExitSection) (result : Option ExitServiceSettings)
      → validate_exit to_addr to_ip raw ≡ ok result
      → ((unwrap_or false raw.enabled ≡ false) × (result ≡ none))
        ⊎ ((s : ExitServiceSettings) × (result ≡ some s)
            × (unwrap_or false raw.enabled ≡ true)
            × Admits raw s
            × QuotaOf raw.quota_mib raw.window_hours s.quota)
  unfolding validate_exit
  validate_exit-Admits raw result h =
      let (bind, bound, h1) = >>=-eq-ok (explicit_bind to_addr raw.bind) _ h in
      let (sources, parsed, h2) =
        >>=-eq-ok (parse_each raw.allow Types.ConfigFault.allow (parse_source to_ip)) _ h1 in
      elim (admitted-Settled raw bind sources result h2) [
        | inl off ↦ inl off
        | inr (s, same, on, made) ↦
            let p =
              parse_each-ok (parse_source to_ip) raw.allow Types.ConfigFault.allow sources parsed in
            inr (s, same, on, Made-Admits raw bind sources s p made, made.3)
      ]
