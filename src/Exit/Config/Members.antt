-- ===== src/Exit/Config/Members.antt =====
-- Which sources an allowlist has.
use spider_net.Prelude.{◌≡◌, ◌↔◌, inl, inr, subst, true, List, [], ◌∷◌, ◌∈◌, Bool-cases, arith}
use spider_net.Exit.Address.{IpAddr, v4, v6}
use spider_net.Exit.Config.{
  ip_eq, is_loopback, contains, collect_set, loopback_only, new_allowlist, is_allowed,
}

ip_eq→≡ : (x y : IpAddr) → ip_eq x y ≡ true → x ≡ y
unfolding ip_eq
ip_eq→≡ (v4 a b c d) (v4 a' b' c' d') h = ground (arith, h)
ip_eq→≡ (v4 a b c d) (v6 s t u v w x y z) h = absurd (ground (arith, h))
ip_eq→≡ (v6 s t u v w x y z) (v4 a b c d) h = absurd (ground (arith, h))
ip_eq→≡ (v6 s t u v w x y z) (v6 s' t' u' v' w' x' y' z') h = ground (arith, h)

ip_eq_self : (x : IpAddr) → ip_eq x x ≡ true
unfolding ip_eq
ip_eq_self (v4 a b c d) = ground arith
ip_eq_self (v6 s t u v w x y z) = ground arith

contains→∈ : (list : List IpAddr) (ip : IpAddr) → contains list ip ≡ true → ip ∈ list
unfolding contains
contains→∈ [] ip h = absurd (ground (arith, h))
contains→∈ (x ∷ list) ip h = elim (Bool-cases (ip_eq x ip)) [
  | inl same ↦ inl (ip_eq→≡ x ip same)
  | inr other ↦ inr (contains→∈ list ip (ground (arith, h, other)))
]

∈→contains : (list : List IpAddr) (ip : IpAddr) → ip ∈ list → contains list ip ≡ true
unfolding contains
∈→contains [] ip m = absurd m
∈→contains (x ∷ list) ip (inl same) =
    let e : ip_eq x ip ≡ true = subst (λ y. ip_eq x y ≡ true) same (ip_eq_self x) in
    ground (arith, e)
∈→contains (x ∷ list) ip (inr m) = let e = ∈→contains list ip m in ground (arith, e)

member_cons :
    (x ip : IpAddr) (list more : List IpAddr)
    → (ip ∈ list → ip ∈ more)
    → ip ∈ (x ∷ list)
    → ip ∈ (x ∷ more)
member_cons x ip list more h (inl same) = inl same
member_cons x ip list more h (inr later) = inr (h later)

collect_set→∈ : (list : List IpAddr) (ip : IpAddr) → ip ∈ collect_set list → ip ∈ list
unfolding collect_set
collect_set→∈ [] ip m = m
collect_set→∈ (x ∷ list) ip m = elim (Bool-cases (contains (collect_set list) x)) [
  | inl seen ↦ inr (collect_set→∈ list ip (rw seen at m))
  | inr new ↦ member_cons x ip (collect_set list) list (collect_set→∈ list ip) (rw new at m)
]

∈→collect_set : (list : List IpAddr) (ip : IpAddr) → ip ∈ list → ip ∈ collect_set list
unfolding collect_set
∈→collect_set [] ip m = m
∈→collect_set (x ∷ list) ip (inl same) = elim (Bool-cases (contains (collect_set list) x)) [
  | inl seen ↦
      rw seen (subst (λ y. y ∈ collect_set list) same (contains→∈ (collect_set list) x seen))
  | inr new ↦ rw new (inl same)
]
∈→collect_set (x ∷ list) ip (inr m) = elim (Bool-cases (contains (collect_set list) x)) [
  | inl seen ↦ rw seen (∈→collect_set list ip m)
  | inr new ↦ rw new (inr (∈→collect_set list ip m))
]

pub is_allowed-new_allowlist :
    (ips : List IpAddr) (ip : IpAddr) → (is_allowed (new_allowlist ips) ip ≡ true) ↔ (ip ∈ ips)
unfolding is_allowed new_allowlist
is_allowed-new_allowlist ips ip = (
  λ h. collect_set→∈ ips ip (contains→∈ (collect_set ips) ip (ground (arith, h))),
  λ m. let e = ∈→contains (collect_set ips) ip (∈→collect_set ips ip m) in ground (arith, e),
)

pub is_allowed-loopback_only : (ip : IpAddr) → is_allowed loopback_only ip ≡ is_loopback ip
unfolding is_allowed loopback_only contains
is_allowed-loopback_only ip = ground arith
