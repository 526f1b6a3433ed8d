-- ===== src/Exit/Address/Blocks.antt =====
-- The refused IPv4 addresses as address blocks, and what resolution lets through.
use spider_net.Prelude.{
  ok-inj, ℕ, ◌+◌, ◌*◌, ◌/◌, ◌^◌, ◌<◌, ◌≡◌, ◌↔◌, ◌⊎◌, inl, inr, refl, Bool, true, false, not, ◌||◌,
  List, [], ◌∷◌, ◌==◌, ◌≢◌, ◌∙◌, ok, Bool-cases, ap, ◌&&◌, leb, sym, All, arith,
}
use spider_net.Exit.Address.{
  SocketAddr, check_public, resolve_public_origin, public_only, is_public_v4, is_public_origin,
  is_private, is_documentation,
}

-- The address as a number.
abbrev pub value : ℕ → ℕ → ℕ → ℕ → ℕ
value a b c d = a * 2 ^ 24 + b * 2 ^ 16 + c * 2 ^ 8 + d

-- `a.b.c.d/n` by the number of its free bits `32 - n`.
abbrev pub In : ℕ → ℕ → ℕ → Type 0
In n base free = n / 2 ^ free ≡ base / 2 ^ free

-- Private networks, and addresses for documentation.
abbrev pub Private : ℕ → Type 0
Private n = (In n (value 10 0 0 0) 24 ⊎ In n (value 172 16 0 0) 20) ⊎ In n (value 192 168 0 0) 16

abbrev pub Documentation : ℕ → Type 0
Documentation n =
    (In n (value 192 0 2 0) 8 ⊎ In n (value 198 51 100 0) 8) ⊎ In n (value 203 0 113 0) 8

-- The blocks that no neighbour may reach: loopback, private, link-local, unspecified, broadcast,
-- multicast, documentation, carrier NAT, this network.
abbrev pub Refused : ℕ → Type 0
Refused n =
    (((((((In n (value 127 0 0 0) 24 ⊎ Private n) ⊎ In n (value 169 254 0 0) 16) ⊎ (n ≡ 0))
            ⊎ (n ≡ value 255 255 255 255))
          ⊎ In n (value 224 0 0 0) 28)
        ⊎ Documentation n)
      ⊎ In n (value 100 64 0 0) 22)
    ⊎ In n 0 24

apart : false ≡ true → ⊥
apart h = ground arith

either_iff :
    {A B : Type 0} {x y : Bool} → ((x ≡ true) ↔ A) → ((y ≡ true) ↔ B) → ((x || y) ≡ true) ↔ (A ⊎ B)
either_iff {x = true} p q = (λ h. inl (p.0 refl), λ h. refl)
either_iff {x = false} p q =
    (λ h. inr (q.0 h), λ h. elim h [ inl a ↦ absurd (apart (p.1 a)) | inr b ↦ q.1 b ])

not_iff : {A : Type 0} {x : Bool} → ((x ≡ true) ↔ A) → (not x ≡ false) ↔ A
not_iff {x = true} p = (λ h. p.0 refl, λ h. refl)
not_iff {x = false} p = (λ h. absurd (apart (sym h)), λ h. sym (p.1 h))

module _ (a b c d : ℕ) (ha : a < 256) (hb : b < 256) (hc : c < 256) (hd : d < 256) where
  is_private-Private : (is_private a b c d ≡ true) ↔ Private (value a b c d)
  is_private-Private =
      either_iff {y = a == 192 && b == 168}
        (either_iff {x = a == 10} {y = a == 172 && leb 16 b && leb b 31}
          ((λ h. ground arith), λ h. ground arith) ((λ h. ground arith), λ h. ground arith))
        ((λ h. ground arith), λ h. ground arith)

  is_documentation-Documentation : (is_documentation a b c d ≡ true) ↔ Documentation (value a b c d)
  is_documentation-Documentation =
      either_iff {y = a == 203 && b == 0 && c == 113}
        (either_iff {x = a == 192 && b == 0 && c == 2} {y = a == 198 && b == 51 && c == 100}
          ((λ h. ground arith), λ h. ground arith) ((λ h. ground arith), λ h. ground arith))
        ((λ h. ground arith), λ h. ground arith)

  -- An IPv4 address, by octets, is refused exactly if its number lies in one of the refused blocks.
  pub is_public_v4-Refused : (is_public_v4 a b c d ≡ false) ↔ Refused (value a b c d)
  unfolding is_public_v4
  is_public_v4-Refused = not_iff (
      either_iff
        (either_iff
          (either_iff
            (either_iff
              (either_iff
                (either_iff
                  (either_iff
                    (either_iff ((λ h. ground arith), λ h. ground arith) is_private-Private)
                    ((λ h. ground arith), λ h. ground arith))
                  ((λ h. ground arith), λ h. ground arith))
                ((λ h. ground arith), λ h. ground arith))
              ((λ h. ground arith), λ h. ground arith))
            is_documentation-Documentation)
          ((λ h. ground arith), λ h. ground arith))
        ((λ h. ground arith), λ h. ground arith))

check_public-All :
    (addrs : List SocketAddr)
    → (check_public addrs ≡ true) ↔ All (λ addr. is_public_origin addr.ip ≡ true) addrs
unfolding check_public
check_public-All [] = (λ h. tt, λ h. refl)
check_public-All (addr ∷ more) =
    let rest = check_public-All more in
    (λ h. ground (arith, h, rest.0), λ h. ground (arith, h.0, rest.1 h.1))

-- What resolution lets through, unless the policy is for tests, is what the lookup gave; there is an
-- address in it, and every address is public. It refuses exactly the other answers of the lookup.
pub resolve_public_origin-ok_iff :
    (addrs found : List SocketAddr)
    → (resolve_public_origin found public_only ≡ ok addrs)
      ↔ ((addrs ≡ found) × (found ≢ []) × All (λ addr. is_public_origin addr.ip ≡ true) found)
unfolding resolve_public_origin
resolve_public_origin-ok_iff addrs [] = (λ h. ground (arith, h), λ h. absurd (h.1 refl))
resolve_public_origin-ok_iff addrs (addr ∷ more) = elim (Bool-cases (check_public (addr ∷ more))) [
  | inl all ↦ rw all (
    λ h. (sym (ok-inj h), (λ e. ground (arith, e)), (check_public-All (addr ∷ more)).0 all),
    λ h. ap ok (sym h.0),
  )
  | inr one_not ↦ rw one_not (
    λ h. ground (arith, h),
    λ h. absurd (apart (sym one_not ∙ (check_public-All (addr ∷ more)).1 h.2)),
  )
]
