-- ===== src/Exit/Address.antt =====
-- `is_public_origin` of server/crates/sn-exit/src/config.rs with the tests of `Ipv4Addr` and `Ipv6Addr`
-- that it uses, and `resolve_public_origin` of proxy.rs. `x & mask` with a mask of leading ones clears
-- the trailing bits.
pub mod Blocks
use spider_net.Prelude.{
  ℕ, ◌+◌, ◌-◌, ◌*◌, ◌/◌, ◌%◌, ◌^◌, Bool, true, false, not, ◌&&◌, ◌||◌, List, [], ◌∷◌, if◌then◌else◌,
  ◌==◌, leb, Result, ok, err,
}

-- `IpAddr` by its four octets or its eight segments.
pub data IpAddr : Type 0 where
  v4 : ℕ → ℕ → ℕ → ℕ → IpAddr
  v6 : ℕ → ℕ → ℕ → ℕ → ℕ → ℕ → ℕ → ℕ → IpAddr

-- `x` without its last `n` bits.
abbrev pub clear : ℕ → ℕ → ℕ
clear n x = x - x % 2 ^ n

module _ (a b c d : ℕ) where
  abbrev pub is_private : Bool
  is_private = (a == 10) || (a == 172 && leb 16 b && leb b 31) || (a == 192 && b == 168)

  abbrev pub is_documentation : Bool
  is_documentation =
      (a == 192 && b == 0 && c == 2)
      || (a == 198 && b == 51 && c == 100)
      || (a == 203 && b == 0 && c == 113)

  abbrev pub is_multicast : Bool
  is_multicast = leb 224 a && leb a 239

  abbrev pub is_unspecified : Bool
  is_unspecified = a == 0 && b == 0 && c == 0 && d == 0

  abbrev pub is_broadcast : Bool
  is_broadcast = a == 255 && b == 255 && c == 255 && d == 255

  -- The `V4` branch.
  unfoldable pub is_public_v4 : Bool
  is_public_v4 = not (
      (a == 127)
      || is_private
      || (a == 169 && b == 254)
      || is_unspecified
      || is_broadcast
      || is_multicast
      || is_documentation
      || (a == 100 && clear 6 b == 64)
      || (a == 0))

-- The `V6` branch, whose mapped addresses are judged by their last two segments as octets.
unfoldable pub is_public_v6 : ℕ → ℕ → ℕ → ℕ → ℕ → ℕ → ℕ → ℕ → Bool
is_public_v6 s t u v w x y z =
    let zeros = s == 0 && t == 0 && u == 0 && v == 0 && w == 0 in
    not (
      (zeros && x == 0 && y == 0 && z == 1)
      || (zeros && x == 0 && y == 0 && z == 0)
      || (clear 8 s == 65280)
      || (clear 6 s == 65152)
      || (clear 9 s == 64512)
      || (clear 9 s == 512)
      || (zeros && x == 65535 && not (is_public_v4 (y / 256) (y % 256) (z / 256) (z % 256))))

unfoldable pub is_public_origin : IpAddr → Bool
is_public_origin (v4 a b c d) = is_public_v4 a b c d
is_public_origin (v6 s t u v w x y z) = is_public_v6 s t u v w x y z

-- `OriginPolicy`.
pub data OriginPolicy : Type 0 where
  public_only : OriginPolicy
  any_for_testing : OriginPolicy

-- `SocketAddr`.
pub record SocketAddr : Type 0 where
  pub ip : IpAddr
  pub port : ℕ

-- The messages of `ExitError::Protocol` that resolution raises.
pub data OriginFault : Type 0 where
  not_resolved : OriginFault
  not_public : OriginFault

unfoldable pub check_public : List SocketAddr → Bool
check_public [] = true
check_public (addr ∷ more) = is_public_origin addr.ip && check_public more

-- `resolve_public_origin`, from what the lookup of the host gives.
unfoldable pub resolve_public_origin :
    List SocketAddr → OriginPolicy → Result OriginFault (List SocketAddr)
resolve_public_origin [] policy = err not_resolved
resolve_public_origin (addr ∷ more) any_for_testing = ok (addr ∷ more)
resolve_public_origin (addr ∷ more) public_only =
    if check_public (addr ∷ more) then ok (addr ∷ more) else err not_public
