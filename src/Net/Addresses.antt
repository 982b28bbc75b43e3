-- ===== src/Net/Addresses.antt =====
-- `Subnet` of pycroft/model/net.py and its addresses. What the package netaddr does with networks,
-- ranges and sets of addresses is a record of operations; an address is its number.
use pycroft.Base.{
  ℕ, ◌+◌, ◌-◌, Bool, false, not, ◌||◌, ◌==◌, if◌then◌else◌, ltb, Option, none, some, List, [], ◌∷◌,
  Result, ok, err, subnet_full, assertion_error, addr_format_error, ◌>>=◌, ◌>>◌, raise_if,
}

-- `IPRange`: its first and last address
pub record Range : Type 0 where
  pub start : ℕ
  pub end : ℕ

-- What the code uses of netaddr: of a network its version, its first and last address
-- (`network[0]`, `network[-1]`), `_usable_range()` and `in`; `IPRange(start, end)`; the constructors of
-- `IPSet`, difference, `iscontiguous` and `iprange`; the size of a range, and its addresses in turn.
pub record Netaddr (Network : Type 0) (IpSet : Type 0) : Type 0 where
  pub version : Network → ℕ
  pub first : Network → ℕ
  pub last : Network → ℕ
  pub usable_range : Network → ℕ × ℕ
  pub contains : Network → ℕ → Bool
  pub ip_range : ℕ → ℕ → Result Range
  pub network_set : Network → IpSet
  pub range_set : List Range → IpSet
  pub difference : IpSet → IpSet → IpSet
  pub iscontiguous : IpSet → Bool
  pub iprange : IpSet → Option Range
  pub size : Range → ℕ
  pub addresses : Range → List ℕ

-- `Subnet`; the numbers of reserved addresses are `None` until the row is loaded.
pub record Subnet (Network : Type 0) : Type 0 where
  pub id : ℕ
  pub address : Network
  pub reserved_addresses_bottom : Option ℕ
  pub reserved_addresses_top : Option ℕ
  pub vlan : ℕ

-- `n or 0`
unfoldable pub or_zero : Option ℕ → ℕ
or_zero none = 0
or_zero (some n) = n

-- `[ip for ip in addresses if ip not in used]`
unfoldable pub listed_address : ℕ → List ℕ → Bool
listed_address a [] = false
listed_address a (b ∷ bs) = b == a || listed_address a bs

unfoldable pub drop_used : List ℕ → List ℕ → List ℕ
unfolding listed_address
drop_used used [] = []
drop_used used (a ∷ rest) =
    let left = drop_used used rest in if listed_address a used then left else a ∷ left

module _ {Network IpSet : Type 0} (lib : Netaddr Network IpSet) where
  -- `Subnet.reserved_ipset`; an address below 0 is no address.
  unfoldable pub reserved_ipset : Subnet Network → Result IpSet
  unfolding or_zero
  reserved_ipset subnet = do
    let res_bottom = or_zero subnet.reserved_addresses_bottom
    let res_top = or_zero subnet.reserved_addresses_top
    let (first_usable, last_usable) = lib.usable_range subnet.address
    bottom ← lib.ip_range (lib.first subnet.address) (first_usable + res_bottom)
    raise_if (ltb last_usable res_top) addr_format_error
    top ← lib.ip_range (last_usable - res_top) (lib.last subnet.address)
    ok (lib.range_set (bottom ∷ top ∷ []))

  -- `Subnet.usable_ip_range`
  unfoldable pub usable_ip_range : Subnet Network → Result (Option Range)
  unfolding reserved_ipset
  usable_ip_range subnet = do
    reserved ← reserved_ipset subnet
    let usable = lib.difference (lib.network_set subnet.address) reserved
    raise_if (not (lib.iscontiguous usable)) assertion_error
    ok (lib.iprange usable)

  -- `Subnet.usable_size`
  unfoldable pub usable_size : Subnet Network → Result ℕ
  usable_size subnet = do
    range ← usable_ip_range subnet
    ok (elim range [ none ↦ 0 | some r ↦ lib.size r ])

  -- `Subnet.unused_ips_iter`, where `used` holds the addresses of `self.ips`
  unfoldable pub unused_ips : List ℕ → Subnet Network → Result (List ℕ)
  unfolding drop_used
  unused_ips used subnet = do
    range ← usable_ip_range subnet
    ok (elim range [ none ↦ [] | some r ↦ drop_used used (lib.addresses r) ])

  -- `get_free_ip`: the generator does not look at a subnet before those in front of it are full.
  unfoldable pub get_free_ip :
      (Subnet Network → List ℕ) → List (Subnet Network) → Result (ℕ × Subnet Network)
  unfolding unused_ips
  get_free_ip used [] = err subnet_full
  get_free_ip used (subnet ∷ subnets) = do
    unused ← unused_ips (used subnet) subnet
    elim unused [ [] ↦ get_free_ip used subnets | ip ∷ ips ↦ ok (ip, subnet) ]
