-- ===== src/Net/Usable.antt =====
-- Which addresses of a subnet are usable, and which one `get_free_ip` takes.
use pycroft.Base.{
  AllOf, Among, ℕ, ◌≤◌, ◌<◌, ◌+◌, ◌-◌, ◌≡◌, refl, ◌⊎◌, inl, inr, Bool, true, false, not, ◌&&◌, ◌||◌,
  ◌==◌, leb, ltb, if◌then◌else◌, Option, none, some, List, [], ◌∷◌, ok, err, subnet_full, arith,
  Bool-cases, ap, ==_iff, sym,
}
use pycroft.Net.Addresses.{
  Range, Netaddr, Subnet, or_zero, listed_address, drop_used, reserved_ipset, usable_ip_range,
  unused_ips, get_free_ip,
}

abbrev pub in_range : Range → ℕ → Bool
in_range r x = leb r.start x && leb x r.end

abbrev pub in_ranges : List Range → ℕ → Bool
in_ranges [] x = false
in_ranges (r ∷ rs) x = in_range r x || in_ranges rs x

-- addresses are those of version 4
abbrev pub address_limit : ℕ
address_limit = 4294967296

-- What netaddr's documentation says of the operations, with `ip in set` as `in_set`.
pub record NetaddrLaws {Network IpSet : Type 0} (lib : Netaddr Network IpSet) : Type 0 where
  pub in_set : IpSet → ℕ → Bool
  pub usable_within :
      (n : Network) → (lib.first n ≤ (lib.usable_range n).0) × ((lib.usable_range n).1 ≤ lib.last n)
  pub contains_lem :
      (n : Network) (x : ℕ) → lib.contains n x ≡ (leb (lib.first n) x && leb x (lib.last n))
  pub ip_range_lem :
      (a b : ℕ) → a ≤ b → b < address_limit → lib.ip_range a b ≡ ok (record { start = a; end = b })
  pub network_set_lem :
      (n : Network) (x : ℕ)
      → in_set (lib.network_set n) x ≡ (leb (lib.first n) x && leb x (lib.last n))
  pub range_set_lem : (rs : List Range) (x : ℕ) → in_set (lib.range_set rs) x ≡ in_ranges rs x
  pub difference_lem :
      (s t : IpSet) (x : ℕ) → in_set (lib.difference s t) x ≡ (in_set s x && not (in_set t x))
  pub one_range :
      (s : IpSet) (r : Range)
      → r.start ≤ r.end
      → ((x : ℕ) → in_set s x ≡ in_range r x)
      → (lib.iscontiguous s ≡ true) × (lib.iprange s ≡ some r)
  pub no_range :
      (s : IpSet)
      → ((x : ℕ) → in_set s x ≡ false)
      → (lib.iscontiguous s ≡ true) × (lib.iprange s ≡ none)
  pub addresses_lem : (r : Range) (x : ℕ) → listed_address x (lib.addresses r) ≡ in_range r x

module _ {Network IpSet : Type 0} (lib : Netaddr Network IpSet) where
  -- the last reserved address at the bottom, and the first one at the top
  abbrev pub bottom_end : Subnet Network → ℕ
  bottom_end s = (lib.usable_range s.address).0 + or_zero s.reserved_addresses_bottom

  abbrev pub top_start : Subnet Network → ℕ
  top_start s = (lib.usable_range s.address).1 - or_zero s.reserved_addresses_top

  -- The reserved ranges consist of addresses.
  abbrev pub IsSane : Subnet Network → Type 0
  IsSane s =
      (bottom_end s < address_limit)
      × (or_zero s.reserved_addresses_top ≤ (lib.usable_range s.address).1)
      × (lib.last s.address < address_limit)

  abbrev pub usable : Subnet Network → Option Range
  usable s =
      if ltb (bottom_end s + 1) (top_start s)
      then some (record { start = bottom_end s + 1; end = top_start s - 1 })
      else none

  abbrev pub is_usable : Subnet Network → ℕ → Bool
  is_usable s x = ltb (bottom_end s) x && ltb x (top_start s)

  abbrev pub AllSane : List (Subnet Network) → Type 0
  AllSane ss = AllOf (IsSane) ss

  -- Every usable address of the subnets is used.
  abbrev pub AllFull : (Subnet Network → List ℕ) → List (Subnet Network) → Type 0
  AllFull used [] = Unit
  AllFull used (s ∷ ss) =
      ((x : ℕ) → (is_usable s x && not (listed_address x (used s))) ≡ false) × AllFull used ss

  -- An address is usable in a subnet of the list and not used there.
  abbrev pub IsFree :
      (Subnet Network → List ℕ) → List (Subnet Network) → ℕ → Subnet Network → Type 0
  IsFree used subnets ip s =
      Among s subnets × (is_usable s ip ≡ true) × (listed_address ip (used s) ≡ false)

  module _ (laws : NetaddrLaws lib) where
    -- If the reserved ranges of a subnet consist of addresses, the assertion of `usable_ip_range` holds: the
    -- range begins after the first usable address of the network and the addresses reserved above it, and
    -- ends before the last usable address and those reserved below it; it is `None` if no address is left.
    pub usable_ip_range_exact :
        (s : Subnet Network) → IsSane s → usable_ip_range lib s ≡ ok (usable s)
    unfolding usable_ip_range reserved_ipset
    usable_ip_range_exact s (low, high, end) =
        let (w, v) = laws.usable_within s.address in
        let bottom : Range = record { start = lib.first s.address; end = bottom_end s } in
        let top : Range = record { start = top_start s; end = lib.last s.address } in
        let left = lib.difference (lib.network_set s.address) (lib.range_set (bottom ∷ top ∷ [])) in
        let member : (x : ℕ) → laws.in_set left x ≡ is_usable s x = λ x. ground (
          arith,
          laws.difference_lem (lib.network_set s.address) (lib.range_set (bottom ∷ top ∷ [])) x,
          laws.network_set_lem s.address x,
          laws.range_set_lem (bottom ∷ top ∷ []) x,
        ) in
        let all_bottom =
          laws.ip_range_lem (lib.first s.address) (bottom_end s) (ground arith) low in
        let all_top = laws.ip_range_lem (top_start s) (lib.last s.address) (ground arith) end in
        let fits : ltb (lib.usable_range s.address).1 (or_zero s.reserved_addresses_top) ≡ false =
          ground arith in
        elim (Bool-cases (ltb (bottom_end s + 1) (top_start s))) [
          | inl room ↦
              let (c, e) =
                laws.one_range left (record { start = bottom_end s + 1; end = top_start s - 1 })
                  (ground arith) (λ x. ground (arith, member x)) in
              rw (all_bottom, fits, all_top, c, e, room)
          | inr full ↦
              let (c, e) = laws.no_range left (λ x. ground (arith, member x)) in
              rw (all_bottom, fits, all_top, c, e, full)
        ]

pub listed-drop_used :
    (used all : List ℕ) (x : ℕ)
    → listed_address x (drop_used used all) ≡ (listed_address x all && not (listed_address x used))
unfolding drop_used listed_address
listed-drop_used used [] x = refl
listed-drop_used used (a ∷ all) x = elim (Bool-cases (a == x)) [
  | inr other ↦ ground (arith, listed-drop_used used all x)
  | inl same ↦
      ground
        (arith, listed-drop_used used all x, ap (λ b. listed_address b used) ((==_iff a x).0 same))
]

module _ {Network IpSet : Type 0} (lib : Netaddr Network IpSet) (laws : NetaddrLaws lib) where
  -- What `unused_ips_iter` yields: the usable addresses that are not used.
  unused_ips_exact :
      (used : List ℕ) (s : Subnet Network)
      → IsSane lib s
      → (ips : List ℕ) × (unused_ips lib used s ≡ ok ips)
        × ((x : ℕ) → listed_address x ips ≡ (is_usable lib s x && not (listed_address x used)))
  unfolding unused_ips drop_used listed_address
  unused_ips_exact used s sane =
      let exact = usable_ip_range_exact lib laws s sane in
      let r : Range = record { start = bottom_end lib s + 1; end = top_start lib s - 1 } in
      elim (Bool-cases (ltb (bottom_end lib s + 1) (top_start lib s))) [
        | inl room ↦ (
          drop_used used (lib.addresses r),
          rw (exact, room),
          λ x. ground (arith, listed-drop_used used (lib.addresses r) x, laws.addresses_lem r x),
        )
        | inr full ↦ ([], rw (exact, full), λ x. ground arith)
      ]

  -- If each subnet's ranges of reserved addresses consist of addresses, `get_free_ip` finds an address
  -- that is usable in one of the subnets and not used there, or it raises `SubnetFullException` and every
  -- usable address of every subnet is used.
  pub get_free_ip_outcome :
      (used : Subnet Network → List ℕ) (subnets : List (Subnet Network))
      → AllSane lib subnets
      → ((ip : ℕ) × (s : Subnet Network) × (get_free_ip lib used subnets ≡ ok (ip, s))
          × IsFree lib used subnets ip s)
        ⊎ ((get_free_ip lib used subnets ≡ err subnet_full) × AllFull lib used subnets)
  unfolding get_free_ip listed_address
  get_free_ip_outcome used [] sane = inr (refl, tt)
  get_free_ip_outcome used (s ∷ ss) sane =
      let (ips, e, exact) = unused_ips_exact (used s) s sane.0 in
      elim ips
          as (λ l.
            unused_ips lib (used s) s ≡ ok l
            → ((x : ℕ)
                → listed_address x l ≡ (is_usable lib s x && not (listed_address x (used s))))
            → ((ip : ℕ) × (t : Subnet Network) × (get_free_ip lib used (s ∷ ss) ≡ ok (ip, t))
                × IsFree lib used (s ∷ ss) ip t)
              ⊎ ((get_free_ip lib used (s ∷ ss) ≡ err subnet_full) × AllFull lib used (s ∷ ss))) [
                | [] ↦ λ none_left is. elim (get_free_ip_outcome used ss sane.1) [
                  | inl (ip, t, found, (among, usable_there, free)) ↦
                      inl (ip, t, rw (none_left, found), (inr among, usable_there, free))
                  | inr (none_found, full) ↦
                      inr (rw (none_left, none_found), ((λ x. sym (is x)), full))
                ]
                | ip ∷ rest ↦ λ some_left is.
                    inl (
                      ip,
                      s,
                      rw some_left,
                      (inl refl, ground (arith, is ip), ground (arith, is ip)),
                    )
              ]
        e exact
