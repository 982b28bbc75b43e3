-- ===== src/Net/Placed.antt =====
-- The invariant of the addresses: each is unique, and stands in the one subnet that contains it.
use pycroft.Base.{
  AllOf-append, AllOf-map, AllOf-both, AllOf, Among, ℕ, ◌≡◌, refl, ap, true, false, not, ◌&&◌, ◌==◌,
  Option, none, some, List, [], ◌∷◌, ◌++◌, arith, Bool-cases, inl, inr, ==_iff,
}
use pycroft.Net.Addresses.{Netaddr, Subnet, listed_address}
use pycroft.Net.Usable.{IsSane, NetaddrLaws, is_usable}
use pycroft.Net.Store.{
  Ip, NetDb, addresses_of, ips_in, delete_row, vlans_of, connected_patch_ports, subnets_of_vlan,
  subnets_of_vlans, subnets_of_ports, get_subnets_for_room,
}
use pycroft.Net.Rows.{Unique, Unique-append, Unique-delete_row, AllOf-delete_row}

module _ {Network IpSet : Type 0} (lib : Netaddr Network IpSet) where
  vlan_all :
      (P : Subnet Network → Type 0) (v : ℕ) (all : List (Subnet Network))
      → AllOf P all
      → AllOf P (subnets_of_vlan lib v all)
  unfolding subnets_of_vlan
  vlan_all P v [] p = tt
  vlan_all P v (s ∷ ss) p = elim (Bool-cases (s.vlan == v && lib.version s.address == 4)) [
    | inl taken ↦ rw taken (p.0, vlan_all P v ss p.1)
    | inr left ↦ rw left (vlan_all P v ss p.1)
  ]

  vlans_all :
      (P : Subnet Network → Type 0) (all : List (Subnet Network)) (vs : List ℕ)
      → AllOf P all
      → AllOf P (subnets_of_vlans lib all vs)
  unfolding subnets_of_vlans
  vlans_all P all [] p = tt
  vlans_all P all (v ∷ vs) p =
      AllOf-append P (subnets_of_vlan lib v all) (subnets_of_vlans lib all vs) (vlan_all P v all p)
        (vlans_all P all vs p)

  ports_all :
      (P : Subnet Network → Type 0) (all : List (Subnet Network)) (vlans : List (ℕ × ℕ))
      (ports : List ℕ)
      → AllOf P all
      → AllOf P (subnets_of_ports lib all vlans ports)
  unfolding subnets_of_ports
  ports_all P all vlans [] p = tt
  ports_all P all vlans (q ∷ qs) p =
      AllOf-append P (subnets_of_vlans lib all (vlans_of q vlans))
        (subnets_of_ports lib all vlans qs) (vlans_all P all (vlans_of q vlans) p)
        (ports_all P all vlans qs p)

  -- What holds of all subnets holds of those of a room.
  pub room_all :
      (P : Subnet Network → Type 0) (room : Option ℕ) (db : NetDb Network)
      → AllOf P db.subnets
      → AllOf P (get_subnets_for_room lib room db)
  unfolding get_subnets_for_room
  room_all P none db p = tt
  room_all P (some room) db p =
      ports_all P db.subnets db.default_vlans (connected_patch_ports room db.patch_ports) p

  -- The rows whose addresses lie in a subnet belong to it.
  abbrev pub Placed : Subnet Network → List Ip → Type 0
  Placed s rows =
      AllOf (λ r. (lib.contains s.address r.address && not (r.subnet == s.id)) ≡ false) rows

  -- A subnet shares no address with a different one.
  abbrev pub Apart : List (Subnet Network) → Subnet Network → Type 0
  Apart all s =
      (x : ℕ)
      → AllOf
          (λ t.
            (lib.contains s.address x && (lib.contains t.address x && not (s.id == t.id))) ≡ false)
          all

  abbrev pub Fits : List (Subnet Network) → List Ip → Subnet Network → Type 0
  Fits all rows s = IsSane lib s × Apart all s × Placed s rows

  -- A row belongs to one of the subnets, which contains its address.
  abbrev pub HasHome : List (Subnet Network) → Ip → Type 0
  HasHome all r =
      (s : Subnet Network) × Among s all
      × (r.subnet ≡ s.id)
      × (lib.contains s.address r.address ≡ true)

  -- One of the subnets, apart from the others
  abbrev pub Known : List (Subnet Network) → Subnet Network → Type 0
  Known all s = Among s all × Apart all s

  abbrev pub Valid : List (Subnet Network) → List Ip → Type 0
  Valid all rows = AllOf (Fits all rows) all × Unique rows × AllOf (HasHome all) rows

  -- The reserved ranges are sane, the subnets are apart, and every address is unique and stands in a
  -- subnet of the table that contains it, and in no other one.
  abbrev pub IsValid : NetDb Network → Type 0
  IsValid db = Valid db.subnets db.ips

  -- An address that is not used in the subnet that contains it is not used at all.
  pub unused_anywhere :
      (s : Subnet Network) (x : ℕ) (rows : List Ip)
      → Placed s rows
      → lib.contains s.address x ≡ true
      → listed_address x (addresses_of (ips_in s.id rows)) ≡ false
      → listed_address x (addresses_of rows) ≡ false
  unfolding listed_address ips_in
  unused_anywhere s x [] p c h = refl
  unused_anywhere s x (r ∷ rows) p c h = elim (Bool-cases (r.address == x)) [
    | inr other ↦ ground (arith, unused_anywhere s x rows p.1 c)
    | inl same ↦
        absurd (ground (arith, p.0, ap (lib.contains s.address) ((==_iff r.address x).0 same)))
  ]

  pub usable-contained :
      (laws : NetaddrLaws lib) (s : Subnet Network) (x : ℕ)
      → is_usable lib s x ≡ true
      → lib.contains s.address x ≡ true
  usable-contained laws s x u =
      let (w, v) = laws.usable_within s.address in ground (arith, laws.contains_lem s.address x)

  -- A new row in a subnet
  pub Valid-append :
      (all : List (Subnet Network)) (rows : List Ip) (s : Subnet Network) (r : Ip)
      → Valid all rows
      → Known all s
      → lib.contains s.address r.address ≡ true
      → r.subnet ≡ s.id
      → listed_address r.address (addresses_of rows) ≡ false
      → Valid all (rows ++ (r ∷ []))
  Valid-append all rows s r v (among, apart) c home new = (
    AllOf-map _ _ all
        (λ t p.
          (p.0.0, p.0.1, AllOf-append _ rows (r ∷ []) p.0.2 (ground (arith, p.1, c, home), tt)))
        (AllOf-both (Fits all rows) _ all v.0 (apart r.address)),
    Unique-append rows r v.1 new,
    AllOf-append (HasHome all) rows (r ∷ []) v.2 ((s, among, home, c), tt),
  )

  pub Valid-delete_row :
      (all : List (Subnet Network)) (rows : List Ip) (i a : ℕ)
      → Valid all rows
      → Valid all (delete_row i a rows)
  Valid-delete_row all rows i a v = (
    AllOf-map _ _ all (λ t p. (p.0, p.1, AllOf-delete_row _ i a rows p.2)) v.0,
    Unique-delete_row i a rows v.1,
    AllOf-delete_row (HasHome all) i a rows v.2,
  )
