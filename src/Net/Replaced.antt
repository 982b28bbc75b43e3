-- ===== src/Net/Replaced.antt =====
-- What a host that moves leaves as it was, and what it replaces or deletes.
use pycroft.Base.{
  AllOf-append, AllOf-map, AllOf-Among, AllOf-self, AllOf, Among, ℕ, ◌≡◌, sym, ap, ◌∙◌, ◌⊎◌, inl,
  inr, Bool, true, false, ◌||◌, ◌==◌, List, [], ◌∷◌, ◌++◌, Result, ok, err, subnet_full, Bool-cases,
}
use mathlib.Core.List.{append_assoc}
use pycroft.Net.Addresses.{Netaddr, Subnet}
use pycroft.Net.Usable.{AllFull, is_usable}
use pycroft.Net.Store.{Interface, Ip, NetDb, ips_of}
use pycroft.Net.Ops.{used_in}
use pycroft.Net.Rows.{count}
use pycroft.Net.Placed.{Valid}

-- One of the interfaces has the id.
abbrev pub owned : ℕ → List Interface → Bool
owned i [] = false
owned i (j ∷ js) = j.id == i || owned i js

-- The addresses of all other interfaces are what they were; `Others` says so without a hypothesis.
abbrev pub KeptBut : List Interface → List Ip → List Ip → Type 0
KeptBut is rows rows' = (i : ℕ) → owned i is ≡ false → ips_of i rows' ≡ ips_of i rows

abbrev pub Others : List Interface → List Ip → List Ip → Type 0
Others is rows rows' = (i : ℕ) → (owned i is ≡ true) ⊎ (ips_of i rows' ≡ ips_of i rows)

pub KeptBut-Others :
    (is : List Interface) (rows rows' : List Ip) → KeptBut is rows rows' → Others is rows rows'
KeptBut-Others is rows rows' kept i = elim (Bool-cases (owned i is)) [
  | inl own ↦ inl own
  | inr other ↦ inr (kept i other)
]

-- All interfaces have as many addresses as they had.
abbrev pub SameCount : List Ip → List Ip → Type 0
SameCount rows rows' = (i : ℕ) → count (ips_of i rows') ≡ count (ips_of i rows)

-- A database has deleted some of the given rows more than the other one.
abbrev pub Deletes : {Network : Type 0} → List Ip → NetDb Network → NetDb Network → Type 0
Deletes rows db db' =
    (gone : List Ip) × (db'.deleted_ips ≡ gone ++ db.deleted_ips) × AllOf (λ r. Among r rows) gone

pub Deletes-trans :
    {Network : Type 0} (rows : List Ip) (a b c : NetDb Network)
    → Deletes rows a b
    → Deletes rows b c
    → Deletes rows a c
Deletes-trans rows a b c (g, e, p) (h, f, q) =
    (h ++ g, f ∙ ap (λ l. h ++ l) e ∙ sym (append_assoc h g a.deleted_ips), AllOf-append _ h g q p)

pub Deletes-more :
    {Network : Type 0} (rows more : List Ip) (a b : NetDb Network)
    → ((r : Ip) → Among r rows → Among r more)
    → Deletes rows a b
    → Deletes more a b
Deletes-more rows more a b f (g, e, p) = (g, e, AllOf-map _ _ g f p)

module _ {Network IpSet : Type 0} (lib : Netaddr Network IpSet) where
  -- The address of a row is usable in one of the subnets, which is the row's.
  abbrev pub IsIn : List (Subnet Network) → Ip → Type 0
  IsIn subnets r =
      (s : Subnet Network) × Among s subnets
      × (is_usable lib s r.address ≡ true)
      × (r.subnet ≡ s.id)

  -- The rows that there are now are old ones, or their addresses are usable in one of the subnets.
  abbrev pub Renewed : List (Subnet Network) → List Ip → List Ip → Type 0
  Renewed subnets rows rows' = AllOf (λ r. Among r rows ⊎ IsIn subnets r) rows'

  pub Renewed-same : (subnets : List (Subnet Network)) (rows : List Ip) → Renewed subnets rows rows
  Renewed-same subnets rows = AllOf-map _ _ rows (λ r here. inl here) (AllOf-self rows)

  pub Renewed-trans :
      (subnets : List (Subnet Network)) (rows mid last : List Ip)
      → Renewed subnets rows mid
      → Renewed subnets mid last
      → Renewed subnets rows last
  Renewed-trans subnets rows mid last p q = AllOf-map _ _ last later q
    where
      later : (r : Ip) → Among r mid ⊎ IsIn subnets r → Among r rows ⊎ IsIn subnets r
      later r (inl here) = AllOf-Among _ r mid here p
      later r (inr new) = inr new

  -- the tables that no step writes
  abbrev pub Static : NetDb Network → NetDb Network → Type 0
  Static db db' =
      (db'.subnets ≡ db.subnets) × (db'.hosts ≡ db.hosts) × (db'.interfaces ≡ db.interfaces)

  -- A call fails when all addresses are used, at the expense of the given interfaces at most; no rows but
  -- the given ones have been deleted.
  abbrev pub Stuck :
      (ℕ → Bool)
      → List (Subnet Network)
      → List (Subnet Network)
      → List Interface
      → List Ip
      → NetDb Network
      → Result (NetDb Network)
      → Type 0
  Stuck stale all subnets is olds db call =
      (call ≡ err subnet_full)
      × (full : NetDb Network) × AllFull lib (used_in lib stale full) subnets
      × Valid lib all full.ips
      × Renewed subnets db.ips full.ips
      × Deletes olds db full
      × KeptBut is db.ips full.ips
      × SameCount db.ips full.ips

  -- A call replaces the addresses of the given interfaces.
  abbrev pub Moves :
      List (Subnet Network)
      → List (Subnet Network)
      → List Interface
      → List Ip
      → NetDb Network
      → Result (NetDb Network)
      → Type 0
  Moves all subnets is olds db call =
      (db' : NetDb Network) × (call ≡ ok db')
      × Static db db'
      × Renewed subnets db.ips db'.ips
      × Deletes olds db db'
      × Valid lib all db'.ips
      × KeptBut is db.ips db'.ips
      × SameCount db.ips db'.ips
      × AllOf (λ i. AllOf (IsIn subnets) (ips_of i.id db'.ips)) is
