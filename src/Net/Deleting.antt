-- ===== src/Net/Deleting.antt =====
-- Deleting rows keeps the addresses valid.
use pycroft.Base.{AllOf-map, AllOf, ℕ, ◌≡◌, inl, inr, false, ◌==◌, List, [], ◌∷◌, arith, Bool-cases}
use pycroft.Net.Addresses.{Netaddr, Subnet, listed_address}
use pycroft.Net.Store.{Host, Interface, Ip, NetDb, addresses_of, interfaces_of}
use pycroft.Net.Hosts.{
  drop_ips_of, drop_first, delete_interface, delete_interfaces, delete_host, delete_ip,
}
use pycroft.Net.Rows.{Unique}
use pycroft.Net.Placed.{Valid}
use pycroft.Net.Keeping.{Inv}

-- The first list is what is left of the second one.
data Left : List Ip → List Ip → Type 0 where
  nothing : Left [] []
  kept : {r : Ip} {rs ss : List Ip} → Left rs ss → Left (r ∷ rs) (r ∷ ss)
  gone : {r : Ip} {rs ss : List Ip} → Left rs ss → Left rs (r ∷ ss)

Left-AllOf : (P : Ip → Type 0) {rs ss : List Ip} → Left rs ss → AllOf P ss → AllOf P rs
Left-AllOf P nothing p = tt
Left-AllOf P (kept l) p = (p.0, Left-AllOf P l p.1)
Left-AllOf P (gone l) p = Left-AllOf P l p.1

Left-listed :
    (x : ℕ) {rs ss : List Ip}
    → Left rs ss
    → listed_address x (addresses_of ss) ≡ false
    → listed_address x (addresses_of rs) ≡ false
unfolding listed_address
Left-listed x nothing h = h
Left-listed x (kept l) h = ground (arith, Left-listed x l)
Left-listed x (gone l) h = Left-listed x l (ground arith)

Left-Unique : {rs ss : List Ip} → Left rs ss → Unique ss → Unique rs
Left-Unique nothing u = tt
Left-Unique (kept {r} l) u = (Left-listed r.address l u.0, Left-Unique l u.1)
Left-Unique (gone l) u = Left-Unique l u.1

Left-same : (rs : List Ip) → Left rs rs
Left-same [] = nothing
Left-same (r ∷ rs) = kept (Left-same rs)

Left-drop_ips_of : (i : ℕ) (rs : List Ip) → Left (drop_ips_of i rs) rs
unfolding drop_ips_of
Left-drop_ips_of i [] = nothing
Left-drop_ips_of i (r ∷ rs) = elim (Bool-cases (r.interface == i)) [
  | inl own ↦ rw own (gone (Left-drop_ips_of i rs))
  | inr other ↦ rw other (kept (Left-drop_ips_of i rs))
]

Left-drop_first : (a : ℕ) (rs : List Ip) → Left (drop_first a rs) rs
unfolding drop_first
Left-drop_first a [] = nothing
Left-drop_first a (r ∷ rs) = elim (Bool-cases (r.address == a)) [
  | inl same ↦ rw same (gone (Left-same rs))
  | inr other ↦ rw other (kept (Left-drop_first a rs))
]

module _ {Network IpSet : Type 0} (lib : Netaddr Network IpSet) (all : List (Subnet Network)) where
  Left-Valid : {rs ss : List Ip} → Left rs ss → Valid lib all ss → Valid lib all rs
  Left-Valid l v = (
    AllOf-map _ _ all (λ s f. (f.0, f.1, Left-AllOf _ l f.2)) v.0,
    Left-Unique l v.1,
    Left-AllOf _ l v.2,
  )

  pub Inv-delete_interface :
      (i : Interface) (db : NetDb Network) → Inv lib all db → Inv lib all (delete_interface i db)
  unfolding delete_interface
  Inv-delete_interface i db v = (v.0, Left-Valid (Left-drop_ips_of i.id db.ips) v.1)

  Inv-delete_interfaces :
      (is : List Interface) (db : NetDb Network)
      → Inv lib all db
      → Inv lib all (delete_interfaces is db)
  unfolding delete_interfaces
  Inv-delete_interfaces [] db v = v
  Inv-delete_interfaces (i ∷ is) db v =
      Inv-delete_interfaces is (delete_interface i db) (Inv-delete_interface i db v)

  pub Inv-delete_host :
      (host : Host) (db : NetDb Network) → Inv lib all db → Inv lib all (delete_host host db)
  unfolding delete_host
  Inv-delete_host host db v = Inv-delete_interfaces (interfaces_of host.id db.interfaces) db v

  pub Inv-delete_ip : (a : ℕ) (db : NetDb Network) → Inv lib all db → Inv lib all (delete_ip a db)
  unfolding delete_ip
  Inv-delete_ip a db v = (v.0, Left-Valid (Left-drop_first a db.ips) v.1)
