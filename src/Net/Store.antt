-- ===== src/Net/Store.antt =====
-- The rows of hosts, interfaces, addresses and patch ports (pycroft/model/host.py, port.py), and the
-- queries on them. A host without an owner or a room has `none` there.
use pycroft.Base.{
  ℕ, not, ◌&&◌, ◌==◌, if◌then◌else◌, Option, none, some, List, [], ◌∷◌, ◌++◌, String, Result, ok,
  err, value_error, integrity_error, ◌>>◌, raise_if,
}
use pycroft.Net.Addresses.{Netaddr, Subnet, listed_address}

pub record Host : Type 0 where
  pub id : ℕ
  pub name : Option String
  pub owner : Option ℕ
  pub room : Option ℕ

pub record Interface : Type 0 where
  pub id : ℕ
  pub name : Option String
  pub mac : String
  pub host : ℕ

-- `IP`, where the interface and the subnet are known by their ids; the address is unique.
pub record Ip : Type 0 where
  pub address : ℕ
  pub interface : ℕ
  pub subnet : ℕ

pub record PatchPort : Type 0 where
  pub switch_port : Option ℕ
  pub room : ℕ

-- What the log entries say; their texts are not modelled.
pub data HostMessage : Type 0 where
  changed_mac : String → String → HostMessage
  created_host deleted_host : Option String → HostMessage
  changed_name : Option String → Option String → HostMessage
  transferred_to transferred_from : Option ℕ → HostMessage
  changed_ip : String → ℕ → ℕ → HostMessage
  moved_host : ℕ → ℕ → HostMessage
  created_interface : String → List ℕ → HostMessage
  edited_interface deleted_interface : String → HostMessage
  moved_in : Option ℕ → HostMessage
  moved_user : Option ℕ → ℕ → Option String → HostMessage
  moved_out : Option ℕ → List String → ℕ → String → HostMessage

pub record HostLogEntry : Type 0 where
  pub message : HostMessage
  pub author : ℕ
  pub about : ℕ

-- The tables, and `deleted_ips`: the addresses that the session has deleted.
pub record NetDb (Network : Type 0) : Type 0 where
  pub next_id : ℕ
  pub subnets : List (Subnet Network)
  pub patch_ports : List PatchPort
  pub default_vlans : List (ℕ × ℕ)
  pub hosts : List Host
  pub interfaces : List Interface
  pub ips : List Ip
  pub deleted_ips : List Ip
  pub log : List HostLogEntry

-- the addresses of rows
abbrev pub addresses_of : List Ip → List ℕ
addresses_of [] = []
addresses_of (r ∷ rs) = r.address ∷ addresses_of rs

-- `interface.ips`
unfoldable pub ips_of : ℕ → List Ip → List Ip
ips_of interface [] = []
ips_of interface (r ∷ rs) =
    let rest = ips_of interface rs in if r.interface == interface then r ∷ rest else rest

-- the rows without the one of an interface with an address
unfoldable pub delete_row : ℕ → ℕ → List Ip → List Ip
delete_row interface address [] = []
delete_row interface address (r ∷ rs) =
    let rest = delete_row interface address rs in
    if r.interface == interface && r.address == address then rest else r ∷ rest

-- `subnet.ips`
unfoldable pub ips_in : ℕ → List Ip → List Ip
ips_in subnet [] = []
ips_in subnet (r ∷ rs) =
    let rest = ips_in subnet rs in if r.subnet == subnet then r ∷ rest else rest

-- `host.interfaces`
unfoldable pub interfaces_of : ℕ → List Interface → List Interface
interfaces_of host [] = []
interfaces_of host (i ∷ is) =
    let rest = interfaces_of host is in if i.host == host then i ∷ rest else rest

-- the table of hosts after a row has been written
unfoldable pub save_host : Host → List Host → List Host
save_host h [] = []
save_host h (g ∷ gs) = if g.id == h.id then h ∷ gs else g ∷ save_host h gs

-- `p.switch_port.default_vlans`
unfoldable pub vlans_of : ℕ → List (ℕ × ℕ) → List ℕ
vlans_of port [] = []
vlans_of port ((p, vlan) ∷ rows) =
    let rest = vlans_of port rows in if p == port then vlan ∷ rest else rest

-- `room.connected_patch_ports`, with the switch port of each
unfoldable pub connected_patch_ports : ℕ → List PatchPort → List ℕ
connected_patch_ports room [] = []
connected_patch_ports room (p ∷ ps) =
    let rest = connected_patch_ports room ps in
    elim p.switch_port [ none ↦ rest | some port ↦ if p.room == room then port ∷ rest else rest ]

-- `log_user_event`; an entry without a user is refused by its table.
unfoldable pub log_host_event :
    {Network : Type 0} → HostMessage → ℕ → Option ℕ → NetDb Network → Result (NetDb Network)
log_host_event message author none db = err integrity_error
log_host_event message author (some user) db = ok (record db {
  log = db.log ++ (record { message = message; author = author; about = user } ∷ []);
})

module _ {Network IpSet : Type 0} (lib : Netaddr Network IpSet) where
  -- `for s in v.subnets if s.address.version == 4`
  unfoldable pub subnets_of_vlan : ℕ → List (Subnet Network) → List (Subnet Network)
  subnets_of_vlan vlan [] = []
  subnets_of_vlan vlan (s ∷ ss) =
      let rest = subnets_of_vlan vlan ss in
      if s.vlan == vlan && lib.version s.address == 4 then s ∷ rest else rest

  unfoldable pub subnets_of_vlans : List (Subnet Network) → List ℕ → List (Subnet Network)
  unfolding subnets_of_vlan
  subnets_of_vlans subnets [] = []
  subnets_of_vlans subnets (v ∷ vs) = subnets_of_vlan v subnets ++ subnets_of_vlans subnets vs

  unfoldable pub subnets_of_ports :
      List (Subnet Network) → List (ℕ × ℕ) → List ℕ → List (Subnet Network)
  unfolding subnets_of_vlans vlans_of
  subnets_of_ports subnets default_vlans [] = []
  subnets_of_ports subnets default_vlans (p ∷ ps) =
      subnets_of_vlans subnets (vlans_of p default_vlans)
      ++ subnets_of_ports subnets default_vlans ps

  unfoldable pub get_subnets_for_room : Option ℕ → NetDb Network → List (Subnet Network)
  unfolding subnets_of_ports connected_patch_ports
  get_subnets_for_room none db = []
  get_subnets_for_room (some room) db =
      subnets_of_ports db.subnets db.default_vlans (connected_patch_ports room db.patch_ports)

  -- `IP(interface, address, subnet)` with the checks of the model: `_check_subnet_valid`, and that
  -- addresses are unique
  unfoldable pub add_ip : ℕ → ℕ → Subnet Network → NetDb Network → Result (NetDb Network)
  unfolding listed_address
  add_ip interface address subnet db = do
    raise_if (not (lib.contains subnet.address address)) value_error
    raise_if (listed_address address (addresses_of db.ips)) integrity_error
    ok (record db {
      ips =
          db.ips ++ (record { address = address; interface = interface; subnet = subnet.id } ∷ []);
    })
