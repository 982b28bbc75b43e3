-- ===== src/Net/Edit.antt =====
-- The operations of pycroft/lib/host.py that look for addresses: editing hosts, and creating and
-- editing interfaces.
use pycroft.Base.{
  ℕ, ◌+◌, Bool, not, ◌==◌, if◌then◌else◌, Option, none, some, List, [], ◌∷◌, ◌++◌, String, str_eq,
  Result, ok, err, integrity_error, attribute_error, ◌>>=◌, ◌>>◌, raise_if,
}
use pycroft.Net.Addresses.{Netaddr, Subnet, listed_address, get_free_ip}
use pycroft.Net.Store.{
  Host, Interface, changed_name, transferred_to, transferred_from, created_interface,
  edited_interface, NetDb, addresses_of, ips_of, save_host, log_host_event, get_subnets_for_room,
  add_ip,
}
use pycroft.Net.Ops.{used_in, same_room, migrate_host}
use pycroft.Net.Hosts.{
  MacText, validate_mac, mac_taken, save_interface, find_owner, delete_ip, same_text,
}

module _ {Network IpSet : Type 0} (lib : Netaddr Network IpSet) (stale : ℕ → Bool)
    (text : MacText) where
  -- `host_edit`, the new name
  unfoldable pub edit_name : Host → ℕ → String → ℕ → NetDb Network → Result (Host × NetDb Network)
  unfolding same_text
  edit_name host owner name processor db =
      if same_text host.name (some name) then ok (host, db) else (do
        let renamed = record host { name = some name }
        db ←
            log_host_event (changed_name host.name (some name)) processor (some owner)
              (record db { hosts = save_host renamed db.hosts })
        ok (renamed, db))

  -- `host_edit`, the log entries of both users and the new owner
  unfoldable pub transfer : Option ℕ → Host → ℕ → ℕ → NetDb Network → Result (Host × NetDb Network)
  transfer none host owner processor db = err attribute_error
  transfer (some before) host owner processor db = do
    db ← log_host_event (transferred_to (some owner)) processor (some before) db
    db ← log_host_event (transferred_from (some before)) processor (some owner) db
    let given = record host { owner = some owner }
    ok (given, record db { hosts = save_host given db.hosts })

  unfoldable pub edit_owner : Host → ℕ → ℕ → NetDb Network → Result (Host × NetDb Network)
  unfolding transfer
  edit_owner host owner processor db =
      if same_room host.owner (some owner)
      then ok (host, db)
      else transfer host.owner host owner processor db

  unfoldable pub host_edit : Host → ℕ → ℕ → String → ℕ → NetDb Network → Result (NetDb Network)
  unfolding edit_name edit_owner
  host_edit host owner room name processor db = do
    (host, db) ← edit_name host owner name processor db
    (host, db) ← edit_owner host owner processor db
    if not (same_room host.room (some room))
        then migrate_host lib stale host room processor db
        else ok db

  -- `next(iter([subnet for subnet in subnets if ip in subnet.address]), None)`
  unfoldable pub subnet_of : ℕ → List (Subnet Network) → Option (Subnet Network)
  subnet_of ip [] = none
  subnet_of ip (s ∷ ss) = if lib.contains s.address ip then some s else subnet_of ip ss

  -- `if subnet is not None: session.add(IP(...))`
  unfoldable pub add_to : Option (Subnet Network) → ℕ → ℕ → NetDb Network → Result (NetDb Network)
  add_to none interface ip db = ok db
  add_to (some subnet) interface ip db = add_ip lib interface ip subnet db

  -- `for ip in ips:` with the row added where a subnet contains the address, unless it is already there
  unfoldable pub add_ips :
      ℕ → List (Subnet Network) → List ℕ → List ℕ → NetDb Network → Result (NetDb Network)
  unfolding subnet_of listed_address add_to
  add_ips interface subnets current [] db = ok db
  add_ips interface subnets current (ip ∷ ips) db =
      (if listed_address ip current then ok db else add_to (subnet_of ip subnets) interface ip db)
      >>= λ db'. add_ips interface subnets current ips db'

  -- `ips`, or one free address
  unfoldable pub ips_or_free :
      Option (List ℕ) → List (Subnet Network) → NetDb Network → Result (List ℕ)
  ips_or_free (some ips) subnets db = ok ips
  ips_or_free none subnets db = do
    (ip, subnet) ← get_free_ip lib (used_in lib stale db) subnets
    ok (ip ∷ [])

  unfoldable pub interface_create :
      Host → String → String → Option (List ℕ) → ℕ → NetDb Network → Result (NetDb Network)
  unfolding ips_or_free add_ips validate_mac mac_taken
  interface_create host name mac ips processor db = do
    validate_mac text mac
    let id = db.next_id
    raise_if (mac_taken text mac id db.interfaces) integrity_error
    let db = record db {
      next_id = id + 1;
      interfaces =
          db.interfaces ++ (record { id = id; name = some name; mac = mac; host = host.id } ∷ []);
    }
    let subnets = get_subnets_for_room lib host.room db
    ips ← ips_or_free ips subnets db
    db ← add_ips id subnets [] ips db
    log_host_event (created_interface mac (addresses_of (ips_of id db.ips))) processor host.owner db

  -- `for ip in current_ips: if ip not in ips: delete_ip(session, ip)`
  unfoldable pub remove_ips : List ℕ → List ℕ → NetDb Network → NetDb Network
  unfolding delete_ip listed_address
  remove_ips ips [] db = db
  remove_ips ips (ip ∷ current) db =
      remove_ips ips current (if listed_address ip ips then db else delete_ip ip db)

  -- The room of an interface's host
  unfoldable pub room_of_host : ℕ → List Host → Option ℕ
  room_of_host h [] = none
  room_of_host h (g ∷ gs) = if g.id == h then g.room else room_of_host h gs

  -- `interface_edit`; the MAC address is checked only where it changes.
  unfoldable pub interface_edit :
      Interface → String → String → List ℕ → ℕ → NetDb Network → Result (NetDb Network)
  unfolding add_ips remove_ips validate_mac mac_taken save_interface find_owner room_of_host
  interface_edit interface name mac ips processor db = do
    if str_eq interface.mac mac
        then ok tt
        else (validate_mac text mac
            >> raise_if (mac_taken text mac interface.id db.interfaces) integrity_error)
    let current = addresses_of (ips_of interface.id db.ips)
    let subnets = get_subnets_for_room lib (room_of_host interface.host db.hosts) db
    let db = record db {
      interfaces = save_interface (record interface { name = some name; mac = mac }) db.interfaces;
    }
    db ← add_ips interface.id subnets current ips (remove_ips ips current db)
    log_host_event (edited_interface interface.mac) processor (find_owner interface.host db.hosts)
        db
