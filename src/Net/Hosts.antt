-- ===== src/Net/Hosts.antt =====
-- Hosts and their interfaces: the other operations of pycroft/lib/host.py, `delete_ip` of
-- pycroft/lib/net.py, and the check of MAC addresses of pycroft/model/host.py.
use pycroft.Base.{
  ℕ, ◌+◌, ◌%◌, Bool, true, false, not, ◌&&◌, ◌||◌, ◌==◌, if◌then◌else◌, Option, none, some, List,
  [], ◌∷◌, ◌++◌, String, str_eq, Result, ok, integrity_error, invalid_mac, multicast_flag, ◌>>=◌,
  ◌>>◌, raise_if,
}
use pycroft.Net.Store.{
  Host, Interface, Ip, HostMessage, changed_mac, created_host, deleted_host, deleted_interface,
  NetDb, ips_of, interfaces_of, log_host_event,
}

-- `mac_regex.match(mac)` succeeds, `int(mac[0:2], base=16)`, and whether two texts are one MAC address
-- to the database
pub record MacText : Type 0 where
  pub matches : String → Bool
  pub first_byte : String → ℕ
  pub same : String → String → Bool

-- `Interface.validate_mac`
unfoldable pub validate_mac : MacText → String → Result (Unit {0})
validate_mac text mac = do
  raise_if (not (text.matches mac)) invalid_mac
  raise_if (text.first_byte mac % 2 == 1) multicast_flag

-- Whether another interface has the MAC address, which is unique in the table.
unfoldable pub mac_taken : MacText → String → ℕ → List Interface → Bool
mac_taken text mac i [] = false
mac_taken text mac i (j ∷ js) = not (j.id == i) && text.same j.mac mac || mac_taken text mac i js

unfoldable pub save_interface : Interface → List Interface → List Interface
save_interface i [] = []
save_interface i (j ∷ js) = if j.id == i.id then i ∷ js else j ∷ save_interface i js

unfoldable pub without_interface : ℕ → List Interface → List Interface
without_interface i [] = []
without_interface i (j ∷ js) =
    let rest = without_interface i js in if j.id == i then rest else j ∷ rest

unfoldable pub without_host : ℕ → List Host → List Host
without_host h [] = []
without_host h (g ∷ gs) = let rest = without_host h gs in if g.id == h then rest else g ∷ rest

unfoldable pub find_owner : ℕ → List Host → Option ℕ
find_owner h [] = none
find_owner h (g ∷ gs) = if g.id == h then g.owner else find_owner h gs

-- the rows without those of an interface
unfoldable pub drop_ips_of : ℕ → List Ip → List Ip
drop_ips_of i [] = []
drop_ips_of i (r ∷ rs) = let rest = drop_ips_of i rs in if r.interface == i then rest else r ∷ rest

-- `session.delete(interface)`, with its addresses
unfoldable pub delete_interface : {Network : Type 0} → Interface → NetDb Network → NetDb Network
unfolding drop_ips_of without_interface ips_of
delete_interface i db = record db {
  interfaces = without_interface i.id db.interfaces;
  ips = drop_ips_of i.id db.ips;
  deleted_ips = ips_of i.id db.ips ++ db.deleted_ips;
}

unfoldable pub delete_interfaces :
    {Network : Type 0} → List Interface → NetDb Network → NetDb Network
unfolding delete_interface
delete_interfaces [] db = db
delete_interfaces (i ∷ is) db = delete_interfaces is (delete_interface i db)

-- `session.delete(host)`, with its interfaces and their addresses
unfoldable pub delete_host : {Network : Type 0} → Host → NetDb Network → NetDb Network
unfolding delete_interfaces without_host interfaces_of
delete_host host db =
    let rest = delete_interfaces (interfaces_of host.id db.interfaces) db in
    record rest { hosts = without_host host.id db.hosts }

-- `delete_ip`: the first row with the address
unfoldable pub drop_first : ℕ → List Ip → List Ip
drop_first address [] = []
drop_first address (r ∷ rs) = if r.address == address then rs else r ∷ drop_first address rs

unfoldable pub delete_ip : {Network : Type 0} → ℕ → NetDb Network → NetDb Network
unfolding drop_first
delete_ip address db = record db { ips = drop_first address db.ips }

-- `if interface.host.owner: log_user_event(...)`
unfoldable pub log_for_owner :
    {Network : Type 0} → HostMessage → ℕ → Option ℕ → NetDb Network → Result (NetDb Network)
log_for_owner message processor none db = ok db
log_for_owner message processor (some owner) db = log_host_event message processor (some owner) db

unfoldable pub change_mac :
    {Network : Type 0} → MacText → Interface → String → ℕ → NetDb Network → Result (NetDb Network)
unfolding validate_mac mac_taken save_interface find_owner log_for_owner
change_mac text interface mac processor db = do
  validate_mac text mac
  raise_if (mac_taken text mac interface.id db.interfaces) integrity_error
  log_for_owner (changed_mac interface.mac mac) processor (find_owner interface.host db.hosts)
      (record db { interfaces = save_interface (record interface { mac = mac }) db.interfaces })

unfoldable pub host_create :
    {Network : Type 0} → ℕ → ℕ → String → ℕ → NetDb Network → Result (NetDb Network)
host_create owner room name processor db =
    log_host_event (created_host (some name)) processor (some owner) (record db {
      next_id = db.next_id + 1;
      hosts =
          db.hosts
          ++ (record { id = db.next_id; name = some name; owner = some owner; room = some room }
              ∷ []);
    })

unfoldable pub host_delete : {Network : Type 0} → Host → ℕ → NetDb Network → Result (NetDb Network)
unfolding delete_host
host_delete host processor db = do
  db ← log_host_event (deleted_host host.name) processor host.owner db
  ok (delete_host host db)

unfoldable pub interface_delete :
    {Network : Type 0} → Interface → ℕ → NetDb Network → Result (NetDb Network)
unfolding delete_interface find_owner
interface_delete interface processor db = do
  db ←
      log_host_event (deleted_interface interface.mac) processor
        (find_owner interface.host db.hosts) db
  ok (delete_interface interface db)

-- `get_conflicting_interface`
unfoldable pub find_mac : MacText → String → List Interface → Option Interface
find_mac text mac [] = none
find_mac text mac (i ∷ is) = if text.same i.mac mac then some i else find_mac text mac is

unfoldable pub same_text : Option String → Option String → Bool
same_text none none = true
same_text (some a) (some b) = str_eq a b
same_text _ _ = false

unfoldable pub get_conflicting_interface :
    {Network : Type 0} → MacText → String → Option String → NetDb Network → Option Interface
unfolding find_mac same_text
get_conflicting_interface text new_mac current_mac db =
    if same_text (some new_mac) current_mac then none else find_mac text new_mac db.interfaces
