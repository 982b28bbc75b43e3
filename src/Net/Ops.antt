-- ===== src/Net/Ops.antt =====
-- The operations of pycroft/lib/host.py. `stale` says which of the deleted addresses the session still
-- holds in a loaded collection `subnet.ips`: SQLAlchemy takes them out when it loads it again.
use pycroft.Base.{
  ℕ, Bool, true, false, not, ◌&&◌, ◌==◌, if◌then◌else◌, Option, none, some, List, [], ◌∷◌, ◌++◌,
  Result, ok, err, attribute_error, ◌>>=◌,
}
use pycroft.Net.Addresses.{Netaddr, Subnet, get_free_ip}
use pycroft.Net.Store.{
  Host, Interface, Ip, changed_ip, moved_host, NetDb, addresses_of, ips_of, delete_row, ips_in,
  interfaces_of, save_host, log_host_event, get_subnets_for_room, add_ip,
}

-- `==` on lists of subnets: rows are compared by their ids.
unfoldable pub same_subnets :
    {Network : Type 0} → List (Subnet Network) → List (Subnet Network) → Bool
same_subnets [] [] = true
same_subnets (s ∷ ss) (t ∷ ts) = s.id == t.id && same_subnets ss ts
same_subnets _ _ = false

unfoldable pub same_room : Option ℕ → Option ℕ → Bool
same_room none none = true
same_room (some a) (some b) = a == b
same_room _ _ = false

module _ {Network IpSet : Type 0} (lib : Netaddr Network IpSet) (stale : ℕ → Bool) where
  -- the deleted addresses that are still held
  unfoldable pub held : List ℕ → List ℕ
  held [] = []
  held (a ∷ rest) = let more = held rest in if stale a then a ∷ more else more

  -- `ip.address for ip in subnet.ips`
  unfoldable pub used_in : NetDb Network → Subnet Network → List ℕ
  unfolding held
  used_in db subnet =
      addresses_of (ips_in subnet.id db.ips)
      ++ held (addresses_of (ips_in subnet.id db.deleted_ips))

  -- One step of `migrate_host`: a new address in place of an old one
  unfoldable pub move_ip :
      List (Subnet Network) → ℕ → Option ℕ → Interface → Ip → NetDb Network → Result (NetDb Network)
  unfolding used_in
  move_ip subnets processor owner interface old_ip db = do
    (address, subnet) ← get_free_ip lib (used_in db) subnets
    db ← add_ip lib interface.id address subnet db
    let db = record db {
      ips = delete_row interface.id old_ip.address db.ips;
      deleted_ips = old_ip ∷ db.deleted_ips;
    }
    log_host_event (changed_ip interface.mac old_ip.address address) processor owner db

  unfoldable pub move_ips :
      List (Subnet Network)
      → ℕ
      → Option ℕ
      → Interface
      → List Ip
      → NetDb Network
      → Result (NetDb Network)
  unfolding move_ip
  move_ips subnets processor owner interface [] db = ok db
  move_ips subnets processor owner interface (old_ip ∷ old_ips) db =
      move_ip subnets processor owner interface old_ip db >>= λ db'.
      move_ips subnets processor owner interface old_ips db'

  unfoldable pub move_interfaces :
      List (Subnet Network) → ℕ → Option ℕ → List Interface → NetDb Network → Result (NetDb Network)
  unfolding move_ips
  move_interfaces subnets processor owner [] db = ok db
  move_interfaces subnets processor owner (i ∷ is) db =
      move_ips subnets processor owner i (ips_of i.id db.ips) db >>= λ db'.
      move_interfaces subnets processor owner is db'

  -- `migrate_host`; `old_room.short_name` of the log entry raises where the host has had no room.
  unfoldable pub migrate_host : Host → ℕ → ℕ → NetDb Network → Result (NetDb Network)
  unfolding move_interfaces
  migrate_host host new_room processor db = do
    let old_room = host.room
    let db = record db { hosts = save_host (record host { room = some new_room }) db.hosts }
    let subnets_old = get_subnets_for_room lib old_room db
    let subnets = get_subnets_for_room lib (some new_room) db
    db ←
        (if not (same_subnets subnets_old subnets)
          then move_interfaces subnets processor host.owner (interfaces_of host.id db.interfaces) db
          else ok db)
    elim old_room [
      | none ↦ err attribute_error
      | some room ↦ log_host_event (moved_host room new_room) processor host.owner db
    ]

  unfoldable pub setup_interfaces :
      List (Subnet Network) → List Interface → NetDb Network → Result (NetDb Network)
  unfolding used_in
  setup_interfaces subnets [] db = ok db
  setup_interfaces subnets (i ∷ is) db = get_free_ip lib (used_in db) subnets >>= λ free.
      add_ip lib i.id free.0 free.1 db >>= λ db'. setup_interfaces subnets is db'

  unfoldable pub setup_ipv4_networking : Host → NetDb Network → Result (NetDb Network)
  unfolding setup_interfaces
  setup_ipv4_networking host db =
      setup_interfaces (get_subnets_for_room lib host.room db) (interfaces_of host.id db.interfaces)
        db
