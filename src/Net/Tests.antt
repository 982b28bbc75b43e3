-- ===== src/Net/Tests.antt =====
-- Two rooms with a subnet each, and a host with one address in the first of them.
use pycroft.Base.{
  AllOf, str_eq, ℕ, ◌≡◌, refl, ◌⊎◌, inl, false, true, none, some, [], ◌∷◌, ok, err, subnet_full,
  arith,
}
use pycroft.Net.Addresses.{
  Subnet, or_zero, listed_address, usable_ip_range, get_free_ip, unused_ips, reserved_ipset,
  drop_used,
}
use pycroft.Net.Usable.{AllSane, AllFull, IsFree, usable_ip_range_exact, get_free_ip_outcome}
use pycroft.Net.Store.{
  Host, NetDb, changed_ip, moved_host, log_host_event, ips_of, interfaces_of, save_host,
  get_subnets_for_room, subnets_of_ports, subnets_of_vlans, subnets_of_vlan, vlans_of,
  connected_patch_ports, ips_in, delete_row, add_ip,
}
use pycroft.Net.Ops.{migrate_host, same_subnets, move_interfaces, move_ips, move_ip, used_in, held}
use pycroft.Net.Steps.{step, stay, migrates_host, addresses_stay-IsValid}
use pycroft.Net.Placed.{IsValid}
use pycroft.Net.Replaced.{Others, SameCount, IsIn}
use pycroft.Net.Migrate.{SubnetsFull, migrate_host_outcome}
use pycroft.Net.Example.{
  Block, blocks, blocks_laws, count_up, members, all_members, least, greatest, has_next, contiguous,
  range_of, make_range,
}

abbrev first_net : Subnet Block
first_net = record {
  id = 1;
  address = record { low = 10; high = 20 };
  reserved_addresses_bottom = some 0;
  reserved_addresses_top = none;
  vlan = 1;
}

abbrev second_net : Subnet Block
second_net = record {
  id = 2;
  address = record { low = 30; high = 40 };
  reserved_addresses_bottom = some 2;
  reserved_addresses_top = some 1;
  vlan = 2;
}

abbrev laptop : Host
laptop = record { id = 5; name = some "laptop"; owner = some 3; room = some 1 }

abbrev campus : NetDb Block
campus = record {
  next_id = 10;
  subnets = first_net ∷ second_net ∷ [];
  patch_ports =
      record { switch_port = some 1; room = 1 } ∷ record { switch_port = some 2; room = 2 } ∷ [];
  default_vlans = (1, 1) ∷ (2, 2) ∷ [];
  hosts = laptop ∷ [];
  interfaces = record { id = 7; name = none; mac = "00:11:22:33:44:55"; host = 5 } ∷ [];
  ips = record { address = 12; interface = 7; subnet = 1 } ∷ [];
  deleted_ips = [];
  log = [];
}

nets-AllSane : AllSane blocks campus.subnets
unfolding or_zero
nets-AllSane =
    ((ground arith, ground arith, ground arith), ((ground arith, ground arith, ground arith), tt))

campus-IsValid : IsValid blocks campus
unfolding or_zero listed_address
campus-IsValid = (
  (
    (nets-AllSane.0, (λ x. (ground arith, (ground arith, tt))), (refl, tt)),
    ((nets-AllSane.1.0, (λ x. (ground arith, (ground arith, tt))), (refl, tt)), tt),
  ),
  (refl, tt),
  ((first_net, inl refl, refl, refl), tt),
)

usable_ip_range_exact_example :
    usable_ip_range blocks second_net ≡ ok (some (record { start = 34; end = 37 }))
unfolding or_zero
usable_ip_range_exact_example = usable_ip_range_exact blocks blocks_laws second_net nets-AllSane.1.0

get_free_ip_outcome_example :
    ((ip : ℕ) × (s : Subnet Block) × (get_free_ip blocks (λ s. 12 ∷ []) campus.subnets ≡ ok (ip, s))
      × IsFree blocks (λ s. 12 ∷ []) campus.subnets ip s)
    ⊎ ((get_free_ip blocks (λ s. 12 ∷ []) campus.subnets ≡ err subnet_full)
        × AllFull blocks (λ s. 12 ∷ []) campus.subnets)
get_free_ip_outcome_example =
    get_free_ip_outcome blocks blocks_laws (λ s. 12 ∷ []) campus.subnets nets-AllSane

rooms_differ :
    same_subnets
      (get_subnets_for_room blocks (some 1) campus)
      (get_subnets_for_room blocks (some 2) campus)
    ≡ false
unfolding same_subnets get_subnets_for_room subnets_of_ports subnets_of_vlans subnets_of_vlan
    vlans_of connected_patch_ports
rooms_differ = refl

migrate_host_outcome_example :
    SubnetsFull blocks
      (λ a. true)
      (get_subnets_for_room blocks (some 2) campus)
      (interfaces_of 5 campus.interfaces)
      campus
      (migrate_host blocks (λ a. true) laptop 2 3 campus)
    ⊎ ((db' : NetDb Block) × (migrate_host blocks (λ a. true) laptop 2 3 campus ≡ ok db')
        × IsValid blocks db'
        × (db'.hosts ≡ save_host (record laptop { room = some 2 }) campus.hosts)
        × Others (interfaces_of 5 campus.interfaces) campus.ips db'.ips
        × SameCount campus.ips db'.ips
        × AllOf
            (λ i.
              AllOf
                (IsIn blocks (get_subnets_for_room blocks (some 2) campus))
                (ips_of i.id db'.ips))
            (interfaces_of 5 campus.interfaces))
unfolding interfaces_of
migrate_host_outcome_example =
    migrate_host_outcome blocks blocks_laws (λ a. true) laptop 3 1 2 3 campus campus-IsValid
      (refl, tt) refl refl rooms_differ

-- The laptop has got the first free address of the second room.
abbrev moved_laptop : NetDb Block
moved_laptop = record campus {
  hosts = record laptop { room = some 2 } ∷ [];
  ips = record { address = 34; interface = 7; subnet = 2 } ∷ [];
  deleted_ips = campus.ips;
  log =
      record { message = changed_ip "00:11:22:33:44:55" 12 34; author = 3; about = 3 }
      ∷ record { message = moved_host 1 2; author = 3; about = 3 }
      ∷ [];
}

laptop_moves : migrate_host blocks (λ a. true) laptop 2 3 campus ≡ ok moved_laptop
unfolding migrate_host move_interfaces move_ips move_ip used_in held same_subnets get_free_ip
    unused_ips usable_ip_range reserved_ipset or_zero drop_used listed_address ips_of ips_in
    delete_row interfaces_of save_host vlans_of connected_patch_ports log_host_event subnets_of_vlan
    subnets_of_vlans subnets_of_ports get_subnets_for_room add_ip count_up members all_members least
    greatest has_next contiguous range_of make_range
laptop_moves = refl

addresses_stay-IsValid_example : IsValid blocks moved_laptop
addresses_stay-IsValid_example =
    addresses_stay-IsValid blocks (λ a. true)
      (record { matches = λ m. true; first_byte = λ m. 0; same = str_eq }) campus moved_laptop
      campus-IsValid (step (migrates_host laptop 2 3 laptop_moves) stay)
