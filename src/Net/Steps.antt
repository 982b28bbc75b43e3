-- ===== src/Net/Steps.antt =====
-- All sequences of operations on hosts and interfaces.
use pycroft.Base.{
  ℕ, ◌+◌, ◌++◌, ◌≡◌, refl, sym, subst, inl, inr, Bool, if◌then◌else◌, Option, none, some, List, [],
  ◌∷◌, String, str_eq, ok, integrity_error, ◌>>◌, raise_if, >>=-returns, ok-injective, Bool-cases,
}
use pycroft.Net.Addresses.{Netaddr, Subnet}
use pycroft.Net.Store.{
  Host, Interface, HostMessage, changed_mac, deleted_host, deleted_interface, NetDb, addresses_of,
  ips_of, log_host_event, get_subnets_for_room,
}
use pycroft.Net.Ops.{same_room, migrate_host, setup_ipv4_networking}
use pycroft.Net.Hosts.{
  MacText, validate_mac, mac_taken, save_interface, find_owner, log_for_owner, change_mac,
  host_create, host_delete, interface_delete,
}
use pycroft.Net.Edit.{
  edit_name, edit_owner, host_edit, add_ips, ips_or_free, interface_create, remove_ips,
  room_of_host, interface_edit,
}
use pycroft.Net.Placed.{Valid, IsValid}
use pycroft.Net.Keeping.{Inv, Inv-log, room-Known, Inv-migrate_host, Inv-setup_ipv4_networking}
use pycroft.Net.Editing.{Inv-add_ips, Inv-remove_ips, Inv-edit_name, Inv-transfer}
use pycroft.Net.Deleting.{Inv-delete_interface, Inv-delete_host}

module _ {Network IpSet : Type 0} (lib : Netaddr Network IpSet) (stale : ℕ → Bool)
    (text : MacText) where
  -- An operation that returns
  pub data Step (db db' : NetDb Network) : Type 0 where
    changes_mac :
        (i : Interface) (mac : String) (processor : ℕ)
        → change_mac text i mac processor db ≡ ok db'
        → Step db db'
    creates_host :
        (owner room : ℕ) (name : String) (processor : ℕ)
        → host_create owner room name processor db ≡ ok db'
        → Step db db'
    edits_host :
        (host : Host) (owner room : ℕ) (name : String) (processor : ℕ)
        → host_edit lib stale text host owner room name processor db ≡ ok db'
        → Step db db'
    migrates_host :
        (host : Host) (room processor : ℕ)
        → migrate_host lib stale host room processor db ≡ ok db'
        → Step db db'
    deletes_host :
        (host : Host) (processor : ℕ) → host_delete host processor db ≡ ok db' → Step db db'
    creates_interface :
        (host : Host) (name mac : String) (ips : Option (List ℕ)) (processor : ℕ)
        → interface_create lib stale text host name mac ips processor db ≡ ok db'
        → Step db db'
    edits_interface :
        (i : Interface) (name mac : String) (ips : List ℕ) (processor : ℕ)
        → interface_edit lib stale text i name mac ips processor db ≡ ok db'
        → Step db db'
    deletes_interface :
        (i : Interface) (processor : ℕ) → interface_delete i processor db ≡ ok db' → Step db db'
    sets_up_networking :
        (host : Host) → setup_ipv4_networking lib stale host db ≡ ok db' → Step db db'

  -- Operations in turn
  pub data Steps : NetDb Network → NetDb Network → Type 0 where
    stay : {db : NetDb Network} → Steps db db
    step : {a b c : NetDb Network} → Step a b → Steps b c → Steps a c

  module _ (all : List (Subnet Network)) where
    Inv-log_for_owner :
        (user : Option ℕ) (message : HostMessage) (author : ℕ) (db db' : NetDb Network)
        → Inv lib all db
        → log_for_owner message author user db ≡ ok db'
        → Inv lib all db'
    unfolding log_for_owner
    Inv-log_for_owner none message author db db' v h = subst (Inv lib all) (ok-injective h) v
    Inv-log_for_owner (some user) message author db db' v h =
        Inv-log lib all message author (some user) db db' v h

    Inv-change_mac :
        (i : Interface) (mac : String) (processor : ℕ) (db db' : NetDb Network)
        → Inv lib all db
        → change_mac text i mac processor db ≡ ok db'
        → Inv lib all db'
    unfolding change_mac
    Inv-change_mac i mac processor db db' v h =
        let (_, _, h) = >>=-returns (validate_mac text mac) _ h in
        let (_, _, h) = >>=-returns (raise_if (mac_taken text mac i.id db.interfaces) _) _ h in
        Inv-log_for_owner (find_owner i.host db.hosts) (changed_mac i.mac mac) processor _ db' v h

    Inv-edit_owner :
        (host : Host) (owner processor : ℕ) (db : NetDb Network) (done : Host × NetDb Network)
        → Inv lib all db
        → edit_owner lib stale text host owner processor db ≡ ok done
        → Inv lib all done.1
    unfolding edit_owner
    Inv-edit_owner host owner processor db done v h =
        elim (Bool-cases (same_room host.owner (some owner))) [
          | inl same ↦ subst (λ d. Inv lib all d.1) (ok-injective (rw same at h)) v
          | inr other ↦
              Inv-transfer lib stale text all host.owner host owner processor db done v
                (rw other at h)
        ]

    Inv-host_edit :
        (host : Host) (owner room : ℕ) (name : String) (processor : ℕ) (db db' : NetDb Network)
        → Inv lib all db
        → host_edit lib stale text host owner room name processor db ≡ ok db'
        → Inv lib all db'
    unfolding host_edit
    Inv-host_edit host owner room name processor db db' v h =
        let (named, e, h) =
          >>=-returns (edit_name lib stale text host owner name processor db) _ h in
        let (owned, f, h) =
          >>=-returns (edit_owner lib stale text named.0 owner processor named.1) _ h in
        let v1 = Inv-edit_name lib stale text all host owner name processor db named v e in
        let v2 = Inv-edit_owner named.0 owner processor named.1 owned v1 f in
        elim (Bool-cases (same_room owned.0.room (some room))) [
          | inl same ↦ subst (Inv lib all) (ok-injective (rw same at h)) v2
          | inr other ↦
              Inv-migrate_host lib all stale owned.0 room processor owned.1 db' v2 (rw other at h)
        ]

    Inv-interface_create :
        (host : Host) (name mac : String) (ips : Option (List ℕ)) (processor : ℕ)
        (db db' : NetDb Network)
        → Inv lib all db
        → interface_create lib stale text host name mac ips processor db ≡ ok db'
        → Inv lib all db'
    unfolding interface_create
    Inv-interface_create host name mac ips processor db db' v h =
        let made = record db {
          next_id = db.next_id + 1;
          interfaces =
              db.interfaces
              ++ (record { id = db.next_id; name = some name; mac = mac; host = host.id } ∷ []);
        } in
        let subnets = get_subnets_for_room lib host.room made in
        let (_, _, h) = >>=-returns (validate_mac text mac) _ h in
        let (_, _, h) =
          >>=-returns (raise_if (mac_taken text mac db.next_id db.interfaces) _) _ h in
        let (chosen, _, h) = >>=-returns (ips_or_free lib stale text ips subnets made) _ h in
        let (db1, a, h) =
          >>=-returns (add_ips lib stale text db.next_id subnets [] chosen made) _ h in
        Inv-log lib all _ processor host.owner db1 db'
          (Inv-add_ips lib stale text all db.next_id subnets [] chosen made db1
            (room-Known lib all host.room made v) v a)
          h

    Inv-interface_edit :
        (i : Interface) (name mac : String) (ips : List ℕ) (processor : ℕ) (db db' : NetDb Network)
        → Inv lib all db
        → interface_edit lib stale text i name mac ips processor db ≡ ok db'
        → Inv lib all db'
    unfolding interface_edit
    Inv-interface_edit i name mac ips processor db db' v h =
        let named = record db {
          interfaces = save_interface (record i { name = some name; mac = mac }) db.interfaces;
        } in
        let current = addresses_of (ips_of i.id db.ips) in
        let room = room_of_host lib stale text i.host db.hosts in
        let subnets = get_subnets_for_room lib room db in
        let (_, _, h) =
          >>=-returns
            (if str_eq i.mac mac
              then ok tt
              else (validate_mac text mac
                  >> raise_if (mac_taken text mac i.id db.interfaces) integrity_error))
            _ h in
        let (db1, a, h) =
          >>=-returns
            (add_ips lib stale text i.id subnets current ips
              (remove_ips lib stale text ips current named))
            _ h in
        Inv-log lib all _ processor _ db1 db'
          (Inv-add_ips lib stale text all i.id subnets current ips
            (remove_ips lib stale text ips current named) db1 (room-Known lib all room db v)
            (Inv-remove_ips lib stale text all ips current named v) a)
          h

    Inv-Step : (db db' : NetDb Network) → Inv lib all db → Step db db' → Inv lib all db'
    unfolding host_create host_delete interface_delete
    Inv-Step db db' v (changes_mac i mac processor h) = Inv-change_mac i mac processor db db' v h
    Inv-Step db db' v (creates_host owner room name processor h) =
        Inv-log lib all _ processor (some owner) _ db' v h
    Inv-Step db db' v (edits_host host owner room name processor h) =
        Inv-host_edit host owner room name processor db db' v h
    Inv-Step db db' v (migrates_host host room processor h) =
        Inv-migrate_host lib all stale host room processor db db' v h
    Inv-Step db db' v (deletes_host host processor h) =
        let (db1, l, h) =
          >>=-returns (log_host_event (deleted_host host.name) processor host.owner db) _ h in
        subst (Inv lib all) (ok-injective h)
          (Inv-delete_host lib all host db1 (Inv-log lib all _ processor host.owner db db1 v l))
    Inv-Step db db' v (creates_interface host name mac ips processor h) =
        Inv-interface_create host name mac ips processor db db' v h
    Inv-Step db db' v (edits_interface i name mac ips processor h) =
        Inv-interface_edit i name mac ips processor db db' v h
    Inv-Step db db' v (deletes_interface i processor h) =
        let (db1, l, h) =
          >>=-returns
            (log_host_event (deleted_interface i.mac) processor (find_owner i.host db.hosts) db) _
            h in
        subst (Inv lib all) (ok-injective h)
          (Inv-delete_interface lib all i db1 (Inv-log lib all _ processor _ db db1 v l))
    Inv-Step db db' v (sets_up_networking host h) =
        Inv-setup_ipv4_networking lib all stale host db db' v h

    Inv-Steps : (db db' : NetDb Network) → Inv lib all db → Steps db db' → Inv lib all db'
    Inv-Steps db db' v stay = v
    Inv-Steps db db' v (step {b} s rest) = Inv-Steps b db' (Inv-Step db b v s) rest

  -- If at first the ranges of reserved addresses consist of addresses, the subnets share no address, and
  -- every address in use is unique and stands in a subnet of the table that contains it, then this holds after
  -- every sequence of operations on hosts, interfaces and their addresses that return.
  pub addresses_stay-IsValid :
      (db db' : NetDb Network) → IsValid lib db → Steps db db' → IsValid lib db'
  addresses_stay-IsValid db db' v steps =
      let (same, v') = Inv-Steps db.subnets db db' (refl, v) steps in
      subst (λ all. Valid lib all db'.ips) (sym same) v'
