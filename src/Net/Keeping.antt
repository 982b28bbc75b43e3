-- ===== src/Net/Keeping.antt =====
-- The invariant of the addresses survives adding, moving and deleting them.
use pycroft.Base.{
  AllOf-map, AllOf-both, AllOf-self, AllOf, ℕ, ◌≡◌, refl, sym, subst, inl, inr, Bool, true, false,
  not, Option, none, some, List, [], ◌∷◌, Result, Error, ok, err, attribute_error, if◌then◌else◌,
  raise_if, >>=-returns, ok-injective, arith, Bool-cases,
}
use pycroft.Net.Addresses.{Netaddr, Subnet, listed_address, unused_ips, get_free_ip}
use pycroft.Net.Store.{
  Host, Interface, Ip, HostMessage, moved_host, NetDb, addresses_of, ips_of, interfaces_of,
  save_host, log_host_event, get_subnets_for_room, add_ip,
}
use pycroft.Net.Ops.{
  used_in, move_ip, move_ips, move_interfaces, migrate_host, same_subnets, setup_interfaces,
  setup_ipv4_networking,
}
use pycroft.Net.Placed.{Known, Fits, Valid, room_all, Valid-append, Valid-delete_row}

pub raise_if-returns : (c : Bool) (e : Error) {t : Unit {0}} → raise_if c e ≡ ok t → c ≡ false
raise_if-returns true e h = cc
raise_if-returns false e h = refl

module _ {Network IpSet : Type 0} (lib : Netaddr Network IpSet) (all : List (Subnet Network)) where
  -- The subnets are the given ones, and the addresses are valid.
  abbrev pub Inv : NetDb Network → Type 0
  Inv db = (db.subnets ≡ all) × Valid lib all db.ips

  pub Inv-log :
      (message : HostMessage) (author : ℕ) (user : Option ℕ) (db db' : NetDb Network)
      → Inv db
      → log_host_event message author user db ≡ ok db'
      → Inv db'
  unfolding log_host_event
  Inv-log message author none db db' v h = absurd (ground arith)
  Inv-log message author (some user) db db' v h = subst Inv (ok-injective h) v

  pub Inv-add_ip :
      (i a : ℕ) (s : Subnet Network) (db db' : NetDb Network)
      → Known lib all s
      → Inv db
      → add_ip lib i a s db ≡ ok db'
      → Inv db'
  unfolding add_ip
  Inv-add_ip i a s db db' apart v h =
      let (_, inside, h) = >>=-returns (raise_if (not (lib.contains s.address a)) _) _ h in
      let (_, new, h) = >>=-returns (raise_if (listed_address a (addresses_of db.ips)) _) _ h in
      let c : lib.contains s.address a ≡ true =
        ground (arith, raise_if-returns (not (lib.contains s.address a)) _ inside) in
      subst Inv (ok-injective h) (
        v.0,
        Valid-append lib all db.ips s (record { address = a; interface = i; subnet = s.id }) v.1
            apart c refl (raise_if-returns (listed_address a (addresses_of db.ips)) _ new),
      )

  -- The subnet that `get_free_ip` returns is one of those it was given.
  pub get_free_ip-AllOf :
      (P : Subnet Network → Type 0) (used : Subnet Network → List ℕ)
      (subnets : List (Subnet Network)) (found : ℕ × Subnet Network)
      → AllOf P subnets
      → get_free_ip lib used subnets ≡ ok found
      → P found.1
  unfolding get_free_ip
  get_free_ip-AllOf P used [] found p h = absurd (ground arith)
  get_free_ip-AllOf P used (s ∷ ss) found p h =
      let (unused, e, h) = >>=-returns (unused_ips lib (used s) s) _ h in
      elim unused
          as (λ l.
            elim l as (λ x. Result (ℕ × Subnet Network)) [
              | [] ↦ get_free_ip lib used ss
              | ip ∷ ips ↦ ok (ip, s)
            ]
              ≡ ok found
            → P found.1) [
              | [] ↦ λ k. get_free_ip-AllOf P used ss found p.1 k
              | ip ∷ ips ↦ λ k. subst (λ f. P f.1) (ok-injective k) p.0
            ]
        h

  -- The subnets of a room are among all of them, and apart from the others.
  pub room-Known :
      (room : Option ℕ) (db : NetDb Network)
      → Inv db
      → AllOf (Known lib all) (get_subnets_for_room lib room db)
  room-Known room db v = room_all lib (Known lib all) room db (
      subst (AllOf (Known lib all)) (sym v.0) (
        AllOf-both _ _ all (AllOf-self all)
          (AllOf-map (Fits lib all db.ips) _ all (λ s f. f.1) v.1.0)))

  module _ (stale : ℕ → Bool) where
    Inv-move_ip :
        (subnets : List (Subnet Network)) (processor : ℕ) (owner : Option ℕ) (i : Interface)
        (old : Ip) (db db' : NetDb Network)
        → AllOf (Known lib all) subnets
        → Inv db
        → move_ip lib stale subnets processor owner i old db ≡ ok db'
        → Inv db'
    unfolding move_ip
    Inv-move_ip subnets processor owner i old db db' apart v h =
        let (found, e, h) = >>=-returns (get_free_ip lib (used_in lib stale db) subnets) _ h in
        let (db1, a, h) = >>=-returns (add_ip lib i.id found.0 found.1 db) _ h in
        let v1 =
          Inv-add_ip i.id found.0 found.1 db db1
            (get_free_ip-AllOf (Known lib all) (used_in lib stale db) subnets found apart e) v a in
        Inv-log _ processor owner _ db'
          (v1.0, Valid-delete_row lib all db1.ips i.id old.address v1.1) h

    Inv-move_ips :
        (subnets : List (Subnet Network)) (processor : ℕ) (owner : Option ℕ) (i : Interface)
        (olds : List Ip) (db db' : NetDb Network)
        → AllOf (Known lib all) subnets
        → Inv db
        → move_ips lib stale subnets processor owner i olds db ≡ ok db'
        → Inv db'
    unfolding move_ips
    Inv-move_ips subnets processor owner i [] db db' apart v h = subst Inv (ok-injective h) v
    Inv-move_ips subnets processor owner i (old ∷ olds) db db' apart v h =
        let (db1, a, h) = >>=-returns (move_ip lib stale subnets processor owner i old db) _ h in
        Inv-move_ips subnets processor owner i olds db1 db' apart
          (Inv-move_ip subnets processor owner i old db db1 apart v a) h

    Inv-move_interfaces :
        (subnets : List (Subnet Network)) (processor : ℕ) (owner : Option ℕ) (is : List Interface)
        (db db' : NetDb Network)
        → AllOf (Known lib all) subnets
        → Inv db
        → move_interfaces lib stale subnets processor owner is db ≡ ok db'
        → Inv db'
    unfolding move_interfaces
    Inv-move_interfaces subnets processor owner [] db db' apart v h = subst Inv (ok-injective h) v
    Inv-move_interfaces subnets processor owner (i ∷ is) db db' apart v h =
        let (db1, a, h) =
          >>=-returns (move_ips lib stale subnets processor owner i (ips_of i.id db.ips) db) _ h in
        Inv-move_interfaces subnets processor owner is db1 db' apart
          (Inv-move_ips subnets processor owner i (ips_of i.id db.ips) db db1 apart v a) h

    Inv-shown :
        (room : Option ℕ) (message : ℕ → HostMessage) (author : ℕ) (user : Option ℕ)
        (db db' : NetDb Network)
        → Inv db
        → elim room as (λ r. Result (NetDb Network)) [
          | none ↦ err attribute_error
          | some r ↦ log_host_event (message r) author user db
        ]
          ≡ ok db'
        → Inv db'
    Inv-shown none message author user db db' v h = absurd (ground arith)
    Inv-shown (some r) message author user db db' v h = Inv-log (message r) author user db db' v h

    pub Inv-migrate_host :
        (host : Host) (new_room processor : ℕ) (db db' : NetDb Network)
        → Inv db
        → migrate_host lib stale host new_room processor db ≡ ok db'
        → Inv db'
    unfolding migrate_host
    Inv-migrate_host host new_room processor db db' v h =
        let placed = record db {
          hosts = save_host (record host { room = some new_room }) db.hosts;
        } in
        let subnets = get_subnets_for_room lib (some new_room) placed in
        let (db1, a, h) =
          >>=-returns
            (if not (same_subnets (get_subnets_for_room lib host.room placed) subnets)
              then move_interfaces lib stale subnets processor host.owner
                  (interfaces_of host.id db.interfaces) placed
              else ok placed)
            _ h in
        let v1 : Inv db1 =
          elim (Bool-cases (same_subnets (get_subnets_for_room lib host.room placed) subnets)) [
            | inl same ↦ subst Inv (ok-injective (rw same at a)) v
            | inr differ ↦
                Inv-move_interfaces subnets processor host.owner
                  (interfaces_of host.id db.interfaces) placed db1
                  (room-Known (some new_room) placed v) v (rw differ at a)
          ] in
        Inv-shown host.room (λ room. moved_host room new_room) processor host.owner db1 db' v1 h

    Inv-setup_interfaces :
        (subnets : List (Subnet Network)) (is : List Interface) (db db' : NetDb Network)
        → AllOf (Known lib all) subnets
        → Inv db
        → setup_interfaces lib stale subnets is db ≡ ok db'
        → Inv db'
    unfolding setup_interfaces
    Inv-setup_interfaces subnets [] db db' apart v h = subst Inv (ok-injective h) v
    Inv-setup_interfaces subnets (i ∷ is) db db' apart v h =
        let (found, e, h) = >>=-returns (get_free_ip lib (used_in lib stale db) subnets) _ h in
        let (db1, a, h) = >>=-returns (add_ip lib i.id found.0 found.1 db) _ h in
        Inv-setup_interfaces subnets is db1 db' apart
          (Inv-add_ip i.id found.0 found.1 db db1
            (get_free_ip-AllOf (Known lib all) (used_in lib stale db) subnets found apart e) v a)
          h

    pub Inv-setup_ipv4_networking :
        (host : Host) (db db' : NetDb Network)
        → Inv db
        → setup_ipv4_networking lib stale host db ≡ ok db'
        → Inv db'
    unfolding setup_ipv4_networking
    Inv-setup_ipv4_networking host db db' v h =
        Inv-setup_interfaces (get_subnets_for_room lib host.room db)
          (interfaces_of host.id db.interfaces) db db' (room-Known host.room db v) v h
