-- ===== src/Net/Migrate.antt =====
-- What `migrate_host` does to the addresses of a host, and to those of others.
use mathlib.Core.List.{append-nil}
use pycroft.Base.{
  AllOf, Among, Result, err, subnet_full, ℕ, ◌≡◌, refl, sym, ◌∙◌, ◌⊎◌, inl, inr, Bool, false, some,
  List, [], ◌∷◌, ◌++◌, ok, arith, subst,
}
use pycroft.Net.Addresses.{Netaddr, Subnet}
use pycroft.Net.Usable.{AllFull, NetaddrLaws}
use pycroft.Net.Store.{
  Host, Interface, Ip, moved_host, NetDb, ips_of, interfaces_of, save_host, log_host_event,
  get_subnets_for_room,
}
use pycroft.Net.Ops.{used_in, move_interfaces, migrate_host, same_subnets}
use pycroft.Net.Placed.{Valid, IsValid, room_all}
use pycroft.Net.MoveIps.{move_ips_outcome}
use pycroft.Net.Replaced.{
  Renewed, Renewed-same, Renewed-trans, owned, KeptBut, Others, Deletes, Deletes-trans,
  Deletes-more, KeptBut-Others, SameCount, IsIn, Stuck, Moves,
}

-- the rows of several interfaces
abbrev pub rows_of : List Interface → List Ip → List Ip
rows_of [] rows = []
rows_of (i ∷ is) rows = ips_of i.id rows ++ rows_of is rows

-- Interfaces have different ids.
abbrev pub Distinct : List Interface → Type 0
Distinct [] = Unit
Distinct (i ∷ is) = (owned i.id is ≡ false) × Distinct is

rows_same :
    (i : Interface) (is : List Interface) (rows rows' : List Ip)
    → KeptBut (i ∷ []) rows rows'
    → owned i.id is ≡ false
    → rows_of is rows' ≡ rows_of is rows
rows_same i [] rows rows' kept other = refl
rows_same i (j ∷ is) rows rows' kept other =
    rw (kept j.id (ground arith), rows_same i is rows rows' kept (ground arith)) refl

Among-left : {A : Type 0} (a : A) (xs ys : List A) → Among a xs → Among a (xs ++ ys)
Among-left a [] ys among = absurd among
Among-left a (x ∷ xs) ys (inl same) = inl same
Among-left a (x ∷ xs) ys (inr later) = inr (Among-left a xs ys later)

Among-right : {A : Type 0} (a : A) (xs ys : List A) → Among a ys → Among a (xs ++ ys)
Among-right a [] ys among = among
Among-right a (x ∷ xs) ys among = inr (Among-right a xs ys among)

-- A call fails when all addresses of the subnets are used by rows of the table, or by rows of the given
-- interfaces that have been deleted; only these interfaces have got other addresses until then, usable in
-- the subnets, and each as many as it had.
abbrev pub SubnetsFull :
    {Network IpSet : Type 0}
    → Netaddr Network IpSet
    → (ℕ → Bool)
    → List (Subnet Network)
    → List Interface
    → NetDb Network
    → Result (NetDb Network)
    → Type 0
SubnetsFull {Network} lib stale subnets is db call =
    (call ≡ err subnet_full)
    × (full : NetDb Network) × AllFull lib (used_in lib stale full) subnets
    × Valid lib db.subnets full.ips
    × Renewed lib subnets db.ips full.ips
    × Deletes (rows_of is db.ips) db full
    × Others is db.ips full.ips
    × SameCount db.ips full.ips

module _ {Network IpSet : Type 0} (lib : Netaddr Network IpSet) (laws : NetaddrLaws lib)
    (stale : ℕ → Bool) where
  module _ (all subnets : List (Subnet Network))
      (within : (P : Subnet Network → Type 0) → AllOf P all → AllOf P subnets) (processor : ℕ)
      (owner : ℕ) where
    move_interfaces_outcome :
        (is : List Interface) (db : NetDb Network)
        → Valid lib all db.ips
        → Distinct is
        → Stuck lib stale all subnets is
            (rows_of is db.ips)
            db
            (move_interfaces lib stale subnets processor (some owner) is db)
          ⊎ Moves lib all subnets is
              (rows_of is db.ips)
              db
              (move_interfaces lib stale subnets processor (some owner) is db)
    unfolding move_interfaces
    move_interfaces_outcome [] db v d = inr (
      db,
      refl,
      (refl, refl, refl),
      Renewed-same lib subnets db.ips,
      ([], refl, tt),
      v,
      (λ j other. refl),
      (λ j. refl),
      tt,
    )
    move_interfaces_outcome (i ∷ is) db v d =
        let own = ips_of i.id db.ips in
        let rest = rows_of is db.ips in
        let every = own ++ rest in
        elim (move_ips_outcome lib laws stale all subnets within processor owner i
          (ips_of i.id db.ips) [] db v (sym (append-nil (ips_of i.id db.ips))) tt) [
            | inl (failed, full, all_full, vf, fresh, gone, kept, same) ↦ inl (
              rw failed,
              full,
              all_full,
              vf,
              fresh,
              Deletes-more own every db full (λ r. Among-left r own rest) gone,
              (λ j other. kept j (ground arith)),
              same,
            )
            | inr (db1, moved, fixed, fresh, gone, v1, kept, same, good) ↦
                let rows : rows_of is db1.ips ≡ rest = rows_same i is db.ips db1.ips kept d.0 in
                let one : Deletes every db db1 =
                  Deletes-more own every db db1 (λ r. Among-left r own rest) gone in
                elim (move_interfaces_outcome is db1 v1 d.1) [
                  | inl (failed, full, all_full, vf, fresh2, gone2, kept2, same2) ↦ inl (
                    rw (moved, failed),
                    full,
                    all_full,
                    vf,
                    Renewed-trans lib subnets db.ips db1.ips full.ips fresh fresh2,
                    Deletes-trans every db db1 full one (
                        Deletes-more rest every db1 full (λ r. Among-right r own rest)
                          (subst (λ l. Deletes l db1 full) rows gone2)),
                    (λ j other. kept2 j (ground arith) ∙ kept j (ground arith)),
                    λ j. same2 j ∙ same j,
                  )
                  | inr (db2, moved2, fixed2, fresh2, gone2, v2, kept2, same2, good2) ↦ inr (
                    db2,
                    rw (moved, moved2),
                    (fixed2.0 ∙ fixed.0, fixed2.1 ∙ fixed.1, fixed2.2 ∙ fixed.2),
                    Renewed-trans lib subnets db.ips db1.ips db2.ips fresh fresh2,
                    Deletes-trans every db db1 db2 one (
                        Deletes-more rest every db1 db2 (λ r. Among-right r own rest)
                          (subst (λ l. Deletes l db1 db2) rows gone2)),
                    v2,
                    (λ j other. kept2 j (ground arith) ∙ kept j (ground arith)),
                    (λ j. same2 j ∙ same j),
                    (subst (AllOf (IsIn lib subnets)) (sym (kept2 i.id d.0)) good.0, good2),
                  )
                ]
          ]

  -- If a host with an owner moves to a room with other subnets than its own, then each of its addresses is
  -- replaced by one that is usable in a subnet of the new room, so that every interface has as many
  -- addresses as before and those of other hosts are what they were; or `SubnetFullException` is raised:
  -- then every usable address of the new room was in use at some point, by a row of the table or by a
  -- deleted row that the session still holds, when no addresses but those of this host had been replaced,
  -- by usable ones of the new room, and no rows but the host's own had been deleted. The addresses stay
  -- valid: unique, and each in a subnet of the table that contains it. The interfaces of the host have
  -- different ids.
  pub migrate_host_outcome :
      (host : Host) (owner old_room new_room processor : ℕ) (db : NetDb Network)
      → IsValid lib db
      → Distinct (interfaces_of host.id db.interfaces)
      → host.owner ≡ some owner
      → host.room ≡ some old_room
      → same_subnets
          (get_subnets_for_room lib (some old_room) db)
          (get_subnets_for_room lib (some new_room) db)
        ≡ false
      → SubnetsFull lib stale
          (get_subnets_for_room lib (some new_room) db)
          (interfaces_of host.id db.interfaces)
          db
          (migrate_host lib stale host new_room processor db)
        ⊎ ((db' : NetDb Network) × (migrate_host lib stale host new_room processor db ≡ ok db')
            × IsValid lib db'
            × (db'.hosts ≡ save_host (record host { room = some new_room }) db.hosts)
            × Others (interfaces_of host.id db.interfaces) db.ips db'.ips
            × SameCount db.ips db'.ips
            × AllOf
                (λ i.
                  AllOf
                    (IsIn lib (get_subnets_for_room lib (some new_room) db))
                    (ips_of i.id db'.ips))
                (interfaces_of host.id db.interfaces))
  unfolding migrate_host log_host_event get_subnets_for_room
  migrate_host_outcome host owner old_room new_room processor db v distinct owns lives differ =
      let placed = record db {
        hosts = save_host (record host { room = some new_room }) db.hosts;
      } in
      let subnets = get_subnets_for_room lib (some new_room) db in
      elim (move_interfaces_outcome db.subnets subnets (λ P p. room_all lib P (some new_room) db p)
        processor owner (interfaces_of host.id db.interfaces) placed v distinct) [
          | inl (failed, full, all_full, valid, fresh, gone, kept, same) ↦ inl (
            rw (lives, differ, rw (sym owns) at failed),
            full,
            all_full,
            valid,
            fresh,
            gone,
            KeptBut-Others _ _ _ kept,
            same,
          )
          | inr (db', moved, fixed, fresh, gone, v', kept, same, good) ↦ inr (
            record db' {
              log =
                  db'.log
                  ++ (record {
                    message = moved_host old_room new_room;
                    author = processor;
                    about = owner;
                  }
                      ∷ []);
            },
            rw (lives, differ, rw (sym owns) at moved, owns),
            rw (fixed.0) v',
            fixed.1,
            KeptBut-Others _ _ _ kept,
            same,
            good,
          )
        ]
