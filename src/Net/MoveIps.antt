-- ===== src/Net/MoveIps.antt =====
-- One interface of `migrate_host`: each of its addresses is replaced by a free one of the new room.
use pycroft.Base.{
  AllOf-append, AllOf-map, AllOf-Among, AllOf-self, AllOf, ℕ, ◌≡◌, refl, sym, ap, ◌∙◌, ◌⊎◌, inl,
  inr, Bool, false, ◌==◌, some, List, [], ◌∷◌, ◌++◌, ok, err, subnet_full, arith, Bool-cases,
  ==_iff, ==-refl, subst,
}
use mathlib.Core.List.{append_assoc}
use pycroft.Net.Addresses.{Netaddr, Subnet, listed_address}
use pycroft.Net.Usable.{AllFull, NetaddrLaws, get_free_ip_outcome}
use pycroft.Net.Store.{
  Interface, Ip, changed_ip, HostLogEntry, NetDb, addresses_of, ips_of, ips_in, delete_row,
  log_host_event, add_ip,
}
use pycroft.Net.Ops.{held, used_in, move_ip, move_ips}
use pycroft.Net.Rows.{
  AllOf-delete_row, ips_of-delete_first, ips_of-append_own, ips_of-append_other,
  ips_of-delete_other, listed-numbers, count, count-append,
}
use pycroft.Net.Placed.{
  Known, Fits, Valid, unused_anywhere, usable-contained, Valid-append, Valid-delete_row,
}
use pycroft.Net.Replaced.{
  KeptBut, SameCount, Deletes, Deletes-trans, Deletes-more, IsIn, Renewed, Renewed-same,
  Renewed-trans, Static, Stuck, Moves,
}

module _ {Network IpSet : Type 0} (lib : Netaddr Network IpSet) where
  module _ (laws : NetaddrLaws lib) (stale : ℕ → Bool) (all subnets : List (Subnet Network))
      (within : (P : Subnet Network → Type 0) → AllOf P all → AllOf P subnets) (processor : ℕ)
      (owner : ℕ) where
    move_ip_outcome :
        (i : Interface) (old : Ip) (rest : List Ip) (db : NetDb Network)
        → Valid lib all db.ips
        → ips_of i.id db.ips ≡ old ∷ rest
        → ((move_ip lib stale subnets processor (some owner) i old db ≡ err subnet_full)
            × AllFull lib (used_in lib stale db) subnets)
          ⊎ ((db' : NetDb Network) × (move_ip lib stale subnets processor (some owner) i old db
                ≡ ok db')
              × Static lib db db'
              × Renewed lib subnets db.ips db'.ips
              × (db'.deleted_ips ≡ old ∷ db.deleted_ips)
              × Valid lib all db'.ips
              × KeptBut (i ∷ []) db.ips db'.ips
              × ((r : Ip) × IsIn lib subnets r × (ips_of i.id db'.ips ≡ rest ++ (r ∷ []))))
    unfolding move_ip add_ip log_host_event used_in
    move_ip_outcome i old rest db v e =
        let fits = within (Fits lib all db.ips) v.0 in
        elim (get_free_ip_outcome lib laws (used_in lib stale db) subnets
          (AllOf-map _ _ subnets (λ s f. f.0) fits)) [
            | inr (none_free, full) ↦ inl (rw none_free, full)
            | inl (ip, s, found, (among, usable, free)) ↦
                let (sane, apart, placed) =
                  AllOf-Among (Fits lib all db.ips) s subnets among fits in
                let c = usable-contained lib laws s ip usable in
                let free_here : listed_address ip (addresses_of (ips_in s.id db.ips)) ≡ false =
                  ground (
                    arith,
                    free,
                    listed-numbers ip (addresses_of (ips_in s.id db.ips))
                        (held lib stale (addresses_of (ips_in s.id db.deleted_ips))),
                  ) in
                let new = unused_anywhere lib s ip db.ips placed c free_here in
                let r : Ip = record { address = ip; interface = i.id; subnet = s.id } in
                let entry : HostLogEntry = record {
                  message = changed_ip i.mac old.address ip;
                  author = processor;
                  about = owner;
                } in
                let known : Known lib all s =
                  (AllOf-Among _ s subnets among (within _ (AllOf-self all)), apart) in
                let v' = Valid-append lib all db.ips s r v known c refl new in
                inr (
                  record db {
                    ips = delete_row i.id old.address (db.ips ++ (r ∷ []));
                    deleted_ips = old ∷ db.deleted_ips;
                    log = db.log ++ (entry ∷ []);
                  },
                  rw (found, c, new),
                  (refl, refl, refl),
                  AllOf-delete_row _ i.id old.address (db.ips ++ (r ∷ [])) (
                      AllOf-append _ db.ips (r ∷ []) (Renewed-same lib subnets db.ips)
                        (inr (s, among, usable, refl), tt)),
                  refl,
                  Valid-delete_row lib all (db.ips ++ (r ∷ [])) i.id old.address v',
                  (λ j other.
                      ips_of-delete_other j i.id old.address (db.ips ++ (r ∷ [])) (ground arith)
                      ∙ ips_of-append_other j db.ips r (ground arith)),
                  (
                    r,
                    (s, among, usable, refl),
                    ips_of-delete_first i.id (db.ips ++ (r ∷ [])) old (rest ++ (r ∷ [])) v'.1 (
                        ips_of-append_own i.id db.ips r (==-refl i.id) ∙ ap (λ l. l ++ (r ∷ [])) e),
                  ),
                )
          ]

    -- The rounds for the addresses of one interface
    pub move_ips_outcome :
        (i : Interface) (olds news : List Ip) (db : NetDb Network)
        → Valid lib all db.ips
        → ips_of i.id db.ips ≡ olds ++ news
        → AllOf (IsIn lib subnets) news
        → Stuck lib stale all subnets
            (i ∷ [])
            olds
            db
            (move_ips lib stale subnets processor (some owner) i olds db)
          ⊎ Moves lib all subnets
              (i ∷ [])
              olds
              db
              (move_ips lib stale subnets processor (some owner) i olds db)
    unfolding move_ips
    move_ips_outcome i [] news db v e good = inr (
      db,
      refl,
      (refl, refl, refl),
      Renewed-same lib subnets db.ips,
      ([], refl, tt),
      v,
      (λ j other. refl),
      (λ j. refl),
      (subst (AllOf (IsIn lib subnets)) (sym e) good, tt),
    )
    move_ips_outcome i (old ∷ olds) news db v e good =
        elim (move_ip_outcome i old (olds ++ news) db v e) [
          | inl (failed, full) ↦ inl (
            rw failed,
            db,
            full,
            v,
            Renewed-same lib subnets db.ips,
            ([], refl, tt),
            (λ j other. refl),
            λ j. refl,
          )
          | inr (db1, moved, fixed, fresh, gone, v1, kept, (r, is_in, shape)) ↦
              let one : Deletes (old ∷ olds) db db1 = (old ∷ [], gone, (inl refl, tt)) in
              let same : SameCount db.ips db1.ips = λ j. elim (Bool-cases (i.id == j)) [
                | inr other ↦ ap count (kept j (ground arith))
                | inl own ↦
                    subst (λ k. count (ips_of k db1.ips) ≡ count (ips_of k db.ips))
                      ((==_iff i.id j).0 own)
                      (ap count shape ∙ count-append (olds ++ news) r ∙ sym (ap count e))
              ] in
              elim (move_ips_outcome i olds (news ++ (r ∷ [])) db1 v1
                (shape ∙ append_assoc olds news (r ∷ []))
                (AllOf-append (IsIn lib subnets) news (r ∷ []) good (is_in, tt))) [
                  | inl (failed, full, all_full, v2, fresh2, gone2, kept2, same2) ↦ inl (
                    rw (moved, failed),
                    full,
                    all_full,
                    v2,
                    Renewed-trans lib subnets db.ips db1.ips full.ips fresh fresh2,
                    Deletes-trans (old ∷ olds) db db1 full one
                        (Deletes-more olds (old ∷ olds) db1 full (λ q later. inr later) gone2),
                    (λ j other. kept2 j other ∙ kept j other),
                    λ j. same2 j ∙ same j,
                  )
                  | inr (db2, moved2, fixed2, fresh2, gone2, v2, kept2, same2, good2) ↦ inr (
                    db2,
                    rw (moved, moved2),
                    (fixed2.0 ∙ fixed.0, fixed2.1 ∙ fixed.1, fixed2.2 ∙ fixed.2),
                    Renewed-trans lib subnets db.ips db1.ips db2.ips fresh fresh2,
                    Deletes-trans (old ∷ olds) db db1 db2 one
                        (Deletes-more olds (old ∷ olds) db1 db2 (λ q later. inr later) gone2),
                    v2,
                    (λ j other. kept2 j other ∙ kept j other),
                    (λ j. same2 j ∙ same j),
                    good2,
                  )
                ]
        ]
