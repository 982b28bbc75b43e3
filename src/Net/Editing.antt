-- ===== src/Net/Editing.antt =====
-- Editing hosts and interfaces keeps the addresses valid.
use pycroft.Base.{
  AllOf, ℕ, ◌≡◌, refl, subst, inl, inr, Bool, true, false, if◌then◌else◌, Option, none, some, List,
  [], ◌∷◌, String, ok, >>=-returns, ok-injective, arith, Bool-cases,
}
use pycroft.Net.Addresses.{Netaddr, Subnet, listed_address}
use pycroft.Net.Store.{
  Host, transferred_to, transferred_from, changed_name, NetDb, save_host, log_host_event,
}
use pycroft.Net.Hosts.{MacText, delete_ip, same_text}
use pycroft.Net.Edit.{edit_name, subnet_of, add_to, add_ips, transfer, remove_ips}
use pycroft.Net.Placed.{Known}
use pycroft.Net.Keeping.{Inv, Inv-log, Inv-add_ip}
use pycroft.Net.Deleting.{Inv-delete_ip}

module _ {Network IpSet : Type 0} (lib : Netaddr Network IpSet) (stale : ℕ → Bool)
    (text : MacText) where
  module _ (all : List (Subnet Network)) where
    subnet_of-AllOf :
        (P : Subnet Network → Type 0) (ip : ℕ) (subnets : List (Subnet Network))
        (s : Subnet Network)
        → AllOf P subnets
        → subnet_of lib stale text ip subnets ≡ some s
        → P s
    unfolding subnet_of
    subnet_of-AllOf P ip [] s p h = absurd (ground arith)
    subnet_of-AllOf P ip (t ∷ ts) s p h = elim (Bool-cases (lib.contains t.address ip)) [
      | inl inside ↦ subst P (let e : t ≡ s = ground arith in e) p.0
      | inr outside ↦ subnet_of-AllOf P ip ts s p.1 (rw outside at h)
    ]

    Inv-add_to :
        (subnet : Option (Subnet Network)) (i ip : ℕ) (db db' : NetDb Network)
        → ((s : Subnet Network) → subnet ≡ some s → Known lib all s)
        → Inv lib all db
        → add_to lib stale text subnet i ip db ≡ ok db'
        → Inv lib all db'
    unfolding add_to
    Inv-add_to none i ip db db' apart v h = subst (Inv lib all) (ok-injective h) v
    Inv-add_to (some s) i ip db db' apart v h = Inv-add_ip lib all i ip s db db' (apart s refl) v h

    pub Inv-add_ips :
        (i : ℕ) (subnets : List (Subnet Network)) (current ips : List ℕ) (db db' : NetDb Network)
        → AllOf (Known lib all) subnets
        → Inv lib all db
        → add_ips lib stale text i subnets current ips db ≡ ok db'
        → Inv lib all db'
    unfolding add_ips
    Inv-add_ips i subnets current [] db db' apart v h = subst (Inv lib all) (ok-injective h) v
    Inv-add_ips i subnets current (ip ∷ ips) db db' apart v h =
        let (db1, a, h) =
          >>=-returns
            (if listed_address ip current
              then ok db
              else add_to lib stale text (subnet_of lib stale text ip subnets) i ip db)
            _ h in
        Inv-add_ips i subnets current ips db1 db' apart
          (elim (Bool-cases (listed_address ip current)) [
            | inl there ↦ subst (Inv lib all) (ok-injective (rw there at a)) v
            | inr new ↦
                Inv-add_to (subnet_of lib stale text ip subnets) i ip db db1
                  (λ s e. subnet_of-AllOf (Known lib all) ip subnets s apart e) v (rw new at a)
          ])
          h

    Inv-either :
        (c : Bool) (a b : NetDb Network)
        → Inv lib all a
        → Inv lib all b
        → Inv lib all (if c then a else b)
    Inv-either true a b v w = v
    Inv-either false a b v w = w

    pub Inv-remove_ips :
        (ips current : List ℕ) (db : NetDb Network)
        → Inv lib all db
        → Inv lib all (remove_ips lib stale text ips current db)
    unfolding remove_ips
    Inv-remove_ips ips [] db v = v
    Inv-remove_ips ips (ip ∷ current) db v =
        Inv-remove_ips ips current _ (
          Inv-either (listed_address ip ips) db (delete_ip ip db) v (Inv-delete_ip lib all ip db v))

    pub Inv-edit_name :
        (host : Host) (owner : ℕ) (name : String) (processor : ℕ) (db : NetDb Network)
        (done : Host × NetDb Network)
        → Inv lib all db
        → edit_name lib stale text host owner name processor db ≡ ok done
        → Inv lib all done.1
    unfolding edit_name
    Inv-edit_name host owner name processor db done v h =
        elim (Bool-cases (same_text host.name (some name))) [
          | inl same ↦ subst (λ d. Inv lib all d.1) (ok-injective (rw same at h)) v
          | inr new ↦
              let (db1, l, h) =
                >>=-returns
                  (log_host_event (changed_name host.name (some name)) processor (some owner)
                    (record db { hosts = save_host (record host { name = some name }) db.hosts }))
                  _ (rw new at h) in
              subst (λ d. Inv lib all d.1) (ok-injective h)
                (Inv-log lib all _ processor (some owner) _ db1 v l)
        ]

    pub Inv-transfer :
        (before : Option ℕ) (host : Host) (owner processor : ℕ) (db : NetDb Network)
        (done : Host × NetDb Network)
        → Inv lib all db
        → transfer lib stale text before host owner processor db ≡ ok done
        → Inv lib all done.1
    unfolding transfer
    Inv-transfer none host owner processor db done v h = absurd (ground arith)
    Inv-transfer (some before) host owner processor db done v h =
        let (db1, l, h) =
          >>=-returns (log_host_event (transferred_to (some owner)) processor (some before) db) _
            h in
        let (db2, m, h) =
          >>=-returns (log_host_event (transferred_from (some before)) processor (some owner) db1) _
            h in
        subst (λ d. Inv lib all d.1) (ok-injective h)
          (Inv-log lib all _ processor (some owner) db1 db2
            (Inv-log lib all _ processor (some before) db db1 v l) m)
