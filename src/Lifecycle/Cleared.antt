-- ===== src/Lifecycle/Cleared.antt =====
-- The hosts that `move_out` deletes, and those it leaves.
use pycroft.Base.{
  AllOf-map, AllOf-both, AllOf, ℕ, ◌≡◌, ◌⊎◌, refl, ◌∙◌, sym, ap, subst, ==-refl, Bool, true, false,
  not, ◌&&◌, ◌||◌, ◌==◌, if◌then◌else◌, Option, none, some, List, [], ◌∷◌, arith, Bool-cases, inl,
  inr,
}
use pycroft.Net.Addresses.{Netaddr, Subnet}
use pycroft.Net.Store.{Host, NetDb}
use pycroft.Net.Hosts.{delete_host, without_host}
use pycroft.Net.Keeping.{Inv}
use pycroft.Net.Deleting.{Inv-delete_host}
use pycroft.Lifecycle.Campus.{owned_by, hosts_of}
use pycroft.Lifecycle.MoveOut.{leaves, clear_host, clear_hosts}

unfoldable pub find_host : ℕ → List Host → Option Host
find_host i [] = none
find_host i (h ∷ hs) = if h.id == i then some h else find_host i hs

find_host-without :
    (i j : ℕ) (hs : List Host) → (i == j) ≡ false → find_host j (without_host i hs) ≡ find_host j hs
unfolding find_host without_host
find_host-without i j [] ne = refl
find_host-without i j (h ∷ hs) ne = ground (arith, find_host-without i j hs ne)

AllOf-without_host :
    (P : Host → Type 0) (i : ℕ) (hs : List Host) → AllOf P hs → AllOf P (without_host i hs)
unfolding without_host
AllOf-without_host P i [] p = tt
AllOf-without_host P i (h ∷ hs) p = elim (Bool-cases (h.id == i)) [
  | inl same ↦ rw same (AllOf-without_host P i hs p.1)
  | inr other ↦ rw other (p.0, AllOf-without_host P i hs p.1)
]

without_host-gone : (i : ℕ) (hs : List Host) → AllOf (λ h. (i == h.id) ≡ false) (without_host i hs)
unfolding without_host
without_host-gone i [] = tt
without_host-gone i (h ∷ hs) = elim (Bool-cases (h.id == i)) [
  | inl same ↦ rw same (without_host-gone i hs)
  | inr other ↦ rw other (ground arith, without_host-gone i hs)
]

AllOf-any : (hs : List Host) → AllOf (λ g. Unit) hs
AllOf-any [] = tt
AllOf-any (h ∷ hs) = (tt, AllOf-any hs)

module _ (switches : List ℕ) (room : Option ℕ) (end_membership : Bool) where
  -- A leaving host of a list has the id.
  abbrev pub leaving_id : ℕ → List Host → Bool
  leaving_id i [] = false
  leaving_id i (h ∷ hs) = (leaves switches room end_membership h && h.id == i) || leaving_id i hs

  -- Every host that a user owns and that leaves is among those the loop is given.
  hosts_of-leaving :
      (user : ℕ) (hs : List Host)
      → AllOf
          (λ g.
            (owned_by user g
              && (leaves switches room end_membership g
                  && not (leaving_id g.id (hosts_of user hs))))
            ≡ false)
          hs
  unfolding hosts_of
  hosts_of-leaving user [] = tt
  hosts_of-leaving user (h ∷ hs) = (
    ground (arith, ==-refl h.id),
    AllOf-map _ _ hs (λ g p. ground (arith, p)) (hosts_of-leaving user hs),
  )

  module _ {Network : Type 0} where
    clear_host-hosts :
        (h : Host) (net : NetDb Network)
        → (clear_host switches room end_membership h net).1.hosts ≡ (
            if leaves switches room end_membership h
            then without_host h.id net.hosts
            else net.hosts)
    unfolding clear_host delete_host
    clear_host-hosts h net = elim (Bool-cases (leaves switches room end_membership h)) [
      | inl goes ↦ rw goes
      | inr stays ↦ rw stays
    ]

    clear_hosts-AllOf :
        (P : Host → Type 0) (hs : List Host) (net : NetDb Network)
        → AllOf P net.hosts
        → AllOf P (clear_hosts switches room end_membership hs net).1.hosts
    unfolding clear_hosts
    clear_hosts-AllOf P [] net p = p
    clear_hosts-AllOf P (h ∷ hs) net p =
        clear_hosts-AllOf P hs (clear_host switches room end_membership h net).1 (
          subst (AllOf P) (sym (clear_host-hosts h net))
            (elim (Bool-cases (leaves switches room end_membership h)) [
              | inl goes ↦ rw goes (AllOf-without_host P h.id net.hosts p)
              | inr stays ↦ rw stays p
            ]))

    -- What is left has none of the leaving hosts' ids.
    clear_hosts-gone :
        (hs : List Host) (net : NetDb Network)
        → AllOf
            (λ g. leaving_id g.id hs ≡ false)
            (clear_hosts switches room end_membership hs net).1.hosts
    unfolding clear_hosts
    clear_hosts-gone [] net = AllOf-map (λ g. Unit) _ net.hosts (λ g u. refl) (AllOf-any net.hosts)
    clear_hosts-gone (h ∷ hs) net =
        let next = (clear_host switches room end_membership h net).1 in
        AllOf-map _ _ (clear_hosts switches room end_membership hs next).1.hosts
          (λ g p. ground (arith, p.0, p.1))
          (AllOf-both (λ g. (leaves switches room end_membership h && h.id == g.id) ≡ false) _
            (clear_hosts switches room end_membership hs next).1.hosts
            (clear_hosts-AllOf _ hs next (
              subst (AllOf (λ g. (leaves switches room end_membership h && h.id == g.id) ≡ false))
                (sym (clear_host-hosts h net))
                (elim (Bool-cases (leaves switches room end_membership h)) [
                  | inl goes ↦ rw goes (
                      AllOf-map _ _ (without_host h.id net.hosts) (λ g ne. ground (arith, ne))
                        (without_host-gone h.id net.hosts))
                  | inr stays ↦ rw stays (
                      AllOf-map (λ g. Unit) _ net.hosts (λ g u. ground arith) (AllOf-any net.hosts))
                ])))
            (clear_hosts-gone hs next))

    -- A host whose id no leaving host has is what it was.
    clear_hosts-find :
        (i : ℕ) (hs : List Host) (net : NetDb Network)
        → leaving_id i hs ≡ false
        → find_host i (clear_hosts switches room end_membership hs net).1.hosts
          ≡ find_host i net.hosts
    unfolding clear_hosts
    clear_hosts-find i [] net ne = refl
    clear_hosts-find i (h ∷ hs) net ne =
        clear_hosts-find i hs (clear_host switches room end_membership h net).1 (ground arith)
        ∙ ap (find_host i) (clear_host-hosts h net)
        ∙ elim (Bool-cases (leaves switches room end_membership h)) [
          | inl goes ↦ rw goes (find_host-without h.id i net.hosts (ground arith))
          | inr stays ↦ rw stays
        ]

    pub clear_hosts-kept :
        (i : ℕ) (hs : List Host) (net : NetDb Network)
        → (leaving_id i hs ≡ true)
          ⊎ (find_host i (clear_hosts switches room end_membership hs net).1.hosts
              ≡ find_host i net.hosts)
    clear_hosts-kept i hs net = elim (Bool-cases (leaving_id i hs)) [
      | inl goes ↦ inl goes
      | inr stays ↦ inr (clear_hosts-find i hs net stays)
    ]

    -- No host is left that the user owns and that leaves.
    pub clear_hosts-left :
        (user : ℕ) (net : NetDb Network)
        → AllOf
            (λ g. (owned_by user g && leaves switches room end_membership g) ≡ false)
            (clear_hosts switches room end_membership (hosts_of user net.hosts) net).1.hosts
    clear_hosts-left user net =
        AllOf-map _ _ _ (λ g p. ground (arith, p.0, p.1))
          (AllOf-both _ _
            (clear_hosts switches room end_membership (hosts_of user net.hosts) net).1.hosts
            (clear_hosts-AllOf _ (hosts_of user net.hosts) net (hosts_of-leaving user net.hosts))
            (clear_hosts-gone (hosts_of user net.hosts) net))

    pub clear_hosts-Inv :
        {IpSet : Type 0} (lib : Netaddr Network IpSet) (all : List (Subnet Network))
        (hs : List Host) (net : NetDb Network)
        → Inv lib all net
        → Inv lib all (clear_hosts switches room end_membership hs net).1
    unfolding clear_hosts clear_host
    clear_hosts-Inv lib all [] net v = v
    clear_hosts-Inv lib all (h ∷ hs) net v =
        clear_hosts-Inv lib all hs (clear_host switches room end_membership h net).1
          (elim (Bool-cases (leaves switches room end_membership h)) [
            | inl goes ↦ rw goes (Inv-delete_host lib all h net v)
            | inr stays ↦ rw stays v
          ])
