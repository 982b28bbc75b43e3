-- ===== src/Finance/History.antt =====
-- The postings of an account in the order of `Account.in_default_days`.
use mathlib.Core.List.{Perm}
use mathlib.Core.List.Perm
use pycroft.Base.{
  AllOf, Among, AllOf-append, ==_iff, ◌==◌, ℕ, ◌+◌, ◌≡◌, refl, ◌⊎◌, inl, inr, Bool, true, List, [],
  ◌∷◌, leb, ltb, arith, Bool-cases,
}
use pycroft.Finance.Model.{Split, Transaction}
use pycroft.Finance.Overdue.{
  Posting, postings_of, postings, insert_posting, by_valid_on, days_apart,
}

-- No posting is valid on a later day than the next one.
abbrev pub before_all : ℕ → List Posting → Bool
before_all day [] = true
before_all day (p ∷ ps) = leb day p.valid_on

abbrev pub IsSorted : List Posting → Type 0
IsSorted [] = Unit
IsSorted (p ∷ ps) = (before_all p.valid_on ps ≡ true) × IsSorted ps

before_all-insert_posting :
    (day : ℕ) (p : Posting) (ps : List Posting)
    → before_all day ps ≡ true
    → leb day p.valid_on ≡ true
    → before_all day (insert_posting p ps) ≡ true
unfolding insert_posting
before_all-insert_posting day p [] b h = h
before_all-insert_posting day p (q ∷ qs) b h = elim (Bool-cases (ltb q.valid_on p.valid_on)) [
  | inl later ↦ rw later b
  | inr first ↦ rw first h
]

insert_posting-IsSorted :
    (p : Posting) (ps : List Posting) → IsSorted ps → IsSorted (insert_posting p ps)
unfolding insert_posting
insert_posting-IsSorted p [] s = (refl, tt)
insert_posting-IsSorted p (q ∷ qs) s = elim (Bool-cases (ltb q.valid_on p.valid_on)) [
  | inl later ↦ rw later (
    before_all-insert_posting q.valid_on p qs s.0 (ground arith),
    insert_posting-IsSorted p qs s.1,
  )
  | inr first ↦ rw first (ground arith, s)
]

pub by_valid_on-IsSorted : (ps : List Posting) → IsSorted (by_valid_on ps)
unfolding by_valid_on
by_valid_on-IsSorted [] = tt
by_valid_on-IsSorted (p ∷ ps) = insert_posting-IsSorted p (by_valid_on ps) (by_valid_on-IsSorted ps)

insert_posting-perm : (p : Posting) (ps : List Posting) → Perm (insert_posting p ps) (p ∷ ps)
unfolding insert_posting
insert_posting-perm p [] = Perm.refl (p ∷ [])
insert_posting-perm p (q ∷ qs) = elim (Bool-cases (ltb q.valid_on p.valid_on)) [
  | inl later ↦ rw later (Perm.trans (Perm.cons q (insert_posting-perm p qs)) (Perm.swap p q qs))
  | inr first ↦ rw first (Perm.refl (p ∷ q ∷ qs))
]

pub by_valid_on-perm : (ps : List Posting) → Perm (by_valid_on ps) ps
unfolding by_valid_on
by_valid_on-perm [] = Perm.refl []
by_valid_on-perm (p ∷ ps) =
    Perm.trans (insert_posting-perm p (by_valid_on ps)) (Perm.cons p (by_valid_on-perm ps))

-- A posting is a split of the account in a transaction of the table, with the date of this transaction.
abbrev pub IsPosted : ℕ → List Transaction → Posting → Type 0
IsPosted account ts p =
    (t : Transaction) × Among t ts
    × ((s : Split) × Among s t.splits × (s.account ≡ account) × (p.amount ≡ s.amount))
    × (p.valid_on ≡ t.valid_on)

postings_of-IsPosted :
    (account : ℕ) (t : Transaction) (ts : List Transaction) (ss : List Split)
    → Among t ts
    → ((s : Split) → Among s ss → Among s t.splits)
    → AllOf (IsPosted account ts) (postings_of account t.valid_on ss)
unfolding postings_of
postings_of-IsPosted account t ts [] among all = tt
postings_of-IsPosted account t ts (s ∷ ss) among all =
    let rest = postings_of-IsPosted account t ts ss among (λ r later. all r (inr later)) in
    elim (Bool-cases (s.account == account)) [
      | inl own ↦
          rw own
            ((t, among, (s, all s (inl refl), (==_iff s.account account).0 own, refl), refl), rest)
      | inr other ↦ rw other rest
    ]

pub postings-IsPosted :
    (account : ℕ) (all ts : List Transaction)
    → ((t : Transaction) → Among t ts → Among t all)
    → AllOf (IsPosted account all) (postings account ts)
unfolding postings
postings-IsPosted account all [] among = tt
postings-IsPosted account all (t ∷ ts) among =
    AllOf-append (IsPosted account all) (postings_of account t.valid_on t.splits)
      (postings account ts)
      (postings_of-IsPosted account t all t.splits (among t (inl refl)) (λ s here. here))
      (postings-IsPosted account all ts (λ r later. among r (inr later)))

insert_posting-AllOf :
    (P : Posting → Type 0) (p : Posting) (ps : List Posting)
    → P p
    → AllOf P ps
    → AllOf P (insert_posting p ps)
unfolding insert_posting
insert_posting-AllOf P p [] h a = (h, tt)
insert_posting-AllOf P p (q ∷ qs) h a = elim (Bool-cases (ltb q.valid_on p.valid_on)) [
  | inl later ↦ rw later (a.0, insert_posting-AllOf P p qs h a.1)
  | inr first ↦ rw first (h, a)
]

pub by_valid_on-AllOf :
    (P : Posting → Type 0) (ps : List Posting) → AllOf P ps → AllOf P (by_valid_on ps)
unfolding by_valid_on
by_valid_on-AllOf P [] a = tt
by_valid_on-AllOf P (p ∷ ps) a =
    insert_posting-AllOf P p (by_valid_on ps) a.0 (by_valid_on-AllOf P ps a.1)

-- The days between two dates lead from the earlier one to the later one.
pub days_apart_lem : (a b : ℕ) → (a + days_apart a b ≡ b) ⊎ (b + days_apart a b ≡ a)
unfolding days_apart
days_apart_lem a b = elim (Bool-cases (leb a b)) [
  | inl up ↦ inl (ground arith)
  | inr down ↦ inr (ground arith)
]
