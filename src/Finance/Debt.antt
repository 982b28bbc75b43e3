-- ===== src/Finance/Debt.antt =====
-- Since when an account is in default: `Account.in_default_days` against a definition without a running
-- state, and against the balance.
use mathlib.Core.List.{Perm}
use pycroft.Base.{
  AllOf, ◌+◌, ℕ, ◌≡◌, refl, sym, ap, ◌∙◌, Bool, true, false, ◌&&◌, if◌then◌else◌, Option, none,
  some, List, [], ◌∷◌, ◌++◌, ◌==◌, ltb, Bool-cases, inl, inr, ◌⊎◌, arith,
}
use pycroft.Base.Int.{ℤ, pos, ◌+ℤ◌, is_positive, +ℤ_assoc, +ℤ_zero, zero_+ℤ, +ℤ_left_comm}
use pycroft.Finance.Model.{Split, Transaction, Books, balance_in, balance}
use pycroft.Finance.History.{
  IsPosted, IsSorted, by_valid_on-perm, by_valid_on-IsSorted, by_valid_on-AllOf, postings-IsPosted,
  days_apart_lem,
}
use pycroft.Finance.Overdue.{
  Posting, postings_of, postings, insert_posting, by_valid_on, overdue_loop, days_since,
  in_default_days, or_now,
}

-- Whether something is owed after each of the postings
unfoldable pub always_owed : ℤ → List Posting → Bool
always_owed sum [] = true
always_owed sum (p ∷ ps) = is_positive (sum +ℤ p.amount) && always_owed (sum +ℤ p.amount) ps

-- The date of the first posting since which something has always been owed
unfoldable pub owed_since : ℤ → List Posting → Option ℕ
unfolding always_owed
owed_since sum [] = none
owed_since sum (p ∷ ps) =
    let later = owed_since (sum +ℤ p.amount) ps in
    if always_owed sum (p ∷ ps) then some p.valid_on else later

-- what the loop makes of a date that it has already found
abbrev resumed : Option ℕ → Bool → Option ℕ → Option ℕ
resumed none always later = later
resumed (some d) always later = if always then some d else later

resumed-or_now :
    (o : Option ℕ) (v : ℕ) (always : Bool) (later : Option ℕ)
    → resumed (some (or_now o v)) always later ≡ resumed o always (if always then some v else later)
unfolding or_now
resumed-or_now none v always later = refl
resumed-or_now (some d) v true later = refl
resumed-or_now (some d) v false later = refl

resumed_even : (o later : Option ℕ) → later ≡ resumed o false later
resumed_even none later = refl
resumed_even (some d) later = refl

loop-owed_since :
    (sum : ℤ) (found : Option ℕ) (ps : List Posting)
    → overdue_loop sum found ps ≡ resumed found (always_owed sum ps) (owed_since sum ps)
unfolding overdue_loop always_owed owed_since
loop-owed_since sum none [] = refl
loop-owed_since sum (some d) [] = refl
loop-owed_since sum found (p ∷ ps) =
    let next = sum +ℤ p.amount in
    elim (Bool-cases (is_positive next)) [
      | inl owed ↦ rw owed (
          loop-owed_since next (some (or_now found p.valid_on)) ps
          ∙ resumed-or_now found p.valid_on (always_owed next ps) (owed_since next ps))
      | inr even ↦ rw even (loop-owed_since next none ps ∙ resumed_even found (owed_since next ps))
    ]

amounts : List Posting → ℤ
amounts [] = pos 0
amounts (p ∷ ps) = p.amount +ℤ amounts ps

is_some : Option ℕ → Bool
is_some none = false
is_some (some d) = true

-- The loop has a date exactly where something is owed at the end.
is_some-overdue_loop :
    (sum : ℤ) (found : Option ℕ) (ps : List Posting)
    → is_some found ≡ is_positive sum
    → is_some (overdue_loop sum found ps) ≡ is_positive (sum +ℤ amounts ps)
unfolding overdue_loop is_some amounts
is_some-overdue_loop sum found [] h = h ∙ ap is_positive (sym (+ℤ_zero sum))
is_some-overdue_loop sum found (p ∷ ps) h =
    is_some-overdue_loop (sum +ℤ p.amount)
      (if is_positive (sum +ℤ p.amount) then some (or_now found p.valid_on) else none) ps
      (ground arith)
    ∙ ap is_positive (+ℤ_assoc sum p.amount (amounts ps))

amounts-insert_posting :
    (p : Posting) (ps : List Posting) → amounts (insert_posting p ps) ≡ p.amount +ℤ amounts ps
unfolding amounts insert_posting
amounts-insert_posting p [] = refl
amounts-insert_posting p (q ∷ qs) = elim (Bool-cases (ltb q.valid_on p.valid_on)) [
  | inl later ↦ rw later (
      ap (λ x. q.amount +ℤ x) (amounts-insert_posting p qs)
      ∙ +ℤ_left_comm q.amount p.amount (amounts qs))
  | inr first ↦ rw first refl
]

amounts-by_valid_on : (ps : List Posting) → amounts (by_valid_on ps) ≡ amounts ps
unfolding amounts by_valid_on
amounts-by_valid_on [] = refl
amounts-by_valid_on (p ∷ ps) =
    amounts-insert_posting p (by_valid_on ps) ∙ ap (λ x. p.amount +ℤ x) (amounts-by_valid_on ps)

amounts-append : (ps qs : List Posting) → amounts (ps ++ qs) ≡ amounts ps +ℤ amounts qs
unfolding amounts
amounts-append [] qs = sym (zero_+ℤ (amounts qs))
amounts-append (p ∷ ps) qs =
    ap (λ x. p.amount +ℤ x) (amounts-append ps qs)
    ∙ sym (+ℤ_assoc p.amount (amounts ps) (amounts qs))

amounts-postings_of :
    (account valid_on : ℕ) (ss : List Split)
    → amounts (postings_of account valid_on ss) ≡ balance_in account ss
unfolding amounts postings_of balance_in
amounts-postings_of account valid_on [] = refl
amounts-postings_of account valid_on (s ∷ ss) = elim (Bool-cases (s.account == account)) [
  | inl here ↦ rw here (ap (λ x. s.amount +ℤ x) (amounts-postings_of account valid_on ss))
  | inr other ↦ rw other (amounts-postings_of account valid_on ss)
]

amounts-postings :
    (account : ℕ) (ts : List Transaction) → amounts (postings account ts) ≡ balance account ts
unfolding amounts postings balance
amounts-postings account [] = refl
amounts-postings account (t ∷ ts) =
    rw
      (
        amounts-append (postings_of account t.valid_on t.splits) (postings account ts),
        amounts-postings_of account t.valid_on t.splits,
        amounts-postings account ts,
      )
      refl

-- There is an order of the postings of the account by date, each a split of the account with the date of
-- its transaction, so that the following holds. An account with
-- no positive balance is in default for 0 days. One with a positive balance is in default since the first
-- posting of this order after which something has always been owed: the days are those from its date until
-- today, or from today until its date.
pub in_default_days_outcome :
    (account : ℕ) (b : Books)
    → (ps : List Posting) × Perm ps (postings account b.transactions)
      × IsSorted ps
      × AllOf (IsPosted account b.transactions) ps
      × (((is_positive (balance account b.transactions) ≡ false) × (in_default_days account b ≡ 0))
          ⊎ ((d : ℕ) × (is_positive (balance account b.transactions) ≡ true)
              × (owed_since (pos 0) ps ≡ some d)
              × ((d + in_default_days account b ≡ b.today)
                  ⊎ (b.today + in_default_days account b ≡ d))))
unfolding in_default_days days_since is_some is_positive
in_default_days_outcome account b =
    (ps, by_valid_on-perm all, by_valid_on-IsSorted all, posted, go (owed_since (pos 0) ps) refl)
  where
    all : List Posting
    all = postings account b.transactions

    ps : List Posting
    ps = by_valid_on all

    posted : AllOf (IsPosted account b.transactions) ps
    posted =
        by_valid_on-AllOf (IsPosted account b.transactions) all
          (postings-IsPosted account b.transactions b.transactions (λ t here. here))

    found : overdue_loop (pos 0) none ps ≡ owed_since (pos 0) ps
    found = loop-owed_since (pos 0) none ps

    owes : is_some (owed_since (pos 0) ps) ≡ is_positive (balance account b.transactions)
    owes =
        ap is_some (sym found)
        ∙ is_some-overdue_loop (pos 0) none ps refl
        ∙ ap is_positive (
            zero_+ℤ (amounts ps)
            ∙ amounts-by_valid_on all
            ∙ amounts-postings account b.transactions)

    go :
        (o : Option ℕ)
        → owed_since (pos 0) ps ≡ o
        → ((is_positive (balance account b.transactions) ≡ false) × (in_default_days account b ≡ 0))
          ⊎ ((d : ℕ) × (is_positive (balance account b.transactions) ≡ true)
              × (owed_since (pos 0) ps ≡ some d)
              × ((d + in_default_days account b ≡ b.today)
                  ⊎ (b.today + in_default_days account b ≡ d)))
    go none e = inl (sym owes ∙ ap is_some e, rw (found, e) refl)
    go (some d) e = inr (d, sym owes ∙ ap is_some e, e, rw (found, e) (days_apart_lem d b.today))
