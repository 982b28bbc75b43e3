-- ===== src/Finance/Overdue.antt =====
-- `Account.in_default_days` of pycroft/model/finance.py.
use pycroft.Base.{ℕ, ◌+◌, ◌-◌, ◌==◌, ltb, if◌then◌else◌, Option, none, some, List, [], ◌∷◌, ◌++◌}
use pycroft.Base.Int.{ℤ, pos, ◌+ℤ◌, is_positive}
use pycroft.Finance.Model.{Split, Transaction, Books}

-- A split of the account with the date of its transaction
pub record Posting : Type 0 where
  pub amount : ℤ
  pub valid_on : ℕ

-- `Split.q.filter(Split.account_id == self.id).join(Transaction)`
unfoldable pub postings_of : ℕ → ℕ → List Split → List Posting
postings_of account valid_on [] = []
postings_of account valid_on (s ∷ ss) =
    let rest = postings_of account valid_on ss in
    if s.account == account then record { amount = s.amount; valid_on = valid_on } ∷ rest else rest

unfoldable pub postings : ℕ → List Transaction → List Posting
unfolding postings_of
postings account [] = []
postings account (t ∷ ts) = postings_of account t.valid_on t.splits ++ postings account ts

-- `.order_by(Transaction.valid_on)`; the order within one day is left open by the database.
unfoldable pub insert_posting : Posting → List Posting → List Posting
insert_posting p [] = p ∷ []
insert_posting p (q ∷ qs) =
    if ltb q.valid_on p.valid_on then q ∷ insert_posting p qs else p ∷ q ∷ qs

unfoldable pub by_valid_on : List Posting → List Posting
unfolding insert_posting
by_valid_on [] = []
by_valid_on (p ∷ ps) = insert_posting p (by_valid_on ps)

-- `if not first_overdue: first_overdue = split.transaction.valid_on`
unfoldable pub or_now : Option ℕ → ℕ → ℕ
or_now none valid_on = valid_on
or_now (some first_overdue) valid_on = first_overdue

-- the loop over the splits, with `split_sum` and `first_overdue`
unfoldable pub overdue_loop : ℤ → Option ℕ → List Posting → Option ℕ
unfolding is_positive or_now
overdue_loop split_sum first_overdue [] = first_overdue
overdue_loop split_sum first_overdue (p ∷ ps) =
    overdue_loop (split_sum +ℤ p.amount)
      (if is_positive (split_sum +ℤ p.amount) then some (or_now first_overdue p.valid_on) else none)
      ps

-- `fabs((first_overdue - datetime.date.today()).days)`
unfoldable pub days_apart : ℕ → ℕ → ℕ
days_apart a b = (a - b) + (b - a)

unfoldable pub days_since : Option ℕ → ℕ → ℕ
unfolding days_apart
days_since none today = 0
days_since (some first_overdue) today = days_apart first_overdue today

unfoldable pub in_default_days : ℕ → Books → ℕ
unfolding postings by_valid_on overdue_loop days_since
in_default_days account b =
    days_since (overdue_loop (pos 0) none (by_valid_on (postings account b.transactions))) b.today
