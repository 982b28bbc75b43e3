-- ===== src/Finance/Model.antt =====
-- `Transaction` and `Split` of pycroft/model/finance.py, and the checks when they are saved. Accounts
-- are known by their ids; amounts are cents, positive for credit.
use pycroft.Base.{
  ℕ, ◌+◌, Bool, true, false, not, ◌||◌, if◌then◌else◌, List, [], ◌∷◌, ◌++◌, String, ◌==◌, Result,
  ok, illegal_transaction, integrity_error, raise_if, ◌>>◌,
}
use pycroft.Base.Int.{ℤ, pos, ◌+ℤ◌, is_zero}

pub record Split : Type 0 where
  pub amount : ℤ
  pub account : ℕ

pub record Transaction : Type 0 where
  pub id : ℕ
  pub description : String
  pub author : ℕ
  pub posted_at : ℕ
  pub valid_on : ℕ
  pub confirmed : Bool
  pub splits : List Split

pub data BookMessage : Type 0 where
  deleted_transaction confirmed_transaction : ℕ → BookMessage

pub record BookLogEntry : Type 0 where
  pub message : BookMessage
  pub author : ℕ

-- The tables, the time in seconds and the date.
pub record Books : Type 0 where
  pub now : ℕ
  pub today : ℕ
  pub next_id : ℕ
  pub transactions : List Transaction
  pub log : List BookLogEntry

unfoldable pub sum_amounts : List Split → ℤ
sum_amounts [] = pos 0
sum_amounts (s ∷ ss) = s.amount +ℤ sum_amounts ss

-- `Transaction.is_balanced`
unfoldable pub is_balanced : List Split → Bool
unfolding sum_amounts
is_balanced splits = is_zero (sum_amounts splits)

unfoldable pub has_two : List Split → Bool
has_two [] = false
has_two (s ∷ []) = false
has_two (s ∷ (r ∷ rs)) = true

unfoldable pub refers_to : ℕ → List Split → Bool
refers_to a [] = false
refers_to a (s ∷ ss) = s.account == a || refers_to a ss

-- Whether the constraint that a transaction has one split for each account is violated.
unfoldable pub has_duplicate : List Split → Bool
unfolding refers_to
has_duplicate [] = false
has_duplicate (s ∷ ss) = refers_to s.account ss || has_duplicate ss

-- `check_transaction_on_save`, before the insertion
unfoldable pub check_transaction_on_save : List Split → Result (Unit {0})
unfolding is_balanced has_two
check_transaction_on_save splits = do
  raise_if (not (is_balanced splits)) illegal_transaction
  raise_if (not (has_two splits)) illegal_transaction

-- `session.add_all` and the flush at the end of the operation: the checks, then the insertion, which
-- the constraint on the table may refuse.
unfoldable pub add_transaction : Transaction → Books → Result Books
unfolding check_transaction_on_save has_duplicate
add_transaction t b = do
  check_transaction_on_save t.splits
  raise_if (has_duplicate t.splits) integrity_error
  ok (record b { next_id = b.next_id + 1; transactions = b.transactions ++ (t ∷ []) })

-- `Account._balance`: the sum of the account's splits.
unfoldable pub balance_in : ℕ → List Split → ℤ
balance_in a [] = pos 0
balance_in a (s ∷ ss) = if s.account == a then s.amount +ℤ balance_in a ss else balance_in a ss

unfoldable pub balance : ℕ → List Transaction → ℤ
unfolding balance_in
balance a [] = pos 0
balance a (t ∷ ts) = balance_in a t.splits +ℤ balance a ts
