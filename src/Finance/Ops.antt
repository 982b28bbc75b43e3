-- ===== src/Finance/Ops.antt =====
-- The operations on transactions of pycroft/lib/finance/transaction_crud.py.
use pycroft.Base.{
  ℕ, ◌+◌, Bool, true, not, ◌&&◌, if◌then◌else◌, Option, none, some, List, [], ◌∷◌, ◌++◌, String,
  ◌==◌, ltb, Result, ok, value_error, raise_if, ◌>>=◌, ◌>>◌,
}
use pycroft.Base.Int.{ℤ, negate}
use pycroft.Finance.Model.{
  Split, Transaction, BookMessage, deleted_transaction, confirmed_transaction, Books,
  add_transaction, check_transaction_on_save,
}

abbrev pub date_or : ℕ → Option ℕ → ℕ
date_or today none = today
date_or today (some d) = d

abbrev pub new_transaction : String → ℕ → Option ℕ → Bool → List Split → Books → Transaction
new_transaction description author valid_on confirmed splits b = record {
  id = b.next_id;
  description = description;
  author = author;
  posted_at = b.now;
  valid_on = date_or b.today valid_on;
  confirmed = confirmed;
  splits = splits;
}

unfoldable pub simple_transaction : String → ℕ → ℕ → ℤ → ℕ → Option ℕ → Bool → Books → Result Books
unfolding add_transaction
simple_transaction description debit credit amount author valid_on confirmed b =
    add_transaction
      (new_transaction description author valid_on confirmed
        (record { amount = negate amount; account = debit }
          ∷ record { amount = amount; account = credit }
          ∷ [])
        b)
      b

unfoldable pub to_splits : List (ℕ × ℤ) → List Split
to_splits [] = []
to_splits ((account, amount) ∷ rest) =
    record { amount = amount; account = account } ∷ to_splits rest

unfoldable pub complex_transaction :
    String → ℕ → List (ℕ × ℤ) → Option ℕ → Bool → Books → Result Books
unfolding add_transaction to_splits
complex_transaction description author splits valid_on confirmed b =
    add_transaction (new_transaction description author valid_on confirmed (to_splits splits) b) b

unfoldable pub log_event : BookMessage → ℕ → Books → Books
log_event message author b = record b {
  log = b.log ++ (record { message = message; author = author } ∷ []);
}

-- the rows without the row of an id; the splits go with it
unfoldable pub delete_row : ℕ → List Transaction → List Transaction
delete_row i [] = []
delete_row i (t ∷ ts) = if t.id == i then delete_row i ts else t ∷ delete_row i ts

unfoldable pub transaction_delete : Transaction → ℕ → Books → Result Books
unfolding delete_row log_event
transaction_delete t processor b = do
  raise_if t.confirmed value_error
  ok (
      log_event (deleted_transaction t.id) processor
        (record b { transactions = delete_row t.id b.transactions }))

-- `transaction.confirmed = True`; the update is checked, and sets `posted_at` anew.
unfoldable pub confirm_row : ℕ → ℕ → List Transaction → List Transaction
confirm_row now i [] = []
confirm_row now i (t ∷ ts) =
    (if t.id == i then record t { confirmed = true; posted_at = now } else t) ∷ confirm_row now i ts

unfoldable pub transaction_confirm : Transaction → ℕ → Books → Result Books
unfolding confirm_row log_event check_transaction_on_save
transaction_confirm t processor b = do
  raise_if t.confirmed value_error
  check_transaction_on_save t.splits
  ok (
      log_event (confirmed_transaction t.id) processor
        (record b { transactions = confirm_row b.now t.id b.transactions }))

-- Not confirmed yet, and posted more than an hour ago.
unfoldable pub is_ripe : ℕ → Transaction → Bool
is_ripe now t = not t.confirmed && ltb (t.posted_at + 3600) now

unfoldable pub ripe_transactions : ℕ → List Transaction → List Transaction
unfolding is_ripe
ripe_transactions now [] = []
ripe_transactions now (t ∷ ts) =
    let rest = ripe_transactions now ts in if is_ripe now t then t ∷ rest else rest

unfoldable pub confirm_each : List Transaction → ℕ → Books → Result Books
unfolding transaction_confirm
confirm_each [] processor b = ok b
confirm_each (t ∷ ts) processor b =
    transaction_confirm t processor b >>= λ c. confirm_each ts processor c

unfoldable pub transaction_confirm_all : ℕ → Books → Result Books
unfolding ripe_transactions confirm_each
transaction_confirm_all processor b =
    confirm_each (ripe_transactions b.now b.transactions) processor b
