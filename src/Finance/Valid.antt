-- ===== src/Finance/Valid.antt =====
-- Every sequence of operations leaves the books balanced.
use pycroft.Base.{
  ℕ, ◌+◌, ◌≡◌, refl, ap, ◌∙◌, subst, Bool, true, false, if◌then◌else◌, Option, List, [], ◌∷◌,
  String, ◌==◌, Result, ok, value_error, raise_if, ◌>>◌, >>=-returns, ok-injective, arith,
}
use pycroft.Base.Int.{ℤ, pos, ◌+ℤ◌}
use pycroft.Finance.Model.{
  check_transaction_on_save, Split, Transaction, Books, balance_in, balance, confirmed_transaction,
}
use pycroft.Finance.Ops.{
  new_transaction, simple_transaction, to_splits, complex_transaction, delete_row,
  transaction_delete, confirm_row, transaction_confirm, is_ripe, ripe_transactions, confirm_each,
  transaction_confirm_all, log_event,
}
use pycroft.Finance.Balance.{
  IsSound, AllSound, IsValid, total, valid_total, AllSound-append, add_transaction-IsSound,
  add_transaction-IsValid, added, balance-added, two_splits,
}

-- What a list of splits credits to an account.
unfoldable pub credited : ℕ → List (ℕ × ℤ) → ℤ
credited a [] = pos 0
credited a ((account, amount) ∷ rest) =
    if account == a then amount +ℤ credited a rest else credited a rest

balance_in-to_splits :
    (a : ℕ) (splits : List (ℕ × ℤ)) → balance_in a (to_splits splits) ≡ credited a splits
unfolding balance_in to_splits credited
balance_in-to_splits a [] = refl
balance_in-to_splits a ((account, amount) ∷ rest) = rw (balance_in-to_splits a rest) refl

-- On splits that are balanced, at least two, and on different accounts, `complex_transaction` never
-- raises; the books stay valid, and the balance of each account changes by what the splits
-- credit to it.
pub complex_transaction_effect :
    (description : String) (author : ℕ) (splits : List (ℕ × ℤ)) (valid_on : Option ℕ)
    (confirmed : Bool) (b : Books)
    → IsValid b
    → IsSound (to_splits splits)
    → (c : Books) × (complex_transaction description author splits valid_on confirmed b ≡ ok c)
      × IsValid c
      × ((a : ℕ) → balance a c.transactions ≡ balance a b.transactions +ℤ credited a splits)
unfolding complex_transaction
complex_transaction_effect description author splits valid_on confirmed b v p =
    let t = new_transaction description author valid_on confirmed (to_splits splits) b in
    (
      added t b,
      (add_transaction-IsSound t b b).0 p,
      AllSound-append b.transactions t v p,
      λ a.
          balance-added a b.transactions t
          ∙ ap (λ x. balance a b.transactions +ℤ x) (balance_in-to_splits a splits),
    )

-- `complex_transaction` succeeds only on splits that are balanced, at least two, and on different
-- accounts.
pub complex_transaction_refuses :
    (description : String) (author : ℕ) (splits : List (ℕ × ℤ)) (valid_on : Option ℕ)
    (confirmed : Bool) (b c : Books)
    → complex_transaction description author splits valid_on confirmed b ≡ ok c
    → IsSound (to_splits splits)
unfolding complex_transaction
complex_transaction_refuses description author splits valid_on confirmed b c h =
    ((add_transaction-IsSound
        (new_transaction description author valid_on confirmed (to_splits splits) b) b c).1
      h).0

delete_row-AllSound : (i : ℕ) (ts : List Transaction) → AllSound ts → AllSound (delete_row i ts)
unfolding delete_row
delete_row-AllSound i [] h = tt
delete_row-AllSound i (t ∷ ts) h = go (t.id == i) (delete_row-AllSound i ts h.1)
  where
    go :
        (d : Bool)
        → AllSound (delete_row i ts)
        → AllSound (if d then delete_row i ts else t ∷ delete_row i ts)
    go true rest = rest
    go false rest = (h.0, rest)

confirm_row-AllSound :
    (now i : ℕ) (ts : List Transaction) → AllSound ts → AllSound (confirm_row now i ts)
unfolding confirm_row
confirm_row-AllSound now i [] h = tt
confirm_row-AllSound now i (t ∷ ts) h = (go (t.id == i), confirm_row-AllSound now i ts h.1)
  where
    go :
        (d : Bool)
        → IsSound (if d then record t { confirmed = true; posted_at = now } else t).splits
    go true = h.0
    go false = h.0

past_guard :
    (d : Bool) {m : Result Books} {c : Books} → (raise_if d value_error >> m) ≡ ok c → m ≡ ok c
past_guard true h = absurd (ground arith)
past_guard false h = h

delete-IsValid :
    (t : Transaction) (processor : ℕ) (b c : Books)
    → transaction_delete t processor b ≡ ok c
    → IsValid b
    → IsValid c
unfolding transaction_delete log_event
delete-IsValid t processor b c h v =
    subst (λ d. IsValid d) (ok-injective (past_guard t.confirmed h))
      (delete_row-AllSound t.id b.transactions v)

confirm-IsValid :
    (t : Transaction) (processor : ℕ) (b c : Books)
    → transaction_confirm t processor b ≡ ok c
    → IsValid b
    → IsValid c
unfolding transaction_confirm log_event
confirm-IsValid t processor b c h v =
    let (_, _, k) = >>=-returns (check_transaction_on_save t.splits) _ (past_guard t.confirmed h) in
    subst (λ d. IsValid d) (ok-injective k) (confirm_row-AllSound b.now t.id b.transactions v)

confirm_each-IsValid :
    (ts : List Transaction) (processor : ℕ) (b c : Books)
    → confirm_each ts processor b ≡ ok c
    → IsValid b
    → IsValid c
unfolding confirm_each
confirm_each-IsValid [] processor b c h v = subst (λ d. IsValid d) (ok-injective h) v
confirm_each-IsValid (t ∷ ts) processor b c h v =
    let (d, e, k) = >>=-returns (transaction_confirm t processor b) _ h in
    confirm_each-IsValid ts processor d c k (confirm-IsValid t processor b d e v)

-- One operation on the books, or the passing of time.
pub data Step : Books → Books → Type 0 where
  posts :
      {b c : Books} (description : String) (debit credit : ℕ) (amount : ℤ) (author : ℕ)
      (valid_on : Option ℕ) (confirmed : Bool)
      → simple_transaction description debit credit amount author valid_on confirmed b ≡ ok c
      → Step b c
  posts_splits :
      {b c : Books} (description : String) (author : ℕ) (splits : List (ℕ × ℤ))
      (valid_on : Option ℕ) (confirmed : Bool)
      → complex_transaction description author splits valid_on confirmed b ≡ ok c
      → Step b c
  deletes :
      {b c : Books} (t : Transaction) (processor : ℕ)
      → transaction_delete t processor b ≡ ok c
      → Step b c
  confirms :
      {b c : Books} (t : Transaction) (processor : ℕ)
      → transaction_confirm t processor b ≡ ok c
      → Step b c
  confirms_all :
      {b c : Books} (processor : ℕ) → transaction_confirm_all processor b ≡ ok c → Step b c
  waits :
      {b : Books} (seconds days : ℕ)
      → Step b (record b { now = b.now + seconds; today = b.today + days })

pub data Steps : Books → Books → Type 0 where
  stop : {b : Books} → Steps b b
  step : {b c d : Books} → Step b c → Steps c d → Steps b d

Step-IsValid : {b c : Books} → Step b c → IsValid b → IsValid c
unfolding simple_transaction complex_transaction transaction_confirm_all
Step-IsValid (posts {b} {c} description debit credit amount author valid_on confirmed h) v =
    add_transaction-IsValid
      (new_transaction description author valid_on confirmed (two_splits debit credit amount) b) b c
      h v
Step-IsValid (posts_splits {b} {c} description author splits valid_on confirmed h) v =
    add_transaction-IsValid
      (new_transaction description author valid_on confirmed (to_splits splits) b) b c h v
Step-IsValid (deletes {b} {c} t processor h) v = delete-IsValid t processor b c h v
Step-IsValid (confirms {b} {c} t processor h) v = confirm-IsValid t processor b c h v
Step-IsValid (confirms_all {b} {c} processor h) v =
    confirm_each-IsValid (ripe_transactions b.now b.transactions) processor b c h v
Step-IsValid (waits seconds days) v = v

-- Through every sequence of operations valid books stay valid, each transaction balanced with two or
-- more splits on different accounts, and the splits of all transactions sum to zero: whatever is
-- credited is debited.
pub books_balance :
    {b c : Books} → Steps b c → IsValid b → IsValid c × (total c.transactions ≡ pos 0)
books_balance (stop {b}) v = (v, valid_total b v)
books_balance (step one more) v = books_balance more (Step-IsValid one v)

-- Transactions that can be confirmed
AllReady : List Transaction → Type 0
AllReady [] = Unit
AllReady (t ∷ ts) =
    ((t.confirmed ≡ false) × (check_transaction_on_save t.splits ≡ ok tt)) × AllReady ts

sound_passes : (splits : List Split) → IsSound splits → check_transaction_on_save splits ≡ ok tt
unfolding check_transaction_on_save
sound_passes splits p = rw (p.0, p.1) refl

ripe-AllReady :
    (now : ℕ) (ts : List Transaction) → AllSound ts → AllReady (ripe_transactions now ts)
unfolding ripe_transactions AllReady is_ripe
ripe-AllReady now [] v = tt
ripe-AllReady now (t ∷ ts) v = go (is_ripe now t) refl (ripe-AllReady now ts v.1)
  where
    go :
        (d : Bool)
        → is_ripe now t ≡ d
        → AllReady (ripe_transactions now ts)
        → AllReady (if d then t ∷ ripe_transactions now ts else ripe_transactions now ts)
    go true e rest = ((ground arith, sound_passes t.splits v.0), rest)
    go false e rest = rest

confirm_each_total :
    (ts : List Transaction) (processor : ℕ) (b : Books)
    → AllReady ts
    → (c : Books) × (confirm_each ts processor b ≡ ok c)
unfolding confirm_each transaction_confirm AllReady
confirm_each_total [] processor b u = (b, refl)
confirm_each_total (t ∷ ts) processor b u =
    let (c, e) =
      confirm_each_total ts processor
        (log_event (confirmed_transaction t.id) processor
          (record b { transactions = confirm_row b.now t.id b.transactions }))
        u.1 in
    (c, rw (u.0.0, u.0.1, e))

-- `transaction_confirm_all` never raises, since it selects only transactions that are not confirmed and
-- pass the checks, and leaves valid books valid.
pub confirm_all_total :
    (processor : ℕ) (b : Books)
    → IsValid b
    → (c : Books) × (transaction_confirm_all processor b ≡ ok c) × IsValid c
unfolding transaction_confirm_all
confirm_all_total processor b v =
    let (c, e) =
      confirm_each_total (ripe_transactions b.now b.transactions) processor b
        (ripe-AllReady b.now b.transactions v) in
    (c, e, confirm_each-IsValid (ripe_transactions b.now b.transactions) processor b c e v)
