-- ===== src/Finance/Balance.antt =====
-- The books balance: what the operations make of the accounts, and the invariant of the table.
use pycroft.Base.{
  ℕ, ◌+◌, ◌≡◌, ◌≢◌, refl, sym, ap, ◌∙◌, subst, Bool, true, false, if◌then◌else◌, Option, none, some,
  List, [], ◌∷◌, ◌++◌, String, ◌==◌, ok, err, integrity_error, ok-injective, Bool-cases, inl, inr,
  arith,
}
use pycroft.Base.Int.{
  ℤ, pos, ◌+ℤ◌, negate, is_zero, is_zero_sound, +ℤ_assoc, +ℤ_zero, zero_+ℤ, negate-cancel,
}
use pycroft.Finance.Model.{
  Split, Transaction, Books, sum_amounts, is_balanced, has_two, refers_to, has_duplicate,
  check_transaction_on_save, add_transaction, balance_in, balance,
}
use pycroft.Finance.Ops.{date_or, new_transaction, simple_transaction}

-- A transaction is balanced and has at least two splits, each on an account of its own.
abbrev pub IsSound : List Split → Type 0
IsSound splits =
    (is_balanced splits ≡ true) × (has_two splits ≡ true) × (has_duplicate splits ≡ false)

abbrev pub AllSound : List Transaction → Type 0
AllSound [] = Unit
AllSound (t ∷ ts) = IsSound t.splits × AllSound ts

abbrev pub IsValid : Books → Type 0
IsValid b = AllSound b.transactions

-- the sum of all splits
unfoldable pub total : List Transaction → ℤ
total [] = pos 0
total (t ∷ ts) = sum_amounts t.splits +ℤ total ts

-- In valid books the splits of all transactions sum to zero: whatever is credited is debited.
pub valid_total : (b : Books) → IsValid b → total b.transactions ≡ pos 0
unfolding total is_balanced
valid_total b v = go b.transactions v
  where
    go : (ts : List Transaction) → AllSound ts → total ts ≡ pos 0
    go [] h = refl
    go (t ∷ ts) h = rw (is_zero_sound (sum_amounts t.splits) h.0.0, zero_+ℤ (total ts)) (go ts h.1)

pub balance-append :
    (a : ℕ) (ts us : List Transaction) → balance a (ts ++ us) ≡ balance a ts +ℤ balance a us
unfolding balance
balance-append a [] us = sym (zero_+ℤ (balance a us))
balance-append a (t ∷ ts) us =
    rw (balance-append a ts us)
      (sym (+ℤ_assoc (balance_in a t.splits) (balance a ts) (balance a us)))

pub AllSound-append :
    (ts : List Transaction) (t : Transaction)
    → AllSound ts
    → IsSound t.splits
    → AllSound (ts ++ (t ∷ []))
AllSound-append [] t h p = (p, tt)
AllSound-append (u ∷ us) t h p = (h.0, AllSound-append us t h.1 p)

abbrev pub added : Transaction → Books → Books
added t b = record b { next_id = b.next_id + 1; transactions = b.transactions ++ (t ∷ []) }

-- `add_transaction` accepts a transaction exactly if it is sound, and then appends it.
pub add_transaction-IsSound :
    (t : Transaction) (b c : Books)
    → (IsSound t.splits → add_transaction t b ≡ ok (added t b))
      × (add_transaction t b ≡ ok c → IsSound t.splits × (added t b ≡ c))
unfolding add_transaction check_transaction_on_save
add_transaction-IsSound t b c = (
  (λ h. rw (h.0, h.1, h.2)),
  λ h. elim (Bool-cases (is_balanced t.splits)) [
    | inr off ↦ absurd (ground arith)
    | inl even ↦ elim (Bool-cases (has_two t.splits)) [
      | inr few ↦ absurd (ground arith)
      | inl two ↦ elim (Bool-cases (has_duplicate t.splits)) [
        | inl twice ↦ absurd (ground arith)
        | inr once ↦ ((even, two, once), ok-injective (sym (rw (even, two, once)) ∙ h))
      ]
    ]
  ],
)

pub add_transaction-IsValid :
    (t : Transaction) (b c : Books) → add_transaction t b ≡ ok c → IsValid b → IsValid c
add_transaction-IsValid t b c h v =
    let (p, e) = (add_transaction-IsSound t b c).1 h in
    subst (λ d. IsValid d) e (AllSound-append b.transactions t v p)

abbrev pub two_splits : ℕ → ℕ → ℤ → List Split
two_splits debit credit amount =
    record { amount = negate amount; account = debit }
    ∷ record { amount = amount; account = credit }
    ∷ []

two_splits-balanced :
    (debit credit : ℕ) (amount : ℤ) → is_balanced (two_splits debit credit amount) ≡ true
unfolding is_balanced sum_amounts is_zero
two_splits-balanced debit credit amount = rw (negate-cancel amount) refl

two_splits-distinct :
    (debit credit : ℕ) (amount : ℤ)
    → has_duplicate (two_splits debit credit amount) ≡ (credit == debit)
unfolding has_duplicate refers_to
two_splits-distinct debit credit amount = ground arith

pub balance-added :
    (a : ℕ) (ts : List Transaction) (t : Transaction)
    → balance a (ts ++ (t ∷ [])) ≡ balance a ts +ℤ balance_in a t.splits
unfolding balance
balance-added a ts t = rw (balance-append a ts (t ∷ []), +ℤ_zero (balance_in a t.splits)) refl

two_splits-balance :
    (debit credit : ℕ) (amount : ℤ) (a : ℕ)
    → debit ≢ credit
    → balance_in a (two_splits debit credit amount)
      ≡ (if debit == a then negate amount else if credit == a then amount else pos 0)
unfolding balance_in
two_splits-balance debit credit amount a apart = elim (Bool-cases (debit == a)) [
  | inl d ↦
      rw (d, (let n : (credit == a) ≡ false = ground arith in n), +ℤ_zero (negate amount)) refl
  | inr d ↦ elim (Bool-cases (credit == a)) [
    | inl c ↦ rw (d, c, +ℤ_zero amount) refl
    | inr c ↦ rw (d, c) refl
  ]
]

refused :
    (t : Transaction) (b : Books)
    → is_balanced t.splits ≡ true
    → has_two t.splits ≡ true
    → has_duplicate t.splits ≡ true
    → add_transaction t b ≡ err integrity_error
unfolding add_transaction check_transaction_on_save
refused t b even two twice = rw (even, two, twice)

date_lem :
    (today : ℕ) (valid_on : Option ℕ)
    → date_or today valid_on ≡ elim valid_on [ none ↦ today | some d ↦ d ]
date_lem today none = refl
date_lem today (some d) = refl

-- On two different accounts `simple_transaction` never raises: it adds one transaction at the end, with
-- the data given, today's date if none is, and the two splits, and changes no other transaction and not the
-- log. Thus the one account is credited with the amount, the other one is debited with it, and no other
-- balance changes; the books stay valid.
pub simple_transaction_effect :
    (description : String) (debit credit : ℕ) (amount : ℤ) (author : ℕ) (valid_on : Option ℕ)
    (confirmed : Bool) (b : Books)
    → IsValid b
    → debit ≢ credit
    → (c : Books) × (simple_transaction description debit credit amount author valid_on confirmed b
        ≡ ok c)
      × IsValid c
      × ((t : Transaction) × (c.transactions ≡ b.transactions ++ (t ∷ []))
          × (t.splits ≡ two_splits debit credit amount)
          × (t.description ≡ description)
          × (t.author ≡ author)
          × (t.valid_on ≡ elim valid_on [ none ↦ b.today | some d ↦ d ])
          × (t.confirmed ≡ confirmed))
      × (c.log ≡ b.log)
      × ((a : ℕ)
          → balance a c.transactions
            ≡ balance a b.transactions
              +ℤ (if debit == a then negate amount else if credit == a then amount else pos 0))
unfolding simple_transaction has_two
simple_transaction_effect description debit credit amount author valid_on confirmed b v apart =
    let t =
      new_transaction description author valid_on confirmed (two_splits debit credit amount) b in
    let p : IsSound t.splits = (
      two_splits-balanced debit credit amount,
      refl,
      two_splits-distinct debit credit amount ∙ ground arith,
    ) in
    (
      added t b,
      (add_transaction-IsSound t b b).0 p,
      AllSound-append b.transactions t v p,
      (t, refl, refl, refl, refl, date_lem b.today valid_on, refl),
      refl,
      λ a.
          balance-added a b.transactions t
          ∙ ap (λ x. balance a b.transactions +ℤ x)
              (two_splits-balance debit credit amount a apart),
    )

-- Between an account and itself `simple_transaction` raises `IntegrityError`.
pub same_account_refused :
    (description : String) (account : ℕ) (amount : ℤ) (author : ℕ) (valid_on : Option ℕ)
    (confirmed : Bool) (b : Books)
    → simple_transaction description account account amount author valid_on confirmed b
      ≡ err integrity_error
unfolding simple_transaction has_two
same_account_refused description account amount author valid_on confirmed b =
    refused
      (new_transaction description author valid_on confirmed (two_splits account account amount) b)
      b (two_splits-balanced account account amount) refl
      (two_splits-distinct account account amount ∙ ground arith)
