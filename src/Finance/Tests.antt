-- ===== src/Finance/Tests.antt =====
-- Books with the accounts 1, 2 and 3.
use mathlib.Core.List.{Perm}
use pycroft.Base.{
  AllOf, ◌+◌, not, ◌&&◌, leb, ℕ, ◌≡◌, ◌≢◌, refl, true, false, ◌⊎◌, none, List, [], ◌∷◌, ◌++◌, some,
  ◌==◌, if◌then◌else◌, ok, arith,
}
use pycroft.Base.Int.{ℤ, pos, negsuc, is_positive, ◌+ℤ◌, negate, is_zero}
use pycroft.Finance.Import.{StatementEntry, process_transactions}
use pycroft.Finance.Reimport.{reimport_none_new}
use pycroft.Interval.Bound
use pycroft.Interval.Core.{closure, overlaps, single, interval}
use pycroft.Interval.Points.{from_to}
use pycroft.Membership.Store.{Db, permission_level, active_memberships, highest_level}
use pycroft.Membership.Rows.{is_member}
use pycroft.Membership.Groups.{Config, member_of}
use pycroft.Membership.Effect
use pycroft.Membership.Leave.{listed}
use pycroft.Lifecycle.Effect.{at}
use pycroft.Finance.Ending.{end_payment_in_default_memberships, end_in_default_effect}
use pycroft.Finance.History.{IsPosted, IsSorted}
use pycroft.Finance.Overdue.{
  Posting, postings_of, postings, insert_posting, by_valid_on, or_now, overdue_loop, days_apart,
  days_since, in_default_days,
}
use pycroft.Finance.Debt.{owed_since, in_default_days_outcome}
use pycroft.Finance.Model.{
  Transaction, Books, balance, is_balanced, sum_amounts, has_two, has_duplicate, refers_to,
  add_transaction, check_transaction_on_save,
}
use pycroft.Finance.Ops.{simple_transaction, complex_transaction, to_splits, new_transaction}
use pycroft.Finance.Balance.{IsValid, IsSound, total, simple_transaction_effect, added, two_splits}
use pycroft.Finance.Valid.{
  credited, complex_transaction_effect, complex_transaction_refuses, stop, step, posts,
  books_balance,
}

abbrev empty_books : Books
empty_books = record { now = 9000; today = 3; next_id = 1; transactions = []; log = [] }

accounts_apart : (a b : ℕ) → (a == b) ≡ false → a ≢ b
accounts_apart a b h = ground arith

simple_transaction_effect_example :
    (c : Books) × (simple_transaction "fee" 1 2 (pos 500) 7 none false empty_books ≡ ok c)
    × IsValid c
    × ((t : Transaction) × (c.transactions ≡ empty_books.transactions ++ (t ∷ []))
        × (t.splits ≡ two_splits 1 2 (pos 500))
        × (t.description ≡ "fee")
        × (t.author ≡ 7)
        × (t.valid_on ≡ 3)
        × (t.confirmed ≡ false))
    × (c.log ≡ empty_books.log)
    × ((a : ℕ)
        → balance a c.transactions
          ≡ balance a empty_books.transactions
            +ℤ (if 1 == a then negate (pos 500) else if 2 == a then pos 500 else pos 0))
simple_transaction_effect_example =
    simple_transaction_effect "fee" 1 2 (pos 500) 7 none false empty_books tt
      (accounts_apart 1 2 refl)

abbrev shares : List (ℕ × ℤ)
shares = (1, negsuc 499) ∷ (2, pos 300) ∷ (3, pos 200) ∷ []

shares-IsSound : IsSound (to_splits shares)
unfolding to_splits is_balanced sum_amounts is_zero has_two has_duplicate refers_to ◌+ℤ◌
shares-IsSound = (refl, refl, refl)

complex_transaction_effect_example :
    (c : Books) × (complex_transaction "shared" 7 shares none true empty_books ≡ ok c)
    × IsValid c
    × ((a : ℕ) → balance a c.transactions ≡ balance a empty_books.transactions +ℤ credited a shares)
complex_transaction_effect_example =
    complex_transaction_effect "shared" 7 shares none true empty_books tt shares-IsSound

abbrev shared_books : Books
shared_books =
    added (new_transaction "shared" 7 none true (to_splits shares) empty_books) empty_books

shares_posted : complex_transaction "shared" 7 shares none true empty_books ≡ ok shared_books
unfolding complex_transaction to_splits add_transaction check_transaction_on_save is_balanced
    sum_amounts is_zero has_two has_duplicate refers_to ◌+ℤ◌
shares_posted = refl

complex_transaction_refuses_example : IsSound (to_splits shares)
complex_transaction_refuses_example =
    complex_transaction_refuses "shared" 7 shares none true empty_books shared_books shares_posted

abbrev one_fee : Books
one_fee =
    added (new_transaction "fee" 7 none false (two_splits 1 2 (pos 500)) empty_books) empty_books

fee_posted : simple_transaction "fee" 1 2 (pos 500) 7 none false empty_books ≡ ok one_fee
unfolding simple_transaction add_transaction check_transaction_on_save is_balanced sum_amounts
    is_zero has_two has_duplicate refers_to ◌+ℤ◌ negate
fee_posted = refl

books_balance_example : IsValid one_fee × (total one_fee.transactions ≡ pos 0)
books_balance_example =
    books_balance {b = empty_books} {c = one_fee}
      (step (posts "fee" 1 2 (pos 500) 7 none false fee_posted) stop) tt

-- Account 2 owes 500 since day 1, pays them on day 4, and owes 300 since day 6.
abbrev paid_late : List Transaction
paid_late = booked 6 2 (pos 300) ∷ booked 1 2 (pos 500) ∷ booked 4 2 (negsuc 499) ∷ []
  where
    booked : ℕ → ℕ → ℤ → Transaction
    booked day account amount = record {
      id = day;
      description = "fee";
      author = 7;
      posted_at = 0;
      valid_on = day;
      confirmed = true;
      splits = two_splits 1 account amount;
    }

abbrev late_books : Books
late_books = record empty_books { today = 10; transactions = paid_late }

in_default_days_outcome_example :
    (ps : List Posting) × Perm ps (postings 2 paid_late)
    × IsSorted ps
    × AllOf (IsPosted 2 paid_late) ps
    × (((is_positive (balance 2 paid_late) ≡ false) × (in_default_days 2 late_books ≡ 0))
        ⊎ ((d : ℕ) × (is_positive (balance 2 paid_late) ≡ true)
            × (owed_since (pos 0) ps ≡ some d)
            × ((d + in_default_days 2 late_books ≡ 10) ⊎ (10 + in_default_days 2 late_books ≡ d))))
in_default_days_outcome_example = in_default_days_outcome 2 late_books

four_days : in_default_days 2 late_books ≡ 4
unfolding in_default_days postings postings_of by_valid_on insert_posting overdue_loop or_now
    is_positive days_since days_apart ◌+ℤ◌ negate
four_days = refl

abbrev entry : ℕ → StatementEntry
entry day = record {
  amount = pos 500;
  applicant_iban = some "DE1";
  applicant_bin = none;
  applicant_name = some "Ada";
  purpose = some "rent";
  end_to_end_reference = some "7";
  guessed_entry_date = day;
  date = day;
}

reimport_none_new_example :
    (process_transactions 1 9000 3
      ([] ++ (process_transactions 1 8000 3 [] (entry 2 ∷ entry 3 ∷ [])).new)
      (entry 2 ∷ entry 3 ∷ [])).new
    ≡ []
reimport_none_new_example = reimport_none_new 1 3 8000 9000 [] (entry 2 ∷ entry 3 ∷ [])

-- User 1 administers, and user 2 is in the group 6 of those in default.
abbrev office : Db
office = record {
  now = 10;
  group_level = λ g. if g == 7 then 5 else 1;
  memberships =
      record { user = 1; group = 7; active_during = from_to 0 100 }
      ∷ record { user = 2; group = 6; active_during = from_to 2 20 }
      ∷ [];
  log = [];
}

abbrev office_groups : Config
office_groups = record {
  member_group = 1;
  network_access_group = 2;
  violation_group = 3;
  external_group = 4;
  blocked_group = 5;
  payment_in_default_group = 6;
  pre_member_group = 8;
}

office_level : permission_level 1 office ≡ ok 5
unfolding permission_level active_memberships highest_level single closure overlaps interval
    Bound.bound Bound.le Bound.lt
office_level = refl

end_in_default_effect_example :
    (db' : Db) × (end_payment_in_default_memberships overlaps office_groups (2 ∷ []) 1 office
      ≡ ok db')
    × Effect.IsValid db'
    × ((u g x : ℕ)
        → is_member db'.memberships u g x ≡ (
            is_member office.memberships u g x
            && not (
                listed u (2 ∷ [])
                && (6 == g && (member_of overlaps u 6 (at 10) office.memberships && leb 9 x)))))
end_in_default_effect_example =
    end_in_default_effect overlaps office_groups (2 ∷ []) 1 5 office (refl, (refl, tt)) refl
      office_level (ground arith)
