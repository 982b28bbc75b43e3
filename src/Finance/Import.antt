-- ===== src/Finance/Import.antt =====
-- `process_transactions` of pycroft/lib/finance/transaction_crud.py: which entries of a bank statement
-- are new. The entries are those of the packages mt-940 and fints; a key that is missing and one that
-- is None are the same to the code.
use pycroft.Base.{
  ℕ, Bool, false, not, ◌&&◌, ◌||◌, if◌then◌else◌, Option, none, some, List, [], ◌∷◌, String, ◌==◌,
  leb, str_eq,
}
use pycroft.Base.Int.{ℤ, pos, negsuc}
use Prim.Native.String.{◌++◌}

pub record StatementEntry : Type 0 where
  pub amount : ℤ
  pub applicant_iban : Option String
  pub applicant_bin : Option String
  pub applicant_name : Option String
  pub purpose : Option String
  pub end_to_end_reference : Option String
  pub guessed_entry_date : ℕ
  pub date : ℕ

pub record BankAccountActivity : Type 0 where
  pub bank_account : ℕ
  pub amount : ℤ
  pub reference : String
  pub other_account_number : String
  pub other_routing_number : String
  pub other_name : String
  pub imported_at : ℕ
  pub posted_on : ℕ
  pub valid_on : ℕ

unfoldable pub or_empty : Option String → String
or_empty none = ""
or_empty (some s) = s

unfoldable pub int_eq : ℤ → ℤ → Bool
int_eq (pos a) (pos b) = a == b
int_eq (negsuc a) (negsuc b) = a == b
int_eq _ _ = false

-- the row that `_similar_activity_stmt` looks for: all columns but the time of the import
unfoldable pub is_similar : BankAccountActivity → BankAccountActivity → Bool
unfolding int_eq
is_similar a r =
    r.bank_account == a.bank_account
    && (int_eq r.amount a.amount
        && (str_eq r.reference a.reference
            && (str_eq r.other_account_number a.other_account_number
                && (str_eq r.other_routing_number a.other_routing_number
                    && (str_eq r.other_name a.other_name
                        && (r.posted_on == a.posted_on && r.valid_on == a.valid_on))))))

-- `row_exists(session, _similar_activity_stmt(activity))`
unfoldable pub has_similar : BankAccountActivity → List BankAccountActivity → Bool
unfolding is_similar
has_similar a [] = false
has_similar a (r ∷ rows) = is_similar a r || has_similar a rows

pub record ImportedTransactions : Type 0 where
  pub new : List BankAccountActivity
  pub old : List BankAccountActivity
  pub doubtful : List BankAccountActivity

unfoldable pub with_reference : String → Option String → String
with_reference purpose none = purpose
with_reference purpose (some reference) = purpose ++ (" EREF+" ++ reference)

unfoldable pub to_activity : ℕ → ℕ → StatementEntry → BankAccountActivity
unfolding or_empty with_reference
to_activity bank_account now e = record {
  bank_account = bank_account;
  amount = e.amount;
  reference = with_reference (or_empty e.purpose) e.end_to_end_reference;
  other_account_number = or_empty e.applicant_iban;
  other_routing_number = or_empty e.applicant_bin;
  other_name = or_empty e.applicant_name;
  imported_at = now;
  posted_on = e.guessed_entry_date;
  valid_on = e.date;
}

-- The activity is put before those of the entries after it, which keeps the order.
unfoldable pub sort_in :
    ℕ → List BankAccountActivity → BankAccountActivity → ImportedTransactions → ImportedTransactions
unfolding has_similar
sort_in today rows a imported =
    if leb today a.posted_on
    then record imported { doubtful = a ∷ imported.doubtful }
    else if not (has_similar a rows)
    then record imported { new = a ∷ imported.new }
    else record imported { old = a ∷ imported.old }

unfoldable pub process_transactions :
    ℕ → ℕ → ℕ → List BankAccountActivity → List StatementEntry → ImportedTransactions
unfolding to_activity sort_in
process_transactions bank_account now today rows [] = record { new = []; old = []; doubtful = [] }
process_transactions bank_account now today rows (e ∷ es) =
    sort_in today rows (to_activity bank_account now e)
      (process_transactions bank_account now today rows es)
