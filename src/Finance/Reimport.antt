-- ===== src/Finance/Reimport.antt =====
-- Importing a statement twice.
use pycroft.Base.{
  ℕ, ◌≡◌, refl, Bool, true, ◌&&◌, ◌||◌, List, [], ◌∷◌, ◌++◌, String, ==-refl, leb, str_eq, eq_iff,
  arith, Bool-cases, inl, inr, ◌⊎◌, sym, subst,
}
use pycroft.Base.Int.{ℤ, pos, negsuc}
use pycroft.Finance.Import.{
  StatementEntry, BankAccountActivity, int_eq, is_similar, has_similar, to_activity, sort_in,
  process_transactions,
}

str_eq_refl : (s : String) → str_eq s s ≡ true
str_eq_refl s = (eq_iff s s).1 refl

int_eq_refl : (a : ℤ) → int_eq a a ≡ true
unfolding int_eq
int_eq_refl (pos n) = ==-refl n
int_eq_refl (negsuc n) = ==-refl n

has_similar-append :
    (a : BankAccountActivity) (rows more : List BankAccountActivity)
    → has_similar a (rows ++ more) ≡ (has_similar a rows || has_similar a more)
unfolding has_similar
has_similar-append a [] more = refl
has_similar-append a (r ∷ rows) more = ground (arith, has_similar-append a rows more)

has_similar_more :
    (a b : BankAccountActivity) (rows more : List BankAccountActivity)
    → has_similar a (rows ++ more) ≡ true
    → has_similar a (rows ++ (b ∷ more)) ≡ true
unfolding has_similar
has_similar_more a b rows more h =
    ground (arith, has_similar-append a rows more, has_similar-append a rows (b ∷ more))

module _ (account today : ℕ) where
  -- the time of the import makes no difference
  to_activity_similar :
      (now later : ℕ) (e : StatementEntry)
      → is_similar (to_activity account later e) (to_activity account now e) ≡ true
  unfolding is_similar to_activity
  to_activity_similar now later e = rw (
    ==-refl account,
    int_eq_refl e.amount,
    str_eq_refl,
    str_eq_refl,
    str_eq_refl,
    str_eq_refl,
    ==-refl e.guessed_entry_date,
    ==-refl e.date,
  )

  -- Whether each entry is too recent, or has a row already.
  unfoldable all_known : ℕ → List BankAccountActivity → List StatementEntry → Bool
  all_known now rows [] = true
  all_known now rows (e ∷ es) =
      (leb today e.guessed_entry_date || has_similar (to_activity account now e) rows)
      && all_known now rows es

  all_known_more :
      (now : ℕ) (b : BankAccountActivity) (rows more : List BankAccountActivity)
      (es : List StatementEntry)
      → all_known now (rows ++ more) es ≡ true
      → all_known now (rows ++ (b ∷ more)) es ≡ true
  unfolding all_known
  all_known_more now b rows more [] h = refl
  all_known_more now b rows more (e ∷ es) h = ground (
    arith,
    all_known_more now b rows more es,
    has_similar_more (to_activity account now e) b rows more,
  )

  none_new :
      (now : ℕ) (rows : List BankAccountActivity) (es : List StatementEntry)
      → all_known now rows es ≡ true
      → (process_transactions account now today rows es).new ≡ []
  unfolding process_transactions sort_in all_known to_activity
  none_new now rows [] h = refl
  none_new now rows (e ∷ es) h = ground (arith, none_new now rows es)

  has_similar_later :
      (now later : ℕ) (e : StatementEntry) (rows : List BankAccountActivity)
      → has_similar (to_activity account later e) rows
        ≡ has_similar (to_activity account now e) rows
  unfolding has_similar is_similar to_activity
  has_similar_later now later e [] = refl
  has_similar_later now later e (r ∷ rows) = rw (has_similar_later now later e rows) refl

  has_similar_here :
      (now later : ℕ) (e : StatementEntry) (rows more : List BankAccountActivity)
      → has_similar (to_activity account later e) (rows ++ (to_activity account now e ∷ more))
        ≡ true
  unfolding has_similar
  has_similar_here now later e rows more = ground (
    arith,
    has_similar-append (to_activity account later e) rows (to_activity account now e ∷ more),
    to_activity_similar now later e,
  )

  -- The new activities grow by the entry's, unless it is too recent or has a row.
  new_step :
      (now : ℕ) (rows : List BankAccountActivity) (e : StatementEntry) (es : List StatementEntry)
      → (((process_transactions account now today rows (e ∷ es)).new
            ≡ (process_transactions account now today rows es).new)
          × ((leb today e.guessed_entry_date || has_similar (to_activity account now e) rows)
              ≡ true))
        ⊎ ((process_transactions account now today rows (e ∷ es)).new
            ≡ to_activity account now e ∷ (process_transactions account now today rows es).new)
  unfolding process_transactions sort_in to_activity
  new_step now rows e es = elim (Bool-cases (leb today e.guessed_entry_date)) [
    | inl recent ↦ inl (rw recent refl, rw recent refl)
    | inr past ↦ elim (Bool-cases (has_similar (to_activity account now e) rows)) [
      | inl old ↦ inl (rw (past, old) refl, rw (past, old) refl)
      | inr new ↦ inr (rw (past, new) refl)
    ]
  ]

  sorted_known :
      (now later : ℕ) (rows : List BankAccountActivity) (es : List StatementEntry)
      → all_known later (rows ++ (process_transactions account now today rows es).new) es ≡ true
  unfolding all_known
  sorted_known now later rows [] = refl
  sorted_known now later rows (e ∷ es) =
      let known = sorted_known now later rows es in
      let r = process_transactions account now today rows es in
      elim (new_step now rows e es) [
        | inl (same, seen) ↦
            subst (λ n. all_known later (rows ++ n) (e ∷ es) ≡ true) (sym same)
              (ground (
                arith,
                seen,
                known,
                has_similar_later now later e rows,
                has_similar-append (to_activity account later e) rows r.new,
              ))
        | inr grown ↦
            subst (λ n. all_known later (rows ++ n) (e ∷ es) ≡ true) (sym grown)
              (ground (
                arith,
                has_similar_here now later e rows r.new,
                all_known_more later (to_activity account now e) rows r.new es known,
              ))
      ]

  -- If the new entries of a statement have been saved, a second import of the statement on the same
  -- day finds nothing new.
  pub reimport_none_new :
      (now later : ℕ) (rows : List BankAccountActivity) (es : List StatementEntry)
      → (process_transactions account later today
          (rows ++ (process_transactions account now today rows es).new)
          es).new
        ≡ []
  reimport_none_new now later rows es =
      none_new later (rows ++ (process_transactions account now today rows es).new) es
        (sorted_known now later rows es)
