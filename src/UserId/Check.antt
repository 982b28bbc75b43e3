-- ===== src/UserId/Check.antt =====
-- Encoded user ids are recognised, and nothing else is.
use pycroft.Base.{
  ℕ, zero, suc, ◌+◌, ◌-◌, ◌≤◌, ◌<◌, ◌≡◌, ◌⊎◌, refl, ap, Bool, true, Option, none, some, List, [],
  ◌∷◌, ◌++◌, ◌==◌, ltb, ◌*◌, ◌%◌, if◌then◌else◌, arith, Bool-cases, inl, inr, ok, err, value_error,
  ◌∙◌,
}
use pycroft.UserId.Code.{
  digits, type1_calculate, type2_calculate, AllDigits, digits_lem, sum, digits-one, digits-two,
}
use pycroft.UserId.Text.{
  Text, length, text_eq, dash, to_text, decimal, zeros, padded, encode_type1_user_id,
  encode_type2_user_id, all_digits, is_digit, drop_newline, digits_only, split, matched,
  decode_type1_user_id, decode_type2_user_id, check_parts, check_user_id,
}

pub text_eq_refl : (s : Text) → text_eq s s ≡ true
unfolding text_eq
text_eq_refl [] = refl
text_eq_refl (c ∷ cs) = ground (arith, text_eq_refl cs)

pub text_eq_sound : (s t : Text) → text_eq s t ≡ true → s ≡ t
unfolding text_eq
text_eq_sound [] [] h = refl
text_eq_sound [] (d ∷ ds) h = cc
text_eq_sound (c ∷ cs) [] h = cc
text_eq_sound (c ∷ cs) (d ∷ ds) h = ground (arith, text_eq_sound cs ds)

to_text-digits :
    (ds : List ℕ) (t : Text) → AllDigits ds → all_digits t ≡ true → all_digits (to_text ds t) ≡ true
unfolding to_text all_digits
to_text-digits [] t a h = h
to_text-digits (d ∷ ds) t a h = to_text-digits ds ((b'0' + d) ∷ t) a.1 (ground arith)

decimal-digits : (n : ℕ) → all_digits (decimal n) ≡ true
unfolding decimal all_digits
decimal-digits n = to_text-digits (digits n) [] (digits_lem n).1 refl

zeros-digits : (k : ℕ) (t : Text) → all_digits t ≡ true → all_digits (zeros k ++ t) ≡ true
unfolding zeros all_digits
zeros-digits zero t h = h
zeros-digits (suc k) t h = zeros-digits k t h

padded-digits : (w n : ℕ) → all_digits (padded w n) ≡ true
unfolding padded
padded-digits w n = zeros-digits (w - length (decimal n)) (decimal n) (decimal-digits n)

length-zeros : (k : ℕ) (t : Text) → length (zeros k ++ t) ≡ k + length t
unfolding zeros
length-zeros zero t = omega arith
length-zeros (suc k) t = omega (arith, length-zeros k t)

length-padded : (w n : ℕ) → length (decimal n) ≤ w → length (padded w n) ≡ w
unfolding padded
length-padded w n h = omega (arith, length-zeros (w - length (decimal n)) (decimal n))

length-padded-le : (w n : ℕ) → w ≤ length (padded w n)
unfolding padded
length-padded-le w n = omega (arith, length-zeros (w - length (decimal n)) (decimal n))

split-digits : (t : Text) → all_digits t ≡ true → split t ≡ (t, [])
unfolding split all_digits
split-digits [] h = refl
split-digits (c ∷ cs) h = rw (split-digits cs (ground arith)) (ground arith)

-- A text of digits, a dash and digits has these two parts.
split-dash :
    (s t : Text) → all_digits s ≡ true → all_digits t ≡ true → split (s ++ (dash ∷ t)) ≡ (s, t ∷ [])
unfolding split all_digits
split-dash [] t h k = rw (split-digits t k)
split-dash (c ∷ cs) t h k = rw (split-dash cs t (ground arith) k) (ground arith)

length-decimal_one : (n : ℕ) → n < 10 → length (decimal n) ≡ 1
unfolding decimal
length-decimal_one n h = rw (digits-one n h)

length-decimal_two : (n : ℕ) → n < 100 → length (decimal n) ≤ 2
unfolding decimal
length-decimal_two n h = elim (Bool-cases (ltb n 10)) [
  | inl small ↦ rw (digits-one n (ground arith)) (omega arith)
  | inr large ↦ rw (digits-two n (ground arith) h) (omega arith)
]

-- The two encodings have a check code of one digit, and of two.
pub code_lengths :
    (n : ℕ)
    → (length (decimal (type1_calculate n)) ≡ 1) × (length (padded 2 (type2_calculate n)) ≡ 2)
unfolding type1_calculate type2_calculate
code_lengths n = (
  length-decimal_one (sum (digits n) % 10) (omega arith),
  length-padded 2 (98 - (n * 100) % 97) (length-decimal_two (98 - (n * 100) % 97) (omega arith)),
)

split-encode1 :
    (n : ℕ) → split (encode_type1_user_id n) ≡ (padded 4 n, decimal (type1_calculate n) ∷ [])
unfolding encode_type1_user_id
split-encode1 n =
    split-dash (padded 4 n) (decimal (type1_calculate n)) (padded-digits 4 n)
      (decimal-digits (type1_calculate n))

split-encode2 :
    (n : ℕ) → split (encode_type2_user_id n) ≡ (padded 4 n, padded 2 (type2_calculate n) ∷ [])
unfolding encode_type2_user_id
split-encode2 n =
    split-dash (padded 4 n) (padded 2 (type2_calculate n)) (padded-digits 4 n)
      (padded-digits 2 (type2_calculate n))

drop_newline-digits : (t : Text) → all_digits t ≡ true → drop_newline t ≡ t
unfolding all_digits drop_newline is_digit
drop_newline-digits [] h = refl
drop_newline-digits (c ∷ []) h = ground arith
drop_newline-digits (c ∷ d ∷ ds) h = ap (λ l. c ∷ l) (drop_newline-digits (d ∷ ds) (ground arith))

digits_only-digits :
    (other_digit : ℕ → Bool) (t : Text) → all_digits t ≡ true → digits_only other_digit t ≡ true
unfolding all_digits digits_only
digits_only-digits other_digit [] h = refl
digits_only-digits other_digit (c ∷ cs) h = ground (arith, digits_only-digits other_digit cs)

-- Decoding an encoded id gives the padded number and its code back, and each of the two patterns
-- rejects what the other encoding makes.
pub decode-encode :
    (other_digit : ℕ → Bool) (n : ℕ)
    → (decode_type1_user_id other_digit (encode_type1_user_id n)
        ≡ some (padded 4 n, decimal (type1_calculate n)))
      × (decode_type2_user_id other_digit (encode_type2_user_id n)
          ≡ some (padded 4 n, padded 2 (type2_calculate n)))
      × (decode_type2_user_id other_digit (encode_type1_user_id n) ≡ none)
      × (decode_type1_user_id other_digit (encode_type2_user_id n) ≡ none)
unfolding decode_type1_user_id decode_type2_user_id matched
decode-encode other_digit n =
    let (one, two) = code_lengths n in
    let pd = digits_only-digits other_digit (padded 4 n) (padded-digits 4 n) in
    let l4 = length-padded-le 4 n in
    let e1 = decimal-digits (type1_calculate n) in
    let e2 = padded-digits 2 (type2_calculate n) in
    let k1 = drop_newline-digits (decimal (type1_calculate n)) e1 in
    let k2 = drop_newline-digits (padded 2 (type2_calculate n)) e2 in
    let d1 = digits_only-digits other_digit (decimal (type1_calculate n)) e1 in
    let d2 = digits_only-digits other_digit (padded 2 (type2_calculate n)) e2 in
    (
      rw (split-encode1 n, k1) (ground arith),
      rw (split-encode2 n, k2) (ground arith),
      rw (split-encode1 n, k1) (ground arith),
      rw (split-encode2 n, k2) (ground arith),
    )

module _ (int : Text → Option ℕ) where
  check_cons :
      (s : Text) (first code : Text)
      → split s ≡ (first, code ∷ [])
      → check_user_id int s ≡ check_parts int s (first, code ∷ [])
  unfolding check_user_id split
  check_cons [] first code h = cc
  check_cons (c ∷ cs) first code h = rw h

  -- If `int` reads the padded number of a user id, both encodings of the id are recognised.
  pub check-encode :
      (n : ℕ)
      → int (padded 4 n) ≡ some n
      → (check_user_id int (encode_type1_user_id n) ≡ ok true)
        × (check_user_id int (encode_type2_user_id n) ≡ ok true)
  unfolding check_parts
  check-encode n h =
      let (one, two) = code_lengths n in
      (
        check_cons (encode_type1_user_id n) (padded 4 n) (decimal (type1_calculate n))
              (split-encode1 n)
            ∙ rw (check_parts, h, one, text_eq_refl (encode_type1_user_id n)),
        check_cons (encode_type2_user_id n) (padded 4 n) (padded 2 (type2_calculate n))
              (split-encode2 n)
            ∙ rw (check_parts, h, two, text_eq_refl (encode_type2_user_id n)),
      )

  parts_sound :
      (s : Text) (p : Text × List Text)
      → check_parts int s p ≡ ok true
      → (n : ℕ) × ((s ≡ encode_type1_user_id n) ⊎ (s ≡ encode_type2_user_id n))
  unfolding check_parts
  parts_sound s (uid, []) h = absurd (ground arith)
  parts_sound s (uid, code ∷ (d ∷ ds)) h = absurd (ground arith)
  parts_sound s (uid, code ∷ []) h = go (int uid) h
    where
      go :
          (o : Option ℕ)
          → (elim o [
            | none ↦ err value_error
            | some n ↦ ok (
                text_eq s
                  (if length code == 2 then encode_type2_user_id n else encode_type1_user_id n))
          ])
            ≡ ok true
          → (n : ℕ) × ((s ≡ encode_type1_user_id n) ⊎ (s ≡ encode_type2_user_id n))
      go none k = absurd (ground arith)
      go (some n) k = elim (Bool-cases (length code == 2)) [
        | inl two ↦ (n, inr (text_eq_sound s (encode_type2_user_id n) (ground arith)))
        | inr one ↦ (n, inl (text_eq_sound s (encode_type1_user_id n) (ground arith)))
      ]

  -- Only encoded ids are recognised: if the check succeeds, the text is one of the two encodings of
  -- some user id.
  pub check_sound :
      (s : Text)
      → check_user_id int s ≡ ok true
      → (n : ℕ) × ((s ≡ encode_type1_user_id n) ⊎ (s ≡ encode_type2_user_id n))
  unfolding check_user_id
  check_sound [] h = absurd (ground arith)
  check_sound (c ∷ cs) h = parts_sound (c ∷ cs) (split (c ∷ cs)) h
