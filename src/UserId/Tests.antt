-- ===== src/UserId/Tests.antt =====
-- User ids at concrete numbers.
use pycroft.Base.{
  Bool, ◌==◌, ℕ, ◌≤◌, ◌≡◌, ◌⊎◌, ◌↔◌, refl, true, false, Option, some, none, [], ◌∷◌, ok, arith,
}
use pycroft.UserId.Code.{
  type2_is_valid, type2_calculate, type2_exact, type2_detects_digit, with_digit, type1_calculate,
}
use pycroft.UserId.Text.{
  Text, padded, encode_type1_user_id, encode_type2_user_id, check_user_id, text_eq,
  decode_type1_user_id, decode_type2_user_id, decimal, matched, split, cut, digits_only, is_digit,
  drop_newline,
}
use pycroft.UserId.Check.{check-encode, check_sound, decode-encode}

type2_exact_example :
    (2 ≤ type2_calculate 1234)
    × (type2_calculate 1234 ≤ 98)
    × ((type2_is_valid 1234 17 ≡ true) ↔ (17 ≡ type2_calculate 1234))
type2_exact_example = type2_exact 1234 17 (omega arith) (omega arith)

type2_detects_digit_example :
    type2_is_valid (with_digit 12 1 7 4) (type2_calculate (with_digit 12 1 3 4)) ≡ false
type2_detects_digit_example =
    type2_detects_digit 12 1 3 7 4 (omega arith) (omega arith) (omega arith)

-- an `int` that knows one text
abbrev int : Text → Option ℕ
int t = elim (text_eq t (padded 4 1234)) [ true ↦ some 1234 | false ↦ none ]

int-padded : int (padded 4 1234) ≡ some 1234
unfolding text_eq padded
int-padded = refl

check-encode_example :
    (check_user_id int (encode_type1_user_id 1234) ≡ ok true)
    × (check_user_id int (encode_type2_user_id 1234) ≡ ok true)
check-encode_example = check-encode int 1234 int-padded

-- one digit of another script
abbrev arabic : ℕ → Bool
arabic c = c == 1633

decode-encode_example :
    (decode_type1_user_id arabic (encode_type1_user_id 1234)
      ≡ some (padded 4 1234, decimal (type1_calculate 1234)))
    × (decode_type2_user_id arabic (encode_type2_user_id 1234)
        ≡ some (padded 4 1234, padded 2 (type2_calculate 1234)))
    × (decode_type2_user_id arabic (encode_type1_user_id 1234) ≡ none)
    × (decode_type1_user_id arabic (encode_type2_user_id 1234) ≡ none)
decode-encode_example = decode-encode arabic 1234

-- A final newline is no part of the code.
with_newline :
    decode_type1_user_id arabic (b'1' ∷ b'2' ∷ b'3' ∷ b'4' ∷ b'-' ∷ b'0' ∷ b'\n' ∷ [])
    ≡ some (b'1' ∷ b'2' ∷ b'3' ∷ b'4' ∷ [], b'0' ∷ [])
unfolding decode_type1_user_id matched split cut digits_only is_digit drop_newline
with_newline = refl

accepted : check_user_id int (b'1' ∷ b'2' ∷ b'3' ∷ b'4' ∷ b'-' ∷ b'0' ∷ []) ≡ ok true
unfolding check_user_id encode_type1_user_id text_eq padded
accepted = refl

check_sound_example :
    (n : ℕ) × ((b'1' ∷ b'2' ∷ b'3' ∷ b'4' ∷ b'-' ∷ b'0' ∷ [] ≡ encode_type1_user_id n)
      ⊎ (b'1' ∷ b'2' ∷ b'3' ∷ b'4' ∷ b'-' ∷ b'0' ∷ [] ≡ encode_type2_user_id n))
check_sound_example = check_sound int (b'1' ∷ b'2' ∷ b'3' ∷ b'4' ∷ b'-' ∷ b'0' ∷ []) accepted
