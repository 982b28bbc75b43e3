-- ===== src/UserId/Text.antt =====
-- pycroft/lib/user/user_id.py: user ids as text. A text is the list of its code points.
use pycroft.Base.{
  ℕ, zero, suc, ◌+◌, ◌-◌, Bool, true, false, ◌&&◌, ◌||◌, Option, none, some, List, [], ◌∷◌, ◌++◌,
  leb, ◌==◌, if◌then◌else◌, Result, ok, err, value_error,
}
use pycroft.UserId.Code.{digits, type1_calculate, type2_calculate}

abbrev pub Text : Type 0
Text = List ℕ

abbrev pub length : Text → ℕ
length [] = 0
length (c ∷ cs) = suc (length cs)

-- `==` on texts
unfoldable pub text_eq : Text → Text → Bool
text_eq [] [] = true
text_eq (c ∷ cs) (d ∷ ds) = c == d && text_eq cs ds
text_eq _ _ = false

abbrev pub dash : ℕ
dash = b'-'

-- The decimal digits of a number, most significant first.
unfoldable pub to_text : List ℕ → Text → Text
to_text [] text = text
to_text (d ∷ ds) text = to_text ds ((b'0' + d) ∷ text)

unfoldable pub decimal : ℕ → Text
unfolding digits to_text
decimal n = to_text (digits n) []

unfoldable pub zeros : ℕ → Text
zeros zero = []
zeros (suc n) = b'0' ∷ zeros n

-- The format `{n:0wd}`: padded with zeros up to `w` characters.
unfoldable pub padded : ℕ → ℕ → Text
unfolding decimal zeros
padded w n = zeros (w - length (decimal n)) ++ decimal n

unfoldable pub encode_type1_user_id : ℕ → Text
unfolding padded type1_calculate
encode_type1_user_id user_id = padded 4 user_id ++ (dash ∷ decimal (type1_calculate user_id))

unfoldable pub encode_type2_user_id : ℕ → Text
unfolding padded type2_calculate
encode_type2_user_id user_id = padded 4 user_id ++ (dash ∷ padded 2 (type2_calculate user_id))

unfoldable pub is_digit : ℕ → Bool
is_digit c = leb b'0' c && leb c b'9'

unfoldable pub all_digits : Text → Bool
unfolding is_digit
all_digits [] = true
all_digits (c ∷ cs) = is_digit c && all_digits cs

-- `string.split("-")`: the first part, and the others.
unfoldable pub cut : ℕ → Text × List Text → Text × List Text
cut c (first, rest) = if c == dash then ([], first ∷ rest) else (c ∷ first, rest)

unfoldable pub split : Text → Text × List Text
unfolding cut
split [] = ([], [])
split (c ∷ cs) = cut c (split cs)

-- `$` matches at the end, and before a newline there.
unfoldable pub drop_newline : Text → Text
drop_newline [] = []
drop_newline (c ∷ []) = if c == b'\n' then [] else c ∷ []
drop_newline (c ∷ d ∷ ds) = c ∷ drop_newline (d ∷ ds)

-- `\d` matches the digits of ASCII and those of other scripts, which `other_digit` says.
module _ (other_digit : ℕ → Bool) where
  unfoldable pub digits_only : Text → Bool
  unfolding is_digit
  digits_only [] = true
  digits_only (c ∷ cs) = (is_digit c || other_digit c) && digits_only cs

  -- The regular expressions `^(\d{4,})-(\d)$` and `^(\d{4,})-(\d{2})$` match exactly the texts of two
  -- parts, both of digits, of these lengths, and such a text with a newline.
  unfoldable pub matched : ℕ → Text × List Text → Option (Text × Text)
  unfolding digits_only drop_newline
  matched width (number, code ∷ []) =
      let digits = drop_newline code in
      if digits_only number
        && (digits_only digits && (leb 4 (length number) && length digits == width))
      then some (number, digits)
      else none
  matched width _ = none

  unfoldable pub decode_type1_user_id : Text → Option (Text × Text)
  unfolding matched split
  decode_type1_user_id string = matched 1 (split string)

  unfoldable pub decode_type2_user_id : Text → Option (Text × Text)
  unfolding matched split
  decode_type2_user_id string = matched 2 (split string)

-- Python's `int` on a text is an argument: `none` stands for its `ValueError`.
module _ (int : Text → Option ℕ) where
  unfoldable pub check_parts : Text → Text × List Text → Result Bool
  check_parts string (uid, code ∷ []) = elim (int uid) [
    | none ↦ err value_error
    | some n ↦ ok (
        text_eq string
          (if length code == 2 then encode_type2_user_id n else encode_type1_user_id n))
  ]
  check_parts string _ = ok false

  unfoldable pub check_user_id : Text → Result Bool
  unfolding split check_parts
  check_user_id [] = ok false
  check_user_id (c ∷ cs) = check_parts (c ∷ cs) (split (c ∷ cs))
