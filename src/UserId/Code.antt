-- ===== src/UserId/Code.antt =====
-- pycroft/helpers/errorcode.py: digits, the digit-sum code and the mod-97 code.
use native.Mathlib.Nat.{pow-suc}
use pycroft.Base.{
  refl, ℕ, zero, suc, ◌+◌, ◌-◌, ◌*◌, ◌/◌, ◌%◌, ◌^◌, ◌≤◌, ◌<◌, ◌≡◌, ◌≢◌, refl, Bool, true, false,
  List, [], ◌∷◌, ltb, ◌==◌, if◌then◌else◌, arith, Bool-cases, inl, inr, ◌↔◌, ==_iff, subst,
}

-- The loop of `digits` in base ten, least significant digit first, on fuel; `digits` gives enough.
digits_loop : ℕ → ℕ → List ℕ
digits_loop zero n = n ∷ []
digits_loop (suc fuel) n =
    let rest = digits_loop fuel (n / 10) in if ltb n 10 then n ∷ [] else (n % 10) ∷ rest

unfoldable pub digits : ℕ → List ℕ
unfolding digits_loop
digits n = digits_loop n n

-- The sum of a list, weighted by the powers of ten.
unfoldable pub value_of : List ℕ → ℕ
value_of [] = 0
value_of (d ∷ ds) = d + 10 * value_of ds

unfoldable pub sum : List ℕ → ℕ
sum [] = 0
sum (d ∷ ds) = d + sum ds

abbrev pub AllDigits : List ℕ → Type 0
AllDigits [] = Unit
AllDigits (d ∷ ds) = (d < 10) × AllDigits ds

digits_loop_lem :
    (fuel n : ℕ) → n ≤ fuel → (value_of (digits_loop fuel n) ≡ n) × AllDigits (digits_loop fuel n)
unfolding digits_loop value_of
digits_loop_lem zero n h = (omega arith, (omega arith, tt))
digits_loop_lem (suc fuel) n h = elim (Bool-cases (ltb n 10)) [
  | inl e ↦ rw e (omega arith, (ground arith, tt))
  | inr e ↦ rw e (
      let (v, a) = digits_loop_lem fuel (n / 10) (ground arith) in
      (omega (arith, v), (omega arith, a)))
]

-- `digits` yields decimal digits, which stand for the number.
pub digits_lem : (n : ℕ) → (value_of (digits n) ≡ n) × AllDigits (digits n)
unfolding digits
digits_lem n = digits_loop_lem n n (omega arith)

-- `DigitSumModNCode(10).calculate`
unfoldable pub type1_calculate : ℕ → ℕ
unfolding digits sum
type1_calculate number = sum (digits number) % 10

-- `Mod97Code.calculate`; the remainder is at most 96.
unfoldable pub type2_calculate : ℕ → ℕ
type2_calculate number = 98 - (number * 100) % 97

-- `ErrorCode.is_valid`
unfoldable pub type1_is_valid : ℕ → ℕ → Bool
unfolding type1_calculate
type1_is_valid number code = code == type1_calculate number

-- `Mod97Code.is_valid`
unfoldable pub type2_is_valid : ℕ → ℕ → Bool
type2_is_valid number code = (number * 100 + code) % 97 == 1

-- The mod-97 code that is calculated lies between 2 and 98, so it has two digits when padded. Of the
-- codes in that range it is the only one that is accepted.
pub type2_exact :
    (number code : ℕ)
    → 2 ≤ code
    → code ≤ 98
    → (2 ≤ type2_calculate number)
      × (type2_calculate number ≤ 98)
      × ((type2_is_valid number code ≡ true) ↔ (code ≡ type2_calculate number))
unfolding type2_calculate type2_is_valid
type2_exact number code l u = (
  omega arith,
  omega arith,
  (
    λ h. omega (arith, (==_iff ((number * 100 + code) % 97) 1).0 h),
    λ h. (==_iff ((number * 100 + code) % 97) 1).1 (omega arith),
  ),
)

-- A code is accepted for two numbers only if 97 divides their difference.
type2_collision :
    (number difference : ℕ)
    → type2_is_valid (number + difference) (type2_calculate number) ≡ true
    → difference % 97 ≡ 0
unfolding type2_calculate type2_is_valid
type2_collision number difference h =
    omega (arith, (==_iff (((number + difference) * 100 + (98 - (number * 100) % 97)) % 97) 1).0 h)

type2_collision_down :
    (number difference : ℕ)
    → type2_is_valid number (type2_calculate (number + difference)) ≡ true
    → difference % 97 ≡ 0
unfolding type2_calculate type2_is_valid
type2_collision_down number difference h =
    omega (arith, (==_iff ((number * 100 + (98 - ((number + difference) * 100) % 97)) % 97) 1).0 h)

pow_mod : (k : ℕ) → (10 ^ k) % 97 ≢ 0
pow_mod zero = omega arith
pow_mod (suc k) = rw pow-suc (omega (arith, pow_mod k))

-- A single digit times a power of ten is no multiple of 97.
digit_mod : (t p : ℕ) → 0 < t → t < 10 → p % 97 ≢ 0 → (t * p) % 97 ≢ 0
digit_mod zero p h l n = absurd (omega arith)
digit_mod (suc zero) p h l n = omega arith
digit_mod (suc (suc zero)) p h l n = omega arith
digit_mod (suc (suc (suc zero))) p h l n = omega arith
digit_mod (suc (suc (suc (suc zero)))) p h l n = omega arith
digit_mod (suc (suc (suc (suc (suc zero))))) p h l n = omega arith
digit_mod (suc (suc (suc (suc (suc (suc zero)))))) p h l n = omega arith
digit_mod (suc (suc (suc (suc (suc (suc (suc zero))))))) p h l n = omega arith
digit_mod (suc (suc (suc (suc (suc (suc (suc (suc zero)))))))) p h l n = omega arith
digit_mod (suc (suc (suc (suc (suc (suc (suc (suc (suc zero))))))))) p h l n = omega arith
digit_mod (suc (suc (suc (suc (suc (suc (suc (suc (suc (suc t)))))))))) p h l n =
    absurd (omega arith)

-- The number whose digit at place `k` is `d`, with `high` above and `low` below it.
abbrev pub with_digit : ℕ → ℕ → ℕ → ℕ → ℕ
with_digit high k d low = (high * 10 + d) * 10 ^ k + low

raise_digit :
    (high k d t low : ℕ) → with_digit high k (d + t) low ≡ with_digit high k d low + t * 10 ^ k
raise_digit high k d t low = grind arith

larger_digit :
    (high k d t low : ℕ)
    → 0 < t
    → t < 10
    → type2_is_valid (with_digit high k (d + t) low) (type2_calculate (with_digit high k d low))
      ≡ false
larger_digit high k d t low p q =
    elim (Bool-cases (
      type2_is_valid (with_digit high k (d + t) low) (type2_calculate (with_digit high k d low)))) [
        | inr refused ↦ refused
        | inl accepted ↦ absurd (
            digit_mod t (10 ^ k) p q (pow_mod k)
              (type2_collision (with_digit high k d low) (t * 10 ^ k) (rw raise_digit at accepted)))
      ]

smaller_digit :
    (high k d t low : ℕ)
    → 0 < t
    → t < 10
    → type2_is_valid (with_digit high k d low) (type2_calculate (with_digit high k (d + t) low))
      ≡ false
smaller_digit high k d t low p q =
    elim (Bool-cases (
      type2_is_valid (with_digit high k d low) (type2_calculate (with_digit high k (d + t) low)))) [
        | inr refused ↦ refused
        | inl accepted ↦ absurd (
            digit_mod t (10 ^ k) p q (pow_mod k) (
              type2_collision_down (with_digit high k d low) (t * 10 ^ k)
                (rw raise_digit at accepted)))
      ]

-- The mod-97 code detects every substitution of one digit: the code of a number is refused for the
-- number with another digit at any one place.
pub type2_detects_digit :
    (high k d e low : ℕ)
    → d < 10
    → e < 10
    → d ≢ e
    → type2_is_valid (with_digit high k e low) (type2_calculate (with_digit high k d low)) ≡ false
type2_detects_digit high k d e low p q ne = elim (Bool-cases (ltb d e)) [
  | inl less ↦
      subst
        (λ f.
          type2_is_valid (with_digit high k f low) (type2_calculate (with_digit high k d low))
          ≡ false)
        (let same : d + (e - d) ≡ e = ground arith in same)
        (larger_digit high k d (e - d) low (ground arith) (omega arith))
  | inr more ↦
      subst
        (λ f.
          type2_is_valid (with_digit high k e low) (type2_calculate (with_digit high k f low))
          ≡ false)
        (let same : e + (d - e) ≡ d = ground arith in same)
        (smaller_digit high k e (d - e) low (ground arith) (omega arith))
]

digits_loop-small : (fuel n : ℕ) → n < 10 → digits_loop fuel n ≡ n ∷ []
unfolding digits_loop
digits_loop-small zero n h = refl
digits_loop-small (suc fuel) n h = ground arith

pub digits-one : (n : ℕ) → n < 10 → digits n ≡ n ∷ []
unfolding digits
digits-one n h = digits_loop-small n n h

pub digits-two : (n : ℕ) → 10 ≤ n → n < 100 → digits n ≡ (n % 10) ∷ (n / 10) ∷ []
unfolding digits digits_loop
digits-two zero h l = absurd (omega arith)
digits-two (suc n) h l = ground (arith, digits_loop-small n (suc n / 10))
