-- ===== src/Base/Outcome.antt =====
-- Calls that may raise: the exceptions the modelled code raises, and the monad of such calls.
use mathlib.Core.Path.{◌≡◌, refl}
use mathlib.Core.Bool.{Bool, true, false}

-- Python's exceptions, one constructor for each class that the modelled code raises.
pub data Error : Type 0 where
  value_error type_error assertion_error permission_error illegal_transaction integrity_error
        subnet_full mac_exists no_result_found addr_format_error invalid_mac multicast_flag
        attribute_error multiple_results_found :
      Error

-- A call's outcome: what it returns, or what it raises.
pub data Result {ℓ} (Value : Type ℓ) : Type ℓ where
  err : Error → Result Value
  ok : Value → Result Value

-- `if c: raise e`
abbrev pub raise_if : Bool → Error → Result (Unit {0})
raise_if true raised = err raised
raise_if false raised = ok tt

-- An exception ends the calls in a row.
abbrev pub ◌>>=◌ {ℓ κ} :
    {Value : Type ℓ} {Next : Type κ} → Result Value → (Value → Result Next) → Result Next
err raised >>= continue = err raised
ok value >>= continue = continue value

abbrev pub ◌>>◌ {κ} : {Next : Type κ} → Result (Unit {0}) → Result Next → Result Next
check >> next = check >>= λ done. next

infixl 5 ◌>>=◌ ◌>>◌
-- If two calls in a row return, the first one has returned what the second one was given.
pub >>=-returns {ℓ κ} :
    {Value : Type ℓ} {Next : Type κ} (call : Result Value) (continue : Value → Result Next)
    {last : Next}
    → (call >>= continue) ≡ ok last
    → (value : Value) × (call ≡ ok value) × (continue value ≡ ok last)
>>=-returns (err raised) continue returned = cc
>>=-returns (ok value) continue returned = (value, refl, returned)

pub ok-injective {ℓ} : {A : Type ℓ} {a b : A} → ok a ≡ ok b → a ≡ b
ok-injective h = cc
