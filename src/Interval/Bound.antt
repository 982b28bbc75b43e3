-- ===== src/Interval/Bound.antt =====
-- `Bound` of pycroft/helpers/interval.py. Values are instants, counted from an origin, so that
-- the underlying ordered type is the natural numbers.
use pycroft.Base.{ℕ, Bool, true, false, not, ◌&&◌, if◌then◌else◌, leb, ltb, ◌==◌}

-- `TWithInfinity`
pub data Value : Type 0 where
  neg_inf pos_inf : Value
  fin : ℕ → Value

-- `==` on values: the infinities are singletons.
unfoldable pub value_eq : Value → Value → Bool
value_eq neg_inf neg_inf = true
value_eq pos_inf pos_inf = true
value_eq (fin x) (fin y) = x == y
value_eq _ _ = false

pub record Bound : Type 0 where
  pub value : Value
  pub closed : Bool

-- `Bound.unbounded`, on the value
unfoldable pub is_infinite : Value → Bool
is_infinite (fin x) = false
is_infinite _ = true

-- `Bound.__new__`: an infinite bound is never closed.
unfoldable pub bound : Value → Bool → Bound
unfolding is_infinite
bound v c = record { value = v; closed = if is_infinite v then false else c }

unfoldable pub unbounded : Bound → Bool
unfolding is_infinite
unbounded b = is_infinite b.value

le_values : Value → Bool → Value → Bool → Bool
le_values pos_inf c pos_inf d = true
le_values pos_inf c v d = false
le_values neg_inf c v d = true
le_values (fin x) c pos_inf d = true
le_values (fin x) c neg_inf d = false
le_values (fin x) c (fin y) d = if x == y then c && d else leb x y

-- `Bound.__le__`; `a >= b` is `b <= a`.
unfoldable pub le : Bound → Bound → Bool
unfolding le_values
le a b = le_values a.value a.closed b.value b.closed

lt_values : Value → Value → Bool
lt_values pos_inf pos_inf = true
lt_values pos_inf v = false
lt_values neg_inf v = true
lt_values (fin x) pos_inf = true
lt_values (fin x) neg_inf = false
lt_values (fin x) (fin y) = ltb x y

-- `Bound.__lt__`; `a > b` is `b < a`.
unfoldable pub lt : Bound → Bound → Bool
unfolding lt_values
lt a b = lt_values a.value b.value

-- `Bound.__eq__`
bool_eq : Bool → Bool → Bool
bool_eq true b = b
bool_eq false b = not b

unfoldable pub eq : Bound → Bound → Bool
unfolding value_eq bool_eq
eq a b = value_eq a.value b.value && bool_eq a.closed b.closed

-- `Bound.__invert__`
unfoldable pub invert : Bound → Bound
unfolding bound
invert b = bound b.value (not b.closed)

-- Python's `max(a, b)` and `min(a, b)` keep the first argument unless the second is strictly
-- greater, or less.
unfoldable pub max : Bound → Bound → Bound
unfolding lt
max a b = if lt a b then b else a

unfoldable pub min : Bound → Bound → Bound
unfolding lt
min a b = if lt b a then b else a
