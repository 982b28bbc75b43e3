-- ===== src/Interval/Core.antt =====
-- `Interval` of pycroft/helpers/interval.py: construction, Allen's relations, and the operations
-- that build one interval from two.
use pycroft.Base.{
  ℕ, ◌-◌, Bool, true, false, not, ◌&&◌, ◌||◌, if◌then◌else◌, Option, none, some, Result, ok,
  value_error, ◌>>=◌, ◌>>◌, raise_if,
}
use pycroft.Interval.Bound
use pycroft.Interval.Bound.{Value, neg_inf, pos_inf, fin, Bound, bound, value_eq, unbounded, invert}

pub record Interval : Type 0 where
  pub lower_bound : Bound
  pub upper_bound : Bound

-- `Interval.__new__`
unfoldable pub interval : Bound → Bound → Result Interval
interval lower upper = do
  raise_if (Bound.lt upper lower) value_error
  ok (record { lower_bound = lower; upper_bound = upper })

unfoldable pub convert_begin : Option ℕ → Value
convert_begin none = neg_inf
convert_begin (some v) = fin v

unfoldable pub convert_end : Option ℕ → Value
convert_end none = pos_inf
convert_end (some v) = fin v

-- `Interval.from_explicit_data`
unfoldable pub from_explicit_data : Option ℕ → Bool → Option ℕ → Bool → Result Interval
unfolding interval convert_begin convert_end
from_explicit_data lower lower_closed upper upper_closed =
    interval (bound (convert_begin lower) lower_closed) (bound (convert_end upper) upper_closed)

unfoldable pub closed : Option ℕ → Option ℕ → Result Interval
unfolding interval convert_begin convert_end
closed begin end = interval (bound (convert_begin begin) true) (bound (convert_end end) true)

unfoldable pub closedopen : Option ℕ → Option ℕ → Result Interval
unfolding interval convert_begin convert_end
closedopen begin end = interval (bound (convert_begin begin) true) (bound (convert_end end) false)

unfoldable pub openclosed : Option ℕ → Option ℕ → Result Interval
unfolding interval convert_begin convert_end
openclosed begin end = interval (bound (convert_begin begin) false) (bound (convert_end end) true)

-- `open`
unfoldable pub open_interval : Option ℕ → Option ℕ → Result Interval
unfolding interval convert_begin convert_end
open_interval begin end =
    interval (bound (convert_begin begin) false) (bound (convert_end end) false)

unfoldable pub starting_from : ℕ → Result Interval
unfolding closedopen
starting_from when = closedopen (some when) none

unfoldable pub single : ℕ → Result Interval
unfolding interval
single point = let b = bound (fin point) true in interval b b

unfoldable pub empty_at : ℕ → Result Interval
unfolding interval
empty_at point = let b = bound (fin point) false in interval b b

-- `UnboundedInterval`, the value of `open(None, None)`
abbrev pub unbounded_interval : Interval
unbounded_interval = record {
  lower_bound = record { value = neg_inf; closed = false };
  upper_bound = record { value = pos_inf; closed = false };
}

-- `Interval.begin` and `Interval.end`; a value of the wrong sign is handed out as it is, and
-- stands in no interval that `interval` builds.
unfoldable pub begin_of : Interval → Option ℕ
begin_of i = elim i.lower_bound.value [ fin x ↦ some x | _ ↦ none ]

unfoldable pub end_of : Interval → Option ℕ
end_of i = elim i.upper_bound.value [ fin x ↦ some x | _ ↦ none ]

unfoldable pub is_unbounded : Interval → Bool
is_unbounded i = unbounded i.lower_bound || unbounded i.upper_bound

-- `Interval.empty`
unfoldable pub is_empty : Interval → Bool
is_empty i =
    value_eq i.lower_bound.value i.upper_bound.value
    && not (i.lower_bound.closed && i.upper_bound.closed)

difference_of : Value → Value → Option ℕ
difference_of (fin u) (fin l) = some (u - l)
difference_of _ _ = none

-- `Interval.length`; the bounds of an interval are in order, so nothing is cut off at 0.
unfoldable pub length_of : Interval → Option ℕ
unfolding difference_of
length_of i = difference_of i.upper_bound.value i.lower_bound.value

-- `Interval.__eq__`, `__le__`, `__lt__`
unfoldable pub interval_eq : Interval → Interval → Bool
interval_eq a b = Bound.eq a.lower_bound b.lower_bound && Bound.eq a.upper_bound b.upper_bound

unfoldable pub interval_le : Interval → Interval → Bool
interval_le a b =
    Bound.lt a.lower_bound b.lower_bound
    || Bound.eq a.lower_bound b.lower_bound && Bound.le a.upper_bound b.upper_bound

unfoldable pub interval_lt : Interval → Interval → Bool
interval_lt a b =
    Bound.lt a.lower_bound b.lower_bound
    || Bound.eq a.lower_bound b.lower_bound && Bound.lt a.upper_bound b.upper_bound

-- `Interval.__contains__`
unfoldable pub contains_point : Interval → ℕ → Bool
contains_point i x =
    let b = bound (fin x) true in Bound.le i.lower_bound b && Bound.le b i.upper_bound

unfoldable pub strictly_before : Interval → Interval → Bool
strictly_before a b = Bound.lt a.upper_bound b.lower_bound

unfoldable pub before : Interval → Interval → Bool
before a b = Bound.le a.upper_bound b.lower_bound

unfoldable pub strictly_after : Interval → Interval → Bool
unfolding strictly_before
strictly_after a b = strictly_before b a

unfoldable pub after : Interval → Interval → Bool
unfolding before
after a b = before b a

-- The second test reads the lower bound of `a`, as the source does.
unfoldable pub meets : Interval → Interval → Bool
meets a b =
    value_eq a.upper_bound.value b.lower_bound.value
    && (a.upper_bound.closed || a.lower_bound.closed)

unfoldable pub strictly_overlaps : Interval → Interval → Bool
strictly_overlaps a b = Bound.lt a.lower_bound b.upper_bound && Bound.lt b.lower_bound a.upper_bound

unfoldable pub overlaps : Interval → Interval → Bool
overlaps a b = Bound.le a.lower_bound b.upper_bound && Bound.le b.lower_bound a.upper_bound

unfoldable pub strictly_during : Interval → Interval → Bool
strictly_during a b = Bound.lt b.lower_bound a.lower_bound && Bound.lt a.upper_bound b.upper_bound

unfoldable pub during : Interval → Interval → Bool
during a b = Bound.le b.lower_bound a.lower_bound && Bound.le a.upper_bound b.upper_bound

unfoldable pub strictly_contains : Interval → Interval → Bool
unfolding strictly_during
strictly_contains a b = strictly_during b a

unfoldable pub contains : Interval → Interval → Bool
unfolding during
contains a b = during b a

unfoldable pub starts : Interval → Interval → Bool
starts a b = Bound.eq a.lower_bound b.lower_bound

unfoldable pub finishes : Interval → Interval → Bool
finishes a b = Bound.eq a.upper_bound b.upper_bound

wrap : Result Interval → Result (Option Interval)
wrap r = r >>= λ i. ok (some i)

-- `Interval.intersect`
unfoldable pub intersect : Interval → Interval → Result (Option Interval)
unfolding overlaps wrap
intersect a b =
    if not (overlaps a b)
    then ok none
    else wrap
        (interval (Bound.max a.lower_bound b.lower_bound) (Bound.min a.upper_bound b.upper_bound))

-- `Interval.join`
unfoldable pub join : Interval → Interval → Result (Option Interval)
unfolding overlaps meets wrap
join a b =
    if not (overlaps a b) && not (meets a b)
    then ok none
    else wrap
        (interval (Bound.min a.lower_bound b.lower_bound) (Bound.max a.upper_bound b.upper_bound))

-- `Interval.closure`
unfoldable pub closure : Interval → Result Interval
unfolding interval
closure i = interval (bound i.lower_bound.value true) (bound i.upper_bound.value true)

-- One bound of `Interval.map`
map_bound : (ℕ → ℕ) → Bound → Bound
map_bound f b = elim b.value [ fin x ↦ bound (fin (f x)) b.closed | _ ↦ b ]

-- `Interval.map`: both new bounds are made from the lower bound, as in the source.
unfoldable pub map_interval : (ℕ → ℕ) → Interval → Result Interval
unfolding interval map_bound
map_interval f i = interval (map_bound f i.lower_bound) (map_bound f i.lower_bound)
