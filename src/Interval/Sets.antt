-- ===== src/Interval/Sets.antt =====
-- `IntervalSet` of pycroft/helpers/interval.py and the generators that it is built from. A
-- generator is the list of what it yields, or the exception that it ends by.
pub mod Covers
pub mod Normal
pub mod Proper
pub mod Complement
pub mod Intersect
pub mod Sources
pub mod Algebra
use pycroft.Base.{
  ℕ, ◌+◌, true, false, not, ◌||◌, if◌then◌else◌, Option, none, some, List, [], ◌∷◌, ◌++◌, Result,
  ok, err, type_error, value_error, assertion_error, ◌>>=◌, ◌>>◌, raise_if,
}
use pycroft.Interval.Bound
use pycroft.Interval.Bound.{neg_inf, pos_inf, bound, unbounded, invert}
use pycroft.Interval.Core.{
  Interval, interval, unbounded_interval, is_empty, interval_lt, join, intersect, length_of,
}

-- `_intervals`
abbrev pub IntervalSet : Type 0
IntervalSet = List Interval

-- `filterfalse(attrgetter("empty"), …)`
unfoldable pub drop_empty : List Interval → List Interval
drop_empty [] = []
drop_empty (i ∷ is) = if is_empty i then drop_empty is else i ∷ drop_empty is

-- The loop of `_join`, from the interval `top` that is being grown. The two branches of the test
-- `join is None or join.empty` are the two arms.
unfoldable pub join_step : Option Interval → Interval → Interval → Interval × List Interval
join_step none top i = (i, top ∷ [])
join_step (some j) top i = if is_empty j then (i, top ∷ []) else (j, [])

unfoldable pub join_loop : Interval → List Interval → Result (List Interval)
unfolding join_step
join_loop top [] = ok (top ∷ [])
join_loop top (i ∷ is) = join top i >>= λ j.
    let (top', yielded) = join_step j top i in join_loop top' is >>= λ rest. ok (yielded ++ rest)

-- `_join`
unfoldable pub join_all : List Interval → Result (List Interval)
unfolding drop_empty
join_all is = elim (drop_empty is) [ [] ↦ ok [] | top ∷ rest ↦ join_loop top rest ]

-- `sorted` by `Interval.__lt__`, which holds both ways between two lower bounds of minus infinity: there
-- the order of the result is left open by Python, and this is one of the possible ones. Otherwise the
-- sort is stable.
unfoldable pub insert_sorted : Interval → List Interval → List Interval
insert_sorted i [] = i ∷ []
insert_sorted i (j ∷ js) = if interval_lt j i then j ∷ insert_sorted i js else i ∷ j ∷ js

unfoldable pub sorted : List Interval → List Interval
unfolding insert_sorted
sorted [] = []
sorted (i ∷ is) = insert_sorted i (sorted is)

-- `IntervalSetSource`; `other` is any value of another type.
pub data Source : Type 0 where
  nothing other : Source
  from_set : IntervalSet → Source
  from_interval : Interval → Source
  from_iterable : List Interval → Source

-- `_mangle_argument`
unfoldable pub mangle_argument : Source → Result (List Interval)
unfolding join_all sorted
mangle_argument nothing = ok []
mangle_argument (from_set s) = ok s
mangle_argument (from_interval i) = ok (i ∷ [])
mangle_argument (from_iterable is) = join_all (sorted is)
mangle_argument other = err type_error

-- `_chain_ordered`
unfoldable pub chain_ordered : List Interval → List Interval → List Interval
chain_ordered [] right = right
chain_ordered (a ∷ left) [] = a ∷ left
chain_ordered (a ∷ left) (b ∷ right) = elim (interval_lt a b) [
  | true ↦ a ∷ chain_ordered left (b ∷ right)
  | false ↦ b ∷ chain_ordered (a ∷ left) right
]

-- `_complement` after its first interval `last`: the gaps between neighbours, then the ray above.
unfoldable pub complement_tail : Interval → List Interval → Result (List Interval)
complement_tail last [] =
    if not (unbounded last.upper_bound)
    then (do ray ← interval (invert last.upper_bound) (bound pos_inf false); ok (ray ∷ []))
    else ok []
complement_tail current (next ∷ rest) = do
  gap ← interval (invert current.upper_bound) (invert next.lower_bound)
  gaps ← complement_tail next rest
  ok (gap ∷ gaps)

-- the ray below the first interval
unfoldable pub complement_head : Interval → Result (List Interval)
complement_head first =
    if not (unbounded first.lower_bound)
    then (do ray ← interval (bound neg_inf false) (invert first.lower_bound); ok (ray ∷ []))
    else ok []

-- `_complement`
unfoldable pub complement : List Interval → Result (List Interval)
unfolding complement_tail complement_head
complement [] = ok (unbounded_interval ∷ [])
complement (first ∷ rest) = do
  head ← complement_head first
  tail ← complement_tail first rest
  ok (head ++ tail)

-- `if intersect is not None and not intersect.empty: yield intersect`
unfoldable pub yield_nonempty : Option Interval → List Interval
yield_nonempty none = []
yield_nonempty (some i) = if is_empty i then [] else i ∷ []

-- `_intersect`: one of the two iterators advances in each round.
unfoldable pub intersect_all : List Interval → List Interval → Result (List Interval)
unfolding yield_nonempty
intersect_all [] right = ok []
intersect_all (a ∷ left) [] = ok []
intersect_all (a ∷ left) (b ∷ right) = intersect a b >>= λ i.
    (elim (Bound.lt a.upper_bound b.upper_bound) [
      | true ↦ intersect_all left (b ∷ right)
      | false ↦ intersect_all (a ∷ left) right
    ])
    >>= λ rest. ok (yield_nonempty i ++ rest)

-- The methods of `IntervalSet`
unfoldable pub set_of : Source → Result IntervalSet
unfolding mangle_argument
set_of intervals = mangle_argument intervals

unfoldable pub set_union : IntervalSet → Source → Result IntervalSet
unfolding mangle_argument chain_ordered join_all
set_union s source = mangle_argument source >>= λ o. join_all (chain_ordered s o)

unfoldable pub set_intersect : IntervalSet → Source → Result IntervalSet
unfolding mangle_argument intersect_all
set_intersect s source = mangle_argument source >>= λ o. intersect_all s o

-- The complement is a generator, which `intersect` takes as an iterable: it is sorted and joined.
unfoldable pub set_difference : IntervalSet → Source → Result IntervalSet
unfolding mangle_argument complement set_intersect
set_difference s source = do
  o ← mangle_argument source
  gaps ← complement o
  set_intersect s (from_iterable gaps)

add_lengths : Option ℕ → Option ℕ → Option ℕ
add_lengths (some a) (some b) = some (a + b)
add_lengths _ _ = none

reduce_lengths : Option ℕ → List Interval → Option ℕ
reduce_lengths acc [] = acc
reduce_lengths acc (i ∷ is) = reduce_lengths (add_lengths acc (length_of i)) is

-- `IntervalSet.length`: `reduce` with no start value raises on an empty set.
unfoldable pub set_length : IntervalSet → Result (Option ℕ)
unfolding add_lengths reduce_lengths
set_length [] = err type_error
set_length (i ∷ is) = ok (reduce_lengths (length_of i) is)

-- `Interval.__sub__`
unfoldable pub subtract : Interval → Interval → Result Interval
unfolding set_difference mangle_argument
subtract a b = do
  raise_if (not (unbounded b.upper_bound || unbounded b.lower_bound)) value_error
  s ← mangle_argument (from_iterable (a ∷ []))
  d ← set_difference s (from_interval b)
  elim d [ [] ↦ err assertion_error | i ∷ is ↦ elim is [ [] ↦ ok i | _ ∷ _ ↦ err assertion_error ] ]
