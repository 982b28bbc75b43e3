-- ===== src/Interval/Tests.antt =====
-- Intervals and sets at concrete instants.
use pycroft.Base.{
  ◌==◌, ◌+◌, ◌⊎◌, err, value_error, ℕ, ◌≡◌, ◌≢◌, refl, true, false, not, ◌&&◌, ◌||◌, Option, some,
  List, [], ◌∷◌, ok, arith,
}
use Prim.Native.Nat.{min}
use pycroft.Interval.Bound.{Value, fin, neg_inf, pos_inf, bound}
use pycroft.Interval.Bound
use pycroft.Interval.Core.{
  Interval, contains_point, intersect, meets, map_interval, interval, overlaps, join, is_empty,
  interval_lt,
}
use pycroft.Interval.Points.{from_to, intersect_points, holds}
use pycroft.Interval.Quirks.{map_interval_collapses, twice, intersect_keeps_closed, finite}
use pycroft.Interval.Sets.{
  IntervalSet, from_interval, from_iterable, set_union, set_intersect, set_difference, join_all,
  join_loop, complement,
}
use pycroft.Interval.Sets.Covers.{covers}
use pycroft.Interval.Sets.Normal.{IsNormal}
use pycroft.Interval.Sets.Proper.{AllProper, is_closed_below}
use pycroft.Interval.Sets.Sources.{source_covers}
use pycroft.Interval.Sets.Algebra.{set_union_total, set_intersect_total, set_difference_total}
use pycroft.Interval.Sets.Complement.{complement_total}

abbrev terms : IntervalSet
terms = from_to 1 3 ∷ from_to 5 9 ∷ []

abbrev ray : Interval
ray = record {
  lower_bound = record { value = fin 7; closed = true };
  upper_bound = record { value = pos_inf; closed = false };
}

abbrev open_interval : Interval
open_interval = record {
  lower_bound = record { value = fin 3; closed = false };
  upper_bound = record { value = fin 5; closed = false };
}

terms-AllProper : AllProper terms
unfolding is_closed_below Bound.unbounded
terms-AllProper = ((refl, refl), ((refl, refl), tt))

terms-IsNormal : IsNormal terms
terms-IsNormal = (refl, refl, (refl, refl, tt))

set_union_total_example :
    (g : IntervalSet) × (set_union terms (from_iterable terms) ≡ ok g)
    × IsNormal g
    × AllProper g
    × ((x : ℕ) → covers g x ≡ (covers terms x || source_covers (from_iterable terms) x))
set_union_total_example =
    set_union_total terms (from_iterable terms) terms-IsNormal terms-AllProper terms-AllProper

set_intersect_total_example :
    (g : IntervalSet) × (set_intersect terms (from_interval ray) ≡ ok g)
    × IsNormal g
    × ((x : ℕ) → covers g x ≡ (covers terms x && source_covers (from_interval ray) x))
set_intersect_total_example = set_intersect_total terms (from_interval ray) terms-IsNormal refl

set_difference_total_example :
    (g : IntervalSet) × (set_difference terms (from_interval ray) ≡ ok g)
    × IsNormal g
    × ((x : ℕ) → covers g x ≡ (covers terms x && not (source_covers (from_interval ray) x)))
set_difference_total_example = set_difference_total terms (from_interval ray) terms-IsNormal refl

complement_total_example :
    (g : List Interval) × (complement terms ≡ ok g)
    × IsNormal g
    × ((x : ℕ) → covers g x ≡ not (covers terms x))
complement_total_example = complement_total terms terms-IsNormal

intersect_points_example :
    (o : Option Interval) × (intersect (from_to 1 5) (from_to 3 9) ≡ ok o)
    × ((x : ℕ) → holds o x ≡ (contains_point (from_to 1 5) x && contains_point (from_to 3 9) x))
unfolding Bound.unbounded
intersect_points_example =
    intersect_points (from_to 1 5) (from_to 3 9) refl refl (refl, refl) (refl, refl)

intersect_keeps_closed_example :
    (intersect (finite true 1 5) (finite false 1 7) ≡ ok (some (finite true 1 (min 5 7))))
    × (contains_point (finite true 1 (min 5 7)) 1 ≡ true)
    × (contains_point (finite false 1 7) 1 ≡ false)
    × (intersect (finite false 1 7) (finite true 1 5) ≡ ok (some (finite false 1 (min 7 5))))
intersect_keeps_closed_example = intersect_keeps_closed 1 5 7 (ground arith) (ground arith)

values_differ : fin 1 ≢ fin 5
values_differ = ground arith

map_interval_collapses_example :
    (map_interval (λ x. x + 2) (from_to 1 5) ≡ ok (twice true 3))
    × ((x : ℕ) → contains_point (twice true 3) x ≡ (true && x == 3))
    × (((from_to 1 5).upper_bound.value ≡ fin 1)
        ⊎ (map_interval (λ x. x) (from_to 1 5) ≢ ok (from_to 1 5)))
    × (map_interval
          (λ x. x + 2)
          (record {
            lower_bound = record { value = neg_inf; closed = false };
            upper_bound = (from_to 1 5).upper_bound;
          })
        ≡ err value_error)
map_interval_collapses_example =
    map_interval_collapses (λ x. x + 2) 1 true (from_to 1 5).upper_bound

union_of_terms : set_union terms (from_interval (from_to 3 6)) ≡ ok (from_to 1 9 ∷ [])
unfolding set_union join_all join_loop join interval overlaps meets is_empty interval_lt Bound.le
    Bound.lt Bound.eq Bound.value_eq Bound.min Bound.max
union_of_terms = refl
