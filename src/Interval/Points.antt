-- ===== src/Interval/Points.antt =====
-- Intervals that are closed below and open above, the ones that the program mostly builds: here
-- the test `x in i` reads the instants exactly.
use pycroft.Base.{
  ℕ, leb, ltb, ◌≡◌, Bool, true, false, ◌||◌, ◌&&◌, Option, none, some, ok, err, value_error, arith,
  subst, sym, refl, ◌∙◌, if◌then◌else◌,
}
use pycroft.Interval.Bound
use pycroft.Interval.Bound.{fin, bound, unbounded}
use pycroft.Interval.Core.{Interval, contains_point, closedopen, intersect}
use pycroft.Interval.Spans.{spans, IsOrdered, meet_of, IsMeet, intersect-spans, spans_option}

abbrev pub IsClosedOpen : Interval → Type 0
IsClosedOpen i =
    (unbounded i.lower_bound || i.lower_bound.closed ≡ true) × (i.upper_bound.closed ≡ false)

-- On an interval closed below and open above, `x in i` holds exactly from the lower value up to and
-- without the upper one.
pub contains_point-spans :
    (i : Interval) (x : ℕ) → IsOrdered i → IsClosedOpen i → contains_point i x ≡ spans i x
unfolding contains_point bound spans Bound.le Bound.unbounded
contains_point-spans i x p q = ground arith

-- the interval that `closedopen` builds from two values
abbrev pub from_to : ℕ → ℕ → Interval
from_to b e = record {
  lower_bound = record { value = fin b; closed = true };
  upper_bound = record { value = fin e; closed = false };
}

-- `closedopen` succeeds exactly on values in order, and then `x in i` holds exactly for the instants
-- from the first value up to and without the second.
pub closedopen_points :
    (b e x : ℕ)
    → (closedopen (some b) (some e) ≡ (if ltb e b then err value_error else ok (from_to b e)))
      × (contains_point (from_to b e) x ≡ (leb b x && ltb x e))
unfolding closedopen bound contains_point Bound.lt Bound.le
closedopen_points b e x = (ground arith, ground arith)

abbrev pub holds : Option Interval → ℕ → Bool
holds none x = false
holds (some i) x = contains_point i x

meet-IsClosedOpen : (a b : Interval) → IsClosedOpen a → IsClosedOpen b → IsClosedOpen (meet_of a b)
unfolding Bound.max Bound.min Bound.unbounded
meet-IsClosedOpen a b c d = ground arith

-- For two intervals in order, closed below and open above, `intersect` never raises: `x` is in its
-- result exactly if `x` is in both, and where it returns `None` no instant is in both.
pub intersect_points :
    (a b : Interval)
    → IsOrdered a
    → IsOrdered b
    → IsClosedOpen a
    → IsClosedOpen b
    → (o : Option Interval) × (intersect a b ≡ ok o)
      × ((x : ℕ) → holds o x ≡ (contains_point a x && contains_point b x))
intersect_points a b p q c d =
    let (o, e, m, s) = intersect-spans a b p q in
    (o, e, λ x. rw (contains_point-spans a x p c, contains_point-spans b x q d) (go o m x ∙ s x))
  where
    go : (o : Option Interval) → IsMeet a b o → (x : ℕ) → holds o x ≡ spans_option o x
    go none m x = refl
    go (some i) m x =
        contains_point-spans i x m.1
          (subst (λ k. IsClosedOpen k) (sym m.0) (meet-IsClosedOpen a b c d))
