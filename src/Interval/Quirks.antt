-- ===== src/Interval/Quirks.antt =====
-- Where operations on intervals do not do what their documentation says.
use pycroft.Base.{
  ℕ, ◌≡◌, ◌≢◌, ◌⊎◌, refl, ap, ◌∙◌, inl, inr, Bool, true, false, ◌&&◌, ◌==◌, some, ok, err,
  value_error, arith, ◌<◌, Bool-cases, ==_iff,
}
use Prim.Native.Nat.{min}
use pycroft.Interval.Bound
use pycroft.Interval.Bound.{Value, fin, neg_inf, pos_inf, Bound, bound}
use pycroft.Interval.Core.{Interval, interval, contains_point, intersect, map_interval}

-- an interval with the same bound twice
abbrev pub twice : Bool → ℕ → Interval
twice c l = record {
  lower_bound = record { value = fin l; closed = c };
  upper_bound = record { value = fin l; closed = c };
}

-- an interval from a value on
abbrev pub starts_at : Bool → ℕ → Bound → Interval
starts_at c l upper = record {
  lower_bound = record { value = fin l; closed = c };
  upper_bound = upper;
}

identity_lost :
    (l : ℕ) (c : Bool) (upper : Bound)
    → (upper.value ≡ fin l)
      ⊎ (map_interval (λ x. x) (starts_at c l upper) ≢ ok (starts_at c l upper))
unfolding map_interval bound Bound.lt
identity_lost l c upper = go upper.value refl
  where
    go :
        (v : Value)
        → upper.value ≡ v
        → (upper.value ≡ fin l)
          ⊎ (map_interval (λ x. x) (starts_at c l upper) ≢ ok (starts_at c l upper))
    go neg_inf e = inr (λ h. ground (arith, h, e))
    go pos_inf e = inr (λ h. ground (arith, h, e))
    go (fin u) e = elim (Bool-cases (u == l)) [
      | inl same ↦ inl (e ∙ ap fin ((==_iff u l).0 same))
      | inr other ↦ inr (λ h. ground (arith, h, e))
    ]

-- `map` makes both new bounds from the lower one: of an interval with a lower value `l` and any upper
-- bound, the result has no instant but the image of `l`, and not this one either where the interval is open
-- below. Thus the identity changes every interval whose two values differ. An interval that is unbounded
-- below is not mapped to one at all: `map` raises.
pub map_interval_collapses :
    (f : ℕ → ℕ) (l : ℕ) (c : Bool) (upper : Bound)
    → (map_interval f (starts_at c l upper) ≡ ok (twice c (f l)))
      × ((x : ℕ) → contains_point (twice c (f l)) x ≡ (c && x == f l))
      × ((upper.value ≡ fin l)
          ⊎ (map_interval (λ x. x) (starts_at c l upper) ≢ ok (starts_at c l upper)))
      × (map_interval f (record {
        lower_bound = record { value = neg_inf; closed = false };
        upper_bound = upper;
      })
          ≡ err value_error)
unfolding map_interval interval bound Bound.lt Bound.le contains_point
map_interval_collapses f l c upper =
    (ground arith, (λ x. ground arith), identity_lost l c upper, refl)

abbrev pub finite : Bool → ℕ → ℕ → Interval
finite c l u = record {
  lower_bound = record { value = fin l; closed = c };
  upper_bound = record { value = fin u; closed = false };
}

-- `intersect` keeps a closed lower bound of the first interval where the second one is open: `[l, u)`
-- and `(l, v)` give an interval with `l` in it, which `(l, v)` does not contain. The other way round
-- `l` is left out.
pub intersect_keeps_closed :
    (l u v : ℕ)
    → l < u
    → l < v
    → (intersect (finite true l u) (finite false l v) ≡ ok (some (finite true l (min u v))))
      × (contains_point (finite true l (min u v)) l ≡ true)
      × (contains_point (finite false l v) l ≡ false)
      × (intersect (finite false l v) (finite true l u) ≡ ok (some (finite false l (min v u))))
unfolding intersect interval contains_point bound Bound.le Bound.lt Bound.max Bound.min
intersect_keeps_closed l u v p q = (ground arith, ground arith, ground arith, ground arith)
