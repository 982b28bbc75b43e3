-- ===== src/Interval/Spans.antt =====
-- What intervals and interval sets mean: the instants from the lower value, up to and without the
-- upper one. Closedness matters only at the two ends, and is read by `contains_point`.
use pycroft.Base.{
  ℕ, ◌≡◌, Bool, true, false, ◌&&◌, ◌||◌, Option, none, some, ok, leb, ltb, arith, Bool-cases, inl,
  inr, subst, refl,
}
use pycroft.Interval.Bound
use pycroft.Interval.Bound.{Value, neg_inf, pos_inf, fin, Bound}
use pycroft.Interval.Core.{Interval, interval, is_empty, intersect, join, overlaps, meets}

abbrev pub starts_by : Value → ℕ → Bool
starts_by neg_inf x = true
starts_by (fin l) x = leb l x
starts_by pos_inf x = false

abbrev pub ends_after : Value → ℕ → Bool
ends_after neg_inf x = false
ends_after (fin u) x = ltb x u
ends_after pos_inf x = true

unfoldable pub spans : Interval → ℕ → Bool
spans i x = starts_by i.lower_bound.value x && ends_after i.upper_bound.value x

-- The values of two bounds are those of a lower and of an upper bound, in order.
abbrev pub in_order : Value → Value → Bool
in_order neg_inf (fin u) = true
in_order neg_inf pos_inf = true
in_order (fin l) (fin u) = leb l u
in_order (fin l) pos_inf = true
in_order _ _ = false

abbrev pub Ordered : Value → Value → Type 0
Ordered l u = in_order l u ≡ true

abbrev pub IsOrdered : Interval → Type 0
IsOrdered i = Ordered i.lower_bound.value i.upper_bound.value

pub lt-Ordered : (l u : Bound) → Bound.lt u l ≡ false → Ordered l.value u.value
unfolding Bound.lt
lt-Ordered l u h = ground arith

pub Ordered-lt : (l u : Bound) → Ordered l.value u.value → Bound.lt u l ≡ false
unfolding Bound.lt
Ordered-lt l u h = ground arith

-- `Interval.__new__` succeeds exactly on bounds in order.
pub interval-ok :
    (l u : Bound)
    → Ordered l.value u.value
    → interval l u ≡ ok (record { lower_bound = l; upper_bound = u })
unfolding interval
interval-ok l u h = ground (arith, Ordered-lt l u h)

pub interval-IsOrdered : (l u : Bound) {i : Interval} → interval l u ≡ ok i → IsOrdered i
unfolding interval
interval-IsOrdered l u {i} h = elim (Bool-cases (Bound.lt u l)) [
  | inl crossed ↦ absurd (ground arith)
  | inr fine ↦
      subst (λ j. IsOrdered j)
        (let e : record { lower_bound = l; upper_bound = u } ≡ i = ground arith in e)
        (lt-Ordered l u fine)
]

-- The four tests on bounds, as statements about instants.
pub le-disjoint :
    (l u : Bound) (x : ℕ)
    → Bound.le l u ≡ false
    → (starts_by l.value x && ends_after u.value x) ≡ false
unfolding Bound.le
le-disjoint l u x h = ground arith

pub starts_by-max :
    (a b : Bound) (x : ℕ)
    → starts_by (Bound.max a b).value x ≡ (starts_by a.value x && starts_by b.value x)
unfolding Bound.max
starts_by-max a b x = ground arith

pub ends_after-min :
    (a b : Bound) (x : ℕ)
    → ends_after (Bound.min a b).value x ≡ (ends_after a.value x && ends_after b.value x)
unfolding Bound.min
ends_after-min a b x = ground arith

pub starts_by-min :
    (a b : Bound) (x : ℕ)
    → starts_by (Bound.min a b).value x ≡ (starts_by a.value x || starts_by b.value x)
unfolding Bound.min
starts_by-min a b x = ground arith

pub ends_after-max :
    (a b : Bound) (x : ℕ)
    → ends_after (Bound.max a b).value x ≡ (ends_after a.value x || ends_after b.value x)
unfolding Bound.max
ends_after-max a b x = ground arith

pub Ordered-max-min :
    (a b c d : Bound)
    → Ordered a.value c.value
    → Ordered b.value d.value
    → Bound.le a d ≡ true
    → Bound.le b c ≡ true
    → Ordered (Bound.max a b).value (Bound.min c d).value
unfolding Bound.max Bound.min Bound.le
Ordered-max-min a b c d p q r s = ground arith

pub Ordered-min-max :
    (a b c d : Bound)
    → Ordered a.value c.value
    → Ordered b.value d.value
    → Ordered (Bound.min a b).value (Bound.max c d).value
unfolding Bound.max Bound.min
Ordered-min-max a b c d p q = ground arith

-- What an optional interval spans.
abbrev pub spans_option : Option Interval → ℕ → Bool
spans_option none x = false
spans_option (some i) x = spans i x

abbrev pub meet_of : Interval → Interval → Interval
meet_of a b = record {
  lower_bound = Bound.max a.lower_bound b.lower_bound;
  upper_bound = Bound.min a.upper_bound b.upper_bound;
}

abbrev pub hull_of : Interval → Interval → Interval
hull_of a b = record {
  lower_bound = Bound.min a.lower_bound b.lower_bound;
  upper_bound = Bound.max a.upper_bound b.upper_bound;
}

-- An optional interval is the common part of two, in order.
abbrev pub IsMeet : Interval → Interval → Option Interval → Type 0
IsMeet a b none = Unit {0}
IsMeet a b (some i) = (i ≡ meet_of a b) × IsOrdered i

-- Of two intervals `intersect` never raises, and yields what spans the common instants.
pub intersect-spans :
    (a b : Interval)
    → IsOrdered a
    → IsOrdered b
    → (o : Option Interval) × (intersect a b ≡ ok o)
      × IsMeet a b o
      × ((x : ℕ) → spans_option o x ≡ (spans a x && spans b x))
unfolding intersect spans
intersect-spans a b p q = elim (Bool-cases (Bound.le a.lower_bound b.upper_bound)) [
  | inr apart ↦
      (none, ground arith, tt, λ x. ground (arith, le-disjoint a.lower_bound b.upper_bound x apart))
  | inl r ↦ elim (Bool-cases (Bound.le b.lower_bound a.upper_bound)) [
    | inr apart ↦ (
      none,
      ground arith,
      tt,
      λ x. ground (arith, le-disjoint b.lower_bound a.upper_bound x apart),
    )
    | inl s ↦
        let o = Ordered-max-min a.lower_bound b.lower_bound a.upper_bound b.upper_bound p q r s in
        (
          some (meet_of a b),
          ground (arith, interval-ok (meet_of a b).lower_bound (meet_of a b).upper_bound o),
          (refl, o),
          λ x. ground (
            arith,
            starts_by-max a.lower_bound b.lower_bound x,
            ends_after-min a.upper_bound b.upper_bound x,
          ),
        )
  ]
]

-- An empty interval spans nothing.
pub is_empty-spans : (i : Interval) (x : ℕ) → is_empty i ≡ true → spans i x ≡ false
unfolding is_empty spans Bound.value_eq
is_empty-spans i x h = ground arith

-- What `join` makes of two intervals, if anything, is in order and spans what they span.
abbrev pub Joins : Interval → Interval → Option Interval → Type 0
Joins a b none = (overlaps a b ≡ false) × (meets a b ≡ false)
Joins a b (some j) =
    (j ≡ hull_of a b) × IsOrdered j × ((x : ℕ) → spans j x ≡ (spans a x || spans b x))

touching :
    (a b : Interval) (x : ℕ)
    → IsOrdered a
    → IsOrdered b
    → (overlaps a b || meets a b) ≡ true
    → spans (hull_of a b) x ≡ (spans a x || spans b x)
unfolding overlaps meets spans Bound.le Bound.value_eq Bound.min Bound.max
touching a b x p q t = ground arith

pub join-spans :
    (a b : Interval)
    → IsOrdered a
    → IsOrdered b
    → (o : Option Interval) × (join a b ≡ ok o) × Joins a b o
unfolding join
join-spans a b p q = elim (Bool-cases (overlaps a b || meets a b)) [
  | inr apart ↦ (none, ground arith, (ground arith, ground arith))
  | inl t ↦
      let o = Ordered-min-max a.lower_bound b.lower_bound a.upper_bound b.upper_bound p q in
      let h = interval-ok (hull_of a b).lower_bound (hull_of a b).upper_bound o in
      (some (hull_of a b), ground (arith, h), (refl, o, λ x. touching a b x p q t))
]
