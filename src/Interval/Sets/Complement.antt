-- ===== src/Interval/Sets/Complement.antt =====
-- `_complement` on a set in normal form: the gaps between the intervals, and the rays outside.
use pycroft.Base.{
  ℕ, ◌≡◌, refl, true, false, not, ◌&&◌, List, [], ◌∷◌, ok, arith, Bool-cases, inl, inr,
}
use pycroft.Interval.Bound
use pycroft.Interval.Bound.{neg_inf, pos_inf, bound, invert, unbounded}
use pycroft.Interval.Core.{Interval, unbounded_interval}
use pycroft.Interval.Sets.{complement, complement_tail, complement_head}
use pycroft.Interval.Sets.Covers.{covers}
use pycroft.Interval.Sets.Normal.{
  follows, value_le, NormalFrom, NormalFrom-weaken, IsNormal, covers_before,
}
use pycroft.Interval.Spans.{spans, starts_by, ends_after, IsOrdered, interval-ok}

-- the interval between two bounds, as `_complement` yields it
abbrev gap : Bound.Bound → Bound.Bound → Interval
gap u l = record { lower_bound = u; upper_bound = l }

gap-IsOrdered :
    (a b : Interval)
    → follows a.upper_bound.value b.lower_bound.value ≡ true
    → IsOrdered a
    → IsOrdered b
    → IsOrdered (gap (invert a.upper_bound) (invert b.lower_bound))
      × (follows a.upper_bound.value (invert a.upper_bound).value ≡ true)
      × (value_le (invert b.lower_bound).value b.upper_bound.value ≡ true)
unfolding invert
gap-IsOrdered a b f p q = (ground arith, ground arith, ground arith)

gap-spans :
    (a b : Interval) (x : ℕ)
    → follows a.upper_bound.value b.lower_bound.value ≡ true
    → IsOrdered a
    → IsOrdered b
    → (spans (gap (invert a.upper_bound) (invert b.lower_bound)) x
        ≡ (not (ends_after a.upper_bound.value x) && not (starts_by b.lower_bound.value x)))
      × (starts_by b.lower_bound.value x ≡ true → ends_after a.upper_bound.value x ≡ false)
      × (spans b x ≡ (starts_by b.lower_bound.value x && ends_after b.upper_bound.value x))
      × (ends_after b.upper_bound.value x ≡ false → starts_by b.lower_bound.value x ≡ true)
unfolding invert spans
gap-spans a b x f p q = (ground arith, ground arith, refl, ground arith)

abbrev pub Complements : Interval → List Interval → List Interval → Type 0
Complements last rest g =
    (complement_tail last rest ≡ ok g)
    × NormalFrom last.upper_bound.value g
    × ((x : ℕ) → covers g x ≡ (not (ends_after last.upper_bound.value x) && not (covers rest x)))

abbrev ray : Interval → Interval
ray last = gap (invert last.upper_bound) (bound pos_inf false)

ray_facts :
    (last : Interval) (x : ℕ)
    → IsOrdered last
    → unbounded last.upper_bound ≡ false
    → IsOrdered (ray last)
      × (follows last.upper_bound.value (ray last).lower_bound.value ≡ true)
      × (spans (ray last) x ≡ not (ends_after last.upper_bound.value x))
unfolding invert spans Bound.unbounded
ray_facts last x p e = (ground arith, ground arith, ground arith)

no_ray :
    (last : Interval) (x : ℕ)
    → IsOrdered last
    → unbounded last.upper_bound ≡ true
    → ends_after last.upper_bound.value x ≡ true
unfolding Bound.unbounded
no_ray last x p e = ground arith

tail_last : (last : Interval) → IsOrdered last → (g : List Interval) × Complements last [] g
unfolding complement_tail covers
tail_last last p = elim (Bool-cases (unbounded last.upper_bound)) [
  | inl e ↦ ([], (rw e, tt, λ x. ground (arith, no_ray last x p e)))
  | inr e ↦
      let (o, f, _) = ray_facts last 0 p e in
      (
        ray last ∷ [],
        (
          rw (e, interval-ok (ray last).lower_bound (ray last).upper_bound o),
          (f, o, tt),
          λ x. ground (arith, ray_facts last x p e),
        ),
      )
]

complement_tail_total :
    (last : Interval) (rest : List Interval)
    → IsOrdered last
    → NormalFrom last.upper_bound.value rest
    → (g : List Interval) × Complements last rest g
unfolding complement_tail covers
complement_tail_total last [] p n = tail_last last p
complement_tail_total last (b ∷ rest) p n =
    let (g, (e, m, c)) = complement_tail_total b rest n.1 n.2 in
    let between = gap (invert last.upper_bound) (invert b.lower_bound) in
    let (o, f, f') = gap-IsOrdered last b n.0 p n.1 in
    (
      between ∷ g,
      (
        rw (interval-ok between.lower_bound between.upper_bound o, e),
        (f, o, NormalFrom-weaken between.upper_bound.value b.upper_bound.value g f' m),
        λ x. ground (
          arith,
          gap-spans last b x n.0 p n.1,
          c x,
          covers_before b.upper_bound.value rest x n.2,
        ),
      ),
    )

-- the ray below the first interval
abbrev below : Interval → Interval
below first = gap (bound neg_inf false) (invert first.lower_bound)

below_facts :
    (first : Interval) (x : ℕ)
    → IsOrdered first
    → unbounded first.lower_bound ≡ false
    → IsOrdered (below first)
      × (value_le (below first).upper_bound.value first.upper_bound.value ≡ true)
      × (spans (below first) x ≡ not (starts_by first.lower_bound.value x))
      × (ends_after first.upper_bound.value x ≡ false → starts_by first.lower_bound.value x ≡ true)
unfolding invert spans Bound.unbounded
below_facts first x p e = (ground arith, ground arith, ground arith, ground arith)

nothing_below :
    (first : Interval) (x : ℕ)
    → IsOrdered first
    → unbounded first.lower_bound ≡ true
    → starts_by first.lower_bound.value x ≡ true
unfolding Bound.unbounded
nothing_below first x p e = ground arith

-- On a set in normal form `_complement` never raises; it yields a set in normal form that covers
-- exactly the other instants, an interval covering those from its lower value up to and without its
-- upper one.
pub complement_total :
    (is : List Interval)
    → IsNormal is
    → (g : List Interval) × (complement is ≡ ok g)
      × IsNormal g
      × ((x : ℕ) → covers g x ≡ not (covers is x))
unfolding complement complement_head covers spans
complement_total [] n = (unbounded_interval ∷ [], refl, (refl, refl, tt), λ x. refl)
complement_total (first ∷ rest) n =
    let (g, (e, m, c)) = complement_tail_total first rest n.1 n.2 in
    elim (Bool-cases (unbounded first.lower_bound)) [
      | inl u ↦ (
        g,
        rw (u, e),
        NormalFrom-weaken neg_inf first.upper_bound.value g refl m,
        λ x. ground (
          arith,
          c x,
          nothing_below first x n.1 u,
          covers_before first.upper_bound.value rest x n.2,
        ),
      )
      | inr u ↦
          let (o, f, _, _) = below_facts first 0 n.1 u in
          (
            below first ∷ g,
            rw (u, interval-ok (below first).lower_bound (below first).upper_bound o, e),
            (
              refl,
              o,
              NormalFrom-weaken (below first).upper_bound.value first.upper_bound.value g f m,
            ),
            λ x. ground (
              arith,
              c x,
              below_facts first x n.1 u,
              covers_before first.upper_bound.value rest x n.2,
            ),
          )
    ]
