-- ===== src/Interval/Sets/Normal.antt =====
-- The normal form of an interval set, ascending and without overlaps, and the steps that keep or
-- establish it.
use pycroft.Base.{
  ℕ, ◌≡◌, refl, Bool, true, false, leb, Option, none, some, List, [], ◌∷◌, ok, arith, Bool-cases,
  inl, inr, ap, sym, ◌∙◌, subst,
}
use pycroft.Interval.Bound
use pycroft.Interval.Bound.{Value, neg_inf, pos_inf, fin}
use pycroft.Interval.Core.{Interval, is_empty, interval_lt, join}
use pycroft.Interval.Sets.{drop_empty, join_loop, sorted, insert_sorted, join_step}
use pycroft.Interval.Sets.Covers.{covers, AllOrdered}
use pycroft.Interval.Spans.{
  spans, ends_after, IsOrdered, in_order, Joins, join-spans, hull_of, Ordered-min-max,
}

-- Whether an interval that begins at the second value may come after an end at the first.
abbrev pub follows : Value → Value → Bool
follows neg_inf l = true
follows (fin u) (fin l) = leb u l
follows _ _ = false

abbrev pub value_le : Value → Value → Bool
value_le neg_inf v = true
value_le (fin x) (fin y) = leb x y
value_le (fin x) pos_inf = true
value_le pos_inf pos_inf = true
value_le _ _ = false

-- The intervals are in order, each from the end of the one before, the first from `v`.
abbrev pub NormalFrom : Value → List Interval → Type 0
NormalFrom v [] = Unit
NormalFrom v (i ∷ is) =
    (follows v i.lower_bound.value ≡ true) × IsOrdered i × NormalFrom i.upper_bound.value is

-- The invariant of `IntervalSet._intervals`: ascending, pairwise without a common instant.
abbrev pub IsNormal : List Interval → Type 0
IsNormal is = NormalFrom neg_inf is

pub NormalFrom-AllOrdered : (v : Value) (is : List Interval) → NormalFrom v is → AllOrdered is
NormalFrom-AllOrdered v [] h = tt
NormalFrom-AllOrdered v (i ∷ is) h = (h.1, NormalFrom-AllOrdered i.upper_bound.value is h.2)

follows_weaken : (w v l : Value) → value_le w v ≡ true → follows v l ≡ true → follows w l ≡ true
follows_weaken w v l p q = ground arith

pub follows_le : (v l : Value) → follows v l ≡ true → value_le v l ≡ true
follows_le v l h = ground arith

pub Ordered_le : (l u : Value) → in_order l u ≡ true → value_le l u ≡ true
Ordered_le l u h = ground arith

pub value_le_trans :
    (u v w : Value) → value_le u v ≡ true → value_le v w ≡ true → value_le u w ≡ true
value_le_trans u v w p q = ground arith

pub NormalFrom-weaken :
    (w v : Value) (is : List Interval) → value_le w v ≡ true → NormalFrom v is → NormalFrom w is
NormalFrom-weaken w v [] p h = tt
NormalFrom-weaken w v (i ∷ is) p h = (follows_weaken w v i.lower_bound.value p h.0, h.1, h.2)

-- The tail of a normal list is normal from where the list is.
pub NormalFrom-tail :
    (v : Value) (i : Interval) (is : List Interval) → NormalFrom v (i ∷ is) → NormalFrom v is
NormalFrom-tail v i is h =
    NormalFrom-weaken v i.upper_bound.value is
      (value_le_trans v i.lower_bound.value i.upper_bound.value
        (follows_le v i.lower_bound.value h.0)
        (Ordered_le i.lower_bound.value i.upper_bound.value h.1))
      h.2

follows_ends :
    (v : Value) (i : Interval) (x : ℕ)
    → follows v i.lower_bound.value ≡ true
    → ends_after v x ≡ true
    → spans i x ≡ false
unfolding spans
follows_ends v i x p q = ground arith

-- Nothing before the end that a normal list starts from is covered by it.
pub covers_before :
    (v : Value) (is : List Interval) (x : ℕ)
    → NormalFrom v is
    → ends_after v x ≡ true
    → covers is x ≡ false
unfolding covers
covers_before v [] x h e = refl
covers_before v (i ∷ is) x h e =
    ground (arith, follows_ends v i x h.0 e, covers_before v is x (NormalFrom-tail v i is h) e)

insert_first :
    (i j : Interval)
    → IsOrdered i
    → IsOrdered j
    → follows i.upper_bound.value j.lower_bound.value ≡ true
    → interval_lt j i ≡ false
unfolding interval_lt Bound.lt Bound.eq
insert_first i j p q h = ground arith

insert_sorted_normal :
    (i : Interval) (is : List Interval)
    → IsOrdered i
    → NormalFrom i.upper_bound.value is
    → insert_sorted i is ≡ i ∷ is
unfolding insert_sorted
insert_sorted_normal i [] p h = refl
insert_sorted_normal i (j ∷ js) p h = rw (insert_first i j p h.1 h.0)

-- Sorting leaves a normal list as it is.
pub sorted_normal : (v : Value) (is : List Interval) → NormalFrom v is → sorted is ≡ is
unfolding sorted
sorted_normal v [] h = refl
sorted_normal v (i ∷ is) h =
    ap (insert_sorted i) (sorted_normal i.upper_bound.value is h.2)
    ∙ insert_sorted_normal i is h.1 h.2

pub drop_empty-NormalFrom :
    (v : Value) (is : List Interval) → NormalFrom v is → NormalFrom v (drop_empty is)
unfolding drop_empty
drop_empty-NormalFrom v [] h = tt
drop_empty-NormalFrom v (i ∷ is) h = elim (Bool-cases (is_empty i)) [
  | inl e ↦ rw e (drop_empty-NormalFrom v is (NormalFrom-tail v i is h))
  | inr e ↦ rw e (h.0, h.1, drop_empty-NormalFrom i.upper_bound.value is h.2)
]

-- Joining a normal list keeps it normal.
abbrev pub JoinsNormally : Value → Interval → List Interval → Type 0
JoinsNormally v top is = (r : List Interval) × (join_loop top is ≡ ok r) × NormalFrom v r

hull_after :
    (v : Value) (a b : Interval)
    → follows v a.lower_bound.value ≡ true
    → IsOrdered a
    → IsOrdered b
    → follows a.upper_bound.value b.lower_bound.value ≡ true
    → (follows v (hull_of a b).lower_bound.value ≡ true)
      × ((hull_of a b).upper_bound.value ≡ b.upper_bound.value)
unfolding Bound.min Bound.max
hull_after v a b f p q g = (ground arith, ground arith)

pub normal_step :
    (v : Value) (top i : Interval) (is : List Interval) (o : Option Interval)
    → join top i ≡ ok o
    → Joins top i o
    → follows v top.lower_bound.value ≡ true
    → IsOrdered top
    → JoinsNormally top.upper_bound.value i is
    → JoinsNormally v (hull_of top i) is
    → JoinsNormally v top (i ∷ is)
unfolding join_loop join_step
normal_step v top i is none e g f p apart grown =
    let (r, e', n) = apart in (top ∷ r, rw (e, e'), (f, p, n))
normal_step v top i is (some j) e g f p apart grown = elim (Bool-cases (is_empty j)) [
  | inl z ↦ let (r, e', n) = apart in (top ∷ r, rw (e, z, e'), (f, p, n))
  | inr z ↦
      let (r, e', n) = subst (λ k. JoinsNormally v k is) (sym g.0) grown in (r, rw (e, z, e'), n)
]

pub join_loop_normal :
    (v : Value) (top : Interval) (is : List Interval)
    → follows v top.lower_bound.value ≡ true
    → IsOrdered top
    → NormalFrom top.upper_bound.value is
    → JoinsNormally v top is
unfolding join_loop
join_loop_normal v top [] f p n = (top ∷ [], refl, (f, p, tt))
join_loop_normal v top (i ∷ is) f p n =
    let (o, e, g) = join-spans top i p n.1 in
    let (f', u) = hull_after v top i f p n.1 n.0 in
    normal_step v top i is o e g f p (join_loop_normal top.upper_bound.value i is n.0 n.1 n.2) (
      join_loop_normal v (hull_of top i) is f'
        (Ordered-min-max top.lower_bound i.lower_bound top.upper_bound i.upper_bound p n.1)
        (subst (λ w. NormalFrom w is) (sym u) n.2))
