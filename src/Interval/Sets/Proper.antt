-- ===== src/Interval/Sets/Proper.antt =====
-- Joining sorted intervals whose lower bounds are closed puts them in normal form.
use pycroft.Base.{
  ◌≡◌, refl, Bool, true, false, ◌||◌, Option, none, some, List, [], ◌∷◌, ok, arith, Bool-cases, inl,
  inr, sym, subst,
}
use pycroft.Interval.Bound
use pycroft.Interval.Bound.{Value, neg_inf, unbounded}
use pycroft.Interval.Core.{Interval, is_empty, interval_lt, join, overlaps}
use pycroft.Interval.Sets.{
  drop_empty, join_loop, join_all, sorted, insert_sorted, chain_ordered, join_step,
}
use pycroft.Interval.Sets.Normal.{
  follows, value_le, value_le_trans, follows_le, Ordered_le, NormalFrom,
}
use pycroft.Interval.Spans.{IsOrdered, Joins, join-spans, hull_of}

-- `[` or an unbounded lower end
unfoldable pub is_closed_below : Interval → Bool
is_closed_below i = unbounded i.lower_bound || i.lower_bound.closed

abbrev pub IsProper : Interval → Type 0
IsProper i = IsOrdered i × (is_closed_below i ≡ true)

abbrev pub AllProper : List Interval → Type 0
AllProper [] = Unit
AllProper (i ∷ is) = IsProper i × AllProper is

-- What `_join` is given: nothing empty.
abbrev AllFull : List Interval → Type 0
AllFull [] = Unit
AllFull (i ∷ is) = (is_empty i ≡ false) × AllFull is

-- Sorted by the value of the lower bound, from `v`.
abbrev pub Ascending : Value → List Interval → Type 0
Ascending v [] = Unit
Ascending v (i ∷ is) = (value_le v i.lower_bound.value ≡ true) × Ascending i.lower_bound.value is

Ascending-weaken :
    (w v : Value) (is : List Interval) → value_le w v ≡ true → Ascending v is → Ascending w is
Ascending-weaken w v [] p h = tt
Ascending-weaken w v (i ∷ is) p h = (value_le_trans w v i.lower_bound.value p h.0, h.1)

pub drop_empty-Ascending :
    (v : Value) (is : List Interval) → Ascending v is → Ascending v (drop_empty is)
unfolding drop_empty
drop_empty-Ascending v [] h = tt
drop_empty-Ascending v (i ∷ is) h = elim (Bool-cases (is_empty i)) [
  | inl e ↦ rw e (
      Ascending-weaken v i.lower_bound.value (drop_empty is) h.0
        (drop_empty-Ascending i.lower_bound.value is h.1))
  | inr e ↦ rw e (h.0, drop_empty-Ascending i.lower_bound.value is h.1)
]

pub drop_empty-AllProper : (is : List Interval) → AllProper is → AllProper (drop_empty is)
unfolding drop_empty
drop_empty-AllProper [] h = h
drop_empty-AllProper (i ∷ is) h = ground (arith, drop_empty-AllProper is h.1)

pub drop_empty-AllFull : (is : List Interval) → AllFull (drop_empty is)
unfolding drop_empty
drop_empty-AllFull [] = tt
drop_empty-AllFull (i ∷ is) = elim (Bool-cases (is_empty i)) [
  | inl e ↦ rw e (drop_empty-AllFull is)
  | inr e ↦ rw e (e, drop_empty-AllFull is)
]

later :
    (i j : Interval)
    → interval_lt j i ≡ true
    → value_le j.lower_bound.value i.lower_bound.value ≡ true
unfolding interval_lt Bound.lt Bound.eq
later i j h = ground arith

earlier :
    (i j : Interval)
    → interval_lt j i ≡ false
    → value_le i.lower_bound.value j.lower_bound.value ≡ true
unfolding interval_lt Bound.lt Bound.eq
earlier i j h = ground arith

insert_sorted-Ascending :
    (v : Value) (i : Interval) (is : List Interval)
    → value_le v i.lower_bound.value ≡ true
    → Ascending v is
    → Ascending v (insert_sorted i is)
unfolding insert_sorted
insert_sorted-Ascending v i [] p h = (p, tt)
insert_sorted-Ascending v i (j ∷ js) p h = elim (Bool-cases (interval_lt j i)) [
  | inl e ↦ rw e (h.0, insert_sorted-Ascending j.lower_bound.value i js (later i j e) h.1)
  | inr e ↦ rw e (p, (earlier i j e, h.1))
]

pub sorted-Ascending : (is : List Interval) → Ascending neg_inf (sorted is)
unfolding sorted
sorted-Ascending [] = tt
sorted-Ascending (i ∷ is) = insert_sorted-Ascending neg_inf i (sorted is) refl (sorted-Ascending is)

insert_sorted-AllProper :
    (i : Interval) (is : List Interval) → IsProper i → AllProper is → AllProper (insert_sorted i is)
unfolding insert_sorted
insert_sorted-AllProper i [] p h = (p, tt)
insert_sorted-AllProper i (j ∷ js) p h = ground (arith, insert_sorted-AllProper i js p h.1)

pub sorted-AllProper : (is : List Interval) → AllProper is → AllProper (sorted is)
unfolding sorted
sorted-AllProper [] h = h
sorted-AllProper (i ∷ is) h = insert_sorted-AllProper i (sorted is) h.0 (sorted-AllProper is h.1)

chain_left :
    (i j : Interval) (is js : List Interval)
    → interval_lt i j ≡ true
    → chain_ordered (i ∷ is) (j ∷ js) ≡ i ∷ chain_ordered is (j ∷ js)
unfolding chain_ordered
chain_left i j is js e = ground arith

chain_right :
    (i j : Interval) (is js : List Interval)
    → interval_lt i j ≡ false
    → chain_ordered (i ∷ is) (j ∷ js) ≡ j ∷ chain_ordered (i ∷ is) js
unfolding chain_ordered
chain_right i j is js e = ground arith

pub chain_ordered-Ascending :
    (v : Value) (is js : List Interval)
    → Ascending v is
    → Ascending v js
    → Ascending v (chain_ordered is js)
unfolding chain_ordered
chain_ordered-Ascending v [] js p q = q
chain_ordered-Ascending v (i ∷ is) [] p q = p
chain_ordered-Ascending v (i ∷ is) (j ∷ js) p q = elim (Bool-cases (interval_lt i j)) [
  | inl e ↦
      rw (chain_left i j is js e)
        (p.0, chain_ordered-Ascending i.lower_bound.value is (j ∷ js) p.1 (later j i e, q.1))
  | inr e ↦
      rw (chain_right i j is js e)
        (q.0, chain_ordered-Ascending j.lower_bound.value (i ∷ is) js (earlier j i e, p.1) q.1)
]

pub chain_ordered-AllProper :
    (is js : List Interval) → AllProper is → AllProper js → AllProper (chain_ordered is js)
unfolding chain_ordered
chain_ordered-AllProper [] js p q = q
chain_ordered-AllProper (i ∷ is) [] p q = p
chain_ordered-AllProper (i ∷ is) (j ∷ js) p q =
    ground
      (arith, chain_ordered-AllProper is (j ∷ js) p.1 q, chain_ordered-AllProper (i ∷ is) js p q.1)

pub NormalFrom-Ascending : (v : Value) (is : List Interval) → NormalFrom v is → Ascending v is
NormalFrom-Ascending v [] h = tt
NormalFrom-Ascending v (i ∷ is) h = (
  follows_le v i.lower_bound.value h.0,
  Ascending-weaken i.lower_bound.value i.upper_bound.value is
      (Ordered_le i.lower_bound.value i.upper_bound.value h.1)
      (NormalFrom-Ascending i.upper_bound.value is h.2),
)

-- Two proper intervals that do not join lie one behind the other.
apart_follows :
    (a b : Interval)
    → IsProper a
    → IsProper b
    → is_empty b ≡ false
    → value_le a.lower_bound.value b.lower_bound.value ≡ true
    → overlaps a b ≡ false
    → follows a.upper_bound.value b.lower_bound.value ≡ true
unfolding is_closed_below is_empty overlaps Bound.le Bound.unbounded Bound.value_eq
apart_follows a b p q r s t = ground arith

hull-IsProper :
    (a b : Interval)
    → IsProper a
    → IsProper b
    → value_le a.lower_bound.value b.lower_bound.value ≡ true
    → IsProper (hull_of a b) × ((hull_of a b).lower_bound.value ≡ a.lower_bound.value)
unfolding is_closed_below Bound.min Bound.max Bound.unbounded
hull-IsProper a b p q s = ground arith

hull_full :
    (a b : Interval)
    → IsProper a
    → IsProper b
    → is_empty a ≡ false
    → is_empty b ≡ false
    → is_empty (hull_of a b) ≡ false
unfolding is_closed_below is_empty Bound.min Bound.max Bound.unbounded Bound.value_eq
hull_full a b p q r s = ground arith

-- What `_join` yields from `top` on: in normal form from `v`, all of it proper.
abbrev pub JoinsProperly : Value → Interval → List Interval → Type 0
JoinsProperly v top is =
    (r : List Interval) × (join_loop top is ≡ ok r) × NormalFrom v r × AllProper r

proper_step :
    (v : Value) (top i : Interval) (is : List Interval) (o : Option Interval)
    → join top i ≡ ok o
    → Joins top i o
    → follows v top.lower_bound.value ≡ true
    → IsProper top
    → is_empty (hull_of top i) ≡ false
    → (overlaps top i ≡ false → JoinsProperly top.upper_bound.value i is)
    → JoinsProperly v (hull_of top i) is
    → JoinsProperly v top (i ∷ is)
unfolding join_loop join_step
proper_step v top i is none e g f p full apart grown =
    let (r, e', n, a) = apart g.0 in (top ∷ r, rw (e, e'), (f, p.0, n), (p, a))
proper_step v top i is (some j) e g f p full apart grown =
    let (r, e', n, a) = subst (λ k. JoinsProperly v k is) (sym g.0) grown in
    (r, rw (e, subst (λ k. is_empty k ≡ false) (sym g.0) full, e'), n, a)

pub join_loop_proper :
    (v : Value) (top : Interval) (is : List Interval)
    → follows v top.lower_bound.value ≡ true
    → IsProper top
    → is_empty top ≡ false
    → AllProper is
    → AllFull is
    → Ascending top.lower_bound.value is
    → JoinsProperly v top is
unfolding join_loop
join_loop_proper v top [] f p z ps zs asc = (top ∷ [], refl, (f, p.0, tt), (p, tt))
join_loop_proper v top (i ∷ is) f p z ps zs asc =
    let (o, e, g) = join-spans top i p.0 ps.0.0 in
    let (h, same) = hull-IsProper top i p ps.0 asc.0 in
    let full = hull_full top i p ps.0 z zs.0 in
    proper_step v top i is o e g f p full
      (λ gap.
        join_loop_proper top.upper_bound.value i is (apart_follows top i p ps.0 zs.0 asc.0 gap) ps.0
          zs.0 ps.1 zs.1 asc.1)
      (join_loop_proper v (hull_of top i) is (subst (λ w. follows v w ≡ true) (sym same) f) h full
        ps.1 zs.1
        (subst (λ w. Ascending w is) (sym same)
          (Ascending-weaken top.lower_bound.value i.lower_bound.value is asc.0 asc.1)))

-- `_join` of sorted proper intervals.
pub join_all_proper :
    (is : List Interval)
    → AllProper is
    → Ascending neg_inf is
    → (r : List Interval) × (join_all is ≡ ok r) × NormalFrom neg_inf r × AllProper r
unfolding join_all
join_all_proper is p asc =
    go (drop_empty is) (drop_empty-AllProper is p) (drop_empty-AllFull is)
      (drop_empty-Ascending neg_inf is asc)
  where
    go :
        (js : List Interval)
        → AllProper js
        → AllFull js
        → Ascending neg_inf js
        → (r : List Interval) × ((elim js [ [] ↦ ok [] | top ∷ rest ↦ join_loop top rest ]) ≡ ok r)
          × NormalFrom neg_inf r
          × AllProper r
    go [] q z a = ([], refl, tt, tt)
    go (top ∷ rest) q z a = join_loop_proper neg_inf top rest refl q.0 z.0 q.1 z.1 a.1
