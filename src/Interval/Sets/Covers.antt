-- ===== src/Interval/Sets/Covers.antt =====
-- The instants that a list of intervals covers, under the steps that put one list into another:
-- dropping the empty ones, sorting, merging and joining.
use pycroft.Base.{
  ℕ, ◌≡◌, refl, Bool, false, ◌||◌, Option, none, some, List, [], ◌∷◌, ◌++◌, ok, arith, Bool-cases,
  inl, inr,
}
use pycroft.Interval.Core.{Interval, is_empty}
use pycroft.Interval.Sets.{drop_empty, join_loop, sorted, insert_sorted, chain_ordered, join_step}
use pycroft.Interval.Spans.{spans, IsOrdered, is_empty-spans, Joins, join-spans}

unfoldable pub covers : List Interval → ℕ → Bool
covers [] x = false
covers (i ∷ is) x = spans i x || covers is x

abbrev pub AllOrdered : List Interval → Type 0
AllOrdered [] = Unit
AllOrdered (i ∷ is) = IsOrdered i × AllOrdered is

pub covers-append :
    (is js : List Interval) (x : ℕ) → covers (is ++ js) x ≡ (covers is x || covers js x)
unfolding covers
covers-append [] js x = refl
covers-append (i ∷ is) js x = ground (arith, covers-append is js x)

pub covers-drop_empty : (is : List Interval) (x : ℕ) → covers (drop_empty is) x ≡ covers is x
unfolding covers drop_empty
covers-drop_empty [] x = refl
covers-drop_empty (i ∷ is) x = ground (arith, covers-drop_empty is x, is_empty-spans i x)

pub drop_empty-AllOrdered : (is : List Interval) → AllOrdered is → AllOrdered (drop_empty is)
unfolding drop_empty
drop_empty-AllOrdered [] h = h
drop_empty-AllOrdered (i ∷ is) h = ground (arith, drop_empty-AllOrdered is h.1)

covers-insert_sorted :
    (i : Interval) (is : List Interval) (x : ℕ)
    → covers (insert_sorted i is) x ≡ (spans i x || covers is x)
unfolding covers insert_sorted
covers-insert_sorted i [] x = refl
covers-insert_sorted i (j ∷ js) x = ground (arith, covers-insert_sorted i js x)

pub covers-sorted : (is : List Interval) (x : ℕ) → covers (sorted is) x ≡ covers is x
unfolding covers sorted
covers-sorted [] x = refl
covers-sorted (i ∷ is) x = ground (arith, covers-insert_sorted i (sorted is) x, covers-sorted is x)

insert_sorted-AllOrdered :
    (i : Interval) (is : List Interval)
    → IsOrdered i
    → AllOrdered is
    → AllOrdered (insert_sorted i is)
unfolding insert_sorted
insert_sorted-AllOrdered i [] p h = (p, tt)
insert_sorted-AllOrdered i (j ∷ js) p h = ground (arith, insert_sorted-AllOrdered i js p h.1)

pub sorted-AllOrdered : (is : List Interval) → AllOrdered is → AllOrdered (sorted is)
unfolding sorted
sorted-AllOrdered [] h = h
sorted-AllOrdered (i ∷ is) h = insert_sorted-AllOrdered i (sorted is) h.0 (sorted-AllOrdered is h.1)

pub covers-chain_ordered :
    (is js : List Interval) (x : ℕ) → covers (chain_ordered is js) x ≡ (covers is x || covers js x)
unfolding covers chain_ordered
covers-chain_ordered [] js x = refl
covers-chain_ordered (i ∷ is) [] x = ground arith
covers-chain_ordered (i ∷ is) (j ∷ js) x =
    ground (arith, covers-chain_ordered is (j ∷ js) x, covers-chain_ordered (i ∷ is) js x)

pub chain_ordered-AllOrdered :
    (is js : List Interval) → AllOrdered is → AllOrdered js → AllOrdered (chain_ordered is js)
unfolding chain_ordered
chain_ordered-AllOrdered [] js p q = q
chain_ordered-AllOrdered (i ∷ is) [] p q = p
chain_ordered-AllOrdered (i ∷ is) (j ∷ js) p q =
    ground (
      arith,
      chain_ordered-AllOrdered is (j ∷ js) p.1 q,
      chain_ordered-AllOrdered (i ∷ is) js p q.1,
    )

-- One round of `_join`: what is yielded and what is kept as `top` cover both intervals.
join_step-covers :
    (o : Option Interval) (top i : Interval)
    → IsOrdered top
    → IsOrdered i
    → Joins top i o
    → let (top', yielded) = join_step o top i in
      IsOrdered top'
      × AllOrdered yielded
      × ((x : ℕ) → (covers yielded x || spans top' x) ≡ (spans top x || spans i x))
unfolding join_step covers
join_step-covers none top i p q h = (q, (p, tt), λ x. ground arith)
join_step-covers (some j) top i p q h = elim (Bool-cases (is_empty j)) [
  | inl e ↦ rw e (q, (p, tt), λ x. ground arith)
  | inr e ↦ rw e (h.1, tt, λ x. ground (arith, h.2 x))
]

AllOrdered-append : (is js : List Interval) → AllOrdered is → AllOrdered js → AllOrdered (is ++ js)
AllOrdered-append [] js p q = q
AllOrdered-append (i ∷ is) js p q = (p.0, AllOrdered-append is js p.1 q)

pub join_loop-covers :
    (top : Interval) (is : List Interval)
    → IsOrdered top
    → AllOrdered is
    → (r : List Interval) × (join_loop top is ≡ ok r)
      × AllOrdered r
      × ((x : ℕ) → covers r x ≡ (spans top x || covers is x))
unfolding join_loop covers
join_loop-covers top [] p h = (top ∷ [], refl, (p, tt), λ x. refl)
join_loop-covers top (i ∷ is) p h =
    let (o, e, g) = join-spans top i p h.0 in
    let (p', ys, c) = join_step-covers o top i p h.0 g in
    let top' = (join_step o top i).0 in
    let yielded = (join_step o top i).1 in
    let (r, e', rs, d) = join_loop-covers top' is p' h.1 in
    (
      yielded ++ r,
      rw e (rw e'),
      AllOrdered-append yielded r ys rs,
      λ x. ground (arith, covers-append yielded r x, c x, d x),
    )
