-- ===== src/Interval/Sets/Sources.antt =====
-- `_mangle_argument`: the arguments of a set operation, put into normal form.
use pycroft.Base.{ℕ, ◌≡◌, refl, Bool, false, List, [], ◌∷◌, ok, arith, ap, ◌∙◌, Result}
use pycroft.Interval.Bound.{neg_inf}
use pycroft.Interval.Core.{Interval}
use pycroft.Interval.Sets.{
  Source, nothing, from_set, from_interval, from_iterable, other, drop_empty, join_loop, join_all,
  sorted, mangle_argument,
}
use pycroft.Interval.Sets.Covers.{
  covers, AllOrdered, covers-drop_empty, drop_empty-AllOrdered, covers-sorted, join_loop-covers,
}
use pycroft.Interval.Sets.Normal.{
  IsNormal, NormalFrom-AllOrdered, sorted_normal, drop_empty-NormalFrom, join_loop_normal,
}
use pycroft.Interval.Sets.Proper.{
  IsProper, AllProper, Ascending, sorted-Ascending, sorted-AllProper, join_all_proper,
}
use pycroft.Interval.Spans.{spans, IsOrdered}

-- The instants that an argument of a set operation stands for.
unfoldable pub source_covers : Source → ℕ → Bool
source_covers nothing x = false
source_covers (from_set s) x = covers s x
source_covers (from_interval i) x = spans i x
source_covers (from_iterable is) x = covers is x
source_covers other x = false

-- An argument that a set operation accepts: a set in normal form, or intervals whose lower bounds
-- are closed.
abbrev pub IsSource : Source → Type 0
IsSource nothing = Unit
IsSource (from_set s) = IsNormal s
IsSource (from_interval i) = IsOrdered i
IsSource (from_iterable is) = AllProper is
IsSource other = ⊥

-- The same with closed lower bounds throughout.
abbrev pub IsProperSource : Source → Type 0
IsProperSource nothing = Unit
IsProperSource (from_set s) = IsNormal s × AllProper s
IsProperSource (from_interval i) = IsProper i
IsProperSource (from_iterable is) = AllProper is
IsProperSource other = ⊥

AllProper-AllOrdered : (is : List Interval) → AllProper is → AllOrdered is
AllProper-AllOrdered [] h = tt
AllProper-AllOrdered (i ∷ is) h = (h.0.0, AllProper-AllOrdered is h.1)

join_all-covers :
    (is : List Interval)
    → AllOrdered is
    → (r : List Interval) × (join_all is ≡ ok r) × ((x : ℕ) → covers r x ≡ covers (drop_empty is) x)
unfolding join_all covers
join_all-covers is h = go (drop_empty is) (drop_empty-AllOrdered is h)
  where
    go :
        (js : List Interval)
        → AllOrdered js
        → (r : List Interval) × ((elim js [ [] ↦ ok [] | top ∷ rest ↦ join_loop top rest ]) ≡ ok r)
          × ((x : ℕ) → covers r x ≡ covers js x)
    go [] q = ([], refl, λ x. refl)
    go (top ∷ rest) q = let (r, e, _, c) = join_loop-covers top rest q.0 q.1 in (r, e, c)

-- Two results of one call.
same_result : {A : Type 0} (m : Result A) {a b : A} → m ≡ ok a → m ≡ ok b → a ≡ b
same_result m p q = cc

-- `_join` of sorted proper intervals.
pub join_all_total :
    (is : List Interval)
    → AllProper is
    → Ascending neg_inf is
    → (r : List Interval) × (join_all is ≡ ok r)
      × IsNormal r
      × AllProper r
      × ((x : ℕ) → covers r x ≡ covers is x)
join_all_total is p a =
    let (r, e, n, q) = join_all_proper is p a in
    let (r', e', c) = join_all-covers is (AllProper-AllOrdered is p) in
    (
      r,
      e,
      n,
      q,
      λ x. ap (λ k. covers k x) (same_result (join_all is) e e') ∙ c x ∙ covers-drop_empty is x,
    )

-- `_join` of a set in normal form.
join_all-IsNormal :
    (is : List Interval)
    → IsNormal is
    → (r : List Interval) × (join_all is ≡ ok r) × IsNormal r × ((x : ℕ) → covers r x ≡ covers is x)
unfolding join_all
join_all-IsNormal is n =
    let (r, e, m) = go (drop_empty is) (drop_empty-NormalFrom neg_inf is n) in
    let (r', e', c) = join_all-covers is (NormalFrom-AllOrdered neg_inf is n) in
    (
      r,
      e,
      m,
      λ x. ap (λ k. covers k x) (same_result (join_all is) e e') ∙ c x ∙ covers-drop_empty is x,
    )
  where
    go :
        (js : List Interval)
        → IsNormal js
        → (r : List Interval) × ((elim js [ [] ↦ ok [] | top ∷ rest ↦ join_loop top rest ]) ≡ ok r)
          × IsNormal r
    go [] q = ([], refl, tt)
    go (top ∷ rest) q = join_loop_normal neg_inf top rest q.0 q.1 q.2

-- `_mangle_argument` puts every argument with closed lower bounds into normal form, and covers what
-- the argument does.
pub mangle_proper :
    (source : Source)
    → IsProperSource source
    → (o : List Interval) × (mangle_argument source ≡ ok o)
      × IsNormal o
      × AllProper o
      × ((x : ℕ) → covers o x ≡ source_covers source x)
unfolding mangle_argument source_covers covers
mangle_proper nothing h = ([], refl, tt, tt, λ x. refl)
mangle_proper (from_set s) h = (s, refl, h.0, h.1, λ x. refl)
mangle_proper (from_interval i) h = (i ∷ [], refl, (refl, h.0, tt), (h, tt), λ x. ground arith)
mangle_proper (from_iterable is) h =
    let (r, e, n, p, c) =
      join_all_total (sorted is) (sorted-AllProper is h) (sorted-Ascending is) in
    (r, e, n, p, λ x. c x ∙ covers-sorted is x)
mangle_proper other h = absurd h

pub mangle_total :
    (source : Source)
    → IsSource source
    → (o : List Interval) × (mangle_argument source ≡ ok o)
      × IsNormal o
      × ((x : ℕ) → covers o x ≡ source_covers source x)
unfolding mangle_argument source_covers covers
mangle_total nothing h = ([], refl, tt, λ x. refl)
mangle_total (from_set s) h = (s, refl, h, λ x. refl)
mangle_total (from_interval i) h = (i ∷ [], refl, (refl, h, tt), λ x. ground arith)
mangle_total (from_iterable is) h =
    let (o, e, n, p, c) = mangle_proper (from_iterable is) h in (o, e, n, c)
mangle_total other h = absurd h

-- The gaps that `_complement` yields, taken as an iterable by `intersect`.
pub mangle-IsNormal :
    (is : List Interval)
    → IsNormal is
    → (o : List Interval) × (mangle_argument (from_iterable is) ≡ ok o)
      × IsNormal o
      × ((x : ℕ) → covers o x ≡ covers is x)
unfolding mangle_argument
mangle-IsNormal is n = rw (sorted_normal neg_inf is n) (join_all-IsNormal is n)
