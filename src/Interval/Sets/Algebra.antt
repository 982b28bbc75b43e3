-- ===== src/Interval/Sets/Algebra.antt =====
-- The methods of `IntervalSet` as operations on sets of instants: none of them raises on sets in
-- normal form, and each one covers exactly the instants that its name promises.
use pycroft.Base.{ℕ, ◌≡◌, not, ◌&&◌, ◌||◌, ok, ap, ◌∙◌}
use pycroft.Interval.Bound.{neg_inf}
use pycroft.Interval.Sets.{
  IntervalSet, Source, chain_ordered, set_union, set_intersect, set_difference,
}
use pycroft.Interval.Sets.Covers.{covers, covers-chain_ordered}
use pycroft.Interval.Sets.Normal.{IsNormal}
use pycroft.Interval.Sets.Proper.{
  AllProper, chain_ordered-Ascending, chain_ordered-AllProper, NormalFrom-Ascending,
}
use pycroft.Interval.Sets.Complement.{complement_total}
use pycroft.Interval.Sets.Intersect.{intersect_all_total}
use pycroft.Interval.Sets.Sources.{
  source_covers, IsSource, IsProperSource, join_all_total, mangle_proper, mangle_total,
  mangle-IsNormal,
}

-- The union of a set in normal form and an argument, both with closed lower bounds, never raises; it
-- is in normal form with closed lower bounds, and covers an instant exactly if one of the two does. An
-- interval covers the instants from its lower value up to and without its upper one.
pub set_union_total :
    (s : IntervalSet) (source : Source)
    → IsNormal s
    → AllProper s
    → IsProperSource source
    → (g : IntervalSet) × (set_union s source ≡ ok g)
      × IsNormal g
      × AllProper g
      × ((x : ℕ) → covers g x ≡ (covers s x || source_covers source x))
unfolding set_union
set_union_total s source n p h =
    let (o, e, m, q, c) = mangle_proper source h in
    let asc =
      chain_ordered-Ascending neg_inf s o (NormalFrom-Ascending neg_inf s n)
        (NormalFrom-Ascending neg_inf o m) in
    let (g, e', n', p', d) =
      join_all_total (chain_ordered s o) (chain_ordered-AllProper s o p q) asc in
    (g, rw e e', n', p', λ x. d x ∙ covers-chain_ordered s o x ∙ ap (λ b. covers s x || b) (c x))

-- The intersection of a set in normal form and an argument (a set in normal form, an interval in
-- order, or an iterable of such with closed lower bounds) never raises; it is in normal form, and
-- covers an instant exactly if both do. An interval covers the instants from its lower value up to and
-- without its upper one.
pub set_intersect_total :
    (s : IntervalSet) (source : Source)
    → IsNormal s
    → IsSource source
    → (g : IntervalSet) × (set_intersect s source ≡ ok g)
      × IsNormal g
      × ((x : ℕ) → covers g x ≡ (covers s x && source_covers source x))
unfolding set_intersect
set_intersect_total s source n h =
    let (o, e, m, c) = mangle_total source h in
    let (g, e', n', d) = intersect_all_total s o n m in
    (g, rw e e', n', λ x. d x ∙ ap (λ b. covers s x && b) (c x))

-- The difference of a set in normal form and an argument (a set in normal form, an interval in
-- order, or an iterable of such with closed lower bounds) never raises; it is in normal form, and
-- covers an instant exactly if the set does and the argument does not. An interval covers the instants
-- from its lower value up to and without its upper one.
pub set_difference_total :
    (s : IntervalSet) (source : Source)
    → IsNormal s
    → IsSource source
    → (g : IntervalSet) × (set_difference s source ≡ ok g)
      × IsNormal g
      × ((x : ℕ) → covers g x ≡ (covers s x && not (source_covers source x)))
unfolding set_difference
set_difference_total s source n h =
    let (o, e, m, c) = mangle_total source h in
    let (gaps, e', m', c') = complement_total o m in
    let (o', e'', m'', c'') = mangle-IsNormal gaps m' in
    let (g, e3, n', d) = intersect_all_total s o' n m'' in
    (g, rw (e, e', e'') e3, n', λ x. d x ∙ ap (λ b. covers s x && b) (c'' x ∙ c' x ∙ ap not (c x)))
