-- ===== src/Interval/Sets/Intersect.antt =====
-- `_intersect` on two sets in normal form: the loop over two iterators misses no common instant.
use pycroft.Base.{
  ℕ, ◌≡◌, refl, true, false, ◌&&◌, Option, none, some, List, [], ◌∷◌, ◌++◌, ok, arith, Bool-cases,
  inl, inr, ◌⊎◌, ◌>>=◌, subst, sym,
}
use pycroft.Interval.Bound
use pycroft.Interval.Bound.{Value, neg_inf}
use pycroft.Interval.Core.{Interval, is_empty, intersect}
use pycroft.Interval.Sets.{intersect_all, yield_nonempty}
use pycroft.Interval.Sets.Covers.{covers, covers-append}
use pycroft.Interval.Sets.Normal.{follows, NormalFrom, NormalFrom-tail, IsNormal, covers_before}
use pycroft.Interval.Spans.{
  spans, spans_option, ends_after, IsOrdered, IsMeet, intersect-spans, is_empty-spans, meet_of,
}

covers-yield_nonempty :
    (o : Option Interval) (x : ℕ) → covers (yield_nonempty o) x ≡ spans_option o x
unfolding covers yield_nonempty
covers-yield_nonempty none x = refl
covers-yield_nonempty (some i) x = ground (arith, is_empty-spans i x)

-- The interval that ends first lies before all that follows the other.
end_before :
    (a b : Interval) (x : ℕ)
    → Bound.lt a.upper_bound b.upper_bound ≡ true
    → spans a x ≡ true
    → ends_after b.upper_bound.value x ≡ true
unfolding spans Bound.lt
end_before a b x e h = ground arith

end_within :
    (a b : Interval) (x : ℕ)
    → Bound.lt a.upper_bound b.upper_bound ≡ false
    → spans b x ≡ true
    → ends_after a.upper_bound.value x ≡ true
unfolding spans Bound.lt
end_within a b x e h = ground arith

loop_left :
    (a b : Interval) (l r : List Interval)
    → Bound.lt a.upper_bound b.upper_bound ≡ true
    → intersect_all (a ∷ l) (b ∷ r)
      ≡ (intersect a b >>= λ i. intersect_all l (b ∷ r) >>= λ rest. ok (yield_nonempty i ++ rest))
unfolding intersect_all
loop_left a b l r e = rw e

loop_right :
    (a b : Interval) (l r : List Interval)
    → Bound.lt a.upper_bound b.upper_bound ≡ false
    → intersect_all (a ∷ l) (b ∷ r)
      ≡ (intersect a b >>= λ i. intersect_all (a ∷ l) r >>= λ rest. ok (yield_nonempty i ++ rest))
unfolding intersect_all
loop_right a b l r e = rw e

-- Where the next common interval may begin: after the end of either list's last one.
abbrev Either : Value → List Interval → List Interval → Type 0
Either v l r = NormalFrom v l ⊎ NormalFrom v r

after_meet :
    (v : Value) (a b : Interval)
    → (follows v a.lower_bound.value ≡ true) ⊎ (follows v b.lower_bound.value ≡ true)
    → IsOrdered (meet_of a b)
    → follows v (meet_of a b).lower_bound.value ≡ true
unfolding Bound.max Bound.min
after_meet v a b h o = ground arith

yield_normal :
    (u : Value) (a b : Interval) (o : Option Interval) (g : List Interval)
    → IsMeet a b o
    → (follows u a.lower_bound.value ≡ true) ⊎ (follows u b.lower_bound.value ≡ true)
    → NormalFrom (meet_of a b).upper_bound.value g
    → NormalFrom u g
    → NormalFrom u (yield_nonempty o ++ g)
unfolding yield_nonempty
yield_normal u a b none g m f inside n = n
yield_normal u a b (some i) g m f inside n = elim (Bool-cases (is_empty i)) [
  | inl e ↦ rw e n
  | inr e ↦
      rw (e, m.0)
        (
          after_meet u a b f (subst (λ k. IsOrdered k) m.0 m.1),
          subst (λ k. IsOrdered k) m.0 m.1,
          inside,
        )
]

heads :
    (u : Value) (a b : Interval) (l r : List Interval)
    → Either u (a ∷ l) (b ∷ r)
    → (follows u a.lower_bound.value ≡ true) ⊎ (follows u b.lower_bound.value ≡ true)
heads u a b l r (inl h) = inl h.0
heads u a b l r (inr h) = inr h.0

drop_left :
    (u : Value) (a b : Interval) (l r : List Interval)
    → Either u (a ∷ l) (b ∷ r)
    → Either u l (b ∷ r)
drop_left u a b l r (inl h) = inl (NormalFrom-tail u a l h)
drop_left u a b l r (inr h) = inr h

drop_right :
    (u : Value) (a b : Interval) (l r : List Interval)
    → Either u (a ∷ l) (b ∷ r)
    → Either u (a ∷ l) r
drop_right u a b l r (inl h) = inl h
drop_right u a b l r (inr h) = inr (NormalFrom-tail u b r h)

meet_upper_left :
    (a b : Interval)
    → Bound.lt a.upper_bound b.upper_bound ≡ true
    → (meet_of a b).upper_bound.value ≡ a.upper_bound.value
unfolding Bound.min Bound.lt
meet_upper_left a b e = ground arith

meet_upper_right :
    (a b : Interval)
    → Bound.lt a.upper_bound b.upper_bound ≡ false
    → (meet_of a b).upper_bound.value ≡ b.upper_bound.value
unfolding Bound.min Bound.lt
meet_upper_right a b e = ground arith

abbrev Common : List Interval → List Interval → List Interval → Type 0
Common l r g =
    (intersect_all l r ≡ ok g)
    × ((u : Value) → Either u l r → NormalFrom u g)
    × ((x : ℕ) → covers g x ≡ (covers l x && covers r x))

Common-step :
    (a b : Interval) (l r : List Interval)
    → IsOrdered a
    → IsOrdered b
    → NormalFrom a.upper_bound.value l
    → NormalFrom b.upper_bound.value r
    → ((g : List Interval) × Common l (b ∷ r) g)
    → ((g : List Interval) × Common (a ∷ l) r g)
    → (g : List Interval) × Common (a ∷ l) (b ∷ r) g
unfolding covers
Common-step a b l r p q n m left right =
    let (o, e, s, c) = intersect-spans a b p q in
    elim (Bool-cases (Bound.lt a.upper_bound b.upper_bound)) [
      | inl t ↦
          let (g, (e', keep, d)) = left in
          (
            yield_nonempty o ++ g,
            (
              rw (loop_left a b l r t, e, e'),
              λ u h.
                  yield_normal u a b o g s (heads u a b l r h)
                    (keep (meet_of a b).upper_bound.value
                      (inl (subst (λ v. NormalFrom v l) (sym (meet_upper_left a b t)) n)))
                    (keep u (drop_left u a b l r h)),
              λ x. ground (
                arith,
                covers-append (yield_nonempty o) g x,
                covers-yield_nonempty o x,
                c x,
                d x,
                end_before a b x t,
                covers_before b.upper_bound.value r x m,
              ),
            ),
          )
      | inr t ↦
          let (g, (e', keep, d)) = right in
          (
            yield_nonempty o ++ g,
            (
              rw (loop_right a b l r t, e, e'),
              λ u h.
                  yield_normal u a b o g s (heads u a b l r h)
                    (keep (meet_of a b).upper_bound.value
                      (inr (subst (λ v. NormalFrom v r) (sym (meet_upper_right a b t)) m)))
                    (keep u (drop_right u a b l r h)),
              λ x. ground (
                arith,
                covers-append (yield_nonempty o) g x,
                covers-yield_nonempty o x,
                c x,
                d x,
                end_within a b x t,
                covers_before a.upper_bound.value l x n,
              ),
            ),
          )
    ]

Common-total :
    (v w : Value) (l r : List Interval)
    → NormalFrom v l
    → NormalFrom w r
    → (g : List Interval) × Common l r g
unfolding intersect_all covers
Common-total v w [] r n m = ([], (refl, λ u h. tt, λ x. refl))
Common-total v w (a ∷ l) [] n m = ([], (refl, λ u h. tt, λ x. ground arith))
Common-total v w (a ∷ l) (b ∷ r) n m =
    Common-step a b l r n.1 m.1 n.2 m.2 (Common-total a.upper_bound.value w l (b ∷ r) n.2 m)
      (Common-total v b.upper_bound.value (a ∷ l) r n m.2)

-- On two sets in normal form `_intersect` never raises; it yields a set in normal form that covers
-- exactly the common instants.
pub intersect_all_total :
    (l r : List Interval)
    → IsNormal l
    → IsNormal r
    → (g : List Interval) × (intersect_all l r ≡ ok g)
      × IsNormal g
      × ((x : ℕ) → covers g x ≡ (covers l x && covers r x))
intersect_all_total l r n m =
    let (g, (e, keep, c)) = Common-total neg_inf neg_inf l r n m in (g, e, keep neg_inf (inl n), c)
