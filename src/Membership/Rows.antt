-- ===== src/Membership/Rows.antt =====
-- The steps of `make_member_of` and `remove_member_of` on the rows, as statements about who is a
-- member at which instant.
use pycroft.Base.{
  ℕ, ◌≡◌, refl, Bool, true, false, ◌&&◌, ◌||◌, ◌==◌, List, [], ◌∷◌, ◌++◌, ok, arith, Bool-cases,
  inl, inr,
}
use pycroft.Interval.Bound
use pycroft.Interval.Bound.{bound}
use pycroft.Interval.Core.{Interval, closure, overlaps}
use pycroft.Interval.Spans.{spans, IsOrdered, interval-ok, le-disjoint}
use pycroft.Interval.Sets.Covers.{covers}
use pycroft.Interval.Sets.Proper.{IsProper, AllProper, is_closed_below}
use pycroft.Membership.Store.{Membership, select_memberships, closures, new_memberships}

-- Whether a user belongs to a group at an instant.
unfoldable pub is_member : List Membership → ℕ → ℕ → ℕ → Bool
is_member [] user group x = false
is_member (m ∷ ms) user group x =
    (m.user == user && (m.group == group && spans m.active_during x)) || is_member ms user group x

abbrev pub AllActive : List Membership → Type 0
AllActive [] = Unit
AllActive (m ∷ ms) = IsOrdered m.active_during × AllActive ms

pub is_member-append :
    (ms ns : List Membership) (u g x : ℕ)
    → is_member (ms ++ ns) u g x ≡ (is_member ms u g x || is_member ns u g x)
unfolding is_member
is_member-append [] ns u g x = refl
is_member-append (m ∷ ms) ns u g x = ground (arith, is_member-append ms ns u g x)

pub AllActive-append :
    (ms ns : List Membership) → AllActive ms → AllActive ns → AllActive (ms ++ ns)
AllActive-append [] ns p q = q
AllActive-append (m ∷ ms) ns p q = (p.0, AllActive-append ms ns p.1 q)

pub is_member-new_memberships :
    (user group : ℕ) (is : List Interval) (u g x : ℕ)
    → is_member (new_memberships user group is) u g x ≡ (user == u && (group == g && covers is x))
unfolding is_member new_memberships covers
is_member-new_memberships user group [] u g x = ground arith
is_member-new_memberships user group (i ∷ is) u g x =
    ground (arith, is_member-new_memberships user group is u g x)

-- the closed variant of an interval
abbrev pub closed_variant : Interval → Interval
closed_variant i = record {
  lower_bound = bound i.lower_bound.value true;
  upper_bound = bound i.upper_bound.value true;
}

pub closure_lem :
    (i : Interval)
    → IsOrdered i
    → (closure i ≡ ok (closed_variant i))
      × IsProper (closed_variant i)
      × ((x : ℕ) → spans (closed_variant i) x ≡ spans i x)
unfolding closure spans is_closed_below bound Bound.unbounded
closure_lem i p = (
  interval-ok (bound i.lower_bound.value true) (bound i.upper_bound.value true) p,
  ground arith,
  λ x. refl,
)

pub apart_spans : (a b : Interval) (x : ℕ) → overlaps a b ≡ false → (spans a x && spans b x) ≡ false
unfolding overlaps spans
apart_spans a b x h =
    ground
      (arith, le-disjoint a.lower_bound b.upper_bound x, le-disjoint b.lower_bound a.upper_bound x)

abbrev pub AllOwn : ℕ → ℕ → List Membership → Type 0
AllOwn user group [] = Unit
AllOwn user group (m ∷ ms) = ((m.user == user && m.group == group) ≡ true) × AllOwn user group ms

pub is_member-own :
    (user group : ℕ) (ms : List Membership) (u g x : ℕ)
    → AllOwn user group ms
    → is_member ms u g x ≡ (user == u && (group == g && is_member ms user group x))
unfolding is_member
is_member-own user group [] u g x h = ground arith
is_member-own user group (m ∷ ms) u g x h = ground (arith, is_member-own user group ms u g x h.1)

-- The rows that are selected and the others, together, are the rows that were there; all selected ones
-- belong to the user and the group, and none of the others that does spans an instant of `during`.
abbrev pub Selects : ℕ → ℕ → Interval → List Membership → List Membership → List Membership → Type 0
Selects user group during ms selected others =
    AllActive selected
    × AllActive others
    × ((u g x : ℕ) → is_member ms u g x ≡ (is_member selected u g x || is_member others u g x))
    × AllOwn user group selected
    × ((x : ℕ) → (is_member others user group x && spans during x) ≡ false)

pub select_total :
    (user group : ℕ) (during : Interval) (ms : List Membership)
    → AllActive ms
    → (selected others : List Membership) × (select_memberships user group during ms
        ≡ ok (selected, others))
      × Selects user group during ms selected others
unfolding select_memberships is_member
select_total user group during [] h = ([], [], refl, (tt, tt, (λ u g x. refl), tt, λ x. refl))
select_total user group during (m ∷ ms) h =
    let (s, o, e, (p, q, c, d, n)) = select_total user group during ms h.1 in
    let (k, _, same) = closure_lem m.active_during h.0 in
    elim (Bool-cases (m.user == user)) [
      | inr other ↦ (
        s,
        m ∷ o,
        rw (e, other),
        (p, (h.0, q), (λ u g x. ground (arith, c u g x)), d, λ x. ground (arith, n x)),
      )
      | inl own ↦
          elim (Bool-cases (overlaps during (closed_variant m.active_during) && m.group == group)) [
            | inl taken ↦ (
              m ∷ s,
              o,
              rw (e, own, k, taken),
              ((h.0, p), q, (λ u g x. ground (arith, c u g x)), (ground arith, d), n),
            )
            | inr left ↦ (
              s,
              m ∷ o,
              rw (e, own, k, left),
              (
                p,
                (h.0, q),
                (λ u g x. ground (arith, c u g x)),
                d,
                λ x.
                    ground
                      (arith, n x, same x, apart_spans during (closed_variant m.active_during) x),
              ),
            )
          ]
    ]

-- The closures of rows are proper, and cover what the rows do.
pub closures_total :
    (user group : ℕ) (ms : List Membership)
    → AllActive ms
    → AllOwn user group ms
    → (cs : List Interval) × (closures ms ≡ ok cs)
      × AllProper cs
      × ((x : ℕ) → covers cs x ≡ is_member ms user group x)
unfolding closures is_member covers
closures_total user group [] h own = ([], refl, tt, λ x. refl)
closures_total user group (m ∷ ms) h own =
    let (cs, e, p, c) = closures_total user group ms h.1 own.1 in
    let (k, q, same) = closure_lem m.active_during h.0 in
    (
      closed_variant m.active_during ∷ cs,
      rw (k, e),
      (q, p),
      λ x. ground (arith, c x, same x, own.0),
    )
