-- ===== src/Membership/Blocking.antt =====
-- Blocking and unblocking users, pycroft/lib/user/blocking.py. `range_overlaps` is PostgreSQL's `&&`
-- on ranges.
use pycroft.Base.{
  ℕ, ◌≤◌, ◌≡◌, refl, ap, Bool, true, false, not, ◌&&◌, ◌||◌, ◌==◌, if◌then◌else◌, leb, Option, none,
  some, List, [], ◌∷◌, ◌++◌, String, Result, ok, ◌>>=◌, arith, Bool-cases, inl, inr, ==_iff,
}
use pycroft.Interval.Bound.{neg_inf, pos_inf, fin, bound, unbounded}
use pycroft.Interval.Bound
use pycroft.Interval.Core.{Interval, interval, starting_from, closedopen}
use pycroft.Interval.Spans.{spans}
use pycroft.Interval.Sets.Proper.{IsProper}
use pycroft.Membership.Store.{
  Membership, added_to_group, suspended, LogEntry, Db, log_user_event, permission_level,
}
use pycroft.Membership.Ops.{make_member_of}
use pycroft.Membership.Rows.{is_member}
use pycroft.Membership.Effect.{IsValid, make_member_of_effect}
use pycroft.Membership.Groups.{Config, member_of, leave_groups}
use pycroft.Membership.Leave.{listed, AllWithin, leave_groups_effect}

-- `get_blocked_groups`
unfoldable pub get_blocked_groups : Config → List ℕ
get_blocked_groups config =
    config.violation_group ∷ config.payment_in_default_group ∷ config.blocked_group ∷ []

unfoldable pub block : Config → ℕ → String → ℕ → Option Interval → Bool → Db → Result Db
block config user reason processor during violation db = do
  during ← elim during [ none ↦ starting_from db.now | some i ↦ ok i ]
  db ←
      (if violation
        then make_member_of user config.violation_group processor during db
        else make_member_of user config.blocked_group processor during db)
  ok (log_user_event (suspended during reason) processor user db)

-- the interval that `starting_from` builds
abbrev pub from_on : ℕ → Interval
from_on when = record {
  lower_bound = record { value = fin when; closed = true };
  upper_bound = record { value = pos_inf; closed = false };
}

pub starting_from_lem : (when : ℕ) → starting_from when ≡ ok (from_on when)
unfolding starting_from closedopen interval bound Bound.lt
starting_from_lem when = refl

pub spans-from_on : (t x : ℕ) → spans (from_on t) x ≡ leb t x
unfolding spans
spans-from_on t x = ground arith

-- the group that `block` makes the user a member of
abbrev blocking_group : Config → Bool → ℕ
blocking_group config violation = if violation then config.violation_group else config.blocked_group

-- the interval of the suspension
abbrev suspension : Option Interval → Db → Interval
suspension none db = from_on db.now
suspension (some i) db = i

suspension_lem :
    (during : Option Interval) (db : Db)
    → elim during as (λ d. Result Interval) [ none ↦ starting_from db.now | some i ↦ ok i ]
      ≡ ok (suspension during db)
suspension_lem none db = starting_from_lem db.now
suspension_lem (some i) db = refl

if-apply :
    (c : Bool) (a b : ℕ) (f : ℕ → Result Db) → (if c then f a else f b) ≡ f (if c then a else b)
if-apply true a b f = refl
if-apply false a b f = refl

-- With a sufficient level, `block` makes the user a member of the violation group, or of the blocked
-- group, at every instant of the interval, which by default starts now and has no end. No membership
-- changes at another instant, of another user or in another group. It appends two log entries. All
-- memberships and the interval are in order, and the interval has a closed lower bound or none; a
-- membership counts from its lower value up to and without its upper one.
pub block_effect :
    (config : Config) (user processor level : ℕ) (reason : String) (during : Option Interval)
    (violation : Bool) (db : Db)
    → IsValid db
    → IsProper (suspension during db)
    → permission_level processor db ≡ ok level
    → db.group_level (blocking_group config violation) ≤ level
    → (db' : Db) × (block config user reason processor during violation db ≡ ok db')
      × IsValid db'
      × (db'.log
          ≡ (db.log
              ++ (record {
                message = added_to_group (blocking_group config violation) (suspension during db);
                author = processor;
                about = some user;
              }
                  ∷ []))
            ++ (record {
              message = suspended (suspension during db) reason;
              author = processor;
              about = some user;
            }
                ∷ []))
      × ((u g x : ℕ)
          → is_member db'.memberships u g x ≡ (
              is_member db.memberships u g x
              || user == u
                && (blocking_group config violation == g && spans (suspension during db) x)))
unfolding block log_user_event
block_effect config user processor level reason during violation db v p e h =
    let (db', r, v', l, c) =
      make_member_of_effect user (blocking_group config violation) processor level
        (suspension during db) db v p e h in
    let entry : LogEntry = record {
      message = suspended (suspension during db) reason;
      author = processor;
      about = some user;
    } in
    (
      record db' { log = db'.log ++ (entry ∷ []) },
      rw (
        suspension_lem during db,
        if-apply violation config.violation_group config.blocked_group
            (λ group. make_member_of user group processor (suspension during db) db),
        r,
      ),
      v',
      ap (λ entries. entries ++ (entry ∷ [])) l,
      c,
    )

module _ (range_overlaps : Interval → Interval → Bool) where
  unfoldable pub unblock : Config → ℕ → ℕ → Option ℕ → Db → Result Db
  unfolding get_blocked_groups
  unblock config user processor when db = do
    during ← starting_from (elim when [ none ↦ db.now | some t ↦ t ])
    leave_groups range_overlaps (get_blocked_groups config) user processor during during db

  member_of-spans :
      (user group : ℕ) (when : Interval) (ms : List Membership) (x : ℕ)
      → ((i j : Interval) (x : ℕ) → spans i x ≡ true → spans j x ≡ true → range_overlaps i j ≡ true)
      → is_member ms user group x ≡ true
      → spans when x ≡ true
      → member_of range_overlaps user group when ms ≡ true
  unfolding is_member member_of
  member_of-spans user group when [] x shared i w = absurd (ground arith)
  member_of-spans user group when (m ∷ ms) x shared i w =
      ground (arith, shared m.active_during when x, member_of-spans user group when ms x shared)

  -- If PostgreSQL's `&&` holds of two ranges that have points in common, then whoever unblocks another
  -- user with a sufficient level for the three groups ends the memberships of the user in them from the
  -- given instant on, by default from now on, and changes no other membership. All memberships are in
  -- order; a membership counts from its lower value up to and without its upper one.
  pub unblock_effect :
      (config : Config) (user processor level : ℕ) (when : Option ℕ) (db : Db)
      → ((i j : Interval) (x : ℕ) → spans i x ≡ true → spans j x ≡ true → range_overlaps i j ≡ true)
      → IsValid db
      → (user == processor) ≡ false
      → permission_level processor db ≡ ok level
      → AllWithin db.group_level level (get_blocked_groups config)
      → (db' : Db) × (unblock config user processor when db ≡ ok db')
        × IsValid db'
        × ((u g x : ℕ)
            → is_member db'.memberships u g x ≡ (
                is_member db.memberships u g x
                && not (
                    user == u
                    && (listed g (get_blocked_groups config)
                        && leb (elim when [ none ↦ db.now | some t ↦ t ]) x))))
  unfolding unblock
  unblock_effect config user processor level when db shared v ne e h =
      let start : ℕ = elim when [ none ↦ db.now | some t ↦ t ] in
      let (db', r, v', c) =
        leave_groups_effect range_overlaps (get_blocked_groups config) user processor level
          (from_on start) (from_on start) db v refl ne e h in
      (
        db',
        rw (starting_from_lem start, r),
        v',
        λ u g x. elim (Bool-cases (user == u)) [
          | inr other ↦ ground (arith, c u g x)
          | inl same ↦ ground (
            arith,
            c u g x,
            ap (λ a. is_member db.memberships a g x) ((==_iff user u).0 same),
            spans-from_on start x,
            member_of-spans user g (from_on start) db.memberships x shared,
          )
        ],
      )
