-- ===== src/Membership/Store.antt =====
-- The rows that pycroft/lib/membership.py works on, from pycroft/model/user.py: memberships, groups
-- and the log. Users and groups are known by their ids; `now` is the time of the transaction. An
-- exception undoes the transaction (`with_transaction`), so that a call returns the new state or
-- raises.
use Prim.Native.Nat.{max}
use pycroft.Base.{
  ℕ, ◌&&◌, if◌then◌else◌, ◌==◌, Option, some, List, [], ◌∷◌, ◌++◌, String, Result, ok, ◌>>=◌,
}
use pycroft.Interval.Core.{Interval, closure, overlaps, single}

pub record Membership : Type 0 where
  pub user : ℕ
  pub group : ℕ
  pub active_during : Interval

-- What a log entry says; its text is not modelled.
pub data Message : Type 0 where
  added_to_group removed_from_group edited_membership : ℕ → Interval → Message
  deleted_membership : ℕ → Message
  suspended : Interval → String → Message

-- `LogEntry`, of a user or of nobody
pub record LogEntry : Type 0 where
  pub message : Message
  pub author : ℕ
  pub about : Option ℕ

pub record Db : Type 0 where
  pub now : ℕ
  pub group_level : ℕ → ℕ
  pub memberships : List Membership
  pub log : List LogEntry

-- `log_user_event`
unfoldable pub log_user_event : Message → ℕ → ℕ → Db → Db
log_user_event message author user db = record db {
  log = db.log ++ (record { message = message; author = author; about = some user } ∷ []);
}

-- `User.active_memberships(when)`: the memberships whose closure overlaps with `when`.
unfoldable pub active_memberships : ℕ → Interval → List Membership → Result (List Membership)
active_memberships user when [] = ok []
active_memberships user when (m ∷ ms) = do
  rest ← active_memberships user when ms
  if m.user == user
      then (do c ← closure m.active_during; ok (if overlaps when c then m ∷ rest else rest))
      else ok rest

unfoldable pub highest_level : (ℕ → ℕ) → List Membership → ℕ
highest_level level [] = 0
highest_level level (m ∷ ms) = max (level m.group) (highest_level level ms)

-- `User.permission_level`
unfoldable pub permission_level : ℕ → Db → Result ℕ
unfolding active_memberships highest_level
permission_level user db = do
  when ← single db.now
  ms ← active_memberships user when db.memberships
  ok (highest_level db.group_level ms)

-- `[m for m in user.active_memberships(when=during) if m.group == group]`, and beside it the rows that
-- are left when these are deleted.
unfoldable pub select_memberships :
    ℕ → ℕ → Interval → List Membership → Result (List Membership × List Membership)
select_memberships user group during [] = ok ([], [])
select_memberships user group during (m ∷ ms) = do
  (selected, others) ← select_memberships user group during ms
  if m.user == user
      then (do
        c ← closure m.active_during
        ok (
            if overlaps during c && m.group == group
            then (m ∷ selected, others)
            else (selected, m ∷ others)))
      else ok (selected, m ∷ others)

-- `(m.active_during.closure for m in memberships)`
unfoldable pub closures : List Membership → Result (List Interval)
closures [] = ok []
closures (m ∷ ms) = do c ← closure m.active_during; cs ← closures ms; ok (c ∷ cs)

-- `Membership(active_during=i, user=user, group=group) for i in intervals`
unfoldable pub new_memberships : ℕ → ℕ → List Interval → List Membership
new_memberships user group [] = []
new_memberships user group (i ∷ is) =
    record { user = user; group = group; active_during = i } ∷ new_memberships user group is
