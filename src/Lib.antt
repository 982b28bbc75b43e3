-- ===== src/Lib.antt =====
-- Pycroft administers the members of a student network: who belongs to which group and for how long,
-- what is to be done for them at a later time, and which accounts a directory holds of them. This
-- library models the parts of it that decide something, and proves that they decide it rightly.
--
-- The program's parts and the files that model them:
--
-- * Interval, of pycroft/helpers/interval.py. Interval/Bound and Interval/Core are the classes `Bound`
--   and `Interval` with their constructors and comparisons, Interval/Sets is `IntervalSet` with the
--   generators `_join`, `_intersect`, `_complement` and `_chain_ordered` as functions on lists.
--   Interval/Spans and Interval/Points say which instants an interval stands for, the modules below
--   Interval/Sets do so for sets, and Interval/Quirks shows where the code departs from its
--   documentation.
-- * UserId, where UserId/Code is pycroft/helpers/errorcode.py, UserId/Text is pycroft/lib/user/user_id.py,
--   and UserId/Check relates encoding, decoding and checking.
-- * LdapSync, where LdapSync/Record is ldap_sync/concepts/record.py, LdapSync/Diff is
--   ldap_sync/record_diff.py with ldap_sync/concepts/action.py, and LdapSync/Convert is
--   ldap_sync/conversion.py. LdapSync/Normal is about the
--   attributes of a record, LdapSync/Changes about the differences of attributes, LdapSync/Sync about
--   whole states of the directory, LdapSync/Directory says what an action makes of a directory, whose
--   entries are those of records, and LdapSync/Converge what the right action does. LdapSync/Entry is
--   about the record of a user, and LdapSync/Export about carrying it over into the directory.
-- * Membership, where Membership/Store has the rows of pycroft/model/user.py and the queries on them,
--   Membership/Ops has `make_member_of` and `remove_member_of` of pycroft/lib/membership.py;
--   Membership/Rows and Membership/Effect say who is a member before and after. They use the interval
--   sets as the source does. Membership/Groups is `User.member_of` and leaving groups in a loop, with
--   Membership/Leave about it, and Membership/Blocking is pycroft/lib/user/blocking.py.
-- * Net, where Net/Addresses has the subnets of pycroft/model/net.py and `get_free_ip` of
--   pycroft/lib/net.py, with Net/Usable about them; Net/Store has the rows of pycroft/model/host.py and
--   pycroft/model/port.py and the queries on them, Net/Ops, Net/Hosts and Net/Edit the operations of
--   pycroft/lib/host.py. Net/Rows, Net/Placed, Net/Replaced and Net/MoveIps lead to Net/Migrate, about a host that
--   moves; Net/Keeping, Net/Deleting and Net/Editing to Net/Steps, about all sequences of operations.
--   The package netaddr is the record `Netaddr` of operations, `NetaddrLaws` says what its documentation
--   promises, and Net/Example has lists for which this holds.
-- * Task, where Task/Model has the rows of pycroft/model/task.py, Task/Execute the implementations and
--   Task/Ops the operations of pycroft/lib/task.py, with the scheduler of pycroft/task.py.
--   Task/Outcomes is about one execution, Task/Scheduler about a run over the table, Task/Final about
--   all sequences of steps. The moves of users are the record `UserLib`, which the operations take as
--   an argument, as they take the serialisation of parameters as the record `Schemas`.
-- * Finance, where Finance/Model has the transactions of pycroft/model/finance.py and the checks on them,
--   Finance/Ops the operations of pycroft/lib/finance/transaction_crud.py. Finance/Balance is about
--   posting, Finance/Valid about all sequences of operations, Finance/Import and Finance/Reimport
--   about bank statements. Finance/Overdue is `Account.in_default_days` of pycroft/model/finance.py, and
--   Finance/History and Finance/Debt are about it. Finance/Ending is `end_payment_in_default_memberships` of
--   pycroft/lib/finance/payment_in_default.py, on the memberships of Membership.
-- * Lifecycle, of pycroft/lib/user/lifecycle.py, on the memberships of Membership and the hosts of Net:
--   Lifecycle/Campus has the state, Lifecycle/MoveOut and Lifecycle/Moves the moves as they are carried
--   out at once, Lifecycle/Deferred their deferral to tasks, and fills `UserLib` of Task. Lifecycle/Cleared
--   and Lifecycle/Effect are about moving out, Lifecycle/Carried about a deferred move,
--   Lifecycle/Invariant and Lifecycle/Stays about all sequences of moves.
-- * Base has the names that the others share: Base/Tests the Boolean tests, Base/Outcome the
--   exceptions and the monad of calls that may raise, Base/Lists what holds of elements,
--   Base/Dict Python's dicts, Base/Int the integers.
--
-- An operation takes the state and returns the new one, or the exception it raises; the transaction
-- around it undoes its changes in that case. Instants are natural numbers, counted from an origin:
-- only their order and their differences matter to the code. All functions are structurally
-- recursive but the loop of `digits`, which has its number as fuel: it bounds the count of the digits.
--
-- What is not modelled: the web interface, the mails and their texts, the queries that are left to the
-- database, the database's own constraints, concurrent changes of a row during an operation, and the
-- directory's protocol. `escape_filter_chars` and `safe_dn` of ldap3,
-- the encoding to ASCII, the digits of other scripts that `\d` matches and Python's `int` are arguments
-- of the definitions that use them, as are PostgreSQL's `&&` on ranges and its equality of MAC
-- addresses, the operations of netaddr, the match of MAC addresses against their regular expression, and
-- which deleted rows SQLAlchemy still holds in a
-- loaded collection. An entry of the log without a user is refused by the database; the model reports
-- this where the entry is written. The sets of groups that a move begins or ends stand in one order. The
-- creation of users and the rest of finance are outside this library.
pub mod Base
pub mod Interval
pub mod UserId
pub mod LdapSync
pub mod Membership
pub mod Task
pub mod Finance
pub mod Net
pub mod Lifecycle
