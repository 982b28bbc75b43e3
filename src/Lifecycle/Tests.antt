-- ===== src/Lifecycle/Tests.antt =====
-- A member with a host who is moved out by an administrator.
use pycroft.Base.{
  AllOf, str_eq, ℕ, ◌≡◌, ◌⊎◌, refl, true, false, not, ◌&&◌, ◌==◌, if◌then◌else◌, none, some, [],
  ◌∷◌, ◌++◌, inl, ok, arith,
}
use pycroft.Interval.Bound
use pycroft.Interval.Core.{closure, overlaps, single, interval}
use pycroft.Interval.Points.{from_to}
use pycroft.Membership.Store.{permission_level, active_memberships, highest_level}
use pycroft.Membership.Rows.{is_member}
use pycroft.Membership.Effect.{IsValid}
use pycroft.Membership.Groups.{Config}
use pycroft.Net.Addresses.{Subnet, or_zero, listed_address}
use pycroft.Net.Placed.{IsValid as NetIsValid}
use pycroft.Net.Example.{Block, blocks}
use pycroft.Net.Hosts.{MacText}
use pycroft.Task.Model.{
  Task, opened, Schemas, move_out_params, move_params, move_in_params, State, get_scheduled_tasks,
}
use pycroft.Task.Ops.{execute_scheduled_tasks}
use pycroft.Lifecycle.Deferred.{move_out, user_lib, room_of, to_room}
use pycroft.Lifecycle.Stays.{next, stay, moves_out, moves-IsValid}
use pycroft.Lifecycle.Carried.{later, deferred_move_out_happens}
use pycroft.Lifecycle.Campus.{User, Campus, save_user, owned_by, hosts_of, find_user, find_room}
use pycroft.Lifecycle.MoveOut.{ended_groups, leaves, move_out_now}
use pycroft.Lifecycle.Cleared.{find_host, leaving_id}
use pycroft.Lifecycle.Effect.{ended, move_out_effect}

abbrev group_ids : Config
group_ids = record {
  member_group = 1;
  network_access_group = 2;
  violation_group = 3;
  external_group = 4;
  blocked_group = 5;
  payment_in_default_group = 6;
  pre_member_group = 8;
}

abbrev tenant : User
tenant = record { id = 2; room = some 1; address = 9; birthdate = none }

abbrev dormitory_net : Subnet Block
dormitory_net = record {
  id = 1;
  address = record { low = 10; high = 20 };
  reserved_addresses_bottom = some 0;
  reserved_addresses_top = none;
  vlan = 1;
}

abbrev dormitory : Campus Block
dormitory = record {
  members = record {
    now = 10;
    group_level = λ g. if g == 7 then 5 else 1;
    memberships =
        record { user = 1; group = 7; active_during = from_to 0 100 }
        ∷ record { user = 2; group = 1; active_during = from_to 2 20 }
        ∷ [];
    log = [];
  };
  net = record {
    next_id = 10;
    subnets = dormitory_net ∷ [];
    patch_ports = record { switch_port = some 1; room = 1 } ∷ [];
    default_vlans = (1, 1) ∷ [];
    hosts =
        record { id = 5; name = none; owner = some 2; room = some 1 }
        ∷ record { id = 6; name = none; owner = some 1; room = some 1 }
        ∷ [];
    interfaces =
        record { id = 7; name = none; mac = "00:11:22:33:44:55"; host = 5 }
        ∷ record { id = 8; name = none; mac = "00:11:22:33:44:66"; host = 6 }
        ∷ [];
    ips =
        record { address = 12; interface = 7; subnet = 1 }
        ∷ record { address = 13; interface = 8; subnet = 1 }
        ∷ [];
    deleted_ips = [];
    log = [];
  };
  users = tenant ∷ [];
  rooms = record { id = 1; building_id = 3; level = 0; number = "1"; address = 9 } ∷ [];
  switches = [];
  mails = [];
}

dormitory-IsValid : NetIsValid blocks dormitory.net
unfolding or_zero listed_address
dormitory-IsValid = (
  (((ground arith, ground arith, ground arith), (λ x. (ground arith, tt)), (refl, (refl, tt))), tt),
  (refl, (refl, tt)),
  ((dormitory_net, inl refl, refl, refl), ((dormitory_net, inl refl, refl, refl), tt)),
)

processor_level : permission_level 1 dormitory.members ≡ ok 5
unfolding permission_level active_memberships highest_level single closure overlaps interval
    Bound.bound Bound.le Bound.lt
processor_level = refl

move_out_effect_example :
    (campus' : Campus Block) × (move_out_now overlaps group_ids tenant "gone" 1 10 true dormitory
      ≡ ok campus')
    × (campus'.users ≡ save_user (record tenant { room = none }) dormitory.users)
    × AllOf (λ h. (owned_by 2 h && leaves [] (some 1) true h) ≡ false) campus'.net.hosts
    × ((i : ℕ)
        → (leaving_id [] (some 1) true i (hosts_of 2 dormitory.net.hosts) ≡ true)
          ⊎ (find_host i campus'.net.hosts ≡ find_host i dormitory.net.hosts))
    × IsValid campus'.members
    × NetIsValid blocks campus'.net
    × ((u g x : ℕ)
        → is_member campus'.members.memberships u g x ≡ (
            is_member dormitory.members.memberships u g x
            && not (ended overlaps group_ids tenant 10 true dormitory.members u g x)))
unfolding ended_groups
move_out_effect_example =
    move_out_effect overlaps group_ids blocks tenant "gone" 1 5 10 true dormitory (refl, (refl, tt))
      dormitory-IsValid refl processor_level (ground arith, (ground arith, (ground arith, tt)))

-- The comment alone is dumped; all memberships are ended.
abbrev comment_schemas : Schemas
comment_schemas = record {
  load_move_out = λ text. some (record { comment = text; end_membership = true });
  load_move = λ text. none;
  load_move_in = λ text. none;
  dump = λ type params. elim params [
    | move_out_params p ↦ p.comment
    | move_params p ↦ ""
    | move_in_params p ↦ ""
  ];
}

abbrev any_mac : MacText
any_mac = record { matches = λ m. true; first_byte = λ m. 0; same = str_eq }

abbrev office_hours : State (Campus Block)
office_hours = record {
  now = 5;
  next_id = 1;
  world = record dormitory { members = record dormitory.members { now = 5 } };
  tasks = [];
  log = [];
  mails = [];
}

deferred_move_out_happens_example :
    (s' : State (Campus Block)) × (move_out blocks
        (λ a. true)
        any_mac
        overlaps
        group_ids
        comment_schemas
        tenant
        "gone"
        1
        8
        true
        office_hours
      ≡ ok s')
    × (s'.world ≡ office_hours.world)
    × (s'.log ≡ office_hours.log)
    × (s'.mails ≡ office_hours.mails)
    × (s'.now ≡ office_hours.now)
    × ((t : Task) × (s'.tasks ≡ office_hours.tasks ++ (t ∷ []))
        × (t.status ≡ opened)
        × (t.due ≡ 8)
        × (t.user ≡ 2))
    × ((execute_scheduled_tasks comment_schemas
          (user_lib blocks (λ a. true) any_mac overlaps group_ids comment_schemas)
          (later 10 s')).world
        ≡ move_out_effect_example.0)
    × ((execute_scheduled_tasks comment_schemas
          (user_lib blocks (λ a. true) any_mac overlaps group_ids comment_schemas)
          (later 10 s')).mails
        ≡ office_hours.mails)
unfolding find_user find_room room_of to_room get_scheduled_tasks
deferred_move_out_happens_example =
    deferred_move_out_happens blocks (λ a. true) any_mac overlaps group_ids comment_schemas tenant
      "gone" 1 8 10 true (record { building_id = 3; level = 0; number = "1" }) office_hours
      move_out_effect_example.0 (ground arith) (ground arith) refl refl refl refl
      move_out_effect_example.1

moves-IsValid_example :
    IsValid move_out_effect_example.0.members × NetIsValid blocks move_out_effect_example.0.net
moves-IsValid_example =
    moves-IsValid blocks (λ a. true) any_mac overlaps group_ids dormitory move_out_effect_example.0
      (refl, (refl, tt)) dormitory-IsValid
      (next (moves_out tenant "gone" 1 10 true move_out_effect_example.1) stay)
