-- ===== src/Lifecycle/Campus.antt =====
-- The state that pycroft/lib/user/lifecycle.py works on: users and rooms beside the tables of
-- memberships and of hosts.
use pycroft.Base.{
  ℕ, Bool, false, ◌||◌, ◌==◌, if◌then◌else◌, Option, none, some, List, [], ◌∷◌, String,
}
use pycroft.Membership.Store.{Db}
use pycroft.Net.Store.{Host, NetDb}

-- What a row of `User` holds besides its memberships; the address is known by its id.
pub record User : Type 0 where
  pub id : ℕ
  pub room : Option ℕ
  pub address : ℕ
  pub birthdate : Option ℕ

pub record RoomRow : Type 0 where
  pub id : ℕ
  pub building_id : ℕ
  pub level : ℕ
  pub number : String
  pub address : ℕ

-- `switches` holds the hosts that are switches, `mails` the users who have been sent a mail.
pub record Campus (Network : Type 0) : Type 0 where
  pub members : Db
  pub net : NetDb Network
  pub users : List User
  pub rooms : List RoomRow
  pub switches : List ℕ
  pub mails : List ℕ

unfoldable pub find_user : ℕ → List User → Option User
find_user user [] = none
find_user user (u ∷ us) = if u.id == user then some u else find_user user us

unfoldable pub save_user : User → List User → List User
save_user u [] = []
save_user u (v ∷ vs) = if v.id == u.id then u ∷ vs else v ∷ save_user u vs

-- `user.hosts`
unfoldable pub owned_by : ℕ → Host → Bool
owned_by user host = elim host.owner [ none ↦ false | some owner ↦ owner == user ]

unfoldable pub hosts_of : ℕ → List Host → List Host
unfolding owned_by
hosts_of user [] = []
hosts_of user (h ∷ hs) = let rest = hosts_of user hs in if owned_by user h then h ∷ rest else rest

-- `host.switch` is one
unfoldable pub is_switch : List ℕ → ℕ → Bool
is_switch [] host = false
is_switch (s ∷ ss) host = s == host || is_switch ss host

unfoldable pub find_room : ℕ → List RoomRow → Option RoomRow
find_room room [] = none
find_room room (r ∷ rs) = if r.id == room then some r else find_room room rs
