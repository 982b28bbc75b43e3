-- ===== src/LdapSync/Directory.antt =====
-- The directory and what becomes of it by an action. An attribute with no value and one that is not
-- there are the same to it.
use pycroft.Base.{Option, none, some, List, [], String, if◌then◌else◌, str_eq}
use pycroft.Base.Dict.{get}
use pycroft.LdapSync.Record.{Atom, NormalizedAttributes, Record}
use pycroft.LdapSync.Diff.{Action, add_action, modify_action, delete_action, idle_action}
use pycroft.LdapSync.Changes.{replaced}

abbrev pub or_empty : Option (List Atom) → List Atom
or_empty none = []
or_empty (some vs) = vs

-- The directory: which entries there are, and the values that each has for an attribute.
abbrev pub Entry : Type 0
Entry = String → List Atom

abbrev pub Directory : Type 0
Directory = String → Option Entry

abbrev pub entry_of : NormalizedAttributes → Entry
entry_of attrs k = or_empty (get k attrs)

-- The dn that an action is aimed at
abbrev pub target : Action → String
target (add_action dn attrs) = dn
target (modify_action dn changes) = dn
target (delete_action dn) = dn
target (idle_action dn) = dn

-- What becomes of the entry that the action is aimed at: an attribute that is modified is replaced.
abbrev pub outcome : Action → Option Entry → Option Entry
outcome (add_action dn attrs) old = some (entry_of attrs)
outcome (modify_action dn changes) none = none
outcome (modify_action dn changes) (some old) =
    some (λ k. or_empty (replaced (some (old k)) (get k changes)))
outcome (delete_action dn) old = none
outcome (idle_action dn) old = old

-- The directory after an action has been carried out
abbrev pub carried_out : Action → Directory → Directory
carried_out a directory dn = if str_eq (target a) dn then outcome a (directory dn) else directory dn

abbrev pub held_entry : Option Record → Option Entry
held_entry none = none
held_entry (some r) = some (entry_of r.attrs)

abbrev pub values_of : Option Record → Entry
values_of none k = []
values_of (some r) k = entry_of r.attrs k

-- The dn that two records are about, as `diff_records` reads it
abbrev pub dn_of : Option Record → Option Record → String
dn_of current (some desired) = desired.dn
dn_of (some current) none = current.dn
dn_of none none = ""
