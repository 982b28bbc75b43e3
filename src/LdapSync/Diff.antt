-- ===== src/LdapSync/Diff.antt =====
-- ldap_sync/record_diff.py and the actions of ldap_sync/concepts/action.py.
use pycroft.Base.{
  Bool, true, false, not, ◌&&◌, if◌then◌else◌, Option, none, some, List, [], ◌∷◌, String, Result,
  ok, err, value_error, type_error, ◌>>=◌, str_eq,
}
use pycroft.Base.Dict.{Dict, get, has_key, put, pop}
use pycroft.LdapSync.Record.{
  Atom, NormalizedAttributes, Kind, user, group, Record, agrees, record_eq,
}

-- `Action` and its subclasses.
pub data Action : Type 0 where
  add_action : String → NormalizedAttributes → Action
  modify_action : String → NormalizedAttributes → Action
  delete_action : String → Action
  idle_action : String → Action

-- The attributes that `AddAction` keeps: those that are not empty.
unfoldable pub nonempty_attrs : NormalizedAttributes → NormalizedAttributes
nonempty_attrs [] = []
nonempty_attrs ((k, []) ∷ attrs) = nonempty_attrs attrs
nonempty_attrs ((k, v ∷ vs) ∷ attrs) = (k, v ∷ vs) ∷ nonempty_attrs attrs

unfoldable pub diff_attributes : NormalizedAttributes → NormalizedAttributes → NormalizedAttributes
diff_attributes current [] = []
diff_attributes current ((attr, desired) ∷ rest) =
    let changes = diff_attributes current rest in
    if not (agrees desired (get attr current)) then (attr, desired) ∷ changes else changes

abbrev pub password : String
password = "userPassword"

abbrev pub locked_time : String
locked_time = "pwdAccountLockedTime"

-- `not modifications.get(…)`
unfoldable pub is_falsy : Option (List Atom) → Bool
is_falsy none = true
is_falsy (some []) = true
is_falsy (some (v ∷ vs)) = false

unfoldable pub diff_user_attributes :
    NormalizedAttributes → NormalizedAttributes → NormalizedAttributes
unfolding is_falsy
diff_user_attributes current desired =
    let modifications = diff_attributes current desired in
    if has_key password modifications && is_falsy (get locked_time modifications)
    then pop locked_time modifications
    else modifications

-- The last cases of `diff_records`, by the two classes.
unfoldable pub modify_by_kind : Kind → Kind → Record → Record → Result Action
modify_by_kind user user c d = ok (modify_action d.dn (diff_user_attributes c.attrs d.attrs))
modify_by_kind group group c d = ok (modify_action d.dn (diff_attributes c.attrs d.attrs))
modify_by_kind _ _ c d = err type_error

unfoldable pub diff_records : Option Record → Option Record → Result Action
unfolding modify_by_kind
diff_records none none = err value_error
diff_records none (some desired) = ok (add_action desired.dn (nonempty_attrs desired.attrs))
diff_records (some current) none = ok (delete_action current.dn)
diff_records (some c) (some d) =
    if record_eq c d
    then ok (idle_action d.dn)
    else if not (str_eq c.dn d.dn)
    then err type_error
    else modify_by_kind c.kind d.kind c d

-- `{r.dn: r for r in records}`
unfoldable pub by_dn : Dict Record → List Record → Dict Record
by_dn acc [] = acc
by_dn acc (r ∷ rs) = by_dn (put r.dn r acc) rs

-- `d1.keys() | d2.keys()`: each key once. The order of a set is left open by Python.
unfoldable pub new_keys : Dict Record → Dict Record → List String
new_keys d1 [] = []
new_keys d1 ((k, r) ∷ d2) = let rest = new_keys d1 d2 in if has_key k d1 then rest else k ∷ rest

unfoldable pub keys_of : Dict Record → List String
keys_of [] = []
keys_of ((k, r) ∷ d) = k ∷ keys_of d

unfoldable pub diff_keys : Dict Record → Dict Record → List String → Result (Dict Action)
diff_keys d1 d2 [] = ok []
diff_keys d1 d2 (k ∷ ks) = do
  action ← diff_records (get k d1) (get k d2)
  actions ← diff_keys d1 d2 ks
  ok ((k, action) ∷ actions)

unfoldable pub join_keys : List String → List String → List String
join_keys [] js = js
join_keys (k ∷ ks) js = k ∷ join_keys ks js

-- `iter_zip_dicts` with the comprehension over it
unfoldable pub diff_dicts : Dict Record → Dict Record → Result (Dict Action)
unfolding diff_keys keys_of new_keys join_keys
diff_dicts d1 d2 = diff_keys d1 d2 (join_keys (keys_of d1) (new_keys d1 d2))

unfoldable pub bulk_diff_records : List Record → List Record → Result (Dict Action)
unfolding by_dn diff_dicts
bulk_diff_records current desired = diff_dicts (by_dn [] current) (by_dn [] desired)
