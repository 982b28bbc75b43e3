-- ===== src/LdapSync/Tests.antt =====
-- Records of one user in the directory and in the database.
use Prim.Native.String.{◌++◌}
use pycroft.Base.{
  str_eq, List, true, ◌⊎◌, ◌≡◌, refl, ◌||◌, if◌then◌else◌, none, some, [], ◌∷◌, String, ok, arith,
  ap, sym, ◌∙◌,
}
use pycroft.Base.Dict.{Dict, get, has_key, put}
use pycroft.LdapSync.Convert.{UnixAccount, DbUser, LdapRecord, dn_from_username, db_user_to_record}
use pycroft.LdapSync.Export.{StandsAt, current_record, user_export_converges}
use pycroft.LdapSync.Entry.{Describes}
use pycroft.LdapSync.Record.{
  one, NormalizedAttributes, Record, str, user, record_eq, attrs_eq, included, agrees, atoms_eq,
  atom_eq,
}
use pycroft.LdapSync.Diff.{
  Action, modify_action, diff_attributes, diff_records, diff_dicts, bulk_diff_records,
  modify_by_kind, diff_user_attributes, by_dn, diff_keys, join_keys, keys_of, new_keys,
}
use pycroft.LdapSync.Sync.{get-diff_dicts, bulk_diff_total, to_option, KindsAgree}
use pycroft.LdapSync.Converge.{Reached}
use pycroft.LdapSync.Directory.{Directory, entry_of, held_entry, carried_out}

abbrev old_attrs : NormalizedAttributes
old_attrs = ("mail", str "a@b.c" ∷ []) ∷ ("cn", str "Ada" ∷ []) ∷ []

abbrev new_attrs : NormalizedAttributes
new_attrs = ("mail", str "d@e.f" ∷ []) ∷ ("cn", str "Ada" ∷ []) ∷ []

abbrev old_ada : Record
old_ada = record { kind = user; dn = "uid=ada"; attrs = old_attrs }

abbrev new_ada : Record
new_ada = record { kind = user; dn = "uid=ada"; attrs = new_attrs }

-- The directory with the old record alone
abbrev old_directory : Directory
old_directory dn = if str_eq "uid=ada" dn then some (entry_of old_attrs) else none

abbrev change_of_ada : Action
change_of_ada = modify_action "uid=ada" (("mail", str "d@e.f" ∷ []) ∷ [])

abbrev before : Dict Record
before = ("uid=ada", old_ada) ∷ []

abbrev after : Dict Record
after = ("uid=ada", new_ada) ∷ []

abbrev ada_actions : Dict Action
ada_actions = ("uid=ada", modify_action "uid=ada" (("mail", str "d@e.f" ∷ []) ∷ [])) ∷ []

diff_of_dicts : diff_dicts before after ≡ ok ada_actions
unfolding diff_dicts diff_keys join_keys keys_of new_keys diff_records record_eq attrs_eq included
    agrees atoms_eq atom_eq get modify_by_kind diff_user_attributes diff_attributes has_key
diff_of_dicts = refl

get-diff_dicts_example : get "uid=ada" ada_actions ≡ (
    if has_key "uid=ada" before || has_key "uid=ada" after
    then to_option (diff_records (get "uid=ada" before) (get "uid=ada" after))
    else none)
get-diff_dicts_example = get-diff_dicts before after ada_actions "uid=ada" diff_of_dicts

only_entry : (j k : String) (r c : Record) → get k ((j, r) ∷ []) ≡ some c → c ≡ r
unfolding get
only_entry j k r c h = ground arith

ada_kinds : KindsAgree (by_dn [] (old_ada ∷ [])) (by_dn [] (new_ada ∷ []))
unfolding by_dn put
ada_kinds k c d p q =
    ap (λ r. r.kind) (only_entry "uid=ada" k old_ada c p)
    ∙ sym (ap (λ r. r.kind) (only_entry "uid=ada" k new_ada d q))

bulk_diff_total_example :
    (acts : Dict Action) × (bulk_diff_records (old_ada ∷ []) (new_ada ∷ []) ≡ ok acts)
bulk_diff_total_example = bulk_diff_total (old_ada ∷ []) (new_ada ∷ []) ada_kinds

abbrev ada_account : UnixAccount
ada_account = record {
  uid = 1000;
  gid = 100;
  login_shell = "/bin/bash";
  home_directory = "/home/ada";
}

abbrev ada_row : DbUser
ada_row = record {
  login = some "ada";
  name = some "Ada";
  email = some "a@b.c";
  email_forwarded = true;
  passwd_hash = some "{CRYPT}x";
  unix_account = some ada_account;
}

abbrev comma : List String → String
comma [] = ""
comma (s ∷ rest) = s ++ ("," ++ comma rest)

abbrev ada_entry : LdapRecord
ada_entry = record { dn = "uid=ada,o=x,"; attributes = ("cn", one (str "Ada")) ∷ [] }

ada_stands : StandsAt (some ada_entry) (dn_from_username comma "ada" "o=x")
unfolding dn_from_username
ada_stands = refl

-- The directory with the entry of Ada alone
abbrev entry_directory : Directory
entry_directory dn =
    if str_eq "uid=ada,o=x," dn then held_entry (current_record (λ s. s) (some ada_entry)) else none

ada_holds :
    entry_directory (dn_from_username comma "ada" "o=x")
    ≡ held_entry (current_record (λ s. s) (some ada_entry))
unfolding dn_from_username
ada_holds = refl

user_export_converges_example :
    (r : Record) × (db_user_to_record (λ s. s) comma (λ s. s) ada_row "o=x" true ≡ ok r)
    × (r.dn ≡ dn_from_username comma "ada" "o=x")
    × Describes (λ s. s) (λ s. s) ada_row "ada" "Ada" ada_account true r
    × (a : Action) × (diff_records (current_record (λ s. s) (some ada_entry)) (some r) ≡ ok a)
    × Reached
        (current_record (λ s. s) (some ada_entry))
        (some r)
        (carried_out a entry_directory r.dn)
    × ((dn : String)
        → (str_eq r.dn dn ≡ true) ⊎ (carried_out a entry_directory dn ≡ entry_directory dn))
user_export_converges_example =
    user_export_converges (λ s. s) comma (λ s. s) ada_row "ada" "Ada" ada_account "o=x" true
      (some ada_entry) entry_directory refl refl refl ada_stands ada_holds
