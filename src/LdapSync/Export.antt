-- ===== src/LdapSync/Export.antt =====
-- ldap_sync/conversion.py with ldap_sync/record_diff.py: a user of the database is carried over into
-- the directory.
use pycroft.Base.{
  str_eq, ◌≡◌, refl, ◌∙◌, sym, Bool, true, Option, none, some, List, String, ok, Bool-cases, inl,
  inr, ◌⊎◌, eq_iff,
}
use pycroft.Base.Dict.{has_key, UniqueKeys, get-has_key, has_key-get}
use pycroft.LdapSync.Record.{Attributes, user, Record, record_eq, make_record, validate_attributes}
use pycroft.LdapSync.Normal.{has_key-make_record, make_record-UniqueKeys}
use pycroft.LdapSync.Diff.{Action, diff_records, modify_by_kind}
use pycroft.LdapSync.Converge.{action_converges, Covers, Reached}
use pycroft.LdapSync.Directory.{Directory, held_entry, carried_out}
use pycroft.LdapSync.Convert.{
  UnixAccount, DbUser, LdapRecord, user_attributes, dn_from_username, db_user_to_record,
  ldap_user_to_record, assert_some, account_of,
}
use pycroft.LdapSync.Entry.{Describes, record_Describes}

-- The record of the entry that the directory has, if it has one
abbrev pub current_record : (String → String) → Option LdapRecord → Option Record
current_record escape none = none
current_record escape (some entry) = some (ldap_user_to_record escape entry)

-- The entry of the directory has this dn.
abbrev pub StandsAt : Option LdapRecord → String → Type 0
StandsAt none dn = Unit
StandsAt (some entry) dn = entry.dn ≡ dn

module _ (to_ascii : String → String) where
  user_attributes-UniqueKeys :
      (login name : String) (account : UnixAccount) (u : DbUser) (blocked : Bool)
      → UniqueKeys (user_attributes to_ascii login name account u blocked)
  unfolding user_attributes has_key
  user_attributes-UniqueKeys login name account u blocked = (
    refl,
    (
      refl,
      (refl, (refl, (refl, (refl, (refl, (refl, (refl, (refl, (refl, (refl, (refl, tt))))))))))),
    ),
  )

  attributes_valid :
      (login name : String) (account : UnixAccount) (u : DbUser) (blocked : Bool)
      → validate_attributes user (user_attributes to_ascii login name account u blocked) ≡ ok tt
  unfolding user_attributes has_key validate_attributes
  attributes_valid login name account u blocked = refl

module _ (escape : String → String) where
  diff_users_total :
      (current : Option LdapRecord) (dn : String) (attrs : Attributes)
      → StandsAt current dn
      → (a : Action) × (diff_records
            (current_record escape current)
            (some (make_record escape user dn attrs))
          ≡ ok a)
  unfolding diff_records modify_by_kind make_record ldap_user_to_record
  diff_users_total none dn attrs h = (_, refl)
  diff_users_total (some entry) dn attrs h =
      let c = make_record escape user entry.dn entry.attributes in
      let d = make_record escape user dn attrs in
      elim (Bool-cases (record_eq c d)) [
        | inl equal ↦ rw equal (_, refl)
        | inr differ ↦ rw (differ, (eq_iff entry.dn dn).1 h) (_, refl)
      ]

  current_record-Covers :
      (current : Option LdapRecord) (dn : String) (attrs : Attributes)
      → UniqueKeys attrs
      → Covers (current_record escape current) (some (make_record escape user dn attrs))
  unfolding ldap_user_to_record
  current_record-Covers none dn attrs u = make_record-UniqueKeys escape user dn attrs u
  current_record-Covers (some entry) dn attrs u = (
    make_record-UniqueKeys escape user dn attrs u,
    λ k h. get-has_key k (make_record escape user entry.dn entry.attributes).attrs (
        has_key-make_record escape user entry.dn entry.attributes k
        ∙ sym (has_key-make_record escape user dn attrs k)
        ∙ has_key-get k (make_record escape user dn attrs).attrs h),
  )

-- A user with a login, a name and an account in the sense of Unix always has a record, at the dn of the
-- login and with the attributes of the user, who is locked exactly if this is asked for. Where the
-- directory has no entry at this dn, or one whose record is given, there is an action that carries the
-- record over: it changes the entry at this dn and no other one, and after it every attribute there has
-- the values of the record, but for the account lock where its removal is left to the overlay.
pub user_export_converges :
    (escape : String → String) (safe_dn : List String → String) (to_ascii : String → String)
    (u : DbUser) (login name : String) (account : UnixAccount) (base_dn : String) (blocked : Bool)
    (current : Option LdapRecord) (directory : Directory)
    → u.login ≡ some login
    → u.name ≡ some name
    → u.unix_account ≡ some account
    → StandsAt current (dn_from_username safe_dn login base_dn)
    → directory (dn_from_username safe_dn login base_dn)
      ≡ held_entry (current_record escape current)
    → (r : Record) × (db_user_to_record escape safe_dn to_ascii u base_dn blocked ≡ ok r)
      × (r.dn ≡ dn_from_username safe_dn login base_dn)
      × Describes escape to_ascii u login name account blocked r
      × (a : Action) × (diff_records (current_record escape current) (some r) ≡ ok a)
      × Reached (current_record escape current) (some r) (carried_out a directory r.dn)
      × ((dn : String) → (str_eq r.dn dn ≡ true) ⊎ (carried_out a directory dn ≡ directory dn))
unfolding db_user_to_record assert_some account_of make_record
user_export_converges escape safe_dn to_ascii u login name account base_dn blocked current directory
      l n h at holds =
    let attrs = user_attributes to_ascii login name account u blocked in
    let dn = dn_from_username safe_dn login base_dn in
    let unique = user_attributes-UniqueKeys to_ascii login name account u blocked in
    let (a, e) = diff_users_total escape current dn attrs at in
    let (reached, others) =
      action_converges (current_record escape current) (some (make_record escape user dn attrs)) a
        directory e (current_record-Covers escape current dn attrs unique) holds in
    (
      make_record escape user dn attrs,
      rw (l, n, h, attributes_valid to_ascii login name account u blocked) refl,
      refl,
      record_Describes escape to_ascii u login name account dn blocked,
      a,
      e,
      reached,
      others,
    )
