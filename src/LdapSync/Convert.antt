-- ===== src/LdapSync/Convert.antt =====
-- ldap_sync/conversion.py: records made from the database and from the directory. `safe_dn` of ldap3 and
-- the encoding to ASCII with replacement are arguments.
use Prim.Native.String.{◌++◌}
use pycroft.Base.{
  ℕ, Bool, if◌then◌else◌, Option, none, some, List, [], ◌∷◌, String, str_eq, Result, ok, err,
  assertion_error, value_error, ◌>>=◌, ◌>>◌,
}
use pycroft.LdapSync.Record.{
  Atom, str, bytes, number, Values, many, one, missing, Attributes, Kind, user, group, Record,
  validate_attributes, make_record,
}

pub record UnixAccount : Type 0 where
  pub uid : ℕ
  pub gid : ℕ
  pub login_shell : String
  pub home_directory : String

-- What the conversion reads of a row of `User`
pub record DbUser : Type 0 where
  pub login : Option String
  pub name : Option String
  pub email : Option String
  pub email_forwarded : Bool
  pub passwd_hash : Option String
  pub unix_account : Option UnixAccount

-- The entry of a response of the directory
pub record LdapRecord : Type 0 where
  pub dn : String
  pub attributes : Attributes

-- `LDAP_OBJECTCLASSES`
abbrev pub object_classes : Kind → List Atom
object_classes user =
    str "top" ∷ str "inetOrgPerson" ∷ str "posixAccount" ∷ str "shadowAccount" ∷ []
object_classes group = str "groupOfMembers" ∷ []

unfoldable pub or_missing : Option String → Values
or_missing none = missing
or_missing (some s) = one (str s)

-- `pwd_hash_prefix + user.passwd_hash if user.passwd_hash else None`
unfoldable pub user_password : Bool → Option String → Values
user_password should_be_blocked none = missing
user_password should_be_blocked (some hash) =
    if str_eq hash "" then missing else one (str ((if should_be_blocked then "!" else "") ++ hash))

-- `assert value is not None`
unfoldable pub assert_some : Option String → Result String
assert_some none = err assertion_error
assert_some (some s) = ok s

-- `if user.unix_account is None: raise ValueError`
unfoldable pub account_of : Option UnixAccount → Result UnixAccount
account_of none = err value_error
account_of (some account) = ok account

module _ (safe_dn : List String → String) where
  unfoldable pub dn_from_username : String → String → String
  dn_from_username username base = safe_dn (("uid=" ++ username) ∷ base ∷ [])

  unfoldable pub dn_from_cn : String → String → String
  dn_from_cn name base = safe_dn (("cn=" ++ name) ∷ base ∷ [])

  -- `[dn_from_username(member, user_base_dn) for member in members]`
  unfoldable pub member_dns : List String → String → List Atom
  unfolding dn_from_username
  member_dns [] user_base_dn = []
  member_dns (m ∷ ms) user_base_dn =
      str (dn_from_username m user_base_dn) ∷ member_dns ms user_base_dn

module _ (escape : String → String) where
  unfoldable pub ldap_user_to_record : LdapRecord → Record
  ldap_user_to_record entry = make_record escape user entry.dn entry.attributes

  unfoldable pub ldap_group_to_record : LdapRecord → Record
  ldap_group_to_record entry = make_record escape group entry.dn entry.attributes

module _ (to_ascii : String → String) where
  -- the dict of `db_user_to_record`
  unfoldable pub user_attributes : String → String → UnixAccount → DbUser → Bool → Attributes
  unfolding or_missing user_password
  user_attributes login name account u should_be_blocked =
      ("objectClass", many (object_classes user))
      ∷ ("uid", one (str login))
      ∷ ("uidNumber", one (number account.uid))
      ∷ ("gidNumber", one (number account.gid))
      ∷ ("homeDirectory", one (str account.home_directory))
      ∷ ("userPassword", user_password should_be_blocked u.passwd_hash)
      ∷ ("gecos", one (bytes (to_ascii name)))
      ∷ ("loginShell", one (str account.login_shell))
      ∷ ("cn", one (str name))
      ∷ ("sn", one (str name))
      ∷ ("mail", if u.email_forwarded then or_missing u.email else missing)
      ∷ ("pwdAccountLockedTime", if should_be_blocked then one (str "000001010000Z") else many [])
      ∷ ("shadowExpire", if should_be_blocked then one (number 1) else many [])
      ∷ []

module _ (escape : String → String) (safe_dn : List String → String)
    (to_ascii : String → String) where
  unfoldable pub db_user_to_record : DbUser → String → Bool → Result Record
  unfolding user_attributes dn_from_username assert_some account_of
  db_user_to_record u base_dn should_be_blocked = do
    login ← assert_some u.login
    name ← assert_some u.name
    account ← account_of u.unix_account
    let attributes = user_attributes to_ascii login name account u should_be_blocked
    validate_attributes user attributes
    ok (make_record escape user (dn_from_username safe_dn login base_dn) attributes)

module _ (escape : String → String) (safe_dn : List String → String) where
  unfoldable pub db_group_to_record : String → List String → String → String → Result Record
  unfolding member_dns dn_from_cn
  db_group_to_record name members base_dn user_base_dn = do
    let attributes : Attributes =
        ("objectClass", many (object_classes group))
        ∷ ("cn", one (str name))
        ∷ ("member", many (member_dns safe_dn members user_base_dn))
        ∷ []
    validate_attributes group attributes
    ok (make_record escape group (dn_from_cn safe_dn name base_dn) attributes)
