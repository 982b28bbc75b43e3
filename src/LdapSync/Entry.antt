-- ===== src/LdapSync/Entry.antt =====
-- The entry of a user in the directory, ldap_sync/conversion.py.
use Prim.Native.String.{◌++◌}
use pycroft.Base.{
  [], ◌∷◌, if◌then◌else◌, map, str_eq, ◌≡◌, refl, Bool, true, false, Option, none, some, List,
  String, Bool-cases, inl, inr,
}
use pycroft.Base.Dict.{get, has_key}
use pycroft.LdapSync.Record.{
  Atom, str, bytes, many, missing, is_blank, number, one, canonicalize_to_list, maybe_escape,
  restrict, set_defaults, escape_and_normalize_attrs, member_of, user, Record, make_record,
}
use pycroft.LdapSync.Directory.{entry_of}
use pycroft.LdapSync.Convert.{UnixAccount, DbUser, user_attributes, or_missing, user_password}

-- The values of a text, of which an empty one is none
abbrev pub text_values : (String → String) → String → List Atom
text_values escape s = if str_eq s "" then [] else str (escape s) ∷ []

abbrev pub optional_values : (String → String) → Option String → List Atom
optional_values escape none = []
optional_values escape (some s) = text_values escape s

-- The hash of the password, with an exclamation mark before it for a user who is blocked
abbrev pub hash_values : (String → String) → Bool → Option String → List Atom
hash_values escape blocked none = []
hash_values escape blocked (some hash) =
    if str_eq hash "" then [] else text_values escape ((if blocked then "!" else "") ++ hash)

-- The entry of a user, attribute by attribute
abbrev pub Describes :
    (String → String)
    → (String → String)
    → DbUser
    → String
    → String
    → UnixAccount
    → Bool
    → Record
    → Type 0
Describes escape to_ascii u login name account blocked r =
    (entry_of r.attrs "objectClass"
      ≡ str (escape "top")
        ∷ str (escape "inetOrgPerson")
        ∷ str (escape "posixAccount")
        ∷ str (escape "shadowAccount")
        ∷ [])
    × (entry_of r.attrs "uid" ≡ text_values escape login)
    × (entry_of r.attrs "uidNumber" ≡ number account.uid ∷ [])
    × (entry_of r.attrs "gidNumber" ≡ number account.gid ∷ [])
    × (entry_of r.attrs "homeDirectory" ≡ text_values escape account.home_directory)
    × (entry_of r.attrs "loginShell" ≡ text_values escape account.login_shell)
    × (entry_of r.attrs "gecos" ≡ text_values escape (to_ascii name))
    × (entry_of r.attrs "cn" ≡ text_values escape name)
    × (entry_of r.attrs "sn" ≡ text_values escape name)
    × (entry_of r.attrs "mail" ≡ (if u.email_forwarded then optional_values escape u.email else []))
    × (entry_of r.attrs "userPassword" ≡ hash_values escape blocked u.passwd_hash)
    × (entry_of r.attrs "pwdAccountLockedTime"
        ≡ (if blocked then str (escape "000001010000Z") ∷ [] else []))
    × (entry_of r.attrs "shadowExpire" ≡ (if blocked then number 1 ∷ [] else []))

canonical :
    (escape : String → String) (s : String)
    → map (maybe_escape escape) (canonicalize_to_list (one (str s))) ≡ text_values escape s
unfolding canonicalize_to_list maybe_escape is_blank
canonical escape s = elim (Bool-cases (str_eq s "")) [ inl e ↦ rw e refl | inr n ↦ rw n refl ]

canonical_bytes :
    (escape : String → String) (s : String)
    → map (maybe_escape escape) (canonicalize_to_list (one (bytes s))) ≡ text_values escape s
unfolding canonicalize_to_list maybe_escape is_blank
canonical_bytes escape s = elim (Bool-cases (str_eq s "")) [ inl e ↦ rw e refl | inr n ↦ rw n refl ]

canonical_mail :
    (escape : String → String) (forwarded : Bool) (email : Option String)
    → map
        (maybe_escape escape)
        (canonicalize_to_list (if forwarded then or_missing email else missing))
      ≡ (if forwarded then optional_values escape email else [])
unfolding canonicalize_to_list or_missing
canonical_mail escape true none = refl
canonical_mail escape true (some email) = canonical escape email
canonical_mail escape false email = refl

canonical_password :
    (escape : String → String) (blocked : Bool) (hash : Option String)
    → map (maybe_escape escape) (canonicalize_to_list (user_password blocked hash))
      ≡ hash_values escape blocked hash
unfolding canonicalize_to_list user_password
canonical_password escape blocked none = refl
canonical_password escape true (some hash) = elim (Bool-cases (str_eq hash "")) [
  | inl e ↦ rw e refl
  | inr n ↦ rw n (canonical escape ("!" ++ hash))
]
canonical_password escape false (some hash) = elim (Bool-cases (str_eq hash "")) [
  | inl e ↦ rw e refl
  | inr n ↦ rw n (canonical escape ("" ++ hash))
]

canonical_lock :
    (escape : String → String) (blocked : Bool)
    → (map
          (maybe_escape escape)
          (canonicalize_to_list (if blocked then one (str "000001010000Z") else many []))
        ≡ (if blocked then str (escape "000001010000Z") ∷ [] else []))
      × (map
            (maybe_escape escape)
            (canonicalize_to_list (if blocked then one (number 1) else many []))
          ≡ (if blocked then number 1 ∷ [] else []))
unfolding canonicalize_to_list maybe_escape is_blank
canonical_lock escape true = (refl, refl)
canonical_lock escape false = (refl, refl)

pub record_Describes :
    (escape to_ascii : String → String) (u : DbUser) (login name : String) (account : UnixAccount)
    (dn : String) (blocked : Bool)
    → Describes escape to_ascii u login name account blocked
        (make_record escape user dn (user_attributes to_ascii login name account u blocked))
unfolding make_record user_attributes get has_key canonicalize_to_list maybe_escape restrict
    set_defaults escape_and_normalize_attrs member_of is_blank
record_Describes escape to_ascii u login name account dn blocked = (
  refl,
  canonical escape login,
  refl,
  refl,
  canonical escape account.home_directory,
  canonical escape account.login_shell,
  canonical_bytes escape (to_ascii name),
  canonical escape name,
  canonical escape name,
  canonical_mail escape u.email_forwarded u.email,
  canonical_password escape blocked u.passwd_hash,
  (canonical_lock escape blocked).0,
  (canonical_lock escape blocked).1,
)
