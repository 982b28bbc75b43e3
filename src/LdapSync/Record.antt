-- ===== src/LdapSync/Record.antt =====
-- ldap_sync/concepts/record.py: records of users and groups, with normalised attributes.
-- `escape_filter_chars` of the package ldap3 is the argument `escape`.
use pycroft.Base.{
  ℕ, Bool, true, false, not, ◌&&◌, ◌||◌, if◌then◌else◌, Option, none, some, List, [], ◌∷◌, map,
  String, ◌==◌, Result, assertion_error, raise_if, ◌>>◌, str_eq,
}
use pycroft.Base.Dict.{Dict, get, has_key, put}

-- One value of an attribute: Python's str, bytes and int.
pub data Atom : Type 0 where
  str bytes : String → Atom
  number : ℕ → Atom

unfoldable pub atom_eq : Atom → Atom → Bool
atom_eq (str a) (str b) = str_eq a b
atom_eq (bytes a) (bytes b) = str_eq a b
atom_eq (number a) (number b) = a == b
atom_eq _ _ = false

unfoldable pub atoms_eq : List Atom → List Atom → Bool
unfolding atom_eq
atoms_eq [] [] = true
atoms_eq (a ∷ as') (b ∷ bs) = atom_eq a b && atoms_eq as' bs
atoms_eq _ _ = false

-- `AttributeValues`: a list, a single value or None.
pub data Values : Type 0 where
  many : List Atom → Values
  one : Atom → Values
  missing : Values

abbrev pub Attributes : Type 0
Attributes = Dict Values

abbrev pub NormalizedAttributes : Type 0
NormalizedAttributes = Dict (List Atom)

unfoldable pub is_blank : Atom → Bool
is_blank (str s) = str_eq s ""
is_blank (bytes s) = str_eq s ""
is_blank (number n) = false

-- `_canonicalize_to_list`
unfoldable pub canonicalize_to_list : Values → List Atom
unfolding is_blank
canonicalize_to_list (many vs) = vs
canonicalize_to_list (one v) = if is_blank v then [] else v ∷ []
canonicalize_to_list missing = []

pub data Kind : Type 0 where
  user group : Kind

-- `Record` and its subclasses: the class, the dn and the attributes.
pub record Record : Type 0 where
  pub kind : Kind
  pub dn : String
  pub attrs : NormalizedAttributes

-- `SYNCED_ATTRIBUTES`
abbrev pub synced_attributes : Kind → List String
synced_attributes user =
    "objectClass" ∷ "mail" ∷ "sn" ∷ "cn" ∷ "loginShell" ∷ "gecos" ∷ "userPassword" ∷ "homeDirectory"
    ∷ "gidNumber" ∷ "uidNumber" ∷ "uid" ∷ "pwdAccountLockedTime" ∷ "shadowExpire" ∷ []
synced_attributes group = "objectClass" ∷ "cn" ∷ "member" ∷ []

unfoldable pub member_of : String → List String → Bool
member_of k [] = false
member_of k (j ∷ js) = str_eq j k || member_of k js

-- `{k: v for k, v in attrs.items() if k in self.SYNCED_ATTRIBUTES}`
unfoldable pub restrict : List String → Attributes → Attributes
unfolding member_of
restrict keys [] = []
restrict keys ((k, v) ∷ attrs) =
    let rest = restrict keys attrs in if member_of k keys then (k, v) ∷ rest else rest

-- `attrs.setdefault(key, [])` for each key
unfoldable pub set_defaults : List String → Attributes → Attributes
set_defaults [] attrs = attrs
set_defaults (k ∷ keys) attrs =
    set_defaults keys (if has_key k attrs then attrs else put k (many []) attrs)

-- `_validate_attributes`: no synced attribute is missing, and none is superfluous.
all_present : List String → Attributes → Bool
all_present [] attrs = true
all_present (k ∷ keys) attrs = has_key k attrs && all_present keys attrs

none_superfluous : List String → Attributes → Bool
none_superfluous keys [] = true
none_superfluous keys ((k, v) ∷ attrs) = member_of k keys && none_superfluous keys attrs

unfoldable pub validate_attributes : Kind → Attributes → Result (Unit {0})
unfolding all_present none_superfluous member_of
validate_attributes kind attrs = do
  raise_if (not (all_present (synced_attributes kind) attrs)) assertion_error
  raise_if (not (none_superfluous (synced_attributes kind) attrs)) assertion_error

module _ (escape : String → String) where
  -- `_maybe_escape_filter_chars`: the escaped bytes are a str, as in the source.
  unfoldable pub maybe_escape : Atom → Atom
  maybe_escape (str s) = str (escape s)
  maybe_escape (bytes s) = str (escape s)
  maybe_escape (number n) = number n

  unfoldable pub escape_and_normalize_attrs : Attributes → NormalizedAttributes
  unfolding maybe_escape canonicalize_to_list
  escape_and_normalize_attrs [] = []
  escape_and_normalize_attrs ((k, v) ∷ attrs) =
      (k, map maybe_escape (canonicalize_to_list v)) ∷ escape_and_normalize_attrs attrs

  -- `Record.__init__`
  unfoldable pub make_record : Kind → String → Attributes → Record
  unfolding restrict set_defaults escape_and_normalize_attrs
  make_record kind dn attrs = record {
    kind = kind;
    dn = dn;
    attrs =
        escape_and_normalize_attrs
          (set_defaults (synced_attributes kind) (restrict (synced_attributes kind) attrs));
  }

-- `==` on two dicts: the same keys, with equal values.
unfoldable pub agrees : List Atom → Option (List Atom) → Bool
agrees vs none = false
agrees vs (some ws) = atoms_eq vs ws

unfoldable pub included : NormalizedAttributes → NormalizedAttributes → Bool
unfolding agrees
included [] b = true
included ((k, vs) ∷ a) b = agrees vs (get k b) && included a b

unfoldable pub attrs_eq : NormalizedAttributes → NormalizedAttributes → Bool
unfolding included
attrs_eq a b = included a b && included b a

-- `Record.__eq__` compares the dn and the attributes, and not the class.
unfoldable pub record_eq : Record → Record → Bool
unfolding attrs_eq
record_eq a b = str_eq a.dn b.dn && attrs_eq a.attrs b.attrs
