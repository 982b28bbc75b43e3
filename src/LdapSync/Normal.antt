-- ===== src/LdapSync/Normal.antt =====
-- The attributes of a record: which there are, and that none stands twice.
use pycroft.Base.{
  ◌≡◌, refl, ◌&&◌, ◌||◌, if◌then◌else◌, List, [], ◌∷◌, String, str_eq, eq_iff, arith, ◌∙◌,
  Bool-cases, inl, inr, false,
}
use pycroft.Base.Dict.{has_key, put, UniqueKeys}
use pycroft.LdapSync.Record.{
  Values, many, Attributes, Kind, synced_attributes, member_of, restrict, set_defaults,
  escape_and_normalize_attrs, make_record,
}

has_key-put :
    (j k : String) (v : Values) (attrs : Attributes)
    → has_key k (put j v attrs) ≡ (str_eq j k || has_key k attrs)
unfolding has_key put
has_key-put j k v [] = ground arith
has_key-put j k v ((i, w) ∷ attrs) =
    ground (arith, has_key-put j k v attrs, eq_iff i j, eq_iff i k, eq_iff j k)

has_key-restrict :
    (keys : List String) (attrs : Attributes) (k : String)
    → has_key k (restrict keys attrs) ≡ (member_of k keys && has_key k attrs)
unfolding has_key restrict
has_key-restrict keys [] k = ground arith
has_key-restrict keys ((j, v) ∷ attrs) k =
    ground (arith, has_key-restrict keys attrs k, (eq_iff j k).0)

has_key-set_defaults :
    (keys : List String) (attrs : Attributes) (k : String)
    → has_key k (set_defaults keys attrs) ≡ (member_of k keys || has_key k attrs)
unfolding set_defaults member_of
has_key-set_defaults [] attrs k = refl
has_key-set_defaults (j ∷ keys) attrs k =
    has_key-set_defaults keys (if has_key j attrs then attrs else put j (many []) attrs) k
    ∙ ground (arith, has_key-put j k (many []) attrs, (eq_iff j k).0)

has_key-escape :
    (escape : String → String) (attrs : Attributes) (k : String)
    → has_key k (escape_and_normalize_attrs escape attrs) ≡ has_key k attrs
unfolding has_key escape_and_normalize_attrs
has_key-escape escape [] k = refl
has_key-escape escape ((j, v) ∷ attrs) k = rw (has_key-escape escape attrs k) refl

put-UniqueKeys :
    (k : String) (v : Values) (attrs : Attributes)
    → has_key k attrs ≡ false
    → UniqueKeys attrs
    → UniqueKeys (put k v attrs)
unfolding put has_key
put-UniqueKeys k v [] h u = (refl, tt)
put-UniqueKeys k v ((j, w) ∷ attrs) h u =
    rw (let other : str_eq j k ≡ false = ground arith in other) (
      has_key-put k j v attrs ∙ ground (arith, u.0, eq_iff k j, eq_iff j k),
      put-UniqueKeys k v attrs (ground arith) u.1,
    )

restrict-UniqueKeys :
    (keys : List String) (attrs : Attributes) → UniqueKeys attrs → UniqueKeys (restrict keys attrs)
unfolding restrict
restrict-UniqueKeys keys [] u = tt
restrict-UniqueKeys keys ((j, v) ∷ attrs) u = elim (Bool-cases (member_of j keys)) [
  | inl kept ↦
      rw kept
        (has_key-restrict keys attrs j ∙ ground (arith, u.0), restrict-UniqueKeys keys attrs u.1)
  | inr gone ↦ rw gone (restrict-UniqueKeys keys attrs u.1)
]

set_defaults-UniqueKeys :
    (keys : List String) (attrs : Attributes)
    → UniqueKeys attrs
    → UniqueKeys (set_defaults keys attrs)
unfolding set_defaults
set_defaults-UniqueKeys [] attrs u = u
set_defaults-UniqueKeys (k ∷ keys) attrs u = elim (Bool-cases (has_key k attrs)) [
  | inl there ↦ rw there (set_defaults-UniqueKeys keys attrs u)
  | inr absent ↦ rw absent (
      set_defaults-UniqueKeys keys (put k (many []) attrs)
        (put-UniqueKeys k (many []) attrs absent u))
]

escape-UniqueKeys :
    (escape : String → String) (attrs : Attributes)
    → UniqueKeys attrs
    → UniqueKeys (escape_and_normalize_attrs escape attrs)
unfolding escape_and_normalize_attrs
escape-UniqueKeys escape [] u = tt
escape-UniqueKeys escape ((j, v) ∷ attrs) u =
    (has_key-escape escape attrs j ∙ u.0, escape-UniqueKeys escape attrs u.1)

-- No attribute of a record stands twice, if none of those it is made from does.
pub make_record-UniqueKeys :
    (escape : String → String) (kind : Kind) (dn : String) (attrs : Attributes)
    → UniqueKeys attrs
    → UniqueKeys (make_record escape kind dn attrs).attrs
unfolding make_record
make_record-UniqueKeys escape kind dn attrs u =
    let keys = synced_attributes kind in
    escape-UniqueKeys escape (set_defaults keys (restrict keys attrs))
      (set_defaults-UniqueKeys keys (restrict keys attrs) (restrict-UniqueKeys keys attrs u))

-- Whatever attributes a record is made from, it has an attribute exactly if its class synchronises it:
-- none is missing, and none is superfluous.
pub has_key-make_record :
    (escape : String → String) (kind : Kind) (dn : String) (attrs : Attributes) (k : String)
    → has_key k (make_record escape kind dn attrs).attrs ≡ member_of k (synced_attributes kind)
unfolding make_record
has_key-make_record escape kind dn attrs k =
    let keys = synced_attributes kind in
    has_key-escape escape (set_defaults keys (restrict keys attrs)) k
    ∙ has_key-set_defaults keys (restrict keys attrs) k
    ∙ ground (arith, has_key-restrict keys attrs k)
