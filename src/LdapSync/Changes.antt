-- ===== src/LdapSync/Changes.antt =====
-- What the modifications that `diff_attributes` and `diff_user_attributes` compute do.
use pycroft.Base.{
  ◌≡◌, refl, Bool, true, ◌&&◌, if◌then◌else◌, Option, none, some, List, [], ◌∷◌, String, arith,
  Bool-cases, inl, inr, ap, str_eq, eq_iff,
}
use pycroft.Base.Dict.{get, has_key, UniqueKeys, get-has_key, get-pop}
use pycroft.LdapSync.Record.{Atom, NormalizedAttributes, atom_eq, atoms_eq, agrees}
use pycroft.LdapSync.Diff.{diff_attributes, diff_user_attributes, password, locked_time, is_falsy}

atom_eq_sound : (a b : Atom) → atom_eq a b ≡ true → a ≡ b
unfolding atom_eq
atom_eq_sound (Atom.str a) (Atom.str b) h = ap Atom.str ((eq_iff a b).0 h)
atom_eq_sound (Atom.str a) (Atom.bytes b) h = absurd (ground arith)
atom_eq_sound (Atom.str a) (Atom.number b) h = absurd (ground arith)
atom_eq_sound (Atom.bytes a) (Atom.str b) h = absurd (ground arith)
atom_eq_sound (Atom.bytes a) (Atom.bytes b) h = ap Atom.bytes ((eq_iff a b).0 h)
atom_eq_sound (Atom.bytes a) (Atom.number b) h = absurd (ground arith)
atom_eq_sound (Atom.number a) (Atom.str b) h = absurd (ground arith)
atom_eq_sound (Atom.number a) (Atom.bytes b) h = absurd (ground arith)
atom_eq_sound (Atom.number a) (Atom.number b) h = ground arith

pub atoms_eq_sound : (a b : List Atom) → atoms_eq a b ≡ true → a ≡ b
unfolding atoms_eq
atoms_eq_sound [] [] h = refl
atoms_eq_sound [] (y ∷ b) h = absurd (ground arith)
atoms_eq_sound (x ∷ a) [] h = absurd (ground arith)
atoms_eq_sound (x ∷ a) (y ∷ b) h = ground (arith, atom_eq_sound x y, atoms_eq_sound a b)

-- A value that is desired is a change unless the current one agrees with it.
abbrev pub change_of : Option (List Atom) → Option (List Atom) → Option (List Atom)
change_of current none = none
change_of current (some desired) = if agrees desired current then none else some desired

-- `diff_attributes` changes exactly the desired attributes that are new or have another value, to the
-- desired value. (The desired dict has no key twice.)
pub get-diff_attributes :
    (current desired : NormalizedAttributes) (k : String)
    → UniqueKeys desired
    → get k (diff_attributes current desired) ≡ change_of (get k current) (get k desired)
unfolding get diff_attributes
get-diff_attributes current [] k u = refl
get-diff_attributes current ((j, v) ∷ rest) k u = elim (Bool-cases (str_eq j k)) [
  | inl e ↦
      ground
        (arith, (eq_iff j k).0 e, get-diff_attributes current rest k u.1, get-has_key j rest u.0)
  | inr e ↦ ground (arith, get-diff_attributes current rest k u.1)
]

-- The value of an attribute after each of the modifications has replaced the old one.
abbrev pub replaced : Option (List Atom) → Option (List Atom) → Option (List Atom)
replaced old none = old
replaced old (some new) = some new

replaced-change_of :
    (current desired : Option (List Atom))
    → replaced current (change_of current desired) ≡ replaced current desired
unfolding agrees
replaced-change_of none none = refl
replaced-change_of none (some d) = refl
replaced-change_of (some c) none = refl
replaced-change_of (some c) (some d) = ground (arith, atoms_eq_sound d c)

-- Applied to the current attributes, the modifications give every desired attribute its desired
-- value, and leave the attributes that are not desired as they are.
pub diff_attributes_applied :
    (current desired : NormalizedAttributes) (k : String)
    → UniqueKeys desired
    → replaced (get k current) (get k (diff_attributes current desired))
      ≡ replaced (get k current) (get k desired)
diff_attributes_applied current desired k u =
    rw (get-diff_attributes current desired k u)
      (replaced-change_of (get k current) (get k desired))

-- Whether the ppolicy overlay is left to take the lock away: the password changes, and the lock is
-- desired to be gone or not to change.
abbrev pub leaves_lock : NormalizedAttributes → Bool
leaves_lock modifications =
    has_key password modifications && is_falsy (get locked_time modifications)

-- `diff_user_attributes` makes the changes of `diff_attributes`, but for the lock where that is left to
-- the overlay.
pub get-diff_user_attributes :
    (current desired : NormalizedAttributes) (k : String)
    → get k (diff_user_attributes current desired) ≡ (
        if leaves_lock (diff_attributes current desired) && str_eq locked_time k
        then none
        else get k (diff_attributes current desired))
unfolding diff_user_attributes
get-diff_user_attributes current desired k =
    ground (arith, get-pop locked_time k (diff_attributes current desired))
