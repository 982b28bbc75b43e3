-- ===== src/LdapSync/Converge.antt =====
-- What the action that `diff_records` determines makes of the directory.
use pycroft.Base.{
  ◌≡◌, refl, Bool, true, false, ◌&&◌, Option, none, some, List, [], ◌∷◌, String, arith, Bool-cases,
  inl, inr, ◌⊎◌, ap, str_eq, eq_iff, ok, ◌∙◌, sym, subst, ok-injective,
}
use pycroft.Base.Dict.{get, UniqueKeys, get-has_key}
use pycroft.LdapSync.Record.{
  Atom, NormalizedAttributes, Kind, user, group, Record, record_eq, attrs_eq, included, agrees,
}
use pycroft.LdapSync.Diff.{
  Action, idle_action, nonempty_attrs, diff_attributes, diff_user_attributes, diff_records,
  modify_by_kind, locked_time,
}
use pycroft.LdapSync.Changes.{
  replaced, diff_attributes_applied, atoms_eq_sound, leaves_lock, get-diff_user_attributes,
}
use pycroft.LdapSync.Directory.{
  or_empty, Entry, Directory, entry_of, target, outcome, carried_out, held_entry, values_of, dn_of,
}

or_empty-nonempty_attrs :
    (attrs : NormalizedAttributes) (k : String)
    → UniqueKeys attrs
    → or_empty (get k (nonempty_attrs attrs)) ≡ or_empty (get k attrs)
unfolding get nonempty_attrs
or_empty-nonempty_attrs [] k u = refl
or_empty-nonempty_attrs ((j, []) ∷ attrs) k u =
    ground (arith, or_empty-nonempty_attrs attrs k u.1, get-has_key j attrs u.0, (eq_iff j k).0)
or_empty-nonempty_attrs ((j, v ∷ vs) ∷ attrs) k u =
    ground (arith, or_empty-nonempty_attrs attrs k u.1)

agrees_sound : (ws : List Atom) (o : Option (List Atom)) → agrees ws o ≡ true → o ≡ some ws
unfolding agrees
agrees_sound ws none h = absurd (ground arith)
agrees_sound ws (some vs) h = ap some (sym (atoms_eq_sound ws vs h))

included-get :
    (a b : NormalizedAttributes) (k : String) (vs : List Atom)
    → included a b ≡ true
    → get k a ≡ some vs
    → get k b ≡ some vs
unfolding included get agrees
included-get [] b k vs h e = absurd (ground arith)
included-get ((j, ws) ∷ a) b k vs h e =
    ground (arith, agrees_sound ws (get j b), included-get a b k vs, (eq_iff j k).0)

-- The desired record has every attribute of the current one, and none twice.
abbrev pub Covers : Option Record → Option Record → Type 0
Covers none none = Unit
Covers none (some d) = UniqueKeys d.attrs
Covers (some c) none = Unit
Covers (some c) (some d) =
    UniqueKeys d.attrs × ((k : String) → get k d.attrs ≡ none → get k c.attrs ≡ none)

-- Whether an attribute is the lock, and its removal is left to the overlay.
abbrev pub left_to_overlay : Option Record → Option Record → String → Bool
left_to_overlay (some c) (some d) k =
    leaves_lock (diff_attributes c.attrs d.attrs) && str_eq locked_time k
left_to_overlay _ _ k = false

attrs_eq-get : (a b : NormalizedAttributes) (k : String) → attrs_eq a b ≡ true → get k a ≡ get k b
unfolding attrs_eq
attrs_eq-get a b k h = go (get k a) (get k b) refl refl
  where
    go : (x y : Option (List Atom)) → get k a ≡ x → get k b ≡ y → get k a ≡ get k b
    go none none p q = p ∙ sym q
    go none (some ys) p q = included-get b a k ys (ground arith) q ∙ sym q
    go (some xs) y p q = p ∙ sym (included-get a b k xs (ground arith) p)

replaced_covered :
    (x y : Option (List Atom)) → (y ≡ none → x ≡ none) → or_empty (replaced x y) ≡ or_empty y
replaced_covered x none h = ap or_empty (h refl)
replaced_covered x (some y) h = refl

-- The entry is what is desired: it is gone, or it is there and has the values of the record, but for
-- the account lock where its removal is left to the overlay: there it keeps its values.
abbrev pub Reached : Option Record → Option Record → Option Entry → Type 0
Reached current none entry = entry ≡ none
Reached current (some d) entry =
    (e : Entry) × (entry ≡ some e)
    × ((k : String)
        → ((left_to_overlay current (some d) k ≡ true) × (e k ≡ values_of current k))
          ⊎ (e k ≡ entry_of d.attrs k))

-- A modified entry
modified : NormalizedAttributes → Entry → Entry
modified changes old k = or_empty (replaced (some (old k)) (get k changes))

modified-replaced :
    (changes attrs : NormalizedAttributes) (k : String)
    → modified changes (entry_of attrs) k ≡ or_empty (replaced (get k attrs) (get k changes))
unfolding modified
modified-replaced changes attrs k = go (get k attrs) (get k changes)
  where
    go :
        (x y : Option (List Atom))
        → or_empty (replaced (some (or_empty x)) y) ≡ or_empty (replaced x y)
    go none none = refl
    go (some xs) none = refl
    go x (some ys) = refl

diff_converges :
    (c d : Record) (k : String)
    → Covers (some c) (some d)
    → modified (diff_attributes c.attrs d.attrs) (entry_of c.attrs) k ≡ entry_of d.attrs k
diff_converges c d k p =
    modified-replaced (diff_attributes c.attrs d.attrs) c.attrs k
    ∙ ap or_empty (diff_attributes_applied c.attrs d.attrs k p.0)
    ∙ replaced_covered (get k c.attrs) (get k d.attrs) (p.1 k)

user_converges :
    (c d : Record) (k : String)
    → Covers (some c) (some d)
    → ((left_to_overlay (some c) (some d) k ≡ true)
        × (modified (diff_user_attributes c.attrs d.attrs) (entry_of c.attrs) k
            ≡ values_of (some c) k))
      ⊎ (modified (diff_user_attributes c.attrs d.attrs) (entry_of c.attrs) k ≡ entry_of d.attrs k)
unfolding modified
user_converges c d k p = elim (Bool-cases (left_to_overlay (some c) (some d) k)) [
  | inl lock ↦ inl (lock, rw (get-diff_user_attributes c.attrs d.attrs k, lock) refl)
  | inr other ↦
      inr (rw (get-diff_user_attributes c.attrs d.attrs k, other) (diff_converges c d k p))
]

-- What an action that has been determined is aimed at, and what becomes of the entry there
abbrev Right : Option Record → Option Record → Action → Type 0
Right current desired a =
    (target a ≡ dn_of current desired) × Reached current desired (outcome a (held_entry current))

modify-Right :
    (m n : Kind) (c d : Record) (a : Action)
    → modify_by_kind m n c d ≡ ok a
    → Covers (some c) (some d)
    → Right (some c) (some d) a
unfolding modify_by_kind modified
modify-Right user user c d a h p =
    subst (Right (some c) (some d)) (ok-injective h) (refl, (_, refl, λ k. user_converges c d k p))
modify-Right user group c d a h p = absurd (ground arith)
modify-Right group user c d a h p = absurd (ground arith)
modify-Right group group c d a h p =
    subst (Right (some c) (some d)) (ok-injective h)
      (refl, (_, refl, λ k. inr (diff_converges c d k p)))

diff_records-Right :
    (current desired : Option Record) (a : Action)
    → diff_records current desired ≡ ok a
    → Covers current desired
    → Right current desired a
unfolding diff_records record_eq
diff_records-Right none none a h p = absurd (ground arith)
diff_records-Right none (some d) a h p =
    subst (Right none (some d)) (ok-injective h)
      (refl, (_, refl, λ k. inr (or_empty-nonempty_attrs d.attrs k p)))
diff_records-Right (some c) none a h p = subst (Right (some c) none) (ok-injective h) (refl, refl)
diff_records-Right (some c) (some d) a h p = elim (Bool-cases (str_eq c.dn d.dn)) [
  | inr other ↦ absurd (ground arith)
  | inl same ↦ elim (Bool-cases (attrs_eq c.attrs d.attrs)) [
    | inl equal ↦
        subst (Right (some c) (some d))
          (ok-injective (let e : ok (idle_action d.dn) ≡ ok a = ground arith in e))
          (refl, (_, refl, λ k. inr (ap or_empty (attrs_eq-get c.attrs d.attrs k equal))))
    | inr differ ↦ modify-Right c.kind d.kind c d a (ground arith) p
  ]
]

pub action_converges :
    (current desired : Option Record) (a : Action) (directory : Directory)
    → diff_records current desired ≡ ok a
    → Covers current desired
    → directory (dn_of current desired) ≡ held_entry current
    → Reached current desired (carried_out a directory (dn_of current desired))
      × ((dn : String)
          → (str_eq (dn_of current desired) dn ≡ true)
            ⊎ (carried_out a directory dn ≡ directory dn))
action_converges current desired a directory h p stands =
    let (aim, reached) = diff_records-Right current desired a h p in
    (
      subst (Reached current desired)
          (sym (
            rw (aim, (eq_iff (dn_of current desired) (dn_of current desired)).1 refl, stands) refl))
          reached,
      λ dn. elim (Bool-cases (str_eq (dn_of current desired) dn)) [
        | inl here ↦ inl here
        | inr other ↦ inr (rw (aim, other) refl)
      ],
    )
