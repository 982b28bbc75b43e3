-- ===== src/LdapSync/Sync.antt =====
-- One action for each record of either side, and the directory after the actions.
use pycroft.Base.{
  ◌≡◌, refl, Bool, true, false, ◌||◌, if◌then◌else◌, Option, none, some, List, [], ◌∷◌, String,
  arith, Bool-cases, inl, inr, str_eq, eq_iff, Result, ok, err, >>=-returns, ◌>>=◌, sym, ◌∙◌,
}
use pycroft.Base.Dict.{Dict, get, has_key, put, get-put, has_key-get}
use pycroft.LdapSync.Record.{Kind, user, group, Record, record_eq}
use pycroft.LdapSync.Diff.{
  Action, add_action, modify_action, delete_action, idle_action, nonempty_attrs, diff_attributes,
  diff_user_attributes, diff_records, modify_by_kind, by_dn, new_keys, keys_of, diff_keys,
  join_keys, diff_dicts, bulk_diff_records,
}

abbrev pub to_option : Result Action → Option Action
to_option (ok a) = some a
to_option (err e) = none

listed : String → List String → Bool
listed k [] = false
listed k (j ∷ js) = str_eq j k || listed k js

get-diff_keys :
    (d1 d2 : Dict Record) (ks : List String) (acts : Dict Action) (k : String)
    → diff_keys d1 d2 ks ≡ ok acts
    → get k acts ≡ (if listed k ks then to_option (diff_records (get k d1) (get k d2)) else none)
unfolding diff_keys listed get
get-diff_keys d1 d2 [] acts k h = ground arith
get-diff_keys d1 d2 (j ∷ js) acts k h =
    let (a, e, rest) =
      >>=-returns (diff_records (get j d1) (get j d2))
        (λ a. diff_keys d1 d2 js >>= λ r. ok ((j, a) ∷ r)) h in
    let (as', e', last) = >>=-returns (diff_keys d1 d2 js) (λ r. ok ((j, a) ∷ r)) rest in
    elim (Bool-cases (str_eq j k)) [
      | inl s ↦ ground (arith, (eq_iff j k).0 s, e, last)
      | inr s ↦ ground (arith, get-diff_keys d1 d2 js as' k e', last)
    ]

listed-join_keys :
    (k : String) (is js : List String) → listed k (join_keys is js) ≡ (listed k is || listed k js)
unfolding listed join_keys
listed-join_keys k [] js = refl
listed-join_keys k (i ∷ is) js = ground (arith, listed-join_keys k is js)

listed-keys_of : (k : String) (d : Dict Record) → listed k (keys_of d) ≡ has_key k d
unfolding listed keys_of has_key
listed-keys_of k [] = refl
listed-keys_of k ((j, r) ∷ d) = ground (arith, listed-keys_of k d)

listed-new_keys :
    (k : String) (d1 d2 : Dict Record)
    → (has_key k d1 || listed k (new_keys d1 d2)) ≡ (has_key k d1 || has_key k d2)
unfolding listed new_keys has_key
listed-new_keys k d1 [] = refl
listed-new_keys k d1 ((j, r) ∷ d2) = ground (arith, listed-new_keys k d1 d2, (eq_iff j k).0)

-- If the comparison of two dicts of records succeeds, each key of either dict has exactly the action
-- that `diff_records` determines from its two records, and no other key has one.
pub get-diff_dicts :
    (d1 d2 : Dict Record) (acts : Dict Action) (k : String)
    → diff_dicts d1 d2 ≡ ok acts
    → get k acts ≡ (
        if has_key k d1 || has_key k d2
        then to_option (diff_records (get k d1) (get k d2))
        else none)
unfolding diff_dicts
get-diff_dicts d1 d2 acts k h = ground (
  arith,
  get-diff_keys d1 d2 (join_keys (keys_of d1) (new_keys d1 d2)) acts k h,
  listed-join_keys k (keys_of d1) (new_keys d1 d2),
  listed-keys_of k d1,
  listed-new_keys k d1 d2,
)

-- Each record stands under its own dn.
abbrev pub IsKeyed : Dict Record → Type 0
IsKeyed d = (k : String) (r : Record) → get k d ≡ some r → r.dn ≡ k

put-IsKeyed : (r : Record) (d : Dict Record) → IsKeyed d → IsKeyed (put r.dn r d)
put-IsKeyed r d h k s e = ground (arith, get-put r.dn k r d, eq_iff r.dn k, h k s)

pub by_dn-IsKeyed : (acc : Dict Record) (rs : List Record) → IsKeyed acc → IsKeyed (by_dn acc rs)
unfolding by_dn
by_dn-IsKeyed acc [] h = h
by_dn-IsKeyed acc (r ∷ rs) h = by_dn-IsKeyed (put r.dn r acc) rs (put-IsKeyed r acc h)

modify_ok : (k l : Kind) (c d : Record) → k ≡ l → (a : Action) × (modify_by_kind k l c d ≡ ok a)
unfolding modify_by_kind
modify_ok user user c d e = (modify_action d.dn (diff_user_attributes c.attrs d.attrs), refl)
modify_ok user group c d e = absurd (ground arith)
modify_ok group user c d e = absurd (ground arith)
modify_ok group group c d e = (modify_action d.dn (diff_attributes c.attrs d.attrs), refl)

diff_same_dn :
    (c d : Record)
    → c.dn ≡ d.dn
    → c.kind ≡ d.kind
    → (a : Action) × (diff_records (some c) (some d) ≡ ok a)
unfolding diff_records
diff_same_dn c d e k = elim (Bool-cases (record_eq c d)) [
  | inl same ↦ (idle_action d.dn, rw same)
  | inr differ ↦
      let (a, m) = modify_ok c.kind d.kind c d k in (a, rw (differ, (eq_iff c.dn d.dn).1 e, m))
]

-- The classes of two records with one dn agree.
abbrev pub KindsAgree : Dict Record → Dict Record → Type 0
KindsAgree d1 d2 =
    (k : String) (c d : Record) → get k d1 ≡ some c → get k d2 ≡ some d → c.kind ≡ d.kind

diff_at :
    (d1 d2 : Dict Record) (k : String) (c d : Option Record)
    → IsKeyed d1
    → IsKeyed d2
    → KindsAgree d1 d2
    → get k d1 ≡ c
    → get k d2 ≡ d
    → (has_key k d1 || has_key k d2) ≡ true
    → (a : Action) × (diff_records c d ≡ ok a)
unfolding diff_records
diff_at d1 d2 k none none i j g p q h =
    absurd (ground (arith, has_key-get k d1 p, has_key-get k d2 q))
diff_at d1 d2 k none (some d) i j g p q h = (add_action d.dn (nonempty_attrs d.attrs), refl)
diff_at d1 d2 k (some c) none i j g p q h = (delete_action c.dn, refl)
diff_at d1 d2 k (some c) (some d) i j g p q h =
    diff_same_dn c d (i k c p ∙ sym (j k d q)) (g k c d p q)

diff_keys_total :
    (d1 d2 : Dict Record) (ks : List String)
    → ((k : String)
        → listed k ks ≡ true
        → (a : Action) × (diff_records (get k d1) (get k d2) ≡ ok a))
    → (acts : Dict Action) × (diff_keys d1 d2 ks ≡ ok acts)
unfolding diff_keys listed
diff_keys_total d1 d2 [] h = ([], refl)
diff_keys_total d1 d2 (k ∷ ks) h =
    let (a, e) = h k (ground (arith, (eq_iff k k).1 refl)) in
    let (acts, e') = diff_keys_total d1 d2 ks (λ j l. h j (ground (arith, l))) in
    ((k, a) ∷ acts, rw (e, e'))

-- If the classes of records with one dn agree, the comparison of two lists of records never raises.
pub bulk_diff_total :
    (current desired : List Record)
    → KindsAgree (by_dn [] current) (by_dn [] desired)
    → (acts : Dict Action) × (bulk_diff_records current desired ≡ ok acts)
unfolding bulk_diff_records diff_dicts
bulk_diff_total current desired g =
    let d1 = by_dn [] current in
    let d2 = by_dn [] desired in
    diff_keys_total d1 d2 (join_keys (keys_of d1) (new_keys d1 d2)) λ k l.
      diff_at d1 d2 k (get k d1) (get k d2)
        (by_dn-IsKeyed [] current (λ j r e. absurd (nothing_in j r e)))
        (by_dn-IsKeyed [] desired (λ j r e. absurd (nothing_in j r e))) g refl refl
        (ground (
          arith,
          l,
          listed-join_keys k (keys_of d1) (new_keys d1 d2),
          listed-keys_of k d1,
          listed-new_keys k d1 d2,
        ))
  where
    nothing_in : (j : String) (r : Record) → get j [] ≡ some r → ⊥
    nothing_in j r e = unfold get in ground arith
