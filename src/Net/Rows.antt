-- ===== src/Net/Rows.antt =====
-- The tables of addresses and subnets: what the queries find after rows have been added or deleted.
use pycroft.Base.{
  AllOf, ℕ, ◌≡◌, refl, ap, ◌∙◌, true, false, ◌&&◌, ◌||◌, ◌==◌, List, [], ◌∷◌, ◌++◌, arith,
  Bool-cases, inl, inr, subst, suc,
}
use pycroft.Net.Addresses.{listed_address}
use pycroft.Net.Store.{Ip, addresses_of, ips_of, delete_row}

-- No two rows have the same address.
abbrev pub Unique : List Ip → Type 0
Unique [] = Unit
Unique (r ∷ rs) = (listed_address r.address (addresses_of rs) ≡ false) × Unique rs

pub listed-append :
    (x : ℕ) (rs ss : List Ip)
    → listed_address x (addresses_of (rs ++ ss))
      ≡ (listed_address x (addresses_of rs) || listed_address x (addresses_of ss))
unfolding listed_address
listed-append x [] ss = refl
listed-append x (r ∷ rs) ss = ground (arith, listed-append x rs ss)

pub Unique-append :
    (rs : List Ip) (r : Ip)
    → Unique rs
    → listed_address r.address (addresses_of rs) ≡ false
    → Unique (rs ++ (r ∷ []))
unfolding listed_address
Unique-append [] r u new = (refl, tt)
Unique-append (s ∷ rs) r u new = (
  ground (arith, listed-append s.address rs (r ∷ []), u.0),
  Unique-append rs r u.1 (ground arith),
)

-- Deleting adds no address.
listed-delete_row :
    (i a x : ℕ) (rs : List Ip)
    → listed_address x (addresses_of rs) ≡ false
    → listed_address x (addresses_of (delete_row i a rs)) ≡ false
unfolding listed_address delete_row
listed-delete_row i a x [] h = refl
listed-delete_row i a x (r ∷ rs) h = ground (arith, listed-delete_row i a x rs)

pub Unique-delete_row : (i a : ℕ) (rs : List Ip) → Unique rs → Unique (delete_row i a rs)
unfolding delete_row
Unique-delete_row i a [] u = tt
Unique-delete_row i a (r ∷ rs) u = elim (Bool-cases (r.interface == i && r.address == a)) [
  | inl gone ↦ rw gone (Unique-delete_row i a rs u.1)
  | inr kept ↦ rw kept (listed-delete_row i a r.address rs u.0, Unique-delete_row i a rs u.1)
]

pub AllOf-delete_row :
    (P : Ip → Type 0) (i a : ℕ) (rs : List Ip) → AllOf P rs → AllOf P (delete_row i a rs)
unfolding delete_row
AllOf-delete_row P i a [] p = tt
AllOf-delete_row P i a (r ∷ rs) p = elim (Bool-cases (r.interface == i && r.address == a)) [
  | inl gone ↦ rw gone (AllOf-delete_row P i a rs p.1)
  | inr kept ↦ rw kept (p.0, AllOf-delete_row P i a rs p.1)
]

pub ips_of-append : (i : ℕ) (rs ss : List Ip) → ips_of i (rs ++ ss) ≡ ips_of i rs ++ ips_of i ss
unfolding ips_of
ips_of-append i [] ss = refl
ips_of-append i (r ∷ rs) ss = ground (arith, ips_of-append i rs ss)

pub delete_row-fresh :
    (i a : ℕ) (rs : List Ip) → listed_address a (addresses_of rs) ≡ false → delete_row i a rs ≡ rs
unfolding delete_row listed_address
delete_row-fresh i a [] h = refl
delete_row-fresh i a (r ∷ rs) h = ground (arith, delete_row-fresh i a rs)

pub ips_of-delete_row :
    (i a : ℕ) (rs : List Ip) → ips_of i (delete_row i a rs) ≡ delete_row i a (ips_of i rs)
unfolding delete_row ips_of
ips_of-delete_row i a [] = refl
ips_of-delete_row i a (r ∷ rs) = ground (arith, ips_of-delete_row i a rs)

pub ips_of-delete_other :
    (i j a : ℕ) (rs : List Ip) → (i == j) ≡ false → ips_of i (delete_row j a rs) ≡ ips_of i rs
unfolding delete_row ips_of
ips_of-delete_other i j a [] ne = refl
ips_of-delete_other i j a (r ∷ rs) ne = ground (arith, ips_of-delete_other i j a rs ne)

listed-ips_of :
    (i x : ℕ) (rs : List Ip)
    → listed_address x (addresses_of rs) ≡ false
    → listed_address x (addresses_of (ips_of i rs)) ≡ false
unfolding listed_address ips_of
listed-ips_of i x [] h = refl
listed-ips_of i x (r ∷ rs) h = ground (arith, listed-ips_of i x rs)

pub Unique-ips_of : (i : ℕ) (rs : List Ip) → Unique rs → Unique (ips_of i rs)
unfolding ips_of
Unique-ips_of i [] u = tt
Unique-ips_of i (r ∷ rs) u = elim (Bool-cases (r.interface == i)) [
  | inl own ↦ rw own (listed-ips_of i r.address rs u.0, Unique-ips_of i rs u.1)
  | inr other ↦ rw other (Unique-ips_of i rs u.1)
]

-- The rows of an interface belong to it.
pub ips_of-own : (i : ℕ) (rs : List Ip) → AllOf (λ r. (r.interface == i) ≡ true) (ips_of i rs)
unfolding ips_of
ips_of-own i [] = tt
ips_of-own i (r ∷ rs) = elim (Bool-cases (r.interface == i)) [
  | inl own ↦ rw own (own, ips_of-own i rs)
  | inr other ↦ rw other (ips_of-own i rs)
]

-- Deleting the first of an interface's rows leaves the others.
pub ips_of-delete_first :
    (i : ℕ) (rs : List Ip) (old : Ip) (rest : List Ip)
    → Unique rs
    → ips_of i rs ≡ old ∷ rest
    → ips_of i (delete_row i old.address rs) ≡ rest
unfolding delete_row
ips_of-delete_first i rs old rest u e =
    let own = subst (AllOf (λ r. (r.interface == i) ≡ true)) e (ips_of-own i rs) in
    let fresh = subst Unique e (Unique-ips_of i rs u) in
    ips_of-delete_row i old.address rs
    ∙ ap (delete_row i old.address) e
    ∙ ground (arith, own.0, delete_row-fresh i old.address rest fresh.0)

-- A new row of one interface is no row of another.
pub ips_of-append_other :
    (i : ℕ) (rs : List Ip) (r : Ip)
    → (r.interface == i) ≡ false
    → ips_of i (rs ++ (r ∷ [])) ≡ ips_of i rs
unfolding ips_of
ips_of-append_other i [] r ne = rw ne
ips_of-append_other i (s ∷ rs) r ne = ground (arith, ips_of-append_other i rs r ne)

pub ips_of-append_own :
    (i : ℕ) (rs : List Ip) (r : Ip)
    → (r.interface == i) ≡ true
    → ips_of i (rs ++ (r ∷ [])) ≡ ips_of i rs ++ (r ∷ [])
unfolding ips_of
ips_of-append_own i [] r own = rw own
ips_of-append_own i (s ∷ rs) r own = ground (arith, ips_of-append_own i rs r own)

pub listed-numbers :
    (x : ℕ) (xs ys : List ℕ)
    → listed_address x (xs ++ ys) ≡ (listed_address x xs || listed_address x ys)
unfolding listed_address
listed-numbers x [] ys = refl
listed-numbers x (y ∷ xs) ys = ground (arith, listed-numbers x xs ys)

-- the number of rows
abbrev pub count : List Ip → ℕ
count [] = 0
count (r ∷ rs) = suc (count rs)

pub count-append : (rs : List Ip) (r : Ip) → count (rs ++ (r ∷ [])) ≡ suc (count rs)
count-append [] r = refl
count-append (s ∷ rs) r = ap suc (count-append rs r)
