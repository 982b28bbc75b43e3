-- ===== src/Net/Example.antt =====
-- Networks, ranges and sets of addresses as lists: operations for which what the proofs take of netaddr
-- holds.
use pycroft.Base.{
  ℕ, suc, zero, ◌+◌, ◌-◌, ◌≤◌, ◌≡◌, refl, sym, Bool, true, false, not, ◌&&◌, ◌||◌, ◌==◌,
  if◌then◌else◌, leb, Option, none, some, List, [], ◌∷◌, ◌++◌, Result, ok, err, addr_format_error,
  arith, subst,
}
use pycroft.Net.Addresses.{Range, Netaddr, listed_address, drop_used}
use pycroft.Net.Usable.{NetaddrLaws, in_range, in_ranges, listed-drop_used}
use pycroft.Net.Rows.{listed-numbers}

-- a network's first and last address
pub record Block : Type 0 where
  pub low : ℕ
  pub high : ℕ

unfoldable pub count_up : ℕ → ℕ → List ℕ
count_up a zero = []
count_up a (suc n) = a ∷ count_up (suc a) n

listed-count_up : (a n x : ℕ) → listed_address x (count_up a n) ≡ (leb a x && leb (suc x) (a + n))
unfolding count_up listed_address
listed-count_up a zero x = ground arith
listed-count_up a (suc n) x = ground (arith, listed-count_up (suc a) n x)

unfoldable pub members : Range → List ℕ
unfolding count_up
members r = count_up r.start (suc r.end - r.start)

listed-members : (r : Range) (x : ℕ) → listed_address x (members r) ≡ in_range r x
unfolding members
listed-members r x = ground (arith, listed-count_up r.start (suc r.end - r.start) x)

unfoldable pub all_members : List Range → List ℕ
unfolding members
all_members [] = []
all_members (r ∷ rs) = members r ++ all_members rs

unfoldable pub least : ℕ → List ℕ → ℕ
least a [] = a
least a (b ∷ bs) = let m = least b bs in if leb a m then a else m

unfoldable pub greatest : ℕ → List ℕ → ℕ
greatest a [] = a
greatest a (b ∷ bs) = let m = greatest b bs in if leb m a then a else m

least-lem :
    (a : ℕ) (bs : List ℕ) (x : ℕ)
    → (listed_address (least a bs) (a ∷ bs) ≡ true)
      × (listed_address x (a ∷ bs) && not (leb (least a bs) x) ≡ false)
unfolding least listed_address
least-lem a [] x = (ground arith, ground arith)
least-lem a (b ∷ bs) x = let (p, q) = least-lem b bs x in (ground (arith, p), ground (arith, q))

greatest-lem :
    (a : ℕ) (bs : List ℕ) (x : ℕ)
    → (listed_address (greatest a bs) (a ∷ bs) ≡ true)
      × (listed_address x (a ∷ bs) && not (leb x (greatest a bs)) ≡ false)
unfolding greatest listed_address
greatest-lem a [] x = (ground arith, ground arith)
greatest-lem a (b ∷ bs) x =
    let (p, q) = greatest-lem b bs x in (ground (arith, p), ground (arith, q))

-- every address but the last has its successor in the set
unfoldable pub has_next : ℕ → List ℕ → List ℕ → Bool
has_next top set [] = true
has_next top set (x ∷ xs) = (x == top || listed_address (suc x) set) && has_next top set xs

unfoldable pub contiguous : List ℕ → Bool
unfolding has_next greatest
contiguous [] = true
contiguous (a ∷ rest) = has_next (greatest a rest) (a ∷ rest) (a ∷ rest)

unfoldable pub range_of : List ℕ → Option Range
unfolding least greatest
range_of [] = none
range_of (a ∷ rest) = some (record { start = least a rest; end = greatest a rest })

unfoldable pub make_range : ℕ → ℕ → Result Range
make_range a b = if leb a b then ok (record { start = a; end = b }) else err addr_format_error

abbrev pub blocks : Netaddr Block (List ℕ)
blocks = record {
  version = λ n. 4;
  first = λ n. n.low;
  last = λ n. n.high;
  usable_range = λ n. (n.low + 1, n.high - 1);
  contains = λ n x. leb n.low x && leb x n.high;
  ip_range = make_range;
  network_set = λ n. members (record { start = n.low; end = n.high });
  range_set = all_members;
  difference = λ s t. drop_used t s;
  iscontiguous = contiguous;
  iprange = range_of;
  size = λ r. suc r.end - r.start;
  addresses = members;
}

has_next-lem :
    (r : Range) (set xs : List ℕ)
    → ((x : ℕ) → listed_address x set ≡ in_range r x)
    → ((x : ℕ) → (listed_address x xs && not (in_range r x)) ≡ false)
    → has_next r.end set xs ≡ true
unfolding has_next listed_address
has_next-lem r set [] all part = refl
has_next-lem r set (x ∷ xs) all part =
    ground (arith, all (suc x), part x, has_next-lem r set xs all (λ y. ground (arith, part y)))

range_ends :
    (s : List ℕ) (r : Range)
    → r.start ≤ r.end
    → ((x : ℕ) → listed_address x s ≡ in_range r x)
    → range_of s ≡ some r
unfolding range_of listed_address
range_ends [] r le all = absurd (ground (arith, all r.start))
range_ends (a ∷ rest) r le all =
    let low : least a rest ≡ r.start =
      ground (arith, all (least a rest), all r.start, least-lem a rest r.start) in
    let high : greatest a rest ≡ r.end =
      ground (arith, all (greatest a rest), all r.end, greatest-lem a rest r.end) in
    rw (low, high)

blocks_one_range :
    (s : List ℕ) (r : Range)
    → r.start ≤ r.end
    → ((x : ℕ) → listed_address x s ≡ in_range r x)
    → (contiguous s ≡ true) × (range_of s ≡ some r)
unfolding contiguous range_of
blocks_one_range [] r le all = (refl, range_ends [] r le all)
blocks_one_range (a ∷ rest) r le all =
    let e = range_ends (a ∷ rest) r le all in
    let high : greatest a rest ≡ r.end = ground (arith, e) in
    (
      subst (λ t. has_next t (a ∷ rest) (a ∷ rest) ≡ true) (sym high)
          (has_next-lem r (a ∷ rest) (a ∷ rest) all (λ x. ground (arith, all x))),
      e,
    )

blocks_no_range :
    (s : List ℕ)
    → ((x : ℕ) → listed_address x s ≡ false)
    → (contiguous s ≡ true) × (range_of s ≡ none)
unfolding contiguous range_of listed_address
blocks_no_range [] none_in = (refl, refl)
blocks_no_range (a ∷ rest) none_in = absurd (ground (arith, none_in a))

listed-all_members : (rs : List Range) (x : ℕ) → listed_address x (all_members rs) ≡ in_ranges rs x
unfolding all_members listed_address
listed-all_members [] x = refl
listed-all_members (r ∷ rs) x = ground (
  arith,
  listed-numbers x (members r) (all_members rs),
  listed-members r x,
  listed-all_members rs x,
)

pub blocks_laws : NetaddrLaws blocks
unfolding make_range
blocks_laws = record {
  in_set = λ s x. listed_address x s;
  usable_within = λ n. (ground arith, ground arith);
  contains_lem = λ n x. refl;
  ip_range_lem = λ a b le limit. ground arith;
  network_set_lem = λ n x. listed-members (record { start = n.low; end = n.high }) x;
  range_set_lem = listed-all_members;
  difference_lem = λ s t x. listed-drop_used t s x;
  one_range = blocks_one_range;
  no_range = blocks_no_range;
  addresses_lem = listed-members;
}
