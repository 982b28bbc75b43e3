-- ===== src/Task/Rows.antt =====
-- The table of tasks: rows by id, the ids in use, and which rows are due.
use pycroft.Base.{
  ℕ, ◌+◌, ◌<◌, ◌≡◌, refl, Bool, true, false, ◌&&◌, ◌||◌, if◌then◌else◌, some, List, [], ◌∷◌, ◌++◌,
  ◌==◌, leb, arith,
}
use pycroft.Task.Model.{Task, is_open, find, save, get_scheduled_tasks}

unfoldable pub has_id : ℕ → List Task → Bool
has_id i [] = false
has_id i (t ∷ ts) = t.id == i || has_id i ts

abbrev pub UniqueIds : List Task → Type 0
UniqueIds [] = Unit
UniqueIds (t ∷ ts) = (has_id t.id ts ≡ false) × UniqueIds ts

abbrev pub AllBelow : ℕ → List Task → Type 0
AllBelow n [] = Unit
AllBelow n (t ∷ ts) = (t.id < n) × AllBelow n ts

pub find-save :
    (i : ℕ) (t : Task) (ts : List Task)
    → find i (save t ts) ≡ (if t.id == i && has_id i ts then some t else find i ts)
unfolding find save has_id
find-save i t [] = ground arith
find-save i t (u ∷ us) = ground (arith, find-save i t us)

pub has_id-save : (i : ℕ) (t : Task) (ts : List Task) → has_id i (save t ts) ≡ has_id i ts
unfolding save has_id
has_id-save i t [] = refl
has_id-save i t (u ∷ us) = ground (arith, has_id-save i t us)

pub UniqueIds-save : (t : Task) (ts : List Task) → UniqueIds ts → UniqueIds (save t ts)
unfolding save
UniqueIds-save t [] h = tt
UniqueIds-save t (u ∷ us) h = go (u.id == t.id) refl (UniqueIds-save t us h.1)
  where
    go :
        (b : Bool)
        → (u.id == t.id) ≡ b
        → UniqueIds (save t us)
        → UniqueIds (if b then t ∷ us else u ∷ save t us)
    go true e rest = (ground (arith, h.0), h.1)
    go false e rest = (ground (arith, h.0, has_id-save u.id t us), rest)

pub AllBelow-save :
    (n : ℕ) (t : Task) (ts : List Task) → t.id < n → AllBelow n ts → AllBelow n (save t ts)
unfolding save
AllBelow-save n t [] p h = tt
AllBelow-save n t (u ∷ us) p h = go (u.id == t.id) (AllBelow-save n t us p h.1)
  where
    go : (b : Bool) → AllBelow n (save t us) → AllBelow n (if b then t ∷ us else u ∷ save t us)
    go true rest = (p, h.1)
    go false rest = (h.0, rest)

pub find-below :
    (n : ℕ) (ts : List Task) (i : ℕ) (t : Task) → AllBelow n ts → find i ts ≡ some t → i < n
unfolding find
find-below n [] i t h e = absurd (ground arith)
find-below n (u ∷ us) i t h e = ground (arith, h.0, find-below n us i t h.1)

pub below-fresh : (n : ℕ) (ts : List Task) → AllBelow n ts → has_id n ts ≡ false
unfolding has_id
below-fresh n [] h = refl
below-fresh n (t ∷ ts) h = ground (arith, h.0, below-fresh n ts h.1)

pub has_id-append : (i : ℕ) (ts us : List Task) → has_id i (ts ++ us) ≡ (has_id i ts || has_id i us)
unfolding has_id
has_id-append i [] us = refl
has_id-append i (t ∷ ts) us = ground (arith, has_id-append i ts us)

pub find-append :
    (i : ℕ) (ts us : List Task) (t : Task) → find i ts ≡ some t → find i (ts ++ us) ≡ some t
unfolding find
find-append i [] us t h = absurd (ground arith)
find-append i (u ∷ ts) us t h = ground (arith, find-append i ts us t)

pub UniqueIds-append :
    (ts : List Task) (t : Task) → UniqueIds ts → has_id t.id ts ≡ false → UniqueIds (ts ++ (t ∷ []))
unfolding has_id
UniqueIds-append [] t h f = (refl, tt)
UniqueIds-append (u ∷ us) t h f =
    (ground (arith, h.0, has_id-append u.id us (t ∷ [])), UniqueIds-append us t h.1 (ground arith))

pub AllBelow-append :
    (n : ℕ) (ts : List Task) (t : Task)
    → AllBelow n ts
    → t.id < n + 1
    → AllBelow (n + 1) (ts ++ (t ∷ []))
AllBelow-append n [] t h p = (p, tt)
AllBelow-append n (u ∷ us) t h p = (ground (arith, h.0), AllBelow-append n us t h.1 p)

unfoldable pub is_due : ℕ → Task → Bool
is_due now t = is_open t.status && leb t.due now

pub find-has_id : (i : ℕ) (ts : List Task) (t : Task) → find i ts ≡ some t → has_id i ts ≡ true
unfolding find has_id
find-has_id i [] t h = absurd (ground arith)
find-has_id i (u ∷ us) t h = ground (arith, find-has_id i us t)

scheduled-absent :
    (now i : ℕ) (ts : List Task)
    → has_id i ts ≡ false
    → has_id i (get_scheduled_tasks now ts) ≡ false
unfolding has_id get_scheduled_tasks
scheduled-absent now i [] h = refl
scheduled-absent now i (t ∷ ts) h = ground (arith, scheduled-absent now i ts)

-- A row is scheduled exactly if it is open and due.
pub scheduled-is_due :
    (now i : ℕ) (ts : List Task) (t : Task)
    → UniqueIds ts
    → find i ts ≡ some t
    → has_id i (get_scheduled_tasks now ts) ≡ is_due now t
unfolding has_id get_scheduled_tasks find is_due
scheduled-is_due now i [] t u h = absurd (ground arith)
scheduled-is_due now i (v ∷ vs) t u h =
    ground (arith, u.0, scheduled-is_due now i vs t u.1, scheduled-absent now i vs)

pub closed_not_due : (now : ℕ) (t : Task) → is_open t.status ≡ false → is_due now t ≡ false
unfolding is_due
closed_not_due now t h = ground arith

pub AllBelow-scheduled :
    (n now : ℕ) (ts : List Task) → AllBelow n ts → AllBelow n (get_scheduled_tasks now ts)
unfolding get_scheduled_tasks
AllBelow-scheduled n now [] h = tt
AllBelow-scheduled n now (t ∷ ts) h =
    go (is_open t.status && leb t.due now) (AllBelow-scheduled n now ts h.1)
  where
    go :
        (b : Bool)
        → AllBelow n (get_scheduled_tasks now ts)
        → AllBelow n (if b then t ∷ get_scheduled_tasks now ts else get_scheduled_tasks now ts)
    go true rest = (h.0, rest)
    go false rest = rest
