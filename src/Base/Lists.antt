-- ===== src/Base/Lists.antt =====
-- What holds of the elements of a list.
use mathlib.Core.Path.{◌≡◌, refl, sym, subst}
use mathlib.Core.Logic.{◌⊎◌, inl, inr}
use mathlib.Core.List.{List, [], ◌∷◌, ◌++◌}

-- A property holds of every element of a list.
abbrev pub AllOf : {A : Type 0} → (A → Type 0) → List A → Type 0
AllOf P [] = Unit
AllOf P (a ∷ rest) = P a × AllOf P rest

-- An element stands in a list.
abbrev pub Among : {A : Type 0} → A → List A → Type 0
Among a [] = ⊥
Among a (b ∷ rest) = (a ≡ b) ⊎ Among a rest

pub AllOf-map :
    {A : Type 0} (P Q : A → Type 0) (xs : List A) → ((a : A) → P a → Q a) → AllOf P xs → AllOf Q xs
AllOf-map P Q [] f p = tt
AllOf-map P Q (x ∷ xs) f p = (f x p.0, AllOf-map P Q xs f p.1)

pub AllOf-both :
    {A : Type 0} (P Q : A → Type 0) (xs : List A)
    → AllOf P xs
    → AllOf Q xs
    → AllOf (λ a. P a × Q a) xs
AllOf-both P Q [] p q = tt
AllOf-both P Q (x ∷ xs) p q = ((p.0, q.0), AllOf-both P Q xs p.1 q.1)

pub AllOf-Among :
    {A : Type 0} (P : A → Type 0) (x : A) (xs : List A) → Among x xs → AllOf P xs → P x
AllOf-Among P x [] among p = absurd among
AllOf-Among P x (y ∷ xs) among p = elim among [
  | inl same ↦ subst P (sym same) p.0
  | inr later ↦ AllOf-Among P x xs later p.1
]

pub AllOf-self : {A : Type 0} (xs : List A) → AllOf (λ x. Among x xs) xs
AllOf-self [] = tt
AllOf-self (x ∷ xs) = (inl refl, AllOf-map _ _ xs (λ y later. inr later) (AllOf-self xs))

pub AllOf-append :
    {A : Type 0} (P : A → Type 0) (xs ys : List A) → AllOf P xs → AllOf P ys → AllOf P (xs ++ ys)
AllOf-append P [] ys p q = q
AllOf-append P (x ∷ xs) ys p q = (p.0, AllOf-append P xs ys p.1 q)
