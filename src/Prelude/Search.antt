-- ===== src/Prelude/Search.antt =====
-- Searches in a list, and tests of all its elements.
use mathlib.Core.Path.{◌≡◌, refl}
use mathlib.Core.Bool.{Bool, true, false, ◌&&◌, ◌||◌}
use mathlib.Core.Logic.{inl, inr}
use mathlib.Core.Option.{none, some}
use mathlib.Core.List.{List, [], ◌∷◌}
use native.Mathlib.Omega.{arith}
use spacetime_node.Prelude.Tests.{Bool-cases}
use spacetime_node.Prelude.Lists.{any}
use spacetime_node.Prelude.Table.{find}

pub find-any {ℓ} :
    {A : Type ℓ} (p : A → Bool) (xs : List A) {x : A} → find p xs ≡ some x → any p xs ≡ true
find-any p [] h = absurd (ground arith)
find-any p (y ∷ xs) {x} h = ground (arith, find-any p xs {x = x})

-- the first row that meets a test meets a stronger one first too
pub find-stronger {ℓ} :
    {A : Type ℓ} (p q : A → Bool) (xs : List A) {x : A}
    → find p xs ≡ some x
    → q x ≡ true
    → find (λ y. p y && q y) xs ≡ some x
find-stronger p q [] h k = absurd (ground arith)
find-stronger p q (y ∷ xs) {x} h k = elim (Bool-cases (p y)) [
  | inl mine ↦
      let same : y ≡ x = ground arith in let ky : q y ≡ true = rw same k in rw (mine, ky, same) refl
  | inr other ↦ rw other (find-stronger p q xs {x = x} (ground arith) k)
]

pub find-none-any {ℓ} :
    {A : Type ℓ} (p : A → Bool) (xs : List A) → find p xs ≡ none → any p xs ≡ false
find-none-any p [] h = refl
find-none-any p (x ∷ xs) h = ground (arith, find-none-any p xs)

pub any-find {ℓ} : {A : Type ℓ} (p : A → Bool) (xs : List A) → any p xs ≡ false → find p xs ≡ none
any-find p [] h = refl
any-find p (x ∷ xs) h = ground (arith, any-find p xs)

pub any-weaker {ℓ} :
    {A : Type ℓ} (p q : A → Bool) (xs : List A)
    → ((x : A) → p x ≡ true → q x ≡ true)
    → any q xs ≡ false
    → any p xs ≡ false
any-weaker p q [] stronger h = refl
any-weaker p q (x ∷ xs) stronger h = ground (arith, any-weaker p q xs stronger, stronger x)

pub any-or {ℓ} :
    {A : Type ℓ} (p q : A → Bool) (xs : List A)
    → any p xs ≡ false
    → any q xs ≡ false
    → any (λ x. p x || q x) xs ≡ false
any-or p q [] h k = refl
any-or p q (x ∷ xs) h k = ground (arith, any-or p q xs)

-- a row that meets a test is a row for a weaker one
pub find-weaker {ℓ} :
    {A : Type ℓ} (p q : A → Bool) (xs : List A) {z : A}
    → find (λ y. p y && q y) xs ≡ some z
    → (y : A) × (find p xs ≡ some y)
find-weaker p q [] h = absurd (ground arith)
find-weaker p q (x ∷ xs) {z} h = elim (Bool-cases (p x)) [
  | inl mine ↦ (x, rw mine refl)
  | inr other ↦ let (y, found) = find-weaker p q xs {z = z} (ground arith) in (y, rw other found)
]
