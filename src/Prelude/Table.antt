-- ===== src/Prelude/Table.antt =====
-- A database table as the list of its rows: SELECT, UPDATE and the primary keys.
use mathlib.Core.Path.{◌≡◌, refl}
use mathlib.Core.Bool.{Bool, true, false}
use mathlib.Core.Option
use mathlib.Core.Option.{Option, none, some}
use mathlib.Core.List.{List, [], ◌∷◌, ◌++◌}
use native.Mathlib.Omega.{arith}
use Prim.Native.String.{String}
use text.Mathlib.Text.{◌==◌}
use text.Mathlib.TextEquality.{eq_iff}
use spacetime_node.Prelude.Lists.{All}
use spacetime_node.Prelude.Tests.{if◌then◌else◌}

module _ {ℓ} {A : Type ℓ} where
  -- SELECT ... WHERE p, as `QueryRow` reads it: the first row, if any
  abbrev pub find : (A → Bool) → List A → Option A
  find p [] = none
  find p (x ∷ xs) = if p x then some x else find p xs

  -- UPDATE ... SET f WHERE p
  abbrev pub update_where : (A → Bool) → (A → A) → List A → List A
  update_where p f [] = []
  update_where p f (x ∷ xs) = (if p x then f x else x) ∷ update_where p f xs

  abbrev pub insert_row : A → List A → List A
  insert_row x xs = xs ++ x ∷ []

  pub find-holds : (p : A → Bool) (xs : List A) {x : A} → find p xs ≡ some x → p x ≡ true
  find-holds p [] h = cc
  find-holds p (y ∷ xs) {x} h = ground (arith, find-holds p xs {x = x})

  pub find-none_at :
      (p q : A → Bool) (xs : List A) {x : A} → find q xs ≡ none → find p xs ≡ some x → q x ≡ false
  find-none_at p q [] n h = cc
  find-none_at p q (y ∷ xs) {x} n h = ground (arith, find-none_at p q xs {x = x})

  pub find-insert_row :
      (p : A → Bool) (x : A) (xs : List A)
      → find p (insert_row x xs)
        ≡ elim (find p xs) [ some y ↦ some y | none ↦ if p x then some x else none ]
  find-insert_row p x [] = ground arith
  find-insert_row p x (y ∷ xs) = ground (arith, find-insert_row p x xs)

  -- an update that the search does not see through
  pub find-update_where :
      (p q : A → Bool) (f : A → A) (xs : List A)
      → ((x : A) → q (f x) ≡ q x)
      → find q (update_where p f xs) ≡ Option.map (λ x. if p x then f x else x) (find q xs)
  find-update_where p q f [] h = refl
  find-update_where p q f (x ∷ xs) h = ground (arith, h x, find-update_where p q f xs h)

module _ {A : Type 0} (key : A → String) where
  abbrev pub with_key : String → A → Bool
  with_key k x = key x == k

  -- PRIMARY KEY: no two rows share their key
  abbrev pub Keyed : List A → Type 0
  Keyed [] = Unit
  Keyed (x ∷ xs) = (find (with_key (key x)) xs ≡ none) × Keyed xs

  -- a row that any search finds is the one that its key finds
  pub find-Keyed :
      (p : A → Bool) (xs : List A) {x : A}
      → Keyed xs
      → find p xs ≡ some x
      → find (with_key (key x)) xs ≡ some x
  find-Keyed p [] k h = cc
  find-Keyed p (y ∷ xs) {x} k h = ground (
    arith,
    find-none_at p (with_key (key y)) xs {x = x} k.0,
    find-Keyed p xs {x = x} k.1,
    eq_iff (key y) (key x),
    eq_iff (key x) (key y),
  )

  pub Keyed-insert_row :
      (x : A) (xs : List A) → Keyed xs → find (with_key (key x)) xs ≡ none → Keyed (insert_row x xs)
  Keyed-insert_row x [] k h = (refl, tt)
  Keyed-insert_row x (y ∷ xs) k h = ground (
    arith,
    Keyed-insert_row x xs k.1,
    find-insert_row (with_key (key y)) x xs,
    eq_iff (key y) (key x),
    eq_iff (key x) (key y),
  )

  pub Keyed-update_where :
      (p : A → Bool) (f : A → A) (xs : List A)
      → ((x : A) → key (f x) ≡ key x)
      → Keyed xs
      → Keyed (update_where p f xs)
  Keyed-update_where p f [] h k = tt
  Keyed-update_where p f (x ∷ xs) h k = ground (
    arith,
    h x,
    Keyed-update_where p f xs h k.1,
    find-update_where p (with_key (key x)) f xs (λ y. ap_key (h y)),
  )
    where
      ap_key : {a b : String} → a ≡ b → (a == key x) ≡ (b == key x)
      ap_key e = rw e

  find-none-All :
      (k : String) (xs : List A) → find (with_key k) xs ≡ none → All (λ x. (key x == k) ≡ false) xs
  find-none-All k [] h = tt
  find-none-All k (x ∷ xs) h = (ground arith, find-none-All k xs (ground arith))

  found_behind :
      (x : A) (ys zs : List A)
      → All (λ z. (key z == key x) ≡ false) zs
      → All (λ z. find (with_key (key z)) ys ≡ some z) zs
      → All (λ z. find (with_key (key z)) (x ∷ ys) ≡ some z) zs
  found_behind x ys [] h k = tt
  found_behind x ys (z ∷ zs) h k = (
    ground (arith, h.0, k.0, eq_iff (key x) (key z), eq_iff (key z) (key x)),
    found_behind x ys zs h.1 k.1,
  )

  -- each row of a table with a primary key is what its key finds
  pub Keyed-found : (xs : List A) → Keyed xs → All (λ x. find (with_key (key x)) xs ≡ some x) xs
  Keyed-found [] k = tt
  Keyed-found (x ∷ xs) k = (
    ground (arith, eq_iff (key x) (key x)),
    found_behind x xs xs (find-none-All (key x) xs k.0) (Keyed-found xs k.1),
  )
