-- ===== src/Prelude/Sort/Laws.antt =====
-- The elements and the order of a sorted list.
use Prim.Native.Nat.{suc}
use mathlib.Core.Path.{◌≡◌, refl}
use mathlib.Core.Bool.{Bool, true, false, ◌||◌}
use mathlib.Core.Logic.{inl, inr}
use mathlib.Core.List.{List, [], ◌∷◌, Perm}
use mathlib.Core.List.Perm
use native.Mathlib.Omega.{arith}
use spacetime_node.Prelude.Tests.{Bool-cases}
use spacetime_node.Prelude.Lists.{any, length, All}
use spacetime_node.Prelude.Sort.{insert_sorted, stable_sort}

module _ {ℓ} {A : Type ℓ} (less : A → A → Bool) where
  insert_sorted-perm : (x : A) (xs : List A) → Perm (insert_sorted less x xs) (x ∷ xs)
  unfolding insert_sorted
  insert_sorted-perm x [] = Perm.rfl
  insert_sorted-perm x (y ∷ ys) = elim (Bool-cases (less y x)) [
    | inl after ↦
        rw (after, insert_sorted)
          (Perm.trans (Perm.cons y (insert_sorted-perm x ys)) (Perm.swap x y ys))
    | inr before ↦ rw (before, insert_sorted) Perm.rfl
  ]

  pub stable_sort-perm : (xs : List A) → Perm (stable_sort less xs) xs
  unfolding stable_sort
  stable_sort-perm [] = Perm.rfl
  stable_sort-perm (x ∷ xs) =
      Perm.trans (insert_sorted-perm x (stable_sort less xs)) (Perm.cons x (stable_sort-perm xs))

  any-insert_sorted :
      (p : A → Bool) (x : A) (xs : List A) → any p (insert_sorted less x xs) ≡ (p x || any p xs)
  unfolding insert_sorted
  any-insert_sorted p x [] = refl
  any-insert_sorted p x (y ∷ ys) = ground (arith, any-insert_sorted p x ys)

  pub any-stable_sort : (p : A → Bool) (xs : List A) → any p (stable_sort less xs) ≡ any p xs
  unfolding stable_sort
  any-stable_sort p [] = refl
  any-stable_sort p (x ∷ xs) =
      ground (arith, any-insert_sorted p x (stable_sort less xs), any-stable_sort p xs)

  length-insert_sorted : (x : A) (xs : List A) → length (insert_sorted less x xs) ≡ suc (length xs)
  unfolding insert_sorted
  length-insert_sorted x [] = refl
  length-insert_sorted x (y ∷ ys) = ground (arith, length-insert_sorted x ys)

  pub length-stable_sort : (xs : List A) → length (stable_sort less xs) ≡ length xs
  unfolding stable_sort
  length-stable_sort [] = refl
  length-stable_sort (x ∷ xs) =
      ground (arith, length-insert_sorted x (stable_sort less xs), length-stable_sort xs)

module _ {ℓ κ} {A : Type ℓ} (less : A → A → Bool) (P : A → Type κ) where
  All-insert_sorted : (x : A) (xs : List A) → P x → All P xs → All P (insert_sorted less x xs)
  unfolding insert_sorted
  All-insert_sorted x [] p h = (p, tt)
  All-insert_sorted x (y ∷ ys) p h = elim (Bool-cases (less y x)) [
    | inl after ↦ rw (after, insert_sorted) (h.0, All-insert_sorted x ys p h.1)
    | inr before ↦ rw (before, insert_sorted) (p, h)
  ]

  pub All-stable_sort : (xs : List A) → All P xs → All P (stable_sort less xs)
  unfolding stable_sort
  All-stable_sort [] h = tt
  All-stable_sort (x ∷ xs) (p, h) =
      All-insert_sorted x (stable_sort less xs) p (All-stable_sort xs h)

  All-insert_sorted_back : (x : A) (xs : List A) → All P (insert_sorted less x xs) → P x × All P xs
  unfolding insert_sorted
  All-insert_sorted_back x [] h = h
  All-insert_sorted_back x (y ∷ xs) h = elim (Bool-cases (less y x)) [
    | inl past ↦
        let k = rw past at h in let (p, q) = All-insert_sorted_back x xs k.1 in (p, (k.0, q))
    | inr here ↦ rw here at h
  ]

  -- what holds of all that is sorted held before
  pub All-stable_sort_back : (xs : List A) → All P (stable_sort less xs) → All P xs
  unfolding stable_sort
  All-stable_sort_back [] h = tt
  All-stable_sort_back (x ∷ xs) h =
      let (p, q) = All-insert_sorted_back x (stable_sort less xs) h in
      (p, All-stable_sort_back xs q)

-- The laws of a strict weak order, which `sort.SliceStable` asks of its comparison.
pub record IsOrder {ℓ} {A : Type ℓ} (less : A → A → Bool) : Type ℓ where
  pub asym : (a b : A) → less a b ≡ true → less b a ≡ false
  pub trans : (a b c : A) → less b a ≡ false → less c b ≡ false → less c a ≡ false

module _ {ℓ} {A : Type ℓ} (less : A → A → Bool) where
  -- nothing that stands later goes before
  abbrev pub IsSorted : List A → Type 0
  IsSorted [] = Unit
  IsSorted (x ∷ xs) = All (λ y. less y x ≡ false) xs × IsSorted xs

module _ {ℓ} {A : Type ℓ} {less : A → A → Bool} (order : IsOrder less) where
  All-below :
      (x y : A) (xs : List A)
      → less y x ≡ false
      → All (λ z. less z y ≡ false) xs
      → All (λ z. less z x ≡ false) xs
  All-below x y [] h k = tt
  All-below x y (z ∷ xs) h k = (order.trans x y z h k.0, All-below x y xs h k.1)

  insert_sorted-IsSorted :
      (x : A) (xs : List A) → IsSorted less xs → IsSorted less (insert_sorted less x xs)
  unfolding insert_sorted
  insert_sorted-IsSorted x [] h = (tt, tt)
  insert_sorted-IsSorted x (y ∷ ys) h = elim (Bool-cases (less y x)) [
    | inl after ↦
        rw (after, insert_sorted)
          (
            All-insert_sorted less (λ z. less z y ≡ false) x ys (order.asym y x after) h.0,
            insert_sorted-IsSorted x ys h.1,
          )
    | inr before ↦ rw (before, insert_sorted) ((before, All-below x y ys before h.0), h)
  ]

  pub stable_sort-IsSorted : (xs : List A) → IsSorted less (stable_sort less xs)
  unfolding stable_sort
  stable_sort-IsSorted [] = tt
  stable_sort-IsSorted (x ∷ xs) =
      insert_sorted-IsSorted x (stable_sort less xs) (stable_sort-IsSorted xs)
