-- ===== src/Mobility/Decimal.antt =====
-- internal/mobility/resolver.go, `formatInt` and `observationKey`: the digits of a number and the
-- parts of a key.
use spacetime_node.Prelude.{
  ℕ, zero, suc, ◌+◌, ◌-◌, ◌<◌, ◌≡◌, refl, sym, ◌∙◌, true, [], ◌∷◌, ◌++◌, nat_eq, leb, ◌&&◌, arith,
  All, Bool-cases, inl, inr,
}
use Prim.Native.Nat.{◌/◌, ◌%◌, ◌*◌}
use spacetime_node.Prelude.Int.{pos}
use spacetime_node.Mobility.Key.{
  Text, int64_limit, digits_before, format_int, fold_uuid, observation_key,
}

-- reads decimal digits after the number that is read
abbrev pub read_decimal : ℕ → Text → ℕ
read_decimal n [] = n
read_decimal n (c ∷ cs) = read_decimal (n * 10 + (c - b'0')) cs

abbrev power_of_ten : ℕ → ℕ
power_of_ten zero = 1
power_of_ten (suc n) = 10 * power_of_ten n

read_decimal-digits_before :
    (free value : ℕ) (acc : Text)
    → value < power_of_ten free
    → read_decimal 0 (digits_before free value acc) ≡ read_decimal value acc
unfolding digits_before
read_decimal-digits_before zero value acc h = let empty : value ≡ 0 = omega arith in rw empty refl
read_decimal-digits_before (suc free) value acc h = elim (Bool-cases (nat_eq value 0)) [
  | inl empty ↦ let none_left : value ≡ 0 = ground arith in rw (empty) (rw none_left refl)
  | inr more ↦
      let fits : value / 10 < power_of_ten free = omega arith in
      let whole : value / 10 * 10 + (b'0' + value % 10 - b'0') ≡ value = omega arith in
      rw more (
        read_decimal-digits_before free (value / 10) ((b'0' + value % 10) ∷ acc) fits
        ∙ rw whole refl)
]

-- Reading what formatInt prints of an int64 that is not negative gives the number back.
pub read_decimal-format_int :
    (value : ℕ) → value < int64_limit → read_decimal 0 (format_int (pos value)) ≡ value
unfolding format_int
read_decimal-format_int value h = elim (Bool-cases (nat_eq value 0)) [
  | inl empty ↦ let none_left : value ≡ 0 = ground arith in rw empty (sym none_left)
  | inr more ↦ rw more (read_decimal-digits_before 20 value [] (omega arith))
]

abbrev IsDigit : ℕ → Type 0
IsDigit c = (leb b'0' c && leb c b'9') ≡ true

digits_before-IsDigit :
    (free value : ℕ) (acc : Text) → All IsDigit acc → All IsDigit (digits_before free value acc)
unfolding digits_before
digits_before-IsDigit zero value acc h = h
digits_before-IsDigit (suc free) value acc h =
    let rest =
      digits_before-IsDigit free (value / 10) ((b'0' + value % 10) ∷ acc) (ground arith, h) in
    elim (Bool-cases (nat_eq value 0)) [ inl empty ↦ rw empty h | inr more ↦ rw more rest ]

format_int-IsDigit : (value : ℕ) → All IsDigit (format_int (pos value))
unfolding format_int
format_int-IsDigit value = elim (Bool-cases (nat_eq value 0)) [
  | inl empty ↦ rw empty (refl, tt)
  | inr more ↦ rw more (digits_before-IsDigit 20 value [] tt)
]

cons_same : {a b : ℕ} {xs ys : Text} → (a ∷ xs) ≡ (b ∷ ys) → (a ≡ b) × (xs ≡ ys)
cons_same e = (cc, cc)

no_colon : (xs ds es : Text) → All IsDigit ds → ¬ (ds ≡ xs ++ b':' ∷ es)
no_colon [] [] es h e = absurd (cc)
no_colon [] (d ∷ ds) es h e = let same : d ≡ b':' = (cons_same e).0 in absurd (ground (arith, h.0))
no_colon (x ∷ xs) [] es h e = absurd (cc)
no_colon (x ∷ xs) (d ∷ ds) es h e = no_colon xs ds es h.1 (cons_same e).1

-- a text is split at its last colon in one way
split_colon :
    (xs ys ds es : Text)
    → All IsDigit ds
    → All IsDigit es
    → (xs ++ b':' ∷ ds) ≡ (ys ++ b':' ∷ es)
    → (xs ≡ ys) × (ds ≡ es)
split_colon [] [] ds es h k e = (refl, (cons_same e).1)
split_colon [] (y ∷ ys) ds es h k e = absurd (no_colon ys ds es h (cons_same e).1)
split_colon (x ∷ xs) [] ds es h k e = absurd (no_colon xs es ds k (sym (cons_same e).1))
split_colon (x ∷ xs) (y ∷ ys) ds es h k e =
    let (first, rest) = cons_same e in
    let (same, digits) = split_colon xs ys ds es h k rest in (rw (first, same) refl, digits)

format_int-same :
    (m n : ℕ) → m < int64_limit → n < int64_limit → format_int (pos m) ≡ format_int (pos n) → m ≡ n
format_int-same m n h k e = sym (read_decimal-format_int m h) ∙ rw e (read_decimal-format_int n k)

-- Two observations whose numbers are int64 and not negative have the same key only if their numbers
-- are the same and their ids differ at most in surrounding blanks and in case: the cache of the
-- resolver never answers for another beacon, whatever the id of a beacon contains.
pub observation_key-same :
    (u v : Text) (a b m n : ℕ)
    → a < int64_limit
    → b < int64_limit
    → m < int64_limit
    → n < int64_limit
    → observation_key (record { uuid = u; major = pos a; minor = pos m })
      ≡ observation_key (record { uuid = v; major = pos b; minor = pos n })
    → (fold_uuid u ≡ fold_uuid v) × (a ≡ b) × (m ≡ n)
unfolding observation_key
observation_key-same u v a b m n ha hb hm hn e =
    let (front, minors) =
      split_colon (fold_uuid u ++ b':' ∷ format_int (pos a))
        (fold_uuid v ++ b':' ∷ format_int (pos b)) (format_int (pos m)) (format_int (pos n))
        (format_int-IsDigit m) (format_int-IsDigit n) e in
    let (ids, majors) =
      split_colon (fold_uuid u) (fold_uuid v) (format_int (pos a)) (format_int (pos b))
        (format_int-IsDigit a) (format_int-IsDigit b) front in
    (ids, format_int-same a b ha hb majors, format_int-same m n hm hn minors)
