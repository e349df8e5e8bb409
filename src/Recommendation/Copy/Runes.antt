-- ===== src/Recommendation/Copy/Runes.antt =====
-- internal/recommendation/copy.go: the code points of the texts that the template is made of.
use Prim.Native.Char.{code}
use Prim.Native.String as S
use Prim.Native.String.append
use spacetime_node.Prelude.{
  ℕ, zero, suc, ◌+◌, ◌/◌, ◌%◌, ◌≤◌, ◌≡◌, refl, ap, String, false, List, [], ◌∷◌, ◌++◌, ◌==◌, leb,
  ltb, nat_eq, length, take, length-take-le, All, All-append, All-take, arith, eq_refl, Bool-cases,
  inl, inr,
}
use spacetime_node.Prelude.Int.{pos}
use spacetime_node.Prelude.Text.{codes}
use spacetime_node.Recommendation.Copy.{
  rune_count, take_runes, truncate_runes, fact_token, digit, decimal, format_decimal, join,
}
use spacetime_node.Recommendation.Copy.Numbers.{is_digit}
use spacetime_node.Recommendation.Copy.Tokens.{IsPlain}

pub codes-append : (s t : String) → codes (S.◌++◌ s t) ≡ codes s ++ codes t
codes-append String.[] t = rw (append.nil t) refl
codes-append (String.◌∷◌ c s) t = rw (append.cons c s t) (ap (λ r. code c ∷ r) (codes-append s t))

pub codes-take_runes : (n : ℕ) (s : String) → codes (take_runes n s) ≡ take n (codes s)
codes-take_runes zero s = refl
codes-take_runes (suc n) String.[] = refl
codes-take_runes (suc n) (String.◌∷◌ c s) = ap (λ r. code c ∷ r) (codes-take_runes n s)

pub truncate_runes-short : (s : String) (n : ℕ) → rune_count s ≤ n → truncate_runes s n ≡ s
unfolding truncate_runes
truncate_runes-short s n h = ground arith

take-short : (n : ℕ) (cs : List ℕ) → length cs ≤ n → take n cs ≡ cs
take-short zero [] h = refl
take-short zero (c ∷ cs) h = absurd (omega arith)
take-short (suc n) [] h = refl
take-short (suc n) (c ∷ cs) h = ap (λ r. c ∷ r) (take-short n cs (omega arith))

pub codes-truncate_runes : (s : String) (n : ℕ) → codes (truncate_runes s n) ≡ take n (codes s)
unfolding truncate_runes
codes-truncate_runes s n = elim (Bool-cases (leb (rune_count s) n)) [
  | inl short ↦ rw (short, take-short n (codes s) (ground arith)) refl
  | inr long ↦ rw long (codes-take_runes n s)
]

pub codes-fact_token : (s : String) → codes (fact_token s) ≡ take 20 (codes s)
unfolding fact_token
codes-fact_token s = elim (Bool-cases (ltb 20 (rune_count s))) [
  | inl long ↦ rw long (codes-take_runes 20 s)
  | inr short ↦ rw (short, take-short 20 (codes s) (ground arith)) refl
]

pub rune_count-truncate_runes : (s : String) (n : ℕ) → rune_count (truncate_runes s n) ≤ n
rune_count-truncate_runes s n = rw (codes-truncate_runes s n) (length-take-le n (codes s))

pub rune_count-pos : (s : String) → (s == "") ≡ false → 1 ≤ rune_count s
rune_count-pos String.[] h = absurd (ground (arith, eq_refl ""))
rune_count-pos (String.◌∷◌ c s) h = omega arith

rune_count-decimal :
    (free value : ℕ) (acc : String) → rune_count (decimal free value acc) ≤ free + rune_count acc
unfolding decimal
rune_count-decimal zero value acc = omega arith
rune_count-decimal (suc free) value acc =
    let rest = rune_count-decimal free (value / 10) (String.◌∷◌ (digit (value % 10)) acc) in
    elim (Bool-cases (nat_eq value 0)) [
      | inl done ↦ rw done (omega arith)
      | inr more ↦ rw more (omega arith)
    ]

pub rune_count-format_decimal : (value : ℕ) → rune_count (format_decimal (pos value)) ≤ 19
unfolding format_decimal
rune_count-format_decimal value = elim (Bool-cases (nat_eq value 0)) [
  | inl nothing ↦ rw nothing (omega arith)
  | inr some_digits ↦ rw some_digits (rune_count-decimal 19 value "")
]

-- what a prefix keeps of two texts of which it has room for the first
pub take-append :
    (n : ℕ) (xs ys : List ℕ) → length xs ≤ n → (m : ℕ) × (take n (xs ++ ys) ≡ xs ++ take m ys)
take-append n [] ys h = (n, refl)
take-append zero (x ∷ xs) ys h = absurd (omega arith)
take-append (suc n) (x ∷ xs) ys h =
    let (m, e) = take-append n xs ys (omega arith) in (m, ap (λ r. x ∷ r) e)

pub IsPlain-append :
    (s t : String) → IsPlain (codes s) → IsPlain (codes t) → IsPlain (codes (S.◌++◌ s t))
IsPlain-append s t h k =
    rw (codes-append s t) (All-append (λ c. is_digit c ≡ false) (codes s) (codes t) h k)

pub join-IsPlain :
    (separator : String) (labels : List String)
    → IsPlain (codes separator)
    → All (λ l. IsPlain (codes l)) labels
    → IsPlain (codes (join separator labels))
join-IsPlain separator [] p h = tt
join-IsPlain separator (s ∷ []) p h = h.0
join-IsPlain separator (s ∷ t ∷ ss) p h =
    IsPlain-append s (S.◌++◌ separator (join separator (t ∷ ss))) h.0
      (IsPlain-append separator (join separator (t ∷ ss)) p (join-IsPlain separator (t ∷ ss) p h.1))

pub truncate_runes-IsPlain :
    (s : String) (n : ℕ) → IsPlain (codes s) → IsPlain (codes (truncate_runes s n))
truncate_runes-IsPlain s n h =
    rw (codes-truncate_runes s n) (All-take (λ c. is_digit c ≡ false) n (codes s) h)
