-- ===== src/Recommendation/Copy/Tokens.antt =====
-- internal/recommendation/copy.go: `strings.Contains` and `numericTokens` on the parts of a text.
use mathlib.Core.List.{append-nil}
use spacetime_node.Prelude.{
  ℕ, zero, suc, take, ◌≡◌, refl, ap, ◌∙◌, Bool, true, false, not, List, [], ◌∷◌, ◌++◌, ◌&&◌, all,
  All, arith, Bool-cases, inl, inr,
}
use spacetime_node.Prelude.Text.{codes_eq, is_empty}
use spacetime_node.Recommendation.Copy.Numbers.{
  is_digit, starts, contains, Scan, flush, scan_step, scan, no_scan, numeric_tokens, within,
}

starts-append : (part rest : List ℕ) → starts part (part ++ rest) ≡ true
starts-append [] rest = refl
starts-append (c ∷ cs) rest = ground (arith, starts-append cs rest)

contains-starts : (part text : List ℕ) → starts part text ≡ true → contains part text ≡ true
contains-starts [] [] h = refl
contains-starts (c ∷ cs) [] h = absurd (ground arith)
contains-starts part (c ∷ text) h = ground arith

starts-take : (n : ℕ) (cs rest : List ℕ) → starts (take n cs) (cs ++ rest) ≡ true
starts-take zero cs rest = refl
starts-take (suc n) [] rest = refl
starts-take (suc n) (c ∷ cs) rest = ground (arith, starts-take n cs rest)

pub contains-take : (n : ℕ) (cs rest : List ℕ) → contains (take n cs) (cs ++ rest) ≡ true
contains-take n cs rest = contains-starts (take n cs) (cs ++ rest) (starts-take n cs rest)

pub contains-front : (part rest : List ℕ) → contains part (part ++ rest) ≡ true
contains-front part rest = contains-starts part (part ++ rest) (starts-append part rest)

pub contains-append :
    (part before text : List ℕ) → contains part text ≡ true → contains part (before ++ text) ≡ true
contains-append part [] text h = h
contains-append part (c ∷ cs) text h = ground (arith, contains-append part cs text h)

abbrev pub AreDigits : List ℕ → Type 0
AreDigits = All (λ c. is_digit c ≡ true)

-- no digit
abbrev pub IsPlain : List ℕ → Type 0
IsPlain = All (λ c. is_digit c ≡ false)

-- the same as a test
pub all-IsPlain : (cs : List ℕ) → all (λ c. not (is_digit c)) cs ≡ true → IsPlain cs
all-IsPlain [] h = tt
all-IsPlain (c ∷ cs) h = (ground arith, all-IsPlain cs (ground arith))

scan-append : (s : Scan) (xs ys : List ℕ) → scan s (xs ++ ys) ≡ scan (scan s xs) ys
scan-append s [] ys = refl
scan-append s (x ∷ xs) ys = scan-append (scan_step s x) xs ys

scan_step-plain :
    (s : Scan) (c : ℕ)
    → is_digit c ≡ false
    → scan_step s c ≡ record { current = []; tokens = flush s }
unfolding scan_step
scan_step-plain s c h = rw h refl

-- `s` has the tokens `old` besides those of `t`
record Extends (old : List (List ℕ)) (t s : Scan) : Type 0 where
  same : s.current ≡ t.current
  more : s.tokens ≡ t.tokens ++ old

flush-Extends : (old : List (List ℕ)) (t s : Scan) → Extends old t s → flush s ≡ flush t ++ old
flush-Extends old t s h = elim (Bool-cases (is_empty t.current)) [
  | inl nothing ↦ rw (h.same, h.more, nothing) refl
  | inr kept ↦ rw (h.same, h.more, kept) refl
]

scan_step-Extends :
    (old : List (List ℕ)) (t s : Scan) (c : ℕ)
    → Extends old t s
    → Extends old (scan_step t c) (scan_step s c)
unfolding scan_step
scan_step-Extends old t s c h = elim (Bool-cases (is_digit c)) [
  | inl kept ↦ rw kept (record { same = rw h.same refl; more = h.more })
  | inr plain ↦ rw plain (record { same = refl; more = flush-Extends old t s h })
]

scan-Extends :
    (old : List (List ℕ)) (t s : Scan) (cs : List ℕ)
    → Extends old t s
    → Extends old (scan t cs) (scan s cs)
scan-Extends old t s [] h = h
scan-Extends old t s (c ∷ cs) h =
    scan-Extends old (scan_step t c) (scan_step s c) cs (scan_step-Extends old t s c h)

-- the loop at a character that is no digit
across : List ℕ → Scan
across xs = record { current = []; tokens = flush (scan no_scan xs) }

scan-across :
    (xs : List ℕ) (c : ℕ) (ys : List ℕ)
    → is_digit c ≡ false
    → scan no_scan (xs ++ c ∷ ys) ≡ scan (across xs) ys
unfolding across
scan-across xs c ys plain =
    scan-append no_scan xs (c ∷ ys)
    ∙ ap (λ s. scan s ys) (scan_step-plain (scan no_scan xs) c plain)

-- the numbers of two texts around a character that is no digit
pub numeric_tokens-append :
    (xs : List ℕ) (c : ℕ) (ys : List ℕ)
    → is_digit c ≡ false
    → numeric_tokens (xs ++ c ∷ ys) ≡ numeric_tokens ys ++ numeric_tokens xs
unfolding numeric_tokens across
numeric_tokens-append xs c ys plain =
    let old = flush (scan no_scan xs) in
    ap flush (scan-across xs c ys plain)
    ∙ flush-Extends old (scan no_scan ys) (scan (across xs) ys)
        (scan-Extends old no_scan (across xs) ys (record { same = refl; more = refl }))

pub numeric_tokens-skip :
    (c : ℕ) (ys : List ℕ) → is_digit c ≡ false → numeric_tokens (c ∷ ys) ≡ numeric_tokens ys
unfolding numeric_tokens
numeric_tokens-skip c ys plain =
    numeric_tokens-append [] c ys plain ∙ append-nil (numeric_tokens ys)

scan-plain :
    (cs : List ℕ) (old : List (List ℕ))
    → IsPlain cs
    → scan (record { current = []; tokens = old }) cs ≡ record { current = []; tokens = old }
scan-plain [] old h = refl
scan-plain (c ∷ cs) old h =
    rw (scan_step-plain (record { current = []; tokens = old }) c h.0) (scan-plain cs old h.1)

-- a text without digits after another has no numbers of its own
pub numeric_tokens-plain :
    (xs ys : List ℕ) → IsPlain ys → numeric_tokens (xs ++ ys) ≡ numeric_tokens xs
unfolding numeric_tokens across
numeric_tokens-plain xs [] h = rw (append-nil xs) refl
numeric_tokens-plain xs (c ∷ cs) h =
    ap flush (scan-across xs c cs h.0 ∙ scan-plain cs (flush (scan no_scan xs)) h.1)

codes_eq_refl : (cs : List ℕ) → codes_eq cs cs ≡ true
codes_eq_refl [] = refl
codes_eq_refl (c ∷ cs) = ground (arith, codes_eq_refl cs)

all-within-cons :
    (token : List ℕ) (old tokens : List (List ℕ))
    → all (within old) tokens ≡ true
    → all (within (token ∷ old)) tokens ≡ true
all-within-cons token old [] h = refl
all-within-cons token old (t ∷ ts) h = ground (arith, all-within-cons token old ts)

-- every number of a list is within it
pub within_self : (tokens : List (List ℕ)) → all (within tokens) tokens ≡ true
within_self [] = refl
within_self (t ∷ ts) = ground (arith, codes_eq_refl t, all-within-cons t ts ts (within_self ts))

pub all-append {ℓ} :
    {A : Type ℓ} (p : A → Bool) (xs ys : List A) → all p (xs ++ ys) ≡ (all p xs && all p ys)
all-append p [] ys = refl
all-append p (x ∷ xs) ys = ground (arith, all-append p xs ys)
