-- ===== src/Recommendation/Copy/Numbers.antt =====
-- internal/recommendation/copy.go, `numericTokens`: the numbers of a text, on its code points.
use spacetime_node.Prelude.{
  ℕ, ◌+◌, Bool, true, false, List, [], ◌∷◌, ◌++◌, ◌&&◌, ◌||◌, if◌then◌else◌, leb, ltb, nat_eq, any,
}
use spacetime_node.Prelude.Text.{codes_eq, is_empty}

-- the zeros of the decimal digits of Unicode 15, each with the nine digits after it
zeros : List ℕ
zeros =
    0x30 ∷ 0x660 ∷ 0x6f0 ∷ 0x7c0 ∷ 0x966 ∷ 0x9e6 ∷ 0xa66 ∷ 0xae6 ∷ 0xb66 ∷ 0xbe6 ∷ 0xc66 ∷ 0xce6
    ∷ 0xd66 ∷ 0xde6 ∷ 0xe50 ∷ 0xed0 ∷ 0xf20 ∷ 0x1040 ∷ 0x1090 ∷ 0x17e0 ∷ 0x1810 ∷ 0x1946 ∷ 0x19d0
    ∷ 0x1a80 ∷ 0x1a90 ∷ 0x1b50 ∷ 0x1bb0 ∷ 0x1c40 ∷ 0x1c50 ∷ 0xa620 ∷ 0xa8d0 ∷ 0xa900 ∷ 0xa9d0
    ∷ 0xa9f0 ∷ 0xaa50 ∷ 0xabf0 ∷ 0xff10 ∷ 0x104a0 ∷ 0x10d30 ∷ 0x11066 ∷ 0x110f0 ∷ 0x11136 ∷ 0x111d0
    ∷ 0x112f0 ∷ 0x11450 ∷ 0x114d0 ∷ 0x11650 ∷ 0x116c0 ∷ 0x11730 ∷ 0x118e0 ∷ 0x11950 ∷ 0x11c50
    ∷ 0x11d50 ∷ 0x11da0 ∷ 0x11f50 ∷ 0x16a60 ∷ 0x16ac0 ∷ 0x16b50 ∷ 0x1d7ce ∷ 0x1d7d8 ∷ 0x1d7e2
    ∷ 0x1d7ec ∷ 0x1d7f6 ∷ 0x1e140 ∷ 0x1e2f0 ∷ 0x1e4f0 ∷ 0x1e950 ∷ 0x1fbf0 ∷ []

-- `unicode.IsDigit`
unfoldable pub is_digit : ℕ → Bool
unfolding zeros
is_digit c =
    if ltb c 128
    then leb b'0' c && leb c b'9'
    else any (λ zero_digit. leb zero_digit c && leb c (zero_digit + 9)) zeros

abbrev pub starts : List ℕ → List ℕ → Bool
starts [] ds = true
starts (c ∷ cs) [] = false
starts (c ∷ cs) (d ∷ ds) = nat_eq c d && starts cs ds

-- `strings.Contains`, the part first
abbrev pub contains : List ℕ → List ℕ → Bool
contains part [] = is_empty part
contains part (c ∷ cs) = starts part (c ∷ cs) || contains part cs

-- `current` and `tokens`
pub record Scan : Type 0 where
  pub current : List ℕ
  pub tokens : List (List ℕ)

-- `flush`
abbrev pub flush : Scan → List (List ℕ)
flush s = if is_empty s.current then s.tokens else s.current ∷ s.tokens

unfoldable pub scan_step : Scan → ℕ → Scan
scan_step s c =
    if is_digit c
    then record s { current = s.current ++ c ∷ [] }
    else record { current = []; tokens = flush s }

-- the loop over the runes
abbrev pub scan : Scan → List ℕ → Scan
scan s [] = s
scan s (c ∷ cs) = scan (scan_step s c) cs

abbrev pub no_scan : Scan
no_scan = record { current = []; tokens = [] }

unfoldable pub numeric_tokens : List ℕ → List (List ℕ)
numeric_tokens cs = flush (scan no_scan cs)

-- `allowedNumbers[number]`
abbrev pub within : List (List ℕ) → List ℕ → Bool
within allowed number = any (codes_eq number) allowed
