-- ===== src/Prelude/Text.antt =====
-- Go's string functions on code points: `strings.TrimSpace`, and `ToLower` and `ToUpper` of ASCII
-- letters. Letters outside ASCII stay as they are; the ids and categories of the program are ASCII.
use Prim.Native.Char.{code}
use Prim.Native.String.{String}
use spacetime_node.Prelude.Tests.{ltb, leb, nat_eq, if◌then◌else◌}
use Prim.Native.Nat.{ℕ, ◌+◌, ◌-◌}
use mathlib.Core.Bool.{Bool, true, false, ◌&&◌, ◌||◌}
use mathlib.Core.List.{List, [], ◌∷◌, map, reverse}

abbrev pub codes : String → List ℕ
codes String.[] = []
codes (String.◌∷◌ c s) = code c ∷ codes s

-- unicode.IsSpace
unfoldable pub is_space : ℕ → Bool
is_space c =
    (leb 9 c && leb c 13)
    || nat_eq c 32
    || nat_eq c 133
    || nat_eq c 160
    || nat_eq c 0x1680
    || (leb 0x2000 c && leb c 0x200a)
    || nat_eq c 0x2028
    || nat_eq c 0x2029
    || nat_eq c 0x202f
    || nat_eq c 0x205f
    || nat_eq c 0x3000

unfoldable pub drop_space : List ℕ → List ℕ
unfolding is_space
drop_space [] = []
drop_space (c ∷ cs) = if is_space c then drop_space cs else c ∷ cs

unfoldable pub trim_space : List ℕ → List ℕ
unfolding drop_space
trim_space cs = reverse (drop_space (reverse (drop_space cs)))

abbrev lower : ℕ → ℕ
lower c = if leb b'A' c && leb c b'Z' then c + 32 else c

abbrev upper : ℕ → ℕ
upper c = if leb b'a' c && leb c b'z' then c - 32 else c

unfoldable pub to_lower : List ℕ → List ℕ
to_lower = map lower

unfoldable pub to_upper : List ℕ → List ℕ
to_upper = map upper

abbrev pub codes_eq : List ℕ → List ℕ → Bool
codes_eq [] [] = true
codes_eq [] (d ∷ ds) = false
codes_eq (c ∷ cs) [] = false
codes_eq (c ∷ cs) (d ∷ ds) = nat_eq c d && codes_eq cs ds

abbrev pub is_empty : List ℕ → Bool
is_empty [] = true
is_empty (c ∷ cs) = false

-- Go's `<` on strings, which is that of their code points
unfoldable pub codes_less : List ℕ → List ℕ → Bool
codes_less [] [] = false
codes_less [] (d ∷ ds) = true
codes_less (c ∷ cs) [] = false
codes_less (c ∷ cs) (d ∷ ds) = if ltb c d then true else if ltb d c then false else codes_less cs ds

-- Go's `len`, in bytes of UTF-8
abbrev pub byte_length : List ℕ → ℕ
byte_length [] = 0
byte_length (c ∷ cs) =
    (if ltb c 128 then 1 else if ltb c 2048 then 2 else if ltb c 65536 then 3 else 4)
    + byte_length cs
