-- ===== src/Mobility/Key.antt =====
-- internal/mobility/resolver.go: the key of an observation. Texts are lists of code points here.
use spacetime_node.Prelude.{ℕ, zero, suc, ◌+◌, List, [], ◌∷◌, ◌++◌, nat_eq, if◌then◌else◌}
use Prim.Native.Nat.{◌/◌, ◌%◌}
use spacetime_node.Prelude.Int.{ℤ, pos, negsuc}
use spacetime_node.Prelude.Text.{trim_space, to_lower}

abbrev pub Text : Type 0
Text = List ℕ

pub record Observation : Type 0 where
  pub uuid : Text
  pub major : ℤ
  pub minor : ℤ

-- 2 ^ 63
abbrev pub int64_limit : ℕ
int64_limit = 9223372036854775808

-- The loop of `formatInt`, which fills its array of bytes from the end; the first argument is how
-- many bytes are free.
unfoldable pub digits_before : ℕ → ℕ → Text → Text
digits_before zero value acc = acc
digits_before (suc free) value acc =
    let rest = digits_before free (value / 10) ((b'0' + value % 10) ∷ acc) in
    if nat_eq value 0 then acc else rest

-- `formatInt`, whose array has 20 bytes; `-value` is the value itself for the least int64, so that
-- the loop does not run
unfoldable pub format_int : ℤ → Text
format_int (pos value) = if nat_eq value 0 then b'0' ∷ [] else digits_before 20 value []
format_int (negsuc n) =
    if nat_eq (suc n) int64_limit then b'-' ∷ [] else b'-' ∷ digits_before 20 (suc n) []

abbrev pub fold_uuid : Text → Text
fold_uuid uuid = to_lower (trim_space uuid)

-- `observationKey`
unfoldable pub observation_key : Observation → Text
observation_key o = (fold_uuid o.uuid ++ b':' ∷ format_int o.major) ++ b':' ∷ format_int o.minor
