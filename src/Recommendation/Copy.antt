-- ===== src/Recommendation/Copy.antt =====
-- internal/recommendation/copy.go: the copy of an offer. The generator is an argument: what it
-- returns for the facts, or an error, which includes that of a deadline. Counters are left out.
pub mod Numbers
pub mod Tokens
pub mod Runes
pub mod Valid
pub mod Printed
pub mod Template
mod Tests
use Prim.Native.Char.{Char}
use Prim.Native.String.{◌++◌}
use spacetime_node.Prelude.{
  ℕ, zero, suc, ◌/◌, ◌%◌, String, Bool, true, false, Option, none, some, List, [], ◌∷◌, ◌&&◌, ◌||◌,
  not, ◌==◌, if◌then◌else◌, leb, ltb, nat_eq, length, all, any,
}
use spacetime_node.Prelude.Int.{ℤ, pos, negsuc, ltb_ℤ}
use spacetime_node.Prelude.Text.{codes}
use spacetime_node.Platform.Result.{
  Result, ok, err, invalid_copy_facts, invalid_copy_output, ◌>>=◌, ◌>>◌, fail_if,
}
use spacetime_node.Recommendation.Copy.Numbers.{contains, numeric_tokens, within}

pub record CopyFacts : Type 0 where
  pub station_name : String
  pub offer_name : String
  pub points_cost : ℤ
  pub discount_description : String
  pub reason_labels : List String
  pub time_context : String

pub record CopyOutput : Type 0 where
  pub title : String
  pub body : String
  pub tone : String

-- a copy and where it is from
pub record Copy : Type 0 where
  pub output : CopyOutput
  pub source : String

abbrev pub rune_count : String → ℕ
rune_count value = length (codes value)

abbrev pub take_runes : ℕ → String → String
take_runes zero s = ""
take_runes (suc n) String.[] = ""
take_runes (suc n) (String.◌∷◌ c s) = String.◌∷◌ c (take_runes n s)

-- `truncateRunes`
unfoldable pub truncate_runes : String → ℕ → String
truncate_runes value limit = if leb (rune_count value) limit then value else take_runes limit value

-- `factToken`
unfoldable pub fact_token : String → String
fact_token value = if ltb 20 (rune_count value) then take_runes 20 value else value

-- the character of a digit
abbrev pub digit : ℕ → Char
digit d =
    if nat_eq d 0
    then "0"
    else if nat_eq d 1
    then "1"
    else if nat_eq d 2
    then "2"
    else if nat_eq d 3
    then "3"
    else if nat_eq d 4
    then "4"
    else if nat_eq d 5
    then "5"
    else if nat_eq d 6
    then "6"
    else if nat_eq d 7
    then "7"
    else if nat_eq d 8
    then "8"
    else "9"

unfoldable pub decimal : ℕ → ℕ → String → String
decimal zero value acc = acc
decimal (suc free) value acc =
    let rest = decimal free (value / 10) (String.◌∷◌ (digit (value % 10)) acc) in
    if nat_eq value 0 then acc else rest

-- `strconv.FormatInt` in base 10, and `%d`: an int64 has at most 19 digits
unfoldable pub format_decimal : ℤ → String
format_decimal (pos value) = if nat_eq value 0 then "0" else decimal 19 value ""
format_decimal (negsuc n) = String.◌∷◌ "-" (decimal 19 (suc n) "")

-- `strings.Join`
abbrev pub join : String → List String → String
join separator [] = ""
join separator (s ∷ []) = s
join separator (s ∷ t ∷ ss) = s ++ separator ++ join separator (t ∷ ss)

abbrev pub is_label : String → Bool
is_label label = not (label == "" || ltb 40 (rune_count label))

-- `ValidateCopyFacts` returns no error
unfoldable pub valid_copy_facts : CopyFacts → Bool
valid_copy_facts facts =
    not (facts.station_name == "")
    && not (ltb 80 (rune_count facts.station_name))
    && not (facts.offer_name == "")
    && not (ltb 120 (rune_count facts.offer_name))
    && not (ltb_ℤ facts.points_cost (pos 0))
    && not (facts.discount_description == "")
    && not (ltb 160 (rune_count facts.discount_description))
    && not (ltb (length facts.reason_labels) 1)
    && not (ltb 3 (length facts.reason_labels))
    && not (ltb 40 (rune_count facts.time_context))
    && all is_label facts.reason_labels

-- `allowedNumbers`
unfoldable pub allowed_numbers : CopyFacts → List (List ℕ)
allowed_numbers facts = numeric_tokens (
    codes (
      facts.offer_name
      ++ " "
      ++ facts.discount_description
      ++ " "
      ++ format_decimal facts.points_cost))

abbrev pub text_of : CopyOutput → String
text_of output = output.title ++ " " ++ output.body

abbrev pub is_tone : String → Bool
is_tone tone = tone == "friendly" || tone == "calm" || tone == "urgent"

-- `ValidateCopyOutput` returns no error
unfoldable pub valid_copy_output : CopyFacts → CopyOutput → Bool
valid_copy_output facts output =
    valid_copy_facts facts
    && not (output.title == "")
    && not (ltb 40 (rune_count output.title))
    && not (output.body == "")
    && not (ltb 140 (rune_count output.body))
    && is_tone output.tone
    && contains (codes (fact_token facts.offer_name)) (codes (text_of output))
    && contains (codes (format_decimal facts.points_cost)) (codes (text_of output))
    && contains (codes (fact_token facts.discount_description)) (codes (text_of output))
    && all (within (allowed_numbers facts)) (numeric_tokens (codes (text_of output)))

-- `body` of `TemplateCopy` up to the price, and the rest of it
unfoldable pub body_head : CopyFacts → String
body_head facts =
    truncate_runes facts.station_name 20
    ++ "："
    ++ truncate_runes facts.discount_description 80
    ++ "，使用 "
    ++ format_decimal facts.points_cost

unfoldable pub body_tail : CopyFacts → String
body_tail facts =
    " 點即可。推薦理由："
    ++ truncate_runes (join "、" facts.reason_labels) 30
    ++ (if facts.time_context == "" then "" else "，適合" ++ facts.time_context ++ "。")

unfoldable pub template_output : CopyFacts → CopyOutput
template_output facts = record {
  title = truncate_runes facts.offer_name 40;
  body = truncate_runes (body_head facts ++ body_tail facts) 140;
  tone = "friendly";
}

-- `TemplateCopy`
unfoldable pub template_copy : CopyFacts → Result CopyOutput
template_copy facts = do
  fail_if (not (valid_copy_facts facts)) invalid_copy_facts
  fail_if (not (valid_copy_output facts (template_output facts))) invalid_copy_output
  ok (template_output facts)

abbrev pub Generator : Type 0
Generator = CopyFacts → Result CopyOutput

-- what the generator returned, or the template
unfoldable pub choose_copy : CopyFacts → CopyOutput → Result CopyOutput → Copy
choose_copy facts template (err e) = record { output = template; source = "template" }
choose_copy facts template (ok output) =
    if valid_copy_output facts output
    then record { output = output; source = "llm" }
    else record { output = template; source = "template" }

unfoldable pub after_template : CopyFacts → Option Generator → CopyOutput → Copy
after_template facts none template = record { output = template; source = "template" }
after_template facts (some generator) template = choose_copy facts template (generator facts)

-- `GenerateCopy`
unfoldable pub generate_copy : Option Generator → CopyFacts → Result Copy
generate_copy generator facts = do
  template ← template_copy facts
  ok (after_template facts generator template)
