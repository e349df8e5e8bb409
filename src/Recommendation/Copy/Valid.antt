-- ===== src/Recommendation/Copy/Valid.antt =====
-- internal/recommendation/copy.go: what `GenerateCopy` returns.
use mathlib.Core.Path.{subst}
use spacetime_node.Prelude.{
  ◌≤◌, ◌≡◌, refl, ◌⊎◌, inl, inr, String, true, Option, none, some, not, all, arith, eq_iff,
  Bool-cases,
}
use spacetime_node.Prelude.Text.{codes}
use spacetime_node.Platform.Result.{ok, >>=-ok, fail_if-ok, Result-cases}
use spacetime_node.Recommendation.Copy.{
  CopyFacts, CopyOutput, Copy, Generator, rune_count, fact_token, format_decimal, text_of, is_tone,
  allowed_numbers, valid_copy_facts, valid_copy_output, template_output, template_copy, choose_copy,
  after_template, generate_copy,
}
use spacetime_node.Recommendation.Copy.Numbers.{contains, numeric_tokens, within}
use spacetime_node.Recommendation.Copy.Runes.{rune_count-pos}

-- A copy that may be shown: its parts are there and within their lengths, its tone is one of the
-- three, it names the offer, the price and the terms, and it has no number besides those of the facts.
pub record IsCopy (facts : CopyFacts) (output : CopyOutput) : Type 0 where
  pub title_pos : 1 ≤ rune_count output.title
  pub title_le : rune_count output.title ≤ 40
  pub body_pos : 1 ≤ rune_count output.body
  pub body_le : rune_count output.body ≤ 140
  pub tone : (output.tone ≡ "friendly") ⊎ ((output.tone ≡ "calm") ⊎ (output.tone ≡ "urgent"))
  pub offer : contains (codes (fact_token facts.offer_name)) (codes (text_of output)) ≡ true
  pub price : contains (codes (format_decimal facts.points_cost)) (codes (text_of output)) ≡ true
  pub terms :
      contains (codes (fact_token facts.discount_description)) (codes (text_of output)) ≡ true
  pub numbers :
      all (within (allowed_numbers facts)) (numeric_tokens (codes (text_of output))) ≡ true

is_tone-cases :
    (tone : String)
    → is_tone tone ≡ true
    → (tone ≡ "friendly") ⊎ ((tone ≡ "calm") ⊎ (tone ≡ "urgent"))
is_tone-cases tone h =
    ground (arith, eq_iff tone "friendly", eq_iff tone "calm", eq_iff tone "urgent")

valid_copy_output-IsCopy :
    (facts : CopyFacts) (output : CopyOutput)
    → valid_copy_output facts output ≡ true
    → IsCopy facts output
unfolding valid_copy_output
valid_copy_output-IsCopy facts output h = record {
  title_pos = rune_count-pos output.title (ground arith);
  title_le = ground arith;
  body_pos = rune_count-pos output.body (ground arith);
  body_le = ground arith;
  tone = is_tone-cases output.tone (ground arith);
  offer = ground arith;
  price = ground arith;
  terms = ground arith;
  numbers = ground arith;
}

-- where a copy is from: the template, or a generator
abbrev pub IsFrom : Option Generator → CopyFacts → Copy → Type 0
IsFrom generator facts copy =
    ((copy.source ≡ "template") × (template_copy facts ≡ ok copy.output))
    ⊎ ((copy.source ≡ "llm") × (g : Generator) × (generator ≡ some g) × (g facts ≡ ok copy.output))

template_copy-ok :
    (facts : CopyFacts) {t : CopyOutput}
    → template_copy facts ≡ ok t
    → valid_copy_output facts t ≡ true
unfolding template_copy
template_copy-ok facts {t} e =
    let (_, e₁) = fail_if-ok (not (valid_copy_facts facts)) _ _ e in
    let (valid, e₂) = fail_if-ok (not (valid_copy_output facts (template_output facts))) _ _ e₁ in
    let same : template_output facts ≡ t = cc in
    subst (λ o. valid_copy_output facts o ≡ true) same (ground arith)

choose_copy-IsFrom :
    (facts : CopyFacts) (g : Generator) (t : CopyOutput)
    → template_copy facts ≡ ok t
    → (valid_copy_output facts (choose_copy facts t (g facts)).output ≡ true)
      × IsFrom (some g) facts (choose_copy facts t (g facts))
unfolding choose_copy
choose_copy-IsFrom facts g t e = elim (Result-cases (g facts)) [
  | inr (_, failed) ↦ rw failed (template_copy-ok facts e, inl (refl, e))
  | inl (output, made) ↦ elim (Bool-cases (valid_copy_output facts output)) [
    | inl valid ↦ rw (made, valid) (valid, inr (refl, g, refl, made))
    | inr invalid ↦ rw (made, invalid) (template_copy-ok facts e, inl (refl, e))
  ]
]

after_template-IsFrom :
    (facts : CopyFacts) (generator : Option Generator) (t : CopyOutput)
    → template_copy facts ≡ ok t
    → (valid_copy_output facts (after_template facts generator t).output ≡ true)
      × IsFrom generator facts (after_template facts generator t)
unfolding after_template
after_template-IsFrom facts none t e = (template_copy-ok facts e, inl (refl, e))
after_template-IsFrom facts (some g) t e = choose_copy-IsFrom facts g t e

-- A copy that GenerateCopy returns has a title of 1 to 40 and a body of 1 to 140 code points and
-- one of the three tones, it names the offer, the price and the terms, and it has no number besides
-- those of the facts, whatever the generator returned; it is the template, or what the generator
-- returned for the facts.
pub generate_copy-IsCopy :
    (generator : Option Generator) (facts : CopyFacts) {copy : Copy}
    → generate_copy generator facts ≡ ok copy
    → IsCopy facts copy.output × IsFrom generator facts copy
unfolding generate_copy
generate_copy-IsCopy generator facts {copy} h =
    let (t, templated, e) = >>=-ok (template_copy facts) _ h in
    let same : after_template facts generator t ≡ copy = cc in
    let (valid, source) = after_template-IsFrom facts generator t templated in
    subst (λ c. IsCopy facts c.output × IsFrom generator facts c) same
      (valid_copy_output-IsCopy facts _ valid, source)
