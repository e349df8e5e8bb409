-- ===== src/Recommendation/Copy/Template.antt =====
-- internal/recommendation/copy.go: facts for which the template is valid, so that `GenerateCopy`
-- returns a copy whatever the generator does.
use Prim.Native.String as S
use spacetime_node.Prelude.{
  ℕ, ◌≤◌, ◌≡◌, refl, sym, ap, ◌∙◌, true, false, Option, List, [], ◌∷◌, ◌++◌, ◌==◌, length-append,
  all, ltb, arith,
}
use spacetime_node.Prelude.Text.{codes}
use spacetime_node.Platform.Result.{ok}
use spacetime_node.Recommendation.Copy.{
  CopyFacts, Generator, rune_count, fact_token, format_decimal, is_tone, allowed_numbers,
  valid_copy_facts, valid_copy_output, body_head, body_tail, template_output, template_copy,
  after_template, generate_copy,
}
use spacetime_node.Recommendation.Copy.Numbers.{contains, numeric_tokens, within}
use spacetime_node.Recommendation.Copy.Tokens.{
  IsPlain, contains-take, contains-front, contains-append, numeric_tokens-append,
  numeric_tokens-skip, numeric_tokens-plain, within_self, all-append,
}
use spacetime_node.Recommendation.Copy.Runes.{
  codes-append, codes-fact_token, truncate_runes-short, rune_count-truncate_runes,
}
use spacetime_node.Recommendation.Copy.Printed.{
  CanPrint, with_price, with_terms, station_of, tested, blank_plain, colon_plain, comma_plain,
  use_plain, not_empty, codes-body, codes-text,
}

module _ (facts : CopyFacts) (can : CanPrint facts) where
  allowed_numbers-split :
      allowed_numbers facts
      ≡ (numeric_tokens (codes (format_decimal facts.points_cost))
          ++ numeric_tokens (codes facts.discount_description))
        ++ numeric_tokens (codes facts.offer_name)
  unfolding allowed_numbers
  allowed_numbers-split =
      let d = facts.discount_description in
      let p = format_decimal facts.points_cost in
      rw
        (
          codes-append facts.offer_name (S.◌++◌ " " (S.◌++◌ d (S.◌++◌ " " p))),
          codes-append " " (S.◌++◌ d (S.◌++◌ " " p)),
          codes-append d (S.◌++◌ " " p),
          codes-append " " p,
          numeric_tokens-append (codes facts.offer_name) 32 (codes d ++ 32 ∷ codes p) blank_plain,
          numeric_tokens-append (codes d) 32 (codes p) blank_plain,
        )
        refl

  -- the numbers of the price, the terms and the name are allowed
  allowed-parts :
      (all (within (allowed_numbers facts)) (numeric_tokens (codes facts.offer_name)) ≡ true)
      × (all (within (allowed_numbers facts)) (numeric_tokens (codes facts.discount_description))
          ≡ true)
      × (all
            (within (allowed_numbers facts))
            (numeric_tokens (codes (format_decimal facts.points_cost)))
          ≡ true)
  allowed-parts =
      let q = within (allowed_numbers facts) in
      let x = numeric_tokens (codes (format_decimal facts.points_cost)) in
      let y = numeric_tokens (codes facts.discount_description) in
      let z = numeric_tokens (codes facts.offer_name) in
      let whole = ap (all q) (sym allowed_numbers-split) ∙ within_self (allowed_numbers facts) in
      let outer = all-append q (x ++ y) z in
      let inner = all-append q x y in
      (
        ground (arith, outer, inner, whole),
        ground (arith, outer, inner, whole),
        ground (arith, outer, inner, whole),
      )

  numbers-within :
      (rest : List ℕ)
      → IsPlain rest
      → all (within (allowed_numbers facts)) (numeric_tokens (tested facts rest)) ≡ true
  numbers-within rest plain =
      let n = codes facts.offer_name in
      let d = codes facts.discount_description in
      let p = codes (format_decimal facts.points_cost) in
      let q = within (allowed_numbers facts) in
      let (ok_n, ok_d, ok_p) = allowed-parts in
      rw
        (
          numeric_tokens-append n 32 (station_of facts ++ with_terms facts rest) blank_plain,
          numeric_tokens-append (station_of facts) 0xff1a (d ++ with_price facts rest) colon_plain,
          numeric_tokens-append d 0xff0c (0x4f7f ∷ 0x7528 ∷ 32 ∷ p ++ rest) comma_plain,
          numeric_tokens-skip 0x4f7f (0x7528 ∷ 32 ∷ p ++ rest) use_plain.0,
          numeric_tokens-skip 0x7528 (32 ∷ p ++ rest) use_plain.1,
          numeric_tokens-skip 32 (p ++ rest) blank_plain,
          numeric_tokens-plain p rest plain,
          all-append q ((numeric_tokens p ++ numeric_tokens d) ++ numeric_tokens (station_of facts))
              (numeric_tokens n),
          all-append q (numeric_tokens p ++ numeric_tokens d) (numeric_tokens (station_of facts)),
          all-append q (numeric_tokens p) (numeric_tokens d),
          ok_n,
          ok_d,
          ok_p,
          can.station,
        )
        refl

  names-offer :
      (rest : List ℕ) → contains (codes (fact_token facts.offer_name)) (tested facts rest) ≡ true
  names-offer rest =
      rw (codes-fact_token facts.offer_name) (
        contains-take 20 (codes facts.offer_name)
          (32 ∷ (station_of facts ++ with_terms facts rest)))

  -- what the body has after the station's name, the whole text has
  contains-tested :
      (part rest : List ℕ)
      → contains part (with_terms facts rest) ≡ true
      → contains part (tested facts rest) ≡ true
  contains-tested part rest h =
      contains-append part (codes facts.offer_name)
        (32 ∷ (station_of facts ++ with_terms facts rest))
        (contains-append part (32 ∷ []) (station_of facts ++ with_terms facts rest)
          (contains-append part (station_of facts) (with_terms facts rest) h))

  names-terms :
      (rest : List ℕ)
      → contains (codes (fact_token facts.discount_description)) (tested facts rest) ≡ true
  names-terms rest =
      let d = codes facts.discount_description in
      contains-tested (codes (fact_token facts.discount_description)) rest (
        contains-append (codes (fact_token facts.discount_description)) (0xff1a ∷ [])
          (d ++ with_price facts rest)
          (rw (codes-fact_token facts.discount_description)
            (contains-take 20 d (with_price facts rest))))

  names-price :
      (rest : List ℕ)
      → contains (codes (format_decimal facts.points_cost)) (tested facts rest) ≡ true
  names-price rest =
      let d = codes facts.discount_description in
      let p = codes (format_decimal facts.points_cost) in
      contains-tested p rest (
        contains-append p (0xff1a ∷ d) (with_price facts rest) (
          contains-append p (0xff0c ∷ 0x4f7f ∷ 0x7528 ∷ 32 ∷ []) (p ++ rest)
            (contains-front p rest)))

  title-named : (facts.offer_name == "") ≡ false
  unfolding valid_copy_facts
  title-named = let valid = can.valid in ground arith

  body-given : ((template_output facts).body == "") ≡ false
  body-given =
      let (rest, plain, body) = codes-body facts can in
      not_empty (template_output facts).body
        (rw (body, length-append (station_of facts) (with_terms facts rest)) (omega arith))

  title-given :
      (((template_output facts).title == "") ≡ false)
      × (rune_count (template_output facts).title ≤ 40)
      × (is_tone (template_output facts).tone ≡ true)
  unfolding template_output
  title-given = (
    rw (truncate_runes-short facts.offer_name 40 can.name) title-named,
    rune_count-truncate_runes facts.offer_name 40,
    refl,
  )

  body-short : rune_count (template_output facts).body ≤ 140
  unfolding template_output
  body-short = rune_count-truncate_runes (S.◌++◌ (body_head facts) (body_tail facts)) 140

  template-valid : valid_copy_output facts (template_output facts) ≡ true
  unfolding valid_copy_output
  template-valid =
      let (rest, plain, text) = codes-text facts can in
      let (given, short, tone) = title-given in
      let short_title : ltb 40 (rune_count (template_output facts).title) ≡ false = ground arith in
      let short_body : ltb 140 (rune_count (template_output facts).body) ≡ false =
        ground (arith, body-short) in
      rw
        (
          can.valid,
          given,
          short_title,
          body-given,
          short_body,
          tone,
          text,
          names-offer rest,
          names-price rest,
          names-terms rest,
          numbers-within rest plain,
        )
        refl

-- For valid facts with a name of at most 40 and terms of at most 80 code points, whose labels and
-- time have no digit and whose station name has no number besides those of the offer, GenerateCopy
-- returns a copy, whatever the generator does: the template is always valid.
pub generate_copy-available :
    (generator : Option Generator) (facts : CopyFacts)
    → CanPrint facts
    → generate_copy generator facts ≡ ok (after_template facts generator (template_output facts))
unfolding generate_copy template_copy
generate_copy-available generator facts can = rw (can.valid, template-valid facts can) refl
