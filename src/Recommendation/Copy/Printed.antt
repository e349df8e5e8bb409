-- ===== src/Recommendation/Copy/Printed.antt =====
-- internal/recommendation/copy.go: the code points of the template of facts without other numbers.
use mathlib.Core.List.{append-nil, append_assoc}
use Prim.Native.String as S
use spacetime_node.Prelude.{
  ℕ, ◌≤◌, ◌≡◌, refl, ap, ◌∙◌, inl, inr, String, true, false, List, [], ◌∷◌, ◌++◌, ◌==◌,
  if◌then◌else◌, length, length-append, take, All, All-take, all, arith, eq_iff, Bool-cases,
}
use spacetime_node.Prelude.Int.{ℤ, pos, negsuc, ltb_ℤ}
use spacetime_node.Prelude.Text.{codes}
use spacetime_node.Recommendation.Copy.{
  CopyFacts, rune_count, truncate_runes, format_decimal, text_of, join, allowed_numbers,
  valid_copy_facts, body_head, body_tail, template_output,
}
use spacetime_node.Recommendation.Copy.Numbers.{is_digit, numeric_tokens, within}
use spacetime_node.Recommendation.Copy.Tokens.{IsPlain, all-IsPlain}
use spacetime_node.Recommendation.Copy.Runes.{
  codes-append, codes-truncate_runes, truncate_runes-short, rune_count-truncate_runes,
  rune_count-format_decimal, take-append, join-IsPlain, IsPlain-append, truncate_runes-IsPlain,
}

-- Facts that are valid, whose name and terms are printed whole, and that have no number but in the
-- name, the terms and the price: a number that the station's name has is one of those.
pub record CanPrint (facts : CopyFacts) : Type 0 where
  pub valid : valid_copy_facts facts ≡ true
  pub name : rune_count facts.offer_name ≤ 40
  pub terms : rune_count facts.discount_description ≤ 80
  pub station :
      all
        (within (allowed_numbers facts))
        (numeric_tokens (codes (truncate_runes facts.station_name 20)))
      ≡ true
  pub labels : All (λ l. IsPlain (codes l)) facts.reason_labels
  pub time : IsPlain (codes facts.time_context)

-- the body around its numbers
abbrev pub with_price : CopyFacts → List ℕ → List ℕ
with_price facts rest =
    0xff0c ∷ 0x4f7f ∷ 0x7528 ∷ 32 ∷ codes (format_decimal facts.points_cost) ++ rest

abbrev pub with_terms : CopyFacts → List ℕ → List ℕ
with_terms facts rest = 0xff1a ∷ codes facts.discount_description ++ with_price facts rest

abbrev pub station_of : CopyFacts → List ℕ
station_of facts = codes (truncate_runes facts.station_name 20)

-- the name, a blank and the body
abbrev pub tested : CopyFacts → List ℕ → List ℕ
tested facts rest = codes facts.offer_name ++ 32 ∷ (station_of facts ++ with_terms facts rest)

-- the characters around the numbers
pub blank_plain : is_digit 32 ≡ false
unfolding is_digit
blank_plain = refl

pub colon_plain : is_digit 0xff1a ≡ false
unfolding is_digit
colon_plain = refl

pub comma_plain : is_digit 0xff0c ≡ false
unfolding is_digit
comma_plain = refl

pub use_plain : (is_digit 0x4f7f ≡ false) × (is_digit 0x7528 ≡ false)
unfolding is_digit
use_plain = (refl, refl)

reasons-IsPlain : IsPlain (codes " 點即可。推薦理由：")
unfolding is_digit
reasons-IsPlain = all-IsPlain (codes " 點即可。推薦理由：") refl

suited-IsPlain : IsPlain (codes "，適合")
unfolding is_digit
suited-IsPlain = all-IsPlain (codes "，適合") refl

stop-IsPlain : IsPlain (codes "。")
unfolding is_digit
stop-IsPlain = all-IsPlain (codes "。") refl

comma-IsPlain : IsPlain (codes "、")
unfolding is_digit
comma-IsPlain = all-IsPlain (codes "、") refl

pub not_empty : (s : String) → 1 ≤ rune_count s → (s == "") ≡ false
not_empty s h = elim (Bool-cases (s == "")) [
  | inl nothing ↦
      let same : s ≡ "" = (eq_iff s "").0 nothing in
      let gone : rune_count s ≡ 0 = rw same refl in absurd (omega arith)
  | inr given ↦ given
]

not_negative : (z : ℤ) → ltb_ℤ z (pos 0) ≡ false → (n : ℕ) × (z ≡ pos n)
not_negative (pos n) h = (n, refl)
not_negative (negsuc n) h = absurd (ground arith)

time-IsPlain :
    (time_context : String)
    → IsPlain (codes time_context)
    → IsPlain (codes (if time_context == "" then "" else S.◌++◌ "，適合" (S.◌++◌ time_context "。")))
time-IsPlain time_context h = elim (Bool-cases (time_context == "")) [
  | inl nothing ↦ rw nothing tt
  | inr given ↦ rw given (
      IsPlain-append "，適合" (S.◌++◌ time_context "。") suited-IsPlain
        (IsPlain-append time_context "。" h stop-IsPlain))
]

module _ (facts : CopyFacts) (can : CanPrint facts) where
  codes-body_head : codes (body_head facts) ≡ station_of facts ++ with_terms facts []
  unfolding body_head
  codes-body_head =
      let p = format_decimal facts.points_cost in
      let d = facts.discount_description in
      rw
        (
          truncate_runes-short d 80 can.terms,
          codes-append (truncate_runes facts.station_name 20)
              (S.◌++◌ "：" (S.◌++◌ d (S.◌++◌ "，使用 " p))),
          codes-append "：" (S.◌++◌ d (S.◌++◌ "，使用 " p)),
          codes-append d (S.◌++◌ "，使用 " p),
          codes-append "，使用 " p,
          append-nil (codes p),
        )
        refl

  body_tail-IsPlain : IsPlain (codes (body_tail facts))
  unfolding body_tail
  body_tail-IsPlain =
      let labels = join "、" facts.reason_labels in
      IsPlain-append " 點即可。推薦理由：" _ reasons-IsPlain (
        IsPlain-append (truncate_runes labels 30) _
          (truncate_runes-IsPlain labels 30
            (join-IsPlain "、" facts.reason_labels comma-IsPlain can.labels))
          (time-IsPlain facts.time_context can.time))

  points_pos : (n : ℕ) × (facts.points_cost ≡ pos n)
  unfolding valid_copy_facts
  points_pos = let valid = can.valid in not_negative facts.points_cost (ground arith)

  body_head_le : length (codes (body_head facts)) ≤ 140
  body_head_le =
      let (n, price) = points_pos in
      let d = codes facts.discount_description in
      let p = codes (format_decimal facts.points_cost) in
      rw
        (
          codes-body_head,
          length-append (station_of facts) (with_terms facts []),
          length-append d (with_price facts []),
          length-append p [],
          price,
        )
        (omega (
          arith,
          rune_count-truncate_runes facts.station_name 20,
          can.terms,
          rune_count-format_decimal n,
        ))

  with_rest :
      (rest : List ℕ)
      → (station_of facts ++ with_terms facts []) ++ rest
        ≡ station_of facts ++ with_terms facts rest
  with_rest rest =
      let d = codes facts.discount_description in
      let p = codes (format_decimal facts.points_cost) in
      rw
        (
          append-nil p,
          append_assoc (station_of facts) (0xff1a ∷ d ++ 0xff0c ∷ 0x4f7f ∷ 0x7528 ∷ 32 ∷ p) rest,
          append_assoc d (0xff0c ∷ 0x4f7f ∷ 0x7528 ∷ 32 ∷ p) rest,
        )
        refl

  pub codes-body :
      (rest : List ℕ) × IsPlain rest
      × (codes (template_output facts).body ≡ station_of facts ++ with_terms facts rest)
  unfolding template_output
  codes-body =
      let (m, kept) =
        take-append 140 (codes (body_head facts)) (codes (body_tail facts)) body_head_le in
      (
        take m (codes (body_tail facts)),
        All-take (λ c. is_digit c ≡ false) m (codes (body_tail facts)) body_tail-IsPlain,
        rw
            (
              codes-truncate_runes (S.◌++◌ (body_head facts) (body_tail facts)) 140,
              codes-append (body_head facts) (body_tail facts),
            )
            (kept ∙ rw codes-body_head (with_rest (take m (codes (body_tail facts))))),
      )

  pub codes-text :
      (rest : List ℕ) × IsPlain rest × (codes (text_of (template_output facts)) ≡ tested facts rest)
  unfolding template_output
  codes-text =
      let (rest, plain, body) = codes-body in
      (
        rest,
        plain,
        codes-append (truncate_runes facts.offer_name 40) (S.◌++◌ " " (template_output facts).body)
            ∙ rw
                (
                  truncate_runes-short facts.offer_name 40 can.name,
                  codes-append " " (template_output facts).body,
                )
                (ap (λ r. codes facts.offer_name ++ 32 ∷ r) body),
      )
