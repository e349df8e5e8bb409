-- ===== src/Recommendation/Copy/Tests.antt =====
-- The copy of an offer at a station whose name has a number, and the theorems at it.
use spacetime_node.Prelude.{◌≡◌, refl, arith, some, [], ◌∷◌}
use spacetime_node.Prelude.Int.{pos}
use spacetime_node.Prelude.Text.{codes}
use spacetime_node.Recommendation.Copy.Tokens.{all-IsPlain}
use spacetime_node.Platform.Result.{ok, err, copy_generation, invalid_copy_output}
use spacetime_node.Recommendation.Copy.{
  CopyFacts, Copy, Generator, truncate_runes, fact_token, decimal, format_decimal, allowed_numbers,
  valid_copy_facts, valid_copy_output, body_head, body_tail, template_output, template_copy,
  choose_copy, after_template, generate_copy,
}
use spacetime_node.Recommendation.Copy.Numbers.{is_digit, scan_step, numeric_tokens}
use spacetime_node.Recommendation.Copy.Valid.{IsCopy, IsFrom, generate_copy-IsCopy}
use spacetime_node.Recommendation.Copy.Printed.{CanPrint}
use spacetime_node.Recommendation.Copy.Template.{generate_copy-available}

abbrev coffee : CopyFacts
coffee = record {
  station_name = "台北101／世貿";
  offer_name = "台北101 精品咖啡折抵 50 元";
  points_cost = pos 90;
  discount_description = "台北101／世貿站附近咖啡店折抵優惠。";
  reason_labels = "near_predicted_destination" ∷ [];
  time_context = "";
}

abbrev coffee_copy : Copy
coffee_copy = record {
  output = record {
    title = "台北101 精品咖啡折抵 50 元";
    body = "台北101／世貿：台北101／世貿站附近咖啡店折抵優惠。，使用 90 點即可。推薦理由：near_predicted_destination";
    tone = "friendly";
  };
  source = "template";
}

-- a generator that fails, and one that makes a price up
abbrev silent : Generator
silent facts = err copy_generation

abbrev liar : Generator
liar facts = ok (record { title = "台北101 精品咖啡折抵 50 元"; body = "只要 10 點"; tone = "friendly" })

coffee-CanPrint : CanPrint coffee
unfolding valid_copy_facts allowed_numbers truncate_runes decimal format_decimal is_digit scan_step
    numeric_tokens
coffee-CanPrint = record {
  valid = refl;
  name = omega arith;
  terms = omega arith;
  station = refl;
  labels = (all-IsPlain (codes "near_predicted_destination") refl, tt);
  time = tt;
}

coffee_generated : generate_copy (some silent) coffee ≡ ok coffee_copy
unfolding truncate_runes fact_token decimal format_decimal allowed_numbers valid_copy_facts
    valid_copy_output body_head body_tail template_output template_copy choose_copy after_template
    generate_copy is_digit scan_step numeric_tokens
coffee_generated = refl

coffee_made_up : generate_copy (some liar) coffee ≡ ok coffee_copy
unfolding truncate_runes fact_token decimal format_decimal allowed_numbers valid_copy_facts
    valid_copy_output body_head body_tail template_output template_copy choose_copy after_template
    generate_copy is_digit scan_step numeric_tokens
coffee_made_up = refl

-- the same station with an offer that does not name it
abbrev tea : CopyFacts
tea = record coffee { offer_name = "午後紅茶"; discount_description = "車站旁茶飲折抵優惠。" }

tea_refused : template_copy tea ≡ err invalid_copy_output
unfolding truncate_runes fact_token decimal format_decimal allowed_numbers valid_copy_facts
    valid_copy_output body_head body_tail template_output template_copy choose_copy after_template
    generate_copy is_digit scan_step numeric_tokens
tea_refused = refl

generate_copy-IsCopy_example :
    IsCopy coffee coffee_copy.output × IsFrom (some liar) coffee coffee_copy
generate_copy-IsCopy_example = generate_copy-IsCopy (some liar) coffee coffee_made_up

generate_copy-available_example :
    generate_copy (some silent) coffee
    ≡ ok (after_template coffee (some silent) (template_output coffee))
generate_copy-available_example = generate_copy-available (some silent) coffee coffee-CanPrint
