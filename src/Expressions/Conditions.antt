-- ===== src/Expressions/Conditions.antt =====
-- `_condition_body` and `_combine_conditions` of src/app/services/workflow_service.py.
use github_emulator.Prelude.{String, ◌==◌, string_eq, if◌then◌else◌}
use github_emulator.Prelude.Strings.{concat, strip}
use github_emulator.Value.{Value, null}
use github_emulator.Expressions.Values.{Python, text_of}
use github_emulator.Expressions.Evaluate.{unwrap}

unfoldable pub condition_body : Python → Value → String
unfolding unwrap
condition_body py condition = unwrap (strip (text_of py condition))

-- f"({caller_text}) && ({child_text})"
abbrev pub conjunction : String → String → String
conjunction caller child = concat "(" (concat caller (concat ") && (" (concat child ")")))

abbrev pub combined_texts : String → String → String
combined_texts caller child =
    if child == "" then caller else if caller == "" then child else conjunction caller child

unfoldable pub combine_conditions : Python → Value → Value → String
unfolding condition_body
combine_conditions py caller null = condition_body py caller
combine_conditions py caller child =
    combined_texts (condition_body py caller) (condition_body py child)
