-- ===== src/CallInputs/Examples.antt =====
-- A boolean that arrives as a text, one with a default, and one that is missing.
use github_emulator.Prelude.{◌≡◌, refl, String, true, Option, none, some, [], ◌∷◌}
use github_emulator.Prelude.Text.{text_test}
use github_emulator.Value.{Value, Fields, end, field, dict, str, bool}
use github_emulator.Expressions.Values.{Python}
use github_emulator.CallInputs.Apply.{Called, apply_workflow_call_inputs}
use github_emulator.CallInputs.Settled.{Settled}

abbrev py : Python
py = record { shown = λ v. "1"; int_text = λ s. none; loads = λ s. none; dumps = λ v. "" }

abbrev to_float : String → Option Value
to_float s = none

abbrev declared : Fields
declared = field "dry" (dict (field "type" (str "boolean") end)) (
    field "mode" (dict (field "default" (str "all") end))
      (field "token" (dict (field "required" (bool true) end)) end))

abbrev called : Called
called = record {
  on = none;
  on_true = some (dict (field "workflow_call" (dict (field "inputs" (dict declared) end)) end));
}

abbrev supplied : Fields
supplied = field "dry" (str " True") end

applies : apply_workflow_call_inputs py to_float called supplied ≡ record {
  resolved = field "dry" (bool true) (field "mode" (str "all") end);
  missing = "token" ∷ [];
}
unfolding apply_workflow_call_inputs text_test
applies = refl

abbrev call : Fields
call = field "inputs" (dict declared) end
