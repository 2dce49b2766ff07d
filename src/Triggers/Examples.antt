-- ===== src/Triggers/Examples.antt =====
-- A workflow on pushes to main that change more than documents.
use github_emulator.Prelude.{
  String, ◌≡◌, ◌↔◌, refl, Bool, true, none, some, [], ◌∷◌, ◌==◌, string_eq,
}
use github_emulator.Value.{Fields, end, field, dict, list}
use github_emulator.Triggers.Match.{Payload, WorkflowYaml, match_push, evaluate_trigger}
use github_emulator.Triggers.Asked.{Filters, texts}
use github_emulator.Triggers.Filters.{Admits, match_push-Admits}

abbrev exact : String → String → Bool
exact s p = s == p

abbrev filters : Fields
filters =
    field "branches" (list (texts ("main" ∷ [])))
      (field "paths-ignore" (list (texts ("README.md" ∷ []))) end)

abbrev workflow : WorkflowYaml
workflow = record { on = none; on_true = some (dict (field "push" (dict filters) end)) }

abbrev payload : Payload
payload = record {
  ref = some "refs/heads/main";
  action = none;
  base_ref = none;
  commits = (record { added = "a.py" ∷ []; modified = "README.md" ∷ []; removed = [] }) ∷ [];
}

starts : evaluate_trigger exact workflow "push" payload ≡ some true
unfolding evaluate_trigger
starts = refl

abbrev lists : Filters
lists = record {
  branches = some ("main" ∷ []);
  branches_ignore = none;
  tags = none;
  tags_ignore = none;
  paths = none;
  paths_ignore = some ("README.md" ∷ []);
}

match_push-Admits_example :
    (match_push exact (dict filters) payload ≡ some true)
    ↔ Admits exact lists "refs/heads/main" payload.commits
match_push-Admits_example =
    match_push-Admits exact filters lists payload (refl, refl, refl, refl, refl, refl)
