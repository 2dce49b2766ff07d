-- ===== src/OrgVariables/Examples.antt =====
-- A private repository with a variable of its own and two of its organization's.
use github_emulator.Prelude.{◌≡◌, refl, true, none, some, List, [], ◌∷◌, nat_eq, ◌==◌}
use github_emulator.Prelude.Lists.{filter}
use github_emulator.Prelude.Text.{text_test}
use github_emulator.Value.{str, get}
use github_emulator.OrgVariables.Context.{
  Scope, OrgVariable, Variable, visible_to, find_scope, vars_context,
}
use github_emulator.Value.Lookup.{or_else}
use github_emulator.OrgVariables.Precedence.{last_value, vars_context-get}

abbrev repositories : List Scope
repositories = (record { id = 1; organization_id = some 4; private = true; visibility = none }) ∷ []

abbrev shared : List OrgVariable
shared =
    (record { id = 1; org_id = 4; name = "HOST"; value = "a"; visibility = "private" })
    ∷ (record { id = 2; org_id = 4; name = "PORT"; value = "80"; visibility = "selected" })
    ∷ []

abbrev own : List Variable
own = (record { repo_id = 1; name = "HOST"; value = "b" }) ∷ []

own_first : get (vars_context repositories shared [] own 1) "HOST" ≡ some (str "b")
unfolding vars_context text_test
own_first = refl

not_selected : get (vars_context repositories shared [] own 1) "PORT" ≡ none
unfolding vars_context text_test
not_selected = refl

vars_context-get_example :
    get (vars_context repositories shared [] own 1) "HOST"
    ≡ or_else
        (last_value
          (λ (v : Variable). v.name)
          (λ v. v.value)
          (filter (λ v. v.repo_id == 1) own)
          "HOST")
        (last_value
          (λ (v : OrgVariable). v.name)
          (λ v. v.value)
          (visible_to shared [] (find_scope repositories 1))
          "HOST")
vars_context-get_example = vars_context-get repositories shared [] own 1 "HOST"
