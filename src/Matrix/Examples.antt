-- ===== src/Matrix/Examples.antt =====
-- Two systems and two versions, one pair left out and one put in.
use mathlib.Core.List.{Memᴰ}
use github_emulator.Prelude.{◌≡◌, ◌↔◌, ◌⊎◌, refl, none, some, List, [], ◌∷◌}
use github_emulator.Value.{pos, Fields, end, field, nil, item, Value, dict, list, str, int}
use github_emulator.Expressions.Values.{Python}
use github_emulator.Matrix.Expand.{combinations, expand_matrix}
use github_emulator.Matrix.Combinations.{Made, combinations-Made}
use github_emulator.Matrix.Chosen.{ItemsOf}
use github_emulator.Matrix.Bounds.{Sized, expand_matrix-Sized}

abbrev py : Python
py = record { shown = λ v. "1"; int_text = λ s. none; loads = λ s. none; dumps = λ v. "" }

abbrev pair : Value → Value → Fields
pair o v = field "os" o (field "v" v end)

abbrev matrix : Fields
matrix = field "os" (list (item (str "a") (item (str "b") nil))) (
    field "v" (list (item (int (pos 1)) (item (int (pos 2)) nil))) (
      field "exclude" (list (item (dict (pair (str "a") (int (pos 2)))) nil))
        (field "include" (list (item (dict (field "os" (str "c") end)) nil)) end)))

abbrev pairs : List Value
pairs =
    dict (pair (str "a") (int (pos 1)))
    ∷ dict (pair (str "b") (int (pos 1)))
    ∷ dict (pair (str "b") (int (pos 2)))
    ∷ dict (field "os" (str "c") end)
    ∷ []

expands : combinations matrix ≡ some pairs
unfolding combinations
expands = refl

combinations-Made_example :
    (ys : List Value) × ItemsOf matrix "include" ys
    × ((v : Value) → Memᴰ v pairs ↔ (Made matrix v ⊎ Memᴰ v ys))
combinations-Made_example = combinations-Made matrix pairs expands

abbrev config : Fields
config =
    field "name" (str "t")
      (field "strategy" (dict (field "matrix" (dict (field "v" (str "x") end)) end)) end)

abbrev one_job : Fields
one_job =
    field "name" (str "t")
      (field "_matrix" (dict (field "v" (str "x") end)) (field "_display_name" (str "t (x)") end))

expands_job : expand_matrix py config ≡ some (one_job ∷ [])
unfolding expand_matrix
expands_job = refl

expand_matrix-Sized_example : Sized (dict (field "v" (str "x") end)) (one_job ∷ [])
expand_matrix-Sized_example = expand_matrix-Sized py config (one_job ∷ []) expands_job

-- A matrix with nothing but `include` makes an empty combination as well.
only_included :
    combinations (field "include" (list (item (dict (field "os" (str "c") end)) nil)) end)
    ≡ some (dict end ∷ dict (field "os" (str "c") end) ∷ [])
unfolding combinations
only_included = refl
