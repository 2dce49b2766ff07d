-- ===== src/Matrix/Expand.antt =====
-- `expand_matrix` on the configuration of a job. None stands for an exception.
use github_emulator.Prelude.{
  String, Bool, true, false, ◌&&◌, Option, none, some, List, [], ◌∷◌, ◌++◌, map, ◌==◌, string_eq,
  if◌then◌else◌,
}
use github_emulator.Prelude.Strings.{concat}
use github_emulator.Value.{Fields, end, field, nil, Value, dict, list, str, null, get, put}
use github_emulator.Triggers.Config.{elements, iterate}
use github_emulator.Expressions.Values.{Python, truthy, text_of, equal}

-- v or {}
abbrev pub or_dict : Option Value → Value
or_dict none = dict end
or_dict (some v) = if truthy v then v else dict end

abbrev get_or : Fields → String → Value → Value
get_or d k v = elim (get d k) [ none ↦ v | some w ↦ w ]

-- What is left of a dict without a key.
abbrev pub without : String → Fields → Fields
without k end = end
without k (field j v d) = let rest = without k d in if j == k then rest else field j v rest

-- A key of the matrix with its values.
pub record Axis : Type 0 where
  pub key : String
  pub values : List Value

abbrev pub one_or_list : Value → List Value
one_or_list (list is) = elements is
one_or_list v = v ∷ []

abbrev pub axes_of : Fields → List Axis
axes_of end = []
axes_of (field k v d) = record { key = k; values = one_or_list v } ∷ axes_of d

abbrev pub with_value : String → List Fields → Value → List Fields
with_value k es v = map (field k v) es

abbrev pub with_values : String → List Value → List Fields → List Fields
with_values k [] es = []
with_values k (v ∷ vs) es = with_value k es v ++ with_values k vs es

-- [dict(zip(keys, combo)) for combo in itertools.product(*values)]
abbrev pub product : List Axis → List Fields
product [] = end ∷ []
product (a ∷ axes) = with_values a.key a.values (product axes)

abbrev pub or_null : Option Value → Value
or_null none = null
or_null (some v) = v

-- all(entry.get(k) == v for k, v in exc.items())
unfoldable pub matches : Fields → Fields → Bool
unfolding equal
matches end entry = true
matches (field k v exc) entry = equal (or_null (get entry k)) v && matches exc entry

abbrev pub or_else : Bool → Option Bool → Option Bool
or_else true rest = some true
or_else false rest = rest

-- An entry of `exclude` is a dict.
unfoldable pub excluded : List Value → Fields → Option Bool
unfolding matches
excluded [] entry = some false
excluded (dict exc ∷ rest) entry = or_else (matches exc entry) (excluded rest entry)
excluded (_ ∷ rest) entry = none

unfoldable pub excluded_by : Option (List Value) → Fields → Option Bool
unfolding excluded
excluded_by none entry = none
excluded_by (some exclude) entry = excluded exclude entry

abbrev pub keep : Fields → Option Bool → Option (List Value) → Option (List Value)
keep entry (some false) (some rest) = some (dict entry ∷ rest)
keep entry (some true) (some rest) = some rest
keep entry _ _ = none

unfoldable pub kept : Option (List Value) → List Fields → Option (List Value)
unfolding excluded_by
kept exclude [] = some []
kept exclude (e ∷ es) = keep e (excluded_by exclude e) (kept exclude es)

abbrev pub append_included : Option (List Value) → Option (List Value) → Option (List Value)
append_included (some combos) (some included) = some (combos ++ included)
append_included _ _ = none

-- The axes of a matrix, without its special keys.
abbrev pub axes : Fields → List Axis
axes matrix = axes_of (without "exclude" (without "include" matrix))

abbrev pub exclude_of : Fields → Option (List Value)
exclude_of matrix = iterate (get_or matrix "exclude" (list nil))

abbrev pub include_of : Fields → Option (List Value)
include_of matrix = iterate (get_or matrix "include" (list nil))

unfoldable pub combinations : Fields → Option (List Value)
unfolding kept
combinations matrix =
    append_included (kept (exclude_of matrix) (product (axes matrix))) (include_of matrix)

-- ", ".join(f"{v}" for v in combo.values())
abbrev joined : Python → Fields → String
joined py end = ""
joined py (field k v end) = text_of py v
joined py (field k v (field j w d)) = concat (text_of py v) (concat ", " (joined py (field j w d)))

abbrev display_name : Python → Fields → Fields → String
display_name py config combo =
    concat (text_of py (get_or config "name" (get_or config "_key" (str ""))))
      (concat " (" (concat (joined py combo) ")"))

abbrev pub job_of : Python → Fields → Fields → Fields
job_of py config combo =
    put (put (without "strategy" config) "_matrix" (dict combo)) "_display_name"
      (str (display_name py config combo))

abbrev pub add_job : Fields → Option (List Fields) → Option (List Fields)
add_job j none = none
add_job j (some js) = some (j ∷ js)

-- A combination that is no dict has no values.
abbrev pub jobs_of_combos : Python → Fields → List Value → Option (List Fields)
jobs_of_combos py config [] = some []
jobs_of_combos py config (dict c ∷ cs) = add_job (job_of py config c) (jobs_of_combos py config cs)
jobs_of_combos py config (_ ∷ cs) = none

abbrev pub expanded : Python → Fields → Option (List Value) → Option (List Fields)
expanded py config none = none
expanded py config (some []) = some (config ∷ [])
expanded py config (some (c ∷ cs)) = jobs_of_combos py config (c ∷ cs)

unfoldable pub expand_dict : Python → Fields → Value → Option (List Fields)
unfolding combinations
expand_dict py config (dict end) = some (config ∷ [])
expand_dict py config (dict (field k v d)) = expanded py config (combinations (field k v d))
expand_dict py config _ = some (config ∷ [])

-- strategy.get("matrix", {}) or {}, where the strategy is a dict
abbrev pub matrix_of : Value → Value
matrix_of (dict strategy) = or_dict (get strategy "matrix")
matrix_of _ = null

unfoldable pub expand_matrix : Python → Fields → Option (List Fields)
unfolding expand_dict
expand_matrix py config = expand_dict py config (matrix_of (or_dict (get config "strategy")))
