-- ===== src/CallInputs/Apply.antt =====
-- `apply_workflow_call_inputs` with `_declared_call_inputs` and `_coerce_input`.
use github_emulator.Prelude.{
  String, Bool, true, false, not, ◌&&◌, Option, none, some, List, [], ◌∷◌, ◌++◌, ◌==◌, string_eq,
  if◌then◌else◌,
}
use github_emulator.Prelude.Strings.{is, strip, all_digits}
use github_emulator.Prelude.Text.{codes, lower, text_eq}
use github_emulator.Value.{ℤ, Value, Fields, end, field, get, put, dict, str, int, bool, null}
use github_emulator.Expressions.Values.{Python, truthy, text_of}

-- The value under "on" of the called workflow, and the one under True, which is how YAML 1.1 reads
-- a bare `on`.
pub record Called : Type 0 where
  pub on : Option Value
  pub on_true : Option Value

abbrev pub or_next : Option Value → Value → Value
or_next none w = w
or_next (some v) w = if truthy v then v else w

abbrev pub dict_under : Value → String → Value
dict_under (dict d) k = elim (get d k) [ none ↦ null | some v ↦ v ]
dict_under _ k = null

abbrev pub fields_of : Value → Fields
fields_of (dict d) = d
fields_of _ = end

unfoldable pub declared_call_inputs : Called → Fields
declared_call_inputs called = fields_of (
    dict_under (dict_under (or_next called.on (or_next called.on_true (dict end))) "workflow_call")
      "inputs")

abbrev pub is_true_text : Python → Value → Bool
is_true_text py (bool b) = b
is_true_text py v = lower (codes (strip (text_of py v))) == codes "true"

-- text.lstrip("-")
abbrev pub without_dashes : String → String
without_dashes String.[] = String.[]
without_dashes (String.◌∷◌ c s) =
    let rest = without_dashes s in if is b'-' c then rest else String.◌∷◌ c s

abbrev pub is_number : String → Bool
is_number s = all_digits s && not (s == "")

abbrev pub or_value : Value → Option Value → Value
or_value v none = v
or_value v (some w) = w

abbrev pub int_value : Option ℤ → Option Value
int_value none = none
int_value (some n) = some (int n)

abbrev pub string_value : Python → Value → Value
string_value py null = str ""
string_value py v = str (text_of py v)

module _ (py : Python) (to_float : String → Option Value) where
  -- `to_float` is float(text), none where it raises an error.
  abbrev pub number_value : Value → String → Value
  number_value v text =
      or_value v
        (if is_number (without_dashes text) then int_value (py.int_text text) else to_float text)

  abbrev pub coerce_input : Value → String → Value
  coerce_input v declared_type =
      if declared_type == "boolean"
      then bool (is_true_text py v)
      else if declared_type == "number"
      then number_value v (strip (text_of py v))
      else if declared_type == "string"
      then string_value py v
      else v

  abbrev pub type_of : Fields → String
  type_of spec = elim (get spec "type") [ none ↦ "string" | some t ↦ text_of py t ]

  -- v in (None, "")
  abbrev pub is_blank : Value → Bool
  is_blank null = true
  is_blank (str String.[]) = true
  is_blank _ = false

  abbrev pub default_of : Fields → Option Value
  default_of spec = elim (get spec "default") [
    | none ↦ none
    | some v ↦ some (coerce_input v (type_of spec))
  ]

  -- What is assigned to an input, from what is there already.
  abbrev pub chosen : Fields → Option Value → Option Value
  chosen spec none = default_of spec
  chosen spec (some v) =
      if is_blank v then default_of spec else some (coerce_input v (type_of spec))

abbrev pub put_some : Fields → String → Option Value → Fields
put_some d k none = d
put_some d k (some v) = put d k v

abbrev pub is_required : Option Value → Bool
is_required (some (bool b)) = b
is_required _ = false

abbrev pub is_missing : Fields → Option Value → Bool
is_missing spec (some v) = false
is_missing spec none = is_required (get spec "required")

pub record Inputs : Type 0 where
  pub resolved : Fields
  pub missing : List String

module _ (py : Python) (to_float : String → Option Value) where
  abbrev pub assign : String → Fields → Option Value → Inputs → Inputs
  assign name spec o s = record {
    resolved = put_some s.resolved name o;
    missing = if is_missing spec o then s.missing ++ (name ∷ []) else s.missing;
  }

  -- A declaration that is no dict is passed over.
  abbrev pub apply_input : String → Value → Inputs → Inputs
  apply_input name (dict spec) s =
      assign name spec (chosen py to_float spec (get s.resolved name)) s
  apply_input name _ s = s

  abbrev pub apply_inputs : Fields → Inputs → Inputs
  apply_inputs end s = s
  apply_inputs (field name spec d) s = apply_inputs d (apply_input name spec s)

  unfoldable pub apply_workflow_call_inputs : Called → Fields → Inputs
  unfolding declared_call_inputs
  apply_workflow_call_inputs called supplied =
      apply_inputs (declared_call_inputs called) (record { resolved = supplied; missing = [] })
