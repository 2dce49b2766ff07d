-- ===== src/Expressions/Literals.antt =====
-- `_as_literal`, which writes a value back into an expression.
use github_emulator.Prelude.{ℕ, String, Bool, if◌then◌else◌}
use github_emulator.Prelude.Strings.{is, concat}
use github_emulator.Value.{Value, dict, list, str, int, bool, null}
use github_emulator.Expressions.Values.{Python, truthy}

-- s.replace(c, t)
abbrev pub replace_char : ℕ → String → String → String
replace_char n t String.[] = String.[]
replace_char n t (String.◌∷◌ c s) =
    let rest = replace_char n t s in if is n c then concat t rest else String.◌∷◌ c rest

abbrev pub escape : String → String
escape s = replace_char b'\'' "\\'" (replace_char b'\\' "\\\\" s)

abbrev pub bool_literal : Bool → String
bool_literal b = if b then "true" else "false"

unfoldable pub as_literal : Python → Value → String
as_literal py null = "''"
as_literal py (bool b) = bool_literal b
as_literal py (int n) = py.shown (int n)
as_literal py (dict d) = bool_literal (truthy (dict d))
as_literal py (list is) = bool_literal (truthy (list is))
as_literal py (str s) = concat "'" (concat (escape s) "'")
