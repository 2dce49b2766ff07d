-- ===== src/Expressions/Evaluate.antt =====
-- `evaluate_job_if` on a condition of a job. None stands for an exception, or for
-- the decimal number at which the model stops.
use Prim.Native.Char.{Char}
use github_emulator.Prelude.{String, Bool, true, false, ◌&&◌, Option, none, some, if◌then◌else◌}
use github_emulator.Prelude.Strings.{is, strip, without_prefix}
use github_emulator.Value.{Fields, Value, str, bool, null}
use github_emulator.Expressions.Values.{Python, truthy}
use github_emulator.Expressions.Tokens.{Scan, scanned, unsupported, scan, tokenize}
use github_emulator.Expressions.Parser.{Result, ok, refused, raised, beyond, no_fuel, evaluate}

abbrev prepend : Char → Option String → Option String
prepend c none = none
prepend c (some s) = some (String.◌∷◌ c s)

-- s[:-2] if s.endswith("}}")
unfoldable pub without_braces : String → Option String
without_braces String.[] = none
without_braces (String.◌∷◌ c String.[]) = none
without_braces (String.◌∷◌ c (String.◌∷◌ d String.[])) =
    if is b'}' c && is b'}' d then some String.[] else none
without_braces (String.◌∷◌ c (String.◌∷◌ d (String.◌∷◌ e s))) =
    prepend c (without_braces (String.◌∷◌ d (String.◌∷◌ e s)))

abbrev stripped_or : String → Option String → String
stripped_or text none = text
stripped_or text (some inner) = strip inner

unfoldable pub inside : String → Option String → String
unfolding without_braces
inside text none = text
inside text (some rest) = stripped_or text (without_braces rest)

-- Without the wrapper `${{ }}`.
unfoldable pub unwrap : String → String
unfolding inside
unwrap text = inside text (without_prefix "${{" text)

abbrev pub truth : Result → Option Bool
truth (ok v _) = some (truthy v)
truth refused = some false
truth raised = none
truth beyond = none
truth no_fuel = none

unfoldable pub read : Python → Fields → Scan → Result
unfolding evaluate
read py context (scanned ts) = evaluate py context ts
read py context unsupported = refused
read py context Scan.no_fuel = no_fuel

-- `_IfExpressionParser(expression, context).evaluate()`
unfoldable pub read_text : Python → Fields → String → Result
unfolding scan read
read_text py context expression = read py context (tokenize expression)

unfoldable pub evaluate_job_if : Python → Value → Fields → Option Bool
unfolding unwrap read_text
evaluate_job_if py null context = some true
evaluate_job_if py (bool b) context = some b
evaluate_job_if py (str condition) context = truth (read_text py context (unwrap (strip condition)))
evaluate_job_if py v context = some (truthy v)
