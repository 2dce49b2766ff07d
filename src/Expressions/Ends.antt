-- ===== src/Expressions/Ends.antt =====
-- No text takes the reader of expressions more fuel than it has.
use github_emulator.Prelude.{ℕ, ◌+◌, ◌*◌, ◌≢◌, String, [], ◌∷◌, arith}
use github_emulator.Prelude.Lists.{length}
use github_emulator.Prelude.Strings.{size}
use github_emulator.Value.{Fields}
use github_emulator.Expressions.Values.{Python}
use github_emulator.Expressions.Tokens.{Scan, scanned, unsupported, no_fuel, tokenize}
use github_emulator.Expressions.Scanned.{Finished, scan-Finished}
use github_emulator.Expressions.Parser.{
  Result, ok, refused, raised, beyond, parse_or, and_then, run, at_end,
}
use github_emulator.Expressions.Total.{Ends}
use github_emulator.Expressions.Ended.{run-Ends}
use github_emulator.Expressions.Evaluate.{read, read_text}

at_end-Ends : (n k : ℕ) (x : Result) → Ends n k x → and_then x at_end ≢ Result.no_fuel
at_end-Ends n k (ok v []) h = cc
at_end-Ends n k (ok v (t ∷ ts)) h = cc
at_end-Ends n k refused h = cc
at_end-Ends n k raised h = cc
at_end-Ends n k beyond h = cc
at_end-Ends n k Result.no_fuel h = absurd h

read-ends :
    (py : Python) (context : Fields) (r : Scan) → Finished r → read py context r ≢ Result.no_fuel
unfolding read
read-ends py context (scanned ts) h =
    at_end-Ends (length ts) 1 (run py context (8 * length ts + 8) parse_or ts)
      (run-Ends py context (8 * length ts + 8) parse_or ts (omega arith))
read-ends py context unsupported h = cc
read-ends py context no_fuel h = absurd h

-- The reading of any text ends: with a value, with an error of the expression, with another
-- exception, or at a decimal number, where the model stops.
pub read_text-ends :
    (py : Python) (context : Fields) (expression : String)
    → read_text py context expression ≢ Result.no_fuel
unfolding read_text
read_text-ends py context expression =
    read-ends py context (tokenize expression)
      (scan-Finished (size expression) expression (omega arith))
