-- ===== src/Expressions/Parser.antt =====
-- `_IfExpressionParser`, which evaluates while it reads. Its methods are the cases of Task, which
-- call each other on what is left of the tokens; the end of the list is the token `eof`. A call
-- costs a unit of fuel.
use github_emulator.Prelude.{
  ℕ, zero, suc, ◌+◌, ◌*◌, String, Bool, true, false, not, Option, none, some, List, [], ◌∷◌, ◌++◌,
  ◌==◌, nat_eq, string_eq, if◌then◌else◌,
}
use github_emulator.Prelude.Lists.{length}
use github_emulator.Prelude.Strings.{split, number_of, drop_before}
use github_emulator.Value.{pos, Fields, Value, str, int, bool, null}
use github_emulator.Expressions.Values.{
  Python, truthy, either_value, both_values, equal, index_value, index_parts, lookup_context_value,
}
use github_emulator.Expressions.Tokens.{
  Symbol, bars, amps, equals, differs, bang, left_paren, right_paren, comma, left_bracket,
  right_bracket, dot, Token, op, quoted, integer, decimal, name,
}
use github_emulator.Expressions.Functions.{Outcome, value, call}

-- `beyond` is where the model stops: a decimal number is a float, and Value has no floats.
pub data Result : Type 0 where
  ok : Value → List Token → Result
  refused raised beyond no_fuel : Result

-- The loops of `_parse_or` and `_parse_and` hold a result, that over arguments holds the function's
-- name and the arguments so far.
pub data Task : Type 0 where
  parse_or parse_and parse_not parse_comparison parse_primary : Task
  or_loop and_loop parse_accessors : Value → Task
  parse_arguments : String → List Value → Task

abbrev pub Calls : Type 0
Calls = Task → List Token → Result

abbrev pub and_then : Result → (Value → List Token → Result) → Result
and_then (ok v ts) f = f v ts
and_then r f = r

abbrev tag : Symbol → ℕ
tag bars = 0
tag amps = 1
tag equals = 2
tag differs = 3
tag bang = 4
tag left_paren = 5
tag right_paren = 6
tag comma = 7
tag left_bracket = 8
tag right_bracket = 9
tag dot = 10

abbrev pub same_symbol : Symbol → Symbol → Bool
same_symbol s t = tag s == tag t

-- `_peek(value)` with `_take(value)`: what follows the symbol.
unfoldable pub expect : Symbol → List Token → Option (List Token)
expect s (op t ∷ ts) = if same_symbol s t then some ts else none
expect s _ = none

-- token[1:-1].replace("\\'", "'").replace('\\"', '"')
abbrev pub unquote : String → String
unquote s = drop_before b'\\' b'"' (drop_before b'\\' b'\'' s)

module _ (self : Calls) where
  abbrev pub more_or : Value → List Token → Option (List Token) → Result
  more_or v ts none = ok v ts
  more_or v ts (some r) = and_then (self parse_and r) (λ w q. self (or_loop (either_value v w)) q)

  abbrev pub more_and : Value → List Token → Option (List Token) → Result
  more_and v ts none = ok v ts
  more_and v ts (some r) = and_then (self parse_not r) (λ w q. self (and_loop (both_values v w)) q)

  abbrev pub negated : List Token → Option (List Token) → Result
  negated ts none = self parse_comparison ts
  negated ts (some r) = and_then (self parse_not r) (λ v q. ok (bool (not (truthy v))) q)

  unfoldable pub compared : Value → List Token → Option (List Token) → Option (List Token) → Result
  unfolding equal
  compared v ts (some r) _ = and_then (self parse_primary r) (λ w q. ok (bool (equal v w)) q)
  compared v ts none (some r) =
      and_then (self parse_primary r) (λ w q. ok (bool (not (equal v w))) q)
  compared v ts none none = ok v ts

  abbrev pub closed : Value → Option (List Token) → Result
  closed v none = refused
  closed v (some r) = self (parse_accessors v) r

  abbrev pub called : Outcome → List Token → Result
  called (value v) ts = self (parse_accessors v) ts
  called Outcome.refused ts = refused
  called Outcome.raised ts = raised

module _ (py : Python) (context : Fields) (self : Calls) where
  unfoldable pub argument_list : String → List Token → Option (List Token) → Result
  unfolding call
  argument_list f ts (some r) = called self (call py f []) r
  argument_list f ts none = self (parse_arguments f []) ts

  unfoldable pub next_argument :
      String → List Value → Option (List Token) → Option (List Token) → Result
  unfolding call
  next_argument f vs (some r) _ = self (parse_arguments f vs) r
  next_argument f vs none (some r) = called self (call py f vs) r
  next_argument f vs none none = refused

  -- A name that is no function.
  unfoldable pub constant_or_path : String → List Token → Result
  unfolding lookup_context_value
  constant_or_path s ts =
      if s == "true"
      then ok (bool true) ts
      else if s == "false"
      then ok (bool false) ts
      else if s == "null"
      then ok null ts
      else self (parse_accessors (lookup_context_value context s)) ts

  unfoldable pub named : String → List Token → Option (List Token) → Result
  unfolding argument_list constant_or_path expect
  named s ts none = constant_or_path s ts
  named s ts (some r) = argument_list s r (expect right_paren r)

  unfoldable pub operand : List Token → Result
  unfolding named expect
  operand [] = refused
  operand (op _ ∷ ts) = refused
  operand (quoted s ∷ ts) = ok (str (unquote s)) ts
  operand (integer s ∷ ts) = ok (int (pos (number_of s))) ts
  operand (decimal s ∷ ts) = beyond
  operand (name s ∷ ts) = named s ts (expect left_paren ts)

  unfoldable pub primary : List Token → Option (List Token) → Result
  unfolding operand expect
  primary ts none = operand ts
  primary ts (some r) = and_then (self parse_or r) (λ v q. closed self v (expect right_paren q))

  abbrev pub property : Value → List Token → Result
  property v (name s ∷ ts) = self (parse_accessors (index_parts py v (split b'.' s))) ts
  property v _ = refused

  unfoldable pub indexed : Value → Value → Option (List Token) → Result
  unfolding index_value
  indexed v i none = refused
  indexed v i (some r) = self (parse_accessors (index_value py v i)) r

  unfoldable pub accessed : Value → List Token → Option (List Token) → Option (List Token) → Result
  unfolding indexed expect
  accessed v ts (some r) _ = property v r
  accessed v ts none (some r) =
      and_then (self parse_or r) (λ i q. indexed v i (expect right_bracket q))
  accessed v ts none none = ok v ts

  -- One call of a method, with `self` for those that it makes.
  unfoldable pub step : Calls
  unfolding compared primary accessed next_argument expect
  step parse_or ts = and_then (self parse_and ts) (λ v r. self (or_loop v) r)
  step (or_loop v) ts = more_or self v ts (expect bars ts)
  step parse_and ts = and_then (self parse_not ts) (λ v r. self (and_loop v) r)
  step (and_loop v) ts = more_and self v ts (expect amps ts)
  step parse_not ts = negated self ts (expect bang ts)
  step parse_comparison ts =
      and_then (self parse_primary ts)
        (λ v r. compared self v r (expect equals r) (expect differs r))
  step parse_primary ts = primary ts (expect left_paren ts)
  step (parse_accessors v) ts = accessed v ts (expect dot ts) (expect left_bracket ts)
  step (parse_arguments f vs) ts =
      and_then (self parse_or ts)
        (λ v r. next_argument f (vs ++ (v ∷ [])) (expect comma r) (expect right_paren r))

abbrev pub at_end : Value → List Token → Result
at_end v [] = ok v []
at_end v (t ∷ ts) = refused

module _ (py : Python) (context : Fields) where
  unfoldable pub run : ℕ → Calls
  unfolding step
  run zero task ts = no_fuel
  run (suc fuel) task ts = step py context (run fuel) task ts

  -- The whole list of tokens is one expression.
  unfoldable pub evaluate : List Token → Result
  unfolding run
  evaluate ts = and_then (run (8 * length ts + 8) parse_or ts) at_end
