-- ===== src/Expressions/Examples.antt =====
-- Conditions, evaluated.
use github_emulator.Prelude.{◌≡◌, ◌≢◌, refl, String, true, false, none, some, [], ◌∷◌}
use github_emulator.Value.{pos, Fields, end, field, nil, item, dict, list, str, int, bool, null}
use github_emulator.Expressions.Values.{Python}
use github_emulator.Expressions.Tokens.{
  scan, tokenize, scanned, op, name, quoted, bars, equals, dot, left_paren, right_paren,
}
use github_emulator.Expressions.Parser.{ok, no_fuel}
use github_emulator.Expressions.Conditions.{combine_conditions}
use github_emulator.Expressions.Literals.{as_literal}
use github_emulator.Expressions.LiteralsRead.{as_literal-read}
use github_emulator.Expressions.Conjoined.{both_truths, combine_conditions-and}
use github_emulator.Expressions.Ends.{read_text-ends}
use github_emulator.Expressions.Evaluate.{read_text, evaluate_job_if}

abbrev py : Python
py = record {
  shown = λ v. "";
  int_text = λ s. none;
  loads = λ s. some (list (item (str "a") (item (str "b") nil)));
  dumps = λ v. "";
}

abbrev context : Fields
context =
    field "github"
      (dict
        (field "event_name" (str "push") (field "event" (dict (field "n" (int (pos 3)) end)) end)))
      end

tokens_of :
    tokenize "a.b == 'x\\'y'||f(.c)"
    ≡ scanned (
        name "a.b"
        ∷ op equals
        ∷ quoted "x\\'y"
        ∷ op bars
        ∷ name "f"
        ∷ op left_paren
        ∷ op dot
        ∷ name "c"
        ∷ op right_paren
        ∷ [])
unfolding scan
tokens_of = refl

compares :
    evaluate_job_if py (str "${{ github.event_name == 'push' && !false }}") context ≡ some true
unfolding evaluate_job_if
compares = refl

calls :
    evaluate_job_if py
      (str
        "contains(fromJSON('[]'), format('{0}', 'b')) && github.event.n == 3 && startsWith('abc', 'ab')")
      context
    ≡ some true
unfolding evaluate_job_if
calls = refl

type_error : evaluate_job_if py (str "contains('a', 1)") context ≡ none
unfolding evaluate_job_if
type_error = refl

-- A caller's `if: true` comes to the text True, which is a name of the context.
true_caller :
    evaluate_job_if py
      (str (combine_conditions (record py { shown = λ v. "True" }) (bool true) null))
      context
    ≡ some false
unfolding evaluate_job_if combine_conditions
true_caller = refl

-- A backslash before the last quote of the caller's condition: its string ends elsewhere.
backslash_before_quote :
    evaluate_job_if py (str (combine_conditions py (str "'a\\'") (str "'x' == 'x'"))) context
    ≡ some false
unfolding evaluate_job_if combine_conditions
backslash_before_quote = refl

backslash_alone : evaluate_job_if py (str "'a\\'") context ≡ some true
unfolding evaluate_job_if
backslash_alone = refl

-- A backslash of a value is doubled in its literal, and read as two.
literal_backslash : read_text py context (as_literal py (str "\\")) ≡ ok (str "\\\\") []
unfolding read_text as_literal
literal_backslash = refl

abbrev caller : String
caller = "${{ github.event_name == 'push' }}"

abbrev child : String
child = "github.event.n == 4 || contains('abc', 'd')"

combine_conditions-and_example :
    evaluate_job_if py (str (combine_conditions py (str caller) (str child))) context
    ≡ both_truths (evaluate_job_if py (str caller) context) (evaluate_job_if py (str child) context)
unfolding combine_conditions read_text
combine_conditions-and_example =
    combine_conditions-and py context caller child (bool true) (bool false) refl refl refl refl

read_text-ends_example : read_text py context "!(((" ≢ no_fuel
read_text-ends_example = read_text-ends py context "!((("

as_literal-read_example : read_text py context (as_literal py (str "it's")) ≡ ok (str "it's") []
as_literal-read_example = as_literal-read py context (str "it's") refl

unknown_function : evaluate_job_if py (str "true || success()") context ≡ some false
unfolding evaluate_job_if
unknown_function = refl
