-- ===== src/Expressions/Functions.antt =====
-- `_call` with `_format_expression` and `_parse_json`.
use Prim.Native.Char.{Char, code}
use github_emulator.Prelude.{
  ℕ, zero, suc, String, Bool, true, false, not, ◌&&◌, ◌||◌, Option, none, some, List, [], ◌∷◌, ◌==◌,
  nat_eq, string_eq, if◌then◌else◌,
}
use github_emulator.Prelude.Strings.{
  is, concat, all_digits, number_of, strip, startswith, endswith, is_substring,
}
use github_emulator.Value.{Items, nil, item, Value, dict, list, str, bool, null, get}
use github_emulator.Expressions.Values.{Python, truthy, text_of, equal}

-- `refused` is an _ExpressionError, `raised` any other exception.
pub data Outcome : Type 0 where
  value : Value → Outcome
  refused raised : Outcome

-- v or ""
abbrev or_empty : Value → Value
or_empty v = if truthy v then v else str ""

-- "" if v is None else str(v)
abbrev text_or_empty : Python → Value → String
text_or_empty py null = ""
text_or_empty py v = text_of py v

abbrev prefixed : String → Outcome → Outcome
prefixed s (value (str t)) = value (str (concat s t))
prefixed s o = o

abbrev char_text : Char → String
char_text c = String.◌∷◌ c String.[]

abbrev argument : List Value → ℕ → Option Value
argument [] n = none
argument (v ∷ vs) zero = some v
argument (v ∷ vs) (suc n) = argument vs n

abbrev placeholder : Python → Option Value → Outcome → Outcome
placeholder py none rest = refused
placeholder py (some v) rest = prefixed (text_or_empty py v) rest

-- The digits of a placeholder, at its end.
abbrev filled : Python → List Value → String → Outcome → Outcome
filled py values digits rest =
    if all_digits digits && not (digits == "")
    then placeholder py (argument values (number_of digits)) rest
    else refused

-- A loop over the text, in a placeholder whose digits so far are given, or outside.
unfoldable pub format_from : Python → List Value → Option String → String → Outcome
format_from py values none String.[] = value (str "")
format_from py values (some digits) String.[] = refused
format_from py values (some digits) (String.◌∷◌ c s) = elim (is b'}' c) [
  | true ↦ filled py values digits (format_from py values none s)
  | false ↦ format_from py values (some (concat digits (char_text c))) s
]
format_from py values none (String.◌∷◌ c String.[]) =
    if is b'{' c then refused else value (str (char_text c))
format_from py values none (String.◌∷◌ c (String.◌∷◌ d s)) =
    elim ((is b'{' c || is b'}' c) && code c == code d) [
      | true ↦ prefixed (char_text c) (format_from py values none s)
      | false ↦ elim (is b'{' c) [
        | true ↦ format_from py values (some "") (String.◌∷◌ d s)
        | false ↦ prefixed (char_text c) (format_from py values none (String.◌∷◌ d s))
      ]
    ]

unfoldable pub format_expression : Python → Value → List Value → Outcome
unfolding format_from
format_expression py template values = format_from py values none (text_or_empty py template)

abbrev loaded : Option Value → Value
loaded none = null
loaded (some v) = v

abbrev parse_json_text : Python → String → Value
parse_json_text py text = if strip text == "" then null else loaded (py.loads text)

abbrev parse_json : Python → Value → Value
parse_json py (dict d) = dict d
parse_json py (list is) = list is
parse_json py v = parse_json_text py (text_or_empty py v)

unfoldable pub any_equal : Value → Items → Bool
unfolding equal
any_equal v nil = false
any_equal v (item w is) = equal w v || any_equal v is

abbrev has_key : Option Value → Bool
has_key none = false
has_key (some v) = true

-- needle in haystack
unfoldable pub contained : Value → Value → Outcome
unfolding any_equal
contained (list is) v = value (bool (any_equal v is))
contained (dict d) (str k) = value (bool (has_key (get d k)))
contained (dict d) (list is) = raised
contained (dict d) (dict e) = raised
contained (dict d) v = value (bool false)
contained (str s) (str part) = value (bool (is_substring part s))
contained (str s) v = raised
contained _ v = value (bool false)

abbrev call_none : String → Outcome
call_none name = if name == "always" then value (bool true) else refused

unfoldable pub call_one : Python → String → Value → Outcome
unfolding format_expression
call_one py name v =
    if name == "format"
    then format_expression py v []
    else if name == "fromJSON"
    then value (parse_json py v)
    else if name == "toJSON"
    then value (str (py.dumps v))
    else refused

unfoldable pub call_two : Python → String → Value → Value → Outcome
unfolding format_expression contained
call_two py name v w =
    if name == "startsWith"
    then value (bool (startswith (text_of py (or_empty w)) (text_of py (or_empty v))))
    else if name == "endsWith"
    then value (bool (endswith (text_of py (or_empty w)) (text_of py (or_empty v))))
    else if name == "contains"
    then contained v w
    else if name == "format"
    then format_expression py v (w ∷ [])
    else refused

unfoldable pub call : Python → String → List Value → Outcome
unfolding call_one call_two
call py name [] = call_none name
call py name (v ∷ []) = call_one py name v
call py name (v ∷ w ∷ []) = call_two py name v w
call py name (v ∷ vs) = if name == "format" then format_expression py v vs else refused
