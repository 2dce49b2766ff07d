-- ===== src/Triggers/Config.antt =====
-- Python's reading of a trigger configuration, which is any value that YAML gives: iteration,
-- `in`, truth, and `fnmatch`, a parameter. None stands for an exception.
use github_emulator.Prelude.{
  zero, String, Bool, true, false, not, Option, none, some, List, [], ◌∷◌, ◌==◌, nat_eq, string_eq,
  if◌then◌else◌,
}
use github_emulator.Prelude.Lists.{any}
use github_emulator.Prelude.Strings.{is_substring}
use github_emulator.Value.{
  pos, Fields, end, field, Items, nil, item, Value, dict, list, str, int, bool, null,
}

abbrev pub elements : Items → List Value
elements nil = []
elements (item v rest) = v ∷ elements rest

abbrev pub keys : Fields → List Value
keys end = []
keys (field k v rest) = str k ∷ keys rest

abbrev pub characters : String → List Value
characters String.[] = []
characters (String.◌∷◌ c s) = str (String.◌∷◌ c String.[]) ∷ characters s

-- iter(v)
abbrev pub iterate : Value → Option (List Value)
iterate (list is) = some (elements is)
iterate (dict d) = some (keys d)
iterate (str s) = some (characters s)
iterate _ = none

abbrev is_text : String → Value → Bool
is_text s (str t) = s == t
is_text s _ = false

-- s in v
abbrev pub occurs : String → Value → Option Bool
occurs s (list is) = some (any (is_text s) (elements is))
occurs s (dict d) = some (any (is_text s) (keys d))
occurs s (str t) = some (is_substring s t)
occurs s _ = none

-- not v
abbrev pub is_falsy : Value → Bool
is_falsy null = true
is_falsy (bool b) = not b
is_falsy (int (pos zero)) = true
is_falsy (str String.[]) = true
is_falsy (list nil) = true
is_falsy (dict end) = true
is_falsy _ = false

module _ (fnmatch : String → String → Bool) where
  -- any(fnmatch(s, p) for p in …)
  abbrev pub find_match : String → List Value → Option Bool
  find_match s [] = some false
  find_match s (str p ∷ rest) =
      let found = find_match s rest in if fnmatch s p then some true else found
  find_match s (_ ∷ rest) = none

  abbrev pub each : String → Option (List Value) → Option Bool
  each s none = none
  each s (some ps) = find_match s ps

  abbrev pub matches : String → Value → Option Bool
  matches s v = each s (iterate v)

abbrev pub either : Option Bool → Option Bool → Option Bool
either none rest = none
either (some true) rest = some true
either (some false) rest = rest

abbrev pub both : Option Bool → Option Bool → Option Bool
both none rest = none
both (some true) rest = rest
both (some false) rest = some false

abbrev pub negate : Option Bool → Option Bool
negate none = none
negate (some b) = some (not b)
