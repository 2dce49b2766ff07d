-- ===== src/Expressions/Values.antt =====
-- What Python does with a value in an expression: truth, equality, indices and names of the context.
use github_emulator.Prelude.{
  ℕ, zero, suc, ◌-◌, String, Bool, true, false, ◌&&◌, Option, none, some, List, [], ◌∷◌, ◌==◌,
  nat_eq, string_eq, ltb, if◌then◌else◌,
}
use github_emulator.Prelude.Strings.{split, strip}
use github_emulator.Value.{
  ℤ, pos, negsuc, Fields, end, field, Items, nil, item, Value, dict, list, str, int, bool, null,
  get,
}

-- Functions of Python's built-ins and its json module on the values of expressions.
pub record Python : Type 0 where
  -- str(v), where v is no string
  pub shown : Value → String
  -- int(s)
  pub int_text : String → Option ℤ
  -- json.loads(s), none where it raises an error
  pub loads : String → Option Value
  -- json.dumps(v, separators=(",", ":"), sort_keys=True)
  pub dumps : Value → String

-- bool(v)
abbrev pub truthy : Value → Bool
truthy (dict end) = false
truthy (list nil) = false
truthy (str String.[]) = false
truthy (int (pos zero)) = false
truthy (bool b) = b
truthy null = false
truthy _ = true

-- v or w
abbrev pub either_value : Value → Value → Value
either_value v w = if truthy v then v else w

-- v and w
abbrev pub both_values : Value → Value → Value
both_values v w = if truthy v then w else v

-- str(v)
abbrev pub text_of : Python → Value → String
text_of py (str s) = s
text_of py v = py.shown v

abbrev same_int : ℤ → ℤ → Bool
same_int (pos m) (pos n) = m == n
same_int (negsuc m) (negsuc n) = m == n
same_int _ _ = false

-- True counts as 1.
abbrev one_if : Bool → ℤ
one_if true = pos 1
one_if false = pos 0

abbrev same_scalar : Value → Value → Bool
same_scalar (str s) (str t) = s == t
same_scalar null null = true
same_scalar (int m) (int n) = same_int m n
same_scalar (int m) (bool c) = same_int m (one_if c)
same_scalar (bool b) (int n) = same_int (one_if b) n
same_scalar (bool b) (bool c) = same_int (one_if b) (one_if c)
same_scalar _ _ = false

abbrev pub entries : Fields → ℕ
entries end = 0
entries (field _ _ d) = suc (entries d)

-- a == b. Dicts are equal in any order.
unfoldable mutual
  pub equal : Value → Value → Bool
  equal (dict a) (dict b) = entries a == entries b && equal_entries a b
  equal (list a) (list b) = equal_items a b
  equal a b = same_scalar a b

  pub equal_entries : Fields → Fields → Bool
  equal_entries end b = true
  equal_entries (field k v a) b =
      elim (get b k) [ none ↦ false | some w ↦ equal v w ] && equal_entries a b

  pub equal_items : Items → Items → Bool
  equal_items nil nil = true
  equal_items (item v a) (item w b) = equal v w && equal_items a b
  equal_items _ _ = false

abbrev or_null : Option Value → Value
or_null none = null
or_null (some v) = v

abbrev nth : Items → ℕ → Value
nth nil n = null
nth (item v is) zero = v
nth (item v is) (suc n) = nth is n

abbrev items_count : Items → ℕ
items_count nil = 0
items_count (item v is) = suc (items_count is)

-- items[i], None out of range; a negative index counts from the end
abbrev at_index : Items → ℤ → Value
at_index is (pos n) = nth is n
at_index is (negsuc n) = if ltb n (items_count is) then nth is (items_count is - suc n) else null

abbrev int_of : Python → Value → Option ℤ
int_of py (int n) = some n
int_of py (bool b) = some (one_if b)
int_of py (str s) = py.int_text s
int_of py _ = none

abbrev at_key : Items → Option ℤ → Value
at_key is none = null
at_key is (some n) = at_index is n

unfoldable pub index_value : Python → Value → Value → Value
index_value py (dict d) k = or_null (get d (text_of py k))
index_value py (list is) k = at_key is (int_of py k)
index_value py _ k = null

unfoldable pub index_parts : Python → Value → List String → Value
unfolding index_value
index_parts py v [] = v
index_parts py v (p ∷ ps) = index_parts py (index_value py v (str p)) ps

abbrev get_or_empty : Value → String → Value
get_or_empty (dict d) p = elim (get d p) [ none ↦ str "" | some v ↦ v ]
get_or_empty _ p = str ""

-- A part of a value that is no dict gives "", which has no parts either.
abbrev lookup_parts : Value → List String → Value
lookup_parts v [] = v
lookup_parts v (p ∷ ps) = lookup_parts (get_or_empty v p) ps

unfoldable pub lookup_context_value : Fields → String → Value
lookup_context_value context expression =
    lookup_parts (dict context) (split b'.' (strip expression))
