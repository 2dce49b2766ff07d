-- ===== src/Prelude/Strings.antt =====
-- Python `str` methods on strings that are walked. Characters are tested by their code points.
use Prim.Native.Char.{Char, code}
use github_emulator.Prelude.{
  ℕ, suc, ◌+◌, ◌*◌, ◌-◌, String, Bool, true, false, ◌&&◌, ◌||◌, Option, none, some, List, [], ◌∷◌,
  ◌==◌, nat_eq, string_eq, leb, if◌then◌else◌,
}

-- s[len(prefix):] if s.startswith(prefix)
abbrev pub without_prefix : String → String → Option String
without_prefix String.[] s = some s
without_prefix (String.◌∷◌ c p) String.[] = none
without_prefix (String.◌∷◌ c p) (String.◌∷◌ d s) =
    let rest = without_prefix p s in if code c == code d then rest else none

-- s.removeprefix(prefix)
abbrev pub removeprefix : String → String → String
removeprefix prefix s = elim (without_prefix prefix s) [ none ↦ s | some rest ↦ rest ]

abbrev pub startswith : String → String → Bool
startswith prefix s = elim (without_prefix prefix s) [ none ↦ false | some rest ↦ true ]

-- part in s
abbrev pub is_substring : String → String → Bool
is_substring part String.[] = startswith part String.[]
is_substring part (String.◌∷◌ c s) = startswith part (String.◌∷◌ c s) || is_substring part s

abbrev pub is : ℕ → Char → Bool
is n c = code c == n

-- s + t
abbrev pub concat : String → String → String
concat String.[] t = t
concat (String.◌∷◌ c s) t = String.◌∷◌ c (concat s t)

-- The number of characters.
abbrev pub size : String → ℕ
size String.[] = 0
size (String.◌∷◌ c s) = suc (size s)

-- The longest start whose characters pass the test, and what follows.
pub record Spanned : Type 0 where
  pub start : String
  pub rest : String

abbrev pub span : (Char → Bool) → String → Spanned
span p String.[] = record { start = String.[]; rest = String.[] }
span p (String.◌∷◌ c s) =
    let next = span p s in
    if p c
    then record { start = String.◌∷◌ c next.start; rest = next.rest }
    else record { start = String.[]; rest = String.◌∷◌ c s }

-- White space, digits and letters, in ASCII.
abbrev pub is_white : Char → Bool
is_white c = is 32 c || (leb 9 (code c) && leb (code c) 13) || (leb 28 (code c) && leb (code c) 31)

abbrev pub is_digit : Char → Bool
is_digit c = leb b'0' (code c) && leb (code c) b'9'

abbrev pub is_letter : Char → Bool
is_letter c = (leb b'A' (code c) && leb (code c) b'Z') || (leb b'a' (code c) && leb (code c) b'z')

-- s.lstrip()
abbrev pub lstrip : String → String
lstrip String.[] = String.[]
lstrip (String.◌∷◌ c s) = let rest = lstrip s in if is_white c then rest else String.◌∷◌ c s

abbrev pub put_back : Char → String → String
put_back c String.[] = if is_white c then String.[] else String.◌∷◌ c String.[]
put_back c (String.◌∷◌ d s) = String.◌∷◌ c (String.◌∷◌ d s)

-- s.rstrip()
abbrev pub rstrip : String → String
rstrip String.[] = String.[]
rstrip (String.◌∷◌ c s) = put_back c (rstrip s)

-- s.strip()
abbrev pub strip : String → String
strip s = rstrip (lstrip s)

abbrev pub push : Char → List String → List String
push c [] = String.◌∷◌ c String.[] ∷ []
push c (w ∷ ws) = String.◌∷◌ c w ∷ ws

-- s.split(c), for the character of a code point
abbrev pub split : ℕ → String → List String
split n String.[] = String.[] ∷ []
split n (String.◌∷◌ c s) = let rest = split n s in if is n c then String.[] ∷ rest else push c rest

abbrev digits_value : ℕ → String → ℕ
digits_value n String.[] = n
digits_value n (String.◌∷◌ c s) = digits_value (n * 10 + (code c - b'0')) s

-- int(s), for a string of digits
abbrev pub number_of : String → ℕ
number_of = digits_value 0

abbrev pub all_digits : String → Bool
all_digits String.[] = true
all_digits (String.◌∷◌ c s) = is_digit c && all_digits s

-- s.replace(ab, b), for two different characters
abbrev pub drop_before : ℕ → ℕ → String → String
drop_before a b String.[] = String.[]
drop_before a b (String.◌∷◌ c String.[]) = String.◌∷◌ c String.[]
drop_before a b (String.◌∷◌ c (String.◌∷◌ d s)) = elim (is a c && is b d) [
  | true ↦ String.◌∷◌ d (drop_before a b s)
  | false ↦ String.◌∷◌ c (drop_before a b (String.◌∷◌ d s))
]

-- s.endswith(end)
abbrev pub endswith : String → String → Bool
endswith end String.[] = end == ""
endswith end (String.◌∷◌ c s) = end == String.◌∷◌ c s || endswith end s
