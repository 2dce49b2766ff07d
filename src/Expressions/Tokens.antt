-- ===== src/Expressions/Tokens.antt =====
-- `_tokenize`. A string's token is what stands between its quotes.
use Prim.Native.Char.{Char, code}
use github_emulator.Prelude.{
  ℕ, zero, suc, String, Bool, true, false, not, ◌&&◌, ◌||◌, Option, none, some, List, [], ◌∷◌, ◌==◌,
  nat_eq, if◌then◌else◌,
}
use github_emulator.Prelude.Strings.{is, concat, size, Spanned, span, is_white, is_digit, is_letter}

pub data Symbol : Type 0 where
  bars amps equals differs bang left_paren right_paren comma left_bracket right_bracket dot : Symbol

pub data Token : Type 0 where
  op : Symbol → Token
  quoted integer decimal name : String → Token

pub data Lexeme : Type 0 where
  space : Lexeme
  token : Token → Lexeme

-- A match, and the text that follows it.
pub record Match : Type 0 where
  pub lexeme : Lexeme
  pub rest : String

abbrev pub matched : Symbol → String → Option Match
matched t s = some (record { lexeme = token (op t); rest = s })

-- The second character of an operator of two.
abbrev pub second : ℕ → Symbol → String → Option Match
second n t String.[] = none
second n t (String.◌∷◌ c s) = if is n c then matched t s else none

abbrev pub bang_or_differs : String → Option Match
bang_or_differs String.[] = matched bang String.[]
bang_or_differs (String.◌∷◌ c s) =
    if is b'=' c then matched differs s else matched bang (String.◌∷◌ c s)

abbrev pub prepend : Char → Option Spanned → Option Spanned
prepend c none = none
prepend c (some r) = some (record { start = String.◌∷◌ c r.start; rest = r.rest })

abbrev pub first : Option Spanned → Option Spanned → Option Spanned
first none o = o
first (some r) o = some r

-- The rest of a string after its quote, `(?:\\.|[^'])*'`: a backslash takes the next character with
-- it, but is one character like others where that leaves no quote to end the string.
unfoldable pub string_end : ℕ → String → Option Spanned
string_end q String.[] = none
string_end q (String.◌∷◌ c String.[]) =
    if is q c then some (record { start = String.[]; rest = String.[] }) else none
string_end q (String.◌∷◌ c (String.◌∷◌ d s)) = elim (is q c) [
  | true ↦ some (record { start = String.[]; rest = String.◌∷◌ d s })
  | false ↦ elim (is b'\\' c && not (is 10 d)) [
    | true ↦
        first (prepend c (prepend d (string_end q s))) (prepend c (string_end q (String.◌∷◌ d s)))
    | false ↦ prepend c (string_end q (String.◌∷◌ d s))
  ]
]

abbrev pub quoted_match : Option Spanned → Option Match
quoted_match none = none
quoted_match (some r) = some (record { lexeme = token (quoted r.start); rest = r.rest })

abbrev pub starts_digit : String → Bool
starts_digit String.[] = false
starts_digit (String.◌∷◌ c s) = is_digit c

abbrev pub integer_match : Spanned → Match
integer_match r = record { lexeme = token (integer r.start); rest = r.rest }

-- After a point.
abbrev pub fraction : Spanned → Char → String → Match
fraction r p s =
    let next = span is_digit s in
    if is b'.' p && starts_digit s
    then record {
      lexeme = token (decimal (concat r.start (String.◌∷◌ p next.start)));
      rest = next.rest;
    }
    else integer_match r

-- `\d+(?:\.\d+)?`
abbrev pub number_match : Spanned → String → Match
number_match r String.[] = integer_match r
number_match r (String.◌∷◌ p s) = fraction r p s

abbrev pub is_name_start : Char → Bool
is_name_start c = is_letter c || is b'_' c

abbrev pub is_name_part : Char → Bool
is_name_part c = is_letter c || is b'_' c || is_digit c || is b'.' c || is b'-' c

abbrev pub name_match : Spanned → Match
name_match r = record { lexeme = token (name r.start); rest = r.rest }

abbrev pub space_match : Spanned → Match
space_match r = record { lexeme = space; rest = r.rest }

abbrev pub numbered : Spanned → Match
numbered r = number_match r r.rest

-- Operators of one character.
abbrev pub symbol_match : ℕ → String → Option Match
symbol_match c s =
    if c == b'('
    then matched left_paren s
    else if c == b')'
    then matched right_paren s
    else if c == b','
    then matched comma s
    else if c == b'['
    then matched left_bracket s
    else if c == b']'
    then matched right_bracket s
    else if c == b'.'
    then matched dot s
    else none

-- `_TOKEN_RE.match` at the start of a text.
unfoldable pub token_match : String → Option Match
unfolding string_end
token_match String.[] = none
token_match (String.◌∷◌ c s) =
    if is_white c
    then some (space_match (span is_white (String.◌∷◌ c s)))
    else if is b'|' c
    then second b'|' bars s
    else if is b'&' c
    then second b'&' amps s
    else if is b'=' c
    then second b'=' equals s
    else if is b'!' c
    then bang_or_differs s
    else if is b'\'' c || is b'"' c
    then quoted_match (string_end (code c) s)
    else if is_digit c
    then some (numbered (span is_digit (String.◌∷◌ c s)))
    else if is_name_start c
    then some (name_match (span is_name_part (String.◌∷◌ c s)))
    else symbol_match (code c) s

-- `unsupported` is an error of the expression; `no_fuel` does not occur.
pub data Scan : Type 0 where
  scanned : List Token → Scan
  unsupported no_fuel : Scan

abbrev pub add : Lexeme → Scan → Scan
add space r = r
add (token t) (scanned ts) = scanned (t ∷ ts)
add (token t) r = r

abbrev pub scan_match : (String → Scan) → Option Match → Scan
scan_match next none = unsupported
scan_match next (some m) = add m.lexeme (next m.rest)

unfoldable pub scan : ℕ → String → Scan
unfolding token_match
scan fuel String.[] = scanned []
scan zero (String.◌∷◌ c s) = no_fuel
scan (suc fuel) (String.◌∷◌ c s) = scan_match (scan fuel) (token_match (String.◌∷◌ c s))

-- Each match takes at least one character.
abbrev pub tokenize : String → Scan
tokenize expression = scan (size expression) expression
