-- ===== src/Expressions/Scanned.antt =====
-- The scanner's matches take characters, so that it keeps within its fuel.
use Prim.Native.Char.{Char, code}
use github_emulator.Prelude.{
  ℕ, zero, suc, ◌≤◌, ◌≡◌, String, Bool, true, not, ◌&&◌, ◌||◌, Option, none, some, ◌==◌, nat_eq,
  arith, if_cases, elim_cases,
}
use github_emulator.Prelude.Strings.{is, size, Spanned, span, is_white, is_digit}
use github_emulator.Expressions.Tokens.{
  Symbol, Lexeme, space, token, Match, string_end, quoted_match, token_match, Scan, scanned,
  unsupported, no_fuel, add, scan_match, scan, symbol_match, is_name_start, is_name_part, prepend,
  first, second, bang_or_differs, fraction, number_match, starts_digit, bars, amps, equals,
}

-- What is left of a text with `n` characters more than a match.
abbrev Shorter : ℕ → Option Match → Type 0
Shorter n none = Unit
Shorter n (some m) = size m.rest ≤ n

abbrev ShorterSpan : ℕ → Option Spanned → Type 0
ShorterSpan n none = Unit
ShorterSpan n (some r) = size r.rest ≤ n

part_of : (c : Char) → is_name_start c ≡ true → is_name_part c ≡ true
part_of c h = ground arith

pub size-span : (p : Char → Bool) (s : String) → size (span p s).rest ≤ size s
size-span p String.[] = omega arith
size-span p (String.◌∷◌ c s) =
    let h = size-span p s in
    if_cases (λ (r : Spanned). size r.rest ≤ suc (size s)) (p c) (λ e. omega arith)
      (λ e. omega arith)

prepend-size :
    (n : ℕ) (c : Char) (o : Option Spanned) → ShorterSpan n o → ShorterSpan n (prepend c o)
prepend-size n c none h = tt
prepend-size n c (some r) h = h

first-size :
    (n : ℕ) (o p : Option Spanned) → ShorterSpan n o → ShorterSpan n p → ShorterSpan n (first o p)
first-size n none p h k = k
first-size n (some r) p h k = h

longer : (m n : ℕ) (o : Option Spanned) → m ≤ n → ShorterSpan m o → ShorterSpan n o
longer m n none e h = tt
longer m n (some r) e h = omega arith

string_end-size : (q : ℕ) (s : String) → ShorterSpan (size s) (string_end q s)
unfolding string_end
string_end-size q String.[] = tt
string_end-size q (String.◌∷◌ c String.[]) =
    if_cases (ShorterSpan 1) (is q c) (λ e. omega arith) (λ e. tt)
string_end-size q (String.◌∷◌ c (String.◌∷◌ d s)) =
    let n = suc (suc (size s)) in
    let here =
      prepend-size n c _
        (longer (suc (size s)) n _ (omega arith) (string_end-size q (String.◌∷◌ d s))) in
    let skipped =
      prepend-size n c _
        (prepend-size n d _ (longer (size s) n _ (omega arith) (string_end-size q s))) in
    elim_cases (ShorterSpan n) (is q c) (λ e. omega arith)
      λ e.
        elim_cases (ShorterSpan n) (is b'\\' c && not (is 10 d))
          (λ e. first-size n _ _ skipped here) (λ e. here)

quoted-size : (n : ℕ) (o : Option Spanned) → ShorterSpan n o → Shorter n (quoted_match o)
quoted-size n none h = tt
quoted-size n (some r) h = h

second-size : (k : ℕ) (t : Symbol) (s : String) → Shorter (size s) (second k t s)
second-size k t String.[] = tt
second-size k t (String.◌∷◌ c s) =
    if_cases (Shorter (suc (size s))) (is k c) (λ e. omega arith) (λ e. tt)

bang-size : (s : String) → Shorter (size s) (bang_or_differs s)
bang-size String.[] = omega arith
bang-size (String.◌∷◌ c s) =
    if_cases (Shorter (suc (size s))) (is b'=' c) (λ e. omega arith) (λ e. omega arith)

fraction-size :
    (n : ℕ) (r : Spanned) (p : Char) (s : String)
    → size r.rest ≤ n
    → size s ≤ n
    → size (fraction r p s).rest ≤ n
fraction-size n r p s h k =
    let z = size-span is_digit s in
    if_cases (λ (m : Match). size m.rest ≤ n) (is b'.' p && starts_digit s) (λ e. omega arith)
      (λ e. h)

number-size :
    (n : ℕ) (r : Spanned) (s : String)
    → size r.rest ≤ n
    → size s ≤ n
    → size (number_match r s).rest ≤ n
number-size n r String.[] h k = h
number-size n r (String.◌∷◌ p s) h k = fraction-size n r p s h (omega arith)

-- A span whose first character passes takes it.
span-first :
    (p : Char → Bool) (c : Char) (s : String)
    → p c ≡ true
    → size (span p (String.◌∷◌ c s)).rest ≤ size s
span-first p c s h =
    let z = size-span p s in
    if_cases (λ (r : Spanned). size r.rest ≤ size s) (p c) (λ e. z) (λ e. cc)

symbol-size : (c : ℕ) (s : String) → Shorter (size s) (symbol_match c s)
symbol-size c s =
    let n = size s in
    if_cases (Shorter n) (c == b'(') (λ _. omega arith)
      λ _.
        if_cases (Shorter n) (c == b')') (λ _. omega arith)
          λ _.
            if_cases (Shorter n) (c == b',') (λ _. omega arith)
              λ _.
                if_cases (Shorter n) (c == b'[') (λ _. omega arith)
                  λ _.
                    if_cases (Shorter n) (c == b']') (λ _. omega arith)
                      λ _. if_cases (Shorter n) (c == b'.') (λ _. omega arith) (λ _. tt)

token_match-size : (c : Char) (s : String) → Shorter (size s) (token_match (String.◌∷◌ c s))
unfolding token_match
token_match-size c s =
    let P = Shorter (size s) in
    if_cases P (is_white c) (λ h. span-first is_white c s h)
      λ _.
        if_cases P (is b'|' c) (λ _. second-size b'|' bars s)
          λ _.
            if_cases P (is b'&' c) (λ _. second-size b'&' amps s)
              λ _.
                if_cases P (is b'=' c) (λ _. second-size b'=' equals s)
                  λ _.
                    if_cases P (is b'!' c) (λ _. bang-size s)
                      λ _.
                        if_cases P (is b'\'' c || is b'"' c)
                          (λ _. quoted-size _ _ (string_end-size (code c) s))
                          λ _.
                            if_cases P (is_digit c)
                              (λ h.
                                let z = span-first is_digit c s h in
                                number-size (size s) (span is_digit (String.◌∷◌ c s)) _ z z)
                              λ _.
                                if_cases P (is_name_start c)
                                  (λ h. span-first is_name_part c s (part_of c h))
                                  (λ _. symbol-size (code c) s)

abbrev pub Finished : Scan → Type 0
Finished no_fuel = ⊥
Finished _ = Unit

add-Finished : (l : Lexeme) (r : Scan) → Finished r → Finished (add l r)
add-Finished space r h = h
add-Finished (token t) (scanned ts) h = tt
add-Finished (token t) unsupported h = tt
add-Finished (token t) no_fuel h = absurd h

match-Finished :
    (n : ℕ) (next : String → Scan) (o : Option Match)
    → Shorter n o
    → ((s : String) → size s ≤ n → Finished (next s))
    → Finished (scan_match next o)
match-Finished n next none h f = tt
match-Finished n next (some m) h f = add-Finished m.lexeme (next m.rest) (f m.rest h)

pub scan-Finished : (fuel : ℕ) (s : String) → size s ≤ fuel → Finished (scan fuel s)
unfolding scan
scan-Finished fuel String.[] h = tt
scan-Finished zero (String.◌∷◌ c s) h = absurd (omega arith)
scan-Finished (suc fuel) (String.◌∷◌ c s) h =
    match-Finished (size s) (scan fuel) _ (token_match-size c s)
      (λ t k. scan-Finished fuel t (omega arith))
