-- ===== src/Expressions/LiteralsRead.antt =====
-- A literal that is written for a value is read as the value.
use Prim.Native.Char.{Char, code}
use text.Mathlib.TextEquality.{Char-path}
use github_emulator.Prelude.{
  ℕ, ◌≡◌, refl, sym, ap, ◌∙◌, subst, String, Bool, true, false, not, ◌&&◌, Option, none, some, [],
  ◌∷◌, if◌then◌else◌, arith, Bool-cases, elim_cases, inl, inr, nat_eq, beq_eq,
}
use github_emulator.Prelude.Strings.{is, concat, Spanned, drop_before}
use github_emulator.Value.{Fields, Value, dict, list, str, int, bool, null}
use github_emulator.Expressions.Values.{Python}
use github_emulator.Expressions.Tokens.{
  quoted, string_end, prepend, first, quoted_match, scan_match, scan, scanned, tokenize,
}
use github_emulator.Expressions.Parser.{ok}
use github_emulator.Expressions.Joined.{plain, plain-tail}
use github_emulator.Expressions.ConjunctionText.{scan-tokenize}
use github_emulator.Expressions.Evaluate.{read, read_text}
use github_emulator.Expressions.Literals.{replace_char, as_literal}

abbrev quote_escaped : String → String
quote_escaped = replace_char b'\'' "\\'"

no_backslash : (c : Char) (s : String) → plain (String.◌∷◌ c s) ≡ true → is b'\\' c ≡ false
no_backslash c s h = ground arith

replace-plain : (s : String) → plain s ≡ true → replace_char b'\\' "\\\\" s ≡ s
replace-plain String.[] h = refl
replace-plain (String.◌∷◌ c s) h =
    ap
      (λ b.
        if b
        then concat "\\\\" (replace_char b'\\' "\\\\" s)
        else String.◌∷◌ c (replace_char b'\\' "\\\\" s))
      (no_backslash c s h)
    ∙ ap (String.◌∷◌ c) (replace-plain s (plain-tail c s h))

drop-cons :
    (n : ℕ) (c : Char) (s : String)
    → is b'\\' c ≡ false
    → drop_before b'\\' n (String.◌∷◌ c s) ≡ String.◌∷◌ c (drop_before b'\\' n s)
drop-cons n c String.[] h = refl
drop-cons n c (String.◌∷◌ d s) h =
    ap
      (λ b. elim (b && is n d) [
        | true ↦ String.◌∷◌ d (drop_before b'\\' n s)
        | false ↦ String.◌∷◌ c (drop_before b'\\' n (String.◌∷◌ d s))
      ])
      h

drop-plain : (n : ℕ) (s : String) → plain s ≡ true → drop_before b'\\' n s ≡ s
drop-plain n String.[] h = refl
drop-plain n (String.◌∷◌ c s) h =
    drop-cons n c s (no_backslash c s h) ∙ ap (String.◌∷◌ c) (drop-plain n s (plain-tail c s h))

unquote-escaped : (s : String) → plain s ≡ true → drop_before b'\\' b'\'' (quote_escaped s) ≡ s
unquote-escaped String.[] h = refl
unquote-escaped (String.◌∷◌ c s) h =
    let rest = unquote-escaped s (plain-tail c s h) in
    elim (Bool-cases (is b'\'' c)) [
      | inl e ↦
          ap
            (λ b.
              drop_before b'\\' b'\''
                (if b then concat "\\'" (quote_escaped s) else String.◌∷◌ c (quote_escaped s)))
            e
          ∙ ap (String.◌∷◌ "'") rest
          ∙ ap (λ d. String.◌∷◌ d s) (Char-path "'" c (sym (beq_eq (code c) b'\'' e)))
      | inr e ↦
          ap
            (λ b.
              drop_before b'\\' b'\''
                (if b then concat "\\'" (quote_escaped s) else String.◌∷◌ c (quote_escaped s)))
            e
          ∙ drop-cons b'\'' c (quote_escaped s) (no_backslash c s h)
          ∙ ap (String.◌∷◌ c) rest
    ]

abbrev ended : String → Option Spanned
ended s = some (record { start = quote_escaped s; rest = String.[] })

string_end-cons :
    (q : ℕ) (c : Char) (s : String)
    → is q c ≡ false
    → is b'\\' c ≡ false
    → string_end q (String.◌∷◌ c s) ≡ prepend c (string_end q s)
unfolding string_end
string_end-cons q c String.[] h k =
    ap (λ b. if b then some (record { start = String.[]; rest = String.[] }) else none) h
string_end-cons q c (String.◌∷◌ d s) h k =
    let P = λ (o : Option Spanned). o ≡ prepend c (string_end q (String.◌∷◌ d s)) in
    elim_cases P (is q c) (λ e. absurd (cc))
      λ _.
        elim_cases P (is b'\\' c && not (is 10 d))
          (λ e. absurd (let z = ap (λ b. b && not (is 10 d)) k in cc)) (λ _. refl)

string_end-escaped :
    (s : String) → plain s ≡ true → string_end b'\'' (concat (quote_escaped s) "'") ≡ ended s
unfolding string_end
string_end-escaped String.[] h = refl
string_end-escaped (String.◌∷◌ c s) h =
    let t = concat (quote_escaped s) "'" in
    let rest = string_end-escaped s (plain-tail c s h) in
    let text =
      λ (b : Bool). if b then concat "\\'" (quote_escaped s) else String.◌∷◌ c (quote_escaped s) in
    let read_end = λ (b : Bool). string_end b'\'' (concat (text b) "'") in
    let written = λ (b : Bool).
      ◌≡◌ {A = Option Spanned} (read_end b) (some (record { start = text b; rest = String.[] })) in
    elim (Bool-cases (is b'\'' c)) [
      | inl e ↦ subst written (sym e) (
          ap
            (λ o.
              first (prepend "\\" (prepend "'" o)) (prepend "\\" (string_end b'\'' (concat "'" t))))
            rest)
      | inr e ↦
          subst written (sym e)
            (string_end-cons b'\'' c t e (no_backslash c s h) ∙ ap (prepend c) rest)
    ]

tokenize-literal :
    (s : String)
    → plain s ≡ true
    → tokenize (concat "'" (concat (quote_escaped s) "'")) ≡ scanned (quoted (quote_escaped s) ∷ [])
unfolding scan
tokenize-literal s h =
    scan-tokenize 1 (concat "'" (concat (quote_escaped s) "'")) _
      (ap (λ o. scan_match (scan 0) (quoted_match o)) (string_end-escaped s h))

text_literal-read :
    (py : Python) (context : Fields) (s : String)
    → plain s ≡ true
    → read_text py context (as_literal py (str s)) ≡ ok (str s) []
unfolding as_literal read_text
text_literal-read py context s h =
    ap (λ t. read py context (tokenize (concat "'" (concat (quote_escaped t) "'"))))
      (replace-plain s h)
    ∙ ap (read py context) (tokenize-literal s h)
    ∙ ap (λ t. ok (str t) [])
        (ap (drop_before b'\\' b'"') (unquote-escaped s h) ∙ drop-plain b'"' s h)

-- Truth values, and texts without backslashes.
abbrev pub Writable : Value → Type 0
Writable (str s) = plain s ≡ true
Writable (bool b) = Unit
Writable _ = ⊥

-- A truth value, or a text without backslashes, that is written as a literal is read as itself.
pub as_literal-read :
    (py : Python) (context : Fields) (v : Value)
    → Writable v
    → read_text py context (as_literal py v) ≡ ok v []
unfolding as_literal read_text
as_literal-read py context (str s) h = text_literal-read py context s h
as_literal-read py context (bool true) h = refl
as_literal-read py context (bool false) h = refl
as_literal-read py context (dict d) h = absurd h
as_literal-read py context (list is) h = absurd h
as_literal-read py context (int n) h = absurd h
as_literal-read py context null h = absurd h
