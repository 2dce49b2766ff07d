-- ===== src/Expressions/Conjoined.antt =====
-- A combined condition is the conjunction of the two.
use github_emulator.Prelude.{
  ◌≡◌, refl, sym, ap, ◌∙◌, subst, String, Bool, true, false, ◌&&◌, Option, none, some, List, [],
  ◌==◌, string_eq, if◌then◌else◌, Bool-cases, beq_eq, inl, inr,
}
use github_emulator.Prelude.Strings.{strip}
use github_emulator.Value.{Fields, Value, str}
use github_emulator.Expressions.Values.{Python, truthy, both_values}
use github_emulator.Expressions.Tokens.{Token, Scan, scanned, unsupported, tokenize}
use github_emulator.Expressions.Parser.{ok, evaluate}
use github_emulator.Expressions.Joined.{plain}
use github_emulator.Expressions.ConjunctionText.{tokenize-conjunction, unwrap-conjunction}
use github_emulator.Expressions.Evaluate.{unwrap, truth, read, read_text, evaluate_job_if}
use github_emulator.Expressions.Conditions.{
  condition_body, conjunction, combined_texts, combine_conditions,
}
use github_emulator.Expressions.Combined.{evaluate-both}

read-scanned :
    (py : Python) (context : Fields) (r : Scan) (v : Value)
    → read py context r ≡ ok v []
    → (ts : List Token) × (r ≡ scanned ts) × (evaluate py context ts ≡ ok v [])
unfolding read
read-scanned py context (scanned ts) v h = (ts, refl, h)
read-scanned py context unsupported v h = cc
read-scanned py context Scan.no_fuel v h = cc

read-empty : (py : Python) (context : Fields) (v : Value) → read_text py context "" ≡ ok v [] → ⊥
unfolding read_text
read-empty py context v h = cc

-- A text that is read is not empty.
read-nonempty :
    (py : Python) (context : Fields) (s : String) (v : Value)
    → read_text py context s ≡ ok v []
    → (s == "") ≡ false
read-nonempty py context s v h = elim (Bool-cases (s == "")) [
  | inl e ↦
      absurd
        (read-empty py context v (subst (λ x. read_text py context x ≡ ok v []) (beq_eq s "" e) h))
  | inr e ↦ e
]

pub conjunction-read :
    (py : Python) (context : Fields) (a b : String) (v w : Value)
    → plain a ≡ true
    → plain b ≡ true
    → read_text py context a ≡ ok v []
    → read_text py context b ≡ ok w []
    → read_text py context (conjunction a b) ≡ ok (both_values v w) []
unfolding read_text
conjunction-read py context a b v w p q h k =
    let (ts, e, d) = read-scanned py context (tokenize a) v h in
    let (us, f, g) = read-scanned py context (tokenize b) w k in
    ap (read py context) (tokenize-conjunction a b ts us p q e f)
    ∙ evaluate-both py context ts us v w d g

abbrev pub both_truths : Option Bool → Option Bool → Option Bool
both_truths (some a) (some b) = some (a && b)
both_truths _ _ = none

truthy_if : (b : Bool) (v w : Value) → truthy v ≡ b → truthy (if b then w else v) ≡ (b && truthy w)
truthy_if true v w h = refl
truthy_if false v w h = h

truthy-both : (v w : Value) → truthy (both_values v w) ≡ (truthy v && truthy w)
truthy-both v w = truthy_if (truthy v) v w refl

combined-read :
    (py : Python) (context : Fields) (a b : String) (v w : Value)
    → read_text py context a ≡ ok v []
    → read_text py context b ≡ ok w []
    → combined_texts a b ≡ conjunction a b
combined-read py context a b v w h k =
    ap (λ c. if c then a else if a == "" then b else conjunction a b)
      (read-nonempty py context b w k)
    ∙ ap (λ c. if c then b else conjunction a b) (read-nonempty py context a v h)

-- Where two conditions are texts that are read without an error, and have no backslash in them, the
-- condition that is combined of them evaluates to the conjunction of what they evaluate to.
pub combine_conditions-and :
    (py : Python) (context : Fields) (caller child : String) (v w : Value)
    → plain (condition_body py (str caller)) ≡ true
    → plain (condition_body py (str child)) ≡ true
    → read_text py context (condition_body py (str caller)) ≡ ok v []
    → read_text py context (condition_body py (str child)) ≡ ok w []
    → evaluate_job_if py (str (combine_conditions py (str caller) (str child))) context
      ≡ both_truths
          (evaluate_job_if py (str caller) context)
          (evaluate_job_if py (str child) context)
unfolding combine_conditions evaluate_job_if
combine_conditions-and py context caller child v w p q h k =
    let a = condition_body py (str caller) in
    let b = condition_body py (str child) in
    ap (λ t. truth (read_text py context (unwrap (strip t)))) (combined-read py context a b v w h k)
    ∙ ap (λ t. truth (read_text py context t)) (unwrap-conjunction a b)
    ∙ ap truth (conjunction-read py context a b v w p q h k)
    ∙ ap some (truthy-both v w)
    ∙ sym (
        ap (λ x. both_truths (truth x) (truth (read_text py context b))) h
        ∙ ap (λ x. both_truths (some (truthy v)) (truth x)) k)
