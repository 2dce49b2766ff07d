-- ===== src/Expressions/Combined.antt =====
-- The tokens of two expressions in parentheses, with `&&` between them, are read as both.
use github_emulator.Prelude.{
  ℕ, suc, ◌+◌, ◌*◌, ◌≤◌, ◌≡◌, refl, ap, ◌∙◌, subst, none, List, [], ◌∷◌, string_eq, arith,
}
use github_emulator.Prelude.Lists.{length}
use github_emulator.Value.{Fields, Value}
use github_emulator.Expressions.Values.{Python, both_values}
use github_emulator.Expressions.Tokens.{
  equals, differs, dot, amps, left_paren, right_paren, left_bracket, Token, op,
}
use github_emulator.Expressions.Parser.{
  Result, ok, refused, raised, beyond, parse_or, parse_not, parse_primary, and_then, expect, run,
  evaluate, at_end, closed, accessed, compared, or_loop, and_loop,
}
use github_emulator.Expressions.Framed.{before_close, Framed}
use github_emulator.Expressions.FramedSteps.{run-Framed}

-- Nothing that goes on with an operand.
abbrev Quiet : List Token → Type 0
Quiet u =
    (expect dot u ≡ none)
    × (expect left_bracket u ≡ none)
    × (expect equals u ≡ none)
    × (expect differs u ≡ none)

module _ (py : Python) (context : Fields) where
  -- Tokens that are read as a whole, read before a parenthesis.
  read_before :
      (m n : ℕ) (u ts : List Token) (v : Value)
      → m ≤ n
      → run py context m parse_or ts ≡ ok v []
      → run py context n parse_or (before_close u ts) ≡ ok v (op right_paren ∷ u)
  read_before m n u ts v h e =
      subst (λ x. Framed u x (run py context n parse_or (before_close u ts))) e
        (run-Framed u py context m n h parse_or ts)

  paren_primary :
      (m n : ℕ) (u ts : List Token) (v : Value)
      → m ≤ suc n
      → Quiet u
      → run py context m parse_or ts ≡ ok v []
      → run py context (suc (suc n)) parse_primary (op left_paren ∷ before_close u ts) ≡ ok v u
  unfolding run
  paren_primary m n u ts v h q e =
      ap (λ x. and_then x (λ w r. closed (run py context (suc n)) w (expect right_paren r)))
        (read_before m (suc n) u ts v h e)
      ∙ ap (λ o. accessed py context (run py context n) v u o (expect left_bracket u)) q.0
      ∙ ap (λ p. accessed py context (run py context n) v u none p) q.1

  paren_not :
      (m n : ℕ) (u ts : List Token) (v : Value)
      → m ≤ suc n
      → Quiet u
      → run py context m parse_or ts ≡ ok v []
      → run py context (suc (suc (suc (suc n)))) parse_not (op left_paren ∷ before_close u ts)
        ≡ ok v u
  unfolding run
  paren_not m n u ts v h q e =
      let self = run py context (suc (suc n)) in
      ap (λ x. and_then x (λ w r. compared self w r (expect equals r) (expect differs r)))
        (paren_primary m n u ts v h q e)
      ∙ ap (λ o. compared self v u o (expect differs u)) q.2
      ∙ ap (λ p. compared self v u none p) q.3

  abbrev both_tokens : List Token → List Token → List Token
  both_tokens ts us = op left_paren ∷ before_close (op amps ∷ op left_paren ∷ before_close [] us) ts

  second_read :
      (k n : ℕ) (us : List Token) (v w : Value)
      → k ≤ suc n
      → run py context k parse_or us ≡ ok w []
      → run py context
          (suc (suc (suc (suc (suc n)))))
          (and_loop v)
          (op amps ∷ op left_paren ∷ before_close [] us)
        ≡ ok (both_values v w) []
  unfolding run
  second_read k n us v w g e =
      ap
        (λ x.
          and_then x
            (λ z q. run py context (suc (suc (suc (suc n)))) (and_loop (both_values v z)) q))
        (paren_not k n [] us w g (refl, refl, refl, refl) e)

  both_read :
      (m k n : ℕ) (ts us : List Token) (v w : Value)
      → m ≤ suc (suc n)
      → k ≤ suc n
      → run py context m parse_or ts ≡ ok v []
      → run py context k parse_or us ≡ ok w []
      → run py context (suc (suc (suc (suc (suc (suc (suc n))))))) parse_or (both_tokens ts us)
        ≡ ok (both_values v w) []
  unfolding run
  both_read m k n ts us v w h g d e =
      let u = op amps ∷ op left_paren ∷ before_close [] us in
      let five = suc (suc (suc (suc (suc n)))) in
      let first = paren_not m (suc n) u ts v h (refl, refl, refl, refl) d in
      ap (λ x. and_then x (λ z r. run py context (suc five) (or_loop z) r))
        (ap (λ x. and_then x (λ z r. run py context five (and_loop z) r)) first
          ∙ second_read k n us v w g e)

  length-before_close : (u ts : List Token) → length (before_close u ts) ≡ length ts + length u + 1
  length-before_close u [] = omega arith
  length-before_close u (t ∷ ts) = let h = length-before_close u ts in omega arith

  at_end-ok : (x : Result) (v : Value) → and_then x at_end ≡ ok v [] → x ≡ ok v []
  at_end-ok (ok x []) v h = h
  at_end-ok (ok x (t ∷ ts)) v h = cc
  at_end-ok refused v h = cc
  at_end-ok raised v h = cc
  at_end-ok beyond v h = cc
  at_end-ok Result.no_fuel v h = cc

  pub evaluate-both :
      (ts us : List Token) (v w : Value)
      → evaluate py context ts ≡ ok v []
      → evaluate py context us ≡ ok w []
      → evaluate py context (both_tokens ts us) ≡ ok (both_values v w) []
  unfolding evaluate
  evaluate-both ts us v w h k =
      let n = 8 * length ts + 8 * length us + 41 in
      let l = length-before_close [] us in
      let z = length-before_close (op amps ∷ op left_paren ∷ before_close [] us) ts in
      let fuel : 8 * length (both_tokens ts us) + 8 ≡ suc (suc (suc (suc (suc (suc (suc n)))))) =
        omega arith in
      ap (λ f. and_then (run py context f parse_or (both_tokens ts us)) at_end) fuel
      ∙ ap (λ x. and_then x at_end)
          (both_read (8 * length ts + 8) (8 * length us + 8) n ts us v w (omega arith) (omega arith)
            (at_end-ok _ v h) (at_end-ok _ w k))
