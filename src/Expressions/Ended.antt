-- ===== src/Expressions/Ended.antt =====
-- Every call of the parser's methods ends within its fuel: names, functions and accessors.
use github_emulator.Prelude.{
  ℕ, zero, suc, ◌+◌, ◌*◌, ◌≤◌, ◌<◌, ◌≡◌, refl, String, Option, none, some, List, [], ◌∷◌, ◌++◌,
  ◌==◌, string_eq, arith, if_cases,
}
use github_emulator.Prelude.Lists.{length}
use github_emulator.Prelude.Strings.{split}
use github_emulator.Value.{Fields, Value}
use github_emulator.Expressions.Values.{Python, index_value, index_parts, lookup_context_value}
use github_emulator.Expressions.Tokens.{
  bars, amps, equals, differs, bang, left_paren, right_paren, comma, left_bracket, right_bracket,
  dot, Token, op, quoted, integer, decimal, name,
}
use github_emulator.Expressions.Functions.{call}
use github_emulator.Expressions.Parser.{
  parse_or, parse_and, parse_not, parse_comparison, parse_primary, or_loop, and_loop,
  parse_accessors, parse_arguments, Calls, expect, argument_list, next_argument, constant_or_path,
  named, operand, primary, property, indexed, accessed, step, run,
}
use github_emulator.Expressions.Total.{
  Ends, Ends-and_then, Ends-shift, expect-length, Lives, call-Ends, more_or-Ends, more_and-Ends,
  negated-Ends, compared-Ends, accessors-Ends, called-Ends, closed-Ends,
}

module _ (py : Python) (context : Fields) (fuel : ℕ) (self : Calls) (h : Lives fuel self) where
  argument_list-Ends :
      (n : ℕ) (f : String) (ts : List Token) (o : Option (List Token))
      → expect right_paren ts ≡ o
      → length ts + 2 ≤ n
      → 8 * n < suc fuel
      → Ends n 1 (argument_list py context self f ts o)
  unfolding argument_list
  argument_list-Ends n f ts none e m small =
      call-Ends fuel self h (parse_arguments f []) ts n 1 (omega arith) (omega arith)
  argument_list-Ends n f ts (some r) e m small =
      let l = expect-length right_paren ts r e in
      called-Ends fuel self h n 1 (call py f []) r (omega arith) (omega arith)

  next_argument-Ends :
      (n : ℕ) (f : String) (vs : List Value) (ts : List Token) (o p : Option (List Token))
      → expect comma ts ≡ o
      → expect right_paren ts ≡ p
      → length ts + 1 ≤ n
      → 8 * n < suc fuel
      → Ends n 1 (next_argument py context self f vs o p)
  unfolding next_argument
  next_argument-Ends n f vs ts (some r) p e d m small =
      let l = expect-length comma ts r e in
      call-Ends fuel self h (parse_arguments f vs) r n 1 (omega arith) (omega arith)
  next_argument-Ends n f vs ts none (some r) e d m small =
      let l = expect-length right_paren ts r d in
      called-Ends fuel self h n 1 (call py f vs) r (omega arith) (omega arith)
  next_argument-Ends n f vs ts none none e d m small = tt

  constant_or_path-Ends :
      (n : ℕ) (s : String) (ts : List Token)
      → length ts + 1 ≤ n
      → 8 * n < suc fuel
      → Ends n 1 (constant_or_path py context self s ts)
  unfolding constant_or_path
  constant_or_path-Ends n s ts m small =
      if_cases (Ends n 1) (s == "true") (λ _. m)
        λ _.
          if_cases (Ends n 1) (s == "false") (λ _. m)
            λ _.
              if_cases (Ends n 1) (s == "null") (λ _. m)
                λ _.
                  accessors-Ends fuel self h n 1 (lookup_context_value context s) ts m (omega arith)

  named-Ends :
      (s : String) (ts : List Token) (o : Option (List Token))
      → expect left_paren ts ≡ o
      → 8 * length ts + 8 < suc fuel
      → Ends (length ts + 1) 1 (named py context self s ts o)
  unfolding named
  named-Ends s ts none e small =
      constant_or_path-Ends (length ts + 1) s ts (omega arith) (omega arith)
  named-Ends s ts (some r) e small =
      let l = expect-length left_paren ts r e in
      argument_list-Ends (length ts + 1) s r (expect right_paren r) refl (omega arith) (omega arith)

  operand-Ends :
      (ts : List Token) → 8 * length ts < suc fuel → Ends (length ts) 1 (operand py context self ts)
  unfolding operand
  operand-Ends [] small = tt
  operand-Ends (op s ∷ ts) small = tt
  operand-Ends (quoted s ∷ ts) small = omega arith
  operand-Ends (integer s ∷ ts) small = omega arith
  operand-Ends (decimal s ∷ ts) small = omega arith
  operand-Ends (name s ∷ ts) small =
      Ends-shift (length ts + 1) 1 (suc (length ts)) 1 _ (omega arith)
        (named-Ends s ts (expect left_paren ts) refl (omega arith))

  primary-Ends :
      (ts : List Token) (o : Option (List Token))
      → expect left_paren ts ≡ o
      → 8 * length ts < suc fuel
      → Ends (length ts) 1 (primary py context self ts o)
  unfolding primary
  primary-Ends ts none e small = operand-Ends ts small
  primary-Ends ts (some r) e small =
      let l = expect-length left_paren ts r e in
      Ends-and_then (length ts) 2 1 _ _
        (call-Ends fuel self h parse_or r (length ts) 2 (omega arith) (omega arith))
        (λ v q m.
          closed-Ends fuel self h (length ts) v q (expect right_paren q) refl (omega arith) small)

  property-Ends :
      (n : ℕ) (v : Value) (ts : List Token)
      → length ts ≤ n
      → 8 * n < suc fuel
      → Ends n 0 (property py context self v ts)
  property-Ends n v [] m small = tt
  property-Ends n v (op s ∷ ts) m small = tt
  property-Ends n v (quoted s ∷ ts) m small = tt
  property-Ends n v (integer s ∷ ts) m small = tt
  property-Ends n v (decimal s ∷ ts) m small = tt
  property-Ends n v (name s ∷ ts) m small =
      accessors-Ends fuel self h n 0 (index_parts py v (split b'.' s)) ts (omega arith)
        (omega arith)

  indexed-Ends :
      (n : ℕ) (v i : Value) (ts : List Token) (o : Option (List Token))
      → expect right_bracket ts ≡ o
      → length ts ≤ n
      → 8 * n < suc fuel
      → Ends n 0 (indexed py context self v i o)
  unfolding indexed
  indexed-Ends n v i ts none e m small = tt
  indexed-Ends n v i ts (some r) e m small =
      let l = expect-length right_bracket ts r e in
      accessors-Ends fuel self h n 0 (index_value py v i) r (omega arith) (omega arith)

  accessed-Ends :
      (v : Value) (ts : List Token) (o p : Option (List Token))
      → expect dot ts ≡ o
      → expect left_bracket ts ≡ p
      → 8 * length ts < suc fuel
      → Ends (length ts) 0 (accessed py context self v ts o p)
  unfolding accessed
  accessed-Ends v ts (some r) p e d small =
      let l = expect-length dot ts r e in property-Ends (length ts) v r (omega arith) small
  accessed-Ends v ts none (some r) e d small =
      let l = expect-length left_bracket ts r d in
      Ends-and_then (length ts) 2 0 _ _
        (call-Ends fuel self h parse_or r (length ts) 2 (omega arith) (omega arith))
        (λ i q m. indexed-Ends (length ts) v i q (expect right_bracket q) refl (omega arith) small)
  accessed-Ends v ts none none e d small = omega arith

  step-Ends : Lives (suc fuel) (step py context self)
  unfolding step
  step-Ends parse_or ts small =
      Ends-and_then (length ts) 1 1 _ _
        (call-Ends fuel self h parse_and ts (length ts) 1 (omega arith) (omega arith))
        (λ v r m. call-Ends fuel self h (or_loop v) r (length ts) 1 (omega arith) (omega arith))
  step-Ends parse_and ts small =
      Ends-and_then (length ts) 1 1 _ _
        (call-Ends fuel self h parse_not ts (length ts) 1 (omega arith) (omega arith))
        (λ v r m. call-Ends fuel self h (and_loop v) r (length ts) 1 (omega arith) (omega arith))
  step-Ends parse_not ts small = negated-Ends fuel self h ts (expect bang ts) refl small
  step-Ends parse_comparison ts small =
      Ends-and_then (length ts) 1 1 _ _
        (call-Ends fuel self h parse_primary ts (length ts) 1 (omega arith) (omega arith))
        (λ v r m.
          compared-Ends fuel self h (length ts) v r (expect equals r) (expect differs r) refl refl m
            (omega arith))
  step-Ends parse_primary ts small = primary-Ends ts (expect left_paren ts) refl (omega arith)
  step-Ends (or_loop v) ts small = more_or-Ends fuel self h v ts (expect bars ts) refl (omega arith)
  step-Ends (and_loop v) ts small =
      more_and-Ends fuel self h v ts (expect amps ts) refl (omega arith)
  step-Ends (parse_accessors v) ts small =
      accessed-Ends v ts (expect dot ts) (expect left_bracket ts) refl refl (omega arith)
  step-Ends (parse_arguments f vs) ts small =
      Ends-and_then (length ts) 1 1 _ _
        (call-Ends fuel self h parse_or ts (length ts) 1 (omega arith) (omega arith))
        (λ v r m.
          next_argument-Ends (length ts) f (vs ++ (v ∷ [])) r (expect comma r)
            (expect right_paren r) refl refl m (omega arith))

pub run-Ends : (py : Python) (context : Fields) (fuel : ℕ) → Lives fuel (run py context fuel)
unfolding run
run-Ends py context zero task ts small = omega arith
run-Ends py context (suc fuel) task ts small =
    step-Ends py context fuel (run py context fuel) (run-Ends py context fuel) task ts small
