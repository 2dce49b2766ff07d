-- ===== src/Expressions/FramedSteps.antt =====
-- Each step of the parser reads the same tokens before a closing parenthesis.
use github_emulator.Prelude.{
  ℕ, zero, suc, ◌≤◌, ◌≡◌, refl, sym, subst, String, false, Option, none, some, List, [], ◌∷◌, ◌++◌,
  ◌==◌, string_eq, arith,
}
use github_emulator.Prelude.Strings.{split}
use github_emulator.Value.{Fields, Value}
use github_emulator.Expressions.Values.{Python, index_value, index_parts, lookup_context_value}
use github_emulator.Expressions.Tokens.{
  Symbol, bars, amps, equals, differs, bang, left_paren, right_paren, comma, left_bracket,
  right_bracket, dot, Token, op, quoted, integer, decimal, name,
}
use github_emulator.Expressions.Functions.{call}
use github_emulator.Expressions.Parser.{
  Result, parse_or, parse_and, parse_not, parse_comparison, parse_primary, or_loop, and_loop,
  parse_accessors, parse_arguments, Calls, expect, same_symbol, more_or, more_and, negated,
  compared, called, argument_list, next_argument, constant_or_path, named, operand, primary,
  property, indexed, accessed, step, run,
}
use github_emulator.Expressions.Framed.{
  NotOk, arguments-NotOk, before_close, lift, expect-cons, expect-before_close, expect_found,
  Framed, Framed-NotOk, Framed-and_then, Framed-if, Frames, more_or-Framed, more_and-Framed,
  negated-Framed, compared-Framed, closed-Framed, called-Framed,
}

module _ (u : List Token) (py : Python) (context : Fields) (self more : Calls)
    (h : Frames u self more) where
  -- A function's arguments never end with the tokens.
  abbrev pub ArgumentsNotOk : Type 0
  ArgumentsNotOk = (f : String) (vs : List Value) → NotOk (self (parse_arguments f vs) [])

  argument_list-Framed :
      (f : String) (ts : List Token) (o : Option (List Token))
      → expect right_paren ts ≡ o
      → ArgumentsNotOk
      → Framed u (argument_list py context self f ts o) (
          argument_list py context more f
            (before_close u ts)
            (expect right_paren (before_close u ts)))
  unfolding argument_list
  argument_list-Framed f [] none e a = Framed-NotOk u _ _ (a f [])
  argument_list-Framed f (t ∷ ts) none e a =
      subst
        (λ o.
          Framed u (self (parse_arguments f []) (t ∷ ts))
            (argument_list py context more f (before_close u (t ∷ ts)) o))
        (sym (
          subst (λ o. expect right_paren (before_close u (t ∷ ts)) ≡ lift u o) e
            (expect-cons u right_paren t ts)))
        (h (parse_arguments f []) (t ∷ ts))
  argument_list-Framed f ts (some r) e a =
      subst
        (λ o.
          Framed u (called self (call py f []) r)
            (argument_list py context more f (before_close u ts) o))
        (sym (expect_found u right_paren ts r e)) (called-Framed u self more h (call py f []) r)

  next_argument-Framed :
      (f : String) (vs : List Value) (ts : List Token) (o p : Option (List Token))
      → expect right_paren ts ≡ p
      → Framed u
          (next_argument py context self f vs o p)
          (next_argument py context more f vs (lift u o) (expect right_paren (before_close u ts)))
  unfolding next_argument
  next_argument-Framed f vs ts (some r) p e = h (parse_arguments f vs) r
  next_argument-Framed f vs ts none none e = tt
  next_argument-Framed f vs ts none (some r) e =
      subst
        (λ o. Framed u (called self (call py f vs) r) (next_argument py context more f vs none o))
        (sym (expect_found u right_paren ts r e)) (called-Framed u self more h (call py f vs) r)

  constant_or_path-Framed :
      (s : String) (ts : List Token)
      → Framed u
          (constant_or_path py context self s ts)
          (constant_or_path py context more s (before_close u ts))
  unfolding constant_or_path
  constant_or_path-Framed s ts = Framed-if u (s == "true") _ _ _ _ refl (
      Framed-if u (s == "false") _ _ _ _ refl (
        Framed-if u (s == "null") _ _ _ _ refl
          (h (parse_accessors (lookup_context_value context s)) ts)))

  named-Framed :
      (s : String) (ts : List Token) (o : Option (List Token))
      → ArgumentsNotOk
      → Framed u
          (named py context self s ts o)
          (named py context more s (before_close u ts) (lift u o))
  unfolding named
  named-Framed s ts none a = constant_or_path-Framed s ts
  named-Framed s ts (some r) a = argument_list-Framed s r (expect right_paren r) refl a

  operand-Framed :
      (ts : List Token)
      → ArgumentsNotOk
      → Framed u (operand py context self ts) (operand py context more (before_close u ts))
  unfolding operand
  operand-Framed [] a = tt
  operand-Framed (op s ∷ ts) a = tt
  operand-Framed (quoted s ∷ ts) a = refl
  operand-Framed (integer s ∷ ts) a = refl
  operand-Framed (decimal s ∷ ts) a = tt
  operand-Framed (name s ∷ ts) a =
      subst
        (λ o.
          Framed u (named py context self s ts (expect left_paren ts))
            (named py context more s (before_close u ts) o))
        (sym (expect-before_close u left_paren ts refl))
        (named-Framed s ts (expect left_paren ts) a)

  primary-Framed :
      (ts : List Token) (o : Option (List Token))
      → ArgumentsNotOk
      → Framed u
          (primary py context self ts o)
          (primary py context more (before_close u ts) (lift u o))
  unfolding primary
  primary-Framed ts none a = operand-Framed ts a
  primary-Framed ts (some r) a =
      Framed-and_then u _ _ _ _ (h parse_or r)
        (λ v q. closed-Framed u self more h v q (expect right_paren q) refl)

  property-Framed :
      (v : Value) (ts : List Token)
      → Framed u (property py context self v ts) (property py context more v (before_close u ts))
  property-Framed v [] = tt
  property-Framed v (op s ∷ ts) = tt
  property-Framed v (quoted s ∷ ts) = tt
  property-Framed v (integer s ∷ ts) = tt
  property-Framed v (decimal s ∷ ts) = tt
  property-Framed v (name s ∷ ts) = h (parse_accessors (index_parts py v (split b'.' s))) ts

  indexed-Framed :
      (v i : Value) (o : Option (List Token))
      → Framed u (indexed py context self v i o) (indexed py context more v i (lift u o))
  unfolding indexed
  indexed-Framed v i none = tt
  indexed-Framed v i (some r) = h (parse_accessors (index_value py v i)) r

  accessed-Framed :
      (v : Value) (ts : List Token) (o p : Option (List Token))
      → Framed u
          (accessed py context self v ts o p)
          (accessed py context more v (before_close u ts) (lift u o) (lift u p))
  unfolding accessed
  accessed-Framed v ts (some r) p = property-Framed v r
  accessed-Framed v ts none (some r) = Framed-and_then u _ _ _ _ (h parse_or r) (λ i q.
      subst
        (λ o.
          Framed u (indexed py context self v i (expect right_bracket q))
            (indexed py context more v i o))
        (sym (expect-before_close u right_bracket q refl))
        (indexed-Framed v i (expect right_bracket q)))
  accessed-Framed v ts none none = refl

  -- The symbol that a step looks for is not the parenthesis that follows.
  after :
      (s : Symbol) (ts : List Token) (x : Result) (f : Option (List Token) → Result)
      → same_symbol s right_paren ≡ false
      → Framed u x (f (lift u (expect s ts)))
      → Framed u x (f (expect s (before_close u ts)))
  after s ts x f e k = subst (λ o. Framed u x (f o)) (sym (expect-before_close u s ts e)) k

  step-Framed : ArgumentsNotOk → Frames u (step py context self) (step py context more)
  unfolding step
  step-Framed a parse_or ts = Framed-and_then u _ _ _ _ (h parse_and ts) (λ v r. h (or_loop v) r)
  step-Framed a parse_and ts = Framed-and_then u _ _ _ _ (h parse_not ts) (λ v r. h (and_loop v) r)
  step-Framed a (or_loop v) ts =
      after bars ts _ (more_or more v (before_close u ts)) refl
        (more_or-Framed u self more h v ts (expect bars ts))
  step-Framed a (and_loop v) ts =
      after amps ts _ (more_and more v (before_close u ts)) refl
        (more_and-Framed u self more h v ts (expect amps ts))
  step-Framed a parse_not ts =
      after bang ts _ (negated more (before_close u ts)) refl
        (negated-Framed u self more h ts (expect bang ts))
  step-Framed a parse_comparison ts = Framed-and_then u _ _ _ _ (h parse_primary ts) (λ v r.
      after equals r _
        (λ o. compared more v (before_close u r) o (expect differs (before_close u r))) refl
        (after differs r _ (λ p. compared more v (before_close u r) (lift u (expect equals r)) p)
          refl (compared-Framed u self more h v r (expect equals r) (expect differs r))))
  step-Framed a parse_primary ts =
      after left_paren ts _ (primary py context more (before_close u ts)) refl
        (primary-Framed ts (expect left_paren ts) a)
  step-Framed a (parse_accessors v) ts =
      after dot ts _
        (λ o.
          accessed py context more v (before_close u ts) o
            (expect left_bracket (before_close u ts)))
        refl
        (after left_bracket ts _
          (λ p. accessed py context more v (before_close u ts) (lift u (expect dot ts)) p) refl
          (accessed-Framed v ts (expect dot ts) (expect left_bracket ts)))
  step-Framed a (parse_arguments f vs) ts = Framed-and_then u _ _ _ _ (h parse_or ts) (λ v r.
      after comma r _
        (λ o.
          next_argument py context more f (vs ++ (v ∷ [])) o
            (expect right_paren (before_close u r)))
        refl
        (next_argument-Framed f (vs ++ (v ∷ [])) r (expect comma r) (expect right_paren r) refl))

-- With more fuel as well.
pub run-Framed :
    (u : List Token) (py : Python) (context : Fields) (m n : ℕ)
    → m ≤ n
    → Frames u (run py context m) (run py context n)
unfolding run
run-Framed u py context zero n h task ts = tt
run-Framed u py context (suc m) zero h task ts = absurd (omega arith)
run-Framed u py context (suc m) (suc n) h task ts =
    step-Framed u py context (run py context m) (run py context n)
      (run-Framed u py context m n (omega arith)) (arguments-NotOk py context m) task ts
