-- ===== src/Expressions/Framed.antt =====
-- What the parser reads from a whole list of tokens it reads as well from the same tokens before a
-- closing parenthesis.
use github_emulator.Prelude.{
  ℕ, zero, suc, ◌≡◌, refl, ap, sym, subst, String, Bool, true, false, Option, none, some, List, [],
  ◌∷◌, ◌++◌, string_eq, if◌then◌else◌,
}
use github_emulator.Value.{Fields, Value}
use github_emulator.Expressions.Values.{Python, either_value, both_values}
use github_emulator.Expressions.Tokens.{
  Symbol, right_paren, Token, op, quoted, integer, decimal, name,
}
use github_emulator.Expressions.Functions.{Outcome, value}
use github_emulator.Expressions.Parser.{
  Result, ok, refused, raised, beyond, no_fuel, Task, parse_or, parse_and, parse_not,
  parse_comparison, parse_primary, or_loop, and_loop, parse_accessors, parse_arguments, Calls,
  and_then, expect, same_symbol, more_or, more_and, negated, compared, closed, called, run,
}

abbrev pub NotOk : Result → Type 0
NotOk (ok v r) = ⊥
NotOk _ = Unit

NotOk-and_then : (x : Result) (f : Value → List Token → Result) → NotOk x → NotOk (and_then x f)
NotOk-and_then (ok v r) f h = absurd h
NotOk-and_then refused f h = tt
NotOk-and_then raised f h = tt
NotOk-and_then beyond f h = tt
NotOk-and_then no_fuel f h = tt

module _ (py : Python) (context : Fields) where
  primary-NotOk : (fuel : ℕ) → NotOk (run py context fuel parse_primary [])
  unfolding run
  primary-NotOk zero = tt
  primary-NotOk (suc fuel) = tt

  comparison-NotOk : (fuel : ℕ) → NotOk (run py context fuel parse_comparison [])
  unfolding run
  comparison-NotOk zero = tt
  comparison-NotOk (suc fuel) = NotOk-and_then _ _ (primary-NotOk fuel)

  not-NotOk : (fuel : ℕ) → NotOk (run py context fuel parse_not [])
  unfolding run
  not-NotOk zero = tt
  not-NotOk (suc fuel) = comparison-NotOk fuel

  and-NotOk : (fuel : ℕ) → NotOk (run py context fuel parse_and [])
  unfolding run
  and-NotOk zero = tt
  and-NotOk (suc fuel) = NotOk-and_then _ _ (not-NotOk fuel)

  or-NotOk : (fuel : ℕ) → NotOk (run py context fuel parse_or [])
  unfolding run
  or-NotOk zero = tt
  or-NotOk (suc fuel) = NotOk-and_then _ _ (and-NotOk fuel)

  pub arguments-NotOk :
      (fuel : ℕ) (f : String) (vs : List Value)
      → NotOk (run py context fuel (parse_arguments f vs) [])
  unfolding run
  arguments-NotOk zero f vs = tt
  arguments-NotOk (suc fuel) f vs = NotOk-and_then _ _ (or-NotOk fuel)

module _ (u : List Token) where
  abbrev pub before_close : List Token → List Token
  before_close ts = ts ++ (op right_paren ∷ u)

  abbrev pub lift : Option (List Token) → Option (List Token)
  lift none = none
  lift (some r) = some (before_close r)

  lift-if :
      (b : Bool) (ts : List Token)
      → (if b then some (before_close ts) else none) ≡ lift (if b then some ts else none)
  lift-if true ts = refl
  lift-if false ts = refl

  pub expect-cons :
      (s : Symbol) (t : Token) (ts : List Token)
      → expect s (before_close (t ∷ ts)) ≡ lift (expect s (t ∷ ts))
  unfolding expect
  expect-cons s (op t) ts = lift-if (same_symbol s t) ts
  expect-cons s (quoted x) ts = refl
  expect-cons s (integer x) ts = refl
  expect-cons s (decimal x) ts = refl
  expect-cons s (name x) ts = refl

  pub expect-before_close :
      (s : Symbol) (ts : List Token)
      → same_symbol s right_paren ≡ false
      → expect s (before_close ts) ≡ lift (expect s ts)
  unfolding expect
  expect-before_close s [] h = ap (λ b. if b then some u else none) h
  expect-before_close s (t ∷ ts) h = expect-cons s t ts

  pub expect_found :
      (s : Symbol) (ts r : List Token)
      → expect s ts ≡ some r
      → expect s (before_close ts) ≡ some (before_close r)
  unfolding expect
  expect_found s [] r h = cc
  expect_found s (t ∷ ts) r h =
      subst (λ o. expect s (before_close (t ∷ ts)) ≡ lift o) h (expect-cons s t ts)

  -- A result on the shorter list is that on the longer one.
  abbrev pub Framed : Result → Result → Type 0
  Framed (ok v r) y = y ≡ ok v (before_close r)
  Framed _ y = Unit

  pub Framed-NotOk : (x y : Result) → NotOk x → Framed x y
  Framed-NotOk (ok v r) y h = absurd h
  Framed-NotOk refused y h = tt
  Framed-NotOk raised y h = tt
  Framed-NotOk beyond y h = tt
  Framed-NotOk no_fuel y h = tt

  pub Framed-and_then :
      (x y : Result) (f g : Value → List Token → Result)
      → Framed x y
      → ((v : Value) (r : List Token) → Framed (f v r) (g v (before_close r)))
      → Framed (and_then x f) (and_then y g)
  Framed-and_then (ok v r) y f g h k = subst (λ z. Framed (f v r) (and_then z g)) (sym h) (k v r)
  Framed-and_then refused y f g h k = tt
  Framed-and_then raised y f g h k = tt
  Framed-and_then beyond y f g h k = tt
  Framed-and_then no_fuel y f g h k = tt

  pub Framed-if :
      (b : Bool) (x y x' y' : Result)
      → Framed x x'
      → Framed y y'
      → Framed (if b then x else y) (if b then x' else y')
  Framed-if true x y x' y' h k = h
  Framed-if false x y x' y' h k = k

  abbrev pub Frames : Calls → Calls → Type 0
  Frames self more =
      (task : Task) (ts : List Token) → Framed (self task ts) (more task (before_close ts))

  module _ (self more : Calls) (h : Frames self more) where
    pub more_or-Framed :
        (v : Value) (ts : List Token) (o : Option (List Token))
        → Framed (more_or self v ts o) (more_or more v (before_close ts) (lift o))
    more_or-Framed v ts none = refl
    more_or-Framed v ts (some r) =
        Framed-and_then _ _ _ _ (h parse_and r) (λ w q. h (or_loop (either_value v w)) q)

    pub more_and-Framed :
        (v : Value) (ts : List Token) (o : Option (List Token))
        → Framed (more_and self v ts o) (more_and more v (before_close ts) (lift o))
    more_and-Framed v ts none = refl
    more_and-Framed v ts (some r) =
        Framed-and_then _ _ _ _ (h parse_not r) (λ w q. h (and_loop (both_values v w)) q)

    pub negated-Framed :
        (ts : List Token) (o : Option (List Token))
        → Framed (negated self ts o) (negated more (before_close ts) (lift o))
    negated-Framed ts none = h parse_comparison ts
    negated-Framed ts (some r) = Framed-and_then _ _ _ _ (h parse_not r) (λ v q. refl)

    pub compared-Framed :
        (v : Value) (ts : List Token) (o p : Option (List Token))
        → Framed (compared self v ts o p) (compared more v (before_close ts) (lift o) (lift p))
    unfolding compared
    compared-Framed v ts (some r) p = Framed-and_then _ _ _ _ (h parse_primary r) (λ w q. refl)
    compared-Framed v ts none (some r) = Framed-and_then _ _ _ _ (h parse_primary r) (λ w q. refl)
    compared-Framed v ts none none = refl

    pub closed-Framed :
        (v : Value) (ts : List Token) (o : Option (List Token))
        → expect right_paren ts ≡ o
        → Framed (closed self v o) (closed more v (expect right_paren (before_close ts)))
    closed-Framed v ts none e = tt
    closed-Framed v ts (some r) e =
        subst (λ o. Framed (closed self v (some r)) (closed more v o))
          (sym (expect_found right_paren ts r e)) (h (parse_accessors v) r)

    pub called-Framed :
        (o : Outcome) (ts : List Token)
        → Framed (called self o ts) (called more o (before_close ts))
    called-Framed (value v) ts = h (parse_accessors v) ts
    called-Framed Outcome.refused ts = tt
    called-Framed Outcome.raised ts = tt
