-- ===== src/Expressions/Total.antt =====
-- The parser keeps within its fuel and takes tokens with it.
use github_emulator.Prelude.{
  ℕ, suc, ◌+◌, ◌*◌, ◌≤◌, ◌<◌, ◌≡◌, ap, Bool, true, false, Option, none, some, List, [], ◌∷◌,
  string_eq, arith, if◌then◌else◌,
}
use github_emulator.Prelude.Lists.{length}
use github_emulator.Value.{Value}
use github_emulator.Expressions.Values.{either_value, both_values}
use github_emulator.Expressions.Tokens.{
  Symbol, bars, amps, equals, differs, bang, right_paren, Token, op, quoted, integer, decimal, name,
}
use github_emulator.Expressions.Functions.{Outcome, value}
use github_emulator.Expressions.Parser.{
  Result, ok, refused, raised, beyond, no_fuel, Task, parse_or, parse_and, parse_not,
  parse_comparison, parse_primary, or_loop, and_loop, parse_accessors, parse_arguments, Calls,
  and_then, expect, same_symbol, more_or, more_and, negated, compared, closed, called,
}

-- Fuel was left, and `k` at least of `n` tokens were taken.
abbrev pub Ends : ℕ → ℕ → Result → Type 0
Ends n k (ok v r) = length r + k ≤ n
Ends n k refused = Unit
Ends n k raised = Unit
Ends n k beyond = Unit
Ends n k no_fuel = ⊥

pub Ends-and_then :
    (n k j : ℕ) (x : Result) (f : Value → List Token → Result)
    → Ends n k x
    → ((v : Value) (r : List Token) → length r + k ≤ n → Ends n j (f v r))
    → Ends n j (and_then x f)
Ends-and_then n k j (ok v r) f h g = g v r h
Ends-and_then n k j refused f h g = tt
Ends-and_then n k j raised f h g = tt
Ends-and_then n k j beyond f h g = tt
Ends-and_then n k j no_fuel f h g = absurd h

pub Ends-shift : (m j n k : ℕ) (x : Result) → m + k ≤ n + j → Ends m j x → Ends n k x
Ends-shift m j n k (ok v r) e h = omega arith
Ends-shift m j n k refused e h = tt
Ends-shift m j n k raised e h = tt
Ends-shift m j n k beyond e h = tt
Ends-shift m j n k no_fuel e h = absurd h

choose_some : (b : Bool) (ts r : List Token) → (if b then some ts else none) ≡ some r → ts ≡ r
choose_some true ts r h = cc
choose_some false ts r h = cc

pub expect-length :
    (s : Symbol) (ts r : List Token) → expect s ts ≡ some r → length ts ≡ length r + 1
unfolding expect
expect-length s [] r h = cc
expect-length s (op t ∷ ts) r h =
    let e = ap length (choose_some (same_symbol s t) ts r h) in omega arith
expect-length s (quoted x ∷ ts) r h = cc
expect-length s (integer x ∷ ts) r h = cc
expect-length s (decimal x ∷ ts) r h = cc
expect-length s (name x ∷ ts) r h = cc

abbrev pub rank : Task → ℕ
rank parse_primary = 1
rank parse_comparison = 2
rank parse_not = 3
rank parse_and = 4
rank parse_or = 5
rank (parse_arguments f vs) = 6
rank _ = 0

-- Loops may take nothing.
abbrev pub taken : Task → ℕ
taken (or_loop v) = 0
taken (and_loop v) = 0
taken (parse_accessors v) = 0
taken _ = 1

abbrev pub Lives : ℕ → Calls → Type 0
Lives fuel self =
    (task : Task) (ts : List Token)
    → 8 * length ts + rank task < fuel
    → Ends (length ts) (taken task) (self task ts)

module _ (fuel : ℕ) (self : Calls) (h : Lives fuel self) where
  -- A call on fewer tokens.
  pub call-Ends :
      (task : Task) (ts : List Token) (n k : ℕ)
      → 8 * length ts + rank task < fuel
      → length ts + k ≤ n + taken task
      → Ends n k (self task ts)
  call-Ends task ts n k small e =
      Ends-shift (length ts) (taken task) n k (self task ts) e (h task ts small)

  pub more_or-Ends :
      (v : Value) (ts : List Token) (o : Option (List Token))
      → expect bars ts ≡ o
      → 8 * length ts < suc fuel
      → Ends (length ts) 0 (more_or self v ts o)
  more_or-Ends v ts none e small = omega arith
  more_or-Ends v ts (some r) e small =
      let l = expect-length bars ts r e in
      Ends-and_then (length ts) 2 0 _ _
        (call-Ends parse_and r (length ts) 2 (omega arith) (omega arith))
        (λ w q m.
          call-Ends (or_loop (either_value v w)) q (length ts) 0 (omega arith) (omega arith))

  pub more_and-Ends :
      (v : Value) (ts : List Token) (o : Option (List Token))
      → expect amps ts ≡ o
      → 8 * length ts < suc fuel
      → Ends (length ts) 0 (more_and self v ts o)
  more_and-Ends v ts none e small = omega arith
  more_and-Ends v ts (some r) e small =
      let l = expect-length amps ts r e in
      Ends-and_then (length ts) 2 0 _ _
        (call-Ends parse_not r (length ts) 2 (omega arith) (omega arith))
        (λ w q m.
          call-Ends (and_loop (both_values v w)) q (length ts) 0 (omega arith) (omega arith))

  pub negated-Ends :
      (ts : List Token) (o : Option (List Token))
      → expect bang ts ≡ o
      → 8 * length ts + 3 < suc fuel
      → Ends (length ts) 1 (negated self ts o)
  negated-Ends ts none e small =
      call-Ends parse_comparison ts (length ts) 1 (omega arith) (omega arith)
  negated-Ends ts (some r) e small =
      let l = expect-length bang ts r e in
      Ends-and_then (length ts) 1 1 _ _
        (call-Ends parse_not r (length ts) 1 (omega arith) (omega arith)) (λ v q m. omega arith)

  pub compared-Ends :
      (n : ℕ) (v : Value) (ts : List Token) (o p : Option (List Token))
      → expect equals ts ≡ o
      → expect differs ts ≡ p
      → length ts + 1 ≤ n
      → 8 * n < suc fuel
      → Ends n 1 (compared self v ts o p)
  unfolding compared
  compared-Ends n v ts (some r) p e d m small =
      let l = expect-length equals ts r e in
      Ends-and_then n 1 1 _ _ (call-Ends parse_primary r n 1 (omega arith) (omega arith))
        (λ w q x. omega arith)
  compared-Ends n v ts none (some r) e d m small =
      let l = expect-length differs ts r d in
      Ends-and_then n 1 1 _ _ (call-Ends parse_primary r n 1 (omega arith) (omega arith))
        (λ w q x. omega arith)
  compared-Ends n v ts none none e d m small = omega arith

  -- Accessors on what is left of `n` tokens.
  pub accessors-Ends :
      (n k : ℕ) (v : Value) (ts : List Token)
      → length ts + k ≤ n
      → 8 * length ts < fuel
      → Ends n k (self (parse_accessors v) ts)
  accessors-Ends n k v ts m small = call-Ends (parse_accessors v) ts n k (omega arith) (omega arith)

  pub called-Ends :
      (n k : ℕ) (o : Outcome) (ts : List Token)
      → length ts + k ≤ n
      → 8 * length ts < fuel
      → Ends n k (called self o ts)
  called-Ends n k (value v) ts m small = accessors-Ends n k v ts m small
  called-Ends n k Outcome.refused ts m small = tt
  called-Ends n k Outcome.raised ts m small = tt

  pub closed-Ends :
      (n : ℕ) (v : Value) (ts : List Token) (o : Option (List Token))
      → expect right_paren ts ≡ o
      → length ts + 1 ≤ n
      → 8 * n < suc fuel
      → Ends n 1 (closed self v o)
  closed-Ends n v ts none e m small = tt
  closed-Ends n v ts (some r) e m small =
      let l = expect-length right_paren ts r e in accessors-Ends n 1 v r (omega arith) (omega arith)
