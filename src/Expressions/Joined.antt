-- ===== src/Expressions/Joined.antt =====
-- A text without backslashes is scanned alike before a closing parenthesis.
use Prim.Native.Char.{Char}
use github_emulator.Prelude.{
  ℕ, zero, suc, ◌≤◌, ◌≡◌, refl, sym, ap, subst, String, Bool, true, false, not, ◌&&◌, Option, none,
  some, nat_eq, if◌then◌else◌, arith, if_cases,
}
use github_emulator.Prelude.Strings.{is, concat, Spanned, span}
use github_emulator.Expressions.Tokens.{
  Symbol, Lexeme, space, token, Match, string_end, quoted_match, token_match, Scan, scanned,
  unsupported, no_fuel, add, scan_match, scan, prepend, second, bang_or_differs,
}

-- No backslash in it, so that no string ends elsewhere when text is added.
abbrev pub plain : String → Bool
plain String.[] = true
plain (String.◌∷◌ c s) = not (is b'\\' c) && plain s

pub plain-tail : (c : Char) (s : String) → plain (String.◌∷◌ c s) ≡ true → plain s ≡ true
plain-tail c s h = ground arith

pub plain-head :
    (c : Char) (b : Bool) (s : String) → plain (String.◌∷◌ c s) ≡ true → (is b'\\' c && b) ≡ false
plain-head c b s h = ground arith

-- Results that agree unless the first ran out of fuel.
abbrev pub Stable : Scan → Scan → Type 0
Stable no_fuel y = Unit
Stable x y = y ≡ x

pub add-Stable : (l : Lexeme) (x y : Scan) → Stable x y → Stable (add l x) (add l y)
add-Stable space x y h = h
add-Stable (token t) (scanned ts) y h = ap (add (token t)) h
add-Stable (token t) unsupported y h = ap (add (token t)) h
add-Stable (token t) no_fuel y h = tt

pub match-Stable :
    (f g : String → Scan) (o : Option Match)
    → ((s : String) → Stable (f s) (g s))
    → Stable (scan_match f o) (scan_match g o)
match-Stable f g none h = refl
match-Stable f g (some m) h = add-Stable m.lexeme (f m.rest) (g m.rest) (h m.rest)

pub scan-Stable : (m n : ℕ) (s : String) → m ≤ n → Stable (scan m s) (scan n s)
unfolding scan
scan-Stable m n String.[] h = refl
scan-Stable zero n (String.◌∷◌ c s) h = tt
scan-Stable (suc m) zero (String.◌∷◌ c s) h = absurd (omega arith)
scan-Stable (suc m) (suc n) (String.◌∷◌ c s) h =
    match-Stable (scan m) (scan n) (token_match (String.◌∷◌ c s))
      (λ t. scan-Stable m n t (omega arith))

module _ (u : String) where
  abbrev pub closing : String → String
  closing s = concat s (concat ")" u)

  abbrev pub close_span : Spanned → Spanned
  close_span r = record r { rest = closing r.rest }

  pub span-if :
      (b : Bool) (c : Char) (s : String) (r : Spanned)
      → (if b
          then record { start = String.◌∷◌ c r.start; rest = closing r.rest }
          else record { start = String.[]; rest = closing (String.◌∷◌ c s) })
        ≡ close_span (
            if b
            then record { start = String.◌∷◌ c r.start; rest = r.rest }
            else record { start = String.[]; rest = String.◌∷◌ c s })
  span-if true c s r = refl
  span-if false c s r = refl

  pub span-closing :
      (p : Char → Bool) (s : String) → p ")" ≡ false → span p (closing s) ≡ close_span (span p s)
  span-closing p String.[] h =
      ap
        (λ (b : Bool).
          if b
          then record { start = String.◌∷◌ ")" (span p u).start; rest = (span p u).rest }
          else record { start = String.[]; rest = concat ")" u })
        h
  span-closing p (String.◌∷◌ c s) h =
      subst
        (λ (r : Spanned).
          (if p c
            then record { start = String.◌∷◌ c r.start; rest = r.rest }
            else record { start = String.[]; rest = closing (String.◌∷◌ c s) })
          ≡ close_span (span p (String.◌∷◌ c s)))
        (sym (span-closing p s h)) (span-if (p c) c s (span p s))

  -- The same match, with the longer rest, which has no backslash before the parenthesis.
  abbrev pub Joined : Option Match → Option Match → Type 0
  Joined none y = Unit
  Joined (some m) y =
      (y ≡ some (record { lexeme = m.lexeme; rest = closing m.rest })) × (plain m.rest ≡ true)

  pub Joined-if :
      (b : Bool) (x y x' y' : Option Match)
      → (b ≡ true → Joined x x')
      → (b ≡ false → Joined y y')
      → Joined (if b then x else y) (if b then x' else y')
  Joined-if true x y x' y' h k = h refl
  Joined-if false x y x' y' h k = k refl

  pub second-Joined :
      (k : ℕ) (t : Symbol) (s : String)
      → plain s ≡ true
      → Joined (second k t s) (second k t (closing s))
  second-Joined k t String.[] h = tt
  second-Joined k t (String.◌∷◌ c s) h =
      Joined-if (is k c) _ _ _ _ (λ e. (refl, plain-tail c s h)) (λ e. tt)

  pub bang-Joined :
      (s : String) → plain s ≡ true → Joined (bang_or_differs s) (bang_or_differs (closing s))
  bang-Joined String.[] h = (refl, refl)
  bang-Joined (String.◌∷◌ c s) h =
      Joined-if (is b'=' c) _ _ _ _ (λ e. (refl, plain-tail c s h)) (λ e. (refl, h))

  pub span-plain : (p : Char → Bool) (s : String) → plain s ≡ true → plain (span p s).rest ≡ true
  span-plain p String.[] h = refl
  span-plain p (String.◌∷◌ c s) h =
      let k = span-plain p s (plain-tail c s h) in
      if_cases (λ (r : Spanned). plain r.rest ≡ true) (p c) (λ e. k) (λ e. h)

  abbrev pub JoinedSpan : Option Spanned → Option Spanned → Type 0
  JoinedSpan none y = Unit
  JoinedSpan (some r) y = (y ≡ some (close_span r)) × (plain r.rest ≡ true)

  pub prepend-Joined :
      (c : Char) (x y : Option Spanned) → JoinedSpan x y → JoinedSpan (prepend c x) (prepend c y)
  prepend-Joined c none y h = tt
  prepend-Joined c (some r) y h = (ap (prepend c) h.0, h.1)

  pub JoinedSpan-elim :
      (b : Bool) (x y x' y' : Option Spanned)
      → (b ≡ true → JoinedSpan x x')
      → (b ≡ false → JoinedSpan y y')
      → JoinedSpan (elim b [ true ↦ x | false ↦ y ]) (elim b [ true ↦ x' | false ↦ y' ])
  JoinedSpan-elim true x y x' y' h k = h refl
  JoinedSpan-elim false x y x' y' h k = k refl

  pub last-Joined :
      (b : Bool) (y : Option Spanned)
      → JoinedSpan
          (if b then some (record { start = String.[]; rest = String.[] }) else none)
          (elim b [ true ↦ some (record { start = String.[]; rest = concat ")" u }) | false ↦ y ])
  last-Joined true y = (refl, refl)
  last-Joined false y = tt

  pub string_end-Joined :
      (q : ℕ) (s : String) → plain s ≡ true → JoinedSpan (string_end q s) (string_end q (closing s))
  unfolding string_end
  string_end-Joined q String.[] h = tt
  string_end-Joined q (String.◌∷◌ c String.[]) h = last-Joined (is q c) _
  string_end-Joined q (String.◌∷◌ c (String.◌∷◌ d s)) h =
      JoinedSpan-elim (is q c) _ _ _ _ (λ e. (refl, plain-tail c (String.◌∷◌ d s) h))
        λ e.
          JoinedSpan-elim (is b'\\' c && not (is 10 d)) _ _ _ _
            (λ k. absurd (let z = plain-head c (not (is 10 d)) (String.◌∷◌ d s) h in cc))
            (λ k.
              prepend-Joined c _ _
                (string_end-Joined q (String.◌∷◌ d s) (plain-tail c (String.◌∷◌ d s) h)))

  pub quoted-Joined :
      (x y : Option Spanned) → JoinedSpan x y → Joined (quoted_match x) (quoted_match y)
  quoted-Joined none y h = tt
  quoted-Joined (some r) y h = (ap quoted_match h.0, h.1)
