-- ===== src/Expressions/JoinedTokens.antt =====
-- Tokens of a text without backslashes are those of the text before a closing parenthesis.
use Prim.Native.Char.{Char, code}
use github_emulator.Prelude.{
  ℕ, zero, suc, ◌+◌, ◌≤◌, ◌≡◌, refl, sym, ap, subst, String, Bool, true, false, ◌&&◌, ◌||◌, Option,
  none, some, List, ◌++◌, ◌==◌, nat_eq, if◌then◌else◌, arith,
}
use github_emulator.Prelude.Strings.{is, concat, Spanned, span, is_white, is_digit}
use github_emulator.Expressions.Tokens.{
  Lexeme, space, token, Token, Match, token_match, Scan, scanned, unsupported, no_fuel, add,
  scan_match, scan, symbol_match, is_name_start, is_name_part, fraction, number_match, starts_digit,
  numbered, name_match, space_match, integer_match, decimal, bars, amps, equals,
}
use github_emulator.Expressions.Joined.{
  plain, plain-tail, Stable, scan-Stable, closing, close_span, span-closing, Joined, Joined-if,
  second-Joined, bang-Joined, span-plain, string_end-Joined, quoted-Joined,
}

module _ (u : String) where
  abbrev fraction_by : Bool → Spanned → Spanned → Char → Match
  fraction_by b next r p =
      if b
      then record {
        lexeme = token (decimal (concat r.start (String.◌∷◌ p next.start)));
        rest = next.rest;
      }
      else integer_match r

  fraction_by-Joined :
      (b : Bool) (next r : Spanned) (p : Char)
      → plain next.rest ≡ true
      → plain r.rest ≡ true
      → Joined u
          (some (fraction_by b next r p))
          (some (fraction_by b (close_span u next) (close_span u r) p))
  fraction_by-Joined true next r p h k = (refl, h)
  fraction_by-Joined false next r p h k = (refl, k)

  starts-closing : (s : String) → starts_digit (closing u s) ≡ starts_digit s
  starts-closing String.[] = refl
  starts-closing (String.◌∷◌ c s) = refl

  fraction-Joined :
      (r : Spanned) (p : Char) (s : String)
      → plain r.rest ≡ true
      → plain s ≡ true
      → Joined u (some (fraction r p s)) (some (fraction (close_span u r) p (closing u s)))
  fraction-Joined r p s h k =
      let P = λ (b : Bool) (next : Spanned).
        Joined u (some (fraction r p s))
          (some (fraction_by (is b'.' p && b) next (close_span u r) p)) in
      subst (λ b. P b (span is_digit (closing u s))) (sym (starts-closing s))
        (subst (P (starts_digit s)) (sym (span-closing u is_digit s refl)) (
          fraction_by-Joined (is b'.' p && starts_digit s) (span is_digit s) r p
            (span-plain u is_digit s k) h))

  number-Joined :
      (r : Spanned) (s : String)
      → plain r.rest ≡ true
      → plain s ≡ true
      → Joined u (some (number_match r s)) (some (number_match (close_span u r) (closing u s)))
  number-Joined r String.[] h k = (refl, h)
  number-Joined r (String.◌∷◌ p s) h k = fraction-Joined r p s h (plain-tail p s k)

  symbol-Joined :
      (c : ℕ) (s : String)
      → plain s ≡ true
      → Joined u (symbol_match c s) (symbol_match c (closing u s))
  symbol-Joined c s h =
      Joined-if u (c == b'(') _ _ _ _ (λ _. (refl, h))
        λ _.
          Joined-if u (c == b')') _ _ _ _ (λ _. (refl, h))
            λ _.
              Joined-if u (c == b',') _ _ _ _ (λ _. (refl, h))
                λ _.
                  Joined-if u (c == b'[') _ _ _ _ (λ _. (refl, h))
                    λ _.
                      Joined-if u (c == b']') _ _ _ _ (λ _. (refl, h))
                        λ _. Joined-if u (c == b'.') _ _ _ _ (λ _. (refl, h)) (λ _. tt)

  -- What is made of the span of a text.
  span-Joined :
      (p : Char → Bool) (f : Spanned → Match) (s : String)
      → p ")" ≡ false
      → ((r : Spanned) → plain r.rest ≡ true → Joined u (some (f r)) (some (f (close_span u r))))
      → plain s ≡ true
      → Joined u (some (f (span p s))) (some (f (span p (closing u s))))
  span-Joined p f s e g h =
      subst (λ r. Joined u (some (f (span p s))) (some (f r))) (sym (span-closing u p s e))
        (g (span p s) (span-plain u p s h))

  token_match-Joined :
      (c : Char) (s : String)
      → plain (String.◌∷◌ c s) ≡ true
      → Joined u (token_match (String.◌∷◌ c s)) (token_match (String.◌∷◌ c (closing u s)))
  unfolding token_match
  token_match-Joined c s h =
      let k = plain-tail c s h in
      Joined-if u (is_white c) _ _ _ _
        (λ _. span-Joined is_white space_match (String.◌∷◌ c s) refl (λ r m. (refl, m)) h)
        λ _.
          Joined-if u (is b'|' c) _ _ _ _ (λ _. second-Joined u b'|' bars s k)
            λ _.
              Joined-if u (is b'&' c) _ _ _ _ (λ _. second-Joined u b'&' amps s k)
                λ _.
                  Joined-if u (is b'=' c) _ _ _ _ (λ _. second-Joined u b'=' equals s k)
                    λ _.
                      Joined-if u (is b'!' c) _ _ _ _ (λ _. bang-Joined u s k)
                        λ _.
                          Joined-if u (is b'\'' c || is b'"' c) _ _ _ _
                            (λ _. quoted-Joined u _ _ (string_end-Joined u (code c) s k))
                            λ _.
                              Joined-if u (is_digit c) _ _ _ _
                                (λ _.
                                  span-Joined is_digit numbered (String.◌∷◌ c s) refl
                                    (λ r m. number-Joined r r.rest m m) h)
                                λ _.
                                  Joined-if u (is_name_start c) _ _ _ _
                                    (λ _.
                                      span-Joined is_name_part name_match (String.◌∷◌ c s) refl
                                        (λ r m. (refl, m)) h)
                                    (λ _. symbol-Joined (code c) s k)

  module _ (us : List Token) where
    -- Scanned tokens, followed by more.
    abbrev pub Followed : Scan → Scan → Type 0
    Followed (scanned ts) y = y ≡ scanned (ts ++ us)
    Followed _ y = Unit

    add-Followed : (l : Lexeme) (x y : Scan) → Followed x y → Followed (add l x) (add l y)
    add-Followed space x y h = h
    add-Followed (token t) (scanned ts) y h = ap (add (token t)) h
    add-Followed (token t) unsupported y h = tt
    add-Followed (token t) no_fuel y h = tt

    match-Followed :
        (f g : String → Scan) (o p : Option Match)
        → Joined u o p
        → ((s : String) → plain s ≡ true → Followed (f s) (g (closing u s)))
        → Followed (scan_match f o) (scan_match g p)
    match-Followed f g none p h k = tt
    match-Followed f g (some m) p h k =
        subst (λ q. Followed (scan_match f (some m)) (scan_match g q)) (sym h.0)
          (add-Followed m.lexeme (f m.rest) (g (closing u m.rest)) (k m.rest h.1))

    pub scan-Followed :
        (m n k : ℕ) (s : String)
        → scan n (concat ")" u) ≡ scanned us
        → m + n ≤ k
        → plain s ≡ true
        → Followed (scan m s) (scan k (closing u s))
    unfolding scan
    scan-Followed m n k String.[] e h p =
        subst (λ x. Stable x (scan k (concat ")" u))) e
          (scan-Stable n k (concat ")" u) (omega arith))
    scan-Followed zero n k (String.◌∷◌ c s) e h p = tt
    scan-Followed (suc m) n zero (String.◌∷◌ c s) e h p = absurd (omega arith)
    scan-Followed (suc m) n (suc k) (String.◌∷◌ c s) e h p =
        match-Followed (scan m) (scan k) _ _ (token_match-Joined c s p)
          (λ t q. scan-Followed m n k t e (omega arith) q)
