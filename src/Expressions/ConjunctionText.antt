-- ===== src/Expressions/ConjunctionText.antt =====
-- The text of a conjunction: it is its own body, and its tokens are those of its parts in
-- parentheses.
use Prim.Native.Char.{Char}
use github_emulator.Prelude.{
  ℕ, suc, ◌+◌, ◌≡◌, refl, sym, ap, ◌∙◌, subst, String, true, List, [], ◌∷◌, ◌++◌, arith,
}
use github_emulator.Prelude.Strings.{concat, strip, rstrip, put_back, size}
use github_emulator.Expressions.Tokens.{
  amps, left_paren, right_paren, Token, op, space, token, Scan, scanned, unsupported, no_fuel, scan,
  add, tokenize,
}
use github_emulator.Expressions.Scanned.{scan-Finished, Finished}
use github_emulator.Expressions.Joined.{plain, closing, Stable, scan-Stable}
use github_emulator.Expressions.JoinedTokens.{scan-Followed, Followed}
use github_emulator.Expressions.Evaluate.{unwrap}
use github_emulator.Expressions.Conditions.{conjunction}

-- A text with no white space at its end, and not empty.
abbrev Tight : String → Type 0
Tight t = (c : Char) × (s : String) × (t ≡ String.◌∷◌ c s) × (rstrip t ≡ t)

put_back-Tight : (c : Char) (t : String) → Tight t → put_back c t ≡ String.◌∷◌ c t
put_back-Tight c t (d, s, e, k) = subst (λ x. put_back c x ≡ String.◌∷◌ c x) (sym e) refl

concat-Tight : (s t : String) → Tight t → Tight (concat s t)
concat-Tight String.[] t h = h
concat-Tight (String.◌∷◌ c s) t h =
    let (d, r, e, k) = concat-Tight s t h in
    (c, concat s t, refl, ap (put_back c) k ∙ put_back-Tight c (concat s t) (d, r, e, k))

pub unwrap-conjunction : (a b : String) → unwrap (strip (conjunction a b)) ≡ conjunction a b
unfolding unwrap
unwrap-conjunction a b =
    let (d, r, e, k) =
      concat-Tight "(" _
        (concat-Tight a _ (concat-Tight ") && (" _ (concat-Tight b ")" (")", "", refl, refl)))) in
    ap unwrap k

agrees : (x y : Scan) (ts : List Token) → Finished x → Stable x y → y ≡ scanned ts → x ≡ scanned ts
agrees (scanned us) y ts f h e = sym h ∙ e
agrees unsupported y ts f h e = sym h ∙ e
agrees no_fuel y ts f h e = absurd f

-- Any fuel that gives tokens gives those of the text.
pub scan-tokenize :
    (n : ℕ) (s : String) (ts : List Token) → scan n s ≡ scanned ts → tokenize s ≡ scanned ts
scan-tokenize n s ts e =
    agrees (tokenize s) (scan (n + size s) s) ts (scan-Finished (size s) s (omega arith))
      (scan-Stable (size s) (n + size s) s (omega arith))
      (subst (λ x. Stable x (scan (n + size s) s)) e (scan-Stable n (n + size s) s (omega arith)))

scan-before :
    (u s : String) (us ts : List Token) (m n : ℕ)
    → plain s ≡ true
    → scan m s ≡ scanned ts
    → scan n (concat ")" u) ≡ scanned us
    → scan (m + n) (closing u s) ≡ scanned (ts ++ us)
scan-before u s us ts m n p d e =
    subst (λ x. Followed u us x (scan (m + n) (closing u s))) d
      (scan-Followed u us m n (m + n) s e (omega arith) p)

close_alone : scan 1 (concat ")" "") ≡ scanned (op right_paren ∷ [])
unfolding scan
close_alone = refl

-- `) && (` before a text.
scan-middle :
    (n : ℕ) (s : String)
    → scan (suc (suc (suc (suc (suc n))))) (concat ") && (" s)
      ≡ add
          (token (op right_paren))
          (add space (add (token (op amps)) (add space (add (token (op left_paren)) (scan n s)))))
unfolding scan
scan-middle n s = refl

pub tokenize-conjunction :
    (a b : String) (ts us : List Token)
    → plain a ≡ true
    → plain b ≡ true
    → tokenize a ≡ scanned ts
    → tokenize b ≡ scanned us
    → tokenize (conjunction a b)
      ≡ scanned (
          op left_paren
          ∷ (ts ++ (op right_paren ∷ op amps ∷ op left_paren ∷ (us ++ (op right_paren ∷ [])))))
unfolding scan
tokenize-conjunction a b ts us p q h k =
    let n = size b + 1 in
    let five = suc (suc (suc (suc (suc n)))) in
    let second = scan-before "" b (op right_paren ∷ []) us (size b) 1 q k close_alone in
    let middle =
      scan-middle n (concat b ")")
      ∙ ap
          (λ r.
            add (token (op right_paren))
              (add space (add (token (op amps)) (add space (add (token (op left_paren)) r)))))
          second in
    let first = scan-before (concat " && (" (concat b ")")) a _ ts (size a) five p h middle in
    scan-tokenize (suc (size a + five)) (conjunction a b) _ (ap (add (token (op left_paren))) first)
