-- ===== src/Prelude/Text.antt =====
-- Python `str` methods on texts that are walked: a text is the list of its code points. Case
-- folding is that of ASCII.
use Prim.Native.Char.{code}
use Prim.Native.String.{String}
use mathlib.Core.Path.{◌≡◌, refl, ap₂}
use mathlib.Core.List.{List, [], ◌∷◌, ◌++◌, map, reverse}
use native.Mathlib.Omega.{arith}
use github_emulator.Prelude.{
  ℕ, ◌+◌, ◌-◌, Bool, true, false, ◌&&◌, ◌||◌, Option, none, some, leb, Eq, ◌==◌, nat_eq,
  if◌then◌else◌, beq_refl, beq_eq,
}

abbrev pub Text : Type 0
Text = List ℕ

-- A literal.
abbrev pub codes : String → Text
codes String.[] = []
codes (String.◌∷◌ c s) = code c ∷ codes s

unfoldable pub text_test : Text → Text → Bool
text_test [] [] = true
text_test (c ∷ s) (d ∷ t) = c == d && text_test s t
text_test _ _ = false

pub text_test_sound : (s t : Text) → text_test s t ≡ true → s ≡ t
unfolding text_test
text_test_sound [] [] h = refl
text_test_sound [] (d ∷ t) h = cc
text_test_sound (c ∷ s) [] h = cc
text_test_sound (c ∷ s) (d ∷ t) h =
    ap₂ {C = Text} (λ a b. a ∷ b) (beq_eq c d (ground arith)) (text_test_sound s t (ground arith))

pub text_test_refl : (s : Text) → text_test s s ≡ true
unfolding text_test
text_test_refl [] = refl
text_test_refl (c ∷ s) = ground (arith, beq_refl c, text_test_refl s)

instance abbrev pub text_eq : Eq Text
text_eq = record { test = text_test; test_sound = text_test_sound; test_refl = text_test_refl }

abbrev pub lower : Text → Text
lower = map (λ c. if leb b'A' c && leb c b'Z' then c + 32 else c)

abbrev pub upper : Text → Text
upper = map (λ c. if leb b'a' c && leb c b'z' then c - 32 else c)

-- s.split(c, 1)[0]
abbrev pub before : ℕ → Text → Text
before c [] = []
before c (d ∷ s) = let rest = before c s in if d == c then [] else d ∷ rest

pub before-append : (c : ℕ) (s t : Text) → before c (s ++ c ∷ t) ≡ before c s
before-append c [] t = ground (arith, beq_refl c)
before-append c (d ∷ s) t = ground (arith, before-append c s t)

abbrev pub drop_while : (ℕ → Bool) → Text → Text
drop_while p [] = []
drop_while p (c ∷ s) = elim (p c) [ true ↦ drop_while p s | false ↦ c ∷ s ]

-- s.strip(…), for the characters that `p` tells
abbrev pub strip_by : (ℕ → Bool) → Text → Text
strip_by p s = reverse (drop_while p (reverse (drop_while p s)))

-- The white space of `s.strip()`, in ASCII.
abbrev pub is_space : ℕ → Bool
is_space c = c == 32 || (leb 9 c && leb c 13) || (leb 28 c && leb c 31)

-- s[len(prefix):] if s.startswith(prefix)
abbrev pub after_prefix : Text → Text → Option Text
after_prefix [] s = some s
after_prefix (c ∷ p) [] = none
after_prefix (c ∷ p) (d ∷ s) = let rest = after_prefix p s in if c == d then rest else none

abbrev pub push_char : ℕ → List Text → List Text
push_char c [] = (c ∷ []) ∷ []
push_char c (w ∷ ws) = (c ∷ w) ∷ ws

-- s.split(c)
abbrev pub split : ℕ → Text → List Text
split c [] = [] ∷ []
split c (d ∷ s) = let rest = split c s in if d == c then [] ∷ rest else push_char d rest

abbrev pub is_empty_text : Text → Bool
is_empty_text [] = true
is_empty_text _ = false
