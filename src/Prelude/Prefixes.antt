-- ===== src/Prelude/Prefixes.antt =====
-- What `without_prefix` gives, and back.
use text.Mathlib.TextEquality.{Char-path}
use Prim.Native.Char.{code}
use github_emulator.Prelude.{
  String, ◌≡◌, ◌≢◌, refl, sym, ap, ◌∙◌, Bool-cases, none, some, ◌==◌, nat_eq, inl, inr, beq_eq,
  beq_refl, if◌then◌else◌,
}
use github_emulator.Prelude.Strings.{concat, without_prefix}

pub without_prefix-concat : (p s : String) → without_prefix p (concat p s) ≡ some s
without_prefix-concat String.[] s = refl
without_prefix-concat (String.◌∷◌ c p) s =
    ap (λ b. if b then without_prefix p (concat p s) else none) (beq_refl (code c))
    ∙ without_prefix-concat p s

pub without_prefix-some : (p s r : String) → without_prefix p s ≡ some r → s ≡ concat p r
without_prefix-some String.[] s r h = cc
without_prefix-some (String.◌∷◌ c p) String.[] r h = cc
without_prefix-some (String.◌∷◌ c p) (String.◌∷◌ d s) r h = elim (Bool-cases (code c == code d)) [
  | inl e ↦
      let k : without_prefix p s ≡ some r =
        sym (ap (λ b. if b then without_prefix p s else none) e) ∙ h in
      ap (λ x. String.◌∷◌ x s) (sym (Char-path c d (beq_eq (code c) (code d) e)))
      ∙ ap (String.◌∷◌ c) (without_prefix-some p s r k)
  | inr e ↦
      absurd
        (let k : none ≡ some r = sym (ap (λ b. if b then without_prefix p s else none) e) ∙ h in cc)
]

pub without_prefix-none : (p s r : String) → without_prefix p s ≡ none → s ≢ concat p r
without_prefix-none p s r h e =
    let k : none ≡ some r = sym h ∙ ap (without_prefix p) e ∙ without_prefix-concat p r in cc
