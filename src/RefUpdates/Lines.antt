-- ===== src/RefUpdates/Lines.antt =====
-- The lines of a transaction one after another: what they leave at the refs that they name, and
-- at others.
use github_emulator.Prelude.{
  ◌≡◌, ◌≢◌, refl, sym, ap, ◌∙◌, subst, Bool, true, false, not, Option, List, [], ◌∷◌, ◌==◌, nat_eq,
  if◌then◌else◌, beq_eq, beq_refl, arith, Bool-cases, inl, inr,
}
use github_emulator.Prelude.Rows.{All, all-All}
use github_emulator.Prelude.Text.{Text, text_eq}
use github_emulator.RefUpdates.Plan.{Command}
use github_emulator.RefUpdates.Apply.{target, new, distinct, written}

not-true : (b : Bool) → not b ≡ true → b ≢ true
not-true true h e = cc
not-true false h e = cc

pub All-zip :
    (P Q S : Command → Type 0) (cs : List Command)
    → ((c : Command) → P c → Q c → S c)
    → All P cs
    → All Q cs
    → All S cs
All-zip P Q S [] f p q = tt
All-zip P Q S (c ∷ cs) f p q = (f c p.0 q.0, All-zip P Q S cs f p.1 q.1)

pub written-others :
    (cs : List Command) (refs : Text → Option Text) (name : Text)
    → All (λ c. target c ≢ name) cs
    → written cs refs name ≡ refs name
written-others [] refs name h = refl
written-others (c ∷ cs) refs name h = elim (Bool-cases (target c == name)) [
  | inl e ↦ absurd (h.0 (beq_eq (target c) name e))
  | inr e ↦ ap (λ b. if b then new c else written cs refs name) e ∙ written-others cs refs name h.1
]

unequal : (a b : Text) → not (a == b) ≡ true → (b == a) ≡ false
unequal a b h = elim (Bool-cases (b == a)) [
  | inl e ↦
      absurd (not-true (a == b) h (subst (λ x. (a == x) ≡ true) (sym (beq_eq b a e)) (beq_refl a)))
  | inr e ↦ e
]

pub written-done :
    (cs : List Command) (refs : Text → Option Text)
    → distinct cs ≡ true
    → All (λ c. written cs refs (target c) ≡ new c) cs
written-done [] refs h = tt
written-done (c ∷ cs) refs h = (
  ap (λ b. if b then new c else written cs refs (target c)) (beq_refl (target c)),
  All-zip _ _ _ cs
      (λ d q r.
        ap (λ b. if b then new c else written cs refs (target d)) (unequal (target d) (target c) q)
        ∙ r)
      (all-All _ cs (ground arith)) (written-done cs refs (ground arith)),
)
