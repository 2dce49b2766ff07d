-- ===== src/RefUpdates/Examples.antt =====
-- A small git whose refs are a function, and a batch that moves one branch and creates another.
use mathlib.Core.Bool.{false≢true}
use github_emulator.Prelude.{
  ◌≡◌, ◌≢◌, refl, sym, ap, ◌∙◌, subst, Bool, true, false, not, ◌&&◌, Option, none, some, List, [],
  ◌∷◌, ◌==◌, nat_eq, if◌then◌else◌, beq_eq, beq_refl, arith, ℕ, Bool-cases, inl, inr, if_cases, ◌⊎◌,
}
use github_emulator.Prelude.Rows.{Rel, All, All-mono, all-All}
use github_emulator.Prelude.Lists.{all}
use github_emulator.Prelude.Text.{Text, codes, text_eq, text_test}
use github_emulator.RefUpdates.Plan.{
  is_oid, zero_oid, Git, Command, RefUpdate, PlannedUpdate, ok, plan,
}
use github_emulator.RefUpdates.Apply.{
  target, old, new, same, apply, Transactional, IsLine, IsValue, distinct, written,
}
use github_emulator.RefUpdates.Checked.{Checked}
use github_emulator.RefUpdates.Atomic.{IsPlanned, AllOrNone, apply-AllOrNone, same-eq}
use github_emulator.RefUpdates.Planned.{Updated, plan-Checked, plan-apply-Updated}

abbrev Refs : Type 0
Refs = Text → Option Text

-- A value that `rev-parse` would not print is none.
abbrev shown : Option Text → Option Text
shown none = none
shown (some v) = if is_oid v && not (v == zero_oid) then some v else none

abbrev transact : Refs → List Command → ℕ × Refs
transact refs cs =
    if distinct cs && all (λ c. same (shown (refs (target c))) (old c)) cs
    then (0, written cs refs)
    else (1, refs)

abbrev git : Git Refs
git = record {
  check_ref_format = λ name. 0;
  rev_parse = λ refs name. shown (refs name);
  cat_file = λ refs oid. (0, codes "commit");
  is_ancestor = λ refs a b. 0;
  update_ref = transact;
}

and_left : (a b : Bool) → (a && b) ≡ true → a ≡ true
and_left a b h = ground arith

and_right : (a b : Bool) → (a && b) ≡ true → b ≡ true
and_right a b h = ground arith

not-eq : (b : Bool) → not b ≡ true → b ≡ false
not-eq true h = cc
not-eq false h = refl

eq-not : (b : Bool) → b ≡ false → not b ≡ true
eq-not b h = ground arith

zero_apart : (v : Text) → v ≢ zero_oid → (v == zero_oid) ≡ false
zero_apart v h = elim (Bool-cases (v == zero_oid)) [
  | inl e ↦ absurd (h (beq_eq v zero_oid e))
  | inr e ↦ e
]

shown-IsValue : (o : Option Text) → IsValue (shown o)
shown-IsValue none = tt
shown-IsValue (some v) =
    if_cases IsValue (is_oid v && not (v == zero_oid))
      (λ e. (
        and_left (is_oid v) _ e,
        λ z. false≢true (
            sym (not-eq (v == zero_oid) (and_right (is_oid v) _ e))
            ∙ subst (λ x. (v == x) ≡ true) z (beq_refl v)),
      ))
      (λ e. tt)

and_intro : (a b : Bool) → a ≡ true → b ≡ true → (a && b) ≡ true
and_intro a b h k = ground arith

shown-same : (o : Option Text) → IsValue o → shown o ≡ o
shown-same none h = refl
shown-same (some v) h =
    ap (λ b. if b then some v else none)
      (and_intro (is_oid v) _ h.0 (eq-not (v == zero_oid) (zero_apart v h.1)))

shown-written :
    (cs : List Command) (refs : Refs) (name : Text)
    → All (IsLine git) cs
    → shown (written cs refs name) ≡ written cs (λ n. shown (refs n)) name
shown-written [] refs name h = refl
shown-written (c ∷ cs) refs name h = elim (Bool-cases (target c == name)) [
  | inl e ↦
      ap (λ b. shown (if b then new c else written cs refs name)) e
      ∙ shown-same (new c) h.0.2
      ∙ sym (ap (λ b. if b then new c else written cs (λ n. shown (refs n)) name) e)
  | inr e ↦
      ap (λ b. shown (if b then new c else written cs refs name)) e
      ∙ shown-written cs refs name h.1
      ∙ sym (ap (λ b. if b then new c else written cs (λ n. shown (refs n)) name) e)
]

Honest : Refs → List Command → ℕ × Refs → Type 0
Honest refs cs r =
    (r.0 ≡ 0
      → (distinct cs ≡ true)
        × All (λ c. shown (refs (target c)) ≡ old c) cs
        × ((name : Text) → shown (r.1 name) ≡ written cs (λ n. shown (refs n)) name))
    × (r.0 ≢ 0 → r.1 ≡ refs)

transact-Honest :
    (refs : Refs) (cs : List Command) → All (IsLine git) cs → Honest refs cs (transact refs cs)
unfolding Honest
transact-Honest refs cs full =
    if_cases (Honest refs cs) (distinct cs && all (λ c. same (shown (refs (target c))) (old c)) cs)
      (λ e. (
        λ z. (
          and_left (distinct cs) _ e,
          All-mono _ _ cs (λ c p. same-eq (shown (refs (target c))) (old c) p)
              (all-All _ cs (and_right (distinct cs) _ e)),
          λ name. shown-written cs refs name full,
        ),
        λ n. absurd (n refl),
      ))
      (λ e. (λ z. cc, λ n. refl))

undone_refs :
    (refs : Refs) (cs : List Command) → (transact refs cs).0 ≢ 0 → (transact refs cs).1 ≡ refs
undone_refs refs cs =
    if_cases (λ (r : ℕ × Refs). r.0 ≢ 0 → r.1 ≡ refs)
      (distinct cs && all (λ c. same (shown (refs (target c))) (old c)) cs) (λ e n. absurd (n refl))
      (λ e n. refl)

laws : Transactional git
unfolding Honest
laws = record {
  verified = λ refs cs full e. let r = (transact-Honest refs cs full).0 e in (r.0, r.1);
  done = λ refs cs full e name valid. ((transact-Honest refs cs full).0 e).2 name;
  undone = undone_refs;
  printed = λ refs name valid. shown-IsValue (refs name);
}

abbrev one : Text
one = codes "1111111111111111111111111111111111111111"

abbrev two : Text
two = codes "2222222222222222222222222222222222222222"

abbrev refs : Refs
refs name = if name == codes "refs/heads/main" then some one else none

abbrev batch : List RefUpdate
batch =
    (record {
      name = codes "refs/heads/main";
      before_oid = some one;
      after_oid = some two;
      force = false;
    })
    ∷ (record {
      name = codes "refs/heads/topic";
      before_oid = none;
      after_oid = some one;
      force = false;
    })
    ∷ []

abbrev planned : List PlannedUpdate
planned =
    (record { name = codes "refs/heads/main"; before = some one; after = some two; forced = false })
    ∷ (record { name = codes "refs/heads/topic"; before = none; after = some one; forced = false })
    ∷ []

accepted : plan git refs batch ≡ ok planned
unfolding plan text_test
accepted = refl

plan-Checked_example : Rel (Checked git refs) batch planned
plan-Checked_example = plan-Checked git refs batch planned accepted

one-IsValue : IsValue (some one)
unfolding text_test
one-IsValue = (refl, λ z. false≢true (ap (λ x. x == one) (sym z)))

two-IsValue : IsValue (some two)
unfolding text_test
two-IsValue = (refl, λ z. false≢true (ap (λ x. x == two) (sym z)))

planned-IsPlanned : All (IsPlanned git) planned
unfolding text_test
planned-IsPlanned =
    (((refl, refl), one-IsValue, two-IsValue), (((refl, refl), tt, one-IsValue), tt))

apply-AllOrNone_example : AllOrNone git laws refs planned (apply git refs planned)
apply-AllOrNone_example = apply-AllOrNone git laws refs planned planned-IsPlanned

plan-apply-Updated_example :
    (((apply git refs planned).0 ≢ none) × ((apply git refs planned).1 ≡ refs))
    ⊎ (((apply git refs planned).0 ≡ none) × Updated git laws refs (apply git refs planned).1 batch)
plan-apply-Updated_example = plan-apply-Updated git laws refs batch planned accepted

batch_applies : (apply git refs planned).0 ≡ none
unfolding apply text_test
batch_applies = refl
