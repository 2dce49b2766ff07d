-- ===== src/JobGraph/Loop.antt =====
-- `visit` and its loop run from a state to one that extends it.
use github_emulator.Prelude.{
  ℕ, zero, suc, ◌≡◌, refl, sym, ap, ◌∙◌, subst, String, Bool, true, false, Bool-cases, Option, none,
  some, List, [], ◌∷◌, string_eq, inl, inr, if◌then◌else◌, arith, beq_refl,
}
use github_emulator.JobGraph.Sort.{
  mem, State, visit_all, by_key, append, finished, visit_job, visit, and_then,
}
use github_emulator.Prelude.Rows.{All}
use github_emulator.JobGraph.Visits.{
  Extends, Extends-refl, Extends-trans, Extends-missing, Extends-append, by_key-has, by_key-none,
}

pub some_inj : {A : Type 0} {a b : A} → some a ≡ some b → a ≡ b
some_inj h = cc

pub choose_true : {A : Type 0} {b : Bool} (x y : A) → b ≡ true → (if b then x else y) ≡ x
choose_true x y e = ap (λ c. if c then x else y) e

pub choose_false : {A : Type 0} {b : Bool} (x y : A) → b ≡ false → (if b then x else y) ≡ y
choose_false x y e = ap (λ c. if c then x else y) e

-- The first visit of a loop, and the rest.
module _ {A : Type 0} (step : String → State A → Option (State A)) where
  pub visit_all-cons :
      (k : String) (ks : List String) (a c : State A)
      → visit_all step (k ∷ ks) a ≡ some c
      → (b : State A) × (step k a ≡ some b) × (visit_all step ks b ≡ some c)
  visit_all-cons k ks a c h = split (step k a) refl h
    where
      split :
          (o : Option (State A))
          → step k a ≡ o
          → and_then o (visit_all step ks) ≡ some c
          → (b : State A) × (step k a ≡ some b) × (visit_all step ks b ≡ some c)
      split none e g = cc
      split (some b) e g = (b, e, g)

pub finished-some :
    {A : Type 0} (job : A) (o : Option (State A)) (c : State A)
    → finished job o ≡ some c
    → (b : State A) × (o ≡ some b) × (append job b ≡ c)
finished-some job none c h = cc
finished-some job (some b) c h = (b, refl, cc)

module _ {A : Type 0} (key : A → String) (needs : A → List String) (jobs : List A) where
  -- What is shown of one visit: the state is extended, and the key is visited.
  abbrev pub Visited : (String → State A → Option (State A)) → Type 0
  Visited step =
      (k : String) (a b : State A)
      → step k a ≡ some b
      → Extends key jobs a b × (mem k b.visited ≡ true)

  pub Extends-All :
      (step : String → State A → Option (State A))
      → Visited step
      → (ks : List String) (a c : State A) → visit_all step ks a ≡ some c
      → Extends key jobs a c × All (λ k. mem k c.visited ≡ true) ks
  Extends-All step v [] a c h =
      (subst (Extends key jobs a) (some_inj h) (Extends-refl key jobs a), tt)
  Extends-All step v (k ∷ ks) a c h =
      let (b, e, g) = visit_all-cons step k ks a c h in
      let one = v k a b e in
      let rest = Extends-All step v ks b c g in
      (Extends-trans key jobs a b c one.0 rest.0, (rest.0.kept k one.1, rest.1))

  visit_job-Extends :
      (step : String → State A → Option (State A))
      → Visited step
      → (k : String) (o : Option A) (a b : State A) → by_key key jobs k ≡ o
      → mem k a.visited ≡ false
      → visit_job needs step o (record a { visited = k ∷ a.visited }) ≡ some b
      → Extends key jobs a b × (mem k b.visited ≡ true)
  visit_job-Extends step v k none a b e n h =
      subst (λ (x : State A). Extends key jobs a x × (mem k x.visited ≡ true)) (some_inj h)
        (
          Extends-missing key jobs k a (by_key-none key jobs k e),
          (let y = beq_refl k in ground arith),
        )
  visit_job-Extends step v k (some job) a b e n h =
      let (c, g, q) = finished-some job _ b h in
      let inner = Extends-All step v (needs job) (record a { visited = k ∷ a.visited }) c g in
      subst (λ (x : State A). Extends key jobs a x × (mem k x.visited ≡ true)) q
        (
          Extends-append key jobs k job a c (by_key-has key jobs k job e).0 n inner.0,
          inner.0.kept k (let y = beq_refl k in ground arith),
        )

  pub visit-Extends : (fuel : ℕ) → Visited (visit key needs jobs fuel)
  unfolding visit
  visit-Extends zero k a b h = cc
  visit-Extends (suc fuel) k a b h = elim (Bool-cases (mem k a.visited)) [
    | inl e ↦
        let q : a ≡ b = some_inj (sym (choose_true _ _ e) ∙ h) in
        subst (λ (x : State A). Extends key jobs a x × (mem k x.visited ≡ true)) q
          (Extends-refl key jobs a, e)
    | inr e ↦
        visit_job-Extends (visit key needs jobs fuel) (visit-Extends fuel) k (by_key key jobs k) a b
          refl e (sym (choose_false _ _ e) ∙ h)
  ]
