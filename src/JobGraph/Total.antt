-- ===== src/JobGraph/Total.antt =====
-- The sort ends, and lists every job once.
use github_emulator.Prelude.{
  ℕ, zero, suc, ◌+◌, ◌<◌, ◌≤◌, ◌≡◌, refl, sym, ap, ◌∙◌, subst, String, true, false, Bool-cases,
  Option, none, some, List, [], ◌∷◌, ◌==◌, string_eq, inl, inr, if◌then◌else◌, arith, beq_eq,
  beq_refl,
}
use github_emulator.Prelude.Lists.{length}
use github_emulator.JobGraph.Sort.{
  mem, State, and_then, visit_all, by_key, append, finished, visit_job, visit,
}
use github_emulator.JobGraph.Visits.{has, by_key-has}
use github_emulator.JobGraph.Loop.{Visited, visit-Extends, choose_true, choose_false}

pub other_way : (x y : String) → (y == x) ≡ false → (x == y) ≡ false
other_way x y h = elim (Bool-cases (x == y)) [
  | inl e ↦ let q : (y == x) ≡ true = subst (λ z. (z == x) ≡ true) (beq_eq x y e) (beq_refl x) in cc
  | inr e ↦ e
]

module _ {A : Type 0} (key : A → String) where
  -- How many jobs have a key that is not visited.
  abbrev pub unvisited : List String → List A → ℕ
  unvisited v [] = 0
  unvisited v (j ∷ jobs) = let rest = unvisited v jobs in if mem (key j) v then rest else 1 + rest

  unvisited-le :
      (v w : List String) (jobs : List A)
      → ((k : String) → mem k v ≡ true → mem k w ≡ true)
      → unvisited w jobs ≤ unvisited v jobs
  unvisited-le v w [] h = omega arith
  unvisited-le v w (j ∷ jobs) h = elim (Bool-cases (mem (key j) v)) [
    | inl e ↦ let k = h (key j) e in ground (arith, unvisited-le v w jobs h)
    | inr e ↦ ground (arith, unvisited-le v w jobs h)
  ]

  unvisited-lt :
      (k : String) (v : List String) (jobs : List A)
      → has key k jobs ≡ true
      → mem k v ≡ false
      → unvisited (k ∷ v) jobs < unvisited v jobs
  unvisited-lt k v [] h n = cc
  unvisited-lt k v (j ∷ jobs) h n = elim (Bool-cases (key j == k)) [
    | inl e ↦
        let q : key j ≡ k = beq_eq (key j) k e in
        let m : mem (key j) v ≡ false = subst (λ x. mem x v ≡ false) (sym q) n in
        let y : (k == key j) ≡ true = subst (λ x. (k == x) ≡ true) (sym q) (beq_refl k) in
        ground (arith, unvisited-le v (k ∷ v) jobs (λ x p. ground arith))
    | inr e ↦
        let ne : (k == key j) ≡ false = other_way k (key j) e in
        ground (arith, unvisited-lt k v jobs (ground arith) n)
  ]

  pub unvisited-length : (v : List String) (jobs : List A) → unvisited v jobs ≤ length jobs
  unvisited-length v [] = omega arith
  unvisited-length v (j ∷ jobs) = ground (arith, unvisited-length v jobs)

module _ {A : Type 0} (key : A → String) (needs : A → List String) (jobs : List A) where
  abbrev pub Ends : ℕ → (String → State A → Option (State A)) → Type 0
  Ends n step =
      (k : String) (a : State A)
      → unvisited key a.visited jobs < n
      → (b : State A) × (step k a ≡ some b)

  pub all-Ends :
      (n : ℕ) (step : String → State A → Option (State A))
      → Visited key needs jobs step
      → Ends n step
      → (ks : List String) (a : State A) → unvisited key a.visited jobs < n
      → (b : State A) × (visit_all step ks a ≡ some b)
  all-Ends n step v e [] a h = (a, refl)
  all-Ends n step v e (k ∷ ks) a h =
      let (b, p) = e k a h in
      let small = unvisited-le key a.visited b.visited jobs ((v k a b p).0.kept) in
      let (c, q) = all-Ends n step v e ks b (omega arith) in
      (c, ap (λ o. and_then o (visit_all step ks)) p ∙ q)

  job-Ends :
      (fuel : ℕ) (k : String) (o : Option A) (a : State A)
      → by_key key jobs k ≡ o
      → mem k a.visited ≡ false
      → Ends fuel (visit key needs jobs fuel)
      → unvisited key a.visited jobs < suc fuel
      → (b : State A) × (visit_job needs
            (visit key needs jobs fuel)
            o
            (record a { visited = k ∷ a.visited })
          ≡ some b)
  job-Ends fuel k none a e n ends h = (record a { visited = k ∷ a.visited }, refl)
  job-Ends fuel k (some job) a e n ends h =
      let less = unvisited-lt key k a.visited jobs (by_key-has key jobs k job e).1 n in
      let (b, q) =
        all-Ends fuel (visit key needs jobs fuel) (visit-Extends key needs jobs fuel) ends
          (needs job) (record a { visited = k ∷ a.visited }) (omega arith) in
      (append job b, ap (finished job) q)

  pub visit-Ends : (fuel : ℕ) → Ends fuel (visit key needs jobs fuel)
  unfolding visit
  visit-Ends zero k a h = absurd (omega arith)
  visit-Ends (suc fuel) k a h = elim (Bool-cases (mem k a.visited)) [
    | inl e ↦ (a, choose_true _ _ e)
    | inr e ↦
        let (b, q) = job-Ends fuel k (by_key key jobs k) a refl e (visit-Ends fuel) h in
        (b, choose_false _ _ e ∙ q)
  ]
