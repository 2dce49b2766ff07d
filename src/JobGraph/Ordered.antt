-- ===== src/JobGraph/Ordered.antt =====
-- Where the needs have no cycle, every job is listed after those it needs.
use github_emulator.Prelude.{
  ℕ, zero, suc, ◌<◌, ◌≡◌, ◌⊎◌, refl, sym, ◌∙◌, subst, String, true, false, ◌||◌, Bool-cases, Option,
  none, some, List, [], ◌∷◌, ◌++◌, ◌+◌, ◌==◌, string_eq, inl, inr, arith, beq_eq,
}
use github_emulator.Prelude.Lists.{length}
use github_emulator.Prelude.Rows.{All, All-mono, All-intro}
use github_emulator.JobGraph.Sort.{
  mem, State, visit_all, by_key, keys_of, visit_job, visit, result_of, topo_sort,
}
use github_emulator.JobGraph.Visits.{has, Extends, by_key-has, by_key-All}
use github_emulator.JobGraph.Loop.{
  Visited, Extends-All, visit-Extends, visit_all-cons, finished-some, choose_true, choose_false,
  some_inj,
}

either_key :
    {A : Type 0} (k x : String) (a : State A)
    → mem x (k ∷ a.visited) ≡ true
    → (k ≡ x) ⊎ (mem x a.visited ≡ true)
either_key k x a m = elim (Bool-cases (k == x)) [
  | inl e ↦ inl (beq_eq k x e)
  | inr e ↦ inr (ground arith)
]

module _ {A : Type 0} (key : A → String) (needs : A → List String) (jobs : List A) where
  -- Each job's needs are keys of no job, or were seen or listed before.
  abbrev pub Ordered : List String → List A → Type 0
  Ordered seen [] = Unit
  Ordered seen (j ∷ r) =
      All (λ d. (has key d jobs ≡ false) ⊎ (mem d seen ≡ true)) (needs j) × Ordered (key j ∷ seen) r

  Ordered-snoc :
      (seen : List String) (r : List A) (j : A)
      → Ordered seen r
      → All (λ d. (has key d jobs ≡ false) ⊎ ((mem d seen || has key d r) ≡ true)) (needs j)
      → Ordered seen (r ++ (j ∷ []))
  Ordered-snoc seen [] j o h = (
    All-mono _ _ (needs j)
        (λ d (p : (has key d jobs ≡ false) ⊎ ((mem d seen || false) ≡ true)). elim p [
          | inl x ↦ inl x
          | inr x ↦ inr (ground arith)
        ])
        h,
    tt,
  )
  Ordered-snoc seen (i ∷ r) j o h = (
    o.0,
    Ordered-snoc (key i ∷ seen) r j o.1 (
        All-mono _ _ (needs j)
          (λ d (p : (has key d jobs ≡ false) ⊎ ((mem d seen || has key d (i ∷ r)) ≡ true)). elim p [
            | inl x ↦ inl x
            | inr x ↦ inr (ground arith)
          ])
          h),
  )

  module _ (depth : String → ℕ)
      (acyclic : All (λ j. All (λ d. depth d < depth (key j)) (needs j)) jobs) where
    acyclic_at :
        (k : String) (j : A) → by_key key jobs k ≡ some j → All (λ d. depth d < depth k) (needs j)
    acyclic_at k j e =
        subst (λ x. All (λ d. depth d < depth x) (needs j)) (by_key-has key jobs k j e).0
          (by_key-All key (λ j. All (λ d. depth d < depth (key j)) (needs j)) jobs k j e acyclic)

    -- The visited jobs that are not listed yet are all deeper than the key.
    abbrev Above : String → State A → Type 0
    Above k a =
        (x : String)
        → mem x a.visited ≡ true
        → (has key x jobs ≡ false) ⊎ (has key x a.result ≡ true) ⊎ (depth k < depth x)

    Above-Extends : (k : String) (a b : State A) → Above k a → Extends key jobs a b → Above k b
    Above-Extends k a b h f x m = elim (f.settled x m) [
      | inl p ↦ elim (h x p) [
        | inl q ↦ inl q
        | inr (inl q) ↦ inr (inl (f.listed x q))
        | inr (inr q) ↦ inr (inr q)
      ]
      | inr (inl p) ↦ inl p
      | inr (inr p) ↦ inr (inl p)
    ]

    -- A visited key is listed, where it is a job's.
    listed_after :
        (k : String) (a b : State A)
        → Above k a
        → Extends key jobs a b
        → mem k b.visited ≡ true
        → (has key k jobs ≡ false) ⊎ (has key k b.result ≡ true)
    listed_after k a b h f m = elim (Above-Extends k a b h f k m) [
      | inl q ↦ inl q
      | inr (inl q) ↦ inr q
      | inr (inr q) ↦ absurd (omega arith)
    ]

    abbrev KeepsOrder : (String → State A → Option (State A)) → Type 0
    KeepsOrder step =
        (k : String) (a b : State A)
        → step k a ≡ some b
        → Above k a
        → Ordered [] a.result
        → Ordered [] b.result

    All-Ordered :
        (step : String → State A → Option (State A))
        → Visited key needs jobs step
        → KeepsOrder step
        → (ks : List String) (a c : State A) → visit_all step ks a ≡ some c
        → All (λ k. Above k a) ks
        → Ordered [] a.result
        → Ordered [] c.result × All (λ k. (has key k jobs ≡ false) ⊎ (has key k c.result ≡ true)) ks
    All-Ordered step v g [] a c h p o =
        (subst (λ (x : State A). Ordered [] x.result) (some_inj h) o, tt)
    All-Ordered step v g (k ∷ ks) a c h p o =
        let (b, e, r) = visit_all-cons step k ks a c h in
        let f = v k a b e in
        let rest =
          All-Ordered step v g ks b c r (All-mono _ _ ks (λ x q. Above-Extends x a b q f.0) p.1)
            (g k a b e p.0 o) in
        let onward = (Extends-All key needs jobs step v ks b c r).0 in
        (
          rest.0,
          (
            elim (listed_after k a b p.0 f.0 f.1) [
              | inl q ↦ inl q
              | inr q ↦ inr (onward.listed k q)
            ],
            rest.1,
          ),
        )

    Above-mark :
        (k d : String) (a : State A)
        → depth d < depth k
        → Above k a
        → Above d (record a { visited = k ∷ a.visited })
    Above-mark k d a less h x m = elim (either_key k x a m) [
      | inl e ↦ inr (inr (subst (λ y. depth d < depth y) e less))
      | inr e ↦ elim (h x e) [
        | inl q ↦ inl q
        | inr (inl q) ↦ inr (inl q)
        | inr (inr q) ↦ inr (inr (omega arith))
      ]
    ]

    job-Ordered :
        (step : String → State A → Option (State A))
        → Visited key needs jobs step
        → KeepsOrder step
        → (k : String) (o : Option A) (a b : State A) → by_key key jobs k ≡ o
        → visit_job needs step o (record a { visited = k ∷ a.visited }) ≡ some b
        → Above k a
        → Ordered [] a.result
        → Ordered [] b.result
    job-Ordered step v g k none a b e h p q =
        subst (λ (x : State A). Ordered [] x.result) (some_inj h) q
    job-Ordered step v g k (some job) a b e h p q =
        let (c, r, z) = finished-some job _ b h in
        let inner =
          All-Ordered step v g (needs job) (record a { visited = k ∷ a.visited }) c r
            (All-mono _ _ (needs job) (λ d less. Above-mark k d a less p) (acyclic_at k job e)) q in
        subst (λ (x : State A). Ordered [] x.result) z
          (Ordered-snoc [] c.result job inner.0 inner.1)

    visit-Ordered : (fuel : ℕ) → KeepsOrder (visit key needs jobs fuel)
    unfolding visit
    visit-Ordered zero k a b h p o = cc
    visit-Ordered (suc fuel) k a b h p o = elim (Bool-cases (mem k a.visited)) [
      | inl e ↦
          subst (λ (x : State A). Ordered [] x.result) (some_inj (sym (choose_true _ _ e) ∙ h)) o
      | inr e ↦
          job-Ordered (visit key needs jobs fuel) (visit-Extends key needs jobs fuel)
            (visit-Ordered fuel) k (by_key key jobs k) a b refl (sym (choose_false _ _ e) ∙ h) p o
    ]

    result-some :
        (o : Option (State A)) (r : List A)
        → result_of o ≡ some r
        → (b : State A) × (o ≡ some b) × (b.result ≡ r)
    result-some none r h = cc
    result-some (some b) r h = (b, refl, cc)

    -- Where every need of a job is less deep than the job, so that needs have no cycle, the sort
    -- lists each job after all those that it needs; a need that is no job's key is passed over.
    pub topo_sort-Ordered : (r : List A) → topo_sort key needs jobs ≡ some r → Ordered [] r
    unfolding topo_sort
    topo_sort-Ordered r h =
        let (b, e, z) = result-some _ r h in
        let step = visit key needs jobs (length jobs + 1) in
        subst (Ordered []) z
          (All-Ordered step (visit-Extends key needs jobs (length jobs + 1))
            (visit-Ordered (length jobs + 1)) (keys_of key jobs)
            (record { visited = []; result = [] }) b e
            (All-intro _ (keys_of key jobs) (λ k m x n. cc)) tt).0
