-- ===== src/JobGraph/Listing.antt =====
-- The sort lists every job once.
use github_emulator.Prelude.{
  ℕ, zero, suc, ◌+◌, ◌≡◌, ◌⊎◌, refl, sym, ap, ◌∙◌, subst, String, Bool, true, false, ◌||◌,
  Bool-cases, Option, none, some, List, [], ◌∷◌, ◌++◌, ◌==◌, string_eq, inl, inr, arith, beq_eq,
  beq_refl,
}
use github_emulator.Prelude.Lists.{length}
use github_emulator.Prelude.Rows.{All, All-intro, mem-any}
use github_emulator.JobGraph.Sort.{
  mem, State, visit_all, by_key, keys_of, append, visit_job, visit, result_of, topo_sort,
}
use github_emulator.JobGraph.Visits.{has, has-snoc, Extends, by_key-has}
use github_emulator.JobGraph.Loop.{
  Visited, Extends-All, visit-Extends, visit_all-cons, finished-some, choose_true, choose_false,
  some_inj,
}
use github_emulator.JobGraph.Total.{visit-Ends, all-Ends, unvisited-length, other_way}

module _ {A : Type 0} (key : A → String) where
  -- No key is that of two jobs of the list.
  abbrev pub NoRepeat : List A → Type 0
  NoRepeat [] = Unit
  NoRepeat (j ∷ r) = (has key (key j) r ≡ false) × NoRepeat r

  NoRepeat-snoc :
      (r : List A) (j : A) → NoRepeat r → has key (key j) r ≡ false → NoRepeat (r ++ (j ∷ []))
  NoRepeat-snoc [] j n h = (refl, tt)
  NoRepeat-snoc (i ∷ r) j n h = (
    has-snoc key (key i) j r ∙ (let y = other_way (key j) (key i) (ground arith) in ground arith),
    NoRepeat-snoc r j n.1 (ground arith),
  )

both_ways : (b : Bool) → b ≡ true → b ≡ false → ⊥
both_ways b h k = cc

or_cases : (b c : Bool) → (b || c) ≡ true → (b ≡ true) ⊎ (c ≡ true)
or_cases b c h = ground arith

All-snoc :
    {A : Type 0} (P : A → Type 0) (r : List A) (j : A) → All P r → P j → All P (r ++ (j ∷ []))
All-snoc P [] j h p = (p, tt)
All-snoc P (i ∷ r) j h p = (h.0, All-snoc P r j h.1 p)

module _ {A : Type 0} (key : A → String) (needs : A → List String) (jobs : List A) where
  -- The list so far has no job twice, only jobs of the workflow, and only visited keys.
  record Good (a : State A) : Type 0 where
    once : NoRepeat key a.result
    known : All (λ j. by_key key jobs (key j) ≡ some j) a.result
    marked : (k : String) → has key k a.result ≡ true → mem k a.visited ≡ true

  abbrev KeepsGood : (String → State A → Option (State A)) → Type 0
  KeepsGood step = (k : String) (a b : State A) → step k a ≡ some b → Good a → Good b

  all-Good :
      (step : String → State A → Option (State A))
      → KeepsGood step
      → (ks : List String) (a c : State A) → visit_all step ks a ≡ some c
      → Good a
      → Good c
  all-Good step g [] a c h p = subst Good (some_inj h) p
  all-Good step g (k ∷ ks) a c h p =
      let (b, e, r) = visit_all-cons step k ks a c h in all-Good step g ks b c r (g k a b e p)

  Good-mark : (k : String) (a : State A) → Good a → Good (record a { visited = k ∷ a.visited })
  Good-mark k a p = record {
    once = p.once;
    known = p.known;
    marked = λ x h. let y = p.marked x h in ground arith;
  }

  unlisted :
      (k : String) (job : A) (a b : State A)
      → key job ≡ k
      → mem k a.visited ≡ false
      → Good a
      → Extends key jobs (record a { visited = k ∷ a.visited }) b
      → has key (key job) b.result ≡ false
  unlisted k job a b own n p f = elim (Bool-cases (has key (key job) b.result)) [
    | inr e ↦ e
    | inl e ↦ elim (f.fresh k (subst (λ x. has key x b.result ≡ true) own e)) [
      | inl z ↦ absurd (both_ways _ (p.marked k z) n)
      | inr z ↦ absurd (both_ways _ (let y = beq_refl k in ground arith) z.0)
    ]
  ]

  Good-append :
      (k : String) (job : A) (a b : State A)
      → by_key key jobs k ≡ some job
      → mem k a.visited ≡ false
      → Good a
      → Good b
      → Extends key jobs (record a { visited = k ∷ a.visited }) b
      → Good (append job b)
  Good-append k job a b e n p q f =
      let own : key job ≡ k = (by_key-has key jobs k job e).0 in
      record {
        once = NoRepeat-snoc key b.result job q.once (unlisted k job a b own n p f);
        known = All-snoc _ b.result job q.known (ap (by_key key jobs) own ∙ e);
        marked = λ x h.
            elim (or_cases (has key x b.result) (key job == x)
              (sym (has-snoc key x job b.result) ∙ h)) [
                | inl z ↦ q.marked x z
                | inr z ↦
                    subst (λ y. mem y b.visited ≡ true) (sym own ∙ beq_eq (key job) x z)
                      (f.kept k (let y = beq_refl k in ground arith))
              ];
      }

  job-Good :
      (step : String → State A → Option (State A))
      → Visited key needs jobs step
      → KeepsGood step
      → (k : String) (o : Option A) (a b : State A) → by_key key jobs k ≡ o
      → mem k a.visited ≡ false
      → visit_job needs step o (record a { visited = k ∷ a.visited }) ≡ some b
      → Good a
      → Good b
  job-Good step v g k none a b e n h p = subst Good (some_inj h) (Good-mark k a p)
  job-Good step v g k (some job) a b e n h p =
      let (c, r, q) = finished-some job _ b h in
      subst Good q (
        Good-append k job a c e n p (all-Good step g (needs job) _ c r (Good-mark k a p))
          (Extends-All key needs jobs step v (needs job) _ c r).0)

  visit-Good : (fuel : ℕ) → KeepsGood (visit key needs jobs fuel)
  unfolding visit
  visit-Good zero k a b h p = cc
  visit-Good (suc fuel) k a b h p = elim (Bool-cases (mem k a.visited)) [
    | inl e ↦ subst Good (some_inj (sym (choose_true _ _ e) ∙ h)) p
    | inr e ↦
        job-Good (visit key needs jobs fuel) (visit-Extends key needs jobs fuel) (visit-Good fuel) k
          (by_key key jobs k) a b refl e (sym (choose_false _ _ e) ∙ h) p
  ]

  abbrev start : State A
  start = record { visited = []; result = [] }

  -- The keys of the jobs are listed, once all are visited.
  listed-All :
      (b : State A) (js : List A)
      → Extends key jobs start b
      → All (λ j. has key (key j) jobs ≡ true) js
      → All (λ k. mem k b.visited ≡ true) (keys_of key js)
      → All (λ j. has key (key j) b.result ≡ true) js
  listed-All b [] f h v = tt
  listed-All b (j ∷ js) f h v = (
    elim (f.settled (key j) v.0) [
      | inl m ↦ cc
      | inr (inl m) ↦ absurd (both_ways _ h.0 m)
      | inr (inr m) ↦ m
    ],
    listed-All b js f h.1 v.1,
  )

  own_keys : All (λ j. has key (key j) jobs ≡ true) jobs
  own_keys = All-intro _ jobs (λ j m. mem-any (λ i. key i == key j) jobs m (beq_refl (key j)))

  -- The sort ends on every list of jobs, cycles of needs included, and lists jobs of it, no key
  -- twice, and a job of every key.
  pub topo_sort-NoRepeat :
      (r : List A) × (topo_sort key needs jobs ≡ some r)
      × NoRepeat key r
      × All (λ j. by_key key jobs (key j) ≡ some j) r
      × All (λ j. has key (key j) r ≡ true) jobs
  unfolding topo_sort
  topo_sort-NoRepeat =
      let fuel = length jobs + 1 in
      let step = visit key needs jobs fuel in
      let small = unvisited-length key [] jobs in
      let (b, e) =
        all-Ends key needs jobs fuel step (visit-Extends key needs jobs fuel)
          (visit-Ends key needs jobs fuel) (keys_of key jobs) start (omega arith) in
      let good =
        all-Good step (visit-Good fuel) (keys_of key jobs) start b e
          (record { once = tt; known = tt; marked = λ k h. cc }) in
      let ext =
        Extends-All key needs jobs step (visit-Extends key needs jobs fuel) (keys_of key jobs) start
          b e in
      (b.result, ap result_of e, good.once, good.known, listed-All b jobs ext.0 (own_keys) ext.1)
