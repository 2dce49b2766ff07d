-- ===== src/Scheduler/Needs.antt =====
-- When the needs of a job are met, and when they failed, apart from the sets of keys by which the
-- scheduler decides it.
use mathlib.Core.List.{Memᴰ}
use mathlib.Core.Bool.{false≢true}
use github_emulator.Prelude.{
  nat_eq, string_eq, beq_eq, beq_refl, Bool-cases, ℕ, String, ◌≡◌, ◌⊎◌, sym, ◌∙◌, subst, true, some,
  List, ◌==◌, inl, inr, arith,
}
use github_emulator.Prelude.Lists.{any, all, filter}
use github_emulator.Prelude.Rows.{
  All, All-mono, all-All, All-all, any-mem, mem-any, map-mem, mem-map, filter-mem, mem-filter,
}
use github_emulator.Jobs.{Job, Db, completed, success, failure, cancelled, skipped, key}
use github_emulator.Scheduler.Dispatch.{
  jobs_of, succeeded, completed_keys, unsuccessful_keys, is_unsuccessful, contains,
}

abbrev pub Succeeded : Job → Type 0
Succeeded d = (d.status ≡ completed) × (d.conclusion ≡ some success)

abbrev pub Unsuccessful : Job → Type 0
Unsuccessful d =
    (d.status ≡ completed)
    × ((d.conclusion ≡ some failure)
        ⊎ (d.conclusion ≡ some cancelled)
        ⊎ (d.conclusion ≡ some skipped))

-- Some job of the run that this one needs completed without success.
abbrev pub NeedsFailed : Db → ℕ → Job → Type 0
NeedsFailed db run j =
    (d : Job) × Memᴰ d db.jobs × (d.run_id ≡ run) × Unsuccessful d × Memᴰ (key d) j.needs

-- Every key that the job needs is that of a job of the run which completed with success.
abbrev pub NeedsMet : Db → ℕ → Job → Type 0
NeedsMet db run j =
    All (λ n. (d : Job) × Memᴰ d db.jobs × (d.run_id ≡ run) × Succeeded d × (key d ≡ n)) j.needs

Unsuccessful-of_true : (d : Job) → is_unsuccessful d ≡ true → Unsuccessful d
Unsuccessful-of_true d h = ground arith

true_of_Unsuccessful : (d : Job) → Unsuccessful d → is_unsuccessful d ≡ true
true_of_Unsuccessful d h = ground arith

Succeeded-of_true : (d : Job) → succeeded d ≡ true → Succeeded d
Succeeded-of_true d h = ground arith

true_of_Succeeded : (d : Job) → Succeeded d → succeeded d ≡ true
true_of_Succeeded d h = ground arith

contains-mem : (keys : List String) (k : String) → contains keys k ≡ true → Memᴰ k keys
contains-mem keys k h =
    let (j, m, e) = any-mem (λ j. j == k) keys h in subst (λ z. Memᴰ z keys) (beq_eq j k e) m

mem-contains : (keys : List String) (k : String) → Memᴰ k keys → contains keys k ≡ true
mem-contains keys k m = mem-any (λ j. j == k) keys m (beq_refl k)

module _ (db : Db) (run : ℕ) where
  mem-jobs_of : (d : Job) → Memᴰ d (jobs_of db run) → Memᴰ d db.jobs × (d.run_id ≡ run)
  mem-jobs_of d m =
      let (k, e) = filter-mem (λ j. j.run_id == run) db.jobs m in (k, beq_eq d.run_id run e)

  jobs_of-mem : (d : Job) → Memᴰ d db.jobs → d.run_id ≡ run → Memᴰ d (jobs_of db run)
  jobs_of-mem d m e =
      mem-filter (λ j. j.run_id == run) db.jobs m
        (subst (λ n. (d.run_id == n) ≡ true) e (beq_refl d.run_id))

  pub blocked-NeedsFailed :
      (j : Job)
      → any (contains (unsuccessful_keys (jobs_of db run))) j.needs ≡ true
      → NeedsFailed db run j
  blocked-NeedsFailed j h =
      let (n, m, e) = any-mem (contains (unsuccessful_keys (jobs_of db run))) j.needs h in
      let (d, k, q) = map-mem key (filter is_unsuccessful (jobs_of db run)) (contains-mem _ n e) in
      let (l, u) = filter-mem is_unsuccessful (jobs_of db run) k in
      let (here, at) = mem-jobs_of d l in
      (d, here, at, Unsuccessful-of_true d u, subst (λ z. Memᴰ z j.needs) q m)

  pub NeedsFailed-blocked :
      (j : Job)
      → NeedsFailed db run j
      → any (contains (unsuccessful_keys (jobs_of db run))) j.needs ≡ true
  NeedsFailed-blocked j f = mem-any (contains (unsuccessful_keys (jobs_of db run))) j.needs f.4 (
      mem-contains _ _ (
        mem-map key (filter is_unsuccessful (jobs_of db run)) (
          mem-filter is_unsuccessful (jobs_of db run) (jobs_of-mem f.0 f.1 f.2)
            (true_of_Unsuccessful f.0 f.3))))

  pub met-NeedsMet :
      (j : Job)
      → all (contains (completed_keys (jobs_of db run))) j.needs ≡ true
      → NeedsMet db run j
  met-NeedsMet j h =
      All-mono (λ n. contains (completed_keys (jobs_of db run)) n ≡ true)
        (λ n. (d : Job) × Memᴰ d db.jobs × (d.run_id ≡ run) × Succeeded d × (key d ≡ n)) j.needs
        (λ n e.
          let (d, k, q) = map-mem key (filter succeeded (jobs_of db run)) (contains-mem _ n e) in
          let (l, u) = filter-mem succeeded (jobs_of db run) k in
          let (here, at) = mem-jobs_of d l in (d, here, at, Succeeded-of_true d u, sym q))
        (all-All (contains (completed_keys (jobs_of db run))) j.needs h)

  pub NeedsMet-met :
      (j : Job)
      → NeedsMet db run j
      → all (contains (completed_keys (jobs_of db run))) j.needs ≡ true
  NeedsMet-met j h = All-all (contains (completed_keys (jobs_of db run))) j.needs (
      All-mono (λ n. (d : Job) × Memᴰ d db.jobs × (d.run_id ≡ run) × Succeeded d × (key d ≡ n))
        (λ n. contains (completed_keys (jobs_of db run)) n ≡ true) j.needs
        (λ n q. mem-contains _ n (
          subst (λ z. Memᴰ z (completed_keys (jobs_of db run))) q.4
            (mem-map key (filter succeeded (jobs_of db run)) (
              mem-filter succeeded (jobs_of db run) (jobs_of-mem q.0 q.1 q.2)
                (true_of_Succeeded q.0 q.3)))))
        h)

  pub NeedsFailed-cases : (j : Job) → NeedsFailed db run j ⊎ (NeedsFailed db run j → ⊥)
  NeedsFailed-cases j =
      elim (Bool-cases (any (contains (unsuccessful_keys (jobs_of db run))) j.needs)) [
        | inl e ↦ inl (blocked-NeedsFailed j e)
        | inr e ↦ inr (λ f. false≢true (sym e ∙ NeedsFailed-blocked j f))
      ]

  pub NeedsMet-cases : (j : Job) → NeedsMet db run j ⊎ (NeedsMet db run j → ⊥)
  NeedsMet-cases j = elim (Bool-cases (all (contains (completed_keys (jobs_of db run))) j.needs)) [
    | inl e ↦ inl (met-NeedsMet j e)
    | inr e ↦ inr (λ f. false≢true (sym e ∙ NeedsMet-met j f))
  ]
