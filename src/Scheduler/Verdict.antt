-- ===== src/Scheduler/Verdict.antt =====
-- The run's row after `check_run_completion`, in terms of the rows of its jobs.
use mathlib.Core.List.{Memᴰ}
use github_emulator.Prelude.{
  nat_eq, beq_eq, beq_refl, string_eq, Bool-cases, ℕ, ◌≡◌, ◌⊎◌, ◌↔◌, refl, sym, ap, ◌∙◌, subst,
  Bool, true, false, Option, none, some, List, [], ◌∷◌, inl, inr, arith, ◌==◌, if◌then◌else◌,
}
use github_emulator.Prelude.Lists.{any}
use github_emulator.Prelude.Rows.{All-intro, All-elim, any-mem, filter-mem, mem-filter}
use github_emulator.Jobs.{
  Conclusion, Job, Run, Db, completed, success, failure, cancelled, skipped, conclusion_eq,
}
use github_emulator.Scheduler.Dispatch.{jobs_of, find_run}
use github_emulator.Scheduler.Completion.{
  is_active, is_nil, truthy, conclusions, run_conclusion, finalize, conclude_run, conclude_found,
  check_run_completion,
}
use github_emulator.Scheduler.Conclusion.{
  find_run-assign, conclusion_eq-cancelled, run_conclusion-exact,
}

chosen-mem :
    {x : Conclusion} (b : Bool) (c : Conclusion) (rest : List Conclusion)
    → truthy c ≡ b
    → Memᴰ x (if b then c ∷ rest else rest)
    → ((c ≡ x) × (truthy x ≡ true)) ⊎ Memᴰ x rest
chosen-mem true c rest h (Memᴰ.head e) = inl (sym e, subst (λ z. truthy z ≡ true) (sym e) h)
chosen-mem true c rest h (Memᴰ.tail m) = inr m
chosen-mem false c rest h m = inr m

conclusions-mem :
    {c : Conclusion} (js : List Job)
    → Memᴰ c (conclusions js)
    → (j : Job) × Memᴰ j js × (j.conclusion ≡ some c) × (truthy c ≡ true)
conclusions-mem [] m = elim m [ ]
conclusions-mem {c = c} (j ∷ js) m = elim (front j.conclusion m) [
  | inl (e, t) ↦ (j, Memᴰ.head refl, e, t)
  | inr k ↦ let (d, l, e, t) = conclusions-mem js k in (d, Memᴰ.tail l, e, t)
]
  where
    front :
        (o : Option Conclusion)
        → Memᴰ c (elim o [
          | none ↦ conclusions js
          | some x ↦ if truthy x then x ∷ conclusions js else conclusions js
        ])
        → ((o ≡ some c) × (truthy c ≡ true)) ⊎ Memᴰ c (conclusions js)
    front none m = inr m
    front (some x) m = elim (chosen-mem (truthy x) x (conclusions js) refl m) [
      | inl (e, t) ↦ inl (ap some e, t)
      | inr k ↦ inr k
    ]

chosen-later :
    {x : Conclusion} (b : Bool) (c : Conclusion) (rest : List Conclusion)
    → Memᴰ x rest
    → Memᴰ x (if b then c ∷ rest else rest)
chosen-later true c rest m = Memᴰ.tail m
chosen-later false c rest m = m

mem-conclusions :
    {j : Job} (c : Conclusion) (js : List Job)
    → Memᴰ j js
    → j.conclusion ≡ some c
    → truthy c ≡ true
    → Memᴰ c (conclusions js)
mem-conclusions c [] m e t = elim m [ ]
mem-conclusions c (k ∷ js) (Memᴰ.head q) e t =
    subst
      (λ (o : Option Conclusion). Memᴰ c (elim o [
        | none ↦ conclusions js
        | some x ↦ if truthy x then x ∷ conclusions js else conclusions js
      ]))
      (sym (ap (λ (x : Job). x.conclusion) (sym q) ∙ e))
      (subst (λ b. Memᴰ c (if b then c ∷ conclusions js else conclusions js)) (sym t)
        (Memᴰ.head refl))
mem-conclusions c (k ∷ js) (Memᴰ.tail m) e t = later k.conclusion (mem-conclusions c js m e t)
  where
    later :
        (o : Option Conclusion)
        → Memᴰ c (conclusions js)
        → Memᴰ c (elim o [
          | none ↦ conclusions js
          | some x ↦ if truthy x then x ∷ conclusions js else conclusions js
        ])
    later none m = m
    later (some x) m = chosen-later (truthy x) x (conclusions js) m

-- What lets a run succeed: a conclusion of success or skipped, null, or the empty text.
abbrev pub Passing : Option Conclusion → Type 0
Passing o = (o ≡ some success) ⊎ (o ≡ some skipped) ⊎ (o ≡ none) ⊎ (o ≡ some (Conclusion.other ""))

not-truthy : (c : Conclusion) → truthy c ≡ false → c ≡ Conclusion.other ""
not-truthy success h = cc
not-truthy failure h = cc
not-truthy cancelled h = cc
not-truthy skipped h = cc
not-truthy (Conclusion.other s) h =
    let e : (s == "") ≡ true = ground arith in ap Conclusion.other (beq_eq s "" e)

Passing-of :
    (o : Option Conclusion)
    → ((c : Conclusion) → o ≡ some c → truthy c ≡ true → (c ≡ success) ⊎ (c ≡ skipped))
    → Passing o
Passing-of none h = inr (inr (inl refl))
Passing-of (some c) h = elim (Bool-cases (truthy c)) [
  | inr e ↦ inr (inr (inr (ap some (not-truthy c e))))
  | inl e ↦ elim (h c refl e) [ inl q ↦ inl (ap some q) | inr q ↦ inr (inl (ap some q)) ]
]

Passing-elim : (c : Conclusion) → Passing (some c) → truthy c ≡ true → (c ≡ success) ⊎ (c ≡ skipped)
Passing-elim c (inl e) t = inl cc
Passing-elim c (inr (inl e)) t = inr cc
Passing-elim c (inr (inr (inl e))) t = cc
Passing-elim c (inr (inr (inr e))) t = let q : c ≡ Conclusion.other "" = cc in ground arith

one_of_three :
    (cs : List Conclusion)
    → (run_conclusion cs ≡ success)
      ⊎ (run_conclusion cs ≡ cancelled)
      ⊎ (run_conclusion cs ≡ failure)
one_of_three cs = ground arith

some_cancelled :
    (cs : List Conclusion) → run_conclusion cs ≡ cancelled → any (conclusion_eq cancelled) cs ≡ true
some_cancelled cs h = ground arith

module _ (run : ℕ) (db : Db) where
  -- A job of the run with this conclusion.
  abbrev pub HasJob : Conclusion → Type 0
  HasJob c = (d : Job) × Memᴰ d db.jobs × (d.run_id ≡ run) × (d.conclusion ≡ some c)

  -- What the conclusion of the run says of its jobs.
  pub record Verdict (c : Conclusion) : Type 0 where
    pub one_of : (c ≡ success) ⊎ (c ≡ cancelled) ⊎ (c ≡ failure)
    pub failed : HasJob failure → c ≡ failure
    pub stopped : (c ≡ cancelled) ↔ (HasJob cancelled × (HasJob failure → ⊥))
    pub passed :
        (c ≡ success) ↔ ((d : Job) → Memᴰ d db.jobs → d.run_id ≡ run → Passing d.conclusion)

  mem-of : (d : Job) → Memᴰ d (jobs_of db run) → Memᴰ d db.jobs × (d.run_id ≡ run)
  mem-of d m =
      let (k, e) = filter-mem (λ j. j.run_id == run) db.jobs m in (k, beq_eq d.run_id run e)

  of-mem : (d : Job) → Memᴰ d db.jobs → d.run_id ≡ run → Memᴰ d (jobs_of db run)
  of-mem d m e =
      mem-filter (λ j. j.run_id == run) db.jobs m
        (subst (λ n. (d.run_id == n) ≡ true) e (beq_refl d.run_id))

  given-HasJob : (c : Conclusion) → Memᴰ c (conclusions (jobs_of db run)) → HasJob c
  given-HasJob c m =
      let (d, k, e, t) = conclusions-mem (jobs_of db run) m in
      let (l, at) = mem-of d k in (d, l, at, e)

  HasJob-given :
      (c : Conclusion) → truthy c ≡ true → HasJob c → Memᴰ c (conclusions (jobs_of db run))
  HasJob-given c t h = mem-conclusions c (jobs_of db run) (of-mem h.0 h.1 h.2) h.3 t

  Verdict-given : Verdict (run_conclusion (conclusions (jobs_of db run)))
  Verdict-given =
      let cs = conclusions (jobs_of db run) in
      let exact = run_conclusion-exact cs in
      record {
        one_of = one_of_three cs;
        failed = λ h. exact.0 (HasJob-given failure refl h);
        stopped = (
          λ e. (
            let (c, m, q) = any-mem (conclusion_eq cancelled) cs (some_cancelled cs e) in
                given-HasJob cancelled
                  (subst (λ z. Memᴰ z cs) (sym (conclusion_eq-cancelled c q)) m),
            λ h. let k = exact.0 (HasJob-given failure refl h) in cc,
          ),
          λ h. exact.1 (HasJob-given cancelled refl h.0) (λ m. h.1 (given-HasJob failure m)),
        );
        passed = (
          λ e d m at. Passing-of d.conclusion (λ c q t.
              All-elim (λ c. (c ≡ success) ⊎ (c ≡ skipped)) cs (exact.2.0 e)
                (mem-conclusions c (jobs_of db run) (of-mem d m at) q t)),
          λ h. exact.2.1 (
              All-intro (λ c. (c ≡ success) ⊎ (c ≡ skipped)) cs
                (λ c m.
                  let (d, k, e, t) = conclusions-mem (jobs_of db run) m in
                  let (l, at) = mem-of d k in Passing-elim c (subst Passing e (h d l at)) t)),
        );
      }

  none_active :
      ((d : Job) → Memᴰ d db.jobs → d.run_id ≡ run → d.status ≡ completed)
      → any is_active (jobs_of db run) ≡ false
  none_active over = elim (Bool-cases (any is_active (jobs_of db run))) [
    | inr e ↦ e
    | inl e ↦
        let (d, m, q) = any-mem is_active (jobs_of db run) e in
        let (l, at) = mem-of d m in let s = over d l at in ground arith
  ]

some-job : {A : Type 0} (x : A) (xs : List A) → Memᴰ x xs → is_nil xs ≡ false
some-job x [] m = elim m [ ]
some-job x (y ∷ ys) m = refl

conclude_run-finalize :
    (now run : ℕ) (db : Db)
    → is_nil (jobs_of db run) ≡ false
    → any is_active (jobs_of db run) ≡ false
    → conclude_run now run db ≡ finalize run db
unfolding conclude_run
conclude_run-finalize now run db h k = rw (h, k) refl

-- A run with a job whose jobs are all completed is completed by `check_run_completion`, as
-- success, cancelled or failure: failure if some job's conclusion is, cancelled exactly when
-- some job's is and no job's is failure, and success exactly when every job's is success or
-- skipped, null, or the empty text.
pub completion-Verdict :
    (now run : ℕ) (db : Db) (r : Run) (j : Job)
    → find_run db.runs run ≡ some r
    → Memᴰ j db.jobs
    → j.run_id ≡ run
    → ((d : Job) → Memᴰ d db.jobs → d.run_id ≡ run → d.status ≡ completed)
    → (c : Conclusion) × Verdict run db c
      × (find_run (check_run_completion now run db).runs run
          ≡ some (record r { status = completed; conclusion = some c }))
unfolding check_run_completion conclude_found finalize
completion-Verdict now run db r j found m at over =
    let ends =
      conclude_run-finalize now run db (some-job j (jobs_of db run) (of-mem run db j m at))
        (none_active run db over) in
    (
      run_conclusion (conclusions (jobs_of db run)),
      Verdict-given run db,
      ap (λ (o : Option Run). find_run (conclude_found now run db o).runs run) found
          ∙ ap (λ (d : Db). find_run d.runs run) ends
          ∙ find_run-assign run
              (λ r. record r {
                status = completed;
                conclusion = some (run_conclusion (conclusions (jobs_of db run)));
              })
              db.runs r (λ r. refl) found,
    )
