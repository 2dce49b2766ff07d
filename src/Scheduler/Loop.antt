-- ===== src/Scheduler/Loop.antt =====
-- What one call of `dispatch_ready_jobs` makes of each row of the job table.
use mathlib.Core.List.{Memᴰ, map-map}
use github_emulator.Prelude.{
  nat_eq, string_eq, beq_eq, beq_refl, ℕ, ◌≡◌, ◌≢◌, refl, sym, ap, ◌∙◌, subst, Bool, true, false,
  List, [], ◌∷◌, ◌==◌, if◌then◌else◌, arith, map,
}
use github_emulator.Prelude.Lists.{filter}
use github_emulator.Prelude.Rows.{
  All, All-elim, All-intro, All-mono, Rel, Rel-map_mem, filter-mem, mem-filter,
}
use github_emulator.Value.{Fields}
use github_emulator.Jobs.{Job, Db, waiting}
use github_emulator.Scheduler.Dispatch.{
  Workflows, jobs_of, is_ready, must_skip, skip_job, skip_blocked, ready_jobs, dispatch_ready_jobs,
  base_context, needs_context,
}
use github_emulator.Scheduler.Rows.{row_after, settled, jobs-settle_all}
use github_emulator.Scheduler.Turns.{
  UniqueIds, Foreign, row_after-same_run, row_after-Foreign, row_after-ready,
}
use github_emulator.Scheduler.Needs.{
  NeedsFailed, NeedsMet, NeedsFailed-blocked, NeedsMet-met, blocked-NeedsFailed, met-NeedsMet,
}

pub UniqueIds-eq :
    (js : List Job) (r j : Job) → UniqueIds js → Memᴰ r js → Memᴰ j js → r.id ≡ j.id → r ≡ j
UniqueIds-eq [] r j u m k e = elim m [ ]
UniqueIds-eq (x ∷ xs) r j u (Memᴰ.head p) (Memᴰ.head q) e = p ∙ sym q
UniqueIds-eq (x ∷ xs) r j u (Memᴰ.head p) (Memᴰ.tail k) e =
    absurd (All-elim (λ y. x.id ≢ y.id) xs u.0 k (ap (λ (y : Job). y.id) (sym p) ∙ e))
UniqueIds-eq (x ∷ xs) r j u (Memᴰ.tail m) (Memᴰ.head q) e =
    absurd (All-elim (λ y. x.id ≢ y.id) xs u.0 m (ap (λ (y : Job). y.id) (sym q) ∙ sym e))
UniqueIds-eq (x ∷ xs) r j u (Memᴰ.tail m) (Memᴰ.tail k) e = UniqueIds-eq xs r j u.1 m k e

UniqueIds-cons :
    (b : Bool) (j : Job) (js : List Job)
    → All (λ k. j.id ≢ k.id) js
    → UniqueIds js
    → UniqueIds (elim b [ true ↦ j ∷ js | false ↦ js ])
UniqueIds-cons true j js h u = (h, u)
UniqueIds-cons false j js h u = u

pub UniqueIds-filter : (p : Job → Bool) (js : List Job) → UniqueIds js → UniqueIds (filter p js)
UniqueIds-filter p [] u = tt
UniqueIds-filter p (j ∷ js) u =
    UniqueIds-cons (p j) j (filter p js)
      (All-intro (λ k. j.id ≢ k.id) (filter p js)
        (λ k m. All-elim (λ k. j.id ≢ k.id) js u.0 (filter-mem p js m).0))
      (UniqueIds-filter p js u.1)

module _ (db : Db) (run : ℕ) where
  pub ready-mem :
      (r : Job)
      → Memᴰ r (ready_jobs run db)
      → Memᴰ r db.jobs × (r.run_id ≡ run) × (is_ready (jobs_of db run) r ≡ true)
  unfolding ready_jobs
  ready-mem r m =
      let (k, e) = filter-mem (is_ready (jobs_of db run)) (jobs_of db run) m in
      let (l, q) = filter-mem (λ j. j.run_id == run) db.jobs k in (l, beq_eq r.run_id run q, e)

  UniqueIds-ready : UniqueIds db.jobs → UniqueIds (ready_jobs run db)
  unfolding ready_jobs
  UniqueIds-ready u = UniqueIds-filter _ _ (UniqueIds-filter _ _ u)

  pub mem-ready :
      (r : Job)
      → Memᴰ r db.jobs
      → r.run_id ≡ run
      → is_ready (jobs_of db run) r ≡ true
      → Memᴰ r (ready_jobs run db)
  unfolding ready_jobs
  mem-ready r m e h =
      mem-filter (is_ready (jobs_of db run)) (jobs_of db run)
        (mem-filter (λ j. j.run_id == run) db.jobs m
          (subst (λ n. (r.run_id == n) ≡ true) e (beq_refl r.run_id)))
        h

not_true : (b : Bool) → (b ≡ true → ⊥) → b ≡ false
not_true b h = ground arith

-- What a call makes of a row `a` of the table.
pub record Dispatched (w : Workflows) (now run : ℕ) (base needs : Fields) (db : Db) (a b : Job)
    : Type 0 where
  pub blocked : a.run_id ≡ run → a.status ≡ waiting → NeedsFailed db run a → b ≡ skip_job now a
  pub ready :
      a.run_id ≡ run
      → a.status ≡ waiting
      → NeedsMet db run a
      → (NeedsFailed db run a → ⊥)
      → b ≡ settled w now base needs a a.pending_render
  pub held :
      a.run_id ≡ run
      → a.status ≡ waiting
      → (NeedsMet db run a → ⊥)
      → (NeedsFailed db run a → ⊥)
      → b ≡ a
  pub begun : a.run_id ≡ run → a.status ≢ waiting → b ≡ a
  pub elsewhere : a.run_id ≢ run → Foreign now a b

module _ (w : Workflows) (now run : ℕ) (base needs : Fields) (db : Db)
    (unique : UniqueIds db.jobs) where
  abbrev snapshot : List Job
  snapshot = jobs_of db run

  abbrev after : Job → Job
  after = row_after w now base needs (ready_jobs run db)

  abbrev row : Job → Job
  row j = after (if must_skip run snapshot j then skip_job now j else j)

  not_ready-ne :
      (j : Job)
      → Memᴰ j db.jobs
      → (is_ready snapshot j ≡ false)
      → All (λ r. (r.id ≢ j.id) × (r.run_id ≡ run)) (ready_jobs run db)
  not_ready-ne j m h =
      All-intro (λ r. (r.id ≢ j.id) × (r.run_id ≡ run)) (ready_jobs run db)
        (λ r k.
          let (l, e, q) = ready-mem db run r k in
          (
            (λ s.
                let same = UniqueIds-eq db.jobs r j unique l m s in
                cc (subst (λ z. is_ready snapshot z ≡ true) same q)),
            e,
          ))

  stays :
      (j c : Job)
      → Memᴰ j db.jobs
      → is_ready snapshot j ≡ false
      → c.id ≡ j.id
      → c.run_id ≡ run
      → after c ≡ c
  stays j c m h e f = row_after-same_run w now base needs (ready_jobs run db) c (
      All-mono (λ r. (r.id ≢ j.id) × (r.run_id ≡ run)) (λ r. (r.id ≢ c.id) × (r.run_id ≡ c.run_id))
        (ready_jobs run db) (λ r p. ((λ s. p.0 (s ∙ e)), p.1 ∙ sym f)) (not_ready-ne j m h))

  row-blocked :
      (j : Job)
      → Memᴰ j db.jobs
      → j.run_id ≡ run
      → j.status ≡ waiting
      → NeedsFailed db run j
      → row j ≡ skip_job now j
  unfolding skip_job
  row-blocked j m e s f =
      let failed = NeedsFailed-blocked db run j f in
      let skips : must_skip run snapshot j ≡ true = ground arith in
      let idle : is_ready snapshot j ≡ false = ground arith in
      ap (λ b. after (if b then skip_job now j else j)) skips
      ∙ stays j (skip_job now j) m idle refl e

  row-begun : (j : Job) → Memᴰ j db.jobs → j.run_id ≡ run → j.status ≢ waiting → row j ≡ j
  row-begun j m e s =
      let idle : is_ready snapshot j ≡ false = ground arith in
      let kept : must_skip run snapshot j ≡ false = ground arith in
      ap (λ b. after (if b then skip_job now j else j)) kept ∙ stays j j m idle refl e

  row-held :
      (j : Job)
      → Memᴰ j db.jobs
      → j.run_id ≡ run
      → (NeedsMet db run j → ⊥)
      → (NeedsFailed db run j → ⊥)
      → row j ≡ j
  row-held j m e u f =
      let failed = not_true _ (λ h. f (blocked-NeedsFailed db run j h)) in
      let met = not_true _ (λ h. u (met-NeedsMet db run j h)) in
      let idle : is_ready snapshot j ≡ false = ground arith in
      let kept : must_skip run snapshot j ≡ false = ground arith in
      ap (λ b. after (if b then skip_job now j else j)) kept ∙ stays j j m idle refl e

  row-ready :
      (j : Job)
      → Memᴰ j db.jobs
      → j.run_id ≡ run
      → j.status ≡ waiting
      → NeedsMet db run j
      → (NeedsFailed db run j → ⊥)
      → row j ≡ settled w now base needs j j.pending_render
  row-ready j m e s u f =
      let failed = not_true _ (λ h. f (blocked-NeedsFailed db run j h)) in
      let met = NeedsMet-met db run j u in
      let due : is_ready snapshot j ≡ true = ground arith in
      let kept : must_skip run snapshot j ≡ false = ground arith in
      ap (λ b. after (if b then skip_job now j else j)) kept
      ∙ row_after-ready w now base needs (ready_jobs run db) j (UniqueIds-ready db run unique)
          (All-intro (λ r. r.run_id ≡ j.run_id) (ready_jobs run db)
            (λ r k. (ready-mem db run r k).1 ∙ sym e))
          (mem-ready db run j m e due)

  row-elsewhere : (j : Job) → Memᴰ j db.jobs → j.run_id ≢ run → Foreign now j (row j)
  row-elsewhere j m e =
      let kept : must_skip run snapshot j ≡ false = ground arith in
      subst (Foreign now j) (sym (ap (λ b. after (if b then skip_job now j else j)) kept)) (
        row_after-Foreign w now base needs (ready_jobs run db) j (
          All-intro (λ r. r.id ≢ j.id) (ready_jobs run db)
            (λ r k s.
              let (l, at, q) = ready-mem db run r k in
              e (ap (λ (z : Job). z.run_id) (sym (UniqueIds-eq db.jobs r j unique l m s)) ∙ at))))

  pub row-Dispatched : (j : Job) → Memᴰ j db.jobs → Dispatched w now run base needs db j (row j)
  row-Dispatched j m = record {
    blocked = row-blocked j m;
    ready = row-ready j m;
    held = λ e s. row-held j m e;
    begun = row-begun j m;
    elsewhere = row-elsewhere j m;
  }

  pub rows-Dispatched : Rel (Dispatched w now run base needs db) db.jobs (map row db.jobs)
  rows-Dispatched = Rel-map_mem (Dispatched w now run base needs db) row db.jobs row-Dispatched

pub jobs-dispatch :
    (w : Workflows) (now run : ℕ) (db : Db)
    → (dispatch_ready_jobs w now run db).0.jobs
      ≡ map
          (λ j.
            row_after w now
              (base_context w run db)
              (needs_context w run (skip_blocked now run db))
              (ready_jobs run db)
              (if must_skip run (jobs_of db run) j then skip_job now j else j))
          db.jobs
unfolding dispatch_ready_jobs
jobs-dispatch w now run db =
    jobs-settle_all w now _ _ (ready_jobs run db) (skip_blocked now run db) ∙ map-map _ _ db.jobs
