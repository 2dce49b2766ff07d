-- ===== src/Scheduler/Turns.antt =====
-- The turns of the loop over the ready jobs, seen from one row of the job table.
use mathlib.Core.List.{Memᴰ}
use github_emulator.Prelude.{
  nat_eq, string_eq, Bool-cases, ℕ, String, ◌≡◌, ◌≢◌, ◌⊎◌, refl, sym, ap, ◌∙◌, subst, Bool, true,
  false, Option, none, some, List, [], ◌∷◌, if◌then◌else◌, inl, inr, arith,
}
use github_emulator.Prelude.Rows.{All, All-elim}
use github_emulator.Value.{Fields}
use github_emulator.Jobs.{PendingRender, Job, queued, in_progress, completed, assign}
use github_emulator.Scheduler.Dispatch.{
  Workflows, skip_job, cancel_job, job_context, render_job, skip_pending, enqueue,
}
use github_emulator.Scheduler.Rows.{supersede_row, promote_row, settle_row, row_after, settled}

-- No two rows have one primary key.
abbrev pub UniqueIds : List Job → Type 0
UniqueIds [] = Unit
UniqueIds (j ∷ js) = All (λ k. j.id ≢ k.id) js × UniqueIds js

-- A row of another run is left alone, or superseded while it was queued or in progress.
pub data Foreign (now : ℕ) (a : Job) : Job → Type 0 where
  same : Foreign now a a
  superseded : (a.status ≡ queued) ⊎ (a.status ≡ in_progress) → Foreign now a (cancel_job now a)

supersede_row-same_run :
    (now : ℕ) (r j : Job) (g : Option String) → r.run_id ≡ j.run_id → supersede_row now r g j ≡ j
unfolding supersede_row
supersede_row-same_run now r j none e = refl
supersede_row-same_run now r j (some g) e = ground arith

supersede_row-completed :
    (now : ℕ) (r j : Job) (g : Option String) → j.status ≡ completed → supersede_row now r g j ≡ j
unfolding supersede_row
supersede_row-completed now r j none e = refl
supersede_row-completed now r j (some g) e = ground arith

supersede_row-Foreign :
    (now : ℕ) (r j : Job) (g : Option String)
    → (supersede_row now r g j ≡ j)
      ⊎ ((supersede_row now r g j ≡ cancel_job now j)
          × ((j.status ≡ queued) ⊎ (j.status ≡ in_progress)))
unfolding supersede_row
supersede_row-Foreign now r j none = inl refl
supersede_row-Foreign now r j (some g) = ground arith

assign-other : (r j : Job) (f : Job → Job) → r.id ≢ j.id → assign r.id f j ≡ j
assign-other r j f ne = ground arith

assign-own : (j : Job) (f : Job → Job) → assign j.id f j ≡ f j
assign-own j f = ground arith

id-supersede_row : (now : ℕ) (r j : Job) (g : Option String) → (supersede_row now r g j).id ≡ j.id
unfolding supersede_row cancel_job
id-supersede_row now r j none = refl
id-supersede_row now r j (some g) = ground arith

promote_row-own :
    (now : ℕ) (r j : Job) → r.id ≡ j.id → r.run_id ≡ j.run_id → promote_row now r j ≡ enqueue j
unfolding promote_row
promote_row-own now r j e f =
    ap (assign r.id enqueue) (supersede_row-same_run now r j r.concurrency_group f)
    ∙ rw e (assign-own j enqueue)

promote_row-other :
    (now : ℕ) (r j : Job)
    → r.id ≢ j.id
    → promote_row now r j ≡ supersede_row now r r.concurrency_group j
unfolding promote_row
promote_row-other now r j ne =
    assign-other r (supersede_row now r r.concurrency_group j) enqueue
      (λ e. ne (e ∙ id-supersede_row now r j r.concurrency_group))

if_cong {ℓ} :
    {A : Type ℓ} (b : Bool) {x x' y y' : A}
    → x ≡ x'
    → y ≡ y'
    → (if b then x else y) ≡ (if b then x' else y')
if_cong true p q = p
if_cong false p q = q

if_same {ℓ} : {A : Type ℓ} (b : Bool) {x y z : A} → x ≡ z → y ≡ z → (if b then x else y) ≡ z
if_same true p q = p
if_same false p q = q

All-both :
    (r j : Job) (rs : List Job) (b : Job)
    → b.id ≡ r.id
    → b.run_id ≡ j.run_id
    → All (λ k. r.id ≢ k.id) rs
    → All (λ k. k.run_id ≡ j.run_id) rs
    → All (λ k. (k.id ≢ b.id) × (k.run_id ≡ b.run_id)) rs
All-both r j [] b e f u h = tt
All-both r j (k ∷ rs) b e f u h =
    ((λ q. u.0 (sym (q ∙ e)), h.0 ∙ sym f), All-both r j rs b e f u.1 h.1)

module _ (w : Workflows) (now : ℕ) (base needs : Fields) where
  settle_row-own :
      (j : Job) (p : Option PendingRender)
      → settle_row w now base needs j p j ≡ settled w now base needs j p
  unfolding settle_row settled
  settle_row-own j none = promote_row-own now j j refl refl
  settle_row-own j (some p) =
      if_cong (w.evaluate_job_if p.condition (job_context w base needs p))
        (ap (promote_row now j) (assign-own j (render_job w (job_context w base needs p) p))
          ∙ promote_row-own now j _ refl refl)
        (assign-own j (skip_pending now))

  settle_row-same_run :
      (r j : Job) (p : Option PendingRender)
      → r.id ≢ j.id
      → r.run_id ≡ j.run_id
      → settle_row w now base needs r p j ≡ j
  unfolding settle_row
  settle_row-same_run r j none ne e =
      promote_row-other now r j ne ∙ supersede_row-same_run now r j r.concurrency_group e
  settle_row-same_run r j (some p) ne e =
      if_same (w.evaluate_job_if p.condition (job_context w base needs p))
        (ap (promote_row now r) (assign-other r j (render_job w (job_context w base needs p) p) ne)
          ∙ promote_row-other now r j ne
          ∙ supersede_row-same_run now r j r.concurrency_group e)
        (assign-other r j (skip_pending now) ne)

  settle_row-completed :
      (r j : Job) (p : Option PendingRender)
      → r.id ≢ j.id
      → j.status ≡ completed
      → settle_row w now base needs r p j ≡ j
  unfolding settle_row
  settle_row-completed r j none ne e =
      promote_row-other now r j ne ∙ supersede_row-completed now r j r.concurrency_group e
  settle_row-completed r j (some p) ne e =
      if_same (w.evaluate_job_if p.condition (job_context w base needs p))
        (ap (promote_row now r) (assign-other r j (render_job w (job_context w base needs p) p) ne)
          ∙ promote_row-other now r j ne
          ∙ supersede_row-completed now r j r.concurrency_group e)
        (assign-other r j (skip_pending now) ne)

  settle_row-Foreign :
      (r j : Job) (p : Option PendingRender)
      → r.id ≢ j.id
      → (settle_row w now base needs r p j ≡ j)
        ⊎ ((settle_row w now base needs r p j ≡ cancel_job now j)
            × ((j.status ≡ queued) ⊎ (j.status ≡ in_progress)))
  unfolding settle_row
  settle_row-Foreign r j none ne =
      rw (promote_row-other now r j ne) (supersede_row-Foreign now r j r.concurrency_group)
  settle_row-Foreign r j (some p) ne =
      elim (Bool-cases (w.evaluate_job_if p.condition (job_context w base needs p))) [
        | inl e ↦
            rw
              (
                e,
                assign-other r j (render_job w (job_context w base needs p) p) ne,
                promote_row-other now r j ne,
              )
              (supersede_row-Foreign now r j r.concurrency_group)
        | inr e ↦ inl (rw e (assign-other r j (skip_pending now) ne))
      ]

  -- A row of the same run whose turn never comes is left alone.
  pub row_after-same_run :
      (rs : List Job) (j : Job)
      → All (λ r. (r.id ≢ j.id) × (r.run_id ≡ j.run_id)) rs
      → row_after w now base needs rs j ≡ j
  unfolding row_after
  row_after-same_run [] j h = refl
  row_after-same_run (r ∷ rs) j h =
      rw (settle_row-same_run r j r.pending_render h.0.0 h.0.1) (row_after-same_run rs j h.1)

  row_after-completed :
      (rs : List Job) (j : Job)
      → j.status ≡ completed
      → All (λ r. r.id ≢ j.id) rs
      → row_after w now base needs rs j ≡ j
  unfolding row_after
  row_after-completed [] j e h = refl
  row_after-completed (r ∷ rs) j e h =
      rw (settle_row-completed r j r.pending_render h.0 e) (row_after-completed rs j e h.1)

  -- A row of another run is left alone or superseded.
  pub row_after-Foreign :
      (rs : List Job) (j : Job)
      → All (λ r. r.id ≢ j.id) rs
      → Foreign now j (row_after w now base needs rs j)
  unfolding row_after cancel_job
  row_after-Foreign [] j h = same
  row_after-Foreign (r ∷ rs) j h = elim (settle_row-Foreign r j r.pending_render h.0) [
    | inl e ↦ rw e (row_after-Foreign rs j h.1)
    | inr e ↦ rw (e.0, row_after-completed rs (cancel_job now j) refl h.1) (superseded e.1)
  ]

  id-settled : (j : Job) (p : Option PendingRender) → (settled w now base needs j p).id ≡ j.id
  unfolding settled skip_job
  id-settled j none = refl
  id-settled j (some p) = ground arith

  run-settled :
      (j : Job) (p : Option PendingRender) → (settled w now base needs j p).run_id ≡ j.run_id
  unfolding settled skip_job
  run-settled j none = refl
  run-settled j (some p) = ground arith

  -- The row of a ready job gets what its turn makes of it, and nothing else.
  pub row_after-ready :
      (rs : List Job) (j : Job)
      → UniqueIds rs
      → All (λ r. r.run_id ≡ j.run_id) rs
      → Memᴰ j rs
      → row_after w now base needs rs j ≡ settled w now base needs j j.pending_render
  unfolding row_after
  row_after-ready [] j u h m = elim m [ ]
  row_after-ready (r ∷ rs) j u h (Memᴰ.head e) =
      subst
        (λ k.
          row_after w now base needs rs (settle_row w now base needs r r.pending_render k)
          ≡ settled w now base needs k k.pending_render)
        (sym e)
        (ap (row_after w now base needs rs) (settle_row-own r r.pending_render)
          ∙ row_after-same_run rs (settled w now base needs r r.pending_render) (
              All-both r j rs (settled w now base needs r r.pending_render)
                (id-settled r r.pending_render)
                (run-settled r r.pending_render ∙ ap (λ (k : Job). k.run_id) (sym e)) u.0 h.1))
  row_after-ready (r ∷ rs) j u h (Memᴰ.tail m) =
      rw (settle_row-same_run r j r.pending_render (All-elim (λ k. r.id ≢ k.id) rs u.0 m) h.0)
        (row_after-ready rs j u.1 h.1 m)
