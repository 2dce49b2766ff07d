-- ===== src/Scheduler/Rows.antt =====
-- The scheduler's updates of the job table, read row by row.
use mathlib.Core.List.{map-map}
use github_emulator.Prelude.{
  nat_eq, string_eq, ℕ, String, ◌≡◌, refl, sym, ap, ◌∙◌, Bool, true, false, Option, none, some,
  List, [], ◌∷◌, ◌==◌, if◌then◌else◌, map,
}
use github_emulator.Value.{Fields}
use github_emulator.Jobs.{PendingRender, Job, Db, assign, update_jobs}
use github_emulator.Scheduler.Dispatch.{
  Workflows, superseded_by, cancel_job, promote, supersede_group, supersede_for_concurrency, settle,
  settle_all, job_context, render_job, skip_pending, enqueue,
}

unfoldable pub supersede_row : ℕ → Job → Option String → Job → Job
supersede_row now r none j = j
supersede_row now r (some g) j =
    if g == "" then j else if superseded_by r g j then cancel_job now j else j

unfoldable pub promote_row : ℕ → Job → Job → Job
unfolding supersede_row
promote_row now r j = assign r.id enqueue (supersede_row now r r.concurrency_group j)

map_self {ℓ} : {A : Type ℓ} (xs : List A) → map (λ x. x) xs ≡ xs
map_self [] = refl
map_self (x ∷ xs) = ap (λ r. x ∷ r) (map_self xs)

-- An update under a test is an update of each row under the test.
map-if {ℓ} :
    {S : Type ℓ} (b : Bool) (jobs : S → List Job) (m n : S) (f g : Job → Job) (js : List Job)
    → jobs m ≡ map f js
    → jobs n ≡ map g js
    → jobs (if b then m else n) ≡ map (λ j. if b then f j else g j) js
map-if true jobs m n f g js p q = p
map-if false jobs m n f g js p q = q

jobs-supersede :
    (now : ℕ) (r : Job) (g : Option String) (db : Db)
    → (supersede_group now r g db).jobs ≡ map (supersede_row now r g) db.jobs
unfolding supersede_group supersede_row supersede_for_concurrency
jobs-supersede now r none db = sym (map_self db.jobs)
jobs-supersede now r (some g) db =
    map-if (g == "") (λ (s : Db). s.jobs) _ _ _ _ db.jobs (sym (map_self db.jobs)) refl

jobs-promote :
    (now : ℕ) (r : Job) (db : Db) → (promote now r db).jobs ≡ map (promote_row now r) db.jobs
unfolding promote promote_row
jobs-promote now r db =
    ap (map (assign r.id enqueue)) (jobs-supersede now r r.concurrency_group db)
    ∙ map-map _ _ db.jobs

module _ (w : Workflows) where
  unfoldable pub settle_row : ℕ → Fields → Fields → Job → Option PendingRender → Job → Job
  unfolding promote_row
  settle_row now base needs r none j = promote_row now r j
  settle_row now base needs r (some pending) j =
      let context = job_context w base needs pending in
      if w.evaluate_job_if pending.condition context
      then promote_row now r (assign r.id (render_job w context pending) j)
      else assign r.id (skip_pending now) j

  pub jobs-settle :
      (now : ℕ) (base needs : Fields) (r : Job) (p : Option PendingRender) (db : Db)
      → (settle w now base needs r p db).0.jobs ≡ map (settle_row now base needs r p) db.jobs
  unfolding settle settle_row
  jobs-settle now base needs r none db = jobs-promote now r db
  jobs-settle now base needs r (some p) db =
      let context = job_context w base needs p in
      let rendered = update_jobs db (assign r.id (render_job w context p)) in
      map-if (w.evaluate_job_if p.condition context) (λ (s : Db × Bool). s.0.jobs) _ _ _ _ db.jobs
        (jobs-promote now r rendered ∙ map-map _ _ db.jobs) refl

  -- All the turns of the loop, on one row.
  unfoldable pub row_after : ℕ → Fields → Fields → List Job → Job → Job
  row_after now base needs [] j = j
  row_after now base needs (r ∷ rs) j =
      row_after now base needs rs (settle_row now base needs r r.pending_render j)

  pub jobs-settle_all :
      (now : ℕ) (base needs : Fields) (rs : List Job) (db : Db)
      → (settle_all w now base needs rs db).0.jobs ≡ map (row_after now base needs rs) db.jobs
  unfolding settle_all row_after
  jobs-settle_all now base needs [] db = sym (map_self db.jobs)
  jobs-settle_all now base needs (r ∷ rs) db =
      jobs-settle_all now base needs rs (settle w now base needs r r.pending_render db).0
      ∙ ap (map (row_after now base needs rs)) (jobs-settle now base needs r r.pending_render db)
      ∙ map-map _ _ db.jobs

  -- What the loop makes of the job whose turn it is.
  unfoldable pub settled : ℕ → Fields → Fields → Job → Option PendingRender → Job
  settled now base needs r none = enqueue r
  settled now base needs r (some pending) =
      let context = job_context w base needs pending in
      if w.evaluate_job_if pending.condition context
      then enqueue (render_job w context pending r)
      else skip_pending now r
