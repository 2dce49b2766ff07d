-- ===== src/Scheduler/Promotion.antt =====
-- The list that `dispatch_ready_jobs` returns.
use mathlib.Core.List.{Memᴰ}
use github_emulator.Prelude.{
  nat_eq, ℕ, ◌≡◌, ◌≢◌, ◌⊎◌, refl, sym, ap, subst, ◌∙◌, Bool, true, false, Option, none, some, List,
  [], ◌∷◌, inl, inr, arith, if◌then◌else◌,
}
use github_emulator.Prelude.Rows.{All, All-elim, All-mono, Rel-elim_left}
use github_emulator.Value.{Fields}
use github_emulator.Jobs.{Job, Db, PendingRender, waiting, queued, completed, success, key}
use github_emulator.Scheduler.Dispatch.{
  Workflows, jobs_of, is_ready, settle, settle_all, skip_blocked, ready_jobs, dispatch_ready_jobs,
  base_context, needs_context,
}
use github_emulator.Scheduler.Needs.{NeedsFailed, NeedsMet, NeedsFailed-blocked, met-NeedsMet}
use github_emulator.Scheduler.Rows.{settled}
use github_emulator.Scheduler.Turns.{UniqueIds}
use github_emulator.Scheduler.Loop.{ready-mem}
use github_emulator.Scheduler.Progress.{Advances-Dispatched, dispatch-Dispatched}

module _ (w : Workflows) (now : ℕ) (base needs : Fields) where
  settle-queued :
      (r : Job) (p : Option PendingRender) (db : Db)
      → (settle w now base needs r p db).1 ≡ true
      → (settled w now base needs r p).status ≡ queued
  unfolding settle settled
  settle-queued r none db h = refl
  settle-queued r (some p) db h = ground arith

  if-mem :
      {i : ℕ} (b : Bool) (r : Job) (rest : List ℕ)
      → Memᴰ i (if b then r.id ∷ rest else rest)
      → ((b ≡ true) × (i ≡ r.id)) ⊎ Memᴰ i rest
  if-mem true r rest (Memᴰ.head e) = inl (refl, e)
  if-mem true r rest (Memᴰ.tail m) = inr m
  if-mem false r rest m = inr m

  settle_all-promoted :
      {i : ℕ} (rs : List Job) (db : Db)
      → Memᴰ i (settle_all w now base needs rs db).1
      → (r : Job) × Memᴰ r rs
        × (i ≡ r.id)
        × ((settled w now base needs r r.pending_render).status ≡ queued)
  unfolding settle_all
  settle_all-promoted [] db m = elim m [ ]
  settle_all-promoted (r ∷ rs) db m =
      let turn = settle w now base needs r r.pending_render db in
      elim (if-mem turn.1 r (settle_all w now base needs rs turn.0).1 m) [
        | inl (done, e) ↦ (r, Memᴰ.head refl, e, settle-queued r r.pending_render db done)
        | inr k ↦ let (q, l, e, s) = settle_all-promoted rs turn.0 k in (q, Memᴰ.tail l, e, s)
      ]

ready-due :
    (db : Db) (run : ℕ) (r : Job)
    → is_ready (jobs_of db run) r ≡ true
    → (r.status ≡ waiting) × NeedsMet db run r × (NeedsFailed db run r → ⊥)
ready-due db run r h = (
  ground arith,
  met-NeedsMet db run r (ground arith),
  λ f. let failed = NeedsFailed-blocked db run r f in absurd (ground arith),
)

-- A job that `dispatch_ready_jobs` reports as promoted was waiting in this run, some job of each key
-- that it needs had succeeded, none had failed, and its row is queued afterwards.
promoted_sound :
    (w : Workflows) (now run : ℕ) (db : Db) (i : ℕ)
    → UniqueIds db.jobs
    → Memᴰ i (dispatch_ready_jobs w now run db).1
    → (a b : Job) × Memᴰ a db.jobs
      × Memᴰ b (dispatch_ready_jobs w now run db).0.jobs
      × (a.id ≡ i)
      × (a.run_id ≡ run)
      × (a.status ≡ waiting)
      × NeedsMet db run a
      × (NeedsFailed db run a → ⊥)
      × (b.id ≡ i)
      × (b.status ≡ queued)
unfolding dispatch_ready_jobs
promoted_sound w now run db i unique m =
    let base = base_context w run db in
    let needs = needs_context w run (skip_blocked now run db) in
    let (a, k, e, s) =
      settle_all-promoted w now base needs (ready_jobs run db) (skip_blocked now run db) m in
    let (l, at, q) = ready-mem db run a k in
    let (t, met, ok) = ready-due db run a q in
    let (b, l', d) = Rel-elim_left _ db.jobs _ (dispatch-Dispatched w now run db unique) l in
    let p = d.ready at t met ok in
    (
      a,
      b,
      l,
      l',
      sym e,
      at,
      t,
      met,
      ok,
      (Advances-Dispatched w now run base needs db a b d).id_kept ∙ sym e,
      ap (λ (j : Job). j.status) p ∙ s,
    )

-- No two jobs of the run share a key, as the legs of a matrix do.
abbrev pub KeysOnce : ℕ → List Job → Type 0
KeysOnce run [] = Unit
KeysOnce run (j ∷ js) =
    (j.run_id ≡ run → All (λ z. z.run_id ≡ run → key z ≢ key j) js) × KeysOnce run js

KeysOnce-eq :
    (run : ℕ) (js : List Job) (d e : Job)
    → KeysOnce run js
    → Memᴰ d js
    → Memᴰ e js
    → d.run_id ≡ run
    → e.run_id ≡ run
    → key d ≡ key e
    → d ≡ e
KeysOnce-eq run [] d e u m n a b q = elim m [ ]
KeysOnce-eq run (j ∷ js) d e u (Memᴰ.head p) (Memᴰ.head r) a b q = p ∙ sym r
KeysOnce-eq run (j ∷ js) d e u (Memᴰ.head p) (Memᴰ.tail n) a b q = absurd (
    All-elim (λ (z : Job). z.run_id ≡ run → key z ≢ key j) js
      (u.0 (ap (λ (z : Job). z.run_id) (sym p) ∙ a)) n b (sym q ∙ ap key p))
KeysOnce-eq run (j ∷ js) d e u (Memᴰ.tail m) (Memᴰ.head r) a b q = absurd (
    All-elim (λ (z : Job). z.run_id ≡ run → key z ≢ key j) js
      (u.0 (ap (λ (z : Job). z.run_id) (sym r) ∙ b)) m a (q ∙ ap key r))
KeysOnce-eq run (j ∷ js) d e u (Memᴰ.tail m) (Memᴰ.tail n) a b q =
    KeysOnce-eq run js d e u.1 m n a b q

-- Where ids are unique and no two jobs of the run share a key: a job that `dispatch_ready_jobs`
-- reports as promoted was waiting in this run, each key that it needs is that of a job of the
-- run, every job of the run with a key that it needs had completed with success, and its row is
-- queued afterwards.
pub promoted_needs :
    (w : Workflows) (now run : ℕ) (db : Db) (i : ℕ)
    → UniqueIds db.jobs
    → KeysOnce run db.jobs
    → Memᴰ i (dispatch_ready_jobs w now run db).1
    → (a b : Job) × Memᴰ a db.jobs
      × Memᴰ b (dispatch_ready_jobs w now run db).0.jobs
      × (a.id ≡ i)
      × (a.run_id ≡ run)
      × (a.status ≡ waiting)
      × All (λ n. (d : Job) × Memᴰ d db.jobs × (d.run_id ≡ run) × (key d ≡ n)) a.needs
      × ((d : Job)
          → Memᴰ d db.jobs
          → d.run_id ≡ run
          → Memᴰ (key d) a.needs
          → (d.status ≡ completed) × (d.conclusion ≡ some success))
      × (b.id ≡ i)
      × (b.status ≡ queued)
promoted_needs w now run db i unique once m =
    let (a, b, k, l, e, at, t, met, ok, f, q) = promoted_sound w now run db i unique m in
    (
      a,
      b,
      k,
      l,
      e,
      at,
      t,
      All-mono _ _ a.needs (λ n h. (h.0, h.1, h.2, h.4)) met,
      λ d n here need.
          let (c, o, there, done, p) = All-elim _ a.needs met need in
          subst (λ (x : Job). (x.status ≡ completed) × (x.conclusion ≡ some success))
            (KeysOnce-eq run db.jobs c d once o n there here p) done,
      f,
      q,
    )
