-- ===== src/Scheduler/Liveness.antt =====
-- `dispatch_ready_jobs` cannot leave a run stuck whose needs have no cycle.
use mathlib.Core.List.{Memᴰ}
use github_emulator.Prelude.{
  ℕ, zero, suc, String, ◌≡◌, ◌≢◌, ◌⊎◌, ◌<◌, sym, subst, Option, none, some, List, [], ◌∷◌, inl, inr,
  arith,
}
use github_emulator.Prelude.Rows.{All, Rel-elim_left}
use github_emulator.Value.{Fields}
use github_emulator.Jobs.{Job, Db, PendingRender, waiting, key}
use github_emulator.Scheduler.Dispatch.{
  Workflows, skip_job, skip_blocked, dispatch_ready_jobs, base_context, needs_context,
}
use github_emulator.Scheduler.Needs.{
  NeedsFailed, NeedsMet, Succeeded, Unsuccessful, NeedsFailed-cases,
}
use github_emulator.Scheduler.Rows.{settled}
use github_emulator.Scheduler.Turns.{UniqueIds}
use github_emulator.Scheduler.Loop.{Dispatched}
use github_emulator.Scheduler.Progress.{Advances-Dispatched, dispatch-Dispatched}

-- Nothing of the run is under way: each of its jobs waits, or has one of the four conclusions that
-- the scheduler tests for.
abbrev pub Idle : Db → ℕ → Type 0
Idle db run =
    (j : Job)
    → Memᴰ j db.jobs
    → j.run_id ≡ run
    → (j.status ≡ waiting) ⊎ Succeeded j ⊎ Unsuccessful j

-- Every key that a job of the run needs is that of a job of the run, and stands before its own in
-- some order.
abbrev pub Acyclic : (String → ℕ) → Db → ℕ → Type 0
Acyclic order db run =
    (j : Job)
    → Memᴰ j db.jobs
    → j.run_id ≡ run
    → All
        (λ n.
          (order n < order (key j)) × ((d : Job) × Memᴰ d db.jobs × (d.run_id ≡ run) × (key d ≡ n)))
        j.needs

abbrev Movable : Db → ℕ → Type 0
Movable db run =
    (a : Job) × Memᴰ a db.jobs
    × (a.run_id ≡ run)
    × (a.status ≡ waiting)
    × (NeedsMet db run a ⊎ NeedsFailed db run a)

module _ (order : String → ℕ) (db : Db) (run : ℕ) (idle : Idle db run)
    (acyclic : Acyclic order db run) where
  abbrev Before : ℕ → String → Type 0
  Before k n = (order n < k) × ((d : Job) × Memᴰ d db.jobs × (d.run_id ≡ run) × (key d ≡ n))

  abbrev Met : String → Type 0
  Met n = (d : Job) × Memᴰ d db.jobs × (d.run_id ≡ run) × Succeeded d × (key d ≡ n)

  -- Either some job can move, or a key of `ns` is that of a job without success, or all succeeded.
  needs_at :
      (k : ℕ) (ns : List String)
      → ((d : Job)
          → Memᴰ d db.jobs
          → d.run_id ≡ run
          → d.status ≡ waiting
          → order (key d) < k
          → Movable db run)
      → All (Before k) ns
      → Movable db run
        ⊎ ((d : Job) × Memᴰ d db.jobs × (d.run_id ≡ run) × Unsuccessful d × Memᴰ (key d) ns)
        ⊎ All Met ns
  needs_at k [] ih b = inr (inr tt)
  needs_at k (n ∷ ns) ih b =
      let (lt, found) = b.0 in
      let (d, m, at, e) = found in
      elim (idle d m at) [
        | inl s ↦ inl (ih d m at s (subst (λ z. order z < k) (sym e) lt))
        | inr r ↦ elim r [
          | inr u ↦ inr (inl (d, m, at, u, Memᴰ.head e))
          | inl s ↦ elim (needs_at k ns ih b.1) [
            | inl f ↦ inl f
            | inr q ↦ elim q [
              | inl (d', m', at', u', k') ↦ inr (inl (d', m', at', u', Memᴰ.tail k'))
              | inr met ↦ inr (inr ((d, m, at, s, e), met))
            ]
          ]
        ]
      ]

  Movable-at :
      (k : ℕ) (j : Job)
      → Memᴰ j db.jobs
      → j.run_id ≡ run
      → j.status ≡ waiting
      → order (key j) < k
      → Movable db run
  Movable-at zero j m at s lt = absurd (omega arith)
  Movable-at (suc k) j m at s lt =
      elim (needs_at (order (key j)) j.needs
        (λ d m' at' s' lt'. Movable-at k d m' at' s' (omega arith)) (acyclic j m at)) [
          | inl f ↦ f
          | inr q ↦ elim q [
            | inl (d, m', at', u, n) ↦ (j, m, at, s, inr (d, m', at', u, n))
            | inr met ↦ (j, m, at, s, inl met)
          ]
        ]

settled-ne-waiting :
    (w : Workflows) (now : ℕ) (base needs : Fields) (a : Job) (p : Option PendingRender)
    → (settled w now base needs a p).status ≢ waiting
unfolding settled skip_job
settled-ne-waiting w now base needs a none = ground arith
settled-ne-waiting w now base needs a (some p) = ground arith

skip_job-ne-waiting : (now : ℕ) (a : Job) → (skip_job now a).status ≢ waiting
unfolding skip_job
skip_job-ne-waiting now a = ground arith

moves :
    (w : Workflows) (now run : ℕ) (base needs : Fields) (db : Db) (a b : Job)
    → Dispatched w now run base needs db a b
    → a.run_id ≡ run
    → a.status ≡ waiting
    → NeedsMet db run a ⊎ NeedsFailed db run a
    → b.status ≢ waiting
moves w now run base needs db a b d e s due = elim (NeedsFailed-cases db run a) [
  | inl f ↦ rw (d.blocked e s f) (skip_job-ne-waiting now a)
  | inr f ↦ elim due [
    | inl u ↦ rw (d.ready e s u f) (settled-ne-waiting w now base needs a a.pending_render)
    | inr f' ↦ absurd (f f')
  ]
]

-- Where each job of a run waits, or is completed with success, failure, cancelled or skipped, and
-- each key that one needs is that of a job of the run and stands before its own in some order, one
-- call of `dispatch_ready_jobs` takes at least one of the run's waiting jobs out of waiting. The
-- conditions and the renderers that it calls return.
pub dispatch-progress :
    (w : Workflows) (now run : ℕ) (db : Db) (order : String → ℕ) (j : Job)
    → UniqueIds db.jobs
    → Idle db run
    → Acyclic order db run
    → Memᴰ j db.jobs
    → j.run_id ≡ run
    → j.status ≡ waiting
    → (a b : Job) × Memᴰ a db.jobs
      × Memᴰ b (dispatch_ready_jobs w now run db).0.jobs
      × (a.run_id ≡ run)
      × (a.status ≡ waiting)
      × (b.id ≡ a.id)
      × (b.status ≢ waiting)
dispatch-progress w now run db order j unique idle acyclic m at s =
    let (a, k, e, t, due) =
      Movable-at order db run idle acyclic (suc (order (key j))) j m at s (omega arith) in
    let (b, l, d) = Rel-elim_left _ db.jobs _ (dispatch-Dispatched w now run db unique) k in
    let base = base_context w run db in
    let needs = needs_context w run (skip_blocked now run db) in
    (
      a,
      b,
      k,
      l,
      e,
      t,
      (Advances-Dispatched w now run base needs db a b d).id_kept,
      moves w now run base needs db a b d e t due,
    )
