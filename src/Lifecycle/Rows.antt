-- ===== src/Lifecycle/Rows.antt =====
-- Rows that are in order, and changes of a row that are lawful.
use mathlib.Core.Path.{ap₂}
use github_emulator.Prelude.{
  ℕ, ◌≡◌, ◌≢◌, ◌⊎◌, refl, sym, ap, ◌∙◌, subst, Option, none, some, List, [], ◌∷◌, inl, inr,
}
use github_emulator.Prelude.Rows.{All, Rel}
use github_emulator.Jobs.{Job, Status, waiting, queued, in_progress, completed, cancelled}
use github_emulator.Scheduler.Turns.{UniqueIds}
use github_emulator.Lifecycle.Machine.{
  Phase, Turn, Next, turn, stay, Turn-trans, phase, stopped, finished, skipped, phase_of, promoted,
  idle, ended,
}

-- A job has a conclusion exactly when it is completed, a runner while it is in progress, and none
-- before.
pub record InOrder (a : Job) : Type 0 where
  pub open_job : a.status ≢ completed → a.conclusion ≡ none
  pub over : a.status ≡ completed → a.conclusion ≢ none
  pub held : a.status ≡ in_progress → a.runner_id ≢ none
  pub free : (a.status ≡ waiting) ⊎ (a.status ≡ queued) → a.runner_id ≡ none

abbrev pub IsCancelled : Job → Type 0
IsCancelled a = (a.status ≡ completed) × (a.conclusion ≡ some cancelled)

-- A change of a row that leaves a row in order in order and a cancelled job cancelled, and relates
-- the phases of a row in order.
pub record Change (R : Phase → Phase → Type 0) (a b : Job) : Type 0 where
  pub same_id : b.id ≡ a.id
  pub same_run : b.run_id ≡ a.run_id
  pub orderly : InOrder a → InOrder b
  pub follows : InOrder a → R (phase a) (phase b)
  pub stays_cancelled : IsCancelled a → IsCancelled b

-- A lawful change makes turns of the machine; an operation may also claim; a history may do both.
abbrev pub Lawful : Job → Job → Type 0
Lawful = Change Turn

abbrev pub Stepped : Job → Job → Type 0
Stepped = Change Next

abbrev pub Kept : Job → Job → Type 0
Kept = Change (λ p q. Unit)

pub Lawful-refl : (a : Job) → Lawful a a
Lawful-refl a = record {
  same_id = refl;
  same_run = refl;
  orderly = λ h. h;
  follows = λ h. stay;
  stays_cancelled = λ h. h;
}

pub Lawful-trans : (a b c : Job) → Lawful a b → Lawful b c → Lawful a c
Lawful-trans a b c f g = record {
  same_id = g.same_id ∙ f.same_id;
  same_run = g.same_run ∙ f.same_run;
  orderly = λ h. g.orderly (f.orderly h);
  follows = λ h. Turn-trans (f.follows h) (g.follows (f.orderly h));
  stays_cancelled = λ h. g.stays_cancelled (f.stays_cancelled h);
}

pub Stepped-of : (a b : Job) → Lawful a b → Stepped a b
Stepped-of a b f = record {
  same_id = f.same_id;
  same_run = f.same_run;
  orderly = f.orderly;
  follows = λ h. turn (f.follows h);
  stays_cancelled = f.stays_cancelled;
}

pub Kept-of : (a b : Job) → Stepped a b → Kept a b
Kept-of a b f = record {
  same_id = f.same_id;
  same_run = f.same_run;
  orderly = f.orderly;
  follows = λ h. tt;
  stays_cancelled = f.stays_cancelled;
}

pub Kept-refl : (a : Job) → Kept a a
Kept-refl a = Kept-of a a (Stepped-of a a (Lawful-refl a))

pub Kept-trans : (a b c : Job) → Kept a b → Kept b c → Kept a c
Kept-trans a b c f g = record {
  same_id = g.same_id ∙ f.same_id;
  same_run = g.same_run ∙ f.same_run;
  orderly = λ h. g.orderly (f.orderly h);
  follows = λ h. tt;
  stays_cancelled = λ h. g.stays_cancelled (f.stays_cancelled h);
}

module _ (R : Phase → Phase → Type 0) where
  pub Change-All : (xs ys : List Job) → Rel (Change R) xs ys → All InOrder xs → All InOrder ys
  Change-All [] [] r h = tt
  Change-All [] (y ∷ ys) r h = absurd r
  Change-All (x ∷ xs) [] r h = absurd r
  Change-All (x ∷ xs) (y ∷ ys) r h = (r.0.orderly h.0, Change-All xs ys r.1 h.1)

  Change-others :
      (k : ℕ) (xs ys : List Job)
      → Rel (Change R) xs ys
      → All (λ x. k ≢ x.id) xs
      → All (λ y. k ≢ y.id) ys
  Change-others k [] [] r h = tt
  Change-others k [] (y ∷ ys) r h = absurd r
  Change-others k (x ∷ xs) [] r h = absurd r
  Change-others k (x ∷ xs) (y ∷ ys) r h =
      (λ e. h.0 (e ∙ r.0.same_id), Change-others k xs ys r.1 h.1)

  pub Change-unique : (xs ys : List Job) → Rel (Change R) xs ys → UniqueIds xs → UniqueIds ys
  Change-unique [] [] r u = tt
  Change-unique [] (y ∷ ys) r u = absurd r
  Change-unique (x ∷ xs) [] r u = absurd r
  Change-unique (x ∷ xs) (y ∷ ys) r u = (
    subst (λ k. All (λ z. k ≢ z.id) ys) (sym r.0.same_id) (Change-others x.id xs ys r.1 u.0),
    Change-unique xs ys r.1 u.1,
  )

two_statuses : completed ≡ in_progress → ⊥
two_statuses e = cc

waiting_is_open : waiting ≡ completed → ⊥
waiting_is_open e = cc

queued_is_open : queued ≡ completed → ⊥
queued_is_open e = cc

queued_is_idle : queued ≡ in_progress → ⊥
queued_is_idle e = cc

not_free : (s : Status) → s ≡ completed → (s ≡ waiting) ⊎ (s ≡ queued) → ⊥
not_free s e (inl h) = cc
not_free s e (inr h) = cc

before :
    (a b : Job)
    → b.status ≡ a.status
    → (b.status ≡ waiting) ⊎ (b.status ≡ queued)
    → (a.status ≡ waiting) ⊎ (a.status ≡ queued)
before a b s (inl e) = inl (sym s ∙ e)
before a b s (inr e) = inr (sym s ∙ e)

ends :
    (s : Status) (r : Option ℕ)
    → s ≢ completed
    → (s ≡ in_progress → r ≢ none)
    → Turn (phase_of s r) ended
ends waiting r n h = skipped
ends queued r n h = stopped
ends in_progress none n h = absurd (h refl refl)
ends in_progress (some r) n h = finished r
ends completed r n h = absurd (n refl)

pub InOrder-ended : (b : Job) → b.status ≡ completed → b.conclusion ≢ none → InOrder b
InOrder-ended b s c = record {
  open_job = λ n. absurd (n s);
  over = λ e. c;
  held = λ e. absurd (two_statuses (sym s ∙ e));
  free = λ e. absurd (not_free b.status s e);
}

-- A job that is not over may end, with a conclusion.
pub Lawful-end :
    (a b : Job)
    → b.id ≡ a.id
    → b.run_id ≡ a.run_id
    → a.status ≢ completed
    → b.status ≡ completed
    → b.conclusion ≢ none
    → Lawful a b
Lawful-end a b i r n s c = record {
  same_id = i;
  same_run = r;
  orderly = λ h. InOrder-ended b s c;
  follows = λ h.
      subst (Turn (phase a)) (sym (ap (λ t. phase_of t b.runner_id) s))
        (ends a.status a.runner_id n h.held);
  stays_cancelled = λ h. absurd (n h.0);
}

-- A change of columns that the machine does not see.
pub Lawful-same :
    (a b : Job)
    → b.id ≡ a.id
    → b.run_id ≡ a.run_id
    → b.status ≡ a.status
    → b.conclusion ≡ a.conclusion
    → b.runner_id ≡ a.runner_id
    → Lawful a b
Lawful-same a b i r s c k = record {
  same_id = i;
  same_run = r;
  orderly = λ h. record {
    open_job = λ n. c ∙ h.open_job (λ e. n (s ∙ e));
    over = λ e z. h.over (sym s ∙ e) (sym c ∙ z);
    held = λ e z. h.held (sym s ∙ e) (sym k ∙ z);
    free = λ e. k ∙ h.free (before a b s e);
  };
  follows = λ h. subst (Turn (phase a)) (sym (ap₂ phase_of s k)) stay;
  stays_cancelled = λ h. (s ∙ h.0, c ∙ h.1);
}

-- A waiting job may be queued.
pub Lawful-queue :
    (a b : Job)
    → b.id ≡ a.id
    → b.run_id ≡ a.run_id
    → a.status ≡ waiting
    → b.status ≡ queued
    → b.conclusion ≡ a.conclusion
    → b.runner_id ≡ a.runner_id
    → Lawful a b
Lawful-queue a b i r w s c k = record {
  same_id = i;
  same_run = r;
  orderly = λ h. record {
    open_job = λ n. c ∙ h.open_job (λ e. waiting_is_open (sym w ∙ e));
    over = λ e. absurd (queued_is_open (sym s ∙ e));
    held = λ e. absurd (queued_is_idle (sym s ∙ e));
    free = λ e. k ∙ h.free (inl w);
  };
  follows = λ h.
      subst (λ p. Turn p (phase b)) (sym (ap (λ t. phase_of t a.runner_id) w))
        (subst (Turn idle) (sym (ap (λ t. phase_of t b.runner_id) s)) promoted);
  stays_cancelled = λ h. absurd (waiting_is_open (sym w ∙ h.0));
}
