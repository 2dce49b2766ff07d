-- ===== src/MergeReadiness/Approvals.antt =====
-- What `_review_state` makes of the reviews of a pull request.
use mathlib.Core.List.{Memᴰ}
use mathlib.Core.Bool.{false≢true}
use github_emulator.Prelude.{
  ℕ, ◌≡◌, ◌≢◌, ◌≤◌, refl, sym, ap, ◌∙◌, subst, Bool, true, false, not, ◌&&◌, ◌||◌, Bool-cases,
  Option, none, some, List, [], ◌∷◌, ◌++◌, ◌==◌, nat_eq, string_eq, ltb, if◌then◌else◌, inl, inr,
  arith,
}
use github_emulator.Prelude.Lists.{any, filter, length}
use github_emulator.Prelude.Rows.{any-mem, mem-any}
use github_emulator.Repositories.{PullRequest, find_by}
use github_emulator.MergeReadiness.Rows.{Tables, ReviewSettings, Review, Reason}
use github_emulator.MergeReadiness.Checks.{last_where}
use github_emulator.MergeReadiness.Reviews.{
  note, note_all, current_reviews, approvals, required_count, last_push_approved, review_reasons,
  review_state_of, is_nil,
}

abbrev user : Review → ℕ
user r = r.user_id

abbrev or_else : Option Review → Option Review → Option Review
or_else (some r) o = some r
or_else none o = o

find-note :
    (u : ℕ) (r : Review) (qs : List Review)
    → find_by user (note r qs) u ≡ (if r.user_id == u then some r else find_by user qs u)
find-note u r [] = refl
find-note u r (q ∷ qs) = ground (arith, find-note u r qs)

last-cons :
    (u : ℕ) (r : Review) (rs : List Review) (o : Option Review)
    → or_else (last_where (λ r. r.user_id == u) (r ∷ rs)) o
      ≡ or_else (last_where (λ r. r.user_id == u) rs) (if r.user_id == u then some r else o)
last-cons u r rs o = ground arith

find-note_all :
    (u : ℕ) (rs qs : List Review)
    → find_by user (note_all rs qs) u
      ≡ or_else (last_where (λ r. r.user_id == u) rs) (find_by user qs u)
find-note_all u [] qs = refl
find-note_all u (r ∷ rs) qs =
    find-note_all u rs (note r qs)
    ∙ ap (or_else (last_where (λ r. r.user_id == u) rs)) (find-note u r qs)
    ∙ sym (last-cons u r rs (find_by user qs u))

or_else-none : (o : Option Review) → or_else o none ≡ o
or_else-none none = refl
or_else-none (some r) = refl

-- The review of a user that counts is the user's last one that is not pending.
pub current_reviews-last :
    (t : Tables) (pr : PullRequest) (u : ℕ)
    → find_by (λ (r : Review). r.user_id) (current_reviews t pr) u
      ≡ last_where
          (λ r. r.user_id == u)
          (filter (λ r. r.pull_request_id == pr.id && not (r.state == "PENDING")) t.reviews)
current_reviews-last t pr u =
    find-note_all u
      (filter (λ r. r.pull_request_id == pr.id && not (r.state == "PENDING")) t.reviews) []
    ∙ or_else-none _

two_reasons :
    (a b : Bool) (x y : Reason)
    → is_nil ((if a then x ∷ [] else []) ++ (if b then [] else y ∷ [])) ≡ (not a && b)
two_reasons true b x y = refl
two_reasons false true x y = refl
two_reasons false false x y = refl

pushed :
    (pr : PullRequest) (s : ReviewSettings) (rs : List Review) (o : Option ℕ) (pusher : ℕ)
    → (elim o [
      | none ↦ true
      | some p ↦ not s.require_last_push_approval || any (λ r. not (r.user_id == p)) rs
    ])
      ≡ true
    → o ≡ some pusher
    → s.require_last_push_approval ≡ true
    → (r : Review) × Memᴰ r rs × (r.user_id ≢ pusher)
pushed pr s rs none pusher h e q = cc
pushed pr s rs (some p) pusher h e q =
    let same : p ≡ pusher = cc in
    let (r, m, n) = any-mem (λ r. not (r.user_id == p)) rs (ground arith) in
    (r, m, subst (λ z. r.user_id ≢ z) same (ground arith))

is_nil-eq : (rs : List Reason) → rs ≡ [] → is_nil rs ≡ true
is_nil-eq [] h = refl
is_nil-eq (r ∷ rs) h = cc

-- Where the reviews give no reason against merging: no current review requests changes, at least as
-- many approvals count as are required, and where the last push must be approved, one of them is by
-- another user than its author.
pub record Reviewed (t : Tables) (pr : PullRequest) (s : ReviewSettings) : Type 0 where
  pub unopposed : (r : Review) → Memᴰ r (current_reviews t pr) → r.state ≢ "CHANGES_REQUESTED"
  pub enough : required_count s ≤ length (approvals t pr s)
  pub push_approved :
      (pusher : ℕ)
      → pr.last_push_by_id ≡ some pusher
      → s.require_last_push_approval ≡ true
      → (r : Review) × Memᴰ r (approvals t pr s) × (r.user_id ≢ pusher)

abbrev opposes : Review → Bool
opposes r = r.state == "CHANGES_REQUESTED"

-- Reviews that give no reason against merging meet the settings: see `Reviewed`.
pub review_state-Reviewed :
    (t : Tables) (pr : PullRequest) (s : ReviewSettings)
    → (review_state_of t pr (some s)).0 ≡ []
    → Reviewed t pr s
unfolding review_state_of
review_state-Reviewed t pr s h = elim (Bool-cases (any opposes (current_reviews t pr))) [
  | inl e ↦ let bad = rw e at h in cc (bad)
  | inr e ↦
      let none_against = rw e at h in
      let tests =
        sym (
          two_reasons (ltb (length (approvals t pr s)) (required_count s))
            (last_push_approved pr s (approvals t pr s)) _ _)
        ∙ is_nil-eq (review_reasons pr s (approvals t pr s)) none_against in
      record {
        unopposed = λ r m q. false≢true (
            sym e
            ∙ mem-any opposes (current_reviews t pr) m
                (subst (λ z. (z == "CHANGES_REQUESTED") ≡ true) (sym q) refl));
        enough = ground arith;
        push_approved = λ pusher p q.
            pushed pr s (approvals t pr s) pr.last_push_by_id pusher (ground arith) p q;
      }
]
