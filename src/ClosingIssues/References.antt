-- ===== src/ClosingIssues/References.antt =====
-- `parse_closing_references`, `_reference_texts` and `resolve_closing_issues`. What the pattern
-- of closing keywords finds in a text, and the log of git, are arguments.
use github_emulator.Prelude.{
  ℕ, Bool, true, false, not, ◌&&◌, Option, none, some, List, [], ◌∷◌, ◌++◌, map, ◌==◌, nat_eq,
  string_eq, if◌then◌else◌,
}
use github_emulator.Prelude.Lists.{any}
use github_emulator.Prelude.Text.{Text, text_eq, lower, before, is_empty_text}
use github_emulator.Repositories.{Repository, Issue, PullRequest}

-- The groups of one match.
pub record Reference : Type 0 where
  pub owner : Option Text
  pub repo : Option Text
  pub number : ℕ

-- if key not in seen: seen.add(key), and the item is kept
module _ {A K : Type 0} (key : A → K) (same : K → K → Bool) where
  abbrev pub unique : List K → List A → List A
  unique seen [] = []
  unique seen (x ∷ xs) =
      let known = unique seen xs in
      let fresh = unique (key x ∷ seen) xs in if any (same (key x)) seen then known else x ∷ fresh

abbrev pub Key : Type 0
Key = Option Text × Option Text × ℕ

abbrev pub same_text : Option Text → Option Text → Bool
same_text none none = true
same_text (some a) (some b) = a == b
same_text _ _ = false

abbrev pub same_key : Key → Key → Bool
same_key (o, r, n) (p, s, m) = same_text o p && same_text r s && n == m

-- name.lower() if name else default
abbrev pub lower_or : Option Text → Option Text → Option Text
lower_or none d = d
lower_or (some name) d = if is_empty_text name then d else some (lower name)

abbrev pub normalized : Reference → Key
normalized r = (lower_or r.owner none, lower_or r.repo none, r.number)

unfoldable pub parse_closing_references : (Text → List Reference) → Text → List Reference
parse_closing_references find text = unique normalized same_key [] (find text)

abbrev join_parts : Option Text → Option Text → Text
join_parts none none = []
join_parts (some a) none = a
join_parts none (some b) = b
join_parts (some a) (some b) =
    if is_empty_text a then b else if is_empty_text b then a else a ++ b'\n' ∷ b

abbrev pub concat {ℓ} : {A : Type ℓ} → List (List A) → List A
concat [] = []
concat (xs ∷ rest) = xs ++ concat rest

abbrev body_text : Option Text → Text
body_text none = []
body_text (some text) = text

-- The body, and with `include` the messages of the commits, where the repository is on disk.
unfoldable pub reference_texts :
    Option Text → Bool → Bool → List (Option Text × Option Text) → List Text
reference_texts body include on_disk commits =
    if include && on_disk
    then body_text body ∷ map (λ c. join_parts c.0 c.1) commits
    else body_text body ∷ []

-- The key of a reference, with the pull request's own repository where it names none.
abbrev pub full_key : Repository → Reference → Key
full_key r ref = (
  lower_or ref.owner (some (lower (before b'/' r.full_name))),
  lower_or ref.repo (some (lower r.name)),
  ref.number,
)

-- select(Repository).where(func.lower(Repository.full_name) == full_name)
abbrev named : List Repository → Text → Option Repository
named [] full_name = none
named (r ∷ rs) full_name =
    let rest = named rs full_name in if lower r.full_name == full_name then some r else rest

abbrev target : List Repository → Repository → Option Text → Option Text → Option Repository
target rows own (some owner) (some repo) =
    if not (is_empty_text owner) && not (is_empty_text repo)
    then named rows (lower (owner ++ b'/' ∷ repo))
    else some own
target rows own _ _ = some own

abbrev issue_at : List Issue → Option Repository → ℕ → Option Issue
issue_at rows none number = none
issue_at [] (some r) number = none
issue_at (i ∷ rows) (some r) number =
    let rest = issue_at rows (some r) number in
    if i.repo_id == r.id && i.number == number then some i else rest

abbrev keep_other : PullRequest → Option Issue → List Issue → List Issue
keep_other pr none rest = rest
keep_other pr (some i) rest = if i.id == pr.issue_id then rest else i ∷ rest

unfoldable pub resolve_all :
    List Repository → List Issue → PullRequest → Repository → List Reference → List Issue
resolve_all repositories issues pr own [] = []
resolve_all repositories issues pr own (ref ∷ refs) =
    keep_other pr (issue_at issues (target repositories own ref.owner ref.repo) ref.number)
      (resolve_all repositories issues pr own refs)

unfoldable pub references_of : (Text → List Reference) → Repository → List Text → List Reference
unfolding parse_closing_references
references_of find own texts =
    unique (full_key own) same_key [] (concat (map (parse_closing_references find) texts))

unfoldable pub resolve_closing_issues :
    (Text → List Reference)
    → List Repository
    → List Issue
    → PullRequest
    → Repository
    → List Text
    → List Issue
unfolding resolve_all references_of
resolve_closing_issues find repositories issues pr own texts =
    if not (pr.base_ref == own.default_branch)
    then []
    else resolve_all repositories issues pr own (references_of find own texts)
