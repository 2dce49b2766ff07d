-- ===== src/MergeReadiness/Repository.antt =====
-- src/app/services/merge_readiness_service.py: what is asked of the repository and its collaborators.
-- The git commands are arguments.
use github_emulator.Prelude.{
  ℕ, String, Bool, true, false, not, ◌&&◌, ◌||◌, Option, none, some, [], ◌∷◌, ◌==◌, nat_eq,
  string_eq, ltb, if◌then◌else◌,
}
use github_emulator.Prelude.Lists.{any, all, length}
use github_emulator.Prelude.Text.{Text, lower, codes, strip_by, is_space}
use github_emulator.Repositories.{User, Repository, PullRequest, owns, collaborates}
use github_emulator.MergeReadiness.Rows.{Tables}

-- The git commands on a bare repository: the return code, and the output of merge-tree. `is_dir` is
-- `os.path.isdir`.
pub record Git : Type 0 where
  pub is_dir : String → Bool
  pub merge_tree : String → String → String → ℕ × Text
  pub is_ancestor : String → String → String → ℕ

abbrev in_range : ℕ → ℕ → ℕ → Bool
in_range lo hi c = not (ltb c lo) && not (ltb hi c)

abbrev is_line_break : ℕ → Bool
is_line_break c = in_range 10 13 c || in_range 28 30 c || c == 133 || in_range 8232 8233 c

-- text.splitlines()[0] if there is a line
abbrev first_line : Text → Text
first_line [] = []
first_line (c ∷ s) = let rest = first_line s in if is_line_break c then [] else c ∷ rest

abbrev is_hex : ℕ → Bool
is_hex c = any (λ d. d == c) (codes "0123456789abcdef")

abbrev is_object_id : Text → Bool
is_object_id s = (length s == 40 || length s == 64) && all is_hex (lower s)

abbrev pub is_empty : String → Bool
is_empty s = s == ""

-- `_run_git` gives 128 where there is no repository.
unfoldable pub has_merge_conflicts : Git → Repository → PullRequest → Option Bool
has_merge_conflicts git repository pr = elim repository.disk_path [
  | none ↦ none
  | some path ↦
      if is_empty path || is_empty pr.head_sha || is_empty pr.base_sha
      then none
      else let (code, out) =
          if git.is_dir path then git.merge_tree path pr.base_sha pr.head_sha else (128, []) in
        if code == 0
        then some false
        else if code == 1 && is_object_id (strip_by is_space (first_line out))
        then some true
        else none
]

unfoldable pub head_contains_base : Git → Repository → String → String → Option Bool
head_contains_base git repository base head =
    if is_empty base || is_empty head then none else elim repository.disk_path [
      | none ↦ none
      | some path ↦
          if not (is_empty path) && git.is_dir path
          then (let code = git.is_ancestor path base head in
              if code == 0 then some true else if code == 1 then some false else none)
          else none
    ]

unfoldable pub is_repository_admin : Tables → Repository → Option User → Bool
is_repository_admin t repository none = false
is_repository_admin t repository (some actor) =
    owns repository actor || collaborates (λ p. p == "admin") t.collaborators repository actor
