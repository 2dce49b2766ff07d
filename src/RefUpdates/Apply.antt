-- ===== src/RefUpdates/Apply.antt =====
-- `apply` of src/app/services/ref_update_service.py: the planned updates as one transaction of git.
use github_emulator.Prelude.{
  ℕ, ◌≡◌, ◌≢◌, Bool, true, false, not, ◌&&◌, Option, none, some, List, [], ◌∷◌, map, ◌==◌, nat_eq,
  if◌then◌else◌,
}
use github_emulator.Prelude.Lists.{all}
use github_emulator.Prelude.Rows.{All}
use github_emulator.Prelude.Text.{Text, codes, text_eq, after_prefix}
use github_emulator.Repositories.{is_some}
use github_emulator.RefUpdates.Plan.{
  Command, verify, delete, create, update, Git, PlannedUpdate, RefUpdateError, ref_changed, is_oid,
  zero_oid,
}

-- before == after
abbrev pub same : Option Text → Option Text → Bool
same none none = true
same (some a) (some b) = a == b
same _ _ = false

abbrev pub change : Text → Option Text → Option Text → Command
change name before none = delete name before
change name none (some a) = create name a
change name (some b) (some a) = update name a b

abbrev pub command : PlannedUpdate → Command
command p = if same p.before p.after then verify p.name p.before else change p.name p.before p.after

abbrev pub is_verify : Command → Bool
is_verify (verify name o) = true
is_verify _ = false

abbrev pub target : Command → Text
target (verify n o) = n
target (delete n o) = n
target (create n a) = n
target (update n a b) = n

-- The value that a line asks for before, and the one that it leaves.
abbrev pub old : Command → Option Text
old (verify n o) = o
old (delete n o) = o
old (create n a) = none
old (update n a b) = some b

abbrev pub new : Command → Option Text
new (verify n o) = o
new (delete n o) = none
new (create n a) = some a
new (update n a b) = some a

-- No two lines have one target.
abbrev pub distinct : List Command → Bool
distinct [] = true
distinct (c ∷ cs) = all (λ d. not (target d == target c)) cs && distinct cs

-- Refs by name after some lines, where the lines have different targets.
abbrev pub written : List Command → (Text → Option Text) → Text → Option Text
written [] refs = refs
written (c ∷ cs) refs = λ name. if target c == name then new c else written cs refs name

-- Absent, or an object id that is not all zeros.
abbrev pub IsValue : Option Text → Type 0
IsValue none = Unit
IsValue (some v) = (is_oid v ≡ true) × (v ≢ zero_oid)

module _ {R : Type 0} where
  abbrev pub finish : ℕ × R → Option RefUpdateError × R
  finish (code, repo) = (if code == 0 then none else some ref_changed, repo)

  -- The error that is raised, if any, and the repository afterwards.
  unfoldable pub apply : Git R → R → List PlannedUpdate → Option RefUpdateError × R
  apply git repo planned =
      let lines = map command planned in
      if all is_verify lines then (none, repo) else finish (git.update_ref repo lines)

  -- A valid name under refs/.
  abbrev pub IsFull : Git R → Text → Type 0
  IsFull git name =
      (is_some (after_prefix (codes "refs/") name) ≡ true) × (git.check_ref_format name ≡ 0)

  abbrev pub IsLine : Git R → Command → Type 0
  IsLine git c = IsFull git (target c) × IsValue (old c) × IsValue (new c)

  -- What git documents of `update-ref --stdin`, of a repository with SHA-1 ids in which no ref
  -- under refs/ is symbolic, or is named as if refs/ were repeated (refs/heads/refs/heads/main).
  -- If it exits with 0, no two lines have one target, each target had its line's old value, and
  -- the refs of full names are those before with the lines written to them. Nothing is said of
  -- HEAD, of short names or of revisions, which may come to other objects afterwards. Otherwise
  -- nothing was changed. And what `rev-parse` prints is an object id.
  pub record Transactional (git : Git R) : Type 0 where
    pub verified :
        (repo : R) (lines : List Command)
        → All (IsLine git) lines
        → (git.update_ref repo lines).0 ≡ 0
        → (distinct lines ≡ true) × All (λ c. git.rev_parse repo (target c) ≡ old c) lines
    pub done :
        (repo : R) (lines : List Command)
        → All (IsLine git) lines
        → (git.update_ref repo lines).0 ≡ 0
        → (name : Text) → IsFull git name
        → git.rev_parse (git.update_ref repo lines).1 name ≡ written lines (git.rev_parse repo) name
    pub undone :
        (repo : R) (lines : List Command)
        → (git.update_ref repo lines).0 ≢ 0
        → (git.update_ref repo lines).1 ≡ repo
    pub printed : (repo : R) (name : Text) → IsFull git name → IsValue (git.rev_parse repo name)
