-- ===== src/RepositoryAccess/Paths.antt =====
-- `repository_from_path`: the pattern on request paths, written out. In it a dot is any character
-- but a line feed, and the end is the end of the text or before a line feed that ends it.
use mathlib.Core.List.{reverse}
use github_emulator.Prelude.{
  Bool, not, ◌&&◌, Option, none, some, List, [], ◌∷◌, ◌==◌, nat_eq, if◌then◌else◌,
}
use github_emulator.Prelude.Lists.{any, all}
use github_emulator.Prelude.Text.{Text, codes, text_eq, before, split, is_empty_text, after_prefix}

-- A final line feed is taken away.
abbrev chop : Text → Text
chop s = elim (reverse s) [ [] ↦ [] | c ∷ t ↦ if c == 10 then reverse t else s ]

-- (?P<repo>[^/]+?)(?:\.git)? on a whole segment
unfoldable pub repo_name : Text → Text
repo_name s = elim (after_prefix (codes "tig.") (reverse s)) [
  | none ↦ s
  | some t ↦ if is_empty_text t then s else reverse t
]

-- What follows the repository is `.*`.
abbrev is_line : List Text → Bool
is_line = all (λ s. not (any (λ c. c == 10) s))

unfoldable pub owner_and_repo : List Text → Option (Text × Text)
unfolding repo_name
owner_and_repo (owner ∷ repo ∷ rest) =
    if not (is_empty_text owner) && not (is_empty_text repo) && is_line rest
    then some (owner, repo_name repo)
    else none
owner_and_repo _ = none

unfoldable pub after_repos : List Text → Option (Text × Text)
unfolding owner_and_repo
after_repos (s ∷ rest) =
    let found = owner_and_repo rest in if s == codes "repos" then found else none
after_repos [] = none

-- ^/(?:api/v3/)?repos/
unfoldable pub after_root : List Text → Option (Text × Text)
unfolding after_repos
after_root (a ∷ b ∷ rest) =
    let found = after_repos rest in
    if a == codes "api" && b == codes "v3" then found else after_repos (a ∷ b ∷ rest)
after_root parts = after_repos parts

abbrev match_parts : List Text → Option (Text × Text)
unfolding after_root
match_parts ([] ∷ parts) = after_root parts
match_parts _ = none

unfoldable pub repository_from_path : Text → Option (Text × Text)
unfolding match_parts
repository_from_path path =
    let s = before b'?' path in
    elim (match_parts (split b'/' (chop s))) [
      | some found ↦ some found
      | none ↦ match_parts (split b'/' s)
    ]
