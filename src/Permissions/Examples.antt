-- ===== src/Permissions/Examples.antt =====
-- A job that declares `issues: write` and asks for an issue's comments.
use github_emulator.Prelude.{
  nat_eq, ◌≡◌, ◌≢◌, ◌⊎◌, refl, Bool, true, false, ◌&&◌, none, some, [], ◌∷◌, ◌++◌, inl, inr, ◌==◌,
  if◌then◌else◌,
}
use github_emulator.Prelude.Text.{Text, codes, text_test, text_eq}
use github_emulator.Permissions.{
  mapping, shorthand, Scopes, not_included, lookup, read, write, normalise_permissions, path_parts,
  scope_of, is_read_method, check, check_level, is_metadata_path,
}
use github_emulator.Permissions.Grants.{
  GrantsWrite, check-GrantsWrite, check-GrantsRead, check_undeclared, check_query,
}
use github_emulator.Permissions.Monotone.{AtLeast, check_mono, shorthand_exact}

abbrev post : Text
post = codes "POST"

abbrev get : Text
get = codes "GET"

abbrev comments : Text
comments = codes "/api/v3/repos/acme/web/issues/7/comments"

abbrev branches : Text
branches = codes "/repos/acme/web/branches"

abbrev issues_write : Scopes
issues_write = (codes "issues", write) ∷ []

issues_in_force : normalise_permissions (mapping issues_write) ≡ some issues_write
unfolding normalise_permissions text_test
issues_in_force = refl

comment_parts :
    ((scope_of (path_parts comments)).0 ≡ some (codes "issues"))
    × ((scope_of (path_parts branches)).0 ≡ some (codes "contents"))
unfolding scope_of path_parts lookup text_test
comment_parts = (refl, refl)

may_comment : check post comments (mapping issues_write) none ≡ none
unfolding check normalise_permissions scope_of path_parts lookup text_test check_level
may_comment = refl

post_writes : is_read_method post ≡ false
unfolding text_test
post_writes = refl

check-GrantsWrite_example : GrantsWrite (scope_of (path_parts comments)) issues_write
check-GrantsWrite_example =
    check-GrantsWrite post comments (mapping issues_write) none issues_write (inl issues_in_force)
      post_writes may_comment

comments_governed : (is_read_method post && is_metadata_path (path_parts comments)) ≡ false
unfolding text_test
comments_governed = refl

check-GrantsRead_example :
    (lookup (codes "issues") issues_write ≡ some read)
    ⊎ (lookup (codes "issues") issues_write ≡ some write)
check-GrantsRead_example =
    check-GrantsRead post comments (mapping issues_write) none issues_write (codes "issues")
      (inl issues_in_force) comment_parts.0 comments_governed may_comment

branches_governed : (is_read_method get && is_metadata_path (path_parts branches)) ≡ false
unfolding text_test is_metadata_path path_parts
branches_governed = refl

contents_undeclared : lookup (codes "contents") issues_write ≡ none
unfolding lookup text_test
contents_undeclared = refl

check_undeclared_example :
    check get branches (mapping issues_write) none ≡ some (not_included (codes "contents"))
check_undeclared_example =
    check_undeclared get branches (mapping issues_write) none issues_write (codes "contents")
      (inl issues_in_force) comment_parts.1 branches_governed contents_undeclared

check_query_example :
    check get (branches ++ b'?' ∷ codes "page=2") (mapping issues_write) none
    ≡ check get branches (mapping issues_write) none
check_query_example = check_query get branches (codes "page=2") (mapping issues_write) none

abbrev issues_read : Scopes
issues_read = (codes "issues", read) ∷ []

read_in_force : normalise_permissions (mapping issues_read) ≡ some issues_read
unfolding normalise_permissions text_test
read_in_force = refl

widened : AtLeast issues_read issues_write
unfolding lookup
widened s = levels (codes "issues" == s)
  where
    levels :
        (b : Bool)
        → ((if b then some read else none) ≡ some write
            → (if b then some write else none) ≡ some write)
          × ((if b then some read else none) ≡ some read
              → ((if b then some write else none) ≡ some read)
                ⊎ ((if b then some write else none) ≡ some write))
    levels true = (λ h. refl, λ h. inr refl)
    levels false = (λ h. cc, λ h. cc)

may_read : check get comments (mapping issues_read) none ≡ none
unfolding check normalise_permissions scope_of path_parts lookup text_test check_level
    is_metadata_path
may_read = refl

check_mono_example : check get comments (mapping issues_write) none ≡ none
check_mono_example =
    check_mono get comments (mapping issues_read) (mapping issues_write) none none issues_read
      issues_write (inl read_in_force) (inl issues_in_force) widened may_read

shorthand_exact_example :
    (is_read_method post ≡ false → check post branches (shorthand (codes "read-all")) none ≢ none)
    × (is_read_method post ≡ true → check post branches (shorthand (codes "read-all")) none ≡ none)
    × ((s : Text)
        → (scope_of (path_parts branches)).0 ≡ some s
        → check post branches (shorthand (codes "write-all")) none ≡ none)
shorthand_exact_example = shorthand_exact post branches none
