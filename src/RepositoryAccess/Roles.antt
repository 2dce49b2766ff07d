-- ===== src/RepositoryAccess/Roles.antt =====
-- The role that an installation grants, and that who may write may read.
use github_emulator.Prelude.{
  ◌≡◌, refl, sym, ◌∙◌, Bool, true, false, not, ◌&&◌, ◌||◌, Bool-cases, Option, none, some, List, [],
  ◌∷◌, ◌==◌, nat_eq, string_eq, inl, inr, arith,
}
use github_emulator.Prelude.Lists.{any, filter}
use github_emulator.Prelude.Text.{Text, codes, text_eq, text_test}
use github_emulator.Repositories.{User, Repository, Collaborator, owns, collaborates}
use github_emulator.RepositoryAccess.Rows.{AppInstallation, GitHubApp, Tables}
use github_emulator.RepositoryAccess.Access.{
  app_of, app_covers, app_role, installed_on, covers, installation_covers, is_member, can_read,
  contents, grant, installation_role, may_push, is_write, can_write_contents,
}

-- The installation covers the repository and its contents permission is write.
abbrev pub grants_write : Repository → AppInstallation → Bool
grants_write repository i = covers repository i && contents i == codes "write"

reading_is_no_write : is_write (some (codes "read")) ≡ false
unfolding text_test
reading_is_no_write = refl

writing_is_write : is_write (some (codes "write")) ≡ true
unfolding text_test
writing_is_write = refl

is_write-grant :
    (r : Repository) (role : Option Text) (rows : List AppInstallation)
    → is_write role ≡ false
    → is_write (grant r role rows) ≡ any (grants_write r) rows
unfolding grant
is_write-grant r role [] h = h
is_write-grant r role (i ∷ rows) h = ground (
  arith,
  is_write-grant r role rows h,
  is_write-grant r (some (codes "read")) rows reading_is_no_write,
  writing_is_write,
)

any-filter :
    {A : Type 0} (p q : A → Bool) (xs : List A) → any p (filter q xs) ≡ any (λ x. q x && p x) xs
any-filter p q [] = refl
any-filter p q (x ∷ xs) = ground (arith, any-filter p q xs)

any_mono :
    {A : Type 0} (p q : A → Bool)
    → ((x : A) → p x ≡ true → q x ≡ true)
    → (xs : List A) → any p xs ≡ true
    → any q xs ≡ true
any_mono p q f [] h = h
any_mono p q f (x ∷ xs) h = elim (Bool-cases (p x)) [
  | inl e ↦ let k = f x e in ground arith
  | inr e ↦ let k = any_mono p q f xs (ground arith) in ground arith
]

-- Some installation of the App on the repository's owner covers the repository with write
-- permission on contents.
abbrev pub some_grants_write : Tables → Repository → Option GitHubApp → Bool
some_grants_write t r none = false
some_grants_write t r (some app) =
    any (λ i. installed_on app r i && grants_write r i) t.installations

app_role-write :
    (t : Tables) (r : Repository) (app : Option GitHubApp)
    → is_write (app_role t r app) ≡ some_grants_write t r app
unfolding app_role
app_role-write t r none = refl
app_role-write t r (some app) =
    is_write-grant r none (filter (installed_on app r) t.installations) refl
    ∙ any-filter (grants_write r) (installed_on app r) t.installations

-- The role of a user is write exactly when some installation of the user's App on the
-- repository's owner covers the repository with write permission on contents, whatever the order
-- of the installations.
pub installation_role-write :
    (t : Tables) (r : Repository) (user : User)
    → is_write (installation_role t r (some user)) ≡ some_grants_write t r (app_of t.apps user)
unfolding installation_role
installation_role-write t r user = app_role-write t r (app_of t.apps user)

app-covered :
    (t : Tables) (r : Repository) (app : Option GitHubApp)
    → is_write (app_role t r app) ≡ true
    → app_covers t r app ≡ true
unfolding app_role
app-covered t r none h = cc
app-covered t r (some app) h =
    any_mono (grants_write r) (covers r) (λ i e. ground arith)
      (filter (installed_on app r) t.installations)
      (sym (is_write-grant r none (filter (installed_on app r) t.installations) refl) ∙ h)

covered :
    (t : Tables) (r : Repository) (user : User)
    → is_write (installation_role t r (some user)) ≡ true
    → installation_covers t r user ≡ true
unfolding installation_role installation_covers
covered t r user = app-covered t r (app_of t.apps user)

collaborates-any :
    (t : Tables) (r : Repository) (user : User)
    → collaborates may_push t.collaborators r user ≡ true
    → collaborates (λ p. true) t.collaborators r user ≡ true
collaborates-any t r user h =
    any_mono _ _
      (λ (c : Collaborator)
          (e : (c.repo_id == r.id && c.user_id == user.id && may_push c.permission) ≡ true).
        ground arith)
      t.collaborators h

or_three :
    (a b c p q m x : Bool)
    → (a || b || c) ≡ true
    → (b ≡ true → q ≡ true)
    → (c ≡ true → x ≡ true)
    → (p || a || q || m || x) ≡ true
or_three true b c p q m x h f g = ground arith
or_three false true c p q m x h f g = let k = f refl in ground arith
or_three false false c p q m x h f g = let k = g h in ground arith

-- Who may write a repository's contents may read the repository.
pub can_write-can_read :
    (t : Tables) (r : Repository) (user : Option User)
    → can_write_contents t r user ≡ true
    → can_read t r user ≡ true
unfolding can_write_contents can_read
can_write-can_read t r none h = cc
can_write-can_read t r (some user) h =
    or_three (owns r user) (collaborates may_push t.collaborators r user)
      (is_write (installation_role t r (some user))) (not r.private)
      (collaborates (λ p. true) t.collaborators r user) (is_member t r user)
      (installation_covers t r user) h (collaborates-any t r user) (covered t r user)
