-- ===== src/RepositoryAccess/Examples.antt =====
-- A private repository on which an App is installed with write permission on contents.
use github_emulator.Prelude.{◌≡◌, refl, true, false, none, some, [], ◌∷◌, nat_eq}
use github_emulator.Prelude.Text.{Text, codes, text_test}
use github_emulator.Repositories.{User, Repository}
use github_emulator.RepositoryAccess.Rows.{Tables}
use github_emulator.RepositoryAccess.Paths.{repository_from_path}
use github_emulator.RepositoryAccess.Access.{
  can_read, is_write, installation_role, can_write_contents, is_hidden, app_of,
}
use github_emulator.RepositoryAccess.Roles.{
  some_grants_write, installation_role-write, can_write-can_read,
}
use github_emulator.RepositoryAccess.Hidden.{Coherent, hidden, is_hidden-uncached}

abbrev repository : Repository
repository = record {
  id = 1;
  owner_id = 2;
  owner_type = "User";
  name = codes "web";
  full_name = codes "acme/web";
  default_branch = "main";
  private = true;
  disk_path = none;
  open_issues_count = 0;
}

abbrev bot : User
bot = record { id = 7; site_admin = false }

abbrev stranger : User
stranger = record { id = 8; site_admin = false }

abbrev tables : Tables
tables = record {
  repositories = repository ∷ [];
  collaborators = [];
  organizations = [];
  memberships = [];
  apps = (record { id = 5; bot_user_id = some 7 }) ∷ [];
  installations =
      (record {
        app_id = 5;
        account_login = codes "acme";
        repositories = [];
        permissions = (codes "contents", codes "Write") ∷ [];
      })
      ∷ [];
}

bot_writes : can_write_contents tables repository (some bot) ≡ true
unfolding can_write_contents text_test
bot_writes = refl

can_write-can_read_example : can_read tables repository (some bot) ≡ true
can_write-can_read_example = can_write-can_read tables repository (some bot) bot_writes

installation_role-write_example :
    is_write (installation_role tables repository (some bot))
    ≡ some_grants_write tables repository (app_of tables.apps bot)
installation_role-write_example = installation_role-write tables repository bot

abbrev path : Text
path = codes "/api/v3/repos/acme/web.git/contents?ref=main"

path_names : repository_from_path path ≡ some (codes "acme", codes "web")
unfolding repository_from_path text_test
path_names = refl

is_refused : is_hidden tables [] path (some stranger) ≡ (true, (codes "acme/web", repository) ∷ [])
unfolding is_hidden text_test
is_refused = refl

no_entries : Coherent tables []
no_entries name r h = cc

is_hidden-uncached_example :
    ((is_hidden tables [] path (some stranger)).0
      ≡ hidden tables (repository_from_path path) (some stranger))
    × Coherent tables (is_hidden tables [] path (some stranger)).1
is_hidden-uncached_example = is_hidden-uncached tables [] path (some stranger) no_entries
