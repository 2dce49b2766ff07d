-- ===== src/RepositoryAccess/Hidden.antt =====
-- The session's cache makes no difference to what is hidden.
use github_emulator.Prelude.{
  ◌≡◌, refl, sym, ap, ◌∙◌, Bool, false, Bool-cases, Option, none, some, List, [], ◌∷◌, ◌++◌, ◌==◌,
  inl, inr, if◌then◌else◌, beq_eq,
}
use github_emulator.Prelude.Text.{Text, text_eq}
use github_emulator.Repositories.{User, Repository}
use github_emulator.RepositoryAccess.Rows.{Tables, Cache, lookup}
use github_emulator.RepositoryAccess.Paths.{repository_from_path}
use github_emulator.RepositoryAccess.Access.{
  named, remember_repository, load_from, load, refused, hide, is_hidden,
}

-- What the cache holds is what the table has.
abbrev pub Coherent : Tables → Cache → Type 0
Coherent t cache =
    (name : Text) (r : Repository) → lookup name cache ≡ some r → named t.repositories name ≡ some r

named-full_name :
    (rows : List Repository) (name : Text) (r : Repository)
    → named rows name ≡ some r
    → r.full_name ≡ name
named-full_name [] name r h = cc
named-full_name (q ∷ rows) name r h = elim (Bool-cases (q.full_name == name)) [
  | inl e ↦
      let k : some q ≡ some r = sym (ap (λ b. if b then some q else named rows name) e) ∙ h in
      let j : q ≡ r = cc in ap (λ (x : Repository). x.full_name) (sym j) ∙ beq_eq q.full_name name e
  | inr e ↦
      named-full_name rows name r (sym (ap (λ b. if b then some q else named rows name) e) ∙ h)
]

remember-Coherent :
    (t : Tables) (cache : Cache) (name : Text) (found : Option Repository)
    → named t.repositories name ≡ found
    → Coherent t cache
    → Coherent t (remember_repository cache found)
unfolding remember_repository
remember-Coherent t cache name none e c = c
remember-Coherent t cache name (some q) e c = λ key r h. elim (Bool-cases (q.full_name == key)) [
  | inl k ↦
      let s : some q ≡ some r = sym (ap (λ b. if b then some q else lookup key cache) k) ∙ h in
      ap (named t.repositories)
        (sym (beq_eq q.full_name key k) ∙ named-full_name t.repositories name q e)
      ∙ e
      ∙ s
  | inr k ↦ c key r (sym (ap (λ b. if b then some q else lookup key cache) k) ∙ h)
]

loaded :
    (t : Tables) (cache : Cache) (name : Text) (o : Option Repository)
    → lookup name cache ≡ o
    → Coherent t cache
    → ((load_from t cache name o).0 ≡ named t.repositories name)
      × Coherent t (load_from t cache name o).1
unfolding load_from
loaded t cache name (some r) e c = (sym (c name r e), c)
loaded t cache name none e c =
    (refl, remember-Coherent t cache name (named t.repositories name) refl c)

-- What `is_hidden` would say without a cache.
abbrev pub hidden : Tables → Option (Text × Text) → Option User → Bool
hidden t none user = false
hidden t (some (owner, repo)) user = refused t user (named t.repositories (owner ++ b'/' ∷ repo))

hidden_part :
    (t : Tables) (cache : Cache) (user : Option User) (found : Option (Text × Text))
    → Coherent t cache
    → ((hide t cache user found).0 ≡ hidden t found user) × Coherent t (hide t cache user found).1
unfolding hide load
hidden_part t cache user none c = (refl, c)
hidden_part t cache user (some (owner, repo)) c =
    let k = loaded t cache (owner ++ b'/' ∷ repo) (lookup (owner ++ b'/' ∷ repo) cache) refl c in
    (ap (refused t user) k.0, k.1)

-- With a coherent cache the answer of `is_hidden` is that of the table alone, and the cache
-- afterwards is coherent.
pub is_hidden-uncached :
    (t : Tables) (cache : Cache) (path : Text) (user : Option User)
    → Coherent t cache
    → ((is_hidden t cache path user).0 ≡ hidden t (repository_from_path path) user)
      × Coherent t (is_hidden t cache path user).1
unfolding is_hidden
is_hidden-uncached t cache path user c = hidden_part t cache user (repository_from_path path) c
