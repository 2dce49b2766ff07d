-- ===== src/OrgVariables/Precedence.antt =====
-- A repository's own variable comes before an organization's of the same name.
use github_emulator.Prelude.{
  ℕ, String, ◌≡◌, refl, ap, ◌∙◌, Bool, true, false, Option, none, some, List, [], ◌∷◌, ◌==◌, nat_eq,
  string_eq, if◌then◌else◌,
}
use github_emulator.Prelude.Lists.{filter}
use github_emulator.Value.{Value, str, Fields, end, get, put}
use github_emulator.Value.Lookup.{or_else, get-put}
use github_emulator.OrgVariables.Context.{
  Scope, OrgVariable, OrgVariableRepository, Variable, visible_to, find_scope, put_all,
  vars_context,
}

or_else_assoc :
    (o : Option Value) (b : Bool) (v : Value) (rest : Option Value)
    → or_else o (if b then some v else rest) ≡ or_else (or_else o (if b then some v else none)) rest
or_else_assoc none true v rest = refl
or_else_assoc none false v rest = refl
or_else_assoc (some w) b v rest = refl

or_else-none : (o : Option Value) → or_else o none ≡ o
or_else-none none = refl
or_else-none (some v) = refl

module _ {A : Type 0} (name value : A → String) where
  -- The value of the last row of that name.
  abbrev pub last_value : List A → String → Option Value
  last_value [] k = none
  last_value (v ∷ vs) k =
      or_else (last_value vs k) (if name v == k then some (str (value v)) else none)

  get-put_all :
      (d : Fields) (vs : List A) (k : String)
      → get (put_all name value d vs) k ≡ or_else (last_value vs k) (get d k)
  get-put_all d [] k = refl
  get-put_all d (v ∷ vs) k =
      get-put_all (put d (name v) (str (value v))) vs k
      ∙ ap (or_else (last_value vs k)) (get-put d (name v) k (str (value v)))
      ∙ or_else_assoc (last_value vs k) (name v == k) (str (value v)) (get d k)

-- What a run sees under a name is the repository's own variable of that name, where it has one,
-- else the organization's that the repository can use, else nothing.
pub vars_context-get :
    (repositories : List Scope) (org_variables : List OrgVariable)
    (links : List OrgVariableRepository) (variables : List Variable) (repo_id : ℕ) (k : String)
    → get (vars_context repositories org_variables links variables repo_id) k
      ≡ or_else
          (last_value
            (λ (v : Variable). v.name)
            (λ v. v.value)
            (filter (λ v. v.repo_id == repo_id) variables)
            k)
          (last_value
            (λ (v : OrgVariable). v.name)
            (λ v. v.value)
            (visible_to org_variables links (find_scope repositories repo_id))
            k)
unfolding vars_context
vars_context-get repositories org_variables links variables repo_id k =
    let own = filter (λ (v : Variable). v.repo_id == repo_id) variables in
    let shared = visible_to org_variables links (find_scope repositories repo_id) in
    get-put_all (λ (v : Variable). v.name) (λ v. v.value) _ own k
    ∙ ap (or_else (last_value (λ (v : Variable). v.name) (λ v. v.value) own k))
        (get-put_all (λ (v : OrgVariable). v.name) (λ v. v.value) end shared k ∙ or_else-none _)
