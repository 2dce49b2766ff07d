-- ===== src/OrgVariables/Context.antt =====
-- `is_private`, `visible_to` and `vars_context`. Tables are in the order of their queries.
use github_emulator.Prelude.{
  ℕ, String, Bool, ◌&&◌, ◌||◌, Option, none, some, List, [], ◌∷◌, ◌==◌, nat_eq, string_eq,
  if◌then◌else◌,
}
use github_emulator.Prelude.Lists.{any, filter}
use github_emulator.Prelude.Text.{Text, codes, text_eq, lower}
use github_emulator.Value.{str, Fields, end, put}

-- The columns of the repository that decide.
pub record Scope : Type 0 where
  pub id : ℕ
  pub organization_id : Option ℕ
  pub private : Bool
  pub visibility : Option Text

pub record OrgVariable : Type 0 where
  pub id : ℕ
  pub org_id : ℕ
  pub name : String
  pub value : String
  pub visibility : String

pub record OrgVariableRepository : Type 0 where
  pub org_variable_id : ℕ
  pub repo_id : ℕ

pub record Variable : Type 0 where
  pub repo_id : ℕ
  pub name : String
  pub value : String

abbrev text_or_empty : Option Text → Text
text_or_empty none = []
text_or_empty (some t) = t

unfoldable pub is_private : Scope → Bool
is_private r =
    let visibility = lower (text_or_empty r.visibility) in
    r.private || visibility == codes "private" || visibility == codes "internal"

abbrev pub is_selected : List OrgVariableRepository → Scope → OrgVariable → Bool
is_selected links r v = any (λ l. l.repo_id == r.id && l.org_variable_id == v.id) links

unfoldable pub reaches : List OrgVariableRepository → Scope → OrgVariable → Bool
unfolding is_private
reaches links r v =
    v.visibility == "all"
    || v.visibility == "private" && is_private r
    || v.visibility == "selected" && is_selected links r v

abbrev visible_in :
    List OrgVariable → List OrgVariableRepository → Scope → Option ℕ → List OrgVariable
unfolding reaches
visible_in variables links r none = []
visible_in variables links r (some org) =
    filter (reaches links r) (filter (λ v. v.org_id == org) variables)

unfoldable pub visible_to :
    List OrgVariable → List OrgVariableRepository → Option Scope → List OrgVariable
unfolding visible_in
visible_to variables links none = []
visible_to variables links (some r) = visible_in variables links r r.organization_id

abbrev pub find_scope : List Scope → ℕ → Option Scope
find_scope [] id = none
find_scope (r ∷ rs) id = if r.id == id then some r else find_scope rs id

-- context[name(row)] = value(row), one row after the other
module _ {A : Type 0} (name value : A → String) where
  abbrev pub put_all : Fields → List A → Fields
  put_all context [] = context
  put_all context (v ∷ vs) = put_all (put context (name v) (str (value v))) vs

unfoldable pub vars_context :
    List Scope → List OrgVariable → List OrgVariableRepository → List Variable → ℕ → Fields
unfolding visible_to
vars_context repositories org_variables links variables repo_id =
    put_all (λ (v : Variable). v.name) (λ v. v.value)
      (put_all (λ (v : OrgVariable). v.name) (λ v. v.value) end
        (visible_to org_variables links (find_scope repositories repo_id)))
      (filter (λ v. v.repo_id == repo_id) variables)
