-- ===== src/Triggers/Match.antt =====
-- `evaluate_trigger` of src/app/services/workflow_triggers.py. The payload of an event has the shape
-- that the emulator gives it; the configuration is any value.
use github_emulator.Prelude.{
  String, Bool, true, false, ◌||◌, Option, none, some, List, [], ◌∷◌, ◌++◌, ◌==◌, string_eq,
  if◌then◌else◌,
}
use github_emulator.Prelude.Strings.{removeprefix, startswith}
use github_emulator.Value.{Fields, end, Value, dict, list, str, null, get}
use github_emulator.Triggers.Config.{occurs, is_falsy, matches, either, both, negate}

pub record Commit : Type 0 where
  pub added : List String
  pub modified : List String
  pub removed : List String

-- `base_ref` is pull_request.base.ref
pub record Payload : Type 0 where
  pub ref : Option String
  pub action : Option String
  pub base_ref : Option String
  pub commits : List Commit

-- The value under "on", and the one under True, which is how YAML 1.1 reads a bare `on`.
pub record WorkflowYaml : Type 0 where
  pub on : Option Value
  pub on_true : Option Value

abbrev pub or_default : String → Option String → String
or_default d none = d
or_default d (some s) = s

-- _get_changed_files
unfoldable pub get_changed_files : List Commit → List String
get_changed_files [] = []
get_changed_files (c ∷ rest) = c.added ++ c.modified ++ c.removed ++ get_changed_files rest

-- `if name in config:`, and what is asked of the entry
abbrev pub allowing : Option Value → (Value → Option Bool) → Option Bool
allowing none test = some true
allowing (some v) test = test v

abbrev pub branch_of : String → String
branch_of ref = removeprefix "refs/heads/" ref

-- `types` absent or null admits every action; a single text is one type.
abbrev pub type_listed : String → Option Value → Option Bool
type_listed action none = some true
type_listed action (some null) = some true
type_listed action (some (str t)) = some (action == t)
type_listed action (some v) = occurs action v

-- _match_types
unfoldable pub match_types : Value → Payload → Option Bool
match_types (dict config) payload = type_listed (or_default "" payload.action) (get config "types")
match_types _ payload = some true

-- workflow_yaml.get("on") or workflow_yaml.get(True)
unfoldable pub on_config : WorkflowYaml → Option Value
on_config w = elim w.on [ none ↦ w.on_true | some v ↦ if is_falsy v then w.on_true else some v ]

module _ (fnmatch : String → String → Bool) where
  -- any(fnmatch(f, p) for f in files for p in v)
  abbrev pub any_path : List String → Value → Option Bool
  any_path [] v = some false
  any_path (f ∷ fs) v = either (matches fnmatch f v) (any_path fs v)

  -- all(any(fnmatch(f, p) for p in v) for f in files)
  abbrev pub all_paths : List String → Value → Option Bool
  all_paths [] v = some true
  all_paths (f ∷ fs) v = both (matches fnmatch f v) (all_paths fs v)

  -- A tag filter admits only a tag that one of its patterns matches.
  abbrev pub tag_matches : String → Value → Option Bool
  tag_matches ref v =
      if startswith "refs/tags/" ref
      then matches fnmatch (removeprefix "refs/tags/" ref) v
      else some false

  unfoldable pub match_fields : Fields → String → List String → Option Bool
  match_fields config ref changed =
      both (allowing (get config "branches") (matches fnmatch (branch_of ref))) (
        both
          (allowing (get config "branches-ignore")
            (λ v. negate (matches fnmatch (branch_of ref) v)))
          (both (allowing (get config "tags") (tag_matches ref)) (
            both (allowing (get config "tags-ignore") (λ v. negate (tag_matches ref v))) (
              both (allowing (get config "paths") (any_path changed))
                (allowing (get config "paths-ignore") (λ v. negate (all_paths changed v)))))))

  -- _match_push
  unfoldable pub match_push : Value → Payload → Option Bool
  unfolding match_fields get_changed_files
  match_push (dict config) payload =
      match_fields config (or_default "" payload.ref) (get_changed_files payload.commits)
  match_push _ payload = some true

  -- _match_pull_request
  unfoldable pub match_pull_request : Value → Payload → Option Bool
  match_pull_request (dict config) payload =
      both (allowing (get config "types") (occurs (or_default "opened" payload.action))) (
        both (allowing (get config "branches") (matches fnmatch (or_default "" payload.base_ref))) (
          allowing (get config "branches-ignore")
            (λ v. negate (matches fnmatch (or_default "" payload.base_ref) v))))
  match_pull_request _ payload = some true

  unfoldable pub match_event : String → Value → Payload → Option Bool
  unfolding match_push match_pull_request match_types
  match_event event config payload =
      if event == "push"
      then match_push config payload
      else if event == "pull_request" || event == "pull_request_target"
      then match_pull_request config payload
      else if event == "issues" || event == "issue_comment" || event == "pull_request_review"
      then match_types config payload
      else some true

  -- The entry of the event in a mapping: an empty one is the default configuration.
  unfoldable pub match_entry : String → Option Value → Payload → Option Bool
  unfolding match_event
  match_entry event none payload = some false
  match_entry event (some null) payload = some true
  match_entry event (some (dict end)) payload = some true
  match_entry event (some config) payload = match_event event config payload

  unfoldable pub match_on : Value → String → Payload → Option Bool
  unfolding match_entry
  match_on (str s) event payload = some (s == event)
  match_on (list is) event payload = occurs event (list is)
  match_on (dict d) event payload = match_entry event (get d event) payload
  match_on _ event payload = some false

  abbrev pub match_config : Option Value → String → Payload → Option Bool
  unfolding match_on
  match_config none event payload = some false
  match_config (some v) event payload = match_on v event payload

  unfoldable pub evaluate_trigger : WorkflowYaml → String → Payload → Option Bool
  unfolding on_config match_config
  evaluate_trigger w event payload = match_config (on_config w) event payload
