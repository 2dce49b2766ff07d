-- ===== src/NeedsContext/Build.antt =====
-- `build_needs_context`.
use github_emulator.Prelude.{
  String, Option, none, some, List, [], ◌∷◌, ◌==◌, string_eq, if◌then◌else◌,
}
use github_emulator.Prelude.Strings.{without_prefix}
use github_emulator.Value.{Value, Fields, end, field, get, put, dict, str}
use github_emulator.Jobs.{Job, key, Conclusion, success, failure, cancelled, skipped}

abbrev conclusion_text : Conclusion → String
conclusion_text success = "success"
conclusion_text failure = "failure"
conclusion_text cancelled = "cancelled"
conclusion_text skipped = "skipped"
conclusion_text (Conclusion.other s) = s

-- job.conclusion or ""
abbrev result_text : Option Conclusion → String
result_text none = ""
result_text (some c) = conclusion_text c

abbrev pub entry_of : Job → Value
entry_of job =
    dict
      (field "outputs" (dict job.outputs) (field "result" (str (result_text job.conclusion)) end))

abbrev pub later : Option String → Option String → Option String
later none o = o
later (some s) o = some s

-- What follows the last " / ".
abbrev pub last_part : String → Option String
last_part String.[] = none
last_part (String.◌∷◌ c s) = later (last_part s) (without_prefix " / " (String.◌∷◌ c s))

-- key.rsplit(" / ", 1)[-1]
abbrev pub bare_key : String → String
bare_key k = elim (last_part k) [ none ↦ k | some s ↦ s ]

abbrev pub put_new : Fields → String → Value → Option Value → Fields
put_new context bare entry none = put context bare entry
put_new context bare entry (some v) = context

-- A key that stands in the context already wins over an alias.
abbrev pub alias : Fields → String → String → Value → Fields
alias context k bare entry =
    if bare == k then context else put_new context bare entry (get context bare)

abbrev pub add_job_entry : Fields → Job → Fields
add_job_entry context job =
    alias (put context (key job) (entry_of job)) (key job) (bare_key (key job)) (entry_of job)

abbrev pub add_entries : Fields → List Job → Fields
add_entries context [] = context
add_entries context (job ∷ jobs) = add_entries (add_job_entry context job) jobs

unfoldable pub build_needs_context : List Job → Fields
build_needs_context jobs = add_entries end jobs
