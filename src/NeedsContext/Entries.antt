-- ===== src/NeedsContext/Entries.antt =====
-- Which job an entry of the context is of.
use github_emulator.Prelude.{
  String, ◌≡◌, refl, sym, ap, ◌∙◌, subst, Bool, false, Bool-cases, Option, none, some, List, [],
  ◌∷◌, ◌==◌, string_eq, if◌then◌else◌, inl, inr, beq_eq, beq_refl,
}
use github_emulator.Value.{Value, Fields, end, get, put}
use github_emulator.Value.Lookup.{or_else, get-put}
use github_emulator.Jobs.{Job, key}
use github_emulator.NeedsContext.Bare.{IsBare, bare_key-IsBare}
use github_emulator.NeedsContext.Build.{
  entry_of, bare_key, put_new, alias, add_job_entry, add_entries, build_needs_context,
}

abbrev entry_if : Bool → Value → Option Value
entry_if b e = if b then some e else none

or_else-none : (o : Option Value) → or_else o none ≡ o
or_else-none none = refl
or_else-none (some v) = refl

-- The two sides where a key is known to be, or not to be, that of the alias.
seen : (o : Option Value) (b : Bool) (v e : Value) → o ≡ some v → o ≡ or_else o (entry_if b e)
seen o b v e h = subst (λ x. x ≡ or_else x (entry_if b e)) (sym h) refl

put_new-get :
    (c : Fields) (bare j : String) (e : Value) (o : Option Value)
    → get c bare ≡ o
    → get (put_new c bare e o) j ≡ or_else (get c j) (entry_if (bare == j) e)
put_new-get c bare j e (some v) h = elim (Bool-cases (bare == j)) [
  | inl t ↦ seen (get c j) (bare == j) v e (ap (get c) (sym (beq_eq bare j t)) ∙ h)
  | inr f ↦ sym (ap (λ b. or_else (get c j) (entry_if b e)) f ∙ or_else-none (get c j))
]
put_new-get c bare j e none h = get-put c bare j e ∙ elim (Bool-cases (bare == j)) [
  | inl t ↦
      ap (λ b. if b then some e else get c j) t
      ∙ sym (
          ap (λ b. or_else (get c j) (entry_if b e)) t
          ∙ ap (λ o. or_else o (some e)) (ap (get c) (sym (beq_eq bare j t)) ∙ h))
  | inr f ↦
      ap (λ b. if b then some e else get c j) f
      ∙ sym (ap (λ b. or_else (get c j) (entry_if b e)) f ∙ or_else-none (get c j))
]

-- What the alias adds at a key that is not the job's own.
alias-other :
    (c : Fields) (k bare j : String) (e : Value)
    → (k == j) ≡ false
    → get (alias c k bare e) j ≡ or_else (get c j) (entry_if (bare == j) e)
alias-other c k bare j e h = elim (Bool-cases (bare == k)) [
  | inl t ↦
      ap (λ b. get (if b then c else put_new c bare e (get c bare)) j) t
      ∙ sym (
          ap (λ b. or_else (get c j) (entry_if b e)) (ap (λ x. x == j) (beq_eq bare k t) ∙ h)
          ∙ or_else-none (get c j))
  | inr f ↦
      ap (λ b. get (if b then c else put_new c bare e (get c bare)) j) f
      ∙ put_new-get c bare j e (get c bare) refl
]

alias-own : (c : Fields) (k bare : String) (e : Value) → get (alias c k bare e) k ≡ get c k
alias-own c k bare e = elim (Bool-cases (bare == k)) [
  | inl t ↦ ap (λ b. get (if b then c else put_new c bare e (get c bare)) k) t
  | inr f ↦
      ap (λ b. get (if b then c else put_new c bare e (get c bare)) k) f
      ∙ put_new-get c bare k e (get c bare) refl
      ∙ ap (λ b. or_else (get c k) (entry_if b e)) f
      ∙ or_else-none (get c k)
]

-- The job's own key, then what was there, then its alias.
add-get :
    (c : Fields) (job : Job) (j : String)
    → get (add_job_entry c job) j
      ≡ or_else
          (entry_if (key job == j) (entry_of job))
          (or_else (get c j) (entry_if (bare_key (key job) == j) (entry_of job)))
add-get c job j =
    let e = entry_of job in
    let k = key job in
    let after = put c k e in
    elim (Bool-cases (k == j)) [
      | inl t ↦
          ap (get (add_job_entry c job)) (sym (beq_eq k j t))
          ∙ alias-own after k (bare_key k) e
          ∙ get-put c k k e
          ∙ ap (λ b. if b then some e else get c k) (beq_refl k)
          ∙ sym (
              ap (λ b. or_else (entry_if b e) (or_else (get c j) (entry_if (bare_key k == j) e))) t)
      | inr f ↦
          alias-other after k (bare_key k) j e f
          ∙ ap (λ o. or_else o (entry_if (bare_key k == j) e))
              (get-put c k j e ∙ ap (λ b. if b then some e else get c j) f)
          ∙ sym (
              ap (λ b. or_else (entry_if b e) (or_else (get c j) (entry_if (bare_key k == j) e))) f)
    ]

-- The last job of a key, and the first of an alias.
abbrev pub last_of : List Job → String → Option Value
last_of [] j = none
last_of (job ∷ jobs) j = or_else (last_of jobs j) (entry_if (key job == j) (entry_of job))

abbrev pub first_alias : List Job → String → Option Value
first_alias [] j = none
first_alias (job ∷ jobs) j =
    or_else (entry_if (bare_key (key job) == j) (entry_of job)) (first_alias jobs j)

regroup :
    (a x g y f : Option Value)
    → or_else a (or_else (or_else x (or_else g y)) f)
      ≡ or_else (or_else a x) (or_else g (or_else y f))
regroup (some v) x g y f = refl
regroup none (some v) g y f = refl
regroup none none (some v) y f = refl
regroup none none none (some v) f = refl
regroup none none none none f = refl

add_entries-get :
    (jobs : List Job) (c : Fields) (j : String)
    → get (add_entries c jobs) j ≡ or_else (last_of jobs j) (or_else (get c j) (first_alias jobs j))
add_entries-get [] c j = sym (or_else-none (get c j))
add_entries-get (job ∷ jobs) c j =
    add_entries-get jobs (add_job_entry c job) j
    ∙ ap (λ o. or_else (last_of jobs j) (or_else o (first_alias jobs j))) (add-get c job j)
    ∙ regroup (last_of jobs j) (entry_if (key job == j) (entry_of job)) (get c j)
        (entry_if (bare_key (key job) == j) (entry_of job)) (first_alias jobs j)

-- Under a name the context of needs has the entry of the last job that has the name as its key; else
-- that of the first job whose bare key it is; else nothing. The bare key is what follows the last
-- " / " of the key, or all of a key in which there is none.
pub get-build_needs_context :
    (jobs : List Job) (j : String)
    → (get (build_needs_context jobs) j ≡ or_else (last_of jobs j) (first_alias jobs j))
      × ((k : String) → IsBare k (bare_key k))
unfolding build_needs_context
get-build_needs_context jobs j = (add_entries-get jobs end j, bare_key-IsBare)
