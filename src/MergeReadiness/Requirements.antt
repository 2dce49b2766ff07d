-- ===== src/MergeReadiness/Requirements.antt =====
-- What the requirements of a protection say: required status checks and required reviews.
use mathlib.Core.List.{Memᴰ}
use Prim.Native.String.{compare}
use Prim.Native.Nat.{Ordering}
use text.Mathlib.TextEquality.{path_by_compare}
use github_emulator.Prelude.{
  String, ◌≡◌, ◌⊎◌, ◌↔◌, refl, sym, ap, ◌∙◌, subst, Bool, true, false, Bool-cases, Option, none,
  some, List, [], ◌∷◌, nat_eq, string_eq, if◌then◌else◌, inl, inr,
}
use github_emulator.Prelude.Rows.{All, All-elim, All-intro}
use github_emulator.Repositories.{PullRequest}
use github_emulator.MergeReadiness.Rows.{Tables, Protection, CheckSettings}
use github_emulator.MergeReadiness.Checks.{
  place, insert, insert_all, named, required_contexts, context_passes, failures, failure_of,
  status_check_reasons, is_empty,
}

failures-All :
    (t : Tables) (pr : PullRequest) (cs : List String)
    → failures t pr cs ≡ []
    → All (λ c. context_passes t pr c ≡ true) cs
failures-All t pr [] h = tt
failures-All t pr (c ∷ cs) h = elim (Bool-cases (context_passes t pr c)) [
  | inl e ↦ (e, failures-All t pr cs (rw e at h))
  | inr e ↦ let bad : (failure_of t pr c ∷ failures t pr cs) ≡ [] = rw e at h in cc
]

All-failures :
    (t : Tables) (pr : PullRequest) (cs : List String)
    → All (λ c. context_passes t pr c ≡ true) cs
    → failures t pr cs ≡ []
All-failures t pr [] h = refl
All-failures t pr (c ∷ cs) h = rw (h.0) (All-failures t pr cs h.1)

mem-place :
    (o : Ordering) (k j c : String) (l rest : List String)
    → (Memᴰ c rest → (c ≡ k) ⊎ Memᴰ c l)
    → Memᴰ c (place o k j l rest)
    → (c ≡ k) ⊎ Memᴰ c (j ∷ l)
mem-place Ordering.lt k j c l rest f (Memᴰ.head e) = inl e
mem-place Ordering.lt k j c l rest f (Memᴰ.tail m) = inr m
mem-place Ordering.eq k j c l rest f m = inr m
mem-place Ordering.gt k j c l rest f (Memᴰ.head e) = inr (Memᴰ.head e)
mem-place Ordering.gt k j c l rest f (Memᴰ.tail m) = elim (f m) [
  | inl e ↦ inl e
  | inr n ↦ inr (Memᴰ.tail n)
]

mem-insert : (k c : String) (l : List String) → Memᴰ c (insert k l) → (c ≡ k) ⊎ Memᴰ c l
mem-insert k c [] (Memᴰ.head e) = inl e
mem-insert k c [] (Memᴰ.tail m) = elim m [ ]
mem-insert k c (j ∷ l) m = mem-place (compare k j) k j c l (insert k l) (mem-insert k c l) m

place-mem :
    (o : Ordering) (k j c : String) (l rest : List String)
    → (o ≡ Ordering.eq → k ≡ j)
    → ((c ≡ k) ⊎ Memᴰ c l → Memᴰ c rest)
    → (c ≡ k) ⊎ Memᴰ c (j ∷ l)
    → Memᴰ c (place o k j l rest)
place-mem Ordering.lt k j c l rest s f (inl e) = Memᴰ.head e
place-mem Ordering.lt k j c l rest s f (inr m) = Memᴰ.tail m
place-mem Ordering.eq k j c l rest s f (inl e) = Memᴰ.head (e ∙ s refl)
place-mem Ordering.eq k j c l rest s f (inr m) = m
place-mem Ordering.gt k j c l rest s f (inl e) = Memᴰ.tail (f (inl e))
place-mem Ordering.gt k j c l rest s f (inr (Memᴰ.head e)) = Memᴰ.head e
place-mem Ordering.gt k j c l rest s f (inr (Memᴰ.tail m)) = Memᴰ.tail (f (inr m))

insert-mem : (k c : String) (l : List String) → (c ≡ k) ⊎ Memᴰ c l → Memᴰ c (insert k l)
insert-mem k c [] (inl e) = Memᴰ.head e
insert-mem k c [] (inr m) = elim m [ ]
insert-mem k c (j ∷ l) h =
    place-mem (compare k j) k j c l (insert k l) (path_by_compare k j) (insert-mem k c l) h

mem-insert_all :
    (c : String) (ks set : List String) → Memᴰ c (insert_all ks set) → Memᴰ c ks ⊎ Memᴰ c set
mem-insert_all c [] set m = inr m
mem-insert_all c (k ∷ ks) set m = elim (mem-insert k c (insert_all ks set) m) [
  | inl e ↦ inl (Memᴰ.head e)
  | inr n ↦ elim (mem-insert_all c ks set n) [ inl p ↦ inl (Memᴰ.tail p) | inr q ↦ inr q ]
]

insert_all-mem :
    (c : String) (ks set : List String) → Memᴰ c ks ⊎ Memᴰ c set → Memᴰ c (insert_all ks set)
insert_all-mem c [] set (inl m) = elim m [ ]
insert_all-mem c [] set (inr m) = m
insert_all-mem c (k ∷ ks) set (inl (Memᴰ.head e)) = insert-mem k c (insert_all ks set) (inl e)
insert_all-mem c (k ∷ ks) set (inl (Memᴰ.tail m)) =
    insert-mem k c (insert_all ks set) (inr (insert_all-mem c ks set (inl m)))
insert_all-mem c (k ∷ ks) set (inr m) =
    insert-mem k c (insert_all ks set) (inr (insert_all-mem c ks set (inr m)))

if_drop :
    {c : String} (b : Bool) (k : String) (rest : List String)
    → Memᴰ c (if b then rest else k ∷ rest)
    → ((b ≡ false) × (c ≡ k)) ⊎ Memᴰ c rest
if_drop true k rest m = inr m
if_drop false k rest (Memᴰ.head e) = inl (refl, e)
if_drop false k rest (Memᴰ.tail m) = inr m

if_keep :
    {c : String} (b : Bool) (k : String) (rest : List String)
    → ((b ≡ false) × (c ≡ k)) ⊎ Memᴰ c rest
    → Memᴰ c (if b then rest else k ∷ rest)
if_keep true k rest (inl e) = cc
if_keep true k rest (inr m) = m
if_keep false k rest (inl e) = Memᴰ.head e.1
if_keep false k rest (inr m) = Memᴰ.tail m

mem-named :
    (c : String) (cs : List (Option String))
    → Memᴰ c (named cs)
    → Memᴰ (some c) cs × (is_empty c ≡ false)
mem-named c [] m = elim m [ ]
mem-named c (none ∷ cs) m = let (k, e) = mem-named c cs m in (Memᴰ.tail k, e)
mem-named c (some k ∷ cs) m = elim (if_drop (is_empty k) k (named cs) m) [
  | inl e ↦
      (Memᴰ.head (ap {B = Option String} some e.1), subst (λ z. is_empty z ≡ false) (sym e.1) e.0)
  | inr n ↦ let (l, e) = mem-named c cs n in (Memᴰ.tail l, e)
]

named-mem :
    (c : String) (cs : List (Option String))
    → Memᴰ (some c) cs
    → is_empty c ≡ false
    → Memᴰ c (named cs)
named-mem c [] m e = elim m [ ]
named-mem c (none ∷ cs) (Memᴰ.head q) e = cc
named-mem c (none ∷ cs) (Memᴰ.tail m) e = named-mem c cs m e
named-mem c (some k ∷ cs) (Memᴰ.head q) e =
    let same : c ≡ k = cc in
    if_keep (is_empty k) k (named cs) (inl (subst (λ z. is_empty z ≡ false) same e, same))
named-mem c (some k ∷ cs) (Memᴰ.tail m) e =
    if_keep (is_empty k) k (named cs) (inr (named-mem c cs m e))

-- A context that the settings name, in either of their two lists.
abbrev pub Required : Option CheckSettings → String → Type 0
Required none c = ⊥
Required (some s) c = Memᴰ c s.contexts ⊎ (Memᴰ (some c) s.checks × (is_empty c ≡ false))

contexts_of : Option CheckSettings → List String
contexts_of none = []
contexts_of (some s) = insert_all s.contexts (insert_all (named s.checks) [])

Required-iff : (o : Option CheckSettings) (c : String) → Memᴰ c (contexts_of o) ↔ Required o c
unfolding contexts_of
Required-iff none c = (λ m. elim m [ ], λ h. absurd h)
Required-iff (some s) c = (
  λ m. elim (mem-insert_all c s.contexts (insert_all (named s.checks) []) m) [
    | inl k ↦ inl k
    | inr k ↦ elim (mem-insert_all c (named s.checks) [] k) [
      | inl n ↦ inr (mem-named c s.checks n)
      | inr n ↦ elim n [ ]
    ]
  ],
  λ h. elim h [
    | inl k ↦ insert_all-mem c s.contexts (insert_all (named s.checks) []) (inl k)
    | inr k ↦
        insert_all-mem c s.contexts (insert_all (named s.checks) [])
          (inr (insert_all-mem c (named s.checks) [] (inl (named-mem c s.checks k.0 k.1))))
  ],
)

required_contexts-eq : (p : Protection) → required_contexts p ≡ contexts_of p.required_status_checks
unfolding required_contexts contexts_of
required_contexts-eq p = refl

-- The required status checks give no reason exactly when each context that the settings name
-- passes, by its latest status or its latest check run.
pub status_checks-exact :
    (t : Tables) (pr : PullRequest) (p : Protection)
    → (status_check_reasons t pr p ≡ [])
      ↔ ((c : String) → Required p.required_status_checks c → context_passes t pr c ≡ true)
unfolding status_check_reasons
status_checks-exact t pr p = (
  λ h c r.
      All-elim (λ c. context_passes t pr c ≡ true) (required_contexts p)
        (failures-All t pr (required_contexts p) h)
        (subst (Memᴰ c) (sym (required_contexts-eq p))
          ((Required-iff p.required_status_checks c).1 r)),
  λ h. All-failures t pr (required_contexts p) (
      All-intro (λ c. context_passes t pr c ≡ true) (required_contexts p)
        (λ c m. h c (
          (Required-iff p.required_status_checks c).0
            (subst (Memᴰ c) (required_contexts-eq p) m)))),
)
