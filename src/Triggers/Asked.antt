-- ===== src/Triggers/Asked.antt =====
-- What the filters of a push ask, apart from the code: the branch and the tag of a ref, the files
-- that are changed, and patterns that match.
use mathlib.Core.List.{Memᴰ}
use mathlib.Core.List.Memᴰ
use github_emulator.Prelude.{
  String, ◌≡◌, ◌≢◌, ◌⊎◌, inl, inr, ◌↔◌, refl, sym, ap, ◌∙◌, subst, Bool, true, false, Option, none,
  some, List, [], ◌∷◌, ◌++◌, string_eq, ◌||◌, ◌&&◌,
}
use github_emulator.Prelude.Lists.{all}
use github_emulator.Prelude.Strings.{concat, without_prefix}
use github_emulator.Prelude.Prefixes.{
  without_prefix-concat, without_prefix-some, without_prefix-none,
}
use github_emulator.Value.{Fields, Items, nil, item, Value, list, str, get}
use github_emulator.Triggers.Config.{either, both, negate}
use github_emulator.Triggers.Match.{allowing, branch_of, get_changed_files, Commit}

pub both-true : (a b : Option Bool) → both a b ≡ some true → (a ≡ some true) × (b ≡ some true)
both-true none b h = cc
both-true (some true) b h = (refl, h)
both-true (some false) b h = cc

pub true-both : (a b : Option Bool) → a ≡ some true → b ≡ some true → both a b ≡ some true
true-both none b h k = cc
true-both (some true) b h k = k
true-both (some false) b h k = cc

negate-true : (a : Option Bool) → negate a ≡ some true → a ≡ some false
negate-true none h = cc
negate-true (some true) h = cc
negate-true (some false) h = refl

false-negate : (a : Option Bool) → a ≡ some false → negate a ≡ some true
false-negate a h = ap negate h

-- What a filter asks, where the configuration has it.
abbrev pub Asks : Option Value → (Value → Option Bool) → Bool → Type 0
Asks none test answer = Unit
Asks (some v) test answer = test v ≡ some answer

pub allowing-Asks :
    (o : Option Value) (test : Value → Option Bool)
    → (allowing o test ≡ some true) ↔ Asks o test true
allowing-Asks none test = (λ h. tt, λ h. refl)
allowing-Asks (some v) test = (λ h. h, λ h. h)

pub refusing-Asks :
    (o : Option Value) (test : Value → Option Bool)
    → (allowing o (λ v. negate (test v)) ≡ some true) ↔ Asks o test false
refusing-Asks none test = (λ h. tt, λ h. refl)
refusing-Asks (some v) test = (negate-true (test v), false-negate (test v))

abbrev pub texts : List String → Items
texts [] = nil
texts (p ∷ ps) = item (str p) (texts ps)

-- What a push changes and what it is on, apart from the code's tests.
abbrev pub Hit : (String → String → Bool) → String → List String → Type 0
Hit fnmatch s ps = (p : String) × Memᴰ p ps × (fnmatch s p ≡ true)

abbrev pub Branch : String → String → Type 0
Branch ref b =
    (ref ≡ concat "refs/heads/" b) ⊎ (((c : String) → ref ≢ concat "refs/heads/" c) × (b ≡ ref))

abbrev pub Tag : String → String → Type 0
Tag ref t = ref ≡ concat "refs/tags/" t

abbrev pub Changed : List Commit → String → Type 0
Changed commits f =
    (c : Commit) × Memᴰ c commits × (Memᴰ f c.added ⊎ Memᴰ f c.modified ⊎ Memᴰ f c.removed)

-- The filters of a configuration, each absent or a list of patterns.
pub record Filters : Type 0 where
  pub branches : Option (List String)
  pub branches_ignore : Option (List String)
  pub tags : Option (List String)
  pub tags_ignore : Option (List String)
  pub paths : Option (List String)
  pub paths_ignore : Option (List String)

abbrev listed : Option (List String) → Option Value
listed none = none
listed (some ps) = some (list (texts ps))

abbrev pub Configured : Fields → Filters → Type 0
Configured config f =
    (get config "branches" ≡ listed f.branches)
    × (get config "branches-ignore" ≡ listed f.branches_ignore)
    × (get config "tags" ≡ listed f.tags)
    × (get config "tags-ignore" ≡ listed f.tags_ignore)
    × (get config "paths" ≡ listed f.paths)
    × (get config "paths-ignore" ≡ listed f.paths_ignore)

abbrev pub Wants : Option (List String) → (List String → Type 0) → Type 0
Wants none P = Unit
Wants (some ps) P = P ps

pub Asks-Wants :
    (o : Option (List String)) (g : Option Value) (test : Value → Option Bool) (answer : Bool)
    (P : List String → Type 0)
    → g ≡ listed o
    → ((ps : List String) → (test (list (texts ps)) ≡ some answer) ↔ P ps)
    → Asks g test answer ↔ Wants o P
Asks-Wants none g test answer P e h = (λ a. tt, λ a. subst (λ x. Asks x test answer) (sym e) tt)
Asks-Wants (some ps) g test answer P e h = (
  λ a. (h ps).0 (subst (λ x. Asks x test answer) e a),
  λ a. subst (λ x. Asks x test answer) (sym e) ((h ps).1 a),
)

pub some-inj : {a b : Bool} → some a ≡ some b → a ≡ b
some-inj h = cc

pub Branch-branch_of : (ref : String) → Branch ref (branch_of ref)
Branch-branch_of ref =
    elim (without_prefix "refs/heads/" ref)
        as (λ o.
          without_prefix "refs/heads/" ref ≡ o → Branch ref (elim o [ none ↦ ref | some r ↦ r ])) [
            | none ↦ λ h. inr ((λ c. without_prefix-none "refs/heads/" ref c h), refl)
            | some r ↦ λ h. inl (without_prefix-some "refs/heads/" ref r h)
          ]
      refl

pub Branch-eq : (ref b : String) → Branch ref b → b ≡ branch_of ref
Branch-eq ref b (inl e) = sym (
    ap (λ (o : Option String). elim o [ none ↦ ref | some r ↦ r ])
      (ap (without_prefix "refs/heads/") e ∙ without_prefix-concat "refs/heads/" b))
Branch-eq ref b (inr (n, e)) = elim (Branch-branch_of ref) [
  | inl q ↦ absurd (n (branch_of ref) q)
  | inr q ↦ e ∙ sym q.1
]

pub append-Changed :
    (f : String) (commits : List Commit) → Memᴰ f (get_changed_files commits) → Changed commits f
unfolding get_changed_files
append-Changed f [] m = elim m [ ]
append-Changed f (c ∷ cs) m = elim (Memᴰ.append_cases ((c.added ++ c.modified) ++ c.removed) m) [
  | inr m ↦ let (d, n, a) = append-Changed f cs m in (d, Memᴰ.tail n, a)
  | inl m ↦ elim (Memᴰ.append_cases (c.added ++ c.modified) m) [
    | inr a ↦ (c, Memᴰ.head refl, inr (inr a))
    | inl m ↦ elim (Memᴰ.append_cases c.added m) [
      | inl a ↦ (c, Memᴰ.head refl, inl a)
      | inr a ↦ (c, Memᴰ.head refl, inr (inl a))
    ]
  ]
]

commit-files :
    (f : String) (c : Commit)
    → Memᴰ f c.added ⊎ Memᴰ f c.modified ⊎ Memᴰ f c.removed
    → Memᴰ f ((c.added ++ c.modified) ++ c.removed)
commit-files f c (inl m) = Memᴰ.append_left c.removed (Memᴰ.append_left c.modified m)
commit-files f c (inr (inl m)) = Memᴰ.append_left c.removed (Memᴰ.append_right c.added m)
commit-files f c (inr (inr m)) = Memᴰ.append_right (c.added ++ c.modified) m

pub Changed-append :
    (f : String) (commits : List Commit) → Changed commits f → Memᴰ f (get_changed_files commits)
unfolding get_changed_files
Changed-append f [] h = elim h.1 [ ]
Changed-append f (c ∷ cs) (d, Memᴰ.head e, a) = Memᴰ.append_left (get_changed_files cs) (
    commit-files f c
      (subst (λ (x : Commit). Memᴰ f x.added ⊎ Memᴰ f x.modified ⊎ Memᴰ f x.removed) e a))
Changed-append f (c ∷ cs) (d, Memᴰ.tail m, a) =
    Memᴰ.append_right ((c.added ++ c.modified) ++ c.removed) (Changed-append f cs (d, m, a))

and_false : (b : Bool) → (b && false) ≡ false
and_false true = refl
and_false false = refl

pub either-or : (a b : Bool) → either (some a) (some b) ≡ some (a || b)
either-or true b = refl
either-or false b = refl

pub both-and : (a b : Bool) → both (some a) (some b) ≡ some (a && b)
both-and true b = refl
both-and false b = refl

and-failed : (a b : Bool) → (a && b) ≡ false → (a ≡ false) ⊎ (b ≡ false)
and-failed true b h = inr h
and-failed false b h = inl refl

module _ (p : String → Bool) where
  pub all-failed : (xs : List String) → all p xs ≡ false → (x : String) × Memᴰ x xs × (p x ≡ false)
  all-failed [] h = cc
  all-failed (x ∷ xs) h = elim (and-failed (p x) (all p xs) h) [
    | inl e ↦ (x, Memᴰ.head refl, e)
    | inr e ↦ let (y, m, q) = all-failed xs e in (y, Memᴰ.tail m, q)
  ]

  pub failed-all : {x : String} (xs : List String) → Memᴰ x xs → p x ≡ false → all p xs ≡ false
  failed-all [] m e = elim m [ ]
  failed-all (y ∷ ys) (Memᴰ.head q) e = ap (λ b. b && all p ys) (ap p (sym q) ∙ e)
  failed-all (y ∷ ys) (Memᴰ.tail m) e = ap (λ b. p y && b) (failed-all ys m e) ∙ and_false (p y)
