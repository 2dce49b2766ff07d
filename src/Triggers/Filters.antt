-- ===== src/Triggers/Filters.antt =====
-- When a push is admitted by filters that are lists of patterns.
use mathlib.Core.Bool.{false≢true}
use github_emulator.Prelude.{
  String, ◌≡◌, ◌⊎◌, inl, inr, ◌↔◌, refl, sym, ap, ◌∙◌, subst, Bool, true, false, Bool-cases, Option,
  none, some, List, [], ◌∷◌, string_eq, if_cases, ◌||◌, arith, if◌then◌else◌,
}
use github_emulator.Prelude.Lists.{any, all}
use github_emulator.Prelude.Rows.{any-mem, mem-any}
use github_emulator.Prelude.Strings.{without_prefix}
use github_emulator.Prelude.Prefixes.{
  without_prefix-concat, without_prefix-some, without_prefix-none,
}
use github_emulator.Value.{Fields, Value, dict, list, get}
use github_emulator.Triggers.Config.{matches, either, both}
use github_emulator.Triggers.Match.{
  any_path, all_paths, branch_of, tag_matches, match_fields, match_push, or_default,
  get_changed_files, Payload, Commit,
}
use github_emulator.Triggers.Asked.{
  both-true, true-both, Asks, allowing-Asks, refusing-Asks, texts, Hit, Branch, Tag, Changed,
  Filters, Configured, Wants, Asks-Wants, some-inj, Branch-branch_of, Branch-eq, append-Changed,
  Changed-append, either-or, both-and, all-failed, failed-all,
}

module _ (fnmatch : String → String → Bool) where
  -- A filter that is a list of texts raises nothing and says whether one of them matches.
  matches-any :
      (s : String) (ps : List String)
      → matches fnmatch s (list (texts ps)) ≡ some (any (fnmatch s) ps)
  matches-any s [] = refl
  matches-any s (p ∷ ps) =
      if_cases (λ o. o ≡ some (fnmatch s p || any (fnmatch s) ps)) (fnmatch s p) (λ e. ground arith)
        (λ e. matches-any s ps ∙ ground arith)

  Hit-any : (s : String) (ps : List String) → Hit fnmatch s ps → any (fnmatch s) ps ≡ true
  Hit-any s ps h = mem-any (fnmatch s) ps h.1 h.2

  matches-Hit :
      (s : String) (ps : List String)
      → (matches fnmatch s (list (texts ps)) ≡ some true) ↔ Hit fnmatch s ps
  matches-Hit s ps = (
    λ h. any-mem (fnmatch s) ps (some-inj (sym (matches-any s ps) ∙ h)),
    λ h. matches-any s ps ∙ ap some (Hit-any s ps h),
  )

  matches-NoHit :
      (s : String) (ps : List String)
      → (matches fnmatch s (list (texts ps)) ≡ some false) ↔ (Hit fnmatch s ps → ⊥)
  matches-NoHit s ps = (
    λ h k. false≢true (some-inj (sym h ∙ (matches-Hit s ps).1 k)),
    λ h. elim (Bool-cases (any (fnmatch s) ps)) [
      | inl e ↦ absurd (h (any-mem (fnmatch s) ps e))
      | inr e ↦ matches-any s ps ∙ ap some e
    ],
  )

  branch-Hit :
      (ref : String) (ps : List String)
      → (matches fnmatch (branch_of ref) (list (texts ps)) ≡ some true)
        ↔ ((b : String) × Branch ref b × Hit fnmatch b ps)
  branch-Hit ref ps = (
    λ h. (branch_of ref, Branch-branch_of ref, (matches-Hit (branch_of ref) ps).0 h),
    λ h.
        (matches-Hit (branch_of ref) ps).1
          (subst (λ x. Hit fnmatch x ps) (Branch-eq ref h.0 h.1) h.2),
  )

  branch-NoHit :
      (ref : String) (ps : List String)
      → (matches fnmatch (branch_of ref) (list (texts ps)) ≡ some false)
        ↔ ((b : String) × Branch ref b × (Hit fnmatch b ps → ⊥))
  branch-NoHit ref ps = (
    λ h. (branch_of ref, Branch-branch_of ref, (matches-NoHit (branch_of ref) ps).0 h),
    λ h.
        (matches-NoHit (branch_of ref) ps).1
          (subst (λ x. Hit fnmatch x ps → ⊥) (Branch-eq ref h.0 h.1) h.2),
  )

  tag_at : Option String → String → Value → Option Bool
  tag_at o ref v =
      if elim o [ none ↦ false | some rest ↦ true ]
      then matches fnmatch (elim o [ none ↦ ref | some rest ↦ rest ]) v
      else some false

  tag_matches-Tag :
      (ref t : String) (v : Value) → Tag ref t → tag_matches fnmatch ref v ≡ matches fnmatch t v
  unfolding tag_at
  tag_matches-Tag ref t v e =
      ap (λ o. tag_at o ref v)
        (ap (without_prefix "refs/tags/") e ∙ without_prefix-concat "refs/tags/" t)

  Tag-cases :
      (ref : String)
      → ((t : String) × Tag ref t)
        ⊎ (((t : String) → Tag ref t → ⊥) × ((v : Value) → tag_matches fnmatch ref v ≡ some false))
  unfolding tag_at
  Tag-cases ref =
      elim (without_prefix "refs/tags/" ref)
          as (λ o.
            without_prefix "refs/tags/" ref ≡ o
            → ((t : String) × Tag ref t)
              ⊎ (((t : String) → Tag ref t → ⊥)
                  × ((v : Value) → tag_matches fnmatch ref v ≡ some false))) [
                    | none ↦ λ h. inr (
                      λ t. without_prefix-none "refs/tags/" ref t h,
                      λ v. ap (λ o. tag_at o ref v) h,
                    )
                    | some t ↦ λ h. inl (t, without_prefix-some "refs/tags/" ref t h)
                  ]
        refl

  Tag-Hit :
      (ref : String) (ps : List String)
      → (tag_matches fnmatch ref (list (texts ps)) ≡ some true)
        ↔ ((t : String) × Tag ref t × Hit fnmatch t ps)
  Tag-Hit ref ps = (
    λ h. elim (Tag-cases ref) [
      | inl (t, e) ↦
          (t, e, (matches-Hit t ps).0 (sym (tag_matches-Tag ref t (list (texts ps)) e) ∙ h))
      | inr n ↦ absurd (false≢true (some-inj (sym (n.1 (list (texts ps))) ∙ h)))
    ],
    λ h. tag_matches-Tag ref h.0 (list (texts ps)) h.1 ∙ (matches-Hit h.0 ps).1 h.2,
  )

  Tag-NoHit :
      (ref : String) (ps : List String)
      → (tag_matches fnmatch ref (list (texts ps)) ≡ some false)
        ↔ ((t : String) → Tag ref t → Hit fnmatch t ps → ⊥)
  Tag-NoHit ref ps = (
    λ h t e. (matches-NoHit t ps).0 (sym (tag_matches-Tag ref t (list (texts ps)) e) ∙ h),
    λ h. elim (Tag-cases ref) [
      | inl (t, e) ↦ tag_matches-Tag ref t (list (texts ps)) e ∙ (matches-NoHit t ps).1 (h t e)
      | inr n ↦ n.1 (list (texts ps))
    ],
  )

  any_path-any :
      (fs : List String) (ps : List String)
      → any_path fnmatch fs (list (texts ps)) ≡ some (any (λ f. any (fnmatch f) ps) fs)
  any_path-any [] ps = refl
  any_path-any (f ∷ fs) ps =
      ap (λ o. either o (any_path fnmatch fs (list (texts ps)))) (matches-any f ps)
      ∙ ap (either (some (any (fnmatch f) ps))) (any_path-any fs ps)
      ∙ either-or (any (fnmatch f) ps) (any (λ f. any (fnmatch f) ps) fs)

  all_paths-all :
      (fs : List String) (ps : List String)
      → all_paths fnmatch fs (list (texts ps)) ≡ some (all (λ f. any (fnmatch f) ps) fs)
  all_paths-all [] ps = refl
  all_paths-all (f ∷ fs) ps =
      ap (λ o. both o (all_paths fnmatch fs (list (texts ps)))) (matches-any f ps)
      ∙ ap (both (some (any (fnmatch f) ps))) (all_paths-all fs ps)
      ∙ both-and (any (fnmatch f) ps) (all (λ f. any (fnmatch f) ps) fs)

  paths-Hit :
      (commits : List Commit) (ps : List String)
      → (any_path fnmatch (get_changed_files commits) (list (texts ps)) ≡ some true)
        ↔ ((f : String) × Changed commits f × Hit fnmatch f ps)
  paths-Hit commits ps = (
    λ h.
        let (f, m, e) =
          any-mem (λ f. any (fnmatch f) ps) (get_changed_files commits)
            (some-inj (sym (any_path-any (get_changed_files commits) ps) ∙ h)) in
        (f, append-Changed f commits m, any-mem (fnmatch f) ps e),
    λ h.
        any_path-any (get_changed_files commits) ps
        ∙ ap some (
            mem-any (λ f. any (fnmatch f) ps) (get_changed_files commits)
              (Changed-append h.0 commits h.1) (Hit-any h.0 ps h.2)),
  )

  paths-NoHit :
      (commits : List Commit) (ps : List String)
      → (all_paths fnmatch (get_changed_files commits) (list (texts ps)) ≡ some false)
        ↔ ((f : String) × Changed commits f × (Hit fnmatch f ps → ⊥))
  paths-NoHit commits ps = (
    λ h.
        let (f, m, e) =
          all-failed (λ f. any (fnmatch f) ps) (get_changed_files commits)
            (some-inj (sym (all_paths-all (get_changed_files commits) ps) ∙ h)) in
        (f, append-Changed f commits m, λ k. false≢true (sym e ∙ Hit-any f ps k)),
    λ h.
        all_paths-all (get_changed_files commits) ps
        ∙ ap some (
            failed-all (λ f. any (fnmatch f) ps) (get_changed_files commits)
              (Changed-append h.0 commits h.1)
              (elim (Bool-cases (any (fnmatch h.0) ps)) [
                | inl e ↦ absurd (h.2 (any-mem (fnmatch h.0) ps e))
                | inr e ↦ e
              ])),
  )

  -- What the filters ask of a push.
  abbrev pub Admits : Filters → String → List Commit → Type 0
  Admits f ref commits =
      Wants f.branches (λ ps. (b : String) × Branch ref b × Hit fnmatch b ps)
      × Wants f.branches_ignore (λ ps. (b : String) × Branch ref b × (Hit fnmatch b ps → ⊥))
      × Wants f.tags (λ ps. (t : String) × Tag ref t × Hit fnmatch t ps)
      × Wants f.tags_ignore (λ ps. (t : String) → Tag ref t → Hit fnmatch t ps → ⊥)
      × Wants f.paths (λ ps. (x : String) × Changed commits x × Hit fnmatch x ps)
      × Wants f.paths_ignore (λ ps. (x : String) × Changed commits x × (Hit fnmatch x ps → ⊥))

  match_fields-parts :
      (config : Fields) (ref : String) (changed : List String)
      → (match_fields fnmatch config ref changed ≡ some true) ↔ (
          Asks (get config "branches") (matches fnmatch (branch_of ref)) true
          × Asks (get config "branches-ignore") (matches fnmatch (branch_of ref)) false
          × Asks (get config "tags") (tag_matches fnmatch ref) true
          × Asks (get config "tags-ignore") (tag_matches fnmatch ref) false
          × Asks (get config "paths") (any_path fnmatch changed) true
          × Asks (get config "paths-ignore") (all_paths fnmatch changed) false)
  unfolding match_fields
  match_fields-parts config ref changed = (
    λ h.
        let a = both-true _ _ h in
        let b = both-true _ _ a.1 in
        let c = both-true _ _ b.1 in
        let d = both-true _ _ c.1 in
        let e = both-true _ _ d.1 in
        (
          (allowing-Asks _ _).0 a.0,
          (refusing-Asks _ _).0 b.0,
          (allowing-Asks _ _).0 c.0,
          (refusing-Asks _ _).0 d.0,
          (allowing-Asks _ _).0 e.0,
          (refusing-Asks _ _).0 e.1,
        ),
    λ q. true-both _ _ ((allowing-Asks _ (matches fnmatch (branch_of ref))).1 q.0) (
        true-both _ _ ((refusing-Asks _ (matches fnmatch (branch_of ref))).1 q.1) (
          true-both _ _ ((allowing-Asks _ (tag_matches fnmatch ref)).1 q.2) (
            true-both _ _ ((refusing-Asks _ (tag_matches fnmatch ref)).1 q.3) (
              true-both _ _ ((allowing-Asks _ (any_path fnmatch changed)).1 q.4)
                ((refusing-Asks _ (all_paths fnmatch changed)).1 q.5))))),
  )

  -- Where each of the six filters of a configuration of push is absent or a list of patterns, the
  -- configuration admits a push exactly when every filter that is there does: `branches` if some
  -- pattern matches the branch, which is the ref without refs/heads/, or the whole ref where it
  -- has no such start, and `branches-ignore` if none does; `tags` if the ref is a tag that some
  -- pattern matches, and `tags-ignore` if it is none that some pattern matches; `paths` if some
  -- file that a commit added, modified or removed is matched by some pattern, and `paths-ignore`
  -- if some such file is matched by none.
  pub match_push-Admits :
      (config : Fields) (f : Filters) (payload : Payload)
      → Configured config f
      → (match_push fnmatch (dict config) payload ≡ some true)
        ↔ Admits f (or_default "" payload.ref) payload.commits
  unfolding match_push
  match_push-Admits config f payload c =
      let ref = or_default "" payload.ref in
      let commits = payload.commits in
      let parts = match_fields-parts config ref (get_changed_files commits) in
      let one = Asks-Wants f.branches _ _ true _ c.0 (branch-Hit ref) in
      let two = Asks-Wants f.branches_ignore _ _ false _ c.1 (branch-NoHit ref) in
      let three = Asks-Wants f.tags _ _ true _ c.2 (Tag-Hit ref) in
      let four = Asks-Wants f.tags_ignore _ _ false _ c.3 (Tag-NoHit ref) in
      let five = Asks-Wants f.paths _ _ true _ c.4 (paths-Hit commits) in
      let six = Asks-Wants f.paths_ignore _ _ false _ c.5 (paths-NoHit commits) in
      (
        λ h.
            let a = parts.0 h in
            (one.0 a.0, two.0 a.1, three.0 a.2, four.0 a.3, five.0 a.4, six.0 a.5),
        λ h. parts.1 (one.1 h.0, two.1 h.1, three.1 h.2, four.1 h.3, five.1 h.4, six.1 h.5),
      )
