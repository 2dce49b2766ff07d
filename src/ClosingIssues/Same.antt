-- ===== src/ClosingIssues/Same.antt =====
-- When two references are to one issue, apart from the keys by which the code decides it.
use github_emulator.Prelude.{
  ◌≡◌, refl, sym, ap, ◌∙◌, subst, Bool, true, ◌&&◌, Option, none, some, ◌==◌, nat_eq, beq_eq,
  beq_refl, if_cases, if◌then◌else◌, arith,
}
use github_emulator.Prelude.Text.{Text, text_eq, lower, before, is_empty_text}
use github_emulator.Repositories.{Repository}
use github_emulator.ClosingIssues.References.{
  Reference, Key, same_text, same_key, full_key, lower_or,
}

-- The name that a part of a reference gives, or its default: an empty one counts as not given.
abbrev pub given : Option Text → Text → Text
given none d = d
given (some name) d = if is_empty_text name then d else name

-- One number, in repositories of one owner and one name but for the case of letters, where a part
-- that is not given is that of the pull request's own repository.
pub record SameIssue (own : Repository) (r s : Reference) : Type 0 where
  pub owners :
      lower (given r.owner (before b'/' own.full_name))
      ≡ lower (given s.owner (before b'/' own.full_name))
  pub repos : lower (given r.repo own.name) ≡ lower (given s.repo own.name)
  pub numbers : r.number ≡ s.number

lower_or-given :
    (o : Option Text) (d : Text) → lower_or o (some (lower d)) ≡ some (lower (given o d))
lower_or-given none d = refl
lower_or-given (some name) d =
    if_cases (λ x. x ≡ some (lower (if is_empty_text name then d else name))) (is_empty_text name)
      (λ e. sym (ap (λ b. some (lower (if b then d else name))) e))
      (λ e. sym (ap (λ b. some (lower (if b then d else name))) e))

same_text-eq : (a b : Option Text) → same_text a b ≡ true → a ≡ b
same_text-eq none none h = refl
same_text-eq none (some b) h = cc
same_text-eq (some a) none h = cc
same_text-eq (some a) (some b) h = ap some (beq_eq a b h)

same_text_refl : (a : Option Text) → same_text a a ≡ true
same_text_refl none = refl
same_text_refl (some a) = beq_refl a

pub same_key-eq : (x y : Key) → same_key x y ≡ true → (x.0 ≡ y.0) × (x.1 ≡ y.1) × (x.2 ≡ y.2)
same_key-eq (o, r, n) (p, s, m) h =
    (same_text-eq o p (ground arith), same_text-eq r s (ground arith), beq_eq n m (ground arith))

and_intro : (a b c : Bool) → a ≡ true → b ≡ true → c ≡ true → (a && b && c) ≡ true
and_intro a b c h k l = ground arith

pub eq-same_key : (x y : Key) → x.0 ≡ y.0 → x.1 ≡ y.1 → x.2 ≡ y.2 → same_key x y ≡ true
eq-same_key (o, r, n) (p, s, m) h k l =
    and_intro _ _ _ (subst (λ z. same_text o z ≡ true) h (same_text_refl o))
      (subst (λ z. same_text r z ≡ true) k (same_text_refl r))
      (subst (λ z. (n == z) ≡ true) l (beq_refl n))

some-inj : {a b : Text} → some a ≡ some b → a ≡ b
some-inj h = cc

module _ (own : Repository) where
  pub full-SameIssue :
      (r s : Reference) → same_key (full_key own r) (full_key own s) ≡ true → SameIssue own r s
  full-SameIssue r s h =
      let (o, p, n) = same_key-eq (full_key own r) (full_key own s) h in
      record {
        owners = some-inj (sym (lower_or-given r.owner _) ∙ o ∙ lower_or-given s.owner _);
        repos = some-inj (sym (lower_or-given r.repo _) ∙ p ∙ lower_or-given s.repo _);
        numbers = n;
      }

  pub SameIssue-full :
      (r s : Reference) → SameIssue own r s → same_key (full_key own r) (full_key own s) ≡ true
  SameIssue-full r s h =
      eq-same_key (full_key own r) (full_key own s)
        (lower_or-given r.owner _ ∙ ap some h.owners ∙ sym (lower_or-given s.owner _))
        (lower_or-given r.repo _ ∙ ap some h.repos ∙ sym (lower_or-given s.repo _)) h.numbers
