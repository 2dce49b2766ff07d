-- ===== src/RefUpdates/Atomic.antt =====
-- `apply` makes all the planned changes, or none.
use github_emulator.Prelude.{
  ◌≡◌, ◌≢◌, refl, sym, ap, ◌∙◌, subst, Bool, true, false, Bool-cases, Option, none, some, List, [],
  ◌∷◌, ◌==◌, nat_eq, ◌⊎◌, inl, inr, if◌then◌else◌, if_cases, beq_eq, map, arith, ℕ,
}
use github_emulator.Prelude.Rows.{All, All-mono}
use github_emulator.Prelude.Text.{Text, text_eq}
use github_emulator.Prelude.Lists.{all}
use github_emulator.RefUpdates.Plan.{Git, Command, PlannedUpdate, RefUpdateError, ref_changed}
use github_emulator.RefUpdates.Apply.{
  same, command, change, is_verify, target, old, new, finish, apply, Transactional, IsFull, IsValue,
  IsLine, written,
}
use github_emulator.RefUpdates.Lines.{All-zip, written-others, written-done}

pub same-eq : (a b : Option Text) → same a b ≡ true → a ≡ b
same-eq none none h = refl
same-eq none (some b) h = cc
same-eq (some a) none h = cc
same-eq (some a) (some b) h = ap some (beq_eq a b h)

change-values :
    (name : Text) (before after : Option Text)
    → same before after ≡ false
    → (target (change name before after) ≡ name)
      × (old (change name before after) ≡ before)
      × (new (change name before after) ≡ after)
      × (is_verify (change name before after) ≡ false)
change-values name none none h = cc
change-values name (some b) none h = (refl, refl, refl, refl)
change-values name none (some a) h = (refl, refl, refl, refl)
change-values name (some b) (some a) h = (refl, refl, refl, refl)

-- The line of an update asks for its old value and leaves its new one.
command-values :
    (p : PlannedUpdate)
    → (target (command p) ≡ p.name)
      × (old (command p) ≡ p.before)
      × (new (command p) ≡ p.after)
      × (is_verify (command p) ≡ same p.before p.after)
command-values p =
    if_cases
      (λ c.
        (target c ≡ p.name)
        × (old c ≡ p.before)
        × (new c ≡ p.after)
        × (is_verify c ≡ same p.before p.after))
      (same p.before p.after) (λ e. (refl, refl, same-eq p.before p.after e, sym e))
      (λ e. let (n, o, w, v) = change-values p.name p.before p.after e in (n, o, w, v ∙ sym e))

module _ {R : Type 0} (git : Git R) where
  -- A valid name under refs/, and values that are object ids.
  abbrev pub IsPlanned : PlannedUpdate → Type 0
  IsPlanned p = IsFull git p.name × IsValue p.before × IsValue p.after

  -- Each planned ref had the value it was checked at and has its new one, and no other ref under
  -- refs/ moved.
  pub record Applied (repo : R) (repo' : R) (ps : List PlannedUpdate) : Type 0 where
    pub moved :
        All
          (λ p. (git.rev_parse repo p.name ≡ p.before) × (git.rev_parse repo' p.name ≡ p.after))
          ps
    pub untouched :
        (name : Text)
        → IsFull git name
        → All (λ p. p.name ≢ name) ps
        → git.rev_parse repo' name ≡ git.rev_parse repo name

  -- No update changes anything, and nothing was done.
  abbrev pub Idle : R → R → List PlannedUpdate → Type 0
  Idle repo repo' ps = All (λ p. p.before ≡ p.after) ps × (repo' ≡ repo)

all_verify :
    (ps : List PlannedUpdate)
    → all is_verify (map command ps) ≡ true
    → All (λ p. p.before ≡ p.after) ps
all_verify [] h = tt
all_verify (p ∷ ps) h =
    let e : is_verify (command p) ≡ true = ground arith in
    (same-eq p.before p.after (sym (command-values p).3 ∙ e), all_verify ps (ground arith))

to_lines :
    (f : Command → Type 0) (ps : List PlannedUpdate)
    → All (λ p. f (command p)) ps
    → All f (map command ps)
to_lines f [] h = tt
to_lines f (p ∷ ps) h = (h.0, to_lines f ps h.1)

of_lines :
    (f : Command → Type 0) (ps : List PlannedUpdate)
    → All f (map command ps)
    → All (λ p. f (command p)) ps
of_lines f [] h = tt
of_lines f (p ∷ ps) h = (h.0, of_lines f ps h.1)

apart : (n : ℕ) → n ≡ 0 → (n == 0) ≡ false → ⊥
apart n z e = ground arith

raised : (b : Bool) → b ≡ false → (if b then none else some ref_changed) ≢ none
raised true e n = cc
raised false e n = cc

module _ {R : Type 0} (git : Git R) (laws : Transactional git) where
  lines_of : (ps : List PlannedUpdate) → All (IsPlanned git) ps → All (IsLine git) (map command ps)
  lines_of ps full = to_lines (IsLine git) ps (
      All-mono (IsPlanned git) _ ps
        (λ p h.
          let v = command-values p in
          (
            subst (IsFull git) (sym v.0) h.0,
            subst IsValue (sym v.1) h.1,
            subst IsValue (sym v.2) h.2,
          ))
        full)

  done-Applied :
      (repo : R) (ps : List PlannedUpdate)
      → All (IsPlanned git) ps
      → (git.update_ref repo (map command ps)).0 ≡ 0
      → Applied git repo (git.update_ref repo (map command ps)).1 ps
  done-Applied repo ps full e =
      let cs = map command ps in
      let repo' = (git.update_ref repo cs).1 in
      let lines = lines_of ps full in
      let (apart, held) = laws.verified repo cs lines e in
      let left = laws.done repo cs lines e in
      let values =
        All-zip (λ c. git.rev_parse repo (target c) ≡ old c)
          (λ c. git.rev_parse repo' (target c) ≡ new c)
          (λ c. (git.rev_parse repo (target c) ≡ old c) × (git.rev_parse repo' (target c) ≡ new c))
          cs (λ c p q. (p, q)) held
          (All-zip (IsLine git) (λ c. written cs (git.rev_parse repo) (target c) ≡ new c)
            (λ c. git.rev_parse repo' (target c) ≡ new c) cs (λ c l w. left (target c) l.0 ∙ w)
            lines (written-done cs (git.rev_parse repo) apart)) in
      record {
        moved =
            All-mono _ _ ps
              (λ p h.
                let v = command-values p in
                (
                  ap (git.rev_parse repo) (sym v.0) ∙ h.0 ∙ v.1,
                  ap (git.rev_parse repo') (sym v.0) ∙ h.1 ∙ v.2,
                ))
              (of_lines _ ps values);
        untouched = λ name valid h.
            left name valid
            ∙ written-others cs (git.rev_parse repo) name (
                to_lines (λ c. target c ≢ name) ps
                  (All-mono _ _ ps (λ p k q. k (sym (command-values p).0 ∙ q)) h));
      }

  -- An outcome of `apply` is an error with nothing changed, or all the changes.
  abbrev pub AllOrNone : R → List PlannedUpdate → Option RefUpdateError × R → Type 0
  AllOrNone repo ps r =
      ((r.0 ≢ none) × (r.1 ≡ repo))
      ⊎ ((r.0 ≡ none) × (Applied git repo r.1 ps ⊎ Idle git repo r.1 ps))

  finish-AllOrNone :
      (repo : R) (ps : List PlannedUpdate)
      → All (IsPlanned git) ps
      → AllOrNone repo ps (finish (git.update_ref repo (map command ps)))
  finish-AllOrNone repo ps full =
      elim (Bool-cases ((git.update_ref repo (map command ps)).0 == 0)) [
        | inl e ↦ inr (
          ap (λ b. if b then none else some ref_changed) e,
          inl (done-Applied repo ps full (beq_eq _ 0 e)),
        )
        | inr e ↦ inl (raised _ e, laws.undone repo (map command ps) (λ z. apart _ z e))
      ]

  -- For updates of valid names under refs/ between full object ids: `apply` raises with nothing
  -- changed, or it returns and every planned ref had the value it was checked at and has its new
  -- one and no other ref of a valid name under refs/ has moved, or it returns with no change to
  -- make and none made. Git's transactions are as documented.
  pub apply-AllOrNone :
      (repo : R) (ps : List PlannedUpdate)
      → All (IsPlanned git) ps
      → AllOrNone repo ps (apply git repo ps)
  unfolding apply
  apply-AllOrNone repo ps full =
      if_cases (AllOrNone repo ps) (all is_verify (map command ps))
        (λ e. inr (refl, inr (all_verify ps e, refl))) (λ e. finish-AllOrNone repo ps full)
