-- ===== src/RefUpdates/Checked.antt =====
-- What `plan` has checked of each update it returns.
use github_emulator.Prelude.{
  ◌≡◌, ◌≢◌, refl, sym, ap, ◌∙◌, subst, Bool, true, false, not, ◌&&◌, Bool-cases, Option, none, some,
  ◌==◌, nat_eq, inl, inr, if_cases, beq_eq, arith,
}
use github_emulator.Prelude.Text.{Text, codes, text_eq}
use github_emulator.Repositories.{is_some}
use github_emulator.RefUpdates.Plan.{
  Git, RefUpdate, RefUpdateError, PlannedUpdate, Result, ok, raise, refuse, bind, normal, zero_oid,
  drop_zero, is_branch, check_move, check_object, disagree, is_stale,
}
use github_emulator.RefUpdates.Apply.{IsFull, IsValue}

-- The value that a `beforeOid` or an `afterOid` names: all zeros is none.
abbrev pub named : Option Text → Option Text
named none = none
named (some value) = drop_zero (some (normal value))

module _ {R : Type 0} (git : Git R) (repo : R) where
  pub record Checked (u : RefUpdate) (p : PlannedUpdate) : Type 0 where
    pub full : IsFull git u.name
    pub value : IsValue p.after
    pub name : p.name ≡ u.name
    pub current : p.before ≡ git.rev_parse repo u.name
    pub after : p.after ≡ named u.after_oid
    pub expected : (v : Text) → u.before_oid ≡ some v → p.before ≡ named (some v)
    pub exists : p.after ≡ none → p.before ≢ none
    pub object : (a : Text) → p.after ≡ some a → (git.cat_file repo a).0 ≡ 0
    pub commit :
        (a : Text)
        → p.after ≡ some a
        → is_branch u.name ≡ true
        → (git.cat_file repo a).1 ≡ codes "commit"
    pub fast_forward :
        (c a : Text)
        → p.before ≡ some c
        → p.after ≡ some a
        → c ≢ a
        → u.force ≡ false
        → git.is_ancestor repo c a ≡ 0

module _ {ℓ} {A : Type ℓ} where
  pub refuse-ok :
      (b : Bool) (e : RefUpdateError) {r : Result A} {x : A}
      → refuse b e r ≡ ok x
      → (b ≡ false) × (r ≡ ok x)
  refuse-ok true e h = cc
  refuse-ok false e h = (refl, h)

module _ {ℓ κ} {A : Type ℓ} {B : Type κ} where
  pub bind-ok :
      (m : Result A) (f : A → Result B) (y : B)
      → bind m f ≡ ok y
      → (x : A) × (m ≡ ok x) × (f x ≡ ok y)
  bind-ok (ok a) f y h = (a, refl, h)
  bind-ok (raise e) f y h = cc

-- An accepted expectation is the current value.
pub expected-current :
    (e : Text) (current : Option Text)
    → disagree (some e) current ≡ false
    → is_stale (some e) current ≡ false
    → current ≡ drop_zero (some e)
expected-current e none d s =
    if_cases (λ o. none ≡ o) (e == zero_oid) (λ z. refl) (λ z. ground arith)
expected-current e (some c) d s =
    if_cases (λ o. some c ≡ o) (e == zero_oid) (λ z. ground arith)
      (λ z. ap some (sym (beq_eq e c (ground arith))))

no_zero : (o : Option Text) → (not (is_some o)) ≡ true → o ≡ none
no_zero none h = refl
no_zero (some v) h = cc

pub not-false : (b : Bool) → not b ≡ false → b ≡ true
not-false true h = refl
not-false false h = cc

and_not : (a b : Bool) → (a && not b) ≡ false → a ≡ true → b ≡ true
and_not a b h e = ground arith

some-inj : {a b : Text} → some a ≡ some b → a ≡ b
some-inj h = cc

module _ {R : Type 0} (git : Git R) (repo : R) where
  -- The part of `Checked` on the new value.
  pub record Movable (u : RefUpdate) (current after : Option Text) (p : PlannedUpdate)
      : Type 0 where
    pub name : p.name ≡ u.name
    pub before_same : p.before ≡ current
    pub after_same : p.after ≡ after
    pub object : (a : Text) → after ≡ some a → (git.cat_file repo a).0 ≡ 0
    pub commit :
        (a : Text)
        → after ≡ some a
        → is_branch u.name ≡ true
        → (git.cat_file repo a).1 ≡ codes "commit"
    pub fast_forward :
        (c a : Text)
        → current ≡ some c
        → after ≡ some a
        → c ≢ a
        → u.force ≡ false
        → git.is_ancestor repo c a ≡ 0

  check_move-fields :
      (u : RefUpdate) (current : Option Text) (a : Text) (p : PlannedUpdate)
      → check_move git repo u current a ≡ ok p
      → (p.name ≡ u.name) × (p.before ≡ current) × (p.after ≡ some a)
  unfolding check_move
  check_move-fields u none a p h = (cc, cc, cc)
  check_move-fields u (some c) a p h =
      let k = refuse-ok (not (c == a) && not (git.is_ancestor repo c a == 0) && not u.force) _ h in
      let e : ok (record {
        name = u.name;
        before = some c;
        after = some a;
        forced = not (c == a) && not (git.is_ancestor repo c a == 0);
      })
          ≡ ok p =
        k.1 in
      (cc, cc, cc)

  check_move-ancestor :
      (u : RefUpdate) (c a : Text) (p : PlannedUpdate)
      → check_move git repo u (some c) a ≡ ok p
      → c ≢ a
      → u.force ≡ false
      → git.is_ancestor repo c a ≡ 0
  unfolding check_move
  check_move-ancestor u c a p h n f =
      let k =
        (refuse-ok (not (c == a) && not (git.is_ancestor repo c a == 0) && not u.force) _ h).0 in
      elim (Bool-cases (c == a)) [
        | inl e ↦ absurd (n (beq_eq c a e))
        | inr e ↦ beq_eq (git.is_ancestor repo c a) 0 (ground arith)
      ]

  pub check_object-Movable :
      (u : RefUpdate) (current after : Option Text) (p : PlannedUpdate)
      → check_object git repo u current after ≡ ok p
      → Movable u current after p
  unfolding check_object
  check_object-Movable u current none p h = record {
    name = cc;
    before_same = cc;
    after_same = cc;
    object = λ a e. cc;
    commit = λ a e. cc;
    fast_forward = λ c a q e. cc;
  }
  check_object-Movable u current (some a) p h =
      let k = refuse-ok (not ((git.cat_file repo a).0 == 0)) _ h in
      let l =
        refuse-ok (is_branch u.name && not ((git.cat_file repo a).1 == codes "commit")) _ k.1 in
      let (n, b, s) = check_move-fields u current a p l.1 in
      record {
        name = n;
        before_same = b;
        after_same = s;
        object = λ c e.
            subst (λ x. (git.cat_file repo x).0 ≡ 0) (some-inj e)
              (beq_eq (git.cat_file repo a).0 0 (not-false _ k.0));
        commit = λ c e q.
            subst (λ x. (git.cat_file repo x).1 ≡ codes "commit") (some-inj e)
              (beq_eq (git.cat_file repo a).1 (codes "commit") (and_not _ _ l.0 q));
        fast_forward = λ c d q e m f.
            let e' = sym (some-inj e) in
            subst (λ x. git.is_ancestor repo c x ≡ 0) (some-inj e)
              (check_move-ancestor u c a p (subst (λ o. check_move git repo u o a ≡ ok p) q l.1)
                (λ z. m (z ∙ some-inj e)) f);
      }
