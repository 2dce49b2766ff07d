-- ===== src/RefUpdates/Planned.antt =====
-- `plan` checks every update: the steps of `plan_update` put together, and the loop.
use mathlib.Core.Bool.{false≢true}
use github_emulator.Prelude.{
  ◌≡◌, ◌≢◌, sym, ap, ◌∙◌, subst, false, not, ◌&&◌, Option, none, some, List, [], ◌∷◌, ◌==◌, nat_eq,
  String, ◌⊎◌, inl, inr, if_cases, beq_eq, beq_refl, true,
}
use github_emulator.Prelude.Rows.{Rel, All}
use github_emulator.Prelude.Text.{Text, codes, text_eq, after_prefix}
use github_emulator.Prelude.Lists.{any}
use github_emulator.Repositories.{is_some}
use github_emulator.RefUpdates.Plan.{
  Git, RefUpdate, PlannedUpdate, ok, normal, is_oid, read_oid, drop_zero, disagree, is_stale,
  check_value, zero_oid, plan_update, plan_rest, plan,
}
use github_emulator.RefUpdates.Apply.{Transactional, IsFull, IsValue, apply}
use github_emulator.RefUpdates.Checked.{
  named, Checked, not-false, refuse-ok, bind-ok, expected-current, Movable, check_object-Movable,
}
use github_emulator.RefUpdates.Atomic.{IsPlanned, Applied, Idle, apply-AllOrNone}

ok_inj : {A : Type 0} {a b : A} → ok a ≡ ok b → a ≡ b
ok_inj h = cc

some_inj : {a b : Text} → some a ≡ some b → a ≡ b
some_inj h = cc

both_none : (a c : Option Text) → a ≡ none → c ≡ none → (not (is_some a) && not (is_some c)) ≢ false
both_none none none h k e = cc
both_none (some v) c h k e = cc
both_none none (some v) h k e = cc

read_oid-named :
    (o : Option Text) (label : String) (name : Text) (x : Option Text)
    → read_oid o label name ≡ ok x
    → (drop_zero x ≡ named o) × ((v : Text) → o ≡ some v → x ≡ some (normal v))
unfolding read_oid
read_oid-named none label name x h =
    let e : none ≡ x = ok_inj h in (ap drop_zero (sym e), λ v q. cc)
read_oid-named (some w) label name x h =
    let e : some (normal w) ≡ x = ok_inj (refuse-ok (not (is_oid (normal w))) _ h).1 in
    (ap drop_zero (sym e), λ v q. sym e ∙ ap some (ap normal (some_inj q)))

drop_zero-IsValue : (v : Text) → is_oid v ≡ true → IsValue (drop_zero (some v))
drop_zero-IsValue v h =
    if_cases IsValue (v == zero_oid) (λ e. tt)
      (λ e. (h, λ z. false≢true (sym e ∙ subst (λ x. (v == x) ≡ true) z (beq_refl v))))

read_oid-IsValue :
    (o : Option Text) (label : String) (name : Text) (x : Option Text)
    → read_oid o label name ≡ ok x
    → IsValue (drop_zero x)
unfolding read_oid
read_oid-IsValue none label name x h =
    let e : none ≡ x = ok_inj h in subst (λ y. IsValue (drop_zero y)) e tt
read_oid-IsValue (some w) label name x h =
    let k = refuse-ok (not (is_oid (normal w))) _ h in
    let e : some (normal w) ≡ x = ok_inj k.1 in
    subst (λ y. IsValue (drop_zero y)) e (drop_zero-IsValue (normal w) (not-false _ k.0))

module _ {R : Type 0} (git : Git R) (repo : R) where
  check_value-agree :
      (u : RefUpdate) (expected after current : Option Text) (p : PlannedUpdate)
      → check_value git repo u expected after current ≡ ok p
      → Movable git repo u current after p
        × ((e : Text) → expected ≡ some e → current ≡ drop_zero (some e))
        × (after ≡ none → current ≢ none)
  unfolding check_value
  check_value-agree u expected after current p h =
      let a = refuse-ok (disagree expected current) _ h in
      let b = refuse-ok (is_stale expected current) _ a.1 in
      let c = refuse-ok (not (is_some after) && not (is_some current)) _ b.1 in
      (
        check_object-Movable git repo u current after p c.1,
        λ e q.
            expected-current e current (subst (λ o. disagree o current ≡ false) q a.0)
              (subst (λ o. is_stale o current ≡ false) q b.0),
        λ q z. both_none after current q z c.0,
      )

  plan_update-Checked :
      (seen : List Text) (u : RefUpdate) (p : PlannedUpdate)
      → plan_update git repo seen u ≡ ok p
      → Checked git repo u p
  unfolding plan_update
  plan_update-Checked seen u p h =
      let a = refuse-ok (not (is_some (after_prefix (codes "refs/") u.name))) _ h in
      let b = refuse-ok (not (git.check_ref_format u.name == 0)) _ a.1 in
      let c = refuse-ok (any (λ n. n == u.name) seen) _ b.1 in
      let (expected, e, k) = bind-ok (read_oid u.before_oid "beforeOid" u.name) _ p c.1 in
      let (after, f, l) = bind-ok (read_oid u.after_oid "afterOid" u.name) _ p k in
      let before_read = read_oid-named u.before_oid "beforeOid" u.name expected e in
      let after_read = read_oid-named u.after_oid "afterOid" u.name after f in
      let (m, agree, some_side) =
        check_value-agree u expected (drop_zero after) (git.rev_parse repo u.name) p l in
      record {
        full = (not-false _ a.0, beq_eq (git.check_ref_format u.name) 0 (not-false _ b.0));
        value =
            subst IsValue (sym m.after_same)
              (read_oid-IsValue u.after_oid "afterOid" u.name after f);
        name = m.name;
        current = m.before_same;
        after = m.after_same ∙ after_read.0;
        expected = λ v q. m.before_same ∙ agree (normal v) (before_read.1 v q);
        exists = λ q z. some_side (sym m.after_same ∙ q) (sym m.before_same ∙ z);
        object = λ x q. m.object x (sym m.after_same ∙ q);
        commit = λ x q. m.commit x (sym m.after_same ∙ q);
        fast_forward = λ x y q r. m.fast_forward x y (sym m.before_same ∙ q) (sym m.after_same ∙ r);
      }

  plan_rest-Checked :
      (seen : List Text) (us : List RefUpdate) (ps : List PlannedUpdate)
      → plan_rest git repo seen us ≡ ok ps
      → Rel (Checked git repo) us ps
  unfolding plan_rest
  plan_rest-Checked seen [] ps h = subst (Rel (Checked git repo) []) (ok_inj h) tt
  plan_rest-Checked seen (u ∷ us) ps h =
      let (p, a, k) = bind-ok (plan_update git repo seen u) _ ps h in
      let (qs, b, e) = bind-ok (plan_rest git repo (u.name ∷ seen) us) _ ps k in
      subst (Rel (Checked git repo) (u ∷ us)) (ok_inj e)
        (plan_update-Checked seen u p a, plan_rest-Checked (u.name ∷ seen) us qs b)

  -- Each planned update of an accepted batch has the name asked for, valid and under refs/, the
  -- new value asked for, which is a full object id, and the ref's present value, which is the one
  -- expected where one was given; a ref that is deleted
  -- exists, a new value is an object, on a branch a commit, and a move that is not forced is a
  -- fast-forward.
  pub plan-Checked :
      (us : List RefUpdate) (ps : List PlannedUpdate)
      → plan git repo us ≡ ok ps
      → Rel (Checked git repo) us ps
  unfolding plan
  plan-Checked [] ps h = cc
  plan-Checked (u ∷ us) ps h = plan_rest-Checked [] (u ∷ us) ps h

module _ {A B : Type 0} (C : A → B → Type 0) (Q : B → Type 0) (S : A → Type 0) where
  Rel-left :
      ((a : A) (b : B) → C a b → Q b → S a)
      → (xs : List A) (ys : List B) → Rel C xs ys
      → All Q ys
      → All S xs
  Rel-left f [] [] r q = tt
  Rel-left f [] (b ∷ ys) r q = absurd r
  Rel-left f (a ∷ xs) [] r q = absurd r
  Rel-left f (a ∷ xs) (b ∷ ys) r q = (f a b r.0 q.0, Rel-left f xs ys r.1 q.1)

module _ {A B : Type 0} (C : A → B → Type 0) (S : A → Type 0) (Q : B → Type 0) where
  Rel-right :
      ((a : A) (b : B) → C a b → S a → Q b)
      → (xs : List A) (ys : List B) → Rel C xs ys
      → All S xs
      → All Q ys
  Rel-right f [] [] r q = tt
  Rel-right f [] (b ∷ ys) r q = absurd r
  Rel-right f (a ∷ xs) [] r q = absurd r
  Rel-right f (a ∷ xs) (b ∷ ys) r q = (f a b r.0 q.0, Rel-right f xs ys r.1 q.1)

module _ {R : Type 0} (git : Git R) (laws : Transactional git) (repo : R) where
  -- Every ref that was named has the value asked for, and no other ref under refs/ has moved.
  abbrev pub Updated : R → List RefUpdate → Type 0
  Updated repo' us =
      All (λ u. git.rev_parse repo' u.name ≡ named u.after_oid) us
      × ((name : Text)
          → IsFull git name
          → All (λ u. u.name ≢ name) us
          → git.rev_parse repo' name ≡ git.rev_parse repo name)

  outcome-Updated :
      (repo' : R) (us : List RefUpdate) (ps : List PlannedUpdate)
      → Rel (Checked git repo) us ps
      → Applied git repo repo' ps ⊎ Idle git repo repo' ps
      → Updated repo' us
  outcome-Updated repo' us ps r (inl done) = (
    Rel-left (Checked git repo) _ (λ u. git.rev_parse repo' u.name ≡ named u.after_oid)
        (λ u p c m. ap (git.rev_parse repo') (sym c.name) ∙ m.1 ∙ c.after) us ps r done.moved,
    λ name v h. done.untouched name v (
        Rel-right (Checked git repo) (λ u. u.name ≢ name) (λ p. p.name ≢ name)
          (λ u p c n q. n (sym c.name ∙ q)) us ps r h),
  )
  outcome-Updated repo' us ps r (inr idle) = (
    Rel-left (Checked git repo) _ (λ u. git.rev_parse repo' u.name ≡ named u.after_oid)
        (λ u p c m. ap (λ x. git.rev_parse x u.name) idle.1 ∙ sym c.current ∙ m ∙ c.after) us ps r
        idle.0,
    λ name v h. ap (λ x. git.rev_parse x name) idle.1,
  )

  All-IsPlanned :
      (us : List RefUpdate) (ps : List PlannedUpdate)
      → Rel (Checked git repo) us ps
      → All (IsPlanned git) ps
  All-IsPlanned [] [] r = tt
  All-IsPlanned [] (p ∷ ps) r = absurd r
  All-IsPlanned (u ∷ us) [] r = absurd r
  All-IsPlanned (u ∷ us) (p ∷ ps) r = (
    (
      subst (IsFull git) (sym r.0.name) r.0.full,
      subst IsValue (sym r.0.current) (laws.printed repo u.name r.0.full),
      r.0.value,
    ),
    All-IsPlanned us ps r.1,
  )

  -- A batch that is accepted and applied to the repository it was planned on fails with nothing
  -- changed, or it succeeds, every ref that it names has the value asked for, and no other ref of
  -- a valid name under refs/ has moved. Git's transactions are as documented.
  pub plan-apply-Updated :
      (us : List RefUpdate) (ps : List PlannedUpdate)
      → plan git repo us ≡ ok ps
      → (((apply git repo ps).0 ≢ none) × ((apply git repo ps).1 ≡ repo))
        ⊎ (((apply git repo ps).0 ≡ none) × Updated (apply git repo ps).1 us)
  plan-apply-Updated us ps h =
      elim (apply-AllOrNone git laws repo ps
        (All-IsPlanned us ps (plan-Checked git repo us ps h))) [
          | inl failed ↦ inl failed
          | inr done ↦ inr (
            done.0,
            outcome-Updated (apply git repo ps).1 us ps (plan-Checked git repo us ps h) done.1,
          )
        ]
