-- ===== src/RefUpdates/Plan.antt =====
-- `plan` of src/app/services/ref_update_service.py: every update is checked against the repository on
-- disk. Git is a parameter, with one operation for each command that the service runs. An error
-- keeps its kind and what its message names.
use github_emulator.Prelude.{
  ℕ, String, Bool, true, false, not, ◌&&◌, Option, none, some, List, [], ◌∷◌, ◌==◌, nat_eq,
  if◌then◌else◌,
}
use github_emulator.Prelude.Lists.{any, all, length}
use github_emulator.Prelude.Text.{Text, codes, text_eq, strip_by, is_space, lower, after_prefix}
use github_emulator.Repositories.{is_some}

-- A line of `git update-ref --stdin`. An absent old value is printed as Python prints None.
pub data Command : Type 0 where
  verify : Text → Option Text → Command
  delete : Text → Option Text → Command
  create : Text → Text → Command
  update : Text → Text → Text → Command

-- `check-ref-format name`; `rev-parse -q --verify name^{object}`, none where it fails or prints
-- nothing, which takes HEAD, short names and revisions as well as full names; `cat-file -t`; `merge-base --is-ancestor`; `update-ref --stdin`. A number is the exit
-- code, a text the stripped output.
pub record Git (R : Type 0) : Type 0 where
  pub check_ref_format : Text → ℕ
  pub rev_parse : R → Text → Option Text
  pub cat_file : R → Text → ℕ × Text
  pub is_ancestor : R → Text → Text → ℕ
  pub update_ref : R → List Command → ℕ × R

pub data RefUpdateError : Type 0 where
  no_updates : RefUpdateError
  not_qualified : Text → RefUpdateError
  not_valid : Text → RefUpdateError
  repeated : Text → RefUpdateError
  bad_oid : String → Text → RefUpdateError
  existing : Text → RefUpdateError
  absent : Text → RefUpdateError
  stale : Text → RefUpdateError
  nothing_to_delete : Text → RefUpdateError
  no_object : Text → Text → RefUpdateError
  not_commit : Text → Text → RefUpdateError
  not_fast_forward : Text → RefUpdateError
  ref_changed : RefUpdateError

unfoldable pub kind : RefUpdateError → String
kind (existing name) = "STALE_DATA"
kind (absent name) = "STALE_DATA"
kind (stale name) = "STALE_DATA"
kind ref_changed = "STALE_DATA"
kind _ = "UNPROCESSABLE"

pub data Result {ℓ} (A : Type ℓ) : Type ℓ where
  ok : A → Result A
  raise : RefUpdateError → Result A

module _ {ℓ} {A : Type ℓ} where
  -- if failed: raise e
  abbrev pub refuse : Bool → RefUpdateError → Result A → Result A
  refuse true e rest = raise e
  refuse false e rest = rest

  abbrev pub bind {κ} : {B : Type κ} → Result A → (A → Result B) → Result B
  bind (ok a) f = f a
  bind (raise e) f = raise e

pub record PlannedUpdate : Type 0 where
  pub name : Text
  pub before : Option Text
  pub after : Option Text
  pub forced : Bool

pub record RefUpdate : Type 0 where
  pub name : Text
  pub before_oid : Option Text
  pub after_oid : Option Text
  pub force : Bool

abbrev pub zero_oid : Text
zero_oid = codes "0000000000000000000000000000000000000000"

abbrev is_hex : ℕ → Bool
is_hex c = any (λ d. d == c) (codes "0123456789abcdef")

abbrev pub is_oid : Text → Bool
is_oid s = length s == 40 && all is_hex s

abbrev pub normal : Text → Text
normal value = lower (strip_by is_space value)

-- _oid
unfoldable pub read_oid : Option Text → String → Text → Result (Option Text)
read_oid none label name = ok none
read_oid (some value) label name =
    refuse (not (is_oid (normal value))) (bad_oid label name) (ok (some (normal value)))

-- if after == ZERO_OID: after = None
abbrev pub drop_zero : Option Text → Option Text
drop_zero none = none
drop_zero (some oid) = if oid == zero_oid then none else some oid

abbrev pub is_branch : Text → Bool
is_branch name = is_some (after_prefix (codes "refs/heads/") name)

-- (expected == ZERO_OID) != (current is None)
abbrev pub disagree : Option Text → Option Text → Bool
disagree none current = false
disagree (some e) none = not (e == zero_oid)
disagree (some e) (some c) = e == zero_oid

-- expected not in (None, ZERO_OID) and expected != current
abbrev pub is_stale : Option Text → Option Text → Bool
is_stale none current = false
is_stale (some e) none = not (e == zero_oid)
is_stale (some e) (some c) = not (e == zero_oid) && not (e == c)

module _ {R : Type 0} where
  -- The last check: a move is a fast-forward, or forced.
  unfoldable pub check_move : Git R → R → RefUpdate → Option Text → Text → Result PlannedUpdate
  check_move git repo u none a =
      ok (record { name = u.name; before = none; after = some a; forced = false })
  check_move git repo u (some c) a =
      let forced = not (c == a) && not (git.is_ancestor repo c a == 0) in
      refuse (forced && not u.force) (not_fast_forward u.name)
        (ok (record { name = u.name; before = some c; after = some a; forced = forced }))

  unfoldable pub check_object :
      Git R → R → RefUpdate → Option Text → Option Text → Result PlannedUpdate
  unfolding check_move
  check_object git repo u current none =
      ok (record { name = u.name; before = current; after = none; forced = false })
  check_object git repo u current (some a) =
      let found = git.cat_file repo a in
      refuse (not (found.0 == 0)) (no_object a u.name) (
        refuse (is_branch u.name && not (found.1 == codes "commit")) (not_commit u.name found.1)
          (check_move git repo u current a))

  unfoldable pub check_value :
      Git R → R → RefUpdate → Option Text → Option Text → Option Text → Result PlannedUpdate
  unfolding check_object
  check_value git repo u expected after current =
      refuse (disagree expected current)
        (if is_some current then existing u.name else absent u.name)
        (refuse (is_stale expected current) (stale u.name) (
          refuse (not (is_some after) && not (is_some current)) (nothing_to_delete u.name)
            (check_object git repo u current after)))

  unfoldable pub plan_update : Git R → R → List Text → RefUpdate → Result PlannedUpdate
  unfolding check_value read_oid
  plan_update git repo seen u =
      refuse (not (is_some (after_prefix (codes "refs/") u.name))) (not_qualified u.name) (
        refuse (not (git.check_ref_format u.name == 0)) (not_valid u.name) (
          refuse (any (λ n. n == u.name) seen) (repeated u.name) (
            bind (read_oid u.before_oid "beforeOid" u.name) (λ expected.
              bind (read_oid u.after_oid "afterOid" u.name) (λ after.
                check_value git repo u expected (drop_zero after) (git.rev_parse repo u.name))))))

  unfoldable pub plan_rest : Git R → R → List Text → List RefUpdate → Result (List PlannedUpdate)
  unfolding plan_update
  plan_rest git repo seen [] = ok []
  plan_rest git repo seen (u ∷ us) =
      bind (plan_update git repo seen u)
        (λ p. bind (plan_rest git repo (u.name ∷ seen) us) (λ ps. ok (p ∷ ps)))

  unfoldable pub plan : Git R → R → List RefUpdate → Result (List PlannedUpdate)
  unfolding plan_rest
  plan git repo [] = raise no_updates
  plan git repo (u ∷ us) = plan_rest git repo [] (u ∷ us)
