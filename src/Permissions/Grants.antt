-- ===== src/Permissions/Grants.antt =====
-- What a permitted request presupposes of the permissions in force.
use github_emulator.Prelude.{
  ◌≡◌, ◌⊎◌, refl, sym, ap, ◌∙◌, subst, Bool, true, false, ◌&&◌, Bool-cases, Option, none, some, ◌∷◌,
  ◌++◌, ◌==◌, beq_eq, inl, inr, arith,
}
use github_emulator.Prelude.Text.{Text, codes, text_eq, text_test, before-append}
use github_emulator.Permissions.{
  Declared, Scopes, not_included, lookup, read, write, normalise_permissions,
  default_permissions_for, path_parts, scope_of, is_read_method, is_metadata_path, check_level,
  check_scope, check_scopes, check, check_parts, split_path, level_of, mapping,
}

pub check_level-write : (s g : Text) → check_level false s g ≡ none → g ≡ write
unfolding check_level
check_level-write s g h = beq_eq g write (ground arith)

pub check_level-read : (s g : Text) → check_level true s g ≡ none → (g ≡ read) ⊎ (g ≡ write)
unfolding check_level
check_level-read s g h = elim (Bool-cases (g == write)) [
  | inl e ↦ inr (beq_eq g write e)
  | inr e ↦ inl (beq_eq g read (ground arith))
]

pub level_of-write : (o : Option Text) → level_of o ≡ write → o ≡ some write
level_of-write none h = ground arith
level_of-write (some l) h = ap {B = Option Text} some h

pub level_of-read : (o : Option Text) → level_of o ≡ read → o ≡ some read
level_of-read none h = ground arith
level_of-read (some l) h = ap {B = Option Text} some h

-- The path has a scope, and it is granted at level write.
abbrev pub GrantsWrite : Option Text × Bool → Scopes → Type 0
GrantsWrite found p = (s : Text) × (found.0 ≡ some s) × (lookup s p ≡ some write)

check_scope-write :
    (found : Option Text × Bool) (p : Scopes)
    → check_scope false found p ≡ none
    → GrantsWrite found p
unfolding check_scope
check_scope-write (some s, m) p h =
    (s, refl, level_of-write (lookup s p) (check_level-write s (level_of (lookup s p)) h))
check_scope-write (none, true) p h = cc
check_scope-write (none, false) p h = cc

check_scope-read :
    (s : Text) (found : Option Text × Bool) (p : Scopes)
    → found.0 ≡ some s
    → check_scope true found p ≡ none
    → (lookup s p ≡ some read) ⊎ (lookup s p ≡ some write)
unfolding check_scope
check_scope-read s (some s', m) p e h =
    subst (λ z. (lookup z p ≡ some read) ⊎ (lookup z p ≡ some write)) (let q : s' ≡ s = cc in q)
      (elim (check_level-read s' (level_of (lookup s' p)) h) [
        | inl q ↦ inl (level_of-read (lookup s' p) q)
        | inr q ↦ inr (level_of-write (lookup s' p) q)
      ])
check_scope-read s (none, m) p e h = cc

check_level-none : (r : Bool) (s : Text) → check_level r s (codes "none") ≡ some (not_included s)
unfolding check_level text_test
check_level-none true s = refl
check_level-none false s = refl

check_scope-undeclared :
    (s : Text) (r : Bool) (found : Option Text × Bool) (p : Scopes)
    → found.0 ≡ some s
    → lookup s p ≡ none
    → check_scope r found p ≡ some (not_included s)
unfolding check_scope
check_scope-undeclared s r (some s', m) p e l =
    let same : s' ≡ s = cc in
    let l' = subst (λ z. lookup z p ≡ none) (sym same) l in
    ap (λ o. check_level r s' (level_of o)) l'
    ∙ check_level-none r s'
    ∙ ap (λ z. some (not_included z)) same
check_scope-undeclared s r (none, m) p e l = cc

module _ (method path : Text) (declared : Declared) (repo_default : Option Text) (p : Scopes) where
  -- The permissions that decide: those declared, else those of a restricted repository default.
  abbrev pub InForce : Type 0
  InForce =
      (normalise_permissions declared ≡ some p)
      ⊎ ((normalise_permissions declared ≡ none)
          × ((d : Scopes) × (default_permissions_for repo_default ≡ some d)
              × (normalise_permissions (mapping d) ≡ some p)))

  pub check-eq :
      InForce
      → check method path declared repo_default
        ≡ check_scopes (is_read_method method) (path_parts path) p
  unfolding check
  check-eq (inl e) = rw (e, check_parts)
  check-eq (inr (n, (d, e, q))) = rw (n, check_parts) (rw e (rw q))

  check_scopes-governed :
      (is_read_method method && is_metadata_path (path_parts path)) ≡ false
      → check_scopes (is_read_method method) (path_parts path) p
        ≡ check_scope (is_read_method method) (scope_of (path_parts path)) p
  unfolding check_scopes
  check_scopes-governed m = rw m

  -- Where permissions are in force, a request whose method changes something is permitted only on
  -- a path that a scope governs, and only if that scope is granted at level write.
  pub check-GrantsWrite :
      InForce
      → is_read_method method ≡ false
      → check method path declared repo_default ≡ none
      → GrantsWrite (scope_of (path_parts path)) p
  unfolding check_scopes
  check-GrantsWrite f r h =
      let e = sym (ap (λ b. check_scopes b (path_parts path) p) r) ∙ sym (check-eq f) ∙ h in
      check_scope-write (scope_of (path_parts path)) p e

  -- Where permissions are in force, a permitted request on a path that a scope governs has that
  -- scope at level read or write, unless it reads what metadata alone lets it read.
  pub check-GrantsRead :
      (s : Text)
      → InForce
      → (scope_of (path_parts path)).0 ≡ some s
      → (is_read_method method && is_metadata_path (path_parts path)) ≡ false
      → check method path declared repo_default ≡ none
      → (lookup s p ≡ some read) ⊎ (lookup s p ≡ some write)
  unfolding check_scopes
  check-GrantsRead s f g m h = elim (Bool-cases (is_read_method method)) [
    | inr r ↦
        let (s', g', l) = check-GrantsWrite f r h in
        let same : s' ≡ s = cc in inr (subst (λ z. lookup z p ≡ some write) same l)
    | inl r ↦ check_scope-read s (scope_of (path_parts path)) p g (
        subst (λ b. check_scope b (scope_of (path_parts path)) p ≡ none) r
          (sym (check_scopes-governed m) ∙ sym (check-eq f) ∙ h))
  ]

  -- A scope that the permissions in force do not name is refused, by name.
  pub check_undeclared :
      (s : Text)
      → InForce
      → (scope_of (path_parts path)).0 ≡ some s
      → (is_read_method method && is_metadata_path (path_parts path)) ≡ false
      → lookup s p ≡ none
      → check method path declared repo_default ≡ some (not_included s)
  check_undeclared s f g m l =
      check-eq f
      ∙ check_scopes-governed m
      ∙ check_scope-undeclared s (is_read_method method) (scope_of (path_parts path)) p g l

-- The query of a request does not change what is decided.
pub check_query :
    (method path query : Text) (declared : Declared) (repo_default : Option Text)
    → check method (path ++ b'?' ∷ query) declared repo_default
      ≡ check method path declared repo_default
unfolding check path_parts
check_query method path query declared repo_default =
    ap (λ s. check_parts (is_read_method method) (split_path s) declared repo_default)
      (before-append b'?' path query)
