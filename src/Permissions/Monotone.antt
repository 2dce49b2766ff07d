-- ===== src/Permissions/Monotone.antt =====
-- Wider permissions refuse no more, and the two shorthands.
use github_emulator.Prelude.{
  ◌≡◌, ◌≢◌, ◌⊎◌, refl, sym, ap, ◌∙◌, subst, Bool, true, false, ◌&&◌, Bool-cases, if_cases, Option,
  none, some, List, [], ◌∷◌, map, ◌==◌, beq_refl, if◌then◌else◌, inl, inr, arith,
}
use github_emulator.Prelude.Text.{Text, codes, text_eq, text_test, lower}
use github_emulator.Permissions.{
  Declared, shorthand, Scopes, lookup, read, write, every_scope, scope_table, found_scope, prefer,
  normalise_permissions, path_parts, scope_of, is_read_method, is_metadata_path, check_level,
  check_scope, check_scopes, check, level_of,
}
use github_emulator.Permissions.Grants.{
  InForce, check-eq, check_level-write, check_level-read, check-GrantsWrite, level_of-write,
  level_of-read,
}

-- `q` grants every scope at least as much as `p` does.
abbrev pub AtLeast : Scopes → Scopes → Type 0
AtLeast p q =
    (s : Text)
    → (lookup s p ≡ some write → lookup s q ≡ some write)
      × (lookup s p ≡ some read → (lookup s q ≡ some read) ⊎ (lookup s q ≡ some write))

check_level-allows_write : (r : Bool) (s : Text) → check_level r s write ≡ none
unfolding check_level text_test
check_level-allows_write r s = refl

check_level-allows_read : (s : Text) → check_level true s read ≡ none
unfolding check_level text_test
check_level-allows_read s = refl

allows_write :
    (r : Bool) (s : Text) (o : Option Text) → o ≡ some write → check_level r s (level_of o) ≡ none
allows_write r s o e = ap (λ z. check_level r s (level_of z)) e ∙ check_level-allows_write r s

allows_read : (s : Text) (o : Option Text) → o ≡ some read → check_level true s (level_of o) ≡ none
allows_read s o e = ap (λ z. check_level true s (level_of z)) e ∙ check_level-allows_read s

check_scope_mono :
    (r : Bool) (found : Option Text × Bool) (p q : Scopes)
    → AtLeast p q
    → check_scope r found p ≡ none
    → check_scope r found q ≡ none
unfolding check_scope
check_scope_mono true (some s, m) p q w h = elim (check_level-read s (level_of (lookup s p)) h) [
  | inr e ↦ allows_write true s (lookup s q) ((w s).0 (level_of-write (lookup s p) e))
  | inl e ↦ elim ((w s).1 (level_of-read (lookup s p) e)) [
    | inl f ↦ allows_read s (lookup s q) f
    | inr f ↦ allows_write true s (lookup s q) f
  ]
]
check_scope_mono false (some s, m) p q w h =
    allows_write false s (lookup s q)
      ((w s).0 (level_of-write (lookup s p) (check_level-write s (level_of (lookup s p)) h)))
check_scope_mono r (none, true) p q w h = h
check_scope_mono r (none, false) p q w h = h

check_scopes_mono :
    (r : Bool) (parts : List Text) (p q : Scopes)
    → AtLeast p q
    → check_scopes r parts p ≡ none
    → check_scopes r parts q ≡ none
unfolding check_scopes
check_scopes_mono r parts p q w h = elim (Bool-cases (r && is_metadata_path parts)) [
  | inl e ↦ rw e
  | inr e ↦ rw e (check_scope_mono r (scope_of parts) p q w (rw e at h))
]

-- What permissions permit, permissions that grant every scope at least as much permit too.
pub check_mono :
    (method path : Text) (d d' : Declared) (r r' : Option Text) (p q : Scopes)
    → InForce method path d r p
    → InForce method path d' r' q
    → AtLeast p q
    → check method path d r ≡ none
    → check method path d' r' ≡ none
check_mono method path d d' r r' p q f g w h =
    check-eq method path d' r' q g
    ∙ check_scopes_mono (is_read_method method) (path_parts path) p q w
        (sym (check-eq method path d r p f) ∙ h)

prefer-some :
    (o o' : Option Text) (v : Text)
    → prefer o o' ≡ some v
    → (o ≡ some v) ⊎ ((o ≡ none) × (o' ≡ some v))
prefer-some none o' v h = inr (refl, h)
prefer-some (some w) o' v h = inl h

if-some : (b : Bool) (l v : Text) → (if b then some l else none) ≡ some v → (b ≡ true) × (l ≡ v)
if-some true l v h = (refl, cc)
if-some false l v h = cc

-- Each level in a table of one level is that level.
lookup-level : (k l v : Text) (t : Scopes) → lookup k (map (λ e. (e.1, l)) t) ≡ some v → l ≡ v
unfolding lookup
lookup-level k l v [] h = cc
lookup-level k l v ((j, s) ∷ t) h = elim (prefer-some (lookup k (map (λ e. (e.1, l)) t)) _ v h) [
  | inl e ↦ lookup-level k l v t e
  | inr e ↦ (if-some (s == k) l v e.1).1
]

-- What is preferred is the level, if each choice is and one is there.
prefer-level :
    (o : Option Text) (l : Text) → ((v : Text) → o ≡ some v → l ≡ v) → prefer o (some l) ≡ some l
prefer-level none l h = refl
prefer-level (some v) l h = ap {B = Option Text} some (sym (h v refl))

-- Each scope that a table has as a value has a level in the table of one level.
level-lookup :
    (k l s : Text) (t : Scopes) → lookup k t ≡ some s → lookup s (map (λ e. (e.1, l)) t) ≡ some l
unfolding lookup
level-lookup k l s [] h = cc
level-lookup k l s ((j, s') ∷ t) h = elim (prefer-some (lookup k t) _ s h) [
  | inl e ↦ ap (λ o. prefer o (if s' == s then some l else none)) (level-lookup k l s t e)
  | inr e ↦
      let same = (if-some (j == k) s' s e.1).1 in
      subst
        (λ z. prefer (lookup s (map (λ e. (e.1, l)) t)) (if z == s then some l else none) ≡ some l)
        (sym same)
        (rw (beq_refl s)
          (prefer-level (lookup s (map (λ e. (e.1, l)) t)) l (λ v. lookup-level s l v t)))
]

scope_of-lookup :
    (s : Text) (parts : List Text)
    → (scope_of parts).0 ≡ some s
    → (k : Text) × (lookup k scope_table ≡ some s)
unfolding scope_of
scope_of-lookup s [] h = cc
scope_of-lookup s (a ∷ []) h = cc
scope_of-lookup s (a ∷ b ∷ []) h = cc
scope_of-lookup s (a ∷ b ∷ c ∷ []) h = cc
scope_of-lookup s (a ∷ b ∷ c ∷ d ∷ rest) h =
    (lower d, named (a == codes "repos") (lookup (lower d) scope_table) h)
  where
    named :
        (r : Bool) (o : Option Text)
        → (if r then found_scope o else (none, false)).0 ≡ some s
        → o ≡ some s
    named true none h = cc
    named true (some z) h = h
    named false o h = cc

normalise-read_all : normalise_permissions (shorthand (codes "read-all")) ≡ some (every_scope read)
unfolding normalise_permissions text_test
normalise-read_all = refl

normalise-write_all :
    normalise_permissions (shorthand (codes "write-all")) ≡ some (every_scope write)
unfolding normalise_permissions text_test
normalise-write_all = refl

check_scope-reads :
    (found : Option Text × Bool) (p : Scopes)
    → ((s : Text) → found.0 ≡ some s → lookup s p ≡ some read)
    → check_scope true found p ≡ none
unfolding check_scope
check_scope-reads (some s, m) p h = allows_read s (lookup s p) (h s refl)
check_scope-reads (none, true) p h = refl
check_scope-reads (none, false) p h = refl

check_scope-writes :
    (r : Bool) (s : Text) (found : Option Text × Bool) (p : Scopes)
    → found.0 ≡ some s
    → lookup s p ≡ some write
    → check_scope r found p ≡ none
unfolding check_scope
check_scope-writes r s (some s', m) p e l =
    let same : s' ≡ s = cc in
    allows_write r s' (lookup s' p) (subst (λ z. lookup z p ≡ some write) (sym same) l)
check_scope-writes r s (none, m) p e l = cc

read-ne-write : read ≢ write
read-ne-write = ground arith

-- Skipping the scope check for a metadata read changes nothing that is permitted anyway.
check_scopes-none :
    (r : Bool) (parts : List Text) (p : Scopes)
    → check_scope r (scope_of parts) p ≡ none
    → check_scopes r parts p ≡ none
unfolding check_scopes
check_scopes-none r parts p h =
    if_cases (λ o. o ≡ none) (r && is_metadata_path parts) (λ _. refl) (λ _. h)

-- The two shorthands: read-all permits no request that changes something and every one that does
-- not, and write-all permits every request on a path that a scope governs.
pub shorthand_exact :
    (method path : Text) (r : Option Text)
    → (is_read_method method ≡ false → check method path (shorthand (codes "read-all")) r ≢ none)
      × (is_read_method method ≡ true → check method path (shorthand (codes "read-all")) r ≡ none)
      × ((s : Text)
          → (scope_of (path_parts path)).0 ≡ some s
          → check method path (shorthand (codes "write-all")) r ≡ none)
shorthand_exact method path r =
    let all_read = shorthand (codes "read-all") in
    let all_write = shorthand (codes "write-all") in
    (
      λ m h.
          let (s, e, l) =
            check-GrantsWrite method path all_read r (every_scope read) (inl normalise-read_all) m
              h in
          read-ne-write (lookup-level s read write scope_table l),
      λ m.
          check-eq method path all_read r (every_scope read) (inl normalise-read_all)
          ∙ check_scopes-none (is_read_method method) (path_parts path) (every_scope read) (
              subst (λ b. check_scope b (scope_of (path_parts path)) (every_scope read) ≡ none)
                (sym m)
                (check_scope-reads (scope_of (path_parts path)) (every_scope read) (λ s e.
                  let (k, l) = scope_of-lookup s (path_parts path) e in
                  level-lookup k read s scope_table l))),
      λ s e.
          let (k, l) = scope_of-lookup s (path_parts path) e in
          check-eq method path all_write r (every_scope write) (inl normalise-write_all)
          ∙ check_scopes-none (is_read_method method) (path_parts path) (every_scope write) (
              check_scope-writes (is_read_method method) s (scope_of (path_parts path))
                (every_scope write) e (level-lookup k write s scope_table l)),
    )
