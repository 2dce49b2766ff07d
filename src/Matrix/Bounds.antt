-- ===== src/Matrix/Bounds.antt =====
-- How many jobs a matrix gives.
use native.Mathlib.Nat.{suc-mul}
use github_emulator.Prelude.{
  ℕ, suc, ◌+◌, ◌*◌, ◌≤◌, ◌≡◌, ◌⊎◌, inl, inr, refl, sym, ap, ◌∙◌, String, Bool, true, false, Option,
  none, some, List, [], ◌∷◌, ◌++◌, map, arith,
}
use github_emulator.Prelude.Lists.{length}
use github_emulator.Value.{Fields, end, field, Value, dict, list, str, int, bool, null, get}
use github_emulator.Expressions.Values.{Python}
use github_emulator.Matrix.Expand.{
  Axis, product, with_values, kept, keep, combinations, append_included, axes, exclude_of,
  include_of, jobs_of_combos, add_job, expanded, expand_dict, or_dict, matrix_of, expand_matrix,
}

-- The number of ways to choose a value of each axis.
abbrev pub choices : List Axis → ℕ
choices [] = 1
choices (a ∷ bs) = length a.values * choices bs

abbrev pub included_count : Option (List Value) → ℕ
included_count none = 0
included_count (some vs) = length vs

abbrev pub most_of : Value → ℕ
most_of (dict matrix) = choices (axes matrix) + included_count (include_of matrix)
most_of _ = 0

length-append {ℓ} : {A : Type ℓ} (xs ys : List A) → length (xs ++ ys) ≡ length xs + length ys
length-append [] ys = omega arith
length-append (x ∷ xs) ys = let h = length-append xs ys in omega arith

length-map {ℓ κ} :
    {A : Type ℓ} {B : Type κ} (f : A → B) (xs : List A) → length (map f xs) ≡ length xs
length-map f [] = refl
length-map f (x ∷ xs) = ap suc (length-map f xs)

length-with_values :
    (k : String) (vs : List Value) (es : List Fields)
    → length (with_values k vs es) ≡ length vs * length es
length-with_values k [] es = omega arith
length-with_values k (v ∷ vs) es =
    let h = length-append (map (field k v) es) (with_values k vs es) in
    let m = length-map (field k v) es in
    let r = length-with_values k vs es in let q = suc-mul (length vs) (length es) in omega arith

length-product : (axes : List Axis) → length (product axes) ≡ choices axes
length-product [] = refl
length-product (a ∷ axes) =
    length-with_values a.key a.values (product axes)
    ∙ ap (λ n. length a.values * n) (length-product axes)

keep-length :
    (e : Fields) (b : Option Bool) (r : Option (List Value)) (cs : List Value) (n : ℕ)
    → keep e b r ≡ some cs
    → ((ds : List Value) → r ≡ some ds → length ds ≤ n)
    → length cs ≤ n + 1
keep-length e none r cs n h k = cc
keep-length e (some false) none cs n h k = cc
keep-length e (some true) none cs n h k = cc
keep-length e (some false) (some ds) cs n h k =
    let z : dict e ∷ ds ≡ cs = cc in let l = ap length z in let m = k ds refl in omega arith
keep-length e (some true) (some ds) cs n h k =
    let z : ds ≡ cs = cc in let l = ap length z in let m = k ds refl in omega arith

kept-length :
    (exclude : Option (List Value)) (es : List Fields) (cs : List Value)
    → kept exclude es ≡ some cs
    → length cs ≤ length es
unfolding kept
kept-length exclude [] cs h = let z : [] ≡ cs = cc in let l = ap length z in omega arith
kept-length exclude (e ∷ es) cs h =
    let m = keep-length e _ _ cs (length es) h (λ ds d. kept-length exclude es ds d) in omega arith

included-length :
    (o p : Option (List Value)) (n : ℕ) (cs : List Value)
    → append_included o p ≡ some cs
    → ((ds : List Value) → o ≡ some ds → length ds ≤ n)
    → length cs ≤ n + included_count p
included-length none p n cs h k = cc
included-length (some xs) none n cs h k = cc
included-length (some xs) (some ys) n cs h k =
    let z : xs ++ ys ≡ cs = cc in
    let l = ap length z in let m = k xs refl in let a = length-append xs ys in omega arith

combinations-length :
    (matrix : Fields) (cs : List Value)
    → combinations matrix ≡ some cs
    → length cs ≤ most_of (dict matrix)
unfolding combinations
combinations-length matrix cs h =
    let p = length-product (axes matrix) in
    included-length _ (include_of matrix) (choices (axes matrix)) cs h
      (λ ds d. let k = kept-length (exclude_of matrix) (product (axes matrix)) ds d in omega arith)

add-length :
    (j : Fields) (o : Option (List Fields)) (js : List Fields)
    → add_job j o ≡ some js
    → (ds : List Fields) × (o ≡ some ds) × (length js ≡ length ds + 1)
add-length j none js h = cc
add-length j (some ds) js h =
    let z : j ∷ ds ≡ js = cc in let l = ap length z in (ds, refl, omega arith)

jobs-length :
    (py : Python) (config : Fields) (cs : List Value) (js : List Fields)
    → jobs_of_combos py config cs ≡ some js
    → length js ≡ length cs
jobs-length py config [] js h = let z : [] ≡ js = cc in sym (ap length z)
jobs-length py config (dict c ∷ cs) js h =
    let (ds, d, l) = add-length _ _ js h in let r = jobs-length py config cs ds d in omega arith
jobs-length py config (list is ∷ cs) js h = cc
jobs-length py config (str s ∷ cs) js h = cc
jobs-length py config (int n ∷ cs) js h = cc
jobs-length py config (bool b ∷ cs) js h = cc
jobs-length py config (null ∷ cs) js h = cc

-- One job, or no more than the bound and no less than one.
abbrev pub Sized : Value → List Fields → Type 0
Sized m js = (1 ≤ length js) × ((length js ≡ 1) ⊎ (length js ≤ most_of m))

one-Sized :
    (config : Fields) (m : Value) (js : List Fields) → some (config ∷ []) ≡ some js → Sized m js
one-Sized config m js h =
    let z : config ∷ [] ≡ js = cc in let l = ap length z in (omega arith, inl (omega arith))

expanded-Sized :
    (py : Python) (config matrix : Fields) (o : Option (List Value)) (js : List Fields)
    → combinations matrix ≡ o
    → expanded py config o ≡ some js
    → Sized (dict matrix) js
expanded-Sized py config matrix none js e h = cc
expanded-Sized py config matrix (some []) js e h = one-Sized config (dict matrix) js h
expanded-Sized py config matrix (some (c ∷ cs)) js e h =
    let l = jobs-length py config (c ∷ cs) js h in
    let m = combinations-length matrix (c ∷ cs) e in (omega arith, inr (omega arith))

-- A job is expanded to one job, or to at least one and at most as many jobs as there are ways to
-- choose a value of each key of its matrix, and entries of `include`.
pub expand_matrix-Sized :
    (py : Python) (config : Fields) (js : List Fields)
    → expand_matrix py config ≡ some js
    → Sized (matrix_of (or_dict (get config "strategy"))) js
unfolding expand_matrix
expand_matrix-Sized py config js h = by_matrix (matrix_of (or_dict (get config "strategy"))) h
  where
    by_matrix : (m : Value) → expand_dict py config m ≡ some js → Sized m js
    by_matrix (dict end) h = one-Sized config (dict end) js h
    by_matrix (dict (field k v d)) h = expanded-Sized py config (field k v d) _ js refl h
    by_matrix (list is) h = one-Sized config (list is) js h
    by_matrix (str s) h = one-Sized config (str s) js h
    by_matrix (int n) h = one-Sized config (int n) js h
    by_matrix (bool b) h = one-Sized config (bool b) js h
    by_matrix null h = one-Sized config null js h
