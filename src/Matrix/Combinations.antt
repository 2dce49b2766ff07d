-- ===== src/Matrix/Combinations.antt =====
-- The combinations of a matrix.
use mathlib.Core.List.{Memᴰ}
use mathlib.Core.List.Memᴰ
use github_emulator.Prelude.{
  ◌≡◌, refl, sym, ap, ◌∙◌, subst, ◌⊎◌, inl, inr, ◌↔◌, String, Bool, true, false, Option, none, some,
  List, [], ◌∷◌, ◌++◌, map,
}
use github_emulator.Value.{Fields, end, field, Value, dict}
use github_emulator.Matrix.Expand.{
  Axis, product, with_values, kept, keep, excluded_by, combinations, append_included, axes,
  exclude_of,
}
use github_emulator.Matrix.Chosen.{
  Chooses, ChoosesAxes, ItemsOf, NotExcluded, axes_iff, excluded_by_iff, iterate-ItemsOf,
}

with_values-cases :
    (k : String) (vs : List Value) (es : List Fields) (e : Fields)
    → Memᴰ e (with_values k vs es)
    → (v : Value) × (r : Fields) × Memᴰ v vs × Memᴰ r es × (e ≡ field k v r)
with_values-cases k [] es e m = elim m [ ]
with_values-cases k (v ∷ vs) es e m = elim (Memᴰ.append_cases (map (field k v) es) m) [
  | inl h ↦ let (r, n, p) = Memᴰ.of_map (field k v) es h in (v, r, Memᴰ.head refl, n, sym p)
  | inr h ↦ let (w, r, n, o, p) = with_values-cases k vs es e h in (w, r, Memᴰ.tail n, o, p)
]

with_values-Mem :
    (k : String) (vs : List Value) (es : List Fields) (v : Value) (r : Fields)
    → Memᴰ v vs
    → Memᴰ r es
    → Memᴰ (field k v r) (with_values k vs es)
with_values-Mem k [] es v r m n = elim m [ ]
with_values-Mem k (w ∷ vs) es v r (Memᴰ.head p) n =
    Memᴰ.append_left (with_values k vs es)
      (subst (λ x. Memᴰ (field k x r) (map (field k w) es)) (sym p) (Memᴰ.map (field k w) n))
with_values-Mem k (w ∷ vs) es v r (Memᴰ.tail m) n =
    Memᴰ.append_right (map (field k w) es) (with_values-Mem k vs es v r m n)

product-ChoosesAxes : (xs : List Axis) (e : Fields) → Memᴰ e (product xs) → ChoosesAxes xs e
product-ChoosesAxes [] e (Memᴰ.head p) = subst (ChoosesAxes []) (sym p) tt
product-ChoosesAxes [] e (Memᴰ.tail m) = elim m [ ]
product-ChoosesAxes (a ∷ xs) e m =
    let (v, r, n, o, p) = with_values-cases a.key a.values (product xs) e m in
    subst (ChoosesAxes (a ∷ xs)) (sym p) (refl, n, product-ChoosesAxes xs r o)

ChoosesAxes-product : (xs : List Axis) (e : Fields) → ChoosesAxes xs e → Memᴰ e (product xs)
ChoosesAxes-product [] end h = Memᴰ.head refl
ChoosesAxes-product [] (field k v e) h = absurd h
ChoosesAxes-product (a ∷ xs) end h = absurd h
ChoosesAxes-product (a ∷ xs) (field k v e) h =
    subst (λ j. Memᴰ (field j v e) (product (a ∷ xs))) (sym h.0)
      (with_values-Mem a.key a.values (product xs) v e h.1 (ChoosesAxes-product xs e h.2))

-- One of the list, and not excluded.
abbrev Kept : Option (List Value) → List Fields → Value → Type 0
Kept exclude es v = (e : Fields) × (v ≡ dict e) × Memᴰ e es × (excluded_by exclude e ≡ some false)

keep-cases :
    (e : Fields) (b : Option Bool) (r : Option (List Value)) (cs : List Value)
    → keep e b r ≡ some cs
    → (rest : List Value) × (r ≡ some rest)
      × (((b ≡ some false) × (cs ≡ dict e ∷ rest)) ⊎ ((b ≡ some true) × (cs ≡ rest)))
keep-cases e none r cs h = cc
keep-cases e (some false) none cs h = cc
keep-cases e (some true) none cs h = cc
keep-cases e (some false) (some rest) cs h = (rest, refl, inl (refl, cc))
keep-cases e (some true) (some rest) cs h = (rest, refl, inr (refl, cc))

kept-Kept :
    (exclude : Option (List Value)) (es : List Fields) (cs : List Value) (v : Value)
    → kept exclude es ≡ some cs
    → Memᴰ v cs
    → Kept exclude es v
unfolding kept
kept-Kept exclude [] cs v h m =
    let none_left : [] ≡ cs = cc in elim (subst (Memᴰ v) (sym none_left) m) [ ]
kept-Kept exclude (e ∷ es) cs v h m =
    let (rest, r, c) = keep-cases e _ _ cs h in
    let later : Memᴰ v rest → Kept exclude (e ∷ es) v =
      λ n. let (f, p, o, q) = kept-Kept exclude es rest v r n in (f, p, Memᴰ.tail o, q) in
    elim c [
      | inl d ↦ elim (Memᴰ.cases_cons (subst (Memᴰ v) d.1 m)) [
        | inl p ↦ (e, p, Memᴰ.head refl, d.0)
        | inr n ↦ later n
      ]
      | inr d ↦ later (subst (Memᴰ v) d.1 m)
    ]

Kept-kept :
    (exclude : Option (List Value)) (es : List Fields) (cs : List Value) (v : Value)
    → kept exclude es ≡ some cs
    → Kept exclude es v
    → Memᴰ v cs
unfolding kept
Kept-kept exclude [] cs v h k = elim k.2 [ ]
Kept-kept exclude (e ∷ es) cs v h k =
    let (rest, r, c) = keep-cases e _ _ cs h in
    let (f, p, o, q) = k in
    let later = λ (n : Memᴰ f es). Kept-kept exclude es rest v r (f, p, n, q) in
    elim c [
      | inl d ↦ subst (Memᴰ v) (sym d.1) (elim (Memᴰ.cases_cons o) [
        | inl z ↦ Memᴰ.head (p ∙ ap dict z)
        | inr n ↦ Memᴰ.tail (later n)
      ])
      | inr d ↦ subst (Memᴰ v) (sym d.1) (elim (Memᴰ.cases_cons o) [
        | inl z ↦ absurd (let w = ap (excluded_by exclude) z in cc)
        | inr n ↦ later n
      ])
    ]

append-cases :
    (o p : Option (List Value)) (cs : List Value)
    → append_included o p ≡ some cs
    → (xs ys : List Value) × (o ≡ some xs) × (p ≡ some ys) × (cs ≡ xs ++ ys)
append-cases none p cs h = cc
append-cases (some xs) none cs h = cc
append-cases (some xs) (some ys) cs h = (xs, ys, refl, refl, cc)

-- A combination that the matrix makes: a value for each of its keys, and not excluded.
abbrev pub Made : Fields → Value → Type 0
Made matrix v = (e : Fields) × (v ≡ dict e) × Chooses matrix e × NotExcluded matrix e

-- Where a matrix comes to a list of combinations, these are just those that choose for each key of
-- the matrix but `include` and `exclude`, in its order, a value of its list, or its value where it is
-- no list, and that have at some key of every entry of `exclude` another value than the entry
-- (a missing one is null), and the items under `include`.
pub combinations-Made :
    (matrix : Fields) (cs : List Value)
    → combinations matrix ≡ some cs
    → (ys : List Value) × ItemsOf matrix "include" ys
      × ((v : Value) → Memᴰ v cs ↔ (Made matrix v ⊎ Memᴰ v ys))
unfolding combinations
combinations-Made matrix cs h =
    let (xs, ys, p, q, r) = append-cases _ _ cs h in
    (
      ys,
      (iterate-ItemsOf matrix "include" ys).0 q,
      λ v. (
        λ m. elim (Memᴰ.append_cases xs (subst (Memᴰ v) r m)) [
          | inl n ↦
              let (e, d, o, b) = kept-Kept (exclude_of matrix) (product (axes matrix)) xs v p n in
              inl (
                e,
                d,
                (axes_iff matrix e).0 (product-ChoosesAxes (axes matrix) e o),
                (excluded_by_iff matrix e).0 b,
              )
          | inr n ↦ inr n
        ],
        λ k. subst (Memᴰ v) (sym r) (elim k [
          | inl (e, d, o, b) ↦ Memᴰ.append_left ys (
              Kept-kept (exclude_of matrix) (product (axes matrix)) xs v p (
                e,
                d,
                ChoosesAxes-product (axes matrix) e ((axes_iff matrix e).1 o),
                (excluded_by_iff matrix e).1 b,
              ))
          | inr n ↦ Memᴰ.append_right xs n
        ]),
      ),
    )
