-- ===== src/Matrix/Chosen.antt =====
-- What a matrix asks of a combination, by the keys of the matrix itself.
use mathlib.Core.List.{Memᴰ}
use mathlib.Core.Bool.{false≢true}
use github_emulator.Prelude.{
  ◌≡◌, ◌≢◌, refl, sym, ap, ◌∙◌, subst, ◌⊎◌, inl, inr, ◌↔◌, String, string_eq, Bool, true, false,
  ◌&&◌, Bool-cases, Option, none, some, List, [], ◌∷◌, ◌==◌, beq_eq, beq_refl, if◌then◌else◌,
}
use github_emulator.Prelude.Rows.{All}
use github_emulator.Value.{Fields, end, field, nil, Value, dict, list, str, int, bool, null, get}
use github_emulator.Triggers.Config.{elements, iterate}
use github_emulator.Expressions.Values.{equal}
use github_emulator.Matrix.Expand.{
  Axis, axes, axes_of, without, one_or_list, matches, excluded, excluded_by, exclude_of, or_null,
  or_else,
}

-- One of the values of a key: of a list any, else the value itself.
abbrev pub OneOf : Value → Value → Type 0
OneOf (list is) x = Memᴰ x (elements is)
OneOf v x = x ≡ v

abbrev pub Special : String → Type 0
Special k = (k ≡ "include") ⊎ (k ≡ "exclude")

-- A value for every key of the matrix but the special ones, in the order of the matrix.
pub data Chooses : Fields → Fields → Type 0 where
  all_chosen : Chooses end end
  passed :
      (k : String) (v : Value) {m e : Fields} → Special k → Chooses m e → Chooses (field k v m) e
  chosen :
      (k : String) (v x : Value) {m e : Fields}
      → (Special k → ⊥)
      → OneOf v x
      → Chooses m e
      → Chooses (field k v m) (field k x e)

pub data Has (k : String) (v : Value) : Fields → Type 0 where
  here : {d : Fields} → Has k v (field k v d)
  there : {j : String} {w : Value} {d : Fields} → Has k v d → Has k v (field j w d)

-- The entry of `exclude` asks for another value at some key; a missing one is null.
abbrev pub Differs : Fields → Fields → Type 0
Differs exc e = (k : String) × (v : Value) × Has k v exc × (equal (or_null (get e k)) v ≡ false)

-- The items under a key of the matrix, none where it is missing.
abbrev pub ItemsOf : Fields → String → List Value → Type 0
ItemsOf matrix k xs =
    ((get matrix k ≡ none) × (xs ≡ []))
    ⊎ ((v : Value) × (get matrix k ≡ some v) × (iterate v ≡ some xs))

abbrev pub NotExcluded : Fields → Fields → Type 0
NotExcluded matrix e =
    (xs : List Value) × ItemsOf matrix "exclude" xs
    × All (λ x. (exc : Fields) × (x ≡ dict exc) × Differs exc e) xs

single : (v x : Value) → Memᴰ x (v ∷ []) ↔ (x ≡ v)
single v x = (only, Memᴰ.head)
  where
    only : Memᴰ x (v ∷ []) → x ≡ v
    only (Memᴰ.head e) = e
    only (Memᴰ.tail m) = elim m [ ]

one_or_list-OneOf : (v x : Value) → Memᴰ x (one_or_list v) ↔ OneOf v x
one_or_list-OneOf (list is) x = (λ m. m, λ m. m)
one_or_list-OneOf (dict d) x = single (dict d) x
one_or_list-OneOf (str s) x = single (str s) x
one_or_list-OneOf (int n) x = single (int n) x
one_or_list-OneOf (bool b) x = single (bool b) x
one_or_list-OneOf null x = single null x

-- One value of each axis.
abbrev pub ChoosesAxes : List Axis → Fields → Type 0
ChoosesAxes [] end = Unit
ChoosesAxes (a ∷ axes) (field k v e) = (k ≡ a.key) × Memᴰ v a.values × ChoosesAxes axes e
ChoosesAxes _ _ = ⊥

abbrev axis : String → Value → Axis
axis k v = record { key = k; values = one_or_list v }

names_apart : (a b : String) → (a == b) ≡ false → a ≢ b
names_apart a b h e = false≢true (sym h ∙ subst (λ z. (a == z) ≡ true) e (beq_refl a))

axes-cases :
    (k : String) (v : Value) (m : Fields)
    → (Special k × (axes (field k v m) ≡ axes m))
      ⊎ ((Special k → ⊥) × (axes (field k v m) ≡ axis k v ∷ axes m))
axes-cases k v m =
    let left = without "include" m in
    let both = without "exclude" left in
    let start = λ (b : Bool). axes_of (without "exclude" (if b then left else field k v left)) in
    let next = λ (b : Bool). axes_of (if b then both else field k v both) in
    elim (Bool-cases (k == "include")) [
      | inl e ↦ inl (inl (beq_eq k "include" e), ap start e)
      | inr e ↦ elim (Bool-cases (k == "exclude")) [
        | inl f ↦ inl (inr (beq_eq k "exclude" f), ap start e ∙ ap next f)
        | inr f ↦ inr (
          λ s. elim s [
            | inl q ↦ absurd (names_apart k "include" e q)
            | inr q ↦ absurd (names_apart k "exclude" f q)
          ],
          ap start e ∙ ap next f,
        )
      ]
    ]

axes-Chooses : (m e : Fields) → ChoosesAxes (axes m) e → Chooses m e
axes-Chooses end end h = all_chosen
axes-Chooses end (field k v e) h = absurd h
axes-Chooses (field k v m) e h = elim (axes-cases k v m) [
  | inl (s, q) ↦ passed k v s (axes-Chooses m e (subst (λ x. ChoosesAxes x e) q h))
  | inr (s, q) ↦ first e (subst (λ x. ChoosesAxes x e) q h) s (axes-Chooses m)
]
  where
    first :
        (e : Fields)
        → ChoosesAxes (axis k v ∷ axes m) e
        → (Special k → ⊥)
        → ((e : Fields) → ChoosesAxes (axes m) e → Chooses m e)
        → Chooses (field k v m) e
    first end c s f = absurd c
    first (field j x e) c s f =
        subst (λ i. Chooses (field k v m) (field i x e)) (sym c.0)
          (chosen k v x s ((one_or_list-OneOf v x).0 c.1) (f e c.2))

Chooses-axes : (m e : Fields) → Chooses m e → ChoosesAxes (axes m) e
Chooses-axes _ _ all_chosen = tt
Chooses-axes _ e (passed k v {m = m} s c) = elim (axes-cases k v m) [
  | inl (_, q) ↦ subst (λ x. ChoosesAxes x e) (sym q) (Chooses-axes m e c)
  | inr (n, _) ↦ absurd (n s)
]
Chooses-axes _ _ (chosen k v x {m = m} {e = e} n o c) = elim (axes-cases k v m) [
  | inl (s, _) ↦ absurd (n s)
  | inr (_, q) ↦
      subst (λ y. ChoosesAxes y (field k x e)) (sym q)
        (refl, (one_or_list-OneOf v x).1 o, Chooses-axes m e c)
]

pub axes_iff : (m e : Fields) → ChoosesAxes (axes m) e ↔ Chooses m e
axes_iff m e = (axes-Chooses m e, Chooses-axes m e)

pub iterate-ItemsOf :
    (m : Fields) (k : String) (xs : List Value)
    → (iterate (elim (get m k) [ none ↦ list nil | some w ↦ w ]) ≡ some xs) ↔ ItemsOf m k xs
iterate-ItemsOf m k xs = (to, from)
  where
    to : iterate (elim (get m k) [ none ↦ list nil | some w ↦ w ]) ≡ some xs → ItemsOf m k xs
    to =
        elim (get m k)
            as (λ o.
              get m k ≡ o
              → iterate (elim o [ none ↦ list nil | some w ↦ w ]) ≡ some xs
              → ItemsOf m k xs) [
                | none ↦ λ h e. let q : [] ≡ xs = cc in inl (h, sym q)
                | some v ↦ λ h e. inr (v, h, e)
              ]
          refl

    from : ItemsOf m k xs → iterate (elim (get m k) [ none ↦ list nil | some w ↦ w ]) ≡ some xs
    from (inl (h, e)) =
        ap (λ (o : Option Value). iterate (elim o [ none ↦ list nil | some w ↦ w ])) h
        ∙ ap some (sym e)
    from (inr (v, h, e)) =
        ap (λ (o : Option Value). iterate (elim o [ none ↦ list nil | some w ↦ w ])) h ∙ e

and-cases : (a b : Bool) → (a && b) ≡ false → (a ≡ false) ⊎ (b ≡ false)
and-cases true b h = inr h
and-cases false b h = inl refl

and_false : (b : Bool) → (b && false) ≡ false
and_false true = refl
and_false false = refl

matches-Differs : (exc e : Fields) → matches exc e ≡ false → Differs exc e
unfolding matches
matches-Differs end e h = cc
matches-Differs (field k v exc) e h =
    elim (and-cases (equal (or_null (get e k)) v) (matches exc e) h) [
      | inl q ↦ (k, v, here, q)
      | inr q ↦ let (j, w, a, p) = matches-Differs exc e q in (j, w, there a, p)
    ]

Has-matches :
    (k : String) (v : Value) (exc e : Fields)
    → Has k v exc
    → equal (or_null (get e k)) v ≡ false
    → matches exc e ≡ false
unfolding matches
Has-matches k v _ e (here {d = d}) q = ap (λ b. b && matches d e) q
Has-matches k v _ e (there {j = j} {w = w} {d = d} h) q =
    ap (λ b. equal (or_null (get e j)) w && b) (Has-matches k v d e h q)
    ∙ and_false (equal (or_null (get e j)) w)

abbrev AllDiffer : Fields → List Value → Type 0
AllDiffer e xs = All (λ x. (exc : Fields) × (x ≡ dict exc) × Differs exc e) xs

decided : {b : Bool} → some b ≡ some false → b ≡ false
decided h = cc

excluded-Differs : (xs : List Value) (e : Fields) → excluded xs e ≡ some false → AllDiffer e xs
unfolding excluded
excluded-Differs [] e h = tt
excluded-Differs (dict exc ∷ xs) e h = elim (Bool-cases (matches exc e)) [
  | inl q ↦ absurd (
      let w : some true ≡ some false = sym (ap (λ b. or_else b (excluded xs e)) q) ∙ h in
      false≢true (sym (decided w)))
  | inr q ↦ (
    (exc, refl, matches-Differs exc e q),
    excluded-Differs xs e (sym (ap (λ b. or_else b (excluded xs e)) q) ∙ h),
  )
]
excluded-Differs (list is ∷ xs) e h = cc
excluded-Differs (str s ∷ xs) e h = cc
excluded-Differs (int n ∷ xs) e h = cc
excluded-Differs (bool b ∷ xs) e h = cc
excluded-Differs (null ∷ xs) e h = cc

Differs-excluded : (xs : List Value) (e : Fields) → AllDiffer e xs → excluded xs e ≡ some false
unfolding excluded
Differs-excluded [] e h = refl
Differs-excluded (x ∷ xs) e h =
    let (exc, p, d) = h.0 in
    let (k, v, a, q) = d in
    ap (λ y. excluded (y ∷ xs) e) p
    ∙ ap (λ b. or_else b (excluded xs e)) (Has-matches k v exc e a q)
    ∙ Differs-excluded xs e h.1

excluded_by-cases :
    (o : Option (List Value)) (e : Fields)
    → excluded_by o e ≡ some false
    → (xs : List Value) × (o ≡ some xs) × (excluded xs e ≡ some false)
unfolding excluded_by
excluded_by-cases none e h = cc
excluded_by-cases (some xs) e h = (xs, refl, h)

pub excluded_by_iff :
    (matrix e : Fields) → (excluded_by (exclude_of matrix) e ≡ some false) ↔ NotExcluded matrix e
unfolding excluded_by
excluded_by_iff matrix e = (
  λ h.
      let (xs, p, q) = excluded_by-cases (exclude_of matrix) e h in
      (xs, (iterate-ItemsOf matrix "exclude" xs).0 p, excluded-Differs xs e q),
  λ h.
      ap (λ o. excluded_by o e) ((iterate-ItemsOf matrix "exclude" h.0).1 h.1)
      ∙ Differs-excluded h.0 e h.2,
)
