-- ===== src/Value/Lookup.antt =====
-- Looking up what was put into a dict.
use github_emulator.Prelude.{
  String, ◌≡◌, refl, sym, ap, ◌∙◌, Bool, true, false, Bool-cases, Option, none, some, ◌==◌,
  string_eq, if◌then◌else◌, inl, inr, beq_eq,
}
use github_emulator.Value.{Value, Fields, end, field, get, put}

abbrev pub or_else : Option Value → Option Value → Option Value
or_else none o = o
or_else (some v) o = some v

other_key : (i j k : String) → (i == j) ≡ false → (j == k) ≡ true → (i == k) ≡ false
other_key i j k e f = ap (λ x. i == x) (sym (beq_eq j k f)) ∙ e

swap :
    (a b : Bool) (x y z : Option Value)
    → (b ≡ true → a ≡ false)
    → (if a then x else if b then y else z) ≡ (if b then y else if a then x else z)
swap true true x y z h = let k = h refl in cc
swap true false x y z h = refl
swap false true x y z h = refl
swap false false x y z h = refl

absorb :
    (a : Bool) (x y z : Option Value) → (if a then x else z) ≡ (if a then x else if a then y else z)
absorb true x y z = refl
absorb false x y z = refl

pub get-put :
    (d : Fields) (j k : String) (v : Value)
    → get (put d j v) k ≡ (if j == k then some v else get d k)
get-put end j k v = refl
get-put (field i w d) j k v = elim (Bool-cases (i == j)) [
  | inl e ↦
      ap (λ b. get (if b then field i v d else field i w (put d j v)) k) e
      ∙ absorb (i == k) (some v) (some w) (get d k)
      ∙ ap (λ x. if x == k then some v else get (field i w d) k) (beq_eq i j e)
  | inr e ↦
      ap (λ b. get (if b then field i v d else field i w (put d j v)) k) e
      ∙ ap (λ o. if i == k then some w else o) (get-put d j k v)
      ∙ swap (i == k) (j == k) (some w) (some v) (get d k) (other_key i j k e)
]
