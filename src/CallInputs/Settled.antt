-- ===== src/CallInputs/Settled.antt =====
-- What an input that is declared comes to, by the type and the default of its declaration.
use github_emulator.Prelude.{
  ◌≡◌, ◌≢◌, refl, sym, ap, ◌∙◌, subst, ◌⊎◌, inl, inr, ◌↔◌, String, string_eq, Bool, true, false,
  Bool-cases, Option, none, some, ◌==◌, beq_eq, beq_refl, if◌then◌else◌,
}
use github_emulator.Prelude.Strings.{strip}
use github_emulator.Prelude.Text.{codes, lower, text_eq}
use github_emulator.Value.{Value, Fields, end, field, get, dict, list, str, int, bool, null}
use github_emulator.Expressions.Values.{Python, text_of}
use github_emulator.CallInputs.Apply.{
  Called, declared_call_inputs, coerce_input, type_of, default_of, chosen, is_missing, number_value,
  without_dashes, is_number, is_true_text, or_value, int_value, string_value, is_required, or_next,
  dict_under, fields_of,
}

-- Nothing is supplied, or null, or the empty text.
abbrev pub Blank : Option Value → Type 0
Blank o = (o ≡ none) ⊎ (o ≡ some null) ⊎ (o ≡ some (str ""))

module _ (py : Python) (to_float : String → Option Value) where
  -- The text is digits after any dashes, and is read as an integer; else it is read as a float;
  -- where that fails, the value stays.
  pub record Number (v x : Value) : Type 0 where
    pub whole :
        is_number (without_dashes (strip (text_of py v))) ≡ true
        → x ≡ or_value v (int_value (py.int_text (strip (text_of py v))))
    pub other :
        is_number (without_dashes (strip (text_of py v))) ≡ false
        → x ≡ or_value v (to_float (strip (text_of py v)))

  -- A value coerced to a type: a truth value stays, and anything else is whether its text is true
  -- in any case; a number; a text, empty for null; and for any other type the value itself.
  pub record Coerced (t : String) (v x : Value) : Type 0 where
    pub boolean :
        t ≡ "boolean"
        → ((b : Bool) → v ≡ bool b → x ≡ bool b)
          × (((b : Bool) → v ≢ bool b)
              → x ≡ bool (lower (codes (strip (text_of py v))) == codes "true"))
    pub number : t ≡ "number" → Number v x
    pub string : t ≡ "string" → (v ≡ null → x ≡ str "") × (v ≢ null → x ≡ str (text_of py v))
    pub kept : t ≢ "boolean" → t ≢ "number" → t ≢ "string" → x ≡ v

  -- A declaration with no type is of a string.
  abbrev pub DeclaredType : Fields → String → Type 0
  DeclaredType spec t =
      ((get spec "type" ≡ none) × (t ≡ "string"))
      ⊎ ((u : Value) × (get spec "type" ≡ some u) × (t ≡ text_of py u))

  abbrev pub CoercedTo : Fields → Value → Option Value → Type 0
  CoercedTo spec v w =
      (x : Value) × (w ≡ some x) × ((t : String) → DeclaredType spec t → Coerced t v x)

  -- What is supplied counts where it is not blank, else the default, else there is nothing.
  pub record Settled (spec : Fields) (o w : Option Value) : Type 0 where
    pub supplied : (v : Value) → o ≡ some v → v ≢ null → v ≢ str "" → CoercedTo spec v w
    pub default : (v : Value) → Blank o → get spec "default" ≡ some v → CoercedTo spec v w
    pub absent : Blank o → get spec "default" ≡ none → w ≡ none

  text_case :
      (v : Value)
      → ((b : Bool) → v ≢ bool b)
      → is_true_text py v ≡ (lower (codes (strip (text_of py v))) == codes "true")
  text_case (dict d) n = refl
  text_case (list is) n = refl
  text_case (str s) n = refl
  text_case (int i) n = refl
  text_case (bool b) n = absurd (n b refl)
  text_case null n = refl

  string_case : (v : Value) → v ≢ null → string_value py v ≡ str (text_of py v)
  string_case (dict d) n = refl
  string_case (list is) n = refl
  string_case (str s) n = refl
  string_case (int i) n = refl
  string_case (bool b) n = refl
  string_case null n = absurd (n refl)

  coerced_if : Bool → Bool → Bool → Value → Value
  coerced_if a b c v =
      if a
      then bool (is_true_text py v)
      else if b
      then number_value py to_float v (strip (text_of py v))
      else if c
      then string_value py v
      else v

  equal_names : (a b : String) → a ≡ b → (a == b) ≡ true
  equal_names a b e = subst (λ z. (a == z) ≡ true) e (beq_refl a)

  other_names : (a b : String) → a ≢ b → (a == b) ≡ false
  other_names a b n = elim (Bool-cases (a == b)) [ inl e ↦ absurd (n (beq_eq a b e)) | inr e ↦ e ]

  coerce-Coerced : (t : String) (v : Value) → Coerced t v (coerce_input py to_float v t)
  unfolding coerced_if
  coerce-Coerced t v = record {
    boolean = λ e.
        let k : coerce_input py to_float v t ≡ bool (is_true_text py v) =
          ap (λ b. coerced_if b (t == "number") (t == "string") v) (equal_names t "boolean" e) in
        (λ b q. k ∙ ap (λ z. bool (is_true_text py z)) q, λ n. k ∙ ap bool (text_case v n));
    number = λ e.
        let k : coerce_input py to_float v t ≡ number_value py to_float v (strip (text_of py v)) =
          ap (λ z. coerce_input py to_float v z) e in
        record {
          whole = λ q.
              k
              ∙ ap
                  (λ b. or_value v (
                    if b
                    then int_value (py.int_text (strip (text_of py v)))
                    else to_float (strip (text_of py v))))
                  q;
          other = λ q.
              k
              ∙ ap
                  (λ b. or_value v (
                    if b
                    then int_value (py.int_text (strip (text_of py v)))
                    else to_float (strip (text_of py v))))
                  q;
        };
    string = λ e.
        let k : coerce_input py to_float v t ≡ string_value py v =
          ap (λ z. coerce_input py to_float v z) e in
        (λ q. k ∙ ap (string_value py) q, λ n. k ∙ string_case v n);
    kept = λ a b c.
        ap (λ z. coerced_if z (t == "number") (t == "string") v) (other_names t "boolean" a)
        ∙ ap (λ z. coerced_if false z (t == "string") v) (other_names t "number" b)
        ∙ ap (λ z. coerced_if false false z v) (other_names t "string" c);
  }

  type_of-DeclaredType :
      (spec : Fields) (t : String) → DeclaredType spec t → t ≡ type_of py to_float spec
  type_of-DeclaredType spec t (inl (h, e)) =
      e ∙ sym (ap (λ (o : Option Value). elim o [ none ↦ "string" | some u ↦ text_of py u ]) h)
  type_of-DeclaredType spec t (inr (u, h, e)) =
      e ∙ sym (ap (λ (o : Option Value). elim o [ none ↦ "string" | some u ↦ text_of py u ]) h)

  coerced_to :
      (spec : Fields) (v : Value)
      → CoercedTo spec v (some (coerce_input py to_float v (type_of py to_float spec)))
  coerced_to spec v = (
    coerce_input py to_float v (type_of py to_float spec),
    refl,
    λ t d.
        subst (λ z. Coerced z v (coerce_input py to_float v (type_of py to_float spec)))
          (sym (type_of-DeclaredType spec t d)) (coerce-Coerced (type_of py to_float spec) v),
  )

  chosen-supplied :
      (spec : Fields) (v : Value)
      → v ≢ null
      → v ≢ str ""
      → chosen py to_float spec (some v)
        ≡ some (coerce_input py to_float v (type_of py to_float spec))
  chosen-supplied spec (dict d) n m = refl
  chosen-supplied spec (list is) n m = refl
  chosen-supplied spec (str String.[]) n m = absurd (m refl)
  chosen-supplied spec (str (String.◌∷◌ c s)) n m = refl
  chosen-supplied spec (int i) n m = refl
  chosen-supplied spec (bool b) n m = refl
  chosen-supplied spec null n m = absurd (n refl)

  chosen-Blank :
      (spec : Fields) (o : Option Value)
      → Blank o
      → chosen py to_float spec o ≡ default_of py to_float spec
  chosen-Blank spec o (inl e) = ap (chosen py to_float spec) e
  chosen-Blank spec o (inr (inl e)) = ap (chosen py to_float spec) e
  chosen-Blank spec o (inr (inr e)) = ap (chosen py to_float spec) e

  default_if : Fields → Option Value → Option Value
  default_if spec o = elim o [
    | none ↦ none
    | some v ↦ some (coerce_input py to_float v (type_of py to_float spec))
  ]

  pub chosen-Settled :
      (spec : Fields) (o : Option Value) → Settled spec o (chosen py to_float spec o)
  unfolding default_if
  chosen-Settled spec o = record {
    supplied = λ v e n m.
        subst (CoercedTo spec v) (sym (ap (chosen py to_float spec) e ∙ chosen-supplied spec v n m))
          (coerced_to spec v);
    default = λ v b e.
        subst (CoercedTo spec v) (sym (chosen-Blank spec o b ∙ ap (default_if spec) e))
          (coerced_to spec v);
    absent = λ b e. chosen-Blank spec o b ∙ ap (default_if spec) e;
  }

is_required-true : (o : Option Value) → is_required o ≡ true → o ≡ some (bool true)
is_required-true none h = cc
is_required-true (some (dict d)) h = cc
is_required-true (some (list is)) h = cc
is_required-true (some (str t)) h = cc
is_required-true (some (int i)) h = cc
is_required-true (some null) h = cc
is_required-true (some (bool true)) h = refl
is_required-true (some (bool false)) h = cc

-- An input is missing when it is required and comes to nothing.
abbrev pub Missing : Fields → Option Value → Type 0
Missing spec w = (w ≡ none) × (get spec "required" ≡ some (bool true))

pub is_missing-Missing :
    (spec : Fields) (w : Option Value) → (is_missing spec w ≡ true) ↔ Missing spec w
is_missing-Missing spec none =
    (λ h. (refl, is_required-true (get spec "required") h), λ h. ap is_required h.1)
is_missing-Missing spec (some v) = (λ h. cc, λ h. cc)

-- The inputs that a workflow declares under on, workflow_call, inputs.
pub declared_inputs-lem :
    (called : Called) (d t inputs : Fields)
    → called.on ≡ none
    → called.on_true ≡ some (dict d)
    → get d "workflow_call" ≡ some (dict t)
    → get t "inputs" ≡ some (dict inputs)
    → declared_call_inputs called ≡ inputs
unfolding declared_call_inputs
declared_inputs-lem called end t inputs a b c e = cc
declared_inputs-lem called (field k v d) t inputs a b c e =
    ap
      (λ o. fields_of (
        dict_under (dict_under (or_next o (or_next called.on_true (dict end))) "workflow_call")
          "inputs"))
      a
    ∙ ap (λ o. fields_of (dict_under (dict_under (or_next o (dict end)) "workflow_call") "inputs"))
        b
    ∙ ap
        (λ (o : Option Value).
          fields_of (dict_under (elim o [ none ↦ null | some w ↦ w ]) "inputs"))
        c
    ∙ ap (λ (o : Option Value). fields_of (elim o [ none ↦ null | some w ↦ w ])) e
