-- ===== src/Value.antt =====
-- The Python values that come out of JSON and YAML, on which workflow files, webhook payloads and
-- expression contexts are built. A dict is its list of entries in insertion order. Floats are left
-- out: no modelled operation computes with one.
pub mod Lookup
use github_emulator.Prelude.{string_eq, ℕ, String, Bool, Option, none, some, ◌==◌, if◌then◌else◌}

-- `negsuc n` is -(n + 1).
pub data ℤ : Type 0 where
  pos : ℕ → ℤ
  negsuc : ℕ → ℤ

mutual
  pub data Fields : Type 0 where
    end : Fields
    field : String → Value → Fields → Fields

  pub data Items : Type 0 where
    nil : Items
    item : Value → Items → Items

  pub data Value : Type 0 where
    dict : Fields → Value
    list : Items → Value
    str : String → Value
    int : ℤ → Value
    bool : Bool → Value
    null : Value

-- d.get(k)
abbrev pub get : Fields → String → Option Value
get end k = none
get (field j v d) k = if j == k then some v else get d k

-- d[k] = v: an old key keeps its place
abbrev pub put : Fields → String → Value → Fields
put end k v = field k v end
put (field j w d) k v = if j == k then field j v d else field j w (put d k v)

-- {**a, **b}
abbrev pub merge : Fields → Fields → Fields
merge a end = a
merge a (field k v b) = merge (put a k v) b

-- bool(d)
abbrev pub is_empty : Fields → Bool
is_empty end = Bool.true
is_empty _ = Bool.false
