-- ===== src/CallInputs/Resolved.antt =====
-- What each input of a call comes to.
use github_emulator.Prelude.{
  String, ◌≡◌, Option, none, some, List, [], ◌∷◌, string_eq, if◌then◌else◌,
}
use github_emulator.Value.{Value, Fields, end, field, get, dict}
use github_emulator.Value.Lookup.{or_else}
use github_emulator.Expressions.Values.{Python}
use github_emulator.CallInputs.Settled.{Settled}
use github_emulator.CallInputs.Apply.{chosen, is_missing}

-- A dict has no key twice.
abbrev pub UniqueKeys : Fields → Type 0
UniqueKeys end = Unit
UniqueKeys (field k v d) = (get d k ≡ none) × UniqueKeys d

module _ (py : Python) (to_float : String → Option Value) where
  -- An input that is not declared, or by no dict, stays as it is supplied.
  abbrev pub resolve : Option Value → Option Value → Option Value
  resolve (some (dict spec)) o = or_else (chosen py to_float spec o) o
  resolve _ o = o

-- The two dicts have the same values at the keys of the first.
abbrev Agree : Fields → Fields → Fields → Type 0
Agree end f g = Unit
Agree (field j v d) f g = (get f j ≡ get g j) × Agree d f g

module _ (py : Python) (to_float : String → Option Value) where
  -- The required inputs that are neither supplied nor have a default, in the order of declaration.
  abbrev pub missing_of : Fields → Fields → List String
  missing_of end f = []
  missing_of (field j (dict spec) d) f =
      let rest = missing_of d f in
      if is_missing spec (chosen py to_float spec (get f j)) then j ∷ rest else rest
  missing_of (field j _ d) f = missing_of d f
