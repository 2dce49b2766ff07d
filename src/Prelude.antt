-- ===== src/Prelude.antt =====
-- The names that the other modules share: those of the libraries, passed on, equality tests by
-- instances, and the list functions that the program's loops use.
pub mod Lists
pub mod Rows
pub mod Text
pub mod Strings
pub mod Prefixes
use Prim.Native.Nat.{compare, Ordering}
use text.Mathlib.Text.{◌==◌ as str_eq}
use text.Mathlib.TextEquality.{eq_iff}
pub use Prim.Native.Nat.{ℕ, zero, suc, ◌+◌, ◌-◌, ◌*◌, ◌/◌, ◌%◌, ◌^◌, ◌≤◌, ◌<◌}
pub use Prim.Native.String.{String}
pub use mathlib.Core.Path.{◌≡◌, refl, sym, ap, ◌∙◌, subst}
pub use mathlib.Core.Logic.{◌≢◌, ◌↔◌, ◌⊎◌, inl, inr}
pub use mathlib.Core.Bool.{Bool, true, false, not, ◌&&◌, ◌||◌}
pub use mathlib.Core.Option.{Option, none, some}
pub use mathlib.Core.List.{List, [], ◌∷◌, ◌++◌, map}
pub use native.Mathlib.Omega.{arith}

abbrev pub ltb : ℕ → ℕ → Bool
ltb a b = elim (compare a b) [ Ordering.lt ↦ true | _ ↦ false ]

abbrev pub leb : ℕ → ℕ → Bool
leb a b = elim (compare a b) [ Ordering.gt ↦ false | _ ↦ true ]

abbrev nat_beq : ℕ → ℕ → Bool
nat_beq a b = elim (compare a b) [ Ordering.eq ↦ true | _ ↦ false ]

infix 1 if◌then◌else◌
abbrev pub if◌then◌else◌ {ℓ} : {A : Type ℓ} → Bool → A → A → A
if true then x else y = x
if false then x else y = y

pub Bool-cases : (b : Bool) → (b ≡ true) ⊎ (b ≡ false)
Bool-cases true = inl refl
Bool-cases false = inr refl

-- Types whose equality the program tests.
pub record Eq {ℓ} (A : Type ℓ) : Type ℓ where
  pub test : A → A → Bool
  pub test_sound : (x y : A) → test x y ≡ true → x ≡ y
  pub test_refl : (x : A) → test x x ≡ true

infix 50 ◌==◌
abbrev pub ◌==◌ {ℓ} : {A : Type ℓ} ⦃k : Eq A⦄ → A → A → Bool
◌==◌ ⦃k⦄ = k.test

module _ {ℓ} {A : Type ℓ} ⦃k : Eq A⦄ where
  pub beq_refl : (x : A) → (x == x) ≡ true
  beq_refl = k.test_refl

  pub beq_eq : (x y : A) → (x == y) ≡ true → x ≡ y
  beq_eq = k.test_sound

pub text_sound : (x y : String) → str_eq x y ≡ true → x ≡ y
text_sound x y = (eq_iff x y).0

pub text_refl : (x : String) → str_eq x x ≡ true
text_refl x = (eq_iff x x).1 refl

instance abbrev pub string_eq : Eq String
string_eq = record { test = str_eq; test_sound = text_sound; test_refl = text_refl }

pub number_sound : (m n : ℕ) → nat_beq m n ≡ true → m ≡ n
number_sound m n h = ground arith

pub number_refl : (m : ℕ) → nat_beq m m ≡ true
number_refl m = ground arith

instance abbrev pub nat_eq : Eq ℕ
nat_eq = record { test = nat_beq; test_sound = number_sound; test_refl = number_refl }

pub if_cases {ℓ κ} :
    {A : Type ℓ} (P : A → Type κ) (b : Bool) {x y : A}
    → (b ≡ true → P x)
    → (b ≡ false → P y)
    → P (if b then x else y)
if_cases P true f g = f refl
if_cases P false f g = g refl

pub elim_cases {ℓ κ} :
    {A : Type ℓ} (P : A → Type κ) (b : Bool) {x y : A}
    → (b ≡ true → P x)
    → (b ≡ false → P y)
    → P (elim b [ true ↦ x | false ↦ y ])
elim_cases P true f g = f refl
elim_cases P false f g = g refl
