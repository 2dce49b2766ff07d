-- ===== src/Prelude/Rows.antt =====
-- Predicates over the rows of a list, and relations between the rows of two lists in step.
use mathlib.Core.Path.{◌≡◌, refl, sym, ap, subst}
use mathlib.Core.Logic.{◌⊎◌, inl, inr}
use mathlib.Core.Bool.{Bool, true, false, ◌||◌}
use mathlib.Core.List.{List, [], ◌∷◌, map, Memᴰ}
use native.Mathlib.Omega.{arith}
use github_emulator.Prelude.Lists.{any, all, filter}

module _ {ℓ κ} {A : Type ℓ} where
  abbrev pub All : (A → Type κ) → List A → Type κ
  All P [] = Unit
  All P (x ∷ xs) = P x × All P xs

module _ {ℓ κ} {A : Type ℓ} (P : A → Type κ) where
  pub All-intro : (xs : List A) → ((x : A) → Memᴰ x xs → P x) → All P xs
  All-intro [] h = tt
  All-intro (x ∷ xs) h = (h x (Memᴰ.head refl), All-intro xs (λ y m. h y (Memᴰ.tail m)))

  pub All-elim : {x : A} (xs : List A) → All P xs → Memᴰ x xs → P x
  All-elim [] h m = elim m [ ]
  All-elim (y ∷ ys) h (Memᴰ.head e) = subst P (sym e) h.0
  All-elim (y ∷ ys) h (Memᴰ.tail m) = All-elim ys h.1 m

module _ {ℓ κ μ} {A : Type ℓ} (P : A → Type κ) (Q : A → Type μ) where
  pub All-mono : (xs : List A) → ((x : A) → P x → Q x) → All P xs → All Q xs
  All-mono [] f h = tt
  All-mono (x ∷ xs) f h = (f x h.0, All-mono xs f h.1)

module _ {ℓ κ μ} {A : Type ℓ} {B : Type κ} (Q : B → Type μ) where
  pub All-map : (f : A → B) (xs : List A) → All (λ x. Q (f x)) xs → All Q (map f xs)
  All-map f [] h = tt
  All-map f (x ∷ xs) h = (h.0, All-map f xs h.1)

module _ {ℓ κ} {A : Type ℓ} {B : Type κ} where
  -- Two lists of one length whose rows are related place by place.
  abbrev pub Rel : (A → B → Type 0) → List A → List B → Type 0
  Rel R [] [] = Unit
  Rel R (x ∷ xs) (y ∷ ys) = R x y × Rel R xs ys
  Rel R _ _ = ⊥

module _ {ℓ} {A : Type ℓ} (R : A → A → Type 0) where
  pub Rel-map : (f : A → A) (xs : List A) → ((x : A) → R x (f x)) → Rel R xs (map f xs)
  Rel-map f [] h = tt
  Rel-map f (x ∷ xs) h = (h x, Rel-map f xs h)

  pub Rel-map_mem :
      (f : A → A) (xs : List A) → ((x : A) → Memᴰ x xs → R x (f x)) → Rel R xs (map f xs)
  Rel-map_mem f [] h = tt
  Rel-map_mem f (x ∷ xs) h = (h x (Memᴰ.head refl), Rel-map_mem f xs (λ y m. h y (Memᴰ.tail m)))

  pub Rel-elim_left :
      {x : A} (xs ys : List A) → Rel R xs ys → Memᴰ x xs → (y : A) × Memᴰ y ys × R x y
  Rel-elim_left [] ys p m = elim m [ ]
  Rel-elim_left (w ∷ ws) [] p m = absurd p
  Rel-elim_left (w ∷ ws) (z ∷ zs) p (Memᴰ.head e) =
      (z, Memᴰ.head refl, subst (λ q. R q z) (sym e) p.0)
  Rel-elim_left (w ∷ ws) (z ∷ zs) p (Memᴰ.tail m) =
      let (y, k, r) = Rel-elim_left ws zs p.1 m in (y, Memᴰ.tail k, r)

  pub Rel-elim_right :
      {y : A} (xs ys : List A) → Rel R xs ys → Memᴰ y ys → (x : A) × Memᴰ x xs × R x y
  Rel-elim_right xs [] p m = elim m [ ]
  Rel-elim_right [] (z ∷ zs) p m = absurd p
  Rel-elim_right (w ∷ ws) (z ∷ zs) p (Memᴰ.head e) = (w, Memᴰ.head refl, subst (R w) (sym e) p.0)
  Rel-elim_right (w ∷ ws) (z ∷ zs) p (Memᴰ.tail m) =
      let (x, k, r) = Rel-elim_right ws zs p.1 m in (x, Memᴰ.tail k, r)

module _ {ℓ} {A : Type ℓ} (R S : A → A → Type 0) where
  pub Rel-mono : ((x y : A) → R x y → S x y) → (xs ys : List A) → Rel R xs ys → Rel S xs ys
  Rel-mono f [] [] p = tt
  Rel-mono f [] (y ∷ ys) p = p
  Rel-mono f (x ∷ xs) [] p = p
  Rel-mono f (x ∷ xs) (y ∷ ys) p = (f x y p.0, Rel-mono f xs ys p.1)

module _ {ℓ} {A : Type ℓ} (R S T : A → A → Type 0) where
  pub Rel-trans :
      ((x y z : A) → R x y → S y z → T x z)
      → (xs ys zs : List A) → Rel R xs ys
      → Rel S ys zs
      → Rel T xs zs
  Rel-trans f [] [] [] p q = tt
  Rel-trans f [] [] (z ∷ zs) p q = q
  Rel-trans f [] (y ∷ ys) zs p q = absurd p
  Rel-trans f (x ∷ xs) [] zs p q = absurd p
  Rel-trans f (x ∷ xs) (y ∷ ys) [] p q = absurd q
  Rel-trans f (x ∷ xs) (y ∷ ys) (z ∷ zs) p q = (f x y z p.0 q.0, Rel-trans f xs ys zs p.1 q.1)

module _ {ℓ} {A : Type ℓ} (p : A → Bool) where
  filter-mem_true :
      {x : A} (b : Bool) (y : A) (ys rest : List A)
      → p y ≡ b
      → (Memᴰ x rest → Memᴰ x ys × (p x ≡ true))
      → Memᴰ x (elim b [ true ↦ y ∷ rest | false ↦ rest ])
      → Memᴰ x (y ∷ ys) × (p x ≡ true)
  filter-mem_true true y ys rest e k (Memᴰ.head q) =
      (Memᴰ.head q, subst (λ z. p z ≡ true) (sym q) e)
  filter-mem_true true y ys rest e k (Memᴰ.tail m) = let r = k m in (Memᴰ.tail r.0, r.1)
  filter-mem_true false y ys rest e k m = let r = k m in (Memᴰ.tail r.0, r.1)

  -- What is in `[x for x in xs if p(x)]` is in `xs` and passes the test.
  pub filter-mem : {x : A} (xs : List A) → Memᴰ x (filter p xs) → Memᴰ x xs × (p x ≡ true)
  filter-mem [] m = elim m [ ]
  filter-mem (y ∷ ys) m = filter-mem_true (p y) y ys (filter p ys) refl (filter-mem ys) m

  filter-head :
      {x : A} (b : Bool) (y : A) (rest : List A)
      → x ≡ y
      → b ≡ true
      → Memᴰ x (elim b [ true ↦ y ∷ rest | false ↦ rest ])
  filter-head true y rest e h = Memᴰ.head e
  filter-head false y rest e h = cc

  filter-tail :
      {x : A} (b : Bool) (y : A) (rest : List A)
      → Memᴰ x rest
      → Memᴰ x (elim b [ true ↦ y ∷ rest | false ↦ rest ])
  filter-tail true y rest m = Memᴰ.tail m
  filter-tail false y rest m = m

  -- And the other way round.
  pub mem-filter : {x : A} (xs : List A) → Memᴰ x xs → p x ≡ true → Memᴰ x (filter p xs)
  mem-filter [] m h = elim m [ ]
  mem-filter (y ∷ ys) (Memᴰ.head e) h =
      filter-head (p y) y (filter p ys) e (subst (λ z. p z ≡ true) e h)
  mem-filter (y ∷ ys) (Memᴰ.tail m) h = filter-tail (p y) y (filter p ys) (mem-filter ys m h)

or-elim : (b c : Bool) → (b || c) ≡ true → (b ≡ true) ⊎ (c ≡ true)
or-elim b c h = ground arith

module _ {ℓ} {A : Type ℓ} (p : A → Bool) where
  pub any-mem : (xs : List A) → any p xs ≡ true → (x : A) × Memᴰ x xs × (p x ≡ true)
  any-mem [] h = cc
  any-mem (x ∷ xs) h = elim (or-elim (p x) (any p xs) h) [
    | inl e ↦ (x, Memᴰ.head refl, e)
    | inr e ↦ let (y, m, q) = any-mem xs e in (y, Memᴰ.tail m, q)
  ]

  pub mem-any : {x : A} (xs : List A) → Memᴰ x xs → p x ≡ true → any p xs ≡ true
  mem-any [] m h = elim m [ ]
  mem-any (y ∷ ys) (Memᴰ.head e) h =
      let k : p y ≡ true = subst (λ z. p z ≡ true) e h in ground arith
  mem-any (y ∷ ys) (Memᴰ.tail m) h = ground (arith, mem-any ys m h)

  pub all-All : (xs : List A) → all p xs ≡ true → All (λ x. p x ≡ true) xs
  all-All [] h = tt
  all-All (x ∷ xs) h = (ground arith, all-All xs (ground arith))

  pub All-all : (xs : List A) → All (λ x. p x ≡ true) xs → all p xs ≡ true
  All-all [] h = refl
  All-all (x ∷ xs) h = ground (arith, All-all xs h.1, h.0)

module _ {ℓ κ} {A : Type ℓ} {B : Type κ} (f : A → B) where
  pub map-mem : {b : B} (xs : List A) → Memᴰ b (map f xs) → (a : A) × Memᴰ a xs × (b ≡ f a)
  map-mem [] m = elim m [ ]
  map-mem (x ∷ xs) (Memᴰ.head e) = (x, Memᴰ.head refl, e)
  map-mem (x ∷ xs) (Memᴰ.tail m) = let (a, k, e) = map-mem xs m in (a, Memᴰ.tail k, e)

  pub mem-map : {a : A} (xs : List A) → Memᴰ a xs → Memᴰ (f a) (map f xs)
  mem-map [] m = elim m [ ]
  mem-map (x ∷ xs) (Memᴰ.head e) = Memᴰ.head (ap f e)
  mem-map (x ∷ xs) (Memᴰ.tail m) = Memᴰ.tail (mem-map xs m)
