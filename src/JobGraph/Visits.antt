-- ===== src/JobGraph/Visits.antt =====
-- What a visit does to the keys that are visited and the jobs that are listed.
use github_emulator.Prelude.{
  ◌≡◌, ◌⊎◌, refl, sym, ap, ◌∙◌, subst, String, Bool, true, false, ◌||◌, Option, none, some, List,
  [], ◌∷◌, ◌++◌, ◌==◌, string_eq, inl, inr, if◌then◌else◌, arith, beq_eq, beq_refl,
}
use github_emulator.Prelude.Lists.{any}
use github_emulator.JobGraph.Sort.{mem, State, by_key, append, pick}
use github_emulator.Prelude.Rows.{All}

or_elim : (b c : Bool) → (b || c) ≡ true → (b ≡ true) ⊎ (c ≡ true)
or_elim b c h = ground arith

module _ {A : Type 0} where
  pick-none : (a b : Option A) → pick a b ≡ none → (a ≡ none) × (b ≡ none)
  pick-none none b h = (refl, h)
  pick-none (some x) b h = cc

  pick-some : (a b : Option A) (x : A) → pick a b ≡ some x → (a ≡ some x) ⊎ (b ≡ some x)
  pick-some none b x h = inr h
  pick-some (some y) b x h = inl h

  if_none : (b : Bool) (x : A) → (if b then some x else none) ≡ none → b ≡ false
  if_none true x h = cc
  if_none false x h = refl

  if_some : (b : Bool) (x y : A) → (if b then some x else none) ≡ some y → (b ≡ true) × (x ≡ y)
  if_some true x y h = (refl, cc)
  if_some false x y h = cc

module _ {A : Type 0} (key : A → String) where
  -- Some job of the list has the key.
  abbrev pub has : String → List A → Bool
  has k = any (λ j. key j == k)

  pub has-snoc : (k : String) (j : A) (r : List A) → has k (r ++ (j ∷ [])) ≡ (has k r || key j == k)
  has-snoc k j [] = ground arith
  has-snoc k j (i ∷ r) = ground (arith, has-snoc k j r)

  -- From the state `a` to the state `b`: nothing is forgotten, what is newly visited is listed
  -- where it is a job's key, and what is newly listed is visited, and was not before.
  pub record Extends (jobs : List A) (a b : State A) : Type 0 where
    pub kept : (k : String) → mem k a.visited ≡ true → mem k b.visited ≡ true
    pub listed : (k : String) → has k a.result ≡ true → has k b.result ≡ true
    pub settled :
        (k : String)
        → mem k b.visited ≡ true
        → (mem k a.visited ≡ true) ⊎ (has k jobs ≡ false) ⊎ (has k b.result ≡ true)
    pub fresh :
        (k : String)
        → has k b.result ≡ true
        → (has k a.result ≡ true) ⊎ ((mem k a.visited ≡ false) × (mem k b.visited ≡ true))

  pub Extends-refl : (jobs : List A) (a : State A) → Extends jobs a a
  Extends-refl jobs a = record {
    kept = λ k h. h;
    listed = λ k h. h;
    settled = λ k h. inl h;
    fresh = λ k h. inl h;
  }

  contrary : (b c : Bool) → (b ≡ true → c ≡ true) → c ≡ false → b ≡ false
  contrary true c f h = let k = f refl in cc
  contrary false c f h = refl

  pub Extends-trans :
      (jobs : List A) (a b c : State A) → Extends jobs a b → Extends jobs b c → Extends jobs a c
  Extends-trans jobs a b c f g = record {
    kept = λ k h. g.kept k (f.kept k h);
    listed = λ k h. g.listed k (f.listed k h);
    settled = λ k h. elim (g.settled k h) [
      | inl m ↦ elim (f.settled k m) [
        | inl n ↦ inl n
        | inr (inl n) ↦ inr (inl n)
        | inr (inr n) ↦ inr (inr (g.listed k n))
      ]
      | inr n ↦ inr n
    ];
    fresh = λ k h. elim (g.fresh k h) [
      | inl m ↦ elim (f.fresh k m) [ inl n ↦ inl n | inr n ↦ inr (n.0, g.kept k n.1) ]
      | inr n ↦ inr (contrary _ _ (f.kept k) n.0, n.1)
    ];
  }

  pub by_key-none : (jobs : List A) (k : String) → by_key key jobs k ≡ none → has k jobs ≡ false
  by_key-none [] k h = refl
  by_key-none (j ∷ jobs) k h =
      let p = pick-none (by_key key jobs k) _ h in
      let q = if_none (key j == k) j p.1 in ground (arith, by_key-none jobs k p.0)

  pub by_key-has :
      (jobs : List A) (k : String) (job : A)
      → by_key key jobs k ≡ some job
      → (key job ≡ k) × (has k jobs ≡ true)
  by_key-has [] k job h = cc
  by_key-has (j ∷ jobs) k job h = elim (pick-some (by_key key jobs k) _ job h) [
    | inl p ↦ let r = by_key-has jobs k job p in (r.0, ground arith)
    | inr p ↦
        let q = if_some (key j == k) j job p in
        (ap key (sym q.1) ∙ beq_eq (key j) k q.0, ground arith)
  ]

  pub by_key-All :
      (P : A → Type 0) (jobs : List A) (k : String) (job : A)
      → by_key key jobs k ≡ some job
      → All P jobs
      → P job
  by_key-All P [] k job h p = cc
  by_key-All P (j ∷ jobs) k job h p = elim (pick-some (by_key key jobs k) _ job h) [
    | inl q ↦ by_key-All P jobs k job q p.1
    | inr q ↦ subst P (if_some (key j == k) j job q).1 p.0
  ]

  -- A missing key is marked.
  pub Extends-missing :
      (jobs : List A) (k : String) (a : State A)
      → has k jobs ≡ false
      → Extends jobs a (record a { visited = k ∷ a.visited })
  Extends-missing jobs k a h = record {
    kept = λ x m. ground arith;
    listed = λ x m. m;
    settled = λ x m. elim (or_elim (k == x) (mem x a.visited) m) [
      | inl e ↦ inr (inl (subst (λ z. has z jobs ≡ false) (beq_eq k x e) h))
      | inr e ↦ inl e
    ];
    fresh = λ x m. inl m;
  }

  own_key : (k x : String) (job : A) → key job ≡ k → (k == x) ≡ true → (key job == x) ≡ true
  own_key k x job e z = subst (λ y. (y == x) ≡ true) (sym e) z

  -- A job is listed after what its visit has listed before.
  pub Extends-append :
      (jobs : List A) (k : String) (job : A) (a b : State A)
      → key job ≡ k
      → mem k a.visited ≡ false
      → Extends jobs (record a { visited = k ∷ a.visited }) b
      → Extends jobs a (append job b)
  Extends-append jobs k job a b e n f = record {
    kept = λ x m. f.kept x (ground arith);
    listed = λ x m. has-snoc x job b.result ∙ (let q = f.listed x m in ground arith);
    settled = λ x m. elim (f.settled x m) [
      | inl q ↦ elim (or_elim (k == x) (mem x a.visited) q) [
        | inl z ↦
            inr (inr (has-snoc x job b.result ∙ (let y = own_key k x job e z in ground arith)))
        | inr z ↦ inl z
      ]
      | inr (inl q) ↦ inr (inl q)
      | inr (inr q) ↦ inr (inr (has-snoc x job b.result ∙ (ground arith)))
    ];
    fresh = λ x m.
        elim (or_elim (has x b.result) (key job == x) (sym (has-snoc x job b.result) ∙ m)) [
          | inl q ↦ elim (f.fresh x q) [ inl z ↦ inl z | inr z ↦ inr (ground arith, z.1) ]
          | inr q ↦
              let z : k ≡ x = sym e ∙ beq_eq (key job) x q in
              inr (
                subst (λ y. mem y a.visited ≡ false) z n,
                subst (λ y. mem y b.visited ≡ true) z
                    (f.kept k (let y = beq_refl k in ground arith)),
              )
        ];
  }
