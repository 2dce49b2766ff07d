-- ===== src/ClosingIssues/Unique.antt =====
-- What is left of the references that are found in some texts.
use mathlib.Core.List.{Memᴰ}
use mathlib.Core.List.Memᴰ
use mathlib.Core.Bool.{false≢true}
use github_emulator.Prelude.{
  ◌≡◌, refl, sym, ap, ◌∙◌, subst, Bool, true, false, ◌||◌, Option, none, some, List, [], ◌∷◌, map,
  inl, inr, ◌⊎◌, if_cases, if◌then◌else◌, arith,
}
use github_emulator.Prelude.Lists.{any}
use github_emulator.Prelude.Rows.{All, All-intro}
use github_emulator.Prelude.Text.{Text, lower, before, is_empty_text}
use github_emulator.Repositories.{Repository}
use github_emulator.ClosingIssues.References.{
  Reference, Key, unique, same_key, full_key, normalized, lower_or, concat,
  parse_closing_references, references_of,
}
use github_emulator.ClosingIssues.Same.{
  SameIssue, given, same_key-eq, eq-same_key, full-SameIssue, SameIssue-full,
}

or_false : (b c : Bool) → (b || c) ≡ false → (b ≡ false) × (c ≡ false)
or_false b c h = (ground arith, ground arith)

or_true : (b c : Bool) → (b || c) ≡ true → (b ≡ true) ⊎ (c ≡ true)
or_true b c h = ground arith

module _ {A K : Type 0} (key : A → K) (same : K → K → Bool) where
  unique-mem :
      {x : A} (seen : List K) (xs : List A)
      → Memᴰ x (unique key same seen xs)
      → Memᴰ x xs × (any (same (key x)) seen ≡ false)
  unique-mem seen [] m = elim m [ ]
  unique-mem {x} seen (y ∷ ys) m =
      step (any (same (key y)) seen) refl (unique-mem seen ys) (unique-mem (key y ∷ seen) ys) m
    where
      step :
          (b : Bool)
          → any (same (key y)) seen ≡ b
          → (Memᴰ x (unique key same seen ys) → Memᴰ x ys × (any (same (key x)) seen ≡ false))
          → (Memᴰ x (unique key same (key y ∷ seen) ys)
              → Memᴰ x ys × (any (same (key x)) (key y ∷ seen) ≡ false))
          → Memᴰ x (if b then unique key same seen ys else y ∷ unique key same (key y ∷ seen) ys)
          → Memᴰ x (y ∷ ys) × (any (same (key x)) seen ≡ false)
      step true e f g m = let r = f m in (Memᴰ.tail r.0, r.1)
      step false e f g (Memᴰ.head p) = (Memᴰ.head p, ap (λ z. any (same (key z)) seen) p ∙ e)
      step false e f g (Memᴰ.tail m) =
          let r = g m in (Memᴰ.tail r.0, (or_false (same (key x) (key y)) _ r.1).1)

  -- No item has the key of an earlier one.
  abbrev Apart : List A → Type 0
  Apart [] = Unit
  Apart (x ∷ xs) = All (λ y. same (key y) (key x) ≡ false) xs × Apart xs

  unique-Apart : (seen : List K) (xs : List A) → Apart (unique key same seen xs)
  unique-Apart seen [] = tt
  unique-Apart seen (x ∷ xs) =
      if_cases Apart (any (same (key x)) seen) (λ e. unique-Apart seen xs)
        (λ e. (
          All-intro (λ y. same (key y) (key x) ≡ false) (unique key same (key x ∷ seen) xs)
              (λ y m. (or_false (same (key y) (key x)) _ (unique-mem (key x ∷ seen) xs m).1).0),
          unique-Apart (key x ∷ seen) xs,
        ))

  -- Every item has the key of one that is kept, or was seen before.
  abbrev Kept : List K → A → List A → Type 0
  Kept seen x zs =
      (any (same (key x)) seen ≡ true) ⊎ ((y : A) × Memᴰ y zs × (same (key x) (key y) ≡ true))

  unique-Kept :
      ((k : K) → same k k ≡ true)
      → {x : A} (seen : List K) (xs : List A) → Memᴰ x xs
      → Kept seen x (unique key same seen xs)
  unique-Kept same_refl seen [] m = elim m [ ]
  unique-Kept same_refl {x} seen (y ∷ ys) (Memᴰ.head p) =
      if_cases (Kept seen x) (any (same (key y)) seen)
        (λ e. inl (ap (λ z. any (same (key z)) seen) p ∙ e))
        (λ e. inr (y, Memᴰ.head refl, ap (λ z. same (key z) (key y)) p ∙ same_refl (key y)))
  unique-Kept same_refl {x} seen (y ∷ ys) (Memᴰ.tail m) =
      if_cases (Kept seen x) (any (same (key y)) seen) (λ e. unique-Kept same_refl seen ys m)
        (λ e. elim (unique-Kept same_refl (key y ∷ seen) ys m) [
          | inr (z, n, q) ↦ inr (z, Memᴰ.tail n, q)
          | inl q ↦ elim (or_true (same (key x) (key y)) _ q) [
            | inl r ↦ inr (y, Memᴰ.head refl, r)
            | inr r ↦ inl r
          ]
        ])

same_key_refl : (k : Key) → same_key k k ≡ true
same_key_refl k = eq-same_key k k refl refl refl

concat-mem :
    {r : Reference} (f : Text → List Reference) (ts : List Text)
    → Memᴰ r (concat (map f ts))
    → (t : Text) × Memᴰ t ts × Memᴰ r (f t)
concat-mem f [] m = elim m [ ]
concat-mem f (t ∷ ts) m = elim (Memᴰ.append_cases (f t) m) [
  | inl n ↦ (t, Memᴰ.head refl, n)
  | inr n ↦ let (u, k, o) = concat-mem f ts n in (u, Memᴰ.tail k, o)
]

mem-concat :
    {r : Reference} {t : Text} (f : Text → List Reference) (ts : List Text)
    → Memᴰ t ts
    → Memᴰ r (f t)
    → Memᴰ r (concat (map f ts))
mem-concat f [] m n = elim m [ ]
mem-concat {r} f (u ∷ ts) (Memᴰ.head p) n =
    Memᴰ.append_left (concat (map f ts)) (subst (λ x. Memᴰ r (f x)) p n)
mem-concat f (u ∷ ts) (Memᴰ.tail m) n = Memᴰ.append_right (f u) (mem-concat f ts m n)

-- A part of a key, with the default where it is absent.
abbrev filled : Option Text → Text → Text
filled none d = lower d
filled (some name) d = name

lower-given : (o : Option Text) (d : Text) → lower (given o d) ≡ filled (lower_or o none) d
lower-given none d = refl
lower-given (some name) d =
    if_cases (λ x. lower (if is_empty_text name then d else name) ≡ filled x d) (is_empty_text name)
      (λ e. ap (λ b. lower (if b then d else name)) e)
      (λ e. ap (λ b. lower (if b then d else name)) e)

normalized-SameIssue :
    (own : Repository) (r s : Reference)
    → same_key (normalized r) (normalized s) ≡ true
    → SameIssue own r s
normalized-SameIssue own r s h =
    let (o, p, n) = same_key-eq (normalized r) (normalized s) h in
    record {
      owners =
          lower-given r.owner (before b'/' own.full_name)
          ∙ ap (λ k. filled k (before b'/' own.full_name)) o
          ∙ sym (lower-given s.owner (before b'/' own.full_name));
      repos =
          lower-given r.repo own.name
          ∙ ap (λ k. filled k own.name) p
          ∙ sym (lower-given s.repo own.name);
      numbers = n;
    }

SameIssue-trans :
    (own : Repository) (r s t : Reference)
    → SameIssue own r s
    → SameIssue own s t
    → SameIssue own r t
SameIssue-trans own r s t h k = record {
  owners = h.owners ∙ k.owners;
  repos = h.repos ∙ k.repos;
  numbers = h.numbers ∙ k.numbers;
}

-- No reference is to the issue of an earlier one.
abbrev pub NoneSame : Repository → List Reference → Type 0
NoneSame own [] = Unit
NoneSame own (r ∷ rs) = All (λ s. SameIssue own s r → ⊥) rs × NoneSame own rs

Apart-NoneSame :
    (own : Repository) (rs : List Reference) → Apart (full_key own) same_key rs → NoneSame own rs
Apart-NoneSame own [] h = tt
Apart-NoneSame own (r ∷ rs) h = (later rs h.0, Apart-NoneSame own rs h.1)
  where
    later :
        (ss : List Reference)
        → All (λ s. same_key (full_key own s) (full_key own r) ≡ false) ss
        → All (λ s. SameIssue own s r → ⊥) ss
    later [] a = tt
    later (s ∷ ss) a = (λ q. false≢true (sym a.0 ∙ SameIssue-full own s r q), later ss a.1)

-- Of the references that are found in the texts, no two that are left are to one issue, whatever
-- the case of the names and whether or not they name the pull request's own repository; each one
-- that was found is to the issue of one that is left; and each one that is left was found.
pub references_of-Unique :
    (find : Text → List Reference) (own : Repository) (texts : List Text)
    → NoneSame own (references_of find own texts)
      × ((t : Text) (r : Reference)
          → Memᴰ t texts
          → Memᴰ r (find t)
          → (s : Reference) × Memᴰ s (references_of find own texts) × SameIssue own r s)
      × ((s : Reference)
          → Memᴰ s (references_of find own texts)
          → (t : Text) × Memᴰ t texts × Memᴰ s (find t))
unfolding references_of parse_closing_references
references_of-Unique find own texts =
    let all_found = concat (map (parse_closing_references find) texts) in
    (
      Apart-NoneSame own _ (unique-Apart (full_key own) same_key [] all_found),
      λ t r m n. elim (unique-Kept normalized same_key same_key_refl [] (find t) n) [
        | inl e ↦ absurd (false≢true e)
        | inr (s, k, e) ↦
            elim (unique-Kept (full_key own) same_key same_key_refl [] all_found
              (mem-concat (parse_closing_references find) texts m k)) [
                | inl f ↦ absurd (false≢true f)
                | inr (u, l, f) ↦ (
                  u,
                  l,
                  SameIssue-trans own r s u (normalized-SameIssue own r s e)
                      (full-SameIssue own s u f),
                )
              ]
      ],
      λ s m.
          let k = (unique-mem (full_key own) same_key [] all_found m).0 in
          let (t, l, n) = concat-mem (parse_closing_references find) texts k in
          (t, l, (unique-mem normalized same_key [] (find t) n).0),
    )
