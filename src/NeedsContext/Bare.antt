-- ===== src/NeedsContext/Bare.antt =====
-- What `bare_key` takes off a key.
use Prim.Native.Char.{Char}
use github_emulator.Prelude.{
  ◌+◌, ◌≤◌, String, ◌≡◌, ◌≢◌, ◌⊎◌, refl, sym, ap, ◌∙◌, Option, none, some, inl, inr, arith,
}
use github_emulator.Prelude.Strings.{concat, size, without_prefix}
use github_emulator.Prelude.Prefixes.{without_prefix-concat, without_prefix-some}
use github_emulator.NeedsContext.Build.{later, last_part, bare_key}

-- `j` is what follows the last " / " of `k`, or all of a `k` in which there is none.
abbrev pub FollowsLast : String → String → Type 0
FollowsLast k j =
    (p : String) × (k ≡ concat p (concat " / " j))
    × ((q r : String) → k ≡ concat q (concat " / " r) → size j ≤ size r)

abbrev pub IsBare : String → String → Type 0
IsBare k j = FollowsLast k j ⊎ ((j ≡ k) × ((q r : String) → k ≢ concat q (concat " / " r)))

size-concat : (s t : String) → size (concat s t) ≡ size s + size t
size-concat String.[] t = omega arith
size-concat (String.◌∷◌ c s) t = let h = size-concat s t in omega arith

rest_of : String → String
rest_of String.[] = String.[]
rest_of (String.◌∷◌ c s) = s

some-inj : {a b : String} → some a ≡ some b → a ≡ b
some-inj h = cc

later-none : (a b : Option String) → later a b ≡ none → (a ≡ none) × (b ≡ none)
later-none none b h = (refl, h)
later-none (some s) b h = cc

later-some :
    (a b : Option String) (j : String)
    → later a b ≡ some j
    → (a ≡ some j) ⊎ ((a ≡ none) × (b ≡ some j))
later-some none b j h = inr (refl, h)
later-some (some s) b j h = inl h

last_part-none : (k : String) → last_part k ≡ none → (q r : String) → k ≢ concat q (concat " / " r)
unfolding rest_of
last_part-none String.[] h String.[] r e = cc
last_part-none String.[] h (String.◌∷◌ d q) r e = cc
last_part-none (String.◌∷◌ c s) h String.[] r e =
    let both = later-none (last_part s) _ h in
    let k : none ≡ some r =
      sym both.1 ∙ ap (without_prefix " / ") e ∙ without_prefix-concat " / " r in
    cc
last_part-none (String.◌∷◌ c s) h (String.◌∷◌ d q) r e =
    last_part-none s (later-none (last_part s) _ h).0 q r (ap rest_of e)

last_part-some : (k j : String) → last_part k ≡ some j → FollowsLast k j
unfolding rest_of
last_part-some String.[] j h = cc
last_part-some (String.◌∷◌ c s) j h = elim (later-some (last_part s) _ j h) [
  | inl e ↦
      let (p, q, least) = last_part-some s j e in
      let n = ap size q ∙ size-concat p (concat " / " j) in
      (String.◌∷◌ c p, ap (String.◌∷◌ c) q, λ a r z. shorter c s j p a r n least z)
  | inr (e, f) ↦
      (String.[], without_prefix-some " / " (String.◌∷◌ c s) j f, λ a r z. first c s j a r e f z)
]
  where
    shorter :
        (c : Char) (s j p a r : String)
        → size s ≡ size p + size (concat " / " j)
        → ((q r : String) → s ≡ concat q (concat " / " r) → size j ≤ size r)
        → String.◌∷◌ c s ≡ concat a (concat " / " r)
        → size j ≤ size r
    shorter c s j p String.[] r n least z = let l = ap size z in omega arith
    shorter c s j p (String.◌∷◌ d a) r n least z = least a r (ap rest_of z)

    first :
        (c : Char) (s j a r : String)
        → last_part s ≡ none
        → without_prefix " / " (String.◌∷◌ c s) ≡ some j
        → String.◌∷◌ c s ≡ concat a (concat " / " r)
        → size j ≤ size r
    first c s j String.[] r e f z =
        let same : j ≡ r =
          some-inj (sym f ∙ ap (without_prefix " / ") z ∙ without_prefix-concat " / " r) in
        let l = ap size same in omega arith
    first c s j (String.◌∷◌ d a) r e f z = absurd (last_part-none s e a r (ap rest_of z))

pub bare_key-IsBare : (k : String) → IsBare k (bare_key k)
bare_key-IsBare k =
    elim (last_part k) as (λ o. last_part k ≡ o → IsBare k (elim o [ none ↦ k | some s ↦ s ])) [
      | none ↦ λ h. inr (refl, last_part-none k h)
      | some j ↦ λ h. inl (last_part-some k j h)
    ]
      refl
