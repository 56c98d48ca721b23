-- ===== src/Prelude/Orders.antt =====
-- Lists in which every entry stands before all later ones, and the order of texts.
use Prim.Native.Nat.{ℕ}
use Prim.Native.Char.{code}
use Prim.Native.String.{String}
use mathlib.Core.Path.{◌≡◌, refl, ap, ◌∙◌}
use mathlib.Core.Logic.{inl, inr}
use mathlib.Core.Bool.{Bool, true, false}
use mathlib.Core.List.{List, [], ◌∷◌}
use native.Mathlib.Omega.{arith}
use text.Mathlib.TextEquality.{Char-path}
use signalattice.Prelude.Tests.{Bool-cases}
use signalattice.Prelude.Lists.{filter, All, In, All-In, All-lookup, All-map}
use signalattice.Prelude.Sorting.{All-sorted, leb_codes, sorted, insert_sorted}
use signalattice.Prelude.Text.{codes}

pub All-filter {ℓ} :
    {A : Type 0} (P : A → Type ℓ) (p : A → Bool) (xs : List A) → All P xs → All P (filter p xs)
All-filter P p [] h = tt
All-filter P p (x ∷ xs) h = elim (Bool-cases (p x)) [
  | inl b ↦ rw b (h.0, All-filter P p xs h.1)
  | inr b ↦ rw b (All-filter P p xs h.1)
]

module _ {A : Type 0} where
  pub In-filter : (p : A → Bool) (xs : List A) (x : A) → In x (filter p xs) → In x xs × (p x ≡ true)
  In-filter p (y ∷ ys) x i = elim (Bool-cases (p y)) [
    | inl b ↦ elim (rw b at i) [
      | inl e ↦ (inl e, ap p e ∙ b)
      | inr j ↦ let (k, h) = In-filter p ys x j in (inr k, h)
    ]
    | inr b ↦ let (k, h) = In-filter p ys x (rw b at i) in (inr k, h)
  ]
  In-filter p [] x i = absurd i

  pub In-sorted : (before : A → A → Bool) (xs : List A) (x : A) → In x (sorted before xs) → In x xs
  In-sorted before xs x i =
      All-lookup (λ y. In y xs) (sorted before xs) x
        (All-sorted before (λ y. In y xs) xs (All-In xs)) i

  module _ (R : A → A → Type 0) where
    -- Every entry is before all later ones.
    abbrev pub Ordered : List A → Type 0
    Ordered [] = Unit
    Ordered (x ∷ xs) = All (R x) xs × Ordered xs

    pub Ordered-filter : (p : A → Bool) (xs : List A) → Ordered xs → Ordered (filter p xs)
    Ordered-filter p [] h = tt
    Ordered-filter p (x ∷ xs) h = elim (Bool-cases (p x)) [
      | inl b ↦ rw b (All-filter (R x) p xs h.0, Ordered-filter p xs h.1)
      | inr b ↦ rw b (Ordered-filter p xs h.1)
    ]

    module _ (before : A → A → Bool) (yes : (a b : A) → before a b ≡ true → R a b)
        (no : (a b : A) → before a b ≡ false → R b a)
        (trans : (a b c : A) → R a b → R b c → R a c) where
      All-insert :
          (x y : A) (ys : List A) → R y x → All (R y) ys → All (R y) (insert_sorted before x ys)
      All-insert x y [] h k = (h, tt)
      All-insert x y (z ∷ zs) h k = elim (Bool-cases (before x z)) [
        | inl b ↦ rw b (h, k)
        | inr b ↦ rw b (k.0, All-insert x y zs h k.1)
      ]

      Ordered-insert : (x : A) (ys : List A) → Ordered ys → Ordered (insert_sorted before x ys)
      Ordered-insert x [] h = (tt, tt)
      Ordered-insert x (y ∷ ys) h = elim (Bool-cases (before x y)) [
        | inl b ↦
            rw b ((yes x y b, All-map (R y) (R x) (λ z k. trans x y z (yes x y b) k) ys h.0), h)
        | inr b ↦ rw b (All-insert x y ys (no x y b) h.0, Ordered-insert x ys h.1)
      ]

      -- Sorting by a test that decides a transitive relation one way or the other.
      pub sorted-Ordered : (xs : List A) → Ordered (sorted before xs)
      unfolding sorted
      sorted-Ordered [] = tt
      sorted-Ordered (x ∷ xs) = Ordered-insert x (sorted before xs) (sorted-Ordered xs)

pub leb_codes-total : (cs ds : List ℕ) → leb_codes cs ds ≡ false → leb_codes ds cs ≡ true
unfolding leb_codes
leb_codes-total [] ds h = cc
leb_codes-total (c ∷ cs) [] h = refl
leb_codes-total (c ∷ cs) (d ∷ ds) h = ground (arith, h, leb_codes-total cs ds)

pub leb_codes_trans :
    (cs ds es : List ℕ) → leb_codes cs ds ≡ true → leb_codes ds es ≡ true → leb_codes cs es ≡ true
unfolding leb_codes
leb_codes_trans [] ds es h k = refl
leb_codes_trans (c ∷ cs) [] es h k = cc
leb_codes_trans (c ∷ cs) (d ∷ ds) [] h k = cc
leb_codes_trans (c ∷ cs) (d ∷ ds) (e ∷ es) h k = ground (arith, h, k, leb_codes_trans cs ds es)

leb_codes-same :
    (c d : ℕ) (cs ds : List ℕ)
    → leb_codes (c ∷ cs) (d ∷ ds) ≡ true
    → leb_codes (d ∷ ds) (c ∷ cs) ≡ true
    → (c ≡ d) × (leb_codes cs ds ≡ true) × (leb_codes ds cs ≡ true)
unfolding leb_codes
leb_codes-same c d cs ds h k = (ground (arith, h, k), ground (arith, h, k), ground (arith, h, k))

pub codes-antisym :
    (a b : String)
    → leb_codes (codes a) (codes b) ≡ true
    → leb_codes (codes b) (codes a) ≡ true
    → a ≡ b
unfolding leb_codes
codes-antisym String.[] String.[] h k = refl
codes-antisym String.[] (String.◌∷◌ d t) h k = cc
codes-antisym (String.◌∷◌ c s) String.[] h k = cc
codes-antisym (String.◌∷◌ c s) (String.◌∷◌ d t) h k =
    let (e, l, r) = leb_codes-same (code c) (code d) (codes s) (codes t) h k in
    let heads = Char-path c d e in
    let tails = codes-antisym s t l r in λ i. String.◌∷◌ (heads i) (tails i)
