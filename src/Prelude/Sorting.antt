-- ===== src/Prelude/Sorting.antt =====
-- `sorted`: the order of entries that the comparison does not tell apart is kept.
use Prim.Native.Nat.{ℕ, suc}
use mathlib.Core.Path.{◌≡◌, refl, ap, ◌∙◌}
use mathlib.Core.Logic.{inl, inr}
use mathlib.Core.Bool.{Bool, true, false, ◌&&◌, ◌||◌}
use mathlib.Core.List.{List, [], ◌∷◌, map}
use native.Mathlib.Omega.{arith}
use signalattice.Prelude.Tests.{Bool-cases, if◌then◌else◌, ltb, ◌==◌}
use signalattice.Prelude.Lists.{All, In, all, length}

-- Texts, as their code points, are ordered lexicographically.
unfoldable pub leb_codes : List ℕ → List ℕ → Bool
leb_codes [] ds = true
leb_codes (c ∷ cs) [] = false
leb_codes (c ∷ cs) (d ∷ ds) = let rest = leb_codes cs ds in ltb c d || (c == d && rest)

module _ {ℓ} {A : Type ℓ} (is_before : A → A → Bool) where
  abbrev pub insert_sorted : A → List A → List A
  insert_sorted x [] = x ∷ []
  insert_sorted x (y ∷ ys) = if is_before x y then x ∷ y ∷ ys else y ∷ insert_sorted x ys

  unfoldable pub sorted : List A → List A
  sorted [] = []
  sorted (x ∷ xs) = insert_sorted x (sorted xs)

  all-insert_sorted :
      (p : A → Bool) (x : A) (xs : List A)
      → p x ≡ true
      → all p xs ≡ true
      → all p (insert_sorted x xs) ≡ true
  all-insert_sorted p x [] h a = ground arith
  all-insert_sorted p x (y ∷ ys) h a = ground (arith, all-insert_sorted p x ys h (ground arith))

  -- What holds of every entry holds of every entry of the sorted list.
  pub all-sorted : (p : A → Bool) (xs : List A) → all p xs ≡ true → all p (sorted xs) ≡ true
  unfolding sorted
  all-sorted p [] a = refl
  all-sorted p (x ∷ xs) a =
      all-insert_sorted p x (sorted xs) (ground arith) (all-sorted p xs (ground arith))

  all-insert_sorted_eq :
      (p : A → Bool) (x : A) (xs : List A) → all p (insert_sorted x xs) ≡ (p x && all p xs)
  all-insert_sorted_eq p x [] = refl
  all-insert_sorted_eq p x (y ∷ ys) = ground (arith, all-insert_sorted_eq p x ys)

  pub all-sorted_eq : (p : A → Bool) (xs : List A) → all p (sorted xs) ≡ all p xs
  unfolding sorted
  all-sorted_eq p [] = refl
  all-sorted_eq p (x ∷ xs) =
      ground (arith, all-insert_sorted_eq p x (sorted xs), all-sorted_eq p xs)

  All-insert_sorted {κ} :
      (P : A → Type κ) (x : A) (xs : List A) → P x → All P xs → All P (insert_sorted x xs)
  All-insert_sorted P x [] h k = (h, tt)
  All-insert_sorted P x (y ∷ ys) h k = elim (Bool-cases (is_before x y)) [
    | inl b ↦ rw b (h, k)
    | inr b ↦ rw b (k.0, All-insert_sorted P x ys h k.1)
  ]

  pub All-sorted {κ} : (P : A → Type κ) (xs : List A) → All P xs → All P (sorted xs)
  unfolding sorted
  All-sorted P [] h = tt
  All-sorted P (x ∷ xs) h = All-insert_sorted P x (sorted xs) h.0 (All-sorted P xs h.1)

  length-insert_sorted : (x : A) (xs : List A) → length (insert_sorted x xs) ≡ suc (length xs)
  length-insert_sorted x [] = refl
  length-insert_sorted x (y ∷ ys) = ground (arith, length-insert_sorted x ys)

  pub length-sorted : (xs : List A) → length (sorted xs) ≡ length xs
  unfolding sorted
  length-sorted [] = refl
  length-sorted (x ∷ xs) = omega (arith, length-insert_sorted x (sorted xs), length-sorted xs)

module _ {A : Type 0} (is_before : A → A → Bool) where
  insert_sorted-In : (x z : A) (xs : List A) → In z (x ∷ xs) → In z (insert_sorted is_before x xs)
  insert_sorted-In x z [] i = i
  insert_sorted-In x z (y ∷ ys) (inl e) = elim (Bool-cases (is_before x y)) [
    | inl b ↦ rw b (inl e)
    | inr b ↦ rw b (inr (insert_sorted-In x z ys (inl e)))
  ]
  insert_sorted-In x z (y ∷ ys) (inr (inl e)) = elim (Bool-cases (is_before x y)) [
    | inl b ↦ rw b (inr (inl e))
    | inr b ↦ rw b (inl e)
  ]
  insert_sorted-In x z (y ∷ ys) (inr (inr j)) = elim (Bool-cases (is_before x y)) [
    | inl b ↦ rw b (inr (inr j))
    | inr b ↦ rw b (inr (insert_sorted-In x z ys (inr j)))
  ]

  pub sorted-In : (z : A) (xs : List A) → In z xs → In z (sorted is_before xs)
  unfolding sorted
  sorted-In z [] i = i
  sorted-In z (x ∷ xs) (inl e) = insert_sorted-In x z (sorted is_before xs) (inl e)
  sorted-In z (x ∷ xs) (inr j) = insert_sorted-In x z (sorted is_before xs) (inr (sorted-In z xs j))

-- A function that keeps what the comparison sees.
module _ {ℓ κ} {A : Type ℓ} {B : Type κ} (before : A → A → Bool) (after : B → B → Bool) (f : A → B)
    (same : (a b : A) → after (f a) (f b) ≡ before a b) where
  map-insert_sorted :
      (x : A) (xs : List A)
      → map f (insert_sorted before x xs) ≡ insert_sorted after (f x) (map f xs)
  map-insert_sorted x [] = refl
  map-insert_sorted x (y ∷ ys) = elim (Bool-cases (before x y)) [
    | inl b ↦ rw (same x y, b) refl
    | inr b ↦ rw (same x y, b) (ap (λ zs. f y ∷ zs) (map-insert_sorted x ys))
  ]

  pub map-sorted : (xs : List A) → map f (sorted before xs) ≡ sorted after (map f xs)
  unfolding sorted
  map-sorted [] = refl
  map-sorted (x ∷ xs) =
      map-insert_sorted x (sorted before xs) ∙ ap (insert_sorted after (f x)) (map-sorted xs)
