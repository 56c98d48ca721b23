-- ===== src/Prelude/Lists.antt =====
-- Lists measured by native numbers, under the library's names.
use signalattice.Prelude.Tests.{Bool-cases, if◌then◌else◌, some-eq}
use Prim.Native.Nat.{ℕ, zero, suc, ◌+◌}
use mathlib.Core.Path.{◌≡◌, refl, sym, subst, ap, ◌∙◌}
use mathlib.Core.Logic.{◌⊎◌, inl, inr}
use mathlib.Core.Bool.{Bool, true, false, ◌&&◌, ◌||◌, not}
use mathlib.Core.List.{List, [], ◌∷◌, ◌++◌, map}
use mathlib.Core.Option.{Option, none, some}
use native.Mathlib.Omega.{arith}

module _ {ℓ} {A : Type ℓ} where
  abbrev pub length : List A → ℕ
  length [] = 0
  length (x ∷ xs) = suc (length xs)

  pub length-append : (xs ys : List A) → length (xs ++ ys) ≡ length xs + length ys
  length-append [] ys = omega arith
  length-append (x ∷ xs) ys = omega (arith, length-append xs ys)

  abbrev pub any : (A → Bool) → List A → Bool
  any p [] = false
  any p (x ∷ xs) = p x || any p xs

  abbrev pub all : (A → Bool) → List A → Bool
  all p [] = true
  all p (x ∷ xs) = p x && all p xs

  -- The first entry that passes a test.
  abbrev pub find : (A → Bool) → List A → Option A
  find p [] = none
  find p (x ∷ xs) = if p x then some x else find p xs

  abbrev pub last : List A → Option A
  last [] = none
  last (x ∷ []) = some x
  last (x ∷ y ∷ xs) = last (y ∷ xs)

  pub last-cons : (x : A) (xs : List A) → (y : A) × (last (x ∷ xs) ≡ some y)
  last-cons x [] = (x, refl)
  last-cons x (y ∷ xs) = last-cons y xs

  abbrev pub is_empty : List A → Bool
  is_empty [] = true
  is_empty (x ∷ xs) = false

  abbrev pub get_elem? : List A → ℕ → Option A
  get_elem? [] i = none
  get_elem? (x ∷ xs) zero = some x
  get_elem? (x ∷ xs) (suc i) = get_elem? xs i

  -- The entries that pass a test, in order.
  abbrev pub filter : (A → Bool) → List A → List A
  filter p [] = []
  filter p (x ∷ xs) = if p x then x ∷ filter p xs else filter p xs

  pub filter-append :
      (p : A → Bool) (xs ys : List A) → filter p (xs ++ ys) ≡ filter p xs ++ filter p ys
  filter-append p [] ys = refl
  filter-append p (x ∷ xs) ys = ground (arith, filter-append p xs ys)

  pub filter-append_kept :
      (p : A → Bool) (xs : List A) (x : A)
      → p x ≡ true
      → filter p (xs ++ x ∷ []) ≡ filter p xs ++ x ∷ []
  filter-append_kept p xs x h = ground (arith, filter-append p xs (x ∷ []))

  pub filter-append_dropped :
      (p : A → Bool) (xs : List A) (x : A) → p x ≡ false → filter p (xs ++ x ∷ []) ≡ filter p xs
  filter-append_dropped p [] x h = ground arith
  filter-append_dropped p (y ∷ ys) x h = ground (arith, filter-append_dropped p ys x h)

  -- No two entries are the same for a test.
  abbrev pub distinct : (A → A → Bool) → List A → Bool
  distinct same [] = true
  distinct same (x ∷ xs) = not (any (same x) xs) && distinct same xs

  pub all-true : (xs : List A) → all (λ x. true) xs ≡ true
  all-true [] = refl
  all-true (x ∷ xs) = all-true xs

  -- A test that a weaker one follows from.
  pub all_mono :
      (p q : A → Bool)
      → ((x : A) → p x ≡ true → q x ≡ true)
      → (xs : List A) → all p xs ≡ true
      → all q xs ≡ true
  all_mono p q f [] a = refl
  all_mono p q f (x ∷ xs) a = ground (arith, f x, all_mono p q f xs)

  -- Every entry has a property.
  abbrev pub All {κ} : (A → Type κ) → List A → Type κ
  All P [] = Unit
  All P (x ∷ xs) = P x × All P xs

  pub All-append {κ} : (P : A → Type κ) (xs ys : List A) → All P xs → All P ys → All P (xs ++ ys)
  All-append P [] ys h k = k
  All-append P (x ∷ xs) ys h k = (h.0, All-append P xs ys h.1 k)

  pub All-map {κ ρ} :
      (P : A → Type κ) (Q : A → Type ρ)
      → ((x : A) → P x → Q x)
      → (xs : List A) → All P xs
      → All Q xs
  All-map P Q f [] h = tt
  All-map P Q f (x ∷ xs) h = (f x h.0, All-map P Q f xs h.1)

module _ {A : Type 0} where
  -- An entry is in a list.
  abbrev pub In : A → List A → Type 0
  In x [] = ⊥
  In x (y ∷ ys) = (x ≡ y) ⊎ In x ys

  pub All-In : (xs : List A) → All (λ x. In x xs) xs
  All-In [] = tt
  All-In (x ∷ xs) =
      (inl refl, All-map (λ y. In y xs) (λ y. In y (x ∷ xs)) (λ y i. inr i) xs (All-In xs))

  pub find-In : (p : A → Bool) (xs : List A) (x : A) → find p xs ≡ some x → In x xs × (p x ≡ true)
  find-In p [] x h = cc
  find-In p (y ∷ ys) x h = elim (Bool-cases (p y)) [
    | inl b ↦ let e = some-eq (rw b at h) in (inl (sym e), subst (λ z. p z ≡ true) e b)
    | inr b ↦ let (i, q) = find-In p ys x (rw b at h) in (inr i, q)
  ]

  pub find-any : (p : A → Bool) (xs : List A) (x : A) → find p xs ≡ some x → any p xs ≡ true
  find-any p [] x h = cc
  find-any p (y ∷ ys) x h = ground (arith, find-any p ys x)

  pub find-none-any : (p : A → Bool) (xs : List A) → find p xs ≡ none → any p xs ≡ false
  find-none-any p [] h = refl
  find-none-any p (x ∷ xs) h = ground (arith, find-none-any p xs)

module _ {A B : Type 0} where
  pub map-In : (f : A → B) (xs : List A) (x : A) → In x xs → In (f x) (map f xs)
  map-In f [] x i = i
  map-In f (y ∷ ys) x (inl e) = inl (ap f e)
  map-In f (y ∷ ys) x (inr i) = inr (map-In f ys x i)

module _ {A : Type 0} where
  pub filter-In : (p : A → Bool) (xs : List A) (x : A) → In x xs → p x ≡ true → In x (filter p xs)
  filter-In p [] x i h = i
  filter-In p (y ∷ ys) x (inl e) h = rw (sym (ap p e) ∙ h) (inl e)
  filter-In p (y ∷ ys) x (inr j) h = elim (Bool-cases (p y)) [
    | inl b ↦ rw b (inr (filter-In p ys x j h))
    | inr b ↦ rw b (filter-In p ys x j h)
  ]

  -- An entry of a list whose entries all have a property.
  pub All-lookup {κ} : (P : A → Type κ) (xs : List A) (x : A) → All P xs → In x xs → P x
  All-lookup P [] x h i = absurd i
  All-lookup P (y ∷ ys) x h (inl e) = subst P (sym e) h.0
  All-lookup P (y ∷ ys) x h (inr j) = All-lookup P ys x h.1 j
