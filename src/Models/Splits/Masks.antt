-- ===== src/Models/Splits/Masks.antt =====
-- The rows that a mask of models/splits.py selects.
use signalattice.Prelude.{
  Bool, Bool-cases, List, [], any, arith, get_elem?, inl, inr, some, suc, true, zero, ℕ, ◌&&◌, ◌+◌,
  ◌-◌, ◌==◌, ◌∷◌, ◌≡◌, ◌≤◌, subst, ==_iff, refl, some-eq, sym, ◌∙◌,
}
use signalattice.Models.Splits.{rows_where}

abbrev pub has_row : ℕ → List ℕ → Bool
has_row r rows = any (λ x. x == r) rows

-- A selected row has a position that the mask admits.
rows_where_from :
    (mask : ℕ → Bool) (k r : ℕ) (positions : List ℕ)
    → has_row r (rows_where mask k positions) ≡ true
    → (k ≤ r) × ((p : ℕ) × (get_elem? positions (r - k) ≡ some p) × (mask p ≡ true))
unfolding rows_where
rows_where_from mask k r [] h = cc
rows_where_from mask k r (p ∷ ps) h = elim (Bool-cases (mask p && k == r)) [
  | inl e ↦
      let none_before : r - k ≡ 0 = ground (arith, ==_iff k r) in
      (ground arith, (p, rw none_before refl, ground arith))
  | inr e ↦
      let (le, (q, at_q, m)) = rows_where_from mask (k + 1) r ps (ground arith) in
      let shift : r - k ≡ suc (r - (k + 1)) = omega (arith, le) in
      (omega (arith, le), (q, rw shift at_q, m))
]

pub rows_where_lem :
    (mask : ℕ → Bool) (r : ℕ) (positions : List ℕ)
    → has_row r (rows_where mask 0 positions) ≡ true
    → (p : ℕ) × (get_elem? positions r ≡ some p) × (mask p ≡ true)
rows_where_lem mask r positions h =
    subst (λ j. (p : ℕ) × (get_elem? positions j ≡ some p) × (mask p ≡ true)) minus_zero
      (rows_where_from mask 0 r positions h).1
  where
    minus_zero : r - 0 ≡ r
    minus_zero = omega arith

-- A row whose position the mask admits is selected.
pub has_row-rows_where :
    (mask : ℕ → Bool) (k r : ℕ) (positions : List ℕ) {p : ℕ}
    → get_elem? positions r ≡ some p
    → mask p ≡ true
    → has_row (k + r) (rows_where mask k positions) ≡ true
unfolding rows_where
has_row-rows_where mask k r [] h m = cc
has_row-rows_where mask k zero (q ∷ ps) h m = ground arith
has_row-rows_where mask k (suc r) (q ∷ ps) {p} h m =
    ground (arith, has_row-rows_where mask (k + 1) r ps {p = p} h m)

-- Whether a row is selected is what the mask says of its position.
pub has_row-mask :
    (mask : ℕ → Bool) (r : ℕ) (positions : List ℕ) {p : ℕ}
    → get_elem? positions r ≡ some p
    → has_row r (rows_where mask 0 positions) ≡ mask p
has_row-mask mask r positions {p} h = elim (Bool-cases (mask p)) [
  | inl m ↦
      let from_start : 0 + r ≡ r = omega arith in
      subst (λ x. has_row x (rows_where mask 0 positions) ≡ true) from_start
        (has_row-rows_where mask 0 r positions h m)
      ∙ sym m
  | inr m ↦ elim (Bool-cases (has_row r (rows_where mask 0 positions))) [
    | inl b ↦ let (q, at_q, n) = rows_where_lem mask r positions b in cc (some-eq (sym h ∙ at_q), n)
    | inr b ↦ b ∙ sym m
  ]
]
