-- ===== src/Models/Splits/Order.antt =====
-- The folds of models/splits.py come in the order of time, and each moves whole dates.
use signalattice.Prelude.{
  List, Option-cases, ap, arith, false, get_elem?, if◌then◌else◌, inl, inr, ok, refl, some, str_eq,
  subst, suc, true, zero, ℕ, ◌*◌, ◌+◌, ◌-◌, ◌<◌, ◌∙◌, ◌≡◌, ◌≤◌,
}
use signalattice.Models.Splits.{
  Fold, Panel, TimeSeriesSplitter, fold_at, folds_from, is_between, is_short, split, test_start,
  train_end, train_start,
}
use signalattice.Models.Splits.Masks.{has_row, has_row-mask, rows_where_lem}
use signalattice.Models.Splits.Gaps.{
  YieldedAt, bounds_at, fold_at-YieldedAt, folds_from-YieldedAt, split-folds,
}
use native.Mathlib.Nat.{mul-le-mul_right}

module _ (s : TimeSeriesSplitter) (panel : Panel) where
  -- Two turns, the first before the second, that yield these folds.
  record Ordered (first second : Fold) : Type 0 where
    pub earlier : ℕ
    pub later : ℕ
    pub in_order : earlier < later
    pub first_yielded : YieldedAt s panel earlier first
    pub second_yielded : YieldedAt s panel later second

  folds_from-Ordered :
      (i turns j k : ℕ) {first second : Fold}
      → j < k
      → get_elem? (folds_from s panel i turns) j ≡ some first
      → get_elem? (folds_from s panel i turns) k ≡ some second
      → Ordered first second
  unfolding folds_from
  folds_from-Ordered i zero j k l h g = cc
  folds_from-Ordered i (suc turns) j zero l h g = absurd (omega arith)
  folds_from-Ordered i (suc turns) zero (suc k) l h g = elim (Option-cases (fold_at s panel i)) [
    | inl e ↦ folds_from-Ordered (i + 1) turns 0 (suc k) l (rw e at h) (rw e at g)
    | inr (f, e) ↦
        let (at, after, _, y) = folds_from-YieldedAt s panel (i + 1) turns k (rw e at g) in
        record {
          earlier = i;
          later = at;
          in_order = omega (arith, after);
          first_yielded = fold_at-YieldedAt s panel i (e ∙ rw e at h);
          second_yielded = y;
        }
  ]
  folds_from-Ordered i (suc turns) (suc j) (suc k) l h g = elim (Option-cases (fold_at s panel i)) [
    | inl e ↦ folds_from-Ordered (i + 1) turns (suc j) (suc k) l (rw e at h) (rw e at g)
    | inr (f, e) ↦ folds_from-Ordered (i + 1) turns j k (omega arith) (rw e at h) (rw e at g)
  ]

  later_start :
      (i k p q : ℕ)
      → i < k
      → is_short s panel i ≡ false
      → is_between (test_start s panel i) (test_start s panel i + s.test_size) p ≡ true
      → is_between (test_start s panel k) (test_start s panel k + s.test_size) q ≡ true
      → p < q
  later_start i k p q l h a b =
      let step : (i + 1) * s.test_size ≤ k * s.test_size =
        mul-le-mul_right s.test_size (omega (arith, l)) in
      let below : p < test_start s panel i + s.test_size = ground arith in
      let above : test_start s panel k ≤ q = ground arith in
      let long : s.n_splits * s.test_size ≤ panel.n_dates + i * s.test_size = ground arith in
      omega (arith, step, below, above, long)

  -- Of two folds that `split` yields, every test row of the earlier one has a date before that of
  -- every test row of the later one: the test blocks share no row and follow each other in time.
  split_forward :
      (j k r t : ℕ) {folds : List Fold} {first second : Fold}
      → split s panel ≡ ok folds
      → j < k
      → get_elem? folds j ≡ some first
      → get_elem? folds k ≡ some second
      → has_row r first.test ≡ true
      → has_row t second.test ≡ true
      → (p : ℕ) × (q : ℕ) × (get_elem? panel.row_positions r ≡ some p)
        × (get_elem? panel.row_positions t ≡ some q)
        × (p < q)
  split_forward j k r t {folds} {first} {second} h l at_j at_k in_first in_second =
      let o =
        folds_from-Ordered 0 s.n_splits j k l
          (subst (λ f. get_elem? f j ≡ some first) (split-folds s panel h) at_j)
          (subst (λ f. get_elem? f k ≡ some second) (split-folds s panel h) at_k) in
      let (p, at_p, m) =
        rows_where_lem _ r panel.row_positions
          (subst (λ rows. has_row r rows ≡ true) o.first_yielded.test_found in_first) in
      let (q, at_q, n) =
        rows_where_lem _ t panel.row_positions
          (subst (λ rows. has_row t rows ≡ true) o.second_yielded.test_found in_second) in
      (p, q, at_p, at_q, later_start o.earlier o.later p q o.in_order o.first_yielded.is_long m n)

  -- The rows of a fold that `split` yields are the rows of two windows of dates: a test window of
  -- `test_size` dates inside the panel, and a training window that ends `embargo` dates before it and
  -- has `min_train_size` dates, or all dates from the first with the expanding scheme. A row is in
  -- or out by its date alone, so a cross-section never splits.
  pub split_windows :
      (j : ℕ) {folds : List Fold} {fold : Fold}
      → split s panel ≡ ok folds
      → get_elem? folds j ≡ some fold
      → (from : ℕ) × (to : ℕ) × (start : ℕ) × ((r p : ℕ)
          → get_elem? panel.row_positions r ≡ some p
          → (has_row r fold.train ≡ is_between from to p)
            × (has_row r fold.test ≡ is_between start (start + s.test_size) p))
        × (to + s.embargo ≡ start)
        × (start + s.test_size ≤ panel.n_dates)
        × (from ≡ (if str_eq s.scheme "expanding" then 0 else to - s.min_train_size))
        × (s.min_train_size ≤ to)
  split_windows j {folds} {fold} h at_j =
      let (i, _, last_turn, y) =
        folds_from-YieldedAt s panel 0 s.n_splits j
          (subst (λ f. get_elem? f j ≡ some fold) (split-folds s panel h) at_j) in
      let (gap, enough) = bounds_at s panel i y.is_long in
      let inside : (i + 1) * s.test_size ≤ s.n_splits * s.test_size =
        mul-le-mul_right s.test_size (omega (arith, last_turn)) in
      let long : s.n_splits * s.test_size ≤ panel.n_dates + i * s.test_size =
        ground (arith, y.is_long) in
      (
        train_start s panel i,
        train_end s panel i,
        test_start s panel i,
        λ r p at_r. (
          ap (has_row r) y.train_found ∙ has_row-mask _ r panel.row_positions at_r,
          ap (has_row r) y.test_found ∙ has_row-mask _ r panel.row_positions at_r,
        ),
        gap,
        omega (arith, inside, long),
        refl,
        enough,
      )
