-- ===== src/Models/Splits/Gaps.antt =====
-- The shape of the folds of models/splits.py, and the gap between training and test.
use signalattice.Models.Splits.Masks.{has_row, rows_where_lem}
use signalattice.Prelude.{
  List, Option-cases, arith, false, get_elem?, inl, inr, ok, some, suc, zero, ℕ, ◌+◌, ◌<◌, ◌∙◌, ◌≡◌,
  ◌≤◌, subst, true,
}
use signalattice.Models.Splits.{
  Fold, Panel, TimeSeriesSplitter, fold_at, folds_from, is_short, split, test_rows, train_rows,
  is_between, test_start, train_end, train_start,
}

module _ (s : TimeSeriesSplitter) (panel : Panel) where
  -- A fold is the one that some turn of the loop yields.
  pub record YieldedAt (i : ℕ) (fold : Fold) : Type 0 where
    pub is_long : is_short s panel i ≡ false
    pub train_found : fold.train ≡ train_rows s panel i
    pub test_found : fold.test ≡ test_rows s panel i

  pub fold_at-YieldedAt : (i : ℕ) {fold : Fold} → fold_at s panel i ≡ some fold → YieldedAt i fold
  unfolding fold_at
  fold_at-YieldedAt i h = ground arith

  -- The fold at an index of the loop's list comes from a turn that is at least that late.
  pub folds_from-YieldedAt :
      (i turns j : ℕ) {fold : Fold}
      → get_elem? (folds_from s panel i turns) j ≡ some fold
      → (k : ℕ) × (i ≤ k) × (k < i + turns) × YieldedAt k fold
  unfolding folds_from
  folds_from-YieldedAt i zero j h = cc
  folds_from-YieldedAt i (suc turns) zero h = elim (Option-cases (fold_at s panel i)) [
    | inl e ↦
        let (k, l, u, y) = folds_from-YieldedAt (i + 1) turns 0 (rw e at h) in
        (k, omega (arith, l), omega (arith, u), y)
    | inr (f, e) ↦ (i, omega arith, omega arith, fold_at-YieldedAt i (e ∙ rw e at h))
  ]
  folds_from-YieldedAt i (suc turns) (suc j) h = elim (Option-cases (fold_at s panel i)) [
    | inl e ↦
        let (k, l, u, y) = folds_from-YieldedAt (i + 1) turns (suc j) (rw e at h) in
        (k, omega (arith, l), omega (arith, u), y)
    | inr (f, e) ↦
        let (k, l, u, y) = folds_from-YieldedAt (i + 1) turns j (rw e at h) in
        (k, omega (arith, l), omega (arith, u), y)
  ]

  pub split-folds :
      {folds : List Fold} → split s panel ≡ ok folds → folds ≡ folds_from s panel 0 s.n_splits
  unfolding split
  split-folds h = ground arith

  -- What a turn leaves: the bounds of its fold.
  pub bounds_at :
      (i : ℕ)
      → is_short s panel i ≡ false
      → (train_end s panel i + s.embargo ≡ test_start s panel i)
        × (s.min_train_size ≤ train_end s panel i)
  bounds_at i h = ground arith

  train-test-gap :
      (i p q : ℕ)
      → is_short s panel i ≡ false
      → is_between (train_start s panel i) (train_end s panel i) p ≡ true
      → is_between (test_start s panel i) (test_start s panel i + s.test_size) q ≡ true
      → p + s.embargo < q
  train-test-gap i p q h a b =
      let (gap, _) = bounds_at i h in
      let below : p < train_end s panel i = ground arith in
      let above : test_start s panel i ≤ q = ground arith in omega (arith, gap, below, above)

  -- In every fold that `split` yields, each training row's date comes before each test row's date
  -- in the order of the distinct dates, with at least `embargo` dates between them.
  pub split_embargo :
      (j r t : ℕ) {folds : List Fold} {fold : Fold}
      → split s panel ≡ ok folds
      → get_elem? folds j ≡ some fold
      → has_row r fold.train ≡ true
      → has_row t fold.test ≡ true
      → (p : ℕ) × (q : ℕ) × (get_elem? panel.row_positions r ≡ some p)
        × (get_elem? panel.row_positions t ≡ some q)
        × (p + s.embargo < q)
  split_embargo j r t {folds} {fold} h at_j in_train in_test =
      let (i, _, _, y) =
        folds_from-YieldedAt 0 s.n_splits j
          (subst (λ f. get_elem? f j ≡ some fold) (split-folds h) at_j) in
      let (p, at_p, m) =
        rows_where_lem _ r panel.row_positions
          (subst (λ rows. has_row r rows ≡ true) y.train_found in_train) in
      let (q, at_q, n) =
        rows_where_lem _ t panel.row_positions
          (subst (λ rows. has_row t rows ≡ true) y.test_found in_test) in
      (p, q, at_p, at_q, train-test-gap i p q y.is_long m n)
