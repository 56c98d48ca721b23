-- ===== src/Models/Splits.antt =====
-- src/quant_platform/models/splits.py: forward-chaining folds over the dates of a panel. The sizes
-- are natural numbers. Of the dates, a fold depends only on how many distinct ones there are and on
-- the place of each row's date among them in order; numpy and pandas compute these (`Panel`).
pub mod Masks
pub mod Gaps
pub mod Order
pub mod Count
use signalattice.Prelude.{
  Bool, List, Option, Result, String, [], if◌then◌else◌, is_empty, leb, length, ltb, none, ok,
  refuse, require, some, str_eq, suc, zero, ℕ, ◌&&◌, ◌*◌, ◌+◌, ◌-◌, ◌>>=◌, ◌>>◌, ◌||◌, ◌∷◌,
}

pub data SplitError : Type 0 where
  unknown_scheme bad_n_splits bad_test_size not_enough_dates no_valid_folds : SplitError

pub record TimeSeriesSplitter : Type 0 where
  pub scheme : String
  pub n_splits : ℕ
  pub test_size : ℕ
  pub min_train_size : ℕ
  pub embargo : ℕ

-- `TimeSeriesSplitter.__post_init__`.
unfoldable pub check_splitter : TimeSeriesSplitter → Result SplitError TimeSeriesSplitter
check_splitter s = do
  require (str_eq s.scheme "expanding" || str_eq s.scheme "walk_forward") unknown_scheme
  refuse (ltb s.n_splits 1) bad_n_splits
  refuse (ltb s.test_size 1) bad_test_size
  ok s

-- `len(unique_dates)` and `row_pos`.
pub record Panel : Type 0 where
  pub n_dates : ℕ
  pub row_positions : List ℕ

pub record Fold : Type 0 where
  pub train : List ℕ
  pub test : List ℕ

-- `(row_pos >= start) & (row_pos < end)`.
abbrev pub is_between : ℕ → ℕ → ℕ → Bool
is_between start end position = leb start position && ltb position end

-- `np.where(mask)[0]`, the first entry being row `k`.
unfoldable pub rows_where : (ℕ → Bool) → ℕ → List ℕ → List ℕ
rows_where mask k [] = []
rows_where mask k (position ∷ positions) =
    let rest = rows_where mask (k + 1) positions in if mask position then k ∷ rest else rest

module _ (s : TimeSeriesSplitter) (panel : Panel) where
  -- `test_start`, where it is not negative.
  abbrev pub test_start : ℕ → ℕ
  test_start i = panel.n_dates + i * s.test_size - s.n_splits * s.test_size

  abbrev pub train_end : ℕ → ℕ
  train_end i = test_start i - s.embargo

  abbrev pub train_start : ℕ → ℕ
  train_start i = if str_eq s.scheme "expanding" then 0 else train_end i - s.min_train_size

  -- `train_end < self.min_train_size`, with the subtracted terms on the other side.
  abbrev pub is_short : ℕ → Bool
  is_short i =
      ltb (panel.n_dates + i * s.test_size)
        (s.n_splits * s.test_size + s.embargo + s.min_train_size)

  abbrev pub train_rows : ℕ → List ℕ
  train_rows i = rows_where (is_between (train_start i) (train_end i)) 0 panel.row_positions

  abbrev pub test_rows : ℕ → List ℕ
  test_rows i =
      rows_where (is_between (test_start i) (test_start i + s.test_size)) 0 panel.row_positions

  -- One turn of the loop: the fold that it yields, if it does not continue.
  unfoldable pub fold_at : ℕ → Option Fold
  fold_at i =
      if is_short i
      then none
      else if is_empty (train_rows i) || is_empty (test_rows i)
      then none
      else some (record { train = train_rows i; test = test_rows i })

  abbrev pub with_fold : Option Fold → List Fold → List Fold
  with_fold none folds = folds
  with_fold (some fold) folds = fold ∷ folds

  -- The loop, at an index and with the number of turns left.
  unfoldable pub folds_from : ℕ → ℕ → List Fold
  unfolding fold_at
  folds_from i zero = []
  folds_from i (suc turns) = with_fold (fold_at i) (folds_from (i + 1) turns)

  -- `split`, taken to its end.
  unfoldable pub split : Result SplitError (List Fold)
  split = do
    refuse (ltb panel.n_dates (s.test_size + s.min_train_size + s.embargo)) not_enough_dates
    let folds = folds_from 0 s.n_splits
    refuse (is_empty folds) no_valid_folds
    ok folds

  unfoldable pub get_n_splits : Result SplitError ℕ
  unfolding split
  get_n_splits = do folds ← split; ok (length folds)
