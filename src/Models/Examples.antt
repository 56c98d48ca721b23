-- ===== src/Models/Examples.antt =====
-- A small panel on which the theorems about the splitter are applied.
use signalattice.Prelude.{
  List, [], arith, err, get_elem?, length, ok, refl, some, suc, ℕ, ◌*◌, ◌+◌, ◌-◌, ◌<◌, ◌∷◌, ◌≡◌,
  ◌≤◌, ◌⊎◌, zero,
}
use signalattice.Models.Splits.{
  Fold, Panel, TimeSeriesSplitter, fold_at, folds_from, get_n_splits, is_between, not_enough_dates,
  rows_where, split,
}
use signalattice.Models.Splits.Masks.{has_row}
use signalattice.Models.Splits.Gaps.{split_embargo}
use signalattice.Models.Splits.Order.{split_windows}
use signalattice.Models.Splits.Count.{split_count}

abbrev rolling : TimeSeriesSplitter
rolling = record {
  scheme = "walk_forward";
  n_splits = 2;
  test_size = 2;
  min_train_size = 2;
  embargo = 1;
}

-- Eight dates; two tickers trade on the fifth.
abbrev eight_dates : Panel
eight_dates = record { n_dates = 8; row_positions = 0 ∷ 1 ∷ 2 ∷ 3 ∷ 4 ∷ 4 ∷ 5 ∷ 6 ∷ 7 ∷ [] }

abbrev first_fold : Fold
first_fold = record { train = 1 ∷ 2 ∷ []; test = 4 ∷ 5 ∷ 6 ∷ [] }

abbrev second_fold : Fold
second_fold = record { train = 3 ∷ 4 ∷ 5 ∷ []; test = 7 ∷ 8 ∷ [] }

eight_dates_folds : split rolling eight_dates ≡ ok (first_fold ∷ second_fold ∷ [])
unfolding split folds_from fold_at rows_where
eight_dates_folds = refl

split_embargo_example :
    (p : ℕ) × (q : ℕ) × (get_elem? eight_dates.row_positions 2 ≡ some p)
    × (get_elem? eight_dates.row_positions 4 ≡ some q)
    × (p + 1 < q)
split_embargo_example =
    split_embargo rolling eight_dates 0 2 4 {fold = first_fold} eight_dates_folds refl refl refl

split_windows_example :
    (from : ℕ) × (to : ℕ) × (start : ℕ) × ((r p : ℕ)
      → get_elem? eight_dates.row_positions r ≡ some p
      → (has_row r second_fold.train ≡ is_between from to p)
        × (has_row r second_fold.test ≡ is_between start (start + 2) p))
    × (to + 1 ≡ start)
    × (start + 2 ≤ 8)
    × (from ≡ to - 2)
    × (2 ≤ to)
split_windows_example =
    split_windows rolling eight_dates 1 {fold = second_fold} eight_dates_folds refl

-- A row of each date.
eight_dates_rows : (p : ℕ) → p < 8 → (r : ℕ) × (get_elem? eight_dates.row_positions r ≡ some p)
eight_dates_rows zero h = (0, refl)
eight_dates_rows (suc zero) h = (1, refl)
eight_dates_rows (suc (suc zero)) h = (2, refl)
eight_dates_rows (suc (suc (suc zero))) h = (3, refl)
eight_dates_rows (suc (suc (suc (suc zero)))) h = (4, refl)
eight_dates_rows (suc (suc (suc (suc (suc zero))))) h = (6, refl)
eight_dates_rows (suc (suc (suc (suc (suc (suc zero)))))) h = (7, refl)
eight_dates_rows (suc (suc (suc (suc (suc (suc (suc zero))))))) h = (8, refl)
eight_dates_rows (suc (suc (suc (suc (suc (suc (suc (suc p)))))))) h = absurd (omega (arith, h))

split_count_example :
    (5 ≤ 8
      → (folds : List Fold) × (split rolling eight_dates ≡ ok folds)
        × (get_n_splits rolling eight_dates ≡ ok (length folds))
        × (1 ≤ length folds)
        × (length folds ≤ 2)
        × (length folds * 2 + 1 + 2 ≤ 8)
        × ((length folds ≡ 2) ⊎ (8 < (length folds + 1) * 2 + 1 + 2)))
    × (8 < 5 → split rolling eight_dates ≡ err not_enough_dates)
split_count_example =
    split_count rolling eight_dates eight_dates_rows (omega arith) (omega arith) (omega arith)
