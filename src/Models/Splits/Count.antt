-- ===== src/Models/Splits/Count.antt =====
-- How many folds models/splits.py yields.
use signalattice.Prelude.{
  Bool-cases, List, [], ap, arith, false, get_elem?, inl, inr, is_empty, leb, leb→le, length, ltb,
  refl, some, subst, suc, sym, true, zero, ℕ, ◌*◌, ◌+◌, ◌-◌, ◌<◌, ◌∙◌, ◌∷◌, ◌≡◌, ◌≤◌, ◌⊎◌, err, ok,
}
use signalattice.Models.Splits.{
  Fold, Panel, TimeSeriesSplitter, fold_at, folds_from, is_between, is_short, rows_where, test_rows,
  test_start, train_end, train_rows, train_start, get_n_splits, not_enough_dates, split,
}
use signalattice.Models.Splits.Masks.{has_row, has_row-mask}
use signalattice.Models.Splits.Gaps.{bounds_at}
use native.Mathlib.Nat.{mul-le-mul_right}

nonempty : (r : ℕ) (rows : List ℕ) → has_row r rows ≡ true → is_empty rows ≡ false
nonempty r [] h = cc
nonempty r (x ∷ xs) h = refl

module _ (s : TimeSeriesSplitter) (panel : Panel)
    (every_date : (p : ℕ)
      → p < panel.n_dates
      → (r : ℕ) × (get_elem? panel.row_positions r ≡ some p))
    (trains : 1 ≤ s.min_train_size) (tests : 1 ≤ s.test_size) where
  -- A window that holds a date of the panel has a row.
  window-nonempty :
      (from to p : ℕ)
      → p < panel.n_dates
      → from ≤ p
      → p < to
      → is_empty (rows_where (is_between from to) 0 panel.row_positions) ≡ false
  window-nonempty from to p inside after before =
      let (r, at_r) = every_date p inside in
      let admitted : is_between from to p ≡ true = ground arith in
      nonempty r _ (has_row-mask (is_between from to) r panel.row_positions at_r ∙ admitted)

  -- A turn that is not short yields a fold.
  yields :
      (i : ℕ)
      → i < s.n_splits
      → is_short s panel i ≡ false
      → (fold : Fold) × (fold_at s panel i ≡ some fold)
  unfolding fold_at
  yields i l h =
      let (gap, enough) = bounds_at s panel i h in
      let inside : (i + 1) * s.test_size ≤ s.n_splits * s.test_size =
        mul-le-mul_right s.test_size (omega (arith, l)) in
      let long : s.n_splits * s.test_size ≤ panel.n_dates + i * s.test_size = ground arith in
      let begins : train_start s panel i ≤ train_end s panel i - 1 = ground arith in
      let test_inside : test_start s panel i < panel.n_dates = omega (arith, inside, long, tests) in
      let train_full : is_empty (train_rows s panel i) ≡ false =
        window-nonempty (train_start s panel i) (train_end s panel i) (train_end s panel i - 1)
          (omega (arith, gap, enough, trains, test_inside)) begins
          (omega (arith, enough, trains)) in
      let test_full : is_empty (test_rows s panel i) ≡ false =
        window-nonempty (test_start s panel i) (test_start s panel i + s.test_size)
          (test_start s panel i) test_inside (omega arith) (omega (arith, tests)) in
      (
        record { train = train_rows s panel i; test = test_rows s panel i },
        rw (h, train_full, test_full) refl,
      )

  -- The dates that `k` test blocks, the embargo and the least training window need.
  abbrev pub needed : ℕ → ℕ
  needed k = k * s.test_size + s.embargo + s.min_train_size

  needed_mono : (j k : ℕ) → j ≤ k → needed j ≤ needed k
  needed_mono j k l = omega (arith, mul-le-mul_right {m = j} {n = k} s.test_size l)

  -- A turn is short exactly if the blocks from it on do not fit.
  is_short-needed :
      (i turns : ℕ) → i + turns ≡ s.n_splits → is_short s panel i ≡ ltb panel.n_dates (needed turns)
  is_short-needed i turns e =
      let sum : i * s.test_size + turns * s.test_size ≡ s.n_splits * s.test_size =
        omega (arith, ap (λ m. m * s.test_size) e) in
      ground arith

  record Counted (turns k : ℕ) : Type 0 where
    pub at_most : k ≤ turns
    pub fitting : needed k ≤ panel.n_dates
    pub maximal : (k ≡ turns) ⊎ (panel.n_dates < needed (k + 1))

  count-step-long :
      (turns k : ℕ)
      → needed (suc turns) ≤ panel.n_dates
      → Counted turns k
      → Counted (suc turns) (suc k)
  count-step-long turns k fits c =
      let all_turns : k ≡ turns = elim c.maximal [
        | inl e ↦ e
        | inr l ↦ elim (Bool-cases (leb turns k)) [
          | inl b ↦ omega (arith, leb→le turns k b, c.at_most)
          | inr b ↦
              absurd
                (omega (arith, l, fits, needed_mono (k + 1) (suc turns) (omega (arith, c.at_most))))
        ]
      ] in
      record {
        at_most = omega (arith, c.at_most);
        fitting = subst (λ m. needed (suc m) ≤ panel.n_dates) (sym all_turns) fits;
        maximal = inl (ap suc all_turns);
      }

  count-step-short :
      (turns k : ℕ) → panel.n_dates < needed (suc turns) → Counted turns k → Counted (suc turns) k
  count-step-short turns k short c = record {
    at_most = omega (arith, c.at_most);
    fitting = c.fitting;
    maximal =
        inr (elim c.maximal [
          | inl e ↦ omega (arith, short, ap (λ m. m * s.test_size) e)
          | inr l ↦ l
        ]);
  }

  -- One turn of the loop, when the rest has been counted.
  count-turn :
      (i turns : ℕ)
      → i + suc turns ≡ s.n_splits
      → Counted turns (length (folds_from s panel (i + 1) turns))
      → Counted (suc turns) (length (folds_from s panel i (suc turns)))
  unfolding folds_from fold_at
  count-turn i turns e c = elim (Bool-cases (is_short s panel i)) [
    | inl b ↦
        let short = sym (is_short-needed i (suc turns) e) ∙ b in
        rw b (count-step-short turns _ (ground arith) c)
    | inr b ↦
        let long = sym (is_short-needed i (suc turns) e) ∙ b in
        let (fold, y) = yields i (omega (arith, e)) b in
        rw y (count-step-long turns _ (ground arith) c)
  ]

  length-folds_from :
      (i turns : ℕ)
      → i + turns ≡ s.n_splits
      → needed 0 ≤ panel.n_dates
      → Counted turns (length (folds_from s panel i turns))
  unfolding folds_from
  length-folds_from i zero e fits = record {
    at_most = omega arith;
    fitting = fits;
    maximal = inl refl;
  }
  length-folds_from i (suc turns) e fits =
      count-turn i turns e (length-folds_from (i + 1) turns (omega (arith, e)) fits)

  some_folds : (folds : List Fold) → 1 ≤ length folds → is_empty folds ≡ false
  some_folds [] h = absurd (omega arith)
  some_folds (f ∷ folds) h = refl

  at_least_one : (k : ℕ) → Counted s.n_splits k → needed 1 ≤ panel.n_dates → 1 ≤ s.n_splits → 1 ≤ k
  at_least_one zero c fits splits = elim c.maximal [
    | inl e ↦ omega (arith, e, splits)
    | inr l ↦ absurd (omega (arith, l, fits))
  ]
  at_least_one (suc k) c fits splits = omega arith

  -- If every date of the panel has a row and there are dates for one fold, then `split` does not
  -- raise, `get_n_splits` is the number of its folds, and that number is the greatest up to
  -- `n_splits` whose test blocks fit behind the embargo and one training window; with fewer dates
  -- it raises. The sizes are at least 1.
  pub split_count :
      1 ≤ s.n_splits
      → (needed 1 ≤ panel.n_dates
          → (folds : List Fold) × (split s panel ≡ ok folds)
            × (get_n_splits s panel ≡ ok (length folds))
            × (1 ≤ length folds)
            × (length folds ≤ s.n_splits)
            × (needed (length folds) ≤ panel.n_dates)
            × ((length folds ≡ s.n_splits) ⊎ (panel.n_dates < needed (length folds + 1))))
        × (panel.n_dates < needed 1 → split s panel ≡ err not_enough_dates)
  unfolding split get_n_splits
  split_count splits = (enough, λ few. ground arith)
    where
      enough :
          needed 1 ≤ panel.n_dates
          → (folds : List Fold) × (split s panel ≡ ok folds)
            × (get_n_splits s panel ≡ ok (length folds))
            × (1 ≤ length folds)
            × (length folds ≤ s.n_splits)
            × (needed (length folds) ≤ panel.n_dates)
            × ((length folds ≡ s.n_splits) ⊎ (panel.n_dates < needed (length folds + 1)))
      enough fits =
          let folds = folds_from s panel 0 s.n_splits in
          let c = length-folds_from 0 s.n_splits (omega arith) (omega (arith, fits)) in
          let one = at_least_one (length folds) c fits splits in
          let full : is_empty folds ≡ false = some_folds folds one in
          let room : ltb panel.n_dates (s.test_size + s.min_train_size + s.embargo) ≡ false =
            ground (arith, fits) in
          (folds, rw (room, full) refl, rw (room, full) refl, one, c.at_most, c.fitting, c.maximal)
