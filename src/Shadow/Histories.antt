-- ===== src/Shadow/Histories.antt =====
-- The history of a forecast's label that `load_outcomes` of shadow/store.py returns.
use signalattice.Prelude.{
  All, Bool, Bool-cases, In, In-filter, In-sorted, List, Ordered, Ordered-filter, String, [], any,
  ap, arith, codes, codes-antisym, eq_iff, false, filter, filter-In, inl, inr, leb_codes,
  leb_codes-total, leb_codes_trans, leb_ℤ, length, length-sorted, ok, refl, sorted, sorted-In,
  sorted-Ordered, str_eq, subst, sym, true, ◌∙◌, ◌∷◌, ◌≡◌, ◌≢◌, ◌≤◌, ◌⊎◌, ◌↔◌,
}
use signalattice.Shadow.{ShadowOutcome}
use signalattice.Shadow.Runtime.{ShadowRuntime}
use signalattice.Shadow.Records.{Float}
use signalattice.Shadow.Store.{ForecastRow, Tables, has_id}
use signalattice.Shadow.Reading.{is_joined, is_of, max_query_rows, take}
use signalattice.Shadow.Loading.{length-take}
use signalattice.Shadow.Revisions.{
  Revisions, is_about, is_outcome_before, load_outcomes, revisions_of, revisions_of-load_outcomes,
}

abbrev pub IsRevisedBy : ShadowOutcome → ShadowOutcome → Type 0
IsRevisedBy a b = leb_ℤ a.revision b.revision ≡ true

-- The order of the query.
abbrev IsLoadedBefore : ShadowOutcome → ShadowOutcome → Type 0
IsLoadedBefore a b =
    ((a.forecast_id ≡ b.forecast_id) × IsRevisedBy a b)
    ⊎ ((a.forecast_id ≢ b.forecast_id)
        × (leb_codes (codes a.forecast_id) (codes b.forecast_id) ≡ true))

before-IsLoadedBefore : (a b : ShadowOutcome) → is_outcome_before a b ≡ true → IsLoadedBefore a b
before-IsLoadedBefore a b h = elim (Bool-cases (str_eq a.forecast_id b.forecast_id)) [
  | inl e ↦ inl ((eq_iff a.forecast_id b.forecast_id).0 e, rw e at h)
  | inr e ↦ inr (λ same. cc ((eq_iff a.forecast_id b.forecast_id).1 same, e), rw e at h)
]

IsLoadedBefore-before : (a b : ShadowOutcome) → is_outcome_before a b ≡ false → IsLoadedBefore b a
IsLoadedBefore-before a b h = elim (Bool-cases (str_eq a.forecast_id b.forecast_id)) [
  | inl e ↦ inl (sym ((eq_iff a.forecast_id b.forecast_id).0 e), ground (arith, rw e at h))
  | inr e ↦ inr (
    λ same. cc ((eq_iff a.forecast_id b.forecast_id).1 (sym same), e),
    leb_codes-total (codes a.forecast_id) (codes b.forecast_id) (rw e at h),
  )
]

IsLoadedBefore-trans :
    (a b c : ShadowOutcome) → IsLoadedBefore a b → IsLoadedBefore b c → IsLoadedBefore a c
IsLoadedBefore-trans a b c (inl (e, h)) (inl (f, k)) = inl (e ∙ f, ground (arith, h, k))
IsLoadedBefore-trans a b c (inl (e, h)) (inr (n, k)) =
    inr (λ same. n (sym e ∙ same), ap (λ x. leb_codes (codes x) (codes c.forecast_id)) e ∙ k)
IsLoadedBefore-trans a b c (inr (n, h)) (inl (f, k)) =
    inr (λ same. n (same ∙ sym f), ap (λ x. leb_codes (codes a.forecast_id) (codes x)) (sym f) ∙ h)
IsLoadedBefore-trans a b c (inr (n, h)) (inr (m, k)) = inr (
  λ same. n (
      codes-antisym a.forecast_id b.forecast_id h
        (ap (λ x. leb_codes (codes b.forecast_id) (codes x)) same ∙ k)),
  leb_codes_trans (codes a.forecast_id) (codes b.forecast_id) (codes c.forecast_id) h k,
)

-- Among outcomes of one forecast the order is that of the revisions.
Ordered-revisions :
    (key : String) (xs : List ShadowOutcome)
    → All (λ x. is_about key x ≡ true) xs
    → Ordered IsLoadedBefore xs
    → Ordered IsRevisedBy xs
Ordered-revisions key [] m h = tt
Ordered-revisions key (x ∷ xs) m h = (mine xs m.1 h.0, Ordered-revisions key xs m.1 h.1)
  where
    mine :
        (ys : List ShadowOutcome)
        → All (λ y. is_about key y ≡ true) ys
        → All (IsLoadedBefore x) ys
        → All (IsRevisedBy x) ys
    mine [] m k = tt
    mine (y ∷ ys) n (inl (e, r), k) = (r, mine ys n.1 k)
    mine (y ∷ ys) n (inr (differ, r), k) =
        absurd (differ ((eq_iff x.forecast_id key).0 m.0 ∙ sym ((eq_iff y.forecast_id key).0 n.0)))

All-about :
    (key : String) (xs : List ShadowOutcome)
    → All (λ x. is_about key x ≡ true) (filter (is_about key) xs)
All-about key [] = tt
All-about key (x ∷ xs) = elim (Bool-cases (is_about key x)) [
  | inl b ↦ rw b (b, All-about key xs)
  | inr b ↦ rw b (All-about key xs)
]

any-In :
    {A : Type 0} (p : A → Bool) (xs : List A) → any p xs ≡ true → (x : A) × In x xs × (p x ≡ true)
any-In p [] h = cc
any-In p (x ∷ xs) h = elim (Bool-cases (p x)) [
  | inl b ↦ (x, inl refl, b)
  | inr b ↦ let (y, i, k) = any-In p xs (rw b at h) in (y, inr i, k)
]

In-any : {A : Type 0} (p : A → Bool) (xs : List A) (x : A) → In x xs → p x ≡ true → any p xs ≡ true
In-any p [] x i h = absurd i
In-any p (y ∷ ys) x (inl e) h = ground (arith, ap p (sym e) ∙ h)
In-any p (y ∷ ys) x (inr i) h = ground (arith, In-any p ys x i h)

module _ (rt : ShadowRuntime) where
  -- The outcome is about the forecast `key`, and that forecast is one of the campaign's.
  pub record BelongsTo (s : Tables (Float rt)) (campaign key : String) (outcome : ShadowOutcome)
      : Type 0 where
    pub stored : In outcome s.outcomes
    pub about : outcome.forecast_id ≡ key
    pub row : ForecastRow (Float rt)
    pub row_stored : In row s.forecasts
    pub row_about : row.forecast_id ≡ key
    pub row_of : row.forecast.campaign ≡ campaign

  joined-BelongsTo :
      (s : Tables (Float rt)) (campaign key : String) (outcome : ShadowOutcome)
      → In outcome s.outcomes
      → is_about key outcome ≡ true
      → is_joined s campaign outcome ≡ true
      → BelongsTo s campaign key outcome
  joined-BelongsTo s campaign key outcome i m j =
      let about = (eq_iff outcome.forecast_id key).0 m in
      let (row, k, h) =
        any-In (has_id outcome.forecast_id) (filter (is_of campaign) s.forecasts) j in
      let (stored, mine) = In-filter (is_of campaign) s.forecasts row k in
      record {
        stored = i;
        about = about;
        row = row;
        row_stored = stored;
        row_about = (eq_iff row.forecast_id outcome.forecast_id).0 h ∙ about;
        row_of = (eq_iff row.forecast.campaign campaign).0 mine;
      }

  BelongsTo-joined :
      (s : Tables (Float rt)) (campaign key : String) (outcome : ShadowOutcome)
      → BelongsTo s campaign key outcome
      → is_joined s campaign outcome ≡ true
  BelongsTo-joined s campaign key outcome b =
      In-any (has_id outcome.forecast_id) (filter (is_of campaign) s.forecasts) b.row
        (filter-In (is_of campaign) s.forecasts b.row b.row_stored
          ((eq_iff b.row.forecast.campaign campaign).1 b.row_of))
        ((eq_iff b.row.forecast_id outcome.forecast_id).1 (b.row_about ∙ sym b.about))

  -- The outcomes that are loaded under a forecast's identity are the stored outcomes about that
  -- forecast, if it is the campaign's, all of them and no other, in the order of their revisions;
  -- the campaign is taken to have no more outcomes than a query returns.
  pub load_outcomes-history :
      (s : Tables (Float rt)) (campaign : String) {loaded : Revisions}
      → load_outcomes rt s campaign ≡ ok loaded
      → length (filter (is_joined s campaign) s.outcomes) ≤ max_query_rows
      → (key : String)
      → Ordered IsRevisedBy (revisions_of key loaded)
        × ((outcome : ShadowOutcome)
            → In outcome (revisions_of key loaded) ↔ BelongsTo s campaign key outcome)
  load_outcomes-history s campaign {loaded} e small key =
      let joined = filter (is_joined s campaign) s.outcomes in
      let rows = sorted is_outcome_before joined in
      let all_rows : take max_query_rows rows ≡ rows =
        length-take max_query_rows rows
          (omega (arith, length-sorted is_outcome_before joined, small)) in
      let same : revisions_of key loaded ≡ filter (is_about key) rows =
        revisions_of-load_outcomes rt s campaign e key ∙ ap (filter (is_about key)) all_rows in
      let order =
        sorted-Ordered IsLoadedBefore is_outcome_before before-IsLoadedBefore IsLoadedBefore-before
          IsLoadedBefore-trans joined in
      (
        subst (Ordered IsRevisedBy) (sym same) (
            Ordered-revisions key (filter (is_about key) rows) (All-about key rows)
              (Ordered-filter IsLoadedBefore (is_about key) rows order)),
        λ outcome. (
          λ i.
              let (j, m) = In-filter (is_about key) rows outcome (subst (In outcome) same i) in
              let (k, x) =
                In-filter (is_joined s campaign) s.outcomes outcome
                  (In-sorted is_outcome_before joined outcome j) in
              joined-BelongsTo s campaign key outcome k m x,
          λ b. subst (In outcome) (sym same) (
              filter-In (is_about key) rows outcome
                (sorted-In is_outcome_before outcome joined (
                  filter-In (is_joined s campaign) s.outcomes outcome b.stored
                    (BelongsTo-joined s campaign key outcome b)))
                ((eq_iff outcome.forecast_id key).1 b.about)),
        ),
      )
