-- ===== src/Shadow/Revisions.antt =====
-- `load_outcomes` of shadow/store.py: the revisions of a campaign's outcomes by forecast. The dictionary
-- is the list of its entries in the order of their insertion.
use signalattice.Prelude.{
  require, refuse, length, ◌==◌, ltb, ltb_ℤ, pos, str_eq_sym, >>=-eq-ok, Bool-cases, List, Result,
  String, [], codes, filter, inl, inr, leb_codes, leb_ℤ, ok, ok-injective, sorted, str_eq, ◌++◌,
  ◌>>=◌, ◌>>◌, ◌∷◌, ◌≡◌, ◌∙◌, if◌then◌else◌, Bool, ap, sym, arith, eq_iff, refl,
}
use mathlib.Core.List.{append-nil, append_assoc}
use signalattice.Shadow.{ShadowError, ShadowOutcome, validate_campaign_name}
use signalattice.Shadow.Runtime.{ShadowRuntime}
use signalattice.Shadow.Records.{Float, check_outcome}
use signalattice.Shadow.Store.{Tables}
use signalattice.Shadow.Reading.{is_joined, max_query_rows, take}

abbrev pub Revisions : Type 0
Revisions = List (String × List ShadowOutcome)

-- `ORDER BY forecast_id, revision`.
abbrev pub is_outcome_before : ShadowOutcome → ShadowOutcome → Bool
is_outcome_before a b =
    if str_eq a.forecast_id b.forecast_id
    then leb_ℤ a.revision b.revision
    else leb_codes (codes a.forecast_id) (codes b.forecast_id)

-- `grouped.setdefault(forecast_id, []).append(outcome)`.
abbrev pub add_revision : Revisions → ShadowOutcome → Revisions
add_revision [] outcome = (outcome.forecast_id, outcome ∷ []) ∷ []
add_revision ((identity, outcomes) ∷ grouped) outcome =
    if str_eq identity outcome.forecast_id
    then (identity, outcomes ++ outcome ∷ []) ∷ grouped
    else (identity, outcomes) ∷ add_revision grouped outcome

-- `outcomes.get(forecast_id, ())`, as `build_report` of shadow/reports.py reads the dictionary.
abbrev pub revisions_of : String → Revisions → List ShadowOutcome
revisions_of key [] = []
revisions_of key ((identity, outcomes) ∷ grouped) =
    if str_eq identity key then outcomes else revisions_of key grouped

abbrev pub is_about : String → ShadowOutcome → Bool
is_about key outcome = str_eq outcome.forecast_id key

module _ (rt : ShadowRuntime) where
  unfoldable pub group_outcomes : Revisions → List ShadowOutcome → Result ShadowError Revisions
  group_outcomes grouped [] = ok grouped
  group_outcomes grouped (row ∷ rows) = do
    outcome ← check_outcome rt row
    group_outcomes (add_revision grouped outcome) rows

  unfoldable pub load_outcomes : Tables (Float rt) → String → Result ShadowError Revisions
  unfolding group_outcomes
  load_outcomes s campaign = do
    validate_campaign_name campaign
    group_outcomes []
        (take max_query_rows (sorted is_outcome_before (filter (is_joined s campaign) s.outcomes)))

-- Each revision is added at the end of its forecast's entry, and no other entry changes.
revisions_of-add_revision :
    (key : String) (grouped : Revisions) (outcome : ShadowOutcome)
    → revisions_of key (add_revision grouped outcome)
      ≡ revisions_of key grouped ++ filter (is_about key) (outcome ∷ [])
revisions_of-add_revision key [] outcome = ground arith
revisions_of-add_revision key ((identity, outcomes) ∷ grouped) outcome =
    elim (Bool-cases (str_eq identity outcome.forecast_id)) [
      | inl same ↦
          let names = ap (λ k. str_eq k key) ((eq_iff identity outcome.forecast_id).0 same) in
          elim (Bool-cases (str_eq identity key)) [
            | inl found ↦ rw (same, found, sym names ∙ found) refl
            | inr missed ↦
                rw (same, missed, sym names ∙ missed) (sym (append-nil (revisions_of key grouped)))
          ]
      | inr other ↦ elim (Bool-cases (str_eq identity key)) [
        | inl found ↦
            let theirs =
              str_eq_sym outcome.forecast_id key
              ∙ ap (λ k. str_eq k outcome.forecast_id) (sym ((eq_iff identity key).0 found))
              ∙ other in
            rw (other, found, theirs) (sym (append-nil outcomes))
        | inr missed ↦ rw (other, missed) (revisions_of-add_revision key grouped outcome)
      ]
    ]

module _ (rt : ShadowRuntime) where
  check_outcome-same :
      (outcome : ShadowOutcome) {checked : ShadowOutcome}
      → check_outcome rt outcome ≡ ok checked
      → outcome ≡ checked
  unfolding check_outcome
  check_outcome-same outcome e =
      let (_, _, e1) = >>=-eq-ok (require (length (codes outcome.forecast_id) == 64) _) _ e in
      let (_, _, e2) = >>=-eq-ok (refuse (str_eq (rt.strip outcome.realized_label) "") _) _ e1 in
      let (_, _, e3) = >>=-eq-ok (refuse (ltb outcome.recorded_at outcome.observed_at) _) _ e2 in
      let (_, _, e4) = >>=-eq-ok (refuse (ltb_ℤ outcome.revision (pos 0)) _) _ e3 in ok-injective e4

  revisions_of-group_outcomes :
      (key : String) (grouped : Revisions) (rows : List ShadowOutcome) {loaded : Revisions}
      → group_outcomes rt grouped rows ≡ ok loaded
      → revisions_of key loaded ≡ revisions_of key grouped ++ filter (is_about key) rows
  unfolding group_outcomes
  revisions_of-group_outcomes key grouped [] e =
      sym (ap (revisions_of key) (ok-injective e)) ∙ sym (append-nil (revisions_of key grouped))
  revisions_of-group_outcomes key grouped (row ∷ rows) e =
      let (outcome, c, e1) = >>=-eq-ok (check_outcome rt row) _ e in
      let added = revisions_of-add_revision key grouped row in
      let rest =
        revisions_of-group_outcomes key (add_revision grouped row) rows
          (rw (check_outcome-same row c) e1) in
      rest
      ∙ ap (λ r. r ++ filter (is_about key) rows) added
      ∙ append_assoc (revisions_of key grouped) (filter (is_about key) (row ∷ [])) _
      ∙ ap (λ r. revisions_of key grouped ++ r)
          (elim (Bool-cases (is_about key row)) [
            | inl mine ↦ rw mine refl
            | inr foreign ↦ rw foreign refl
          ])

  pub revisions_of-load_outcomes :
      (s : Tables (Float rt)) (campaign : String) {loaded : Revisions}
      → load_outcomes rt s campaign ≡ ok loaded
      → (key : String)
      → revisions_of key loaded
        ≡ filter (is_about key) (
            take max_query_rows
              (sorted is_outcome_before (filter (is_joined s campaign) s.outcomes)))
  unfolding load_outcomes
  revisions_of-load_outcomes s campaign e key =
      let (_, _, e1) = >>=-eq-ok (validate_campaign_name campaign) _ e in
      revisions_of-group_outcomes key [] _ e1
