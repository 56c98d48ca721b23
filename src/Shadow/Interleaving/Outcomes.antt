-- ===== src/Shadow/Interleaving/Outcomes.antt =====
-- Outcomes of shadow/store.py: what later readers find of an outcome that append_outcome recorded.
use mathlib.Core.Bool.{true≢false}
use signalattice.Prelude.{
  ==_iff, >>=-eq-ok, Option, String, all-true, any, ap, arith, eq_refl, eq_ℤ-refl, err, false,
  if◌then◌else◌, none, ok, ok-injective, refl, require, require-true, some, subst, sym, true, ℤ,
  ◌∙◌, ◌∷◌, ◌≡◌, Bool-cases, eq_iff, eq_ℤ-eq, inl, inr, find-any,
}
use signalattice.Shadow.{SealedBatch, ShadowOutcome, conflict_error, outcome_status_index}
use signalattice.Shadow.Runtime.{ShadowRuntime}
use signalattice.Shadow.Records.{Float, batch_id}
use signalattice.Shadow.Store.{
  Tables, append_outcome, has_id, insert_outcome, is_revision, is_same_outcome, replay_or_insert,
  stored_outcome,
}
use signalattice.Shadow.Inserts.{Fresh, insert_forecasts-keeps, with_batch}
use signalattice.Shadow.Facts.{insert_outcome-Scored}
use signalattice.Shadow.Interleaving.{Steps, System}
use signalattice.Shadow.Interleaving.Keeping.{KeptByWrites, Steps-keep}

is_same_outcome_refl : (outcome : ShadowOutcome) → is_same_outcome outcome outcome ≡ true
is_same_outcome_refl outcome =
    rw
      (
        eq_refl outcome.realized_label,
        (==_iff (outcome_status_index outcome.status) _).1 refl,
        (==_iff outcome.observed_at _).1 refl,
      )
      refl

module _ (rt : ShadowRuntime) where
  -- A row is stored as the one of its revision, with its forecast.
  pub record Recorded (forecast : String) (revision : ℤ) (row : ShadowOutcome)
      (s : Tables (Float rt)) : Type 0 where
    pub known : any (has_id forecast) s.forecasts ≡ true
    pub found : stored_outcome s forecast revision ≡ some row

  -- The parts of a stored row that an outcome must share.
  abbrev pub SameOutcome : ShadowOutcome → ShadowOutcome → Type 0
  SameOutcome row outcome = is_same_outcome row outcome ≡ true

  replay_or_insert-found :
      (o : Option ShadowOutcome) (s : Tables (Float rt)) (outcome : ShadowOutcome) {r : ℤ}
      {t : Tables (Float rt)}
      → stored_outcome s outcome.forecast_id outcome.revision ≡ o
      → any (has_id outcome.forecast_id) s.forecasts ≡ true
      → replay_or_insert o s outcome ≡ ok (r, t)
      → (row : ShadowOutcome) × SameOutcome row outcome
        × Recorded outcome.forecast_id outcome.revision row t
  unfolding replay_or_insert
  replay_or_insert-found (some row) s outcome is known e =
      let (_, same, e1) = >>=-eq-ok (require (is_same_outcome row outcome) _) _ e in
      let t = ap (λ r. r.1) (ok-injective e1) in
      (
        row,
        require-true _ _ same,
        subst (Recorded outcome.forecast_id outcome.revision row) t
            (record { known = known; found = is }),
      )
  replay_or_insert-found none s outcome is known e =
      let (u, i, e1) = >>=-eq-ok (insert_outcome s outcome) _ e in
      let w = insert_outcome-Scored s outcome i in
      let t = sym w.tables ∙ ap (λ r. r.1) (ok-injective e1) in
      (
        outcome,
        is_same_outcome_refl outcome,
        subst (Recorded outcome.forecast_id outcome.revision outcome) t (record {
          known = known;
          found = rw (eq_refl outcome.forecast_id, eq_ℤ-refl outcome.revision) refl;
        }),
      )

  append_outcome-found :
      (s : Tables (Float rt)) (outcome : ShadowOutcome) {r : ℤ} {t : Tables (Float rt)}
      → append_outcome s outcome ≡ ok (r, t)
      → (row : ShadowOutcome) × SameOutcome row outcome
        × Recorded outcome.forecast_id outcome.revision row t
  unfolding append_outcome
  append_outcome-found s outcome e =
      let (_, known, e1) =
        >>=-eq-ok (require (any (has_id outcome.forecast_id) s.forecasts) _) _ e in
      replay_or_insert-found (stored_outcome s outcome.forecast_id outcome.revision) s outcome refl
        (require-true _ _ known) e1

  new_row-Recorded :
      (forecast : String) (revision : ℤ) (row : ShadowOutcome) (s : Tables (Float rt))
      (outcome : ShadowOutcome)
      → any (is_revision outcome.forecast_id outcome.revision) s.outcomes ≡ false
      → Recorded forecast revision row s
      → Recorded forecast revision row (record s { outcomes = outcome ∷ s.outcomes })
  new_row-Recorded forecast revision row s outcome new h = record {
    known = h.known;
    found = elim (Bool-cases (is_revision forecast revision outcome)) [
      | inl b ↦
          let f = (eq_iff outcome.forecast_id forecast).0 (ground arith) in
          let r = eq_ℤ-eq outcome.revision revision (ground arith) in
          let stored = find-any (is_revision forecast revision) s.outcomes row h.found in
          let fresh =
            subst (λ v. any (is_revision forecast v) s.outcomes ≡ false) r
              (subst (λ g. any (is_revision g outcome.revision) s.outcomes ≡ false) f new) in
          absurd (true≢false (sym stored ∙ fresh))
      | inr b ↦ rw b h.found
    ];
  }

  Fresh-Recorded :
      (forecast : String) (revision : ℤ) (row : ShadowOutcome) (s : Tables (Float rt))
      (batch : SealedBatch (Float rt)) (t : Tables (Float rt))
      → Fresh rt s batch t
      → Recorded forecast revision row s
      → Recorded forecast revision row t
  Fresh-Recorded forecast revision row s batch t f h =
      insert_forecasts-keeps rt (Recorded forecast revision row) (λ item. true) (batch_id rt batch)
        (λ v item _ new k. record { known = ground (arith, k.known); found = k.found })
        (with_batch rt s batch) batch.forecasts (all-true batch.forecasts) f.inserted
        (record { known = h.known; found = h.found })

  Recorded-kept :
      (forecast : String) (revision : ℤ) (row : ShadowOutcome)
      → KeptByWrites rt (Recorded forecast revision row)
  Recorded-kept forecast revision row = record {
    by_create = λ s name new fresh h. record { known = h.known; found = h.found };
    by_move = λ s name from target now t w h.
        subst (Recorded forecast revision row) (sym w.tables)
          (record { known = h.known; found = h.found });
    by_batch = Fresh-Recorded forecast revision row;
    by_outcome = λ s outcome known new h. new_row-Recorded forecast revision row s outcome new h;
  }

  Recorded-append_outcome :
      (s : Tables (Float rt)) (row outcome : ShadowOutcome)
      → Recorded outcome.forecast_id outcome.revision row s
      → append_outcome s outcome
        ≡ (if is_same_outcome row outcome then ok (outcome.revision, s) else err conflict_error)
  unfolding append_outcome replay_or_insert
  Recorded-append_outcome s row outcome h = rw (h.known, h.found) (ground arith)

  -- What `append_outcome` accepted is stored for good: after any interleaving of callers the
  -- revision of the forecast has a row with the label, the status and the instant of the outcome,
  -- appending the same again returns the revision and changes nothing, and appending anything else
  -- under that revision is refused as a conflict.
  pub outcome_recorded :
      (s u : System rt) (outcome : ShadowOutcome) {r : ℤ} {t : Tables (Float rt)}
      → append_outcome s.tables outcome ≡ ok (r, t)
      → Steps rt (record s { tables = t }) u
      → (row : ShadowOutcome) × (stored_outcome u.tables outcome.forecast_id outcome.revision
          ≡ some row)
        × (is_same_outcome row outcome ≡ true)
        × (append_outcome u.tables outcome ≡ ok (outcome.revision, u.tables))
        × ((other : ShadowOutcome)
            → other.forecast_id ≡ outcome.forecast_id
            → other.revision ≡ outcome.revision
            → is_same_outcome row other ≡ false
            → append_outcome u.tables other ≡ err conflict_error)
  outcome_recorded s u outcome e steps =
      let (row, same, h) = append_outcome-found s.tables outcome e in
      let k =
        Steps-keep rt (Recorded outcome.forecast_id outcome.revision row)
          (Recorded-kept outcome.forecast_id outcome.revision row) steps h in
      (
        row,
        k.found,
        same,
        rw (Recorded-append_outcome u.tables row outcome k, same) refl,
        λ other f v differs.
            rw
              (
                Recorded-append_outcome u.tables row other (
                    subst (λ g. Recorded g other.revision row u.tables) (sym f)
                      (subst (λ n. Recorded outcome.forecast_id n row u.tables) (sym v) k)),
                differs,
              )
              refl,
      )
