-- ===== src/Tracking/Retention/Bounds.antt =====
-- The bounds of a plan of tracking/retention.py: the bytes and the number of its candidates.
use signalattice.Prelude.{
  insert_sorted, refuse, require, ◌==◌, >>=-eq-ok, Bool-cases, List, [], ap, arith, inl, inr,
  length, ltb, ltb_ℤ, ok, ok-injective, refl, require_some, sorted, suc, subst, sym, zero, ℕ, ◌+◌,
  ◌∷◌, ◌≡◌, ◌≤◌, Bool, ◌∙◌,
}
use signalattice.Tracking.Retention.{
  nanoseconds_to_display_time, ArtifactMetadata, RetentionPolicy, check_metadata,
  datetime_to_nanoseconds,
}
use signalattice.Tracking.Retention.Records.{RetentionCandidate, check_candidate, total_bytes}
use signalattice.Tracking.Retention.Authority.{ArtifactStore}
use signalattice.Tracking.Retention.Planning.{candidate_of, inspect_rows, select_rows}
use signalattice.Tracking.Retention.Condemning.{le_of_not-ltb}
use signalattice.Shadow.Reading.{take}

pub length-take_le : {A : Type 0} (n : ℕ) (xs : List A) → length (take n xs) ≤ n
length-take_le n [] = omega arith
length-take_le zero (x ∷ xs) = omega arith
length-take_le (suc n) (x ∷ xs) = omega (arith, length-take_le n xs)

abbrev pub row_bytes : List ArtifactMetadata → ℕ
row_bytes [] = 0
row_bytes (row ∷ rows) = row.byte_size + row_bytes rows

module _ (is_before : ArtifactMetadata → ArtifactMetadata → Bool) where
  row_bytes-insert_sorted :
      (row : ArtifactMetadata) (rows : List ArtifactMetadata)
      → row_bytes (insert_sorted is_before row rows) ≡ row.byte_size + row_bytes rows
  row_bytes-insert_sorted row [] = refl
  row_bytes-insert_sorted row (other ∷ rows) = elim (Bool-cases (is_before row other)) [
    | inl b ↦ rw b refl
    | inr b ↦ rw b (omega (arith, row_bytes-insert_sorted row rows))
  ]

  -- The order does not matter for the bytes.
  pub row_bytes-sorted :
      (rows : List ArtifactMetadata) → row_bytes (sorted is_before rows) ≡ row_bytes rows
  unfolding sorted
  row_bytes-sorted [] = refl
  row_bytes-sorted (row ∷ rows) =
      row_bytes-insert_sorted row (sorted is_before rows)
      ∙ ap (λ n. row.byte_size + n) (row_bytes-sorted rows)

-- The rows that are selected are within the bytes of the policy.
pub select_rows-bounds :
    (policy : RetentionPolicy) (total : ℕ) (rows : List ArtifactMetadata)
    {selected : List ArtifactMetadata}
    → select_rows policy total rows ≡ ok selected
    → total ≤ policy.max_total_bytes
    → (total + row_bytes selected ≤ policy.max_total_bytes) × (length selected ≤ length rows)
unfolding select_rows
select_rows-bounds policy total [] e h =
    subst (λ s. (total + row_bytes s ≤ policy.max_total_bytes) × (length s ≤ 0)) (ok-injective e)
      (omega (arith, h), omega arith)
select_rows-bounds policy total (row ∷ rows) {selected} e h =
    let (candidate, c, e1) = >>=-eq-ok (check_metadata row) _ e in
    elim (Bool-cases (ltb policy.max_total_bytes (total + candidate.byte_size))) [
      | inl b ↦
          subst
            (λ s. (total + row_bytes s ≤ policy.max_total_bytes) × (length s ≤ suc (length rows)))
            (ok-injective (rw b at e1)) (omega (arith, h), omega arith)
      | inr b ↦
          let (rest, r, e2) =
            >>=-eq-ok (select_rows policy (total + candidate.byte_size) rows) _ (rw b at e1) in
          let within = le_of_not-ltb _ _ b in
          let (bytes, count) =
            select_rows-bounds policy (total + candidate.byte_size) rows r within in
          subst
            (λ s. (total + row_bytes s ≤ policy.max_total_bytes) × (length s ≤ suc (length rows)))
            (ok-injective e2) (omega (arith, bytes), omega (arith, count))
    ]

check_candidate-same :
    (candidate : RetentionCandidate) {checked : RetentionCandidate}
    → check_candidate candidate ≡ ok checked
    → checked ≡ candidate
unfolding check_candidate
check_candidate-same c e =
    let (_, _, e1) = >>=-eq-ok (refuse c.metadata.pinned _) _ e in
    let (_, _, e2) = >>=-eq-ok (check_metadata c.metadata) _ e1 in
    let (display, _, e3) = >>=-eq-ok (nanoseconds_to_display_time c.last_changed_ns) _ e2 in
    let (_, _, e4) = >>=-eq-ok (require (display == c.last_changed_at) _) _ e3 in
    sym (ok-injective e4)

module _ (store : ArtifactStore) where
  -- The candidates are some of the rows.
  pub inspect_rows-bounds :
      (objects : store.Objects) (cutoff : ℕ) (rows : List ArtifactMetadata)
      {candidates : List RetentionCandidate}
      → inspect_rows store objects cutoff rows ≡ ok candidates
      → (total_bytes candidates ≤ row_bytes rows) × (length candidates ≤ length rows)
  unfolding inspect_rows
  inspect_rows-bounds objects cutoff [] e =
      subst (λ c. (total_bytes c ≤ 0) × (length c ≤ 0)) (ok-injective e) (omega arith, omega arith)
  inspect_rows-bounds objects cutoff (row ∷ rows) e =
      let (observed, _, e1) = >>=-eq-ok (require_some (store.inspect objects row) _) _ e in
      let (limit, _, e2) = >>=-eq-ok (datetime_to_nanoseconds cutoff) _ e1 in
      elim (Bool-cases (ltb_ℤ limit observed.last_changed_ns)) [
        | inl b ↦
            let (bytes, count) = inspect_rows-bounds objects cutoff rows (rw b at e2) in
            (omega (arith, bytes), omega (arith, count))
        | inr b ↦
            let (candidate, c, e3) =
              >>=-eq-ok (check_candidate (candidate_of row observed)) _ (rw b at e2) in
            let (rest, r, e4) = >>=-eq-ok (inspect_rows store objects cutoff rows) _ e3 in
            let (bytes, count) = inspect_rows-bounds objects cutoff rows r in
            let same = ap (λ x. x.metadata.byte_size) (check_candidate-same _ c) in
            subst
              (λ c.
                (total_bytes c ≤ row.byte_size + row_bytes rows) × (length c ≤ suc (length rows)))
              (ok-injective e4) (omega (arith, bytes, same), omega (arith, count))
      ]
