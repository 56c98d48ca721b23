-- ===== src/Promotion/Pairing.antt =====
-- What a cohort of governance/comparison.py holds: which forecasts its pairs are of, and how many are
-- left out.
use signalattice.Prelude.{
  >>=-eq-ok, All, All-append, In, List, Option, String, [], arith, eq_iff, find, find-In, is_ok,
  length, none, ok, ok-injective, refl, require, require-true, some, str_eq, subst, true, ℕ, ◌+◌,
  ◌<◌, ◌∷◌, ◌≡◌, ◌≤◌, ap, sym, length-append, suc,
}
use signalattice.Shadow.{ShadowForecast, ShadowOutcome, assert_precedes}
use signalattice.Promotion.{PairedScore}
use signalattice.Promotion.Runtime.{PromotionRuntime}
use signalattice.Promotion.Scores.{Number}
use signalattice.Promotion.Keys.{has_key, is_key, key_of, match_keys, partner}
use signalattice.Promotion.Cohorts.{
  Paired, check_pair, outcome_of, pair_with, score_pair, unscored, pair_all, added,
}

module _ (rt : PromotionRuntime)
    (champion_outcomes challenger_outcomes : String → List ShadowOutcome)
    (champions challengers : List (ShadowForecast (Number rt))) where
  -- Two forecasts of one key, one of each arm.
  pub record Matched (p : ShadowForecast (Number rt) × ShadowForecast (Number rt)) : Type 0 where
    pub is_champion : In p.0 champions
    pub is_challenger : In p.1 challengers
    pub one_key : is_key (key_of p.1) (key_of p.0) ≡ true

  -- A pair scores two forecasts of one key, one of each arm, on the one label that the latest
  -- observed outcomes of both have, each of them observed after its forecast's as-of.
  pub record Fair (pair : PairedScore (Number rt)) : Type 0 where
    pub champion : ShadowForecast (Number rt)
    pub challenger : ShadowForecast (Number rt)
    pub matched : Matched (champion, challenger)
    pub champion_outcome : ShadowOutcome
    pub challenger_outcome : ShadowOutcome
    pub champion_latest : outcome_of rt champion_outcomes champion ≡ some champion_outcome
    pub challenger_latest : outcome_of rt challenger_outcomes challenger ≡ some challenger_outcome
    pub one_label : champion_outcome.realized_label ≡ challenger_outcome.realized_label
    pub champion_unseen : champion.as_of < champion_outcome.observed_at
    pub challenger_unseen : challenger.as_of < challenger_outcome.observed_at
    pub scored : score_pair rt champion challenger champion_outcome.realized_label ≡ ok pair

  pub match_keys-Matched :
      (items : List (ShadowForecast (Number rt)))
      → All (λ item. In item champions) items
      → All Matched (match_keys items challengers)
  match_keys-Matched [] h = tt
  match_keys-Matched (item ∷ items) h =
      All-append Matched (partner item (find (has_key (key_of item)) challengers))
        (match_keys items challengers) (partnered (find (has_key (key_of item)) challengers) refl)
        (match_keys-Matched items h.1)
    where
      partnered :
          (o : Option (ShadowForecast (Number rt)))
          → find (has_key (key_of item)) challengers ≡ o
          → All Matched (partner item o)
      partnered none e = tt
      partnered (some other) e =
          let (i, k) = find-In (has_key (key_of item)) challengers other e in
          (record { is_champion = h.0; is_challenger = i; one_key = k }, tt)

  precedes :
      (forecast : ShadowForecast (Number rt)) (observed_at : ℕ)
      → is_ok (assert_precedes forecast observed_at) ≡ true
      → forecast.as_of < observed_at
  unfolding assert_precedes
  precedes forecast observed_at h = ground arith

  pair_with-Fair :
      (p : ShadowForecast (Number rt) × ShadowForecast (Number rt)) (a b : Option ShadowOutcome)
      {pairs : List (PairedScore (Number rt))}
      → Matched p
      → outcome_of rt champion_outcomes p.0 ≡ a
      → outcome_of rt challenger_outcomes p.1 ≡ b
      → pair_with rt p.0 p.1 a b ≡ ok pairs
      → All Fair pairs
  unfolding pair_with check_pair
  pair_with-Fair p none b m ea eb e = subst (All Fair) (ok-injective e) tt
  pair_with-Fair p (some a) none m ea eb e = subst (All Fair) (ok-injective e) tt
  pair_with-Fair p (some a) (some b) m ea eb e =
      let (_, c, e1) = >>=-eq-ok (check_pair rt p.0 p.1 a b) _ e in
      let (pair, s, e2) = >>=-eq-ok (score_pair rt p.0 p.1 a.realized_label) _ e1 in
      let (_, l, c1) = >>=-eq-ok (require (str_eq a.realized_label b.realized_label) _) _ c in
      let (_, f, c2) = >>=-eq-ok (require (is_ok (assert_precedes p.0 a.observed_at)) _) _ c1 in
      subst (All Fair) (ok-injective e2) (
        record {
          champion = p.0;
          challenger = p.1;
          matched = m;
          champion_outcome = a;
          challenger_outcome = b;
          champion_latest = ea;
          challenger_latest = eb;
          one_label = (eq_iff a.realized_label b.realized_label).0 (require-true _ _ l);
          champion_unseen = precedes p.0 a.observed_at (require-true _ _ f);
          challenger_unseen = precedes p.1 b.observed_at (require-true _ _ c2);
          scored = s;
        },
        tt,
      )

  -- Every scored pair is of a shared key, and a shared key that has none is unscored.
  pub record Counted (shared : ℕ) (paired : Paired rt) : Type 0 where
    pub champion_bound : length paired.pairs + paired.champion_unscored ≤ shared
    pub challenger_bound : length paired.pairs + paired.challenger_unscored ≤ shared
    pub covered :
        shared ≤ length paired.pairs + paired.champion_unscored + paired.challenger_unscored

  pair_with-count :
      (champion challenger : ShadowForecast (Number rt)) (a b : Option ShadowOutcome)
      {pairs : List (PairedScore (Number rt))}
      → pair_with rt champion challenger a b ≡ ok pairs
      → (length pairs + unscored rt a ≤ 1)
        × (length pairs + unscored rt b ≤ 1)
        × (1 ≤ length pairs + unscored rt a + unscored rt b)
  unfolding pair_with
  pair_with-count champion challenger none b e =
      let n = ap length (sym (ok-injective e)) in ground arith
  pair_with-count champion challenger (some a) none e =
      let n = ap length (sym (ok-injective e)) in ground arith
  pair_with-count champion challenger (some a) (some b) e =
      let (_, _, e1) = >>=-eq-ok (check_pair rt champion challenger a b) _ e in
      let (pair, _, e2) = >>=-eq-ok (score_pair rt champion challenger a.realized_label) _ e1 in
      let n = ap length (sym (ok-injective e2)) in ground arith

  added-Counted :
      (found : List (PairedScore (Number rt))) (a b : Option ShadowOutcome) (shared : ℕ)
      (later : Paired rt)
      → length found + unscored rt a ≤ 1
      → length found + unscored rt b ≤ 1
      → 1 ≤ length found + unscored rt a + unscored rt b
      → Counted shared later
      → Counted (suc shared) (added rt found a b later)
  added-Counted found a b shared later x y z c =
      let n = length-append found later.pairs in
      record {
        champion_bound = omega (arith, n, c.champion_bound, x);
        challenger_bound = omega (arith, n, c.challenger_bound, y);
        covered = omega (arith, n, c.covered, z);
      }

  pub pair_all-facts :
      (shared : List (ShadowForecast (Number rt) × ShadowForecast (Number rt))) {paired : Paired rt}
      → All Matched shared
      → pair_all rt champion_outcomes challenger_outcomes shared ≡ ok paired
      → Counted (length shared) paired × All Fair paired.pairs
  unfolding pair_all
  pair_all-facts [] m e =
      subst (λ paired. Counted 0 paired × All Fair paired.pairs) (ok-injective e)
        (
          record {
            champion_bound = omega arith;
            challenger_bound = omega arith;
            covered = omega arith;
          },
          tt,
        )
  pair_all-facts (p ∷ rest) m e =
      let a = outcome_of rt champion_outcomes p.0 in
      let b = outcome_of rt challenger_outcomes p.1 in
      let (found, f, e1) = >>=-eq-ok (pair_with rt p.0 p.1 a b) _ e in
      let (later, l, e2) =
        >>=-eq-ok (pair_all rt champion_outcomes challenger_outcomes rest) _ e1 in
      let (counted, fair) = pair_all-facts rest m.1 l in
      let count = pair_with-count p.0 p.1 a b f in
      subst (λ paired. Counted (suc (length rest)) paired × All Fair paired.pairs) (ok-injective e2)
        (
          added-Counted found a b (length rest) later count.0 count.1 count.2 counted,
          All-append Fair found later.pairs (pair_with-Fair p a b m.0 refl refl f) fair,
        )
