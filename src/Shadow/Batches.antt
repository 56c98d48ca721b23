-- ===== src/Shadow/Batches.antt =====
-- What `SealedBatch.__post_init__` of shadow/contracts.py establishes.
use signalattice.Prelude.{
  >>=-eq-ok, Bool, List, String, [], all, arith, is_empty, length, ltb, ok, ok-injective, refl,
  refuse, require, require-true, str_eq, subst, sym, true, ◌==◌, ◌∷◌, ◌≡◌, any, false,
  if◌then◌else◌, map, str_eq_sym, ℕ, ◌&&◌, ◌+◌, Bool-cases, ap, eq_iff, inl, inr, ◌∙◌, all-sorted,
  insert_sorted, sorted,
}
use signalattice.Shadow.{SealedBatch, all_unique, max_symbols_per_batch, validate_campaign_name}
use signalattice.Shadow.Records.{check_batch, is_covered, symbols_of, validate_symbols, by_text}

module _ {Float : Type 0} where
  -- The forecasts of a batch are its campaign's.
  abbrev pub IsOwn : SealedBatch Float → Type 0
  IsOwn batch = all (λ forecast. str_eq forecast.campaign batch.campaign) batch.forecasts ≡ true

  pub record Built (batch built : SealedBatch Float) : Type 0 where
    pub own : IsOwn batch
    pub one_instant : all (λ forecast. forecast.as_of == batch.as_of) batch.forecasts ≡ true
    pub unique : all_unique (symbols_of batch.forecasts) ≡ true
    pub complete : is_covered batch.expected_universe (symbols_of batch.forecasts) ≡ true
    pub no_other : is_covered (symbols_of batch.forecasts) batch.expected_universe ≡ true
    pub result : built ≡ record batch {
      expected_universe = sorted (by_text (λ symbol. symbol)) batch.expected_universe;
      forecasts = sorted (by_text (λ forecast. forecast.symbol)) batch.forecasts;
    }

  pub check_batch-Built :
      (batch : SealedBatch Float) {built : SealedBatch Float}
      → check_batch batch ≡ ok built
      → Built batch built
  unfolding check_batch
  check_batch-Built batch e =
      let (_, _, e1) = >>=-eq-ok (validate_campaign_name batch.campaign) _ e in
      let (_, _, e2) = >>=-eq-ok (validate_symbols batch.expected_universe) _ e1 in
      let (_, _, e3) = >>=-eq-ok (refuse (is_empty batch.expected_universe) _) _ e2 in
      let (_, _, e4) =
        >>=-eq-ok (refuse (ltb max_symbols_per_batch (length batch.expected_universe)) _) _ e3 in
      let (_, _, e5) = >>=-eq-ok (require (all_unique batch.expected_universe) _) _ e4 in
      let (_, own, e6) =
        >>=-eq-ok
          (require (all (λ forecast. str_eq forecast.campaign batch.campaign) batch.forecasts) _) _
          e5 in
      let (_, instant, e7) =
        >>=-eq-ok (require (all (λ forecast. forecast.as_of == batch.as_of) batch.forecasts) _) _
          e6 in
      let (_, unique, e8) = >>=-eq-ok (require (all_unique (symbols_of batch.forecasts)) _) _ e7 in
      let (_, complete, e9) =
        >>=-eq-ok (require (is_covered batch.expected_universe (symbols_of batch.forecasts)) _) _
          e8 in
      let (_, other, e10) =
        >>=-eq-ok (require (is_covered (symbols_of batch.forecasts) batch.expected_universe) _) _
          e9 in
      let (_, _, e11) = >>=-eq-ok (refuse (ltb batch.sealed_at batch.as_of) _) _ e10 in
      record {
        own = require-true _ _ own;
        one_instant = require-true _ _ instant;
        unique = require-true _ _ unique;
        complete = require-true _ _ complete;
        no_other = require-true _ _ other;
        result = sym (ok-injective e11);
      }

  pub Built-IsOwn :
      (batch : SealedBatch Float) {built : SealedBatch Float} → Built batch built → IsOwn built
  Built-IsOwn batch b = subst IsOwn (sym b.result) (
      all-sorted (by_text (λ forecast. forecast.symbol))
        (λ forecast. str_eq forecast.campaign batch.campaign) batch.forecasts b.own)

module _ {ℓ} {A : Type ℓ} (key : A → String) where
  -- How many entries have a key.
  abbrev pub count : String → List A → ℕ
  count k [] = 0
  count k (x ∷ xs) = (if str_eq (key x) k then 1 else 0) + count k xs

  module _ (is_before : A → A → Bool) where
    count-insert_sorted :
        (k : String) (x : A) (xs : List A)
        → count k (insert_sorted is_before x xs) ≡ count k (x ∷ xs)
    count-insert_sorted k x [] = refl
    count-insert_sorted k x (y ∷ ys) = ground (arith, count-insert_sorted k x ys)

    count-sorted : (k : String) (xs : List A) → count k (sorted is_before xs) ≡ count k xs
    unfolding sorted
    count-sorted k [] = refl
    count-sorted k (x ∷ xs) =
        omega (arith, count-insert_sorted k x (sorted is_before xs), count-sorted k xs)

  count_absent : (k : String) (xs : List A) → any (str_eq k) (map key xs) ≡ false → count k xs ≡ 0
  count_absent k [] h = refl
  count_absent k (x ∷ xs) h = ground (arith, count_absent k xs, str_eq_sym (key x) k)

  -- In a list with unique keys a key that occurs, occurs once.
  count_unique :
      (k : String) (xs : List A)
      → all_unique (map key xs) ≡ true
      → count k xs ≡ (if any (str_eq k) (map key xs) then 1 else 0)
  count_unique k [] u = refl
  count_unique k (x ∷ xs) u = elim (Bool-cases (str_eq (key x) k)) [
    | inl b ↦
        let same = (eq_iff (key x) k).0 b in
        let absent = subst (λ c. any (str_eq c) (map key xs) ≡ false) same (ground arith) in
        rw (b, str_eq_sym k (key x), b, count_absent k xs absent) refl
    | inr b ↦ rw (b, str_eq_sym k (key x), b) (omega (arith, count_unique k xs (ground arith)))
  ]

all-both {ℓ} :
    {A : Type ℓ} (p q : A → Bool) (xs : List A)
    → all p xs ≡ true
    → all q xs ≡ true
    → all (λ x. p x && q x) xs ≡ true
all-both p q [] a b = refl
all-both p q (x ∷ xs) a b = ground (arith, all-both p q xs)

any-covered :
    (k : String) (xs ys : List String)
    → is_covered xs ys ≡ true
    → any (str_eq k) xs ≡ true
    → any (str_eq k) ys ≡ true
any-covered k [] ys c a = cc
any-covered k (x ∷ xs) ys c a = elim (Bool-cases (str_eq k x)) [
  | inl b ↦ subst (λ s. any (str_eq s) ys ≡ true) (sym ((eq_iff k x).0 b)) (ground arith)
  | inr b ↦ any-covered k xs ys (ground arith) (ground arith)
]

bool_ext : (a b : Bool) → (a ≡ true → b ≡ true) → (b ≡ true → a ≡ true) → a ≡ b
bool_ext true b f g = sym (f refl)
bool_ext false true f g = sym (sym (g refl))
bool_ext false false f g = refl

module _ {Float : Type 0} where
  -- A batch that is built has exactly one forecast for every symbol of the expected universe and
  -- none for any other symbol, all of them the campaign's and of the batch's instant.
  check_batch_complete :
      (batch built : SealedBatch Float)
      → check_batch batch ≡ ok built
      → ((symbol : String)
          → count (λ forecast. forecast.symbol) symbol built.forecasts
            ≡ (if any (str_eq symbol) batch.expected_universe then 1 else 0))
        × (all
              (λ forecast. str_eq forecast.campaign batch.campaign && forecast.as_of == batch.as_of)
              built.forecasts
            ≡ true)
  check_batch_complete batch built e =
      let b = check_batch-Built batch e in
      let symbols = symbols_of batch.forecasts in
      let universe = batch.expected_universe in
      rw b.result (
        λ symbol.
            count-sorted (λ forecast. forecast.symbol) (by_text (λ forecast. forecast.symbol))
              symbol batch.forecasts
            ∙ count_unique (λ forecast. forecast.symbol) symbol batch.forecasts b.unique
            ∙ ap (λ found. if found then 1 else 0)
                (bool_ext (any (str_eq symbol) symbols) (any (str_eq symbol) universe)
                  (any-covered symbol symbols universe b.no_other)
                  (any-covered symbol universe symbols b.complete)),
        all-sorted (by_text (λ forecast. forecast.symbol))
            (λ forecast. str_eq forecast.campaign batch.campaign && forecast.as_of == batch.as_of)
            batch.forecasts
            (all-both (λ forecast. str_eq forecast.campaign batch.campaign)
              (λ forecast. forecast.as_of == batch.as_of) batch.forecasts b.own b.one_instant),
      )
