-- ===== src/Shadow/Loading.antt =====
-- What `load_forecasts` of shadow/store.py returns of the batches that were sealed.
use signalattice.Prelude.{
  leb_ℤ, pos, >>=-eq-ok, All, Bool, Bool-cases, In, List, Ordered, String, [], ap, arith, codes,
  false, inl, inr, leb_codes, leb_codes-total, leb_codes_trans, length, ltb, ok, ok-injective, refl,
  require, subst, suc, sym, true, zero, ℕ, ◌&&◌, ◌<◌, ◌∙◌, ◌∷◌, ◌≡◌, ◌≤◌, ◌⊎◌,
}
use signalattice.Shadow.{
  ShadowForecast, check_forecast, is_digest, validate_campaign_name, validate_symbol,
}
use signalattice.Shadow.Runtime.{ShadowRuntime}
use signalattice.Shadow.Records.{Float, check_vector}
use signalattice.Shadow.Store.{ForecastRow, StoredForecast}
use signalattice.Shadow.Reading.{build_forecast, build_forecasts, is_row_before, take}

not_below : (n : ℕ) → suc n ≤ 0 → ⊥
not_below n h = omega arith

pub length-take : {A : Type 0} (n : ℕ) (xs : List A) → length xs ≤ n → take n xs ≡ xs
length-take n [] h = refl
length-take zero (x ∷ xs) h = absurd (not_below (length xs) h)
length-take (suc n) (x ∷ xs) h = ap (λ ys. x ∷ ys) (length-take n xs (omega arith))

pub both_true : (a b : Bool) → (a && b) ≡ true → (a ≡ true) × (b ≡ true)
both_true a b h = ground arith

-- By instant, and at one instant by symbol.
abbrev pub IsEarlier : ℕ → String → ℕ → String → Type 0
IsEarlier m a n b = (m < n) ⊎ ((m ≡ n) × (leb_codes (codes a) (codes b) ≡ true))

module _ (rt : ShadowRuntime) where
  abbrev pub Row : Type 0
  Row = ForecastRow (Float rt)

  abbrev pub IsRowEarlier : Row → Row → Type 0
  IsRowEarlier a b = IsEarlier a.forecast.as_of a.forecast.symbol b.forecast.as_of b.forecast.symbol

  abbrev pub IsForecastEarlier : ShadowForecast (Float rt) → ShadowForecast (Float rt) → Type 0
  IsForecastEarlier a b = IsEarlier a.as_of a.symbol b.as_of b.symbol

  pub before-IsRowEarlier : (a b : Row) → is_row_before a b ≡ true → IsRowEarlier a b
  before-IsRowEarlier a b h = elim (Bool-cases (ltb a.forecast.as_of b.forecast.as_of)) [
    | inl e ↦ inl (ground (arith, e))
    | inr e ↦ inr (ground (arith, rw e at h), ground (arith, rw e at h))
  ]

  pub IsRowEarlier-before : (a b : Row) → is_row_before a b ≡ false → IsRowEarlier b a
  IsRowEarlier-before a b h = elim (Bool-cases (ltb b.forecast.as_of a.forecast.as_of)) [
    | inl e ↦ inl (ground (arith, e))
    | inr e ↦ inr (
      ground (arith, h, e),
      leb_codes-total (codes a.forecast.symbol) (codes b.forecast.symbol) (ground (arith, h, e)),
    )
  ]

  pub IsRowEarlier-trans : (a b c : Row) → IsRowEarlier a b → IsRowEarlier b c → IsRowEarlier a c
  IsRowEarlier-trans a b c (inl h) (inl k) = inl (omega (arith, h, k))
  IsRowEarlier-trans a b c (inl h) (inr (e, k)) = inl (omega (arith, h, e))
  IsRowEarlier-trans a b c (inr (e, h)) (inl k) = inl (omega (arith, k, e))
  IsRowEarlier-trans a b c (inr (e, h)) (inr (f, k)) = inr (
    e ∙ f,
    leb_codes_trans (codes a.forecast.symbol) (codes b.forecast.symbol) (codes c.forecast.symbol) h
        k,
  )

  check_forecast-same :
      (f : ShadowForecast (Float rt)) {g : ShadowForecast (Float rt)}
      → check_forecast f ≡ ok g
      → f ≡ g
  unfolding check_forecast
  check_forecast-same f e =
      let (_, _, e1) = >>=-eq-ok (validate_campaign_name f.campaign) _ e in
      let (_, _, e2) = >>=-eq-ok (validate_symbol f.symbol) _ e1 in
      let (_, _, e3) = >>=-eq-ok (require (ltb f.as_of f.target_instant) _) _ e2 in
      let (_, _, e4) =
        >>=-eq-ok (require (leb_ℤ (pos 1) f.horizon_days && leb_ℤ f.horizon_days (pos 365)) _) _
          e3 in
      let (_, _, e5) = >>=-eq-ok (require (is_digest f.feature_prefix_digest) _) _ e4 in
      let (_, _, e6) = >>=-eq-ok (require (is_digest f.model_identity) _) _ e5 in ok-injective e6

  build_forecast-fields :
      (name : String) (row : StoredForecast) {f : ShadowForecast (Float rt)}
      → build_forecast rt name row ≡ ok f
      → (row.as_of ≡ f.as_of) × (row.symbol ≡ f.symbol) × (name ≡ f.campaign)
  unfolding build_forecast
  build_forecast-fields name row e =
      let (vector, _, e1) = >>=-eq-ok (check_vector rt _) _ e in
      let same = check_forecast-same _ e1 in
      (ap (λ f. f.as_of) same, ap (λ f. f.symbol) same, ap (λ f. f.campaign) same)

  -- The records of a list of rows, one for each.
  abbrev pub Rebuilt : String → List Row → List (ShadowForecast (Float rt)) → Type 0
  Rebuilt name [] [] = Unit
  Rebuilt name [] (f ∷ fs) = ⊥
  Rebuilt name (row ∷ rows) [] = ⊥
  Rebuilt name (row ∷ rows) (f ∷ fs) =
      (build_forecast rt name row.forecast ≡ ok f) × Rebuilt name rows fs

  abbrev pub IsReadable : String → Row → Type 0
  IsReadable name row =
      (f : ShadowForecast (Float rt)) × (build_forecast rt name row.forecast ≡ ok f)

  pub build_forecasts-Rebuilt :
      (name : String) (rows : List Row)
      → All (IsReadable name) rows
      → (fs : List (ShadowForecast (Float rt))) × (build_forecasts rt name rows ≡ ok fs)
        × Rebuilt name rows fs
  unfolding build_forecasts
  build_forecasts-Rebuilt name [] h = ([], refl, tt)
  build_forecasts-Rebuilt name (row ∷ rows) h =
      let (f, e) = h.0 in
      let (fs, k, b) = build_forecasts-Rebuilt name rows h.1 in (f ∷ fs, rw (e, k) refl, (e, b))

  pub Rebuilt-In :
      (name : String) (rows : List Row) (fs : List (ShadowForecast (Float rt))) (row : Row)
      (f : ShadowForecast (Float rt))
      → Rebuilt name rows fs
      → In row rows
      → build_forecast rt name row.forecast ≡ ok f
      → In f fs
  Rebuilt-In name [] fs row f b i e = absurd i
  Rebuilt-In name (r ∷ rows) [] row f b i e = absurd b
  Rebuilt-In name (r ∷ rows) (g ∷ gs) row f b (inl same) e =
      inl (ok-injective (sym e ∙ ap (λ x. build_forecast rt name x.forecast) same ∙ b.0))
  Rebuilt-In name (r ∷ rows) (g ∷ gs) row f b (inr i) e =
      inr (Rebuilt-In name rows gs row f b.1 i e)

  pub Rebuilt-campaign :
      (name : String) (rows : List Row) (fs : List (ShadowForecast (Float rt)))
      → Rebuilt name rows fs
      → All (λ f. f.campaign ≡ name) fs
  Rebuilt-campaign name [] [] b = tt
  Rebuilt-campaign name [] (f ∷ fs) b = absurd b
  Rebuilt-campaign name (r ∷ rows) [] b = absurd b
  Rebuilt-campaign name (r ∷ rows) (f ∷ fs) b =
      let (_, _, mine) = build_forecast-fields name r.forecast b.0 in
      (sym mine, Rebuilt-campaign name rows fs b.1)

  Rebuilt-All :
      (name : String) (row : Row) (f : ShadowForecast (Float rt)) (rows : List Row)
      (fs : List (ShadowForecast (Float rt)))
      → build_forecast rt name row.forecast ≡ ok f
      → Rebuilt name rows fs
      → All (IsRowEarlier row) rows
      → All (IsForecastEarlier f) fs
  Rebuilt-All name row f [] [] e b h = tt
  Rebuilt-All name row f [] (g ∷ gs) e b h = absurd b
  Rebuilt-All name row f (r ∷ rows) [] e b h = absurd b
  Rebuilt-All name row f (r ∷ rows) (g ∷ gs) e b h =
      let (m, a, _) = build_forecast-fields name row.forecast e in
      let (n, c, _) = build_forecast-fields name r.forecast b.0 in
      (
        subst (λ x. IsEarlier f.as_of f.symbol x g.symbol) n
            (subst (λ x. IsEarlier f.as_of f.symbol r.forecast.as_of x) c
              (subst (λ x. IsEarlier x f.symbol r.forecast.as_of r.forecast.symbol) m
                (subst (λ x. IsEarlier row.forecast.as_of x r.forecast.as_of r.forecast.symbol) a
                  h.0))),
        Rebuilt-All name row f rows gs e b.1 h.1,
      )

  pub Rebuilt-Ordered :
      (name : String) (rows : List Row) (fs : List (ShadowForecast (Float rt)))
      → Rebuilt name rows fs
      → Ordered IsRowEarlier rows
      → Ordered IsForecastEarlier fs
  Rebuilt-Ordered name [] [] b h = tt
  Rebuilt-Ordered name [] (f ∷ fs) b h = absurd b
  Rebuilt-Ordered name (r ∷ rows) [] b h = absurd b
  Rebuilt-Ordered name (r ∷ rows) (f ∷ fs) b h =
      (Rebuilt-All name r f rows fs b.0 b.1 h.0, Rebuilt-Ordered name rows fs b.1 h.1)
