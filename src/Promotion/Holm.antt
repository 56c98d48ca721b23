-- ===== src/Promotion/Holm.antt =====
-- `holm_adjust` of governance/inference.py: the Holm-Bonferroni correction of a family of p-values.
use signalattice.Prelude.{
  Bool, List, Result, String, [], all, codes, if◌then◌else◌, is_empty, leb_codes, length, map, not,
  ok, refuse, require, sorted, ◌&&◌, ◌+◌, ◌>>◌, ◌||◌, ◌∷◌,
}
use signalattice.Service.Admission.Arithmetic.{Floats}
use signalattice.Promotion.{Correction, DecisionError, inference_error}

-- `{name: ... for name, _ in sorted(p_values.items())}`, for names that differ.
abbrev pub by_name : {A : Type 0} → List (String × A) → List (String × A)
by_name = sorted (λ a b. leb_codes (codes a.0) (codes b.0))

module _ (fl : Floats) where
  -- The order of the tuples (p-value, name).
  abbrev pub is_before : String × fl.Float → String × fl.Float → Bool
  is_before a b =
      fl.is_less a.1 b.1 || (not (fl.is_less b.1 a.1) && leb_codes (codes a.0) (codes b.0))

  -- `math.isfinite(value) and 0.0 <= value <= 1.0`.
  abbrev pub is_p_value : fl.Float → Bool
  is_p_value p =
      fl.is_finite p && fl.is_at_most (fl.from_nat 0) p && fl.is_at_most p (fl.from_nat 1)

  -- `min(1.0, x)` and `max(running, x)`.
  abbrev pub capped : fl.Float → fl.Float
  capped x = if fl.is_less x (fl.from_nat 1) then x else fl.from_nat 1

  abbrev pub raised : fl.Float → fl.Float → fl.Float
  raised running x = if fl.is_less running x then x else running

  -- The loop over the ordered family, with the number of p-values that are left.
  unfoldable pub adjust : fl.Float → List (String × fl.Float) → List (String × fl.Float)
  adjust running [] = []
  adjust running ((name, p) ∷ rest) =
      let now = raised running (capped (fl.times (fl.from_nat (length rest + 1)) p)) in
      (name, now) ∷ adjust now rest

  unfoldable pub holm_adjust :
      List (String × fl.Float) → fl.Float → Result DecisionError (Correction fl.Float)
  holm_adjust p_values alpha = do
    refuse (is_empty p_values) inference_error
    require (all (λ item. is_p_value item.1) p_values) inference_error
    let adjusted = by_name (adjust (fl.from_nat 0) (sorted is_before p_values))
    ok (record {
      alpha = alpha;
      family_size = length p_values;
      adjusted = adjusted;
      rejected = map (λ item. (item.0, fl.is_at_most item.1 alpha)) adjusted;
    })
