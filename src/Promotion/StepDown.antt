-- ===== src/Promotion/StepDown.antt =====
-- `holm_adjust` of governance/inference.py against Holm's step-down procedure.
use signalattice.Prelude.{
  >>=-eq-ok, Bool, List, String, [], all, all-sorted, ap, arith, codes, is_empty, leb_codes, length,
  map, map-sorted, not, ok, ok-injective, refl, refuse, require, require-true, sorted, sym, true, ℕ,
  ◌&&◌, ◌+◌, ◌||◌, ◌∙◌, ◌∷◌, ◌≡◌,
}
use signalattice.Service.Admission.Arithmetic.{Floats}
use signalattice.Promotion.{Correction}
use signalattice.Promotion.Holm.{
  adjust, by_name, capped, holm_adjust, is_before, is_p_value, raised,
}

-- What the proof takes of IEEE arithmetic: the values that are not NaN are ordered totally.
pub record OrderLaws (fl : Floats) : Type 0 where
  pub is_number : fl.Float → Bool
  pub total :
      (a b : fl.Float)
      → is_number a ≡ true
      → is_number b ≡ true
      → (fl.is_at_most a b || fl.is_at_most b a) ≡ true
  pub less :
      (a b : fl.Float)
      → is_number a ≡ true
      → is_number b ≡ true
      → fl.is_less a b ≡ not (fl.is_at_most b a)
  pub trans :
      (a b c : fl.Float)
      → fl.is_at_most a b ≡ true
      → fl.is_at_most b c ≡ true
      → fl.is_at_most a c ≡ true
  pub whole : (n : ℕ) → is_number (fl.from_nat n) ≡ true
  pub scaled :
      (n : ℕ) (p : fl.Float)
      → is_p_value fl p ≡ true
      → is_number (fl.times (fl.from_nat n) p) ≡ true

module _ (fl : Floats) where
  -- Holm's procedure over the ordered family: a hypothesis is rejected as long as all before it are
  -- and its p-value, times the number of hypotheses that are left, is at most the level.
  pub step_down : fl.Float → Bool → List (String × fl.Float) → List (String × Bool)
  step_down alpha going [] = []
  step_down alpha going ((name, p) ∷ rest) =
      let keeps = going && fl.is_at_most (fl.times (fl.from_nat (length rest + 1)) p) alpha in
      (name, keeps) ∷ step_down alpha keeps rest

  abbrev reject : fl.Float → String × fl.Float → String × Bool
  reject alpha item = (item.0, fl.is_at_most item.1 alpha)

  module _ (laws : OrderLaws fl) (alpha : fl.Float) (number : laws.is_number alpha ≡ true)
      (below : fl.is_less alpha (fl.from_nat 1) ≡ true) where
    capped-alpha :
        (y : fl.Float)
        → laws.is_number y ≡ true
        → fl.is_at_most (capped fl y) alpha ≡ fl.is_at_most y alpha
    capped-alpha y n = ground (
      arith,
      laws.less y (fl.from_nat 1) n (laws.whole 1),
      laws.less alpha (fl.from_nat 1) number (laws.whole 1),
      laws.trans (fl.from_nat 1) y alpha,
    )

    raised-alpha :
        (r x : fl.Float)
        → laws.is_number r ≡ true
        → laws.is_number x ≡ true
        → fl.is_at_most (raised fl r x) alpha ≡ (fl.is_at_most r alpha && fl.is_at_most x alpha)
    raised-alpha r x m n =
        ground
          (arith, laws.less r x m n, laws.total r x m n, laws.trans r x alpha, laws.trans x r alpha)

    capped-number : (y : fl.Float) → laws.is_number y ≡ true → laws.is_number (capped fl y) ≡ true
    capped-number y n = ground (arith, laws.whole 1)

    raised-number :
        (r x : fl.Float)
        → laws.is_number r ≡ true
        → laws.is_number x ≡ true
        → laws.is_number (raised fl r x) ≡ true
    raised-number r x m n = ground arith

    adjust-step_down :
        (r : fl.Float) (xs : List (String × fl.Float))
        → laws.is_number r ≡ true
        → all (λ item. is_p_value fl item.1) xs ≡ true
        → map (reject alpha) (adjust fl r xs) ≡ step_down alpha (fl.is_at_most r alpha) xs
    unfolding adjust step_down
    adjust-step_down r [] n h = refl
    adjust-step_down r ((name, p) ∷ rest) n h =
        let y = fl.times (fl.from_nat (length rest + 1)) p in
        let ny = laws.scaled (length rest + 1) p (ground arith) in
        let now = raised fl r (capped fl y) in
        let nn = raised-number r (capped fl y) n (capped-number y ny) in
        let same =
          raised-alpha r (capped fl y) n (capped-number y ny)
          ∙ ap (λ b. fl.is_at_most r alpha && b) (capped-alpha y ny) in
        let tail = adjust-step_down now rest nn (ground arith) in
        ap (λ zs. (name, fl.is_at_most now alpha) ∷ zs) tail
        ∙ ap (λ b. (name, b) ∷ step_down alpha b rest) same

    -- For a level that is less than one and at least zero, the hypotheses that `holm_adjust` rejects,
    -- by comparing adjusted p-values with the level, are those that Holm's step-down procedure
    -- rejects on the family in the order of its p-values.
    pub holm_adjust-step_down :
        (p_values : List (String × fl.Float)) (c : Correction fl.Float)
        → fl.is_at_most (fl.from_nat 0) alpha ≡ true
        → holm_adjust fl p_values alpha ≡ ok c
        → c.rejected ≡ by_name (step_down alpha true (sorted (is_before fl) p_values))
    unfolding holm_adjust
    holm_adjust-step_down p_values c z e =
        let (_, _, e1) = >>=-eq-ok (refuse (is_empty p_values) _) _ e in
        let (_, family, e2) =
          >>=-eq-ok (require (all (λ item. is_p_value fl item.1) p_values) _) _ e1 in
        let ordered = sorted (is_before fl) p_values in
        let tested =
          all-sorted (is_before fl) (λ item. is_p_value fl item.1) p_values
            (require-true _ _ family) in
        sym (ap (λ c. c.rejected) (ok-injective e2))
        ∙ map-sorted (λ a b. leb_codes (codes a.0) (codes b.0))
            (λ a b. leb_codes (codes a.0) (codes b.0)) (reject alpha) (λ a b. refl)
            (adjust fl (fl.from_nat 0) ordered)
        ∙ ap by_name (
            adjust-step_down (fl.from_nat 0) ordered (laws.whole 0) tested
            ∙ ap (λ b. step_down alpha b ordered) z)
