-- ===== src/Governance/Lane/Fields.antt =====
-- Which texts `_lane_field` of governance/lane.py accepts.
use signalattice.Prelude.{
  ℕ, List, [], all, arith, is_lower, length, refl, suc, true, zero, ◌++◌, ◌+◌, ◌==◌, ◌||◌, ◌∷◌, ◌≡◌,
  ◌≤◌,
}
use signalattice.Governance.Lane.{field_rest, is_field_char, lane_field_matches}

-- Every code point is in the class, except that a newline may end the text.
abbrev pub InClass : List ℕ → Type 0
InClass [] = Unit
InClass (c ∷ []) = (is_field_char c || c == 10) ≡ true
InClass (c ∷ d ∷ cs) = (is_field_char c ≡ true) × InClass (d ∷ cs)

field_rest-InClass : (k : ℕ) (cs : List ℕ) → field_rest k cs ≡ true → InClass cs
unfolding field_rest
field_rest-InClass k [] h = tt
field_rest-InClass zero (c ∷ []) h = ground arith
field_rest-InClass zero (c ∷ d ∷ cs) h = ground arith
field_rest-InClass (suc k) (c ∷ []) h = ground arith
field_rest-InClass (suc k) (c ∷ d ∷ cs) h = ground (arith, field_rest-InClass k (d ∷ cs))

length-field_rest : (k : ℕ) (cs : List ℕ) → field_rest k cs ≡ true → length cs ≤ k + 1
unfolding field_rest
length-field_rest k [] h = omega arith
length-field_rest zero (c ∷ []) h = omega arith
length-field_rest zero (c ∷ d ∷ cs) h = ground arith
length-field_rest (suc k) (c ∷ []) h = omega arith
length-field_rest (suc k) (c ∷ d ∷ cs) h = ground (arith, length-field_rest k (d ∷ cs))

-- A text without a newline at its end that fits the pattern fits it with a newline added.
newline-field_rest :
    (k : ℕ) (cs : List ℕ)
    → all is_field_char cs ≡ true
    → field_rest k cs ≡ true
    → field_rest k (cs ++ 10 ∷ []) ≡ true
unfolding field_rest
newline-field_rest zero [] a h = refl
newline-field_rest (suc k) [] a h = refl
newline-field_rest zero (c ∷ []) a h = ground arith
newline-field_rest zero (c ∷ d ∷ cs) a h = ground arith
newline-field_rest (suc k) (c ∷ cs) a h = ground (arith, newline-field_rest k cs)

-- An accepted component is not empty, begins with a lowercase letter, has at most 65 code points,
-- all of them lowercase letters, digits, `_` or `-`, but that the last may be a newline.
accepted_field :
    (c : ℕ) (cs : List ℕ)
    → lane_field_matches (c ∷ cs) ≡ true
    → (is_lower c ≡ true) × (length (c ∷ cs) ≤ 65) × InClass cs
unfolding lane_field_matches
accepted_field c cs h = ground (arith, length-field_rest 63 cs, field_rest-InClass 63 cs)

-- The pattern accepts every well-formed component once more with a newline at its end: the two
-- texts are distinct lane keys.
pub accepts_newline :
    (c : ℕ) (cs : List ℕ)
    → all is_field_char cs ≡ true
    → lane_field_matches (c ∷ cs) ≡ true
    → lane_field_matches ((c ∷ cs) ++ 10 ∷ []) ≡ true
unfolding lane_field_matches
accepts_newline c cs a h = ground (arith, newline-field_rest 63 cs)
