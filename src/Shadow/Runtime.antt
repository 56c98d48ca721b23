-- ===== src/Shadow/Runtime.antt =====
-- What the shadow campaigns take from outside the package: SHA-256, the JSON encoder and decoder, functions on
-- texts and on floats of Python's standard library.
use signalattice.Prelude.{ℕ, List, String}
use signalattice.Service.Admission.Arithmetic.{Floats}
use signalattice.Shadow.{ProbabilityVector, ShadowForecast}

pub record ShadowRuntime : Type 1 where
  pub floats : Floats
  -- `math.fsum`, `abs` and PROBABILITY_SUM_TOLERANCE
  pub fsum : List floats.Float → floats.Float
  pub absolute : floats.Float → floats.Float
  pub tolerance : floats.Float
  -- `str.strip`
  pub strip : String → String
  -- the lowercase hexadecimal SHA-256 digest of a text in UTF-8
  pub sha256 : String → String
  -- `json.dumps` of the objects that identify a forecast and a batch, with sorted keys
  pub encode_forecast : ShadowForecast floats.Float → String
  pub encode_batch : String → ℕ → List String → List String → String
  -- `json.dumps` of a distribution with sorted keys, and the labels and the probabilities that
  -- `json.loads` finds in such a text
  pub encode_distribution : ProbabilityVector floats.Float → String
  pub decode_distribution : String → ProbabilityVector floats.Float
  -- `json.dumps` of a list of labels
  pub encode_labels : List String → String
