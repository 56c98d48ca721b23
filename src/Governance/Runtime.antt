-- ===== src/Governance/Runtime.antt =====
-- What the governance store takes from outside the package: SHA-256, the JSON encoder and decoder and
-- a few functions on texts of Python's standard library. Instants are microseconds in UTC.
use signalattice.Prelude.{ap, ◌≡◌, ℕ, Option, String}
use signalattice.Governance.Lane.{GovernanceLane, FreezeTrigger}

-- The JSON objects that a lane records: the two that the store itself writes, and any other.
pub data Payload : Type 0 where
  -- {"champion_revision", "generation", "previous_champion", "previous_generation"}
  assignment_payload : String → ℕ → Option String → ℕ → Payload
  -- {"trigger", "detail"}
  freeze_payload : FreezeTrigger → String → Payload
  -- an object with neither "champion_revision" nor "trigger"
  document : String → Payload

pub record Runtime : Type 0 where
  -- the lowercase hexadecimal SHA-256 digest of a text in UTF-8
  pub sha256 : String → String
  -- `json.dumps(..., sort_keys=True, separators=(",", ":"), allow_nan=False)`
  pub encode : Payload → String
  -- `json.loads` of a text that `encode` returned
  pub decode : String → Payload
  pub encode_lane : GovernanceLane → String
  -- the size of a text in UTF-8
  pub utf8_size : String → ℕ
  -- `str` of an integer that is not negative
  pub decimal : ℕ → String
  -- `str.strip`
  pub strip : String → String

module _ (rt : Runtime) where
  -- The payload that is read back is digested as the one that was recorded.
  abbrev pub IsStable : Payload → Type 0
  IsStable payload = rt.encode (rt.decode (rt.encode payload)) ≡ rt.encode payload

  -- The payload that is read back is the one that was recorded.
  abbrev pub IsRestored : Payload → Type 0
  IsRestored payload = rt.decode (rt.encode payload) ≡ payload

  pub IsRestored-IsStable : (payload : Payload) → IsRestored payload → IsStable payload
  IsRestored-IsStable payload h = ap rt.encode h
