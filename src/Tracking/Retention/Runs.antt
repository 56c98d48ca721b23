-- ===== src/Tracking/Retention/Runs.antt =====
-- A method of tracking/retention.py that runs alone: it may raise after it has changed the tables or
-- the objects of the store. Each sample of the registry's clock is the next of its instants.
use signalattice.Prelude.{Result, err, ok, ℕ, ◌+◌}
use signalattice.Tracking.Retention.{RetentionError}
use signalattice.Tracking.Retention.Tables.{RetentionTables}

pub record World (Objects : Type 0) : Type 0 where
  pub tables : RetentionTables
  pub objects : Objects
  pub instants : ℕ → ℕ
  pub samples : ℕ

abbrev pub Run : Type 0 → Type 0 → Type 0
Run Objects A = World Objects → World Objects × Result RetentionError A

module _ {Objects : Type 0} where
  abbrev pub continue :
      {A B : Type 0}
      → World Objects × Result RetentionError A
      → (A → Run Objects B)
      → World Objects × Result RetentionError B
  continue (w, ok a) rest = rest a w
  continue (w, err e) rest = (w, err e)

  infixl 5 ◌>>=◌ ◌>>◌
  abbrev pub ◌>>=◌ : {A B : Type 0} → Run Objects A → (A → Run Objects B) → Run Objects B
  (first >>= rest) w = continue (first w) rest

  abbrev pub ◌>>◌ : {A B : Type 0} → Run Objects A → Run Objects B → Run Objects B
  (first >> second) w = continue (first w) (λ _. second)

  abbrev pub return : {A : Type 0} → A → Run Objects A
  return a w = (w, ok a)

  -- `except (RegistryError, ArtifactStoreError)`.
  abbrev pub handle :
      {A : Type 0}
      → World Objects × Result RetentionError A
      → (RetentionError → Run Objects A)
      → World Objects × Result RetentionError A
  handle (w, ok a) handler = (w, ok a)
  handle (w, err e) handler = handler e w

  abbrev pub attempt :
      {A : Type 0} → Run Objects A → (RetentionError → Run Objects A) → Run Objects A
  attempt first handler w = handle (first w) handler

  -- A check, which changes nothing.
  abbrev pub reads :
      {A : Type 0} → (RetentionTables → Objects → Result RetentionError A) → Run Objects A
  reads check w = (w, check w.tables w.objects)

  -- A write transaction: it commits the tables that it returns, or nothing.
  abbrev pub commit :
      {A : Type 0}
      → World Objects
      → Result RetentionError (A × RetentionTables)
      → World Objects × Result RetentionError A
  commit w (ok (a, t)) = (record w { tables = t }, ok a)
  commit w (err e) = (w, err e)

  abbrev pub writes :
      {A : Type 0}
      → (RetentionTables → Objects → Result RetentionError (A × RetentionTables))
      → Run Objects A
  writes transaction w = commit w (transaction w.tables w.objects)

  -- `registry._now()`.
  abbrev pub sample : Run Objects ℕ
  sample w = (record w { samples = w.samples + 1 }, ok (w.instants w.samples))
