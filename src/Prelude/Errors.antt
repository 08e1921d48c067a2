-- ===== src/Prelude/Errors.antt =====
-- The exceptions that the modelled code raises, and results that may be one of them.
use Prim.Native.String.{String}

pub data Error : Type 0 where
  -- KeyError
  key_error : String → Error
  -- ValueError of a transition that is not in the table, and of a task in another state
  invalid_transition state_mismatch : Error
  -- sqlite3.IntegrityError
  integrity_error : Error
  -- AttributeError of a result that is no dict
  attribute_error : Error
  -- graphlib.CycleError
  cycle_error : Error
  -- an outcome of the model alone: a loop was given too little fuel
  out_of_fuel : Error

pub data Result {ℓ} (A : Type ℓ) : Type ℓ where
  ok : A → Result A
  err : Error → Result A

-- A result, or the text of the exception that was raised instead.
pub data Attempt {ℓ} (A : Type ℓ) : Type ℓ where
  done : A → Attempt A
  raised : String → Attempt A
