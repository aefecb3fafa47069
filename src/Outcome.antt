-- ===== src/Outcome.antt =====
-- Python's exceptions as values. The text of an exception is left to its constructor.
use fineract_analytics_platf.Prelude.{ℕ, String, List}
use fineract_analytics_platf.Client.Types.{FineractError}

pub data Exception : Type 0 where
  value_error : Exception
  type_error : Exception
  overflow_error : Exception
  attribute_error : Exception
  key_error : String → Exception
  api : FineractError → Exception
  database : Exception
  index_error : Exception
  no_response : Exception
  http_status : ℕ → Exception
  runtime_error : Exception
  stop_iteration : Exception
  airflow_fail : List String → Exception
  airflow_skip : Exception
  reject_ratio : ℕ → ℕ → Exception
  blocking : List String → Exception

pub data Outcome {ℓ} (A : Type ℓ) : Type ℓ where
  ok : A → Outcome A
  raised : Exception → Outcome A

infixl 5 ◌>>=◌
abbrev pub ◌>>=◌ {ℓ κ} : {A : Type ℓ} {B : Type κ} → Outcome A → (A → Outcome B) → Outcome B
ok a >>= f = f a
raised e >>= f = raised e
