-- ===== src/Config/Env.antt =====
-- `_env`, `_env_int`, `_env_float` and `_env_bool` of ingestion/fineract_ingest/config.py. The
-- environment is a function of the variable's name.
use fineract_analytics_platf.Prelude.{String, Bool, Option, none, some, [], ◌∷◌, any}
use fineract_analytics_platf.Prelude.Int.{ℤ}
use fineract_analytics_platf.Values.{Text, Number, text_eq, chars}
use fineract_analytics_platf.Parsers.Scan.{strip, lower, int_of_text, float_of_text}

abbrev pub Environment : Type 0
Environment = String → Option Text

abbrev pub or_default {ℓ} : {A : Type ℓ} → A → Option A → A
or_default d none = d
or_default d (some a) = a

-- _env
unfoldable pub env : Environment → String → Text → Text
env e name default = strip (or_default default (e name))

-- `f(raw) if raw else default`, with the `except ValueError`
abbrev pub read_or {ℓ} : {A : Type ℓ} → (Text → Option A) → A → Text → A
read_or f default [] = default
read_or f default (c ∷ raw) = or_default default (f (c ∷ raw))

-- _env_int
unfoldable pub env_int : Environment → String → ℤ → ℤ
env_int e name default = read_or int_of_text default (env e name [])

-- _env_float
unfoldable pub env_float : Environment → String → Number → Number
env_float e name default = read_or float_of_text default (env e name [])

abbrev pub is_yes : Text → Bool
is_yes t = any (λ w. text_eq t (chars w)) ("1" ∷ "true" ∷ "yes" ∷ "y" ∷ "on" ∷ [])

abbrev yes_or : Bool → Text → Bool
yes_or default [] = default
yes_or default (c ∷ raw) = is_yes (c ∷ raw)

-- _env_bool
unfoldable pub env_bool : Environment → String → Bool → Bool
env_bool e name default = yes_or default (lower (env e name []))
