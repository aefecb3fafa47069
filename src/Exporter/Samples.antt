-- ===== src/Exporter/Samples.antt =====
-- `MetricSample` of observability/exporter/pipeline_exporter/collectors.py, and the Python that its
-- collectors are written in.
use fineract_analytics_platf.Prelude.{String, Bool, false, List, [], ◌∷◌, if◌then◌else◌}
use fineract_analytics_platf.Prelude.Int.{pos, scale_ℤ}
use fineract_analytics_platf.Values.{Value, Number, fin, chars, text_eq}
use fineract_analytics_platf.Parsers.Scalars.{float_of}
use fineract_analytics_platf.Parsers.Nested.{truthy}
use fineract_analytics_platf.Outcome.{Outcome, ok, raised, value_error, ◌>>=◌}

abbrev pub Labels : Type 0
Labels = List (String × Value)

pub record MetricSample : Type 0 where
  pub labels : Labels
  pub value : Number

-- What a collector returns: samples by the name of a metric.
abbrev pub Results : Type 0
Results = List (String × List MetricSample)

abbrev pub sample : Labels → Number → MetricSample
sample ls x = record { labels = ls; value = x }

-- A comprehension whose element may raise.
abbrev pub traverse {ℓ κ} : {A : Type ℓ} {B : Type κ} → (A → Outcome B) → List A → Outcome (List B)
traverse f [] = ok []
traverse f (x ∷ xs) = f x >>= λ y. traverse f xs >>= λ ys. ok (y ∷ ys)

-- `1.0 if b else 0.0`
abbrev pub flag : Bool → Number
flag b = if b then fin (pos 1) 0 else fin (pos 0) 0

-- float(v or 0)
unfoldable pub float_or_zero : Value → Outcome Number
float_or_zero v = if truthy v then float_of v else ok (fin (pos 0) 0)

-- v == "success"
abbrev pub is_success : Value → Bool
is_success (Value.text t) = text_eq t (chars "success")
is_success _ = false

-- The unpacking of a row into two or three names.
abbrev pub pair_of : List Value → Outcome (Value × Value)
pair_of (a ∷ b ∷ []) = ok (a, b)
pair_of _ = raised value_error

abbrev pub triple_of : List Value → Outcome (Value × Value × Value)
triple_of (a ∷ b ∷ c ∷ []) = ok (a, b, c)
triple_of _ = raised value_error

-- x * 1024 * 1024
abbrev pub mebibytes : Number → Number
mebibytes (fin m s) = fin (scale_ℤ m 1048576) s
mebibytes x = x
