-- ===== src/Dbt/Engine.antt =====
-- `Engine`, `split_statements` and `create_raw_layer` of scripts/validate_dbt_sql.py. The embedded
-- ClickHouse is a parameter: what it answers to a statement, in a state.
use fineract_analytics_platf.Prelude.{
  ℕ, Bool, false, not, ◌&&◌, ◌||◌, ◌==◌, leb, List, [], ◌∷◌, select, if◌then◌else◌,
}
use fineract_analytics_platf.Values.{Text}
use fineract_analytics_platf.Outcome.{Outcome, ok, raised}
use fineract_analytics_platf.Parsers.Scan.{strip}
use fineract_analytics_platf.Parsers.Split.{push, join_on, stripped_parts}

-- What the script does with the engine, whose states are `S`.
abbrev pub Script : Type 0 → Type 0 → Type 0
Script S A = S → Outcome A × S

abbrev pub Engine : Type 0 → Type 0
Engine S = Text → Script S Text

abbrev pub pure : {S A : Type 0} → A → Script S A
pure a s = (ok a, s)

abbrev pub after : {S A B : Type 0} → Outcome A × S → (A → Script S B) → Outcome B × S
after (ok a, s) f = f a s
after (raised x, s) f = (raised x, s)

infixl 20 ◌>>=◌
abbrev pub ◌>>=◌ : {S A B : Type 0} → Script S A → (A → Script S B) → Script S B
(r >>= f) s = after (r s) f

-- Something that the engine has no part in, and that may raise.
abbrev pub lift : {S A : Type 0} → Outcome A → Script S A
lift r s = (r, s)

unfoldable pub lstrip_quotes : Text → Text
lstrip_quotes [] = []
lstrip_quotes (c ∷ t) = let rest = lstrip_quotes t in if c == b'"' then rest else c ∷ t

abbrev quote_end : ℕ → Text → Text
quote_end c [] = if c == b'"' then [] else c ∷ []
quote_end c (d ∷ t) = c ∷ d ∷ t

unfoldable pub rstrip_quotes : Text → Text
rstrip_quotes [] = []
rstrip_quotes (c ∷ t) = quote_end c (rstrip_quotes t)

-- answer.strip().strip('"')
abbrev pub unquoted : Text → Text
unquoted t = rstrip_quotes (lstrip_quotes (strip t))

-- Engine.scalar
abbrev pub scalar : {S : Type 0} → Engine S → Engine S
scalar e query = e query >>= λ t. pure (unquoted t)

-- The characters that end a line for str.splitlines
abbrev is_line_end : ℕ → Bool
is_line_end c =
    (leb 10 c && leb c 13) || (leb 28 c && leb c 30) || c == 133 || c == 8232 || c == 8233

abbrev starts_with : ℕ → Text → Bool
starts_with d [] = false
starts_with d (c ∷ t) = c == d

-- sql.splitlines(), where CR LF is one end
unfoldable pub split_lines : Text → List Text
split_lines [] = []
split_lines (c ∷ t) =
    let rest = split_lines t in
    if c == 13 && starts_with 10 t then rest else if is_line_end c then [] ∷ rest else push c rest

-- text.startswith("--")
abbrev is_comment : Text → Bool
is_comment (c ∷ t) = c == b'-' && starts_with b'-' t
is_comment [] = false

unfoldable pub split_statements : Text → List Text
split_statements sql =
    stripped_parts b';' (join_on 10 (select (λ l. not (is_comment (strip l))) (split_lines sql)))

-- for statement in statements: engine.run(statement)
unfoldable pub run_statements : {S : Type 0} → Engine S → List Text → Script S (Unit {0})
run_statements e [] = pure tt
run_statements e (q ∷ qs) = e q >>= λ _. run_statements e qs

-- A file of platform/clickhouse/init: whether its name has "kafka" in it, and its text.
pub record InitFile : Type 0 where
  pub is_kafka : Bool
  pub sql : Text

-- create_raw_layer, of the files in order; `stub` is `stub_kafka_engines`.
unfoldable pub create_raw_layer :
    {S : Type 0} → Engine S → (Text → Text) → List InitFile → Script S (Unit {0})
create_raw_layer e stub [] = pure tt
create_raw_layer e stub (f ∷ fs) =
    run_statements e (split_statements (if f.is_kafka then stub f.sql else f.sql)) >>= λ _.
    create_raw_layer e stub fs
