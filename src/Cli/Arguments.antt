-- ===== src/Cli/Arguments.antt =====
-- The argument of `--entities`, as `main` of ingestion/fineract_ingest/cli.py takes it apart.
use fineract_analytics_platf.Prelude.{◌≡◌, refl, List, [], ◌∷◌, All}
use fineract_analytics_platf.Values.{Text}
use fineract_analytics_platf.Parsers.Scan.{strip, lstrip, rstrip}
use fineract_analytics_platf.Parsers.Split.{
  split_on, stripped_parts, join_on, IsPart, stripped_parts-join_on,
}

-- [e.strip() for e in args.entities.split(",") if e.strip()]
unfoldable pub entity_names : Text → List Text
entity_names = stripped_parts b','

-- A name with neither a comma nor spaces around it.
abbrev IsName : Text → Type 0
IsName = IsPart b','

-- ",".join(ts)
abbrev join_commas : List Text → Text
join_commas = join_on b','

-- The names that a caller joins by commas are the names that the command runs: none is lost, none is
-- added and their order is kept, where there is at least one, and each is a name.
entity_names-join_commas :
    (t : Text) (ts : List Text) → All IsName (t ∷ ts) → entity_names (join_commas (t ∷ ts)) ≡ t ∷ ts
unfolding entity_names
entity_names-join_commas t ts h = stripped_parts-join_on b',' t ts h

-- A text of commas and spaces names nothing.
commas_name_nothing : entity_names (b',' ∷ b' ' ∷ b',' ∷ []) ≡ []
unfolding entity_names stripped_parts split_on strip lstrip rstrip
commas_name_nothing = refl
