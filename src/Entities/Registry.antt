-- ===== src/Entities/Registry.antt =====
-- `ENTITIES`, `DEFAULT_ORDER` and `get_entity` of ingestion/fineract_ingest/entities.py.
use fineract_analytics_platf.Prelude.{
  String, true, false, none, some, List, [], ◌∷◌, str_eq, if◌then◌else◌,
}
use fineract_analytics_platf.Prelude.Int.{pos}
use fineract_analytics_platf.Values.{fin}
use fineract_analytics_platf.Outcome.{Outcome, ok, raised, key_error}
use fineract_analytics_platf.Entities.Spec.{
  expectation, not_null, unique, non_negative, range, row_count_min, error, warn, EntitySpec,
  mapper_of, full, parent,
}
use fineract_analytics_platf.Entities.Products.{
  office_cells, staff_cells, loan_product_cells, savings_product_cells,
}
use fineract_analytics_platf.Entities.Clients.{client_cells, savings_account_cells}
use fineract_analytics_platf.Entities.Loans.{loan_cells, loan_transaction_cells}

abbrev pub offices : EntitySpec
offices = record {
  name = "offices";
  path = "offices";
  table = "oltp.offices";
  primary_key = "office_id";
  mapper = mapper_of office_cells;
  paged = false;
  params = [];
  mode = full;
  parent_entity = none;
  parent_id_query = none;
  expectations =
      expectation "office_id_not_null" not_null ("office_id" ∷ []) error
      ∷ expectation "office_id_unique" unique ("office_id" ∷ []) error
      ∷ record (expectation "has_head_office" row_count_min [] error) {
        min_value = some (fin (pos 1) 0);
      }
      ∷ [];
}

abbrev pub staff : EntitySpec
staff = record {
  name = "staff";
  path = "staff";
  table = "oltp.staff";
  primary_key = "staff_id";
  mapper = mapper_of staff_cells;
  paged = false;
  params = [];
  mode = full;
  parent_entity = none;
  parent_id_query = none;
  expectations =
      expectation "staff_id_not_null" not_null ("staff_id" ∷ []) error
      ∷ expectation "staff_id_unique" unique ("staff_id" ∷ []) error
      ∷ [];
}

abbrev pub loan_products : EntitySpec
loan_products = record {
  name = "loan_products";
  path = "loanproducts";
  table = "oltp.loan_products";
  primary_key = "product_id";
  mapper = mapper_of loan_product_cells;
  paged = false;
  params = [];
  mode = full;
  parent_entity = none;
  parent_id_query = none;
  expectations =
      expectation "product_id_not_null" not_null ("product_id" ∷ []) error
      ∷ expectation "product_id_unique" unique ("product_id" ∷ []) error
      ∷ expectation "principal_non_negative" non_negative ("principal" ∷ []) warn
      ∷ [];
}

abbrev pub savings_products : EntitySpec
savings_products = record {
  name = "savings_products";
  path = "savingsproducts";
  table = "oltp.savings_products";
  primary_key = "product_id";
  mapper = mapper_of savings_product_cells;
  paged = false;
  params = [];
  mode = full;
  parent_entity = none;
  parent_id_query = none;
  expectations =
      expectation "product_id_not_null" not_null ("product_id" ∷ []) error
      ∷ expectation "product_id_unique" unique ("product_id" ∷ []) error
      ∷ [];
}

abbrev pub clients : EntitySpec
clients = record {
  name = "clients";
  path = "clients";
  table = "oltp.clients";
  primary_key = "client_id";
  mapper = mapper_of client_cells;
  paged = true;
  params = [];
  mode = full;
  parent_entity = none;
  parent_id_query = none;
  expectations =
      expectation "client_id_not_null" not_null ("client_id" ∷ []) error
      ∷ expectation "client_id_unique" unique ("client_id" ∷ []) error
      ∷ expectation "office_id_not_null" not_null ("office_id" ∷ []) warn
      ∷ [];
}

abbrev pub loans : EntitySpec
loans = record {
  name = "loans";
  path = "loans";
  table = "oltp.loans";
  primary_key = "loan_id";
  mapper = mapper_of loan_cells;
  paged = true;
  params = [];
  mode = full;
  parent_entity = none;
  parent_id_query = none;
  expectations =
      expectation "loan_id_not_null" not_null ("loan_id" ∷ []) error
      ∷ expectation "loan_id_unique" unique ("loan_id" ∷ []) error
      ∷ expectation "client_id_not_null" not_null ("client_id" ∷ []) warn
      ∷ expectation "principal_non_negative" non_negative ("principal" ∷ []) error
      ∷ expectation "outstanding_non_negative" non_negative
          ("principal_outstanding" ∷ "total_outstanding" ∷ []) warn
      ∷ record (expectation "interest_rate_sane" range ("annual_interest_rate" ∷ []) warn) {
        min_value = some (fin (pos 0) 0);
        max_value = some (fin (pos 200) 0);
      }
      ∷ [];
}

abbrev pub savings_accounts : EntitySpec
savings_accounts = record {
  name = "savings_accounts";
  path = "savingsaccounts";
  table = "oltp.savings_accounts";
  primary_key = "savings_id";
  mapper = mapper_of savings_account_cells;
  paged = true;
  params = [];
  mode = full;
  parent_entity = none;
  parent_id_query = none;
  expectations =
      expectation "savings_id_not_null" not_null ("savings_id" ∷ []) error
      ∷ expectation "savings_id_unique" unique ("savings_id" ∷ []) error
      ∷ [];
}

abbrev pub loan_transactions : EntitySpec
loan_transactions = record {
  name = "loan_transactions";
  path = "loans/{parent_id}/transactions";
  table = "oltp.loan_transactions";
  primary_key = "transaction_id";
  mapper = mapper_of loan_transaction_cells;
  paged = false;
  params = [];
  mode = parent;
  parent_entity = some "loans";
  parent_id_query =
      some
        "SELECT loan_id FROM oltp.loans WHERE disbursed_on_date IS NOT NULL ORDER BY coalesce(_updated_at, _ingested_at) DESC";
  expectations =
      expectation "transaction_id_not_null" not_null ("transaction_id" ∷ []) error
      ∷ expectation "transaction_id_unique" unique ("transaction_id" ∷ []) error
      ∷ expectation "loan_id_not_null" not_null ("loan_id" ∷ []) error
      ∷ expectation "amount_non_negative" non_negative ("amount" ∷ []) warn
      ∷ [];
}

-- ENTITIES, whose keys are the entities' names
abbrev pub entities : List EntitySpec
entities =
    offices ∷ staff ∷ loan_products ∷ savings_products ∷ clients ∷ loans ∷ savings_accounts
    ∷ loan_transactions ∷ []

-- DEFAULT_ORDER
abbrev pub default_order : List String
default_order =
    "offices" ∷ "staff" ∷ "loan_products" ∷ "savings_products" ∷ "clients" ∷ "loans"
    ∷ "savings_accounts" ∷ "loan_transactions" ∷ []

abbrev find_entity : String → List EntitySpec → Outcome EntitySpec
find_entity name [] = raised (key_error name)
find_entity name (spec ∷ specs) = if str_eq spec.name name then ok spec else find_entity name specs

unfoldable pub get_entity : String → Outcome EntitySpec
get_entity name = find_entity name entities
