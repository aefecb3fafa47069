-- ===== src/Entities/Products.antt =====
-- The mappers of the offices, the staff and the products of ingestion/fineract_ingest/entities.py: the
-- columns in the order of the source, each with the value that is parsed for it.
use fineract_analytics_platf.Prelude.{String, List, [], ◌∷◌}
use fineract_analytics_platf.Values.{object, Fields, get_field, Cell}
use fineract_analytics_platf.Outcome.{Outcome}
use fineract_analytics_platf.Parsers.Scalars.{Library}
use fineract_analytics_platf.Parsers.Nested.{dig}
use fineract_analytics_platf.Entities.Cells.{
  int_cell, text_cell, date_cell, decimal_cell, bool_cell, enum_cell,
}

-- map_office
unfoldable pub office_cells : Library → Fields → List (String × Outcome Cell)
office_cells lib r =
    ("office_id", int_cell (get_field r "id"))
    ∷ ("name", text_cell lib (get_field r "name"))
    ∷ ("name_decorated", text_cell lib (get_field r "nameDecorated"))
    ∷ ("external_id", text_cell lib (get_field r "externalId"))
    ∷ ("parent_id", int_cell (get_field r "parentId"))
    ∷ ("parent_name", text_cell lib (get_field r "parentName"))
    ∷ ("hierarchy", text_cell lib (get_field r "hierarchy"))
    ∷ ("opening_date", date_cell lib (get_field r "openingDate"))
    ∷ []

-- map_staff
unfoldable pub staff_cells : Library → Fields → List (String × Outcome Cell)
staff_cells lib r =
    ("staff_id", int_cell (get_field r "id"))
    ∷ ("display_name", text_cell lib (get_field r "displayName"))
    ∷ ("firstname", text_cell lib (get_field r "firstname"))
    ∷ ("lastname", text_cell lib (get_field r "lastname"))
    ∷ ("office_id", int_cell (get_field r "officeId"))
    ∷ ("office_name", text_cell lib (get_field r "officeName"))
    ∷ ("mobile_no", text_cell lib (get_field r "mobileNo"))
    ∷ ("is_loan_officer", bool_cell lib (get_field r "isLoanOfficer"))
    ∷ ("is_active", bool_cell lib (get_field r "isActive"))
    ∷ ("joining_date", date_cell lib (get_field r "joiningDate"))
    ∷ []

-- map_loan_product
unfoldable pub loan_product_cells : Library → Fields → List (String × Outcome Cell)
loan_product_cells lib r =
    ("product_id", int_cell (get_field r "id"))
    ∷ ("name", text_cell lib (get_field r "name"))
    ∷ ("short_name", text_cell lib (get_field r "shortName"))
    ∷ ("description", text_cell lib (get_field r "description"))
    ∷ ("fund_name", text_cell lib (get_field r "fundName"))
    ∷ ("currency_code", text_cell lib (dig (object r) ("currency" ∷ "code" ∷ [])))
    ∷ ("currency_decimal_places", int_cell (dig (object r) ("currency" ∷ "decimalPlaces" ∷ [])))
    ∷ ("principal", decimal_cell (get_field r "principal"))
    ∷ ("min_principal", decimal_cell (get_field r "minPrincipal"))
    ∷ ("max_principal", decimal_cell (get_field r "maxPrincipal"))
    ∷ ("number_of_repayments", int_cell (get_field r "numberOfRepayments"))
    ∷ ("repayment_every", int_cell (get_field r "repaymentEvery"))
    ∷ ("repayment_frequency_type", enum_cell lib r "repaymentFrequencyType")
    ∷ ("interest_rate_per_period", decimal_cell (get_field r "interestRatePerPeriod"))
    ∷ ("interest_rate_frequency_type", enum_cell lib r "interestRateFrequencyType")
    ∷ ("annual_interest_rate", decimal_cell (get_field r "annualInterestRate"))
    ∷ ("amortization_type", enum_cell lib r "amortizationType")
    ∷ ("interest_type", enum_cell lib r "interestType")
    ∷ ("interest_calculation_period_type", enum_cell lib r "interestCalculationPeriodType")
    ∷ ("status", text_cell lib (get_field r "status"))
    ∷ ("start_date", date_cell lib (get_field r "startDate"))
    ∷ ("close_date", date_cell lib (get_field r "closeDate"))
    ∷ []

-- map_savings_product
unfoldable pub savings_product_cells : Library → Fields → List (String × Outcome Cell)
savings_product_cells lib r =
    ("product_id", int_cell (get_field r "id"))
    ∷ ("name", text_cell lib (get_field r "name"))
    ∷ ("short_name", text_cell lib (get_field r "shortName"))
    ∷ ("description", text_cell lib (get_field r "description"))
    ∷ ("currency_code", text_cell lib (dig (object r) ("currency" ∷ "code" ∷ [])))
    ∷ ("currency_decimal_places", int_cell (dig (object r) ("currency" ∷ "decimalPlaces" ∷ [])))
    ∷ ("nominal_annual_interest_rate", decimal_cell (get_field r "nominalAnnualInterestRate"))
    ∷ ("interest_compounding_period_type", enum_cell lib r "interestCompoundingPeriodType")
    ∷ ("interest_posting_period_type", enum_cell lib r "interestPostingPeriodType")
    ∷ ("min_required_opening_balance", decimal_cell (get_field r "minRequiredOpeningBalance"))
    ∷ ("status", text_cell lib (get_field r "status"))
    ∷ []
