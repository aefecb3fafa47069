-- ===== src/Entities/Clients.antt =====
-- The mappers of the clients and the savings accounts of ingestion/fineract_ingest/entities.py: the
-- columns in the order of the source, each with the value that is parsed for it.
use fineract_analytics_platf.Prelude.{String, List, [], ◌∷◌}
use fineract_analytics_platf.Values.{object, Fields, get_field, Cell}
use fineract_analytics_platf.Outcome.{Outcome, ◌>>=◌}
use fineract_analytics_platf.Parsers.Scalars.{Library}
use fineract_analytics_platf.Parsers.Nested.{or_empty, get_of, dig}
use fineract_analytics_platf.Entities.Cells.{
  int_cell, text_cell, date_cell, decimal_cell, bool_cell, enum_cell, enum_id_cell,
}

-- map_client
unfoldable pub client_cells : Library → Fields → List (String × Outcome Cell)
client_cells lib r =
    ("client_id", int_cell (get_field r "id"))
    ∷ ("account_no", text_cell lib (get_field r "accountNo"))
    ∷ ("external_id", text_cell lib (get_field r "externalId"))
    ∷ ("status_id", enum_id_cell r "status")
    ∷ ("status_code", text_cell lib (dig (object r) ("status" ∷ "code" ∷ [])))
    ∷ ("status_value", enum_cell lib r "status")
    ∷ ("sub_status_value", enum_cell lib r "subStatus")
    ∷ ("is_active", bool_cell lib (get_field r "active"))
    ∷ ("activation_date", date_cell lib (get_field r "activationDate"))
    ∷ ("submitted_on_date", date_cell lib (dig (object r) ("timeline" ∷ "submittedOnDate" ∷ [])))
    ∷ ("closed_on_date", date_cell lib (dig (object r) ("timeline" ∷ "closedOnDate" ∷ [])))
    ∷ ("office_id", int_cell (get_field r "officeId"))
    ∷ ("office_name", text_cell lib (get_field r "officeName"))
    ∷ ("staff_id", int_cell (get_field r "staffId"))
    ∷ ("staff_name", text_cell lib (get_field r "staffName"))
    ∷ ("legal_form_value", enum_cell lib r "legalForm")
    ∷ ("gender_value", enum_cell lib r "gender")
    ∷ ("client_type_value", enum_cell lib r "clientType")
    ∷ ("client_classification_value", enum_cell lib r "clientClassification")
    ∷ ("firstname", text_cell lib (get_field r "firstname"))
    ∷ ("lastname", text_cell lib (get_field r "lastname"))
    ∷ ("display_name", text_cell lib (get_field r "displayName"))
    ∷ ("mobile_no", text_cell lib (get_field r "mobileNo"))
    ∷ ("email_address", text_cell lib (get_field r "emailAddress"))
    ∷ ("date_of_birth", date_cell lib (get_field r "dateOfBirth"))
    ∷ []

-- map_savings_account
unfoldable pub savings_account_cells : Library → Fields → List (String × Outcome Cell)
savings_account_cells lib r =
    let summary = or_empty (get_field r "summary") in
    let status = or_empty (get_field r "status") in
    let timeline = or_empty (get_field r "timeline") in
    ("savings_id", int_cell (get_field r "id"))
    ∷ ("account_no", text_cell lib (get_field r "accountNo"))
    ∷ ("client_id", int_cell (get_field r "clientId"))
    ∷ ("client_name", text_cell lib (get_field r "clientName"))
    ∷ ("product_id", int_cell (get_field r "savingsProductId"))
    ∷ ("product_name", text_cell lib (get_field r "savingsProductName"))
    ∷ ("office_id", int_cell (get_field r "officeId"))
    ∷ ("field_officer_id", int_cell (get_field r "fieldOfficerId"))
    ∷ ("status_id", (get_of status "id") >>= int_cell)
    ∷ ("status_value", (get_of status "value") >>= text_cell lib)
    ∷ ("is_active", (get_of status "active") >>= bool_cell lib)
    ∷ ("currency_code", text_cell lib (dig (object r) ("currency" ∷ "code" ∷ [])))
    ∷ ("nominal_annual_interest_rate", decimal_cell (get_field r "nominalAnnualInterestRate"))
    ∷ ("submitted_on_date", (get_of timeline "submittedOnDate") >>= date_cell lib)
    ∷ ("activated_on_date", (get_of timeline "activatedOnDate") >>= date_cell lib)
    ∷ ("closed_on_date", (get_of timeline "closedOnDate") >>= date_cell lib)
    ∷ ("account_balance", (get_of summary "accountBalance") >>= decimal_cell)
    ∷ ("available_balance", (get_of summary "availableBalance") >>= decimal_cell)
    ∷ ("total_deposits", (get_of summary "totalDeposits") >>= decimal_cell)
    ∷ ("total_withdrawals", (get_of summary "totalWithdrawals") >>= decimal_cell)
    ∷ ("total_interest_posted", (get_of summary "totalInterestPosted") >>= decimal_cell)
    ∷ []
