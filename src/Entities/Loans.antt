-- ===== src/Entities/Loans.antt =====
-- The mappers of the loans and their transactions of ingestion/fineract_ingest/entities.py: the columns
-- in the order of the source, each with the value that is parsed for it.
use fineract_analytics_platf.Prelude.{String, List, [], ◌∷◌}
use fineract_analytics_platf.Values.{object, Fields, get_field, Cell}
use fineract_analytics_platf.Outcome.{Outcome, ◌>>=◌}
use fineract_analytics_platf.Parsers.Scalars.{Library}
use fineract_analytics_platf.Parsers.Nested.{or_else, or_empty, get_of, dig}
use fineract_analytics_platf.Entities.Cells.{
  int_cell, text_cell, date_cell, decimal_cell, bool_cell, enum_cell, false_if_none, first_truthy,
}

-- map_loan
unfoldable pub loan_cells : Library → Fields → List (String × Outcome Cell)
loan_cells lib r =
    let summary = or_empty (get_field r "summary") in
    let timeline = or_empty (get_field r "timeline") in
    let delinquent = or_empty (get_field r "delinquent") in
    let status = or_empty (get_field r "status") in
    ("loan_id", int_cell (get_field r "id"))
    ∷ ("account_no", text_cell lib (get_field r "accountNo"))
    ∷ ("external_id", text_cell lib (get_field r "externalId"))
    ∷ ("client_id", int_cell (get_field r "clientId"))
    ∷ ("client_name", text_cell lib (get_field r "clientName"))
    ∷ ("group_id", int_cell (get_field r "groupId"))
    ∷ ("product_id", int_cell (get_field r "loanProductId"))
    ∷ ("product_name", text_cell lib (get_field r "loanProductName"))
    ∷ ("office_id", int_cell (get_field r "officeId"))
    ∷ ("office_name", text_cell lib (get_field r "officeName"))
    ∷ ("loan_officer_id", int_cell (get_field r "loanOfficerId"))
    ∷ ("loan_officer_name", text_cell lib (get_field r "loanOfficerName"))
    ∷ ("loan_type", enum_cell lib r "loanType")
    ∷ ("currency_code", text_cell lib (dig (object r) ("currency" ∷ "code" ∷ [])))
    ∷ ("currency_decimal_places", int_cell (dig (object r) ("currency" ∷ "decimalPlaces" ∷ [])))
    ∷ ("status_id", (get_of status "id") >>= int_cell)
    ∷ ("status_code", (get_of status "code") >>= text_cell lib)
    ∷ ("status_value", (get_of status "value") >>= text_cell lib)
    ∷ ("is_active", (get_of status "active") >>= bool_cell lib)
    ∷ ("is_overpaid", (get_of status "overpaid") >>= bool_cell lib)
    ∷ ("is_closed", (get_of status "closed") >>= bool_cell lib)
    ∷ ("submitted_on_date", (get_of timeline "submittedOnDate") >>= date_cell lib)
    ∷ ("approved_on_date", (get_of timeline "approvedOnDate") >>= date_cell lib)
    ∷ (
      "disbursed_on_date",
      (do
        a ← get_of timeline "actualDisbursementDate"
        first_truthy a (get_of timeline "expectedDisbursementDate"))
          >>= date_cell lib,
    )
    ∷ ("expected_maturity_date", (get_of timeline "expectedMaturityDate") >>= date_cell lib)
    ∷ (
      "closed_on_date",
      (do a ← get_of timeline "closedOnDate"; first_truthy a (get_of timeline "actualMaturityDate"))
          >>= date_cell lib,
    )
    ∷ ("term_frequency", int_cell (get_field r "termFrequency"))
    ∷ ("term_frequency_type", enum_cell lib r "termPeriodFrequencyType")
    ∷ ("number_of_repayments", int_cell (get_field r "numberOfRepayments"))
    ∷ ("repayment_every", int_cell (get_field r "repaymentEvery"))
    ∷ ("repayment_frequency_type", enum_cell lib r "repaymentFrequencyType")
    ∷ ("interest_rate_per_period", decimal_cell (get_field r "interestRatePerPeriod"))
    ∷ ("annual_interest_rate", decimal_cell (get_field r "annualInterestRate"))
    ∷ ("principal", decimal_cell (get_field r "principal"))
    ∷ ("approved_principal", decimal_cell (get_field r "approvedPrincipal"))
    ∷ ("principal_disbursed", (get_of summary "principalDisbursed") >>= decimal_cell)
    ∷ ("principal_paid", (get_of summary "principalPaid") >>= decimal_cell)
    ∷ ("principal_written_off", (get_of summary "principalWrittenOff") >>= decimal_cell)
    ∷ ("principal_outstanding", (get_of summary "principalOutstanding") >>= decimal_cell)
    ∷ ("principal_overdue", (get_of summary "principalOverdue") >>= decimal_cell)
    ∷ ("interest_charged", (get_of summary "interestCharged") >>= decimal_cell)
    ∷ ("interest_paid", (get_of summary "interestPaid") >>= decimal_cell)
    ∷ ("interest_waived", (get_of summary "interestWaived") >>= decimal_cell)
    ∷ ("interest_outstanding", (get_of summary "interestOutstanding") >>= decimal_cell)
    ∷ ("interest_overdue", (get_of summary "interestOverdue") >>= decimal_cell)
    ∷ ("fee_charges_charged", (get_of summary "feeChargesCharged") >>= decimal_cell)
    ∷ ("fee_charges_paid", (get_of summary "feeChargesPaid") >>= decimal_cell)
    ∷ ("fee_charges_outstanding", (get_of summary "feeChargesOutstanding") >>= decimal_cell)
    ∷ ("penalty_charges_charged", (get_of summary "penaltyChargesCharged") >>= decimal_cell)
    ∷ ("penalty_charges_paid", (get_of summary "penaltyChargesPaid") >>= decimal_cell)
    ∷ ("penalty_charges_outstanding", (get_of summary "penaltyChargesOutstanding") >>= decimal_cell)
    ∷ ("total_expected_repayment", (get_of summary "totalExpectedRepayment") >>= decimal_cell)
    ∷ ("total_repayment", (get_of summary "totalRepayment") >>= decimal_cell)
    ∷ ("total_outstanding", (get_of summary "totalOutstanding") >>= decimal_cell)
    ∷ ("total_overdue", (get_of summary "totalOverdue") >>= decimal_cell)
    ∷ ("overdue_since_date", (get_of summary "overdueSinceDate") >>= date_cell lib)
    ∷ (
      "delinquent_days",
      (do a ← get_of delinquent "pastDueDays"; first_truthy a (get_of delinquent "delinquentDays"))
          >>= int_cell,
    )
    ∷ ("delinquent_amount", (get_of delinquent "delinquentAmount") >>= decimal_cell)
    ∷ []

-- map_loan_transaction
unfoldable pub loan_transaction_cells : Library → Fields → List (String × Outcome Cell)
loan_transaction_cells lib r =
    let tx_type = or_empty (get_field r "type") in
    ("transaction_id", int_cell (get_field r "id"))
    ∷ ("loan_id", int_cell (or_else (get_field r "loanId") (get_field r "_loan_id")))
    ∷ ("office_id", int_cell (get_field r "officeId"))
    ∷ ("office_name", text_cell lib (get_field r "officeName"))
    ∷ ("type_id", (get_of tx_type "id") >>= int_cell)
    ∷ ("type_code", (get_of tx_type "code") >>= text_cell lib)
    ∷ ("type_value", (get_of tx_type "value") >>= text_cell lib)
    ∷ ("is_reversed", false_if_none (bool_cell lib (get_field r "manuallyReversed")))
    ∷ ("transaction_date", date_cell lib (get_field r "date"))
    ∷ ("submitted_on_date", date_cell lib (get_field r "submittedOnDate"))
    ∷ ("currency_code", text_cell lib (dig (object r) ("currency" ∷ "code" ∷ [])))
    ∷ ("amount", decimal_cell (get_field r "amount"))
    ∷ ("net_disbursal_amount", decimal_cell (get_field r "netDisbursalAmount"))
    ∷ ("principal_portion", decimal_cell (get_field r "principalPortion"))
    ∷ ("interest_portion", decimal_cell (get_field r "interestPortion"))
    ∷ ("fee_charges_portion", decimal_cell (get_field r "feeChargesPortion"))
    ∷ ("penalty_charges_portion", decimal_cell (get_field r "penaltyChargesPortion"))
    ∷ ("overpayment_portion", decimal_cell (get_field r "overpaymentPortion"))
    ∷ ("outstanding_loan_balance", decimal_cell (get_field r "outstandingLoanBalance"))
    ∷ []
