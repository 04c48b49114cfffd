-- ===== src/Promo/Collection.antt =====
-- `CollectionRules` of internal/service/promo_collection/collection_rules.go: what the subscriber
-- owes, at which rate, and the deduction that follows.
pub mod Finite
pub mod Settles
use promo_collection.Prelude.{
  String, Bool, true, not, Option, none, some, List, [], ◌∷◌, eqb_ℤ, pos, str_eq, if◌then◌else◌,
}
use promo_collection.Runtime.{Go, Error, message, pure, fail, or_fail, wrapping, ◌>>=◌}
use promo_collection.Runtime.Float64
use promo_collection.Runtime.Strconv.{itoa}
use promo_collection.Promo.Schema.{
  Loans, UnpaidLoans, SystemLevelRules, PesoToDataConversion, PromoEventMessage, loan_type_scored,
  loan_type_unscored,
}
use promo_collection.Promo.Deps.{Deps}
use promo_collection.Promo.Repos.{
  fetch_system_level_rules_configuration, get_loan_by_msisdn, get_unpaid_loans_by_loan_id,
  update_old_loan_document, get_product_name_by_id,
}
use promo_collection.Promo.Deduction.{
  DeductionParams, compute_max_deductible_amount, data_to_be_deducted_calculation,
}

-- The loop over the conversion matrix: the first entry of the type counts.
unfoldable pub rate_of : {F : Type 0} → String → List (PesoToDataConversion F) → Option F
rate_of kind [] = none
rate_of kind (c ∷ cs) = if str_eq c.loan_type kind then some c.conversion_rate else rate_of kind cs

abbrev pub is_empty : {A : Type 0} → List A → Bool
is_empty [] = true
is_empty (x ∷ xs) = Bool.false

-- The result of `getTotalUnpaidLoan`, with the loan that it may have changed.
pub record UnpaidTotal (F : Type 0) : Type 0 where
  pub loan : Loans F
  pub document : UnpaidLoans
  pub total : F

module _ {S F B : Type 0} (d : Deps S F B) where
  -- The loan has no unpaid total of its own: it is taken from the unpaid-loan document, and written
  -- to the loan. The education period is passed where the promo education period is expected.
  unfoldable pub total_from_unpaid : Loans F → UnpaidLoans → Option Error → Go S (UnpaidTotal F)
  total_from_unpaid l u (some e) = fail e
  total_from_unpaid l u none =
      if eqb_ℤ u.total_unpaid_amount (pos 0)
      then fail (message "no unpaid balance found for loan")
      else let total = d.float.of_int u.total_unpaid_amount in
        do
          l' ← wrapping "error updating loans document with totalUnpaidLoan" (
              update_old_loan_document d (record l { total_unpaid_loan = total }) l.conversion_rate
                l.education_period_timestamp l.loan_load_period_timestamp
                l.max_data_collection_percent l.min_collection_amount total)
          pure (record { loan = l'; document = u; total = total })

  unfoldable pub get_total_unpaid_loan : Loans F → Go S (UnpaidTotal F)
  get_total_unpaid_loan l = do
    (u, e) ← get_unpaid_loans_by_loan_id d l.loan_id
    if d.float.eq l.total_unpaid_loan (Float64.zero d.float)
        then total_from_unpaid l u e
        else pure (record { loan = l; document = u; total = l.total_unpaid_loan })

  unfoldable pub rate_from_matrix : Loans F → SystemLevelRules F → Go S F
  rate_from_matrix l rules =
      if is_empty rules.peso_to_data_conversion_matrix
      then fail (message "no conversion rate found in systemlevelrules")
      else do
        product ←
            wrapping "error while fetching LoanProducts doc"
              (get_product_name_by_id d l.loan_product_id)
        or_fail (message "conversionRate not found for loanType") (
            rate_of (if product.is_scored_product then loan_type_scored else loan_type_unscored)
              rules.peso_to_data_conversion_matrix)

  unfoldable pub get_conversion_rate : Loans F → SystemLevelRules F → Go S F
  get_conversion_rate l rules =
      if not (d.float.eq l.conversion_rate (Float64.zero d.float))
      then pure l.conversion_rate
      else rate_from_matrix l rules

  -- The parameters that `CollectionRules` computes from what it has fetched.
  unfoldable pub deduction_params :
      PromoEventMessage → SystemLevelRules F → F → F → DeductionParams F
  deduction_params payload rules total rate = record {
    min_collection_amount = rules.min_collection_amount;
    conversion_rate = rate;
    loan_unpaid_amount = total;
    deductable_data_amount =
        compute_max_deductible_amount d.float rules.max_data_collection_percent
          (d.float.of_int payload.wallet_amount) total rate;
  }

  unfoldable pub collection_rules : Bool → String → PromoEventMessage → Go S (Unit {0})
  collection_rules has_repo trace payload = do
    rules ← fetch_system_level_rules_configuration d
    l ← get_loan_by_msisdn d (itoa payload.msisdn)
    unpaid ← get_total_unpaid_loan l
    rate ← get_conversion_rate unpaid.loan rules
    data_to_be_deducted_calculation d has_repo trace payload
        (deduction_params payload rules unpaid.total rate) unpaid.loan unpaid.document
