-- ===== src/Loan/Enquiry.antt =====
-- `EligibilityCheck` of internal/pkg/services/eligibility_check_service.go: the answer to an enquiry
-- about a number.
use promo_collection.Prelude.{
  String, ℤ, pos, Bool, true, false, Option, none, some, ◌⊎◌, inl, inr, ◌==◌, str_eq, if◌then◌else◌,
}
use promo_collection.Runtime.{Go, Error, error_text, coded, pure, attempt, ◌>>=◌}
use promo_collection.Runtime.Float64.{zero}
use promo_collection.Runtime.Strconv.{itoa}
use promo_collection.Loan.Schema.{Loans, UnpaidLoans, Availments}
use promo_collection.Loan.Errors.{equals_coded, equals_no_documents}
use promo_collection.Loan.Deps.{Deps}
use promo_collection.Loan.Validation.{clean_msisdn, is_valid_msisdn, last}
use promo_collection.Loan.Eligibility.{Details, get_credit_score_customer_type_brand_type}
pub mod Told

pub record EligibilityCheckResponse (F : Type 0) : Type 0 where
  pub msisdn : String
  pub subscriber_score : Option String
  pub remaining_score : Option String
  pub existing_loan : Option Bool
  pub loan_keyword : Option String
  pub loan_amount : Option F
  pub result : String
  pub status_code : String

-- The one call of `c.JSON`: the status, and a response or the text of an error.
pub record Answer (F : Type 0) : Type 0 where
  pub status : ℤ
  pub body : EligibilityCheckResponse F ⊎ String

abbrev pub error_msisdn_not_found_code : String
error_msisdn_not_found_code = "DODRIO2_LOAN_AVAILMENT_REQUEST_UUP_MSISDN_NOT_FOUND"

abbrev pub error_msisdn_not_found : Error
error_msisdn_not_found = coded error_msisdn_not_found_code "MSISDN not found"

abbrev pub error_msisdn_not_valid : Error
error_msisdn_not_valid = coded "DODRIO2_VALIDATION_MSISDN_INVALID" "MSISDN not valid"

-- An answer without details.
unfoldable pub refusal : {F : Type 0} → String → ℤ → String → ℤ → Answer F
refusal msisdn status result code = record {
  status = status;
  body = inl (record {
    msisdn = msisdn;
    subscriber_score = none;
    remaining_score = none;
    existing_loan = none;
    loan_keyword = none;
    loan_amount = none;
    result = result;
    status_code = itoa code;
  });
}

module _ {S F B : Type 0} (d : Deps S F B) where
  unfoldable pub granted : String → F → F → Bool → String → F → Answer F
  granted msisdn score remaining existing keyword amount = record {
    status = pos 200;
    body = inl (record {
      msisdn = msisdn;
      subscriber_score = some (itoa (d.to_int64 score));
      remaining_score = some (itoa (d.to_int64 remaining));
      existing_loan = some existing;
      loan_keyword = some keyword;
      loan_amount = some amount;
      result = "OK";
      status_code = itoa (pos 200);
    });
  }

  abbrev amount_or_zero : UnpaidLoans F ⊎ Error → F
  amount_or_zero (inl u) = u.unpaid_amount
  amount_or_zero (inr e) = zero d.float

  abbrev keyword_or_empty : Availments F ⊎ Error → String
  keyword_or_empty (inl a) = a.keyword
  keyword_or_empty (inr e) = ""

  -- With an outstanding loan, or none.
  abbrev pub loan_answer : String → F → Loans F ⊎ Error → Go S (Answer F)
  loan_answer msisdn score (inr e) =
      if equals_no_documents e
      then pure (granted msisdn score score false "" (zero d.float))
      else pure (record { status = pos 500; body = inr (error_text e) })
  loan_answer msisdn score (inl l) = do
    unpaid ← attempt (d.last_version (λ u. u.loan_id == l.loan_id))
    availment ← attempt (d.availments.find_one (λ a. a.id == l.availment_transaction_id))
    pure (
        granted msisdn score (d.float.sub score (d.float.sub l.total_loan_amount l.service_fee))
          true (keyword_or_empty availment) (amount_or_zero unpaid))

  abbrev pub details_answer : String → Details F ⊎ Error → Go S (Answer F)
  details_answer msisdn (inr e) =
      if equals_coded error_msisdn_not_found_code e
      then pure (refusal msisdn (pos 502) (error_text error_msisdn_not_found) (pos 502))
      else pure (refusal msisdn (pos 500) "Internal Server Error" (pos 500))
  details_answer msisdn (inl x) = do
    loan ← attempt (d.loans.find_one (λ l. str_eq l.msisdn msisdn))
    loan_answer msisdn x.credit_score loan

  abbrev pub number_answer : String → Option Error → Go S (Answer F)
  number_answer msisdn (some e) =
      pure (refusal msisdn (pos 501) (error_text error_msisdn_not_valid) (pos 501))
  number_answer msisdn none = do
    let number = last 10 (clean_msisdn msisdn)
    x ← attempt (get_credit_score_customer_type_brand_type d number)
    details_answer number x

  unfoldable pub eligibility_check : String → Go S (Answer F)
  eligibility_check msisdn = number_answer msisdn (is_valid_msisdn (clean_msisdn msisdn))
