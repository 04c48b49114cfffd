-- ===== src/Loan/Eligibility.antt =====
-- `CheckEligibility` and `GetCreditScoreCustomerTypeBrandType` of
-- internal/pkg/services/eligibility_check_service.go.
use promo_collection.Prelude.{
  String, Bool, true, false, not, ◌||◌, Option, none, some, List, [], ◌∷◌, str_eq, if◌then◌else◌,
}
use promo_collection.Runtime.{Go, Error, pure, ◌>>=◌}
use promo_collection.Runtime.Guards.{checking}
use promo_collection.Runtime.Float64.{zero}
use promo_collection.Runtime.Time.{Time, zero_time}
use promo_collection.Driver.{ObjectId}
use promo_collection.Loan.Schema.{Keyword, LoanProduct}
use promo_collection.Loan.Errors.{
  error_uup_consumer_type, error_uup_brand_type, error_ineligible_credit_score,
}
use promo_collection.Loan.Deps.{Deps, Attribute}
use promo_collection.Loan.Validation.{equal_fold}
use promo_collection.Loan.Checks.{
  ActiveLoan, no_loan, check_keyword, check_subscriber_blacklisting, check_loan_product,
  check_active_loan, check_whitelist, check_if_channel_exists_and_active,
  check_if_brand_and_product_mapped, check_if_channel_and_product_mapped,
  check_credit_score_eligibility,
}
pub mod MayHave
pub mod Answers
pub mod Decided

abbrev pub any_fold : String → List String → Bool
any_fold t [] = false
any_fold t (x ∷ xs) = equal_fold t x || any_fold t xs

abbrev pub customer_types : List String
customer_types = "Consumer" ∷ "C" ∷ []

abbrev pub brand_types : List String
brand_types = "GHP-PREPAID" ∷ "TM" ∷ "GHP" ∷ "Prepaid(GHP)" ∷ []

unfoldable pub is_valid_customer_type : String → Bool
is_valid_customer_type t = any_fold t customer_types

unfoldable pub is_valid_brand_type : String → Bool
is_valid_brand_type t = any_fold t brand_types

-- What `CheckEligibility` returns.
pub record Eligibility (F : Type 0) : Type 0 where
  pub is_eligible : Bool
  pub keyword : String
  pub product : Option (LoanProduct F)
  pub loan_id : ObjectId
  pub loan_date : Time
  pub error : Option Error

abbrev pub refused :
    {F : Type 0} → String → Option (LoanProduct F) → ActiveLoan → Error → Eligibility F
refused keyword product loan e = record {
  is_eligible = false;
  keyword = keyword;
  product = product;
  loan_id = loan.loan_id;
  loan_date = loan.created_at;
  error = some e;
}

abbrev pub accepted : {F : Type 0} → String → LoanProduct F → ActiveLoan → Eligibility F
accepted keyword product loan = record {
  is_eligible = true;
  keyword = keyword;
  product = some product;
  loan_id = loan.loan_id;
  loan_date = loan.created_at;
  error = none;
}

-- The subscriber, as `GetDetailsByAttribute` describes it.
pub record Details (F : Type 0) : Type 0 where
  pub credit_score : F
  pub customer_type : String
  pub brand_type : String
  pub subscriber_type : String
  pub credit_limit_date : Time

module _ {S F B : Type 0} (d : Deps S F B) where
  module _ (brand_id : ObjectId) (customer_type brand_type : String) (score : F) where
    -- From the type of the customer on.
    unfoldable pub check_scored : Keyword → LoanProduct F → ActiveLoan → Go S (Eligibility F)
    check_scored k p loan =
        let stop = refused k.name (some p) loan in
        if not (is_valid_customer_type customer_type)
        then pure (stop error_uup_consumer_type)
        else if not (is_valid_brand_type brand_type)
        then pure (stop error_uup_brand_type)
        else (checking stop (check_if_brand_and_product_mapped d brand_id k.product_id) λ _.
            if not p.is_scored_product
            then pure (accepted k.name p loan)
            else if not (check_credit_score_eligibility d score p)
            then pure (stop error_ineligible_credit_score)
            else pure (accepted k.name p loan))

    -- From the whitelist on, if there is no outstanding loan.
    abbrev pub loan_checked :
        String → String → Keyword → LoanProduct F → ActiveLoan → Option Error → Go S (Eligibility F)
    loan_checked msisdn channel k p loan (some e) = pure (refused k.name (some p) loan e)
    loan_checked msisdn channel k p loan none =
        let stop = refused k.name (some p) loan in
        checking stop (check_whitelist d msisdn p) λ _.
          checking stop (check_if_channel_exists_and_active d channel) λ channel_id.
            checking stop (check_if_channel_and_product_mapped d channel_id k.product_id)
              λ _. check_scored k p loan

    -- From the outstanding loan on.
    unfoldable pub check_product : String → String → Keyword → LoanProduct F → Go S (Eligibility F)
    check_product msisdn channel k p = do
      loan ← check_active_loan d msisdn
      loan_checked msisdn channel k p loan loan.error

    unfoldable pub check_eligibility : String → String → String → Go S (Eligibility F)
    check_eligibility msisdn keyword channel =
        checking (refused keyword none (no_loan none)) (check_keyword d keyword) λ k.
          checking (refused k.name none (no_loan none)) (check_subscriber_blacklisting d msisdn)
            λ _.
              checking (refused k.name none (no_loan none)) (check_loan_product d k.product_id)
                λ p. check_product msisdn channel k p

  abbrev read_score : F → Option F → F
  read_score old none = old
  read_score old (some x) = x

  abbrev read_date : Time → Option Time → Time
  read_date old none = old
  read_date old (some t) = t

  -- One round of the loop; a value that cannot be read leaves the detail as it was.
  unfoldable pub read_attribute : Details F → Attribute → Details F
  read_attribute x a =
      if str_eq a.name "clla"
      then (if str_eq a.value ""
          then x
          else record x { credit_score = read_score x.credit_score (d.parse_float a.value) })
      else if str_eq a.name "btc"
      then record x {
        brand_type =
            if equal_fold a.value "GHP"
              || (equal_fold a.value "GHP-PREPAID" || equal_fold a.value "GP")
            then "GHP-PREPAID"
            else a.value;
      }
      else if str_eq a.name "cfutd"
      then record x { customer_type = a.value }
      else if str_eq a.name "prodt"
      then record x { subscriber_type = a.value }
      else if str_eq a.name "clsd"
      then (if str_eq a.value "" then x else record x {
        credit_limit_date = read_date x.credit_limit_date (d.parse_time a.value);
      })
      else x

  abbrev pub read_attributes : Details F → List Attribute → Details F
  read_attributes x [] = x
  read_attributes x (a ∷ more) = read_attributes (read_attribute x a) more

  abbrev pub no_details : Details F
  no_details = record {
    credit_score = zero d.float;
    customer_type = "";
    brand_type = "";
    subscriber_type = "";
    credit_limit_date = zero_time;
  }

  unfoldable pub get_credit_score_customer_type_brand_type : String → Go S (Details F)
  get_credit_score_customer_type_brand_type msisdn = do
    attributes ← d.get_details_by_attribute msisdn
    pure (read_attributes no_details attributes)
