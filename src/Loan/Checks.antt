-- ===== src/Loan/Checks.antt =====
-- internal/pkg/services/validation_service.go, with the repositories of internal/pkg/store that it
-- uses.
use promo_collection.Prelude.{
  String, Bool, true, false, not, ◌&&◌, Option, none, some, ◌⊎◌, inl, inr, ltb, ◌==◌, str_eq,
  if◌then◌else◌,
}
use promo_collection.Runtime.{Go, Error, pure, fail, attempt, wrapping, ◌>>=◌}
use promo_collection.Runtime.Time.{Time, zero_time, before, after}
use promo_collection.Driver.{ObjectId, nil_id}
use promo_collection.Loan.Schema.{
  Keyword, LoanProduct, Subscribers, Channels, Brand, LoanProductsBrands, LoanProductsChannels,
  Loans,
}
use promo_collection.Loan.Errors.{
  equals_no_documents, error_invalid_keyword, error_user_blacklisted, error_loan_product_not_found,
  error_active_loan, error_user_not_whitelisted_for_product, error_brand_type_not_found,
  error_channel_type_not_found, error_brand_not_allowed, error_channel_not_allowed,
}
use promo_collection.Loan.Deps.{Deps}

-- Where a `switch` on the method of activation lets a product through.
abbrev pub within : Time → Option Time → Option Time → Bool
within now (some start) (some end) = after now start && before now end
within now (some start) none = false
within now none (some end) = false
within now none none = false

-- A product that is activated by dates or by hand; any other method passes.
unfoldable pub is_activated : {F : Type 0} → Time → LoanProduct F → Bool
is_activated now p =
    if str_eq p.activation_method "promoDates"
    then within now p.promo_start_date p.promo_end_date
    else if str_eq p.activation_method "manual"
    then p.active
    else true

-- An outstanding loan, as the check returns it.
pub record ActiveLoan : Type 0 where
  pub is_active : Bool
  pub loan_id : ObjectId
  pub created_at : Time
  pub error : Option Error

abbrev pub no_loan : Option Error → ActiveLoan
no_loan e = record { is_active = false; loan_id = nil_id; created_at = zero_time; error = e }

abbrev pub outstanding : {F : Type 0} → Loans F → ActiveLoan
outstanding l = record {
  is_active = true;
  loan_id = l.loan_id;
  created_at = l.created_at;
  error = some error_active_loan;
}

module _ {S F B : Type 0} (d : Deps S F B) where
  -- `CheckKeyword`
  abbrev keyword_found : Keyword ⊎ Error → Go S Keyword
  keyword_found (inl k) = if k.is_deleted then fail error_invalid_keyword else pure k
  keyword_found (inr e) = fail (if equals_no_documents e then error_invalid_keyword else e)

  unfoldable pub check_keyword : String → Go S Keyword
  check_keyword keyword = do
    r ← attempt (d.keywords.find_one (λ k. d.matches_pattern keyword k.name && not k.is_deleted))
    keyword_found r

  -- `CheckSubscriberBlacklisitng`; no caller uses the subscriber.
  abbrev subscriber_found : Subscribers F ⊎ Error → Go S (Unit {0})
  subscriber_found (inl s) = if s.blacklisted then fail error_user_blacklisted else pure tt
  subscriber_found (inr e) = if equals_no_documents e then pure tt else fail e

  unfoldable pub check_subscriber_blacklisting : String → Go S (Unit {0})
  check_subscriber_blacklisting msisdn = do
    r ← attempt (d.subscribers.find_one (λ s. str_eq s.msisdn msisdn))
    subscriber_found r

  -- `CheckLoanProduct`
  abbrev pub product_found : LoanProduct F ⊎ Error → Go S (LoanProduct F)
  product_found (inl p) = if p.is_deleted then fail error_loan_product_not_found else (do
    now ← d.now
    if is_activated now p then pure p else fail error_loan_product_not_found)
  product_found (inr e) = fail (if equals_no_documents e then error_loan_product_not_found else e)

  unfoldable pub check_loan_product : ObjectId → Go S (LoanProduct F)
  check_loan_product id = do
    r ← attempt (d.products.find_one (λ p. p.product_id == id && not p.is_deleted))
    product_found r

  -- `CheckActiveLoan`
  abbrev loan_found : Loans F ⊎ Error → ActiveLoan
  loan_found (inl l) = outstanding l
  loan_found (inr e) = if equals_no_documents e then no_loan none else no_loan (some e)

  unfoldable pub check_active_loan : String → Go S ActiveLoan
  check_active_loan msisdn = do
    r ← attempt (d.loans.find_one (λ l. str_eq l.msisdn msisdn))
    pure (loan_found r)

  unfoldable pub is_whitelisted : String → ObjectId → Go S Bool
  is_whitelisted msisdn product = do
    n ←
        wrapping "error counting documents"
          (d.count_whitelisted (λ w. str_eq w.msisdn msisdn && w.product_id == product))
    pure (ltb 0 n)

  -- `CheckWhitelist`: the subscriber may have the product unless there is an error.
  unfoldable pub check_whitelist : String → LoanProduct F → Go S (Unit {0})
  check_whitelist msisdn p = if not p.has_whitelisting then pure tt else (do
    listed ← is_whitelisted msisdn p.product_id
    if listed then pure tt else fail error_user_not_whitelisted_for_product)

  -- `CheckIfBrandExistsAndActive`
  abbrev pub brand_found : Brand ⊎ Error → Go S ObjectId
  brand_found (inl b) = if b.is_deleted then fail error_brand_type_not_found else pure b.id
  brand_found (inr e) = fail error_brand_type_not_found

  unfoldable pub check_if_brand_exists_and_active : String → Go S ObjectId
  check_if_brand_exists_and_active brand = do
    r ← attempt (d.brands.find_one (λ b. d.matches_pattern brand b.code && not b.is_deleted))
    brand_found r

  -- `CheckIfChannelExistsAndActive`
  abbrev channel_found : Channels ⊎ Error → Go S ObjectId
  channel_found (inl c) = if c.is_deleted then fail error_channel_type_not_found else pure c.id
  channel_found (inr e) = fail error_channel_type_not_found

  unfoldable pub check_if_channel_exists_and_active : String → Go S ObjectId
  check_if_channel_exists_and_active channel = do
    r ← attempt (d.channels.find_one (λ c. str_eq c.code channel && not c.is_deleted))
    channel_found r

  -- `CheckIfBrandAndProductMapped`
  abbrev brand_mapped : LoanProductsBrands ⊎ Error → Go S (Unit {0})
  brand_mapped (inl m) = pure tt
  brand_mapped (inr e) = fail (if equals_no_documents e then error_brand_not_allowed else e)

  unfoldable pub check_if_brand_and_product_mapped : ObjectId → ObjectId → Go S (Unit {0})
  check_if_brand_and_product_mapped brand product = do
    r ← attempt (d.products_brands.find_one (λ m. m.brand_id == brand && m.product_id == product))
    brand_mapped r

  -- `CheckIfChannelAndProductMapped`
  abbrev channel_mapped : LoanProductsChannels ⊎ Error → Go S (Unit {0})
  channel_mapped (inl m) = pure tt
  channel_mapped (inr e) = fail (if equals_no_documents e then error_channel_not_allowed else e)

  unfoldable pub check_if_channel_and_product_mapped : ObjectId → ObjectId → Go S (Unit {0})
  check_if_channel_and_product_mapped channel product = do
    r ←
        attempt
          (d.products_channels.find_one (λ m. m.channel_id == channel && m.product_id == product))
    channel_mapped r

  -- `CheckCreditScoreEligibility`: `creditScore >= loanPrice`
  unfoldable pub check_credit_score_eligibility : F → LoanProduct F → Bool
  check_credit_score_eligibility score p = d.float.le p.price score
