-- ===== src/Loan/Frames.antt =====
-- The parts of loan-availment of which nothing shows in the log of calls.
use promo_collection.Prelude.{String, true, List, Option, none, some, ◌≡◌, refl}
use promo_collection.Runtime.{Error}
use promo_collection.Runtime.Runs.{
  Silent, Gives, Silent-Gives, silent_rules, Gives-pure, Gives-if, Gives-bind, Gives-checking,
  Gives-handle,
}
use promo_collection.Driver.{ObjectId}
use promo_collection.Loan.Schema.{Keyword, LoanProduct}
use promo_collection.Loan.Deps.{Deps}
use promo_collection.Loan.Laws.{Call, Quiet, Shows}
use promo_collection.Loan.Checks
use promo_collection.Loan.Eligibility

-- What `CheckEligibility` returns: an error, or a product that the subscriber may have.
pub data Sound {F : Type 0} (x : Eligibility.Eligibility F) : Type 0 where
  no_product : (e : Error) → x.error ≡ some e → Sound x
  a_product :
      (p : LoanProduct F) → x.error ≡ none → x.is_eligible ≡ true → x.product ≡ some p → Sound x

refused-Sound :
    {F : Type 0} (k : String) (p : Option (LoanProduct F)) (loan : Checks.ActiveLoan) (e : Error)
    → Sound (Eligibility.refused k p loan e)
refused-Sound k p loan e = no_product e refl

accepted-Sound :
    {F : Type 0} (k : String) (p : LoanProduct F) (loan : Checks.ActiveLoan)
    → Sound (Eligibility.accepted k p loan)
accepted-Sound k p loan = a_product p refl refl refl

module _ {S F B : Type 0} {d : Deps S F B} {k : String} {view : S → List Call}
    (q : Shows d k view) where
  now-Silent : Silent view d.now
  now-Silent = Silent-Gives d.now q.now_quiet

  pub check_keyword-Silent : (keyword : String) → Silent view (Checks.check_keyword d keyword)
  unfolding Checks.check_keyword
  check_keyword-Silent keyword = search (silent_rules, q.keywords_silent) depth 20

  pub check_subscriber_blacklisting-Silent :
      (msisdn : String) → Silent view (Checks.check_subscriber_blacklisting d msisdn)
  unfolding Checks.check_subscriber_blacklisting
  check_subscriber_blacklisting-Silent msisdn = search (silent_rules, q.subscribers_silent) depth 20

  pub check_loan_product-Silent : (id : ObjectId) → Silent view (Checks.check_loan_product d id)
  unfolding Checks.check_loan_product
  check_loan_product-Silent id = search (silent_rules, now-Silent, q.products_silent) depth 20

  pub check_whitelist-Silent :
      (msisdn : String) (p : LoanProduct F) → Silent view (Checks.check_whitelist d msisdn p)
  unfolding Checks.check_whitelist Checks.is_whitelisted
  check_whitelist-Silent msisdn p = search (silent_rules, q.whitelisted_silent) depth 20

  pub check_if_channel_exists_and_active-Silent :
      (channel : String) → Silent view (Checks.check_if_channel_exists_and_active d channel)
  unfolding Checks.check_if_channel_exists_and_active
  check_if_channel_exists_and_active-Silent channel =
      search (silent_rules, q.channels_silent) depth 20

  pub check_if_channel_and_product_mapped-Silent :
      (channel product : ObjectId)
      → Silent view (Checks.check_if_channel_and_product_mapped d channel product)
  unfolding Checks.check_if_channel_and_product_mapped
  check_if_channel_and_product_mapped-Silent channel product =
      search (silent_rules, q.products_channels_silent) depth 20

  pub check_if_brand_and_product_mapped-Silent :
      (brand product : ObjectId)
      → Silent view (Checks.check_if_brand_and_product_mapped d brand product)
  unfolding Checks.check_if_brand_and_product_mapped
  check_if_brand_and_product_mapped-Silent brand product =
      search (silent_rules, q.products_brands_silent) depth 20

  check_active_loan-Quiet : (msisdn : String) → Quiet view (Checks.check_active_loan d msisdn)
  unfolding Checks.check_active_loan
  check_active_loan-Quiet msisdn = search (Gives-pure, Gives-handle, q.loans_silent, tt) depth 20

  check_scored-Sound :
      (brand : ObjectId) (customer brand_type : String) (score : F) (k : Keyword)
      (p : LoanProduct F) (loan : Checks.ActiveLoan)
      → Gives view (Eligibility.check_scored d brand customer brand_type score k p loan) Sound
  unfolding Eligibility.check_scored
  check_scored-Sound brand customer brand_type score k p loan =
      search
        (
          Gives-pure, Gives-if, Gives-checking, refused-Sound, accepted-Sound,
          check_if_brand_and_product_mapped-Silent,
        )
        depth 20

  loan_checked-Sound :
      (brand : ObjectId) (customer brand_type : String) (score : F) (msisdn channel : String)
      (k : Keyword) (p : LoanProduct F) (loan : Checks.ActiveLoan) (o : Option Error)
      → Gives view
          (Eligibility.loan_checked d brand customer brand_type score msisdn channel k p loan o)
          Sound
  loan_checked-Sound brand customer brand_type score msisdn channel k p loan (some e) =
      Gives-pure _ (refused-Sound k.name (some p) loan e)
  loan_checked-Sound brand customer brand_type score msisdn channel k p loan none =
      search
        (
          Gives-checking, refused-Sound, check_scored-Sound, check_whitelist-Silent,
          check_if_channel_exists_and_active-Silent, check_if_channel_and_product_mapped-Silent,
        )
        depth 20

  check_product-Sound :
      (brand : ObjectId) (customer brand_type : String) (score : F) (msisdn channel : String)
      (k : Keyword) (p : LoanProduct F)
      → Gives view
          (Eligibility.check_product d brand customer brand_type score msisdn channel k p)
          Sound
  unfolding Eligibility.check_product
  check_product-Sound brand customer brand_type score msisdn channel k p =
      Gives-bind _ _ (check_active_loan-Quiet msisdn) (λ loan t.
        loan_checked-Sound brand customer brand_type score msisdn channel k p loan loan.error)

  -- What is returned without an error is of a product.
  pub check_eligibility-Sound :
      (brand : ObjectId) (customer brand_type : String) (score : F)
      (msisdn keyword channel : String)
      → Gives view
          (Eligibility.check_eligibility d brand customer brand_type score msisdn keyword channel)
          Sound
  unfolding Eligibility.check_eligibility
  check_eligibility-Sound brand customer brand_type score msisdn keyword channel =
      search
        (
          Gives-checking, refused-Sound, check_product-Sound, check_keyword-Silent,
          check_subscriber_blacklisting-Silent, check_loan_product-Silent,
        )
        depth 20
