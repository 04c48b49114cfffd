-- ===== src/Loan/Availments.antt =====
-- `InsertFailedAvailment` and `InsertSuccessfulAvailment` of internal/pkg/store/availments.go.
use promo_collection.Prelude.{
  ℕ, zero, suc, ◌+◌, ◌-◌, String, ℤ, pos, negsuc, Bool, true, false, not, ◌&&◌, Option, none, some,
  ◌⊎◌, inl, inr, ltb, leb, ◌==◌, str_eq, if◌then◌else◌,
}
pub mod Total
use Prim.Native.String.{◌++◌}
use promo_collection.Runtime.{
  Go, Error, message, pure, fail, attempt, or_fail, restating, ◌>>=◌, ◌>>◌,
}
use promo_collection.Runtime.Guards.{checking}
use promo_collection.Runtime.Float64.{zero as zero_float}
use promo_collection.Runtime.Time.{Time, zero_time, after}
use promo_collection.Driver.{ObjectId, nil_id}
use promo_collection.Loan.Schema.{
  Keyword, LoanProduct, SystemLevelRules, Loans, UnpaidLoans, Availments, RedisLoan,
}
use promo_collection.Loan.Errors.{error_keyword_format}
use promo_collection.Loan.Deps.{Deps}
use promo_collection.Loan.Validation.{equal_fold}
use promo_collection.Loan.Repos.{
  servicing_partner_by_product_id, insert_availment, delete_transaction_in_progress_by_msisdn,
}
use promo_collection.Loan.Serializers.{
  serialize_availments, serialize_loans, serialize_unpaid_loans, unix_epoch,
}

-- What both functions return; the text of the response is only logged.
pub record Inserted (F : Type 0) : Type 0 where
  pub availment : Availments F
  pub product : Option (LoanProduct F)
  pub servicing_partner : String
  pub error : Option Error

-- What an availment says of the product.
pub record Priced (F : Type 0) : Type 0 where
  pub product : Option (LoanProduct F)
  pub product_id : ObjectId
  pub loan_type : String
  pub name : String
  pub fee : F
  pub total : F

abbrev value_or : {A : Type 0} → A → A ⊎ Error → A
value_or a (inl b) = b
value_or a (inr e) = a

abbrev found : {A : Type 0} → A ⊎ Error → Option A
found (inl a) = some a
found (inr e) = none

-- `a - b` as a `time.Duration`.
abbrev until : Time → Time → ℤ
until later now = if leb now later then pos (later - now) else negsuc (now - later - 1)

module _ {S F B : Type 0} (d : Deps S F B) where
  abbrev pub no_float : F
  no_float = zero_float d.float

  -- `models.Availments{}` and `&models.LoanProduct{}`
  abbrev pub no_availment : Availments F
  no_availment = record {
    id = nil_id;
    msisdn = "";
    channel = "";
    brand = "";
    loan_type = "";
    product_id = nil_id;
    keyword = "";
    servicing_partner = "";
    result = false;
    error_text = "";
    error_code = "";
    credit_score = no_float;
    total_loan_amount = no_float;
    service_fee = no_float;
    guid = "";
    created_at = zero_time;
    published_to_kafka = false;
    product_name = "";
  }

  abbrev pub empty_product : LoanProduct F
  empty_product = record {
    product_id = nil_id;
    name = "";
    price = no_float;
    service_fee = no_float;
    fee_type = "";
    loan_type = "";
    wallet_id = nil_id;
    is_scored_product = false;
    has_whitelisting = false;
    activation_method = "";
    active = false;
    promo_start_date = none;
    promo_end_date = none;
    created_at = unix_epoch;
    updated_at = unix_epoch;
    product_guid = "";
    migrated = false;
    is_deleted = false;
  }

  -- The fee of a product: a part of the price, or an amount.
  unfoldable pub service_fee : LoanProduct F → F
  service_fee p =
      if equal_fold p.fee_type "percent"
      then d.float.div (d.float.mul p.price p.service_fee) (d.float.of_int (pos 100))
      else p.service_fee

  abbrev pub total_amount : LoanProduct F → F
  total_amount p = d.float.add (service_fee p) p.price

  -- The product of the keyword is looked up twice: the pointer that is returned comes from the
  -- first, what is stored from the second, which declares its own `loanProduct` and `errMsg`.
  abbrev pub priced_twice : ObjectId → LoanProduct F ⊎ Error → LoanProduct F ⊎ Error → Priced F
  priced_twice id first (inr e) = record {
    product = found first;
    product_id = id;
    loan_type = "";
    name = "";
    fee = no_float;
    total = no_float;
  }
  priced_twice id first (inl p) = record {
    product = found first;
    product_id = id;
    loan_type = p.loan_type;
    name = p.name;
    fee = service_fee p;
    total = total_amount p;
  }

  abbrev pub priced_by_keyword : Keyword ⊎ Error → Go S (Priced F)
  priced_by_keyword (inr e) = pure (record {
    product = none;
    product_id = nil_id;
    loan_type = "";
    name = "";
    fee = no_float;
    total = no_float;
  })
  priced_by_keyword (inl k) = do
    first ← attempt (d.products.find_one (λ p. p.product_id == k.product_id))
    second ← attempt (d.products.find_one (λ p. p.product_id == k.product_id))
    pure (priced_twice k.product_id first second)

  -- A product that is given is stored without its fee: the text of the error is never empty here.
  abbrev pub priced : String → Option (LoanProduct F) → Go S (Priced F)
  priced keyword none = do
    k ← attempt (d.keywords.find_one (λ k. d.matches_pattern keyword k.name && not k.is_deleted))
    priced_by_keyword k
  priced keyword (some p) = pure (record {
    product = some p;
    product_id = p.product_id;
    loan_type = p.loan_type;
    name = p.name;
    fee = no_float;
    total = no_float;
  })

  -- `mongo.WithSession`: the writes do not use the session's context, so that a transaction that is
  -- aborted leaves those that were made. The errors of abort and commit are dropped.
  unfoldable pub with_session : Go S (Unit {0}) → Go S (Unit {0}) → Go S (Unit {0})
  with_session writes after_commit = do
    d.start_session
    d.start_transaction
    r ← attempt writes
    elim r [
      | inl u ↦ do attempt d.commit_transaction; after_commit
      | inr e ↦ do attempt d.abort_transaction; fail e
    ]

  abbrev pub inserted_result :
      Availments F → Option (LoanProduct F) → String → Unit {0} ⊎ Error → Inserted F
  inserted_result a p partner (inl u) = record {
    availment = a;
    product = p;
    servicing_partner = partner;
    error = none;
  }
  inserted_result a p partner (inr e) = record {
    availment = no_availment;
    product = some empty_product;
    servicing_partner = partner;
    error = some e;
  }

  abbrev pub serialize_failed :
      String
      → String
      → String
      → String
      → String
      → String
      → F
      → Option (LoanProduct F)
      → String
      → Go S (Availments F × Option (LoanProduct F) × String)
  serialize_failed msisdn keyword channel client text code score product brand =
      if str_eq text "Loan availment Keyword parameter validation failed"
      then (do
        a ←
            serialize_availments d msisdn channel "" "" nil_id keyword "" no_float no_float client
              text code false score ""
        pure (a, none, ""))
      else (do
        p ← priced keyword product
        partner ← attempt (servicing_partner_by_product_id d p.product_id)
        let (name, number) = value_or ("", "") partner
        a ←
            serialize_availments d msisdn channel brand p.loan_type p.product_id keyword name
              p.total p.fee client text code false score p.name
        pure (a, p.product, number))

  abbrev pub error_text_or : String → String
  error_text_or t = if str_eq t "" then "Unknown Error" else t

  -- Every caller gives `false` for the result. All errors are in what is returned.
  unfoldable pub insert_failed_availment :
      String
      → String
      → String
      → String
      → String
      → String
      → F
      → Option (LoanProduct F)
      → String
      → Go S (Inserted F)
  insert_failed_availment msisdn keyword channel client text code score product brand = do
    (a, p, partner) ←
        serialize_failed msisdn keyword channel client (error_text_or text) code score product brand
    r ← attempt (with_session (insert_availment d a) (pure tt))
    pure (inserted_result a p partner r)

  -- The four writes of a loan that was given.
  unfoldable pub successful_writes :
      String → Availments F → Loans F → UnpaidLoans F → Go S (Unit {0})
  successful_writes msisdn a l u = do
    insert_availment d a
    restating "ActiveLoan : error while inserting" (d.loans.insert_one l)
    restating "UnpaidLoans : error while inserting" (d.unpaid_loans.insert_one u)
    delete_transaction_in_progress_by_msisdn d msisdn

  -- The entry of the skip cache lives until the later of the two periods is over.
  unfoldable pub save_skip_timestamps : String → Loans F → Go S (Unit {0})
  save_skip_timestamps msisdn l = do
    now ← d.now
    let later =
        if after l.loan_load_period_timestamp l.promo_education_period_timestamp
        then l.loan_load_period_timestamp
        else l.promo_education_period_timestamp
    b ← or_fail (message "marshal") (
        d.marshal_loan (record {
          education_period_timestamp = l.promo_education_period_timestamp;
          loan_load_period_timestamp = l.loan_load_period_timestamp;
        }))
    d.redis_set ("skipTimestamps:" ++ msisdn) b (until later now)

  -- The documents of a loan: the availment, the loan and what is unpaid.
  abbrev pub loan_documents :
      String
      → LoanProduct F
      → String
      → String
      → String
      → F
      → String
      → ObjectId
      → String
      → SystemLevelRules F
      → Go S (Availments F × Loans F × UnpaidLoans F)
  loan_documents msisdn p keyword channel client score brand brand_id partner rules = do
    a ←
        serialize_availments d msisdn channel brand p.loan_type p.product_id keyword partner
          (total_amount p) (service_fee p) client "" "" true score p.name
    l ← serialize_loans d msisdn (total_amount p) a.guid (service_fee p) p brand_id a.id rules
    u ← serialize_unpaid_loans d l.loan_id (total_amount p) (service_fee p)
    pure (a, l, u)

  abbrev pub rules_missing : Error → Inserted F
  rules_missing e = record {
    availment = no_availment;
    product = none;
    servicing_partner = "";
    error = some e;
  }

  -- Every caller gives `true` for the result and no error. An error after the commit, when the
  -- entry of the skip cache is saved, is returned like one of the writes.
  unfoldable pub insert_successful_availment :
      String → LoanProduct F → String → String → String → F → String → ObjectId → Go S (Inserted F)
  unfolding service_fee
  insert_successful_availment msisdn p keyword channel client score brand brand_id = do
    partner ← attempt (servicing_partner_by_product_id d p.product_id)
    let (name, number) = value_or ("", "") partner
    checking rules_missing (d.rules.find_one (λ r. true)) λ rules. do
      (a, l, u) ← loan_documents msisdn p keyword channel client score brand brand_id name rules
      r ← attempt (with_session (successful_writes msisdn a l u) (save_skip_timestamps msisdn l))
      pure (inserted_result a (some p) number r)
