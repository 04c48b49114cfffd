-- ===== src/Loan/Repos.antt =====
-- internal/pkg/store/transaction_in_progress.go, subscribers.go, loanproducts.go,
-- productNameInAmax.go, and the updates of availments.go.
use promo_collection.Prelude.{
  String, Bool, true, false, not, ◌&&◌, ◌||◌, Option, none, some, ◌⊎◌, inl, inr, ◌==◌, str_eq,
  if◌then◌else◌,
}
use promo_collection.Runtime.{Go, Error, no_documents, pure, fail, attempt, restating, ◌>>=◌, ◌>>◌}
use promo_collection.Runtime.Strconv.{itoa}
use promo_collection.Runtime.Time.{Time}
use promo_collection.Driver.{ObjectId}
use promo_collection.Loan.Schema.{
  Subscribers, TransactionInProgress, ProductsNamesInAmax, Availments,
}
use promo_collection.Loan.Errors.{equals_no_documents, no_product_name_in_amax}
use promo_collection.Loan.Deps.{Deps}

abbrev pub dates_equal : Option Time → Option Time → Bool
dates_equal none none = true
dates_equal none (some t) = false
dates_equal (some t) none = false
dates_equal (some t) (some u) = t == u

module _ {S F B : Type 0} (d : Deps S F B) where
  unfoldable pub delete_transaction_in_progress_by_msisdn : String → Go S (Unit {0})
  delete_transaction_in_progress_by_msisdn msisdn =
      restating "TransactionIProgress : error while deleting"
        (d.in_progress.delete_one (λ t. str_eq t.msisdn msisdn))

  unfoldable pub create_transaction_in_progress_entry : TransactionInProgress → Go S (Unit {0})
  create_transaction_in_progress_entry t = do
    restating "TransactionIProgress : error while inserting" (d.in_progress.insert_one t)
    pure tt

  abbrev pub progress_found : TransactionInProgress ⊎ Error → Go S Bool
  progress_found (inl t) = pure true
  progress_found (inr e) = if equals_no_documents e then pure false else fail e

  unfoldable pub is_availment_transaction_in_progress : String → Go S Bool
  is_availment_transaction_in_progress msisdn = do
    r ← attempt (d.in_progress.find_one (λ t. str_eq t.msisdn msisdn))
    progress_found r

  unfoldable pub has_changes : Subscribers F → Subscribers F → Bool
  has_changes existing new =
      not (str_eq existing.subscriber_type new.subscriber_type)
      || (not (str_eq existing.customer_type new.customer_type)
          || (not (d.float.eq existing.credit_loan_limit_amount new.credit_loan_limit_amount)
              || not (
                  dates_equal existing.credit_loan_limit_amount_gen_date
                    new.credit_loan_limit_amount_gen_date)))

  -- The document with what an update sets.
  abbrev pub subscriber_update : Subscribers F → Time → Subscribers F → Subscribers F
  subscriber_update new now old = record old {
    subscriber_type = new.subscriber_type;
    customer_type = new.customer_type;
    credit_loan_limit_amount = new.credit_loan_limit_amount;
    credit_loan_limit_amount_gen_date = new.credit_loan_limit_amount_gen_date;
    updated_at = some now;
  }

  abbrev add_or_update : String → Subscribers F → Subscribers F ⊎ Error → Go S (Unit {0})
  add_or_update msisdn new (inr e) =
      if equals_no_documents e
      then (do
        id ← d.new_object_id
        now ← d.now
        restating "failed to insert new subscriber"
            (d.subscribers.insert_one (record new { id = id; created_at = now; updated_at = none }))
        pure tt)
      else restating "failed to fetch existing subscriber" (fail e)
  add_or_update msisdn new (inl old) = if not (has_changes old new) then pure tt else (do
    now ← d.now
    restating "failed to update subscriber"
        (d.subscribers.update_one (λ s. str_eq s.msisdn msisdn) (subscriber_update new now)))

  unfoldable pub add_update_subscriber : String → Subscribers F → Go S (Unit {0})
  unfolding has_changes
  add_update_subscriber msisdn new = do
    r ← attempt (d.subscribers.find_one (λ s. str_eq s.msisdn msisdn))
    add_or_update msisdn new r

  -- The name and the number of the wallet of a product.
  unfoldable pub servicing_partner_by_product_id : ObjectId → Go S (String × String)
  servicing_partner_by_product_id product = do
    (name, number, deleted) ← d.partner_of product
    if deleted then fail no_documents else pure (name, itoa number)

  abbrev amax_name_found : ProductsNamesInAmax ⊎ Error → Go S ProductsNamesInAmax
  amax_name_found (inl n) = pure n
  amax_name_found (inr e) = fail (if equals_no_documents e then no_product_name_in_amax else e)

  unfoldable pub product_name_in_amaxs : ObjectId → ObjectId → Go S ProductsNamesInAmax
  product_name_in_amaxs product brand = do
    r ← attempt (
        d.amax_names.find_one
          (λ n. n.product_id == product && (n.brand_id == brand && not n.is_deleted)))
    amax_name_found r

  -- `InsertAvailment`
  unfoldable pub insert_availment : Availments F → Go S (Unit {0})
  insert_availment a = do
    restating "availment : error while inserting" (d.availments.insert_one a)
    pure tt

  -- `UpdateAvailment` with the only update that the service makes; an error is only logged.
  unfoldable pub mark_published_to_kafka : ObjectId → Go S (Unit {0})
  mark_published_to_kafka id = do
    attempt
        (d.availments.update_one (λ a. a.id == id) (λ a. record a { published_to_kafka = true }))
    pure tt
