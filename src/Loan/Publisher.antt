-- ===== src/Loan/Publisher.antt =====
-- `PublishAvailmentStatusToKafka` of internal/pkg/kafka/producer/kafka_publisher_service.go, and the
-- goroutines that publish what became of an availment and then mark it.
use promo_collection.Prelude.{String, pos, Option, none, some, ◌⊎◌, inl, inr}
use promo_collection.Runtime.{Go, Error, pure, attempt, deref, ◌>>=◌}
use promo_collection.Loan.Schema.{LoanProduct}
use promo_collection.Loan.Deps.{Deps, StatusReport}
use promo_collection.Loan.Serializers.{serialize_availment_kafka_message}
use promo_collection.Loan.Repos.{mark_published_to_kafka}
use promo_collection.Loan.Requests.{comma_joined}
pub mod Marked

module _ {S F B : Type 0} (d : Deps S F B) where
  unfoldable pub publish_availment_status_to_kafka : StatusReport F → String → F → Go S (Unit {0})
  publish_availment_status_to_kafka r name price = do
    now ← d.now
    d.publish_kafka (
        comma_joined (
          serialize_availment_kafka_message d r.availment.guid now r.channel r.msisdn
            r.availment.brand r.availment.loan_type name r.keyword r.servicing_partner price
            r.availment.service_fee r.availment_result r.availment.error_code (pos 0)
            r.status_of_provisioned_loan))

  abbrev pub mark_published : StatusReport F → (Unit {0}) ⊎ Error → Go S (Unit {0})
  mark_published r (inl u) = mark_published_to_kafka d r.availment.id
  mark_published r (inr e) = pure tt

  unfoldable pub run_publish_status : StatusReport F → String → F → Go S (Unit {0})
  run_publish_status r name price = do
    x ← attempt (publish_availment_status_to_kafka r name price)
    mark_published r x

  -- After a top-up the name and the price are read through the pointer.
  unfoldable pub run_publish_product_status :
      StatusReport F → Option (LoanProduct F) → Go S (Unit {0})
  run_publish_product_status r o = do p ← deref o; run_publish_status r p.name p.price
