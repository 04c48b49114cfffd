-- ===== src/Tests/WorkerWitnesses.antt =====
-- The theorems about the worker at concrete inputs.
use promo_collection.Prelude.{◌≡◌, refl, true, pos, ℤ, negsuc, some, arith}
use promo_collection.Prelude.Int.{◌-ℤ◌}
use promo_collection.Runtime.Logs.{Committed}
use promo_collection.Worker.Schema.{Collections}
use promo_collection.Worker.Serializers.{serialize_kafka_message, serialized_collection}
use promo_collection.Worker.Serializers.Accounts.{IsWhole, serialize_kafka_message-Whole}
use promo_collection.Worker.Full.{full_data_deduction_handler, collected_entry}
use promo_collection.Worker.Full.Commit.{full_tx, finalized, full_data_deduction_handler-Committed}
use promo_collection.Worker.Partial.{partial_data_deduction_handler, partial_collection}
use promo_collection.Worker.Partial.Commit.{partial_tx, partial_data_deduction_handler-Committed}
use promo_collection.Worker.Partial.Accounts.{partial_collection-agrees, collected_entry-fee}
use promo_collection.Tests.Whole.{whole-IsExact}
use promo_collection.Tests.WorkerWorld.{deps, log_of, deps-Records}
use promo_collection.Tests.WorkerData.{
  world, full_request, partial_request, second_request, unpaid_document,
}

full_data_deduction_handler-Committed_example :
    let (r, w) = full_data_deduction_handler deps full_request world in
    Committed (full_tx deps full_request (pos 5)) (finalized deps full_request) world.log r w.log
full_data_deduction_handler-Committed_example =
    full_data_deduction_handler-Committed deps log_of full_request deps-Records refl world

partial_data_deduction_handler-Committed_example :
    let (r, w) = partial_data_deduction_handler deps partial_request world in
    Committed (partial_tx deps partial_request) (finalized deps partial_request) world.log r w.log
partial_data_deduction_handler-Committed_example =
    partial_data_deduction_handler-Committed deps log_of partial_request deps-Records world

request-IsWhole : IsWhole deps partial_request 50 20 8 5 5
request-IsWhole = record {
  loan_eq = refl;
  unpaid_eq = refl;
  amount_eq = refl;
  fee_eq = refl;
  due_eq = refl;
  amount_bound = omega arith;
  unpaid_bound = omega arith;
  loan_bound = omega arith;
  due_bound = omega arith;
  due_unpaid = omega arith;
  fee_bound = omega arith;
}

serialize_kafka_message-Whole_example :
    let m = serialize_kafka_message deps partial_request true "" 5000 in
    (m.collected_loan_amount ≡ pos 38)
    × (m.total_unpaid ≡ pos 12)
    × (m.unpaid_service_fee ≡ pos 0)
    × (m.collected_service_fee ≡ pos 5)
serialize_kafka_message-Whole_example =
    serialize_kafka_message-Whole deps whole-IsExact partial_request 50 20 8 5 5 request-IsWhole
      5000

second_request-IsWhole : IsWhole deps second_request 50 20 8 5 2
second_request-IsWhole = record {
  loan_eq = refl;
  unpaid_eq = refl;
  amount_eq = refl;
  fee_eq = refl;
  due_eq = refl;
  amount_bound = omega arith;
  unpaid_bound = omega arith;
  loan_bound = omega arith;
  due_bound = omega arith;
  due_unpaid = omega arith;
  fee_bound = omega arith;
}

abbrev base : Collections ℤ
base = serialized_collection deps partial_request true "" "" 100 5000

-- The new unpaid document has a service fee of minus three pesos.
collected_entry-fee_example :
    (collected_entry deps second_request
      (partial_collection deps second_request 5000 (pos 12) base)
      30
      unpaid_document).unpaid_service_fee
    ≡ some (negsuc 2)
unfolding ◌-ℤ◌
collected_entry-fee_example =
    collected_entry-fee deps whole-IsExact second_request 50 20 8 5 2 second_request-IsWhole 5000
      base 30 unpaid_document

partial_collection-agrees_example :
    let c = partial_collection deps partial_request 5000 (pos 20 -ℤ pos 8) base in
    let m = serialize_kafka_message deps partial_request true "" 5000 in
    (c.collected_amount ≡ m.collected_amount)
    × (c.total_collected_amount ≡ m.collected_loan_amount)
    × (c.total_unpaid ≡ m.total_unpaid)
    × (c.unpaid_service_fee ≡ m.unpaid_service_fee)
    × (c.collected_service_fee ≡ m.collected_service_fee)
    × (m.unpaid_loan_amount ≡ c.total_unpaid)
    × (c.unpaid_loan_amount ≡ pos 12)
    × (c.unpaid_service_fee ≡ pos 0)
    × (c.total_unpaid ≡ pos 12)
unfolding ◌-ℤ◌
partial_collection-agrees_example =
    partial_collection-agrees deps whole-IsExact partial_request 50 20 8 5 5 request-IsWhole 5000
      5000 base
