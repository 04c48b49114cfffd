-- ===== src/Worker/Partial/Accounts.antt =====
-- The amounts that a partial collection records, where they are whole pesos.
use promo_collection.Prelude.{ℕ, ◌-◌, ◌≡◌, refl, sym, ap, ◌∙◌, some, true, pos, ◌-ℤ◌, arith, ◌^◌}
use promo_collection.Prelude.Int.{sub-sub, sub_size}
use promo_collection.Runtime.Float64.{IsExact}
use promo_collection.Runtime.Time.{Time}
use promo_collection.Driver.{ObjectId}
use promo_collection.Worker.Schema.{PromoCollectionPublishedMessage, Collections, UnpaidLoanEntry}
use promo_collection.Worker.Deps.{Deps}
use promo_collection.Worker.Serializers
use promo_collection.Worker.Serializers.Accounts.{
  pesos, sub_pesos, IsWhole, remaining-Whole, unpaid_fee-Whole, collected_fee-Whole,
  serialize_kafka_message-Whole,
}
use promo_collection.Worker.Full
use promo_collection.Worker.Partial

module _ {S F B : Type 0} (d : Deps S F B) (x : IsExact d.float)
    (msg : PromoCollectionPublishedMessage F) (loan unpaid amount fee due : ℕ)
    (w : IsWhole d msg loan unpaid amount fee due) where
  abbrev recorded : Time → Collections F → Collections F
  recorded now base =
      Partial.partial_collection d msg now
        (d.float.sub msg.total_unpaid_amount_in_peso msg.amount_to_be_deducted_in_peso) base

  unpaid_loan_amount-Whole :
      d.float.sub
        (pesos d.float (unpaid - amount))
        (d.float.sub (pesos d.float fee) (pesos d.float (fee - (due - amount))))
      ≡ pesos d.float (unpaid - amount - (due - amount))
  unpaid_loan_amount-Whole =
      ap (d.float.sub (pesos d.float (unpaid - amount))) (
        sub_pesos d.float x fee _ w.fee_bound (omega arith)
        ∙ ap (pesos d.float) (omega (arith, w.due_bound)))
      ∙ sub_pesos d.float x _ _ (omega (arith, w.unpaid_bound, w.loan_bound))
          (omega (arith, w.due_unpaid))

  -- The document of a partial collection says of the amounts what the Kafka message says, apart
  -- from the unpaid amount without the service fee: in the document that and the unpaid service fee
  -- are what is unpaid in all, in the message it is again what is unpaid in all.
  pub partial_collection-agrees :
      (now at : Time) (base : Collections F)
      → let c = recorded now base in
        let m = Serializers.serialize_kafka_message d msg true "" at in
        (c.collected_amount ≡ m.collected_amount)
        × (c.total_collected_amount ≡ m.collected_loan_amount)
        × (c.total_unpaid ≡ m.total_unpaid)
        × (c.unpaid_service_fee ≡ m.unpaid_service_fee)
        × (c.collected_service_fee ≡ m.collected_service_fee)
        × (m.unpaid_loan_amount ≡ c.total_unpaid)
        × (c.unpaid_loan_amount ≡ pesos d.float (unpaid - amount - (due - amount)))
        × (c.unpaid_service_fee ≡ pesos d.float (due - amount))
        × (c.total_unpaid ≡ pesos d.float (unpaid - amount))
  unfolding Partial.partial_collection Serializers.serialize_kafka_message
      Serializers.calculate_unpaid_service_fee
  partial_collection-agrees now at base =
      let k = serialize_kafka_message-Whole d x msg loan unpaid amount fee due w at in
      let left = remaining-Whole d x msg loan unpaid amount fee due w in
      (
        refl,
        refl,
        left ∙ sym k.1,
        refl,
        refl,
        k.1 ∙ sym left,
        rw (left, collected_fee-Whole d x msg loan unpaid amount fee due w, w.fee_eq)
            (unpaid_loan_amount-Whole),
        unpaid_fee-Whole d x msg loan unpaid amount fee due w,
        left,
      )

  -- What the new unpaid document gets as unpaid service fee is what the deduction leaves of the fee,
  -- less all of the fee that earlier collections had paid: it is right exactly for a loan of whose
  -- fee nothing has been paid before.
  pub collected_entry-fee :
      (now : Time) (base : Collections F) (id : ObjectId) (u : UnpaidLoanEntry F)
      → (Full.collected_entry d msg (recorded now base) id u).unpaid_service_fee
        ≡ some (d.float.of_int (pos (due - amount) -ℤ pos (fee - due)))
  unfolding Full.collected_entry Partial.partial_collection Serializers.calculate_unpaid_service_fee
  collected_entry-fee now base id u =
      ap (λ y. some y)
        (rw (collected_fee-Whole d x msg loan unpaid amount fee due w, w.due_eq)
          (x.sub_exact (pos due) (pos (fee - (due - amount)))
              (omega (arith, w.due_bound, w.fee_bound)) (omega (arith, w.fee_bound))
              (sub_size due (fee - (due - amount)) (2 ^ 53)
                (omega (arith, w.due_bound, w.fee_bound)) (omega (arith, w.fee_bound)))
            ∙ ap d.float.of_int (
                sub-sub due (fee - (due - amount)) (due - amount) (fee - due)
                  (omega (arith, w.due_bound)))))
