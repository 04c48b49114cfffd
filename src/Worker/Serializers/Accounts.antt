-- ===== src/Worker/Serializers/Accounts.antt =====
-- The amounts of the records of a collection, where they are whole pesos.
use promo_collection.Prelude.{
  ℕ, ◌+◌, ◌-◌, ◌≤◌, ◌^◌, ◌≡◌, ap, ◌∙◌, inl, inr, ◌⊎◌, ◌<◌, true, false, pos, leb, arith,
}
use promo_collection.Prelude.Int.{sub-pos, add-pos}
use promo_collection.Runtime.Float64.{Float64, IsExact}
use promo_collection.Runtime.Time.{Time}
use promo_collection.Worker.Schema.{PromoCollectionPublishedMessage}
use promo_collection.Worker.Deps.{Deps}
use promo_collection.Worker.Serializers

abbrev pub pesos : {F : Type 0} → Float64 F → ℕ → F
pesos float n = float.of_int (pos n)

leb-cases : (a b : ℕ) → ((leb a b ≡ true) × (a ≤ b)) ⊎ ((leb a b ≡ false) × (b < a))
leb-cases a b = ground arith

module _ {F : Type 0} (float : Float64 F) (x : IsExact float) where
  pub sub_pesos :
      (a b : ℕ)
      → a ≤ 2 ^ 53
      → b ≤ a
      → float.sub (pesos float a) (pesos float b) ≡ pesos float (a - b)
  sub_pesos a b h k =
      x.sub_exact (pos a) (pos b) (omega arith) (omega arith) (rw (sub-pos a b k) (omega arith))
      ∙ ap float.of_int (sub-pos a b k)

  pub add_pesos :
      (a b : ℕ) → a + b ≤ 2 ^ 53 → float.add (pesos float a) (pesos float b) ≡ pesos float (a + b)
  add_pesos a b h =
      x.add_exact (pos a) (pos b) (omega arith) (omega arith) (rw (add-pos a b) (omega arith))
      ∙ ap float.of_int (add-pos a b)

  pub le_pesos :
      (a b : ℕ) → a ≤ 2 ^ 53 → b ≤ 2 ^ 53 → float.le (pesos float a) (pesos float b) ≡ leb a b
  le_pesos a b h k = x.le_exact (pos a) (pos b) (omega arith) (omega arith) ∙ ground arith

module _ {S F B : Type 0} (d : Deps S F B) where
  -- The amounts of a request in whole pesos: the loan, what is unpaid of it, what is deducted, the
  -- service fee and what is unpaid of that.
  pub record IsWhole (msg : PromoCollectionPublishedMessage F) (loan unpaid amount fee due : ℕ)
      : Type 0 where
    pub loan_eq : msg.total_loan_amount_in_peso ≡ pesos d.float loan
    pub unpaid_eq : msg.total_unpaid_amount_in_peso ≡ pesos d.float unpaid
    pub amount_eq : msg.amount_to_be_deducted_in_peso ≡ pesos d.float amount
    pub fee_eq : msg.service_fee ≡ pesos d.float fee
    pub due_eq : msg.unpaid_service_fee ≡ pesos d.float due
    pub amount_bound : amount ≤ unpaid
    pub unpaid_bound : unpaid ≤ loan
    pub loan_bound : loan ≤ 2 ^ 53
    pub due_bound : due ≤ fee
    pub due_unpaid : due ≤ unpaid
    pub fee_bound : fee ≤ 2 ^ 53

  module _ (x : IsExact d.float) (msg : PromoCollectionPublishedMessage F)
      (loan unpaid amount fee due : ℕ) (w : IsWhole msg loan unpaid amount fee due) where
    pub remaining-Whole :
        d.float.sub msg.total_unpaid_amount_in_peso msg.amount_to_be_deducted_in_peso
        ≡ pesos d.float (unpaid - amount)
    remaining-Whole =
        rw (w.unpaid_eq, w.amount_eq)
          (sub_pesos d.float x _ _ (omega (arith, w.unpaid_bound, w.loan_bound)) w.amount_bound)

    pub collected-Whole :
        d.float.add
          (d.float.sub msg.total_loan_amount_in_peso msg.total_unpaid_amount_in_peso)
          msg.amount_to_be_deducted_in_peso
        ≡ pesos d.float (loan - unpaid + amount)
    collected-Whole =
        rw
          (w.loan_eq, w.unpaid_eq, w.amount_eq, sub_pesos d.float x _ _ w.loan_bound w.unpaid_bound)
          (add_pesos d.float x _ _ (omega (arith, w.amount_bound, w.unpaid_bound, w.loan_bound)))

    pub unpaid_fee-Whole :
        Serializers.calculate_unpaid_service_fee d msg.amount_to_be_deducted_in_peso
          msg.unpaid_service_fee
        ≡ pesos d.float (due - amount)
    unfolding Serializers.calculate_unpaid_service_fee Serializers.zero
    unpaid_fee-Whole =
        rw
          (
            w.amount_eq,
            w.due_eq,
            le_pesos d.float x due amount (omega (arith, w.due_bound, w.fee_bound))
                (omega (arith, w.amount_bound, w.unpaid_bound, w.loan_bound)),
          )
          (elim (leb-cases due amount) [
            | inl h ↦ rw h.0 (ap (pesos d.float) (omega (arith, h.1)))
            | inr h ↦ rw h.0 (
                sub_pesos d.float x due amount (omega (arith, w.due_bound, w.fee_bound))
                  (omega (arith, h.1)))
          ])

    pub collected_fee-Whole :
        d.float.sub msg.service_fee (
          Serializers.calculate_unpaid_service_fee d msg.amount_to_be_deducted_in_peso
            msg.unpaid_service_fee)
        ≡ pesos d.float (fee - (due - amount))
    collected_fee-Whole =
        rw (w.fee_eq, unpaid_fee-Whole)
          (sub_pesos d.float x _ _ w.fee_bound (omega (arith, w.due_bound)))

    -- For amounts in whole pesos the Kafka message of a collection that succeeded has as collected
    -- what was paid before and what is deducted now, as unpaid what is left of the loan, and as
    -- unpaid service fee what the deduction leaves of it; the service fee collected is the rest.
    pub serialize_kafka_message-Whole :
        (at : Time)
        → let m = Serializers.serialize_kafka_message d msg true "" at in
          (m.collected_loan_amount ≡ pesos d.float (loan - unpaid + amount))
          × (m.total_unpaid ≡ pesos d.float (unpaid - amount))
          × (m.unpaid_service_fee ≡ pesos d.float (due - amount))
          × (m.collected_service_fee ≡ pesos d.float (fee - (due - amount)))
    unfolding Serializers.serialize_kafka_message Serializers.calculate_unpaid_service_fee
    serialize_kafka_message-Whole at = (
      collected-Whole,
      rw (collected-Whole, w.loan_eq)
          (sub_pesos d.float x _ _ w.loan_bound (omega (arith, w.amount_bound, w.unpaid_bound))
            ∙ ap (pesos d.float) (omega (arith, w.amount_bound, w.unpaid_bound))),
      unpaid_fee-Whole,
      collected_fee-Whole,
    )
