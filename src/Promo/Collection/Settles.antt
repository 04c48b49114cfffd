-- ===== src/Promo/Collection/Settles.antt =====
-- `CollectionRules` settles every case that it does not refuse.
use promo_collection.Prelude.{String, ◌≡◌, refl, true}
use promo_collection.Runtime.Float64.{IsOrdered}
use promo_collection.Runtime.Keeps.{Ends}
use promo_collection.Runtime.Returns.{Ends-value}
use promo_collection.Runtime.Strconv.{itoa}
use promo_collection.Promo.Schema.{PromoEventMessage}
use promo_collection.Promo.Deps.{Deps}
use promo_collection.Promo.Laws.{Seen, Observes}
use promo_collection.Promo.Frames
use promo_collection.Promo.Deduction.Decides.{compute_max_deductible_amount_bound}
use promo_collection.Promo.Deduction.Settles.{Settled, data_to_be_deducted_calculation-Settled}
use promo_collection.Promo.Collection
use promo_collection.Promo.Collection.Finite

module _ {S F B : Type 0} (d : Deps S F B) (IsFinite : F → Type 0) (ordered : IsOrdered d.float)
    (finite : Finite.HasFinite IsFinite d) (k : String) {view : S → Seen B}
    (o : Observes d k view) where
  -- For the subscriber of the payload, `CollectionRules` sends one request, or gives up one
  -- in-progress entry, or fails and changes neither.
  pub collection_rules-Settled :
      (trace : String) (payload : PromoEventMessage) (v : Seen B)
      → itoa payload.msisdn ≡ k
      → Ends view v (Collection.collection_rules d true trace payload) (Settled d k v)
  unfolding Collection.collection_rules Collection.deduction_params
  collection_rules-Settled trace payload v h =
      Ends-value _ _ (Frames.fetch_rules-Keeps d o.quiet)
        (Finite.fetch_rules-FiniteRules IsFinite d finite)
        (λ rules fr.
          Ends-value _ _ (Frames.get_loan_by_msisdn-Keeps d o.quiet _)
            (Finite.get_loan-FiniteLoan IsFinite d finite _)
            (λ l fl.
              Ends-value _ _ (Frames.get_total_unpaid_loan-Keeps d o.quiet l)
                (Finite.get_total_unpaid_loan-FiniteTotal IsFinite d finite l fl)
                (λ t ft.
                  Ends-value _ _ (Frames.get_conversion_rate-Keeps d o.quiet t.loan rules)
                    (Finite.get_conversion_rate-IsFinite IsFinite d finite t.loan rules ft.1 fr)
                    (λ rate x.
                      data_to_be_deducted_calculation-Settled d k o trace payload _ t.loan
                        t.document v h
                        (compute_max_deductible_amount_bound d.float ordered _ _ _ _
                          (finite.mul_number _ _ fr.0 (finite.of_int_finite _))
                          (finite.mul_number _ _ ft.0 x)))
                    (λ e. refl) refl)
                (λ e. refl) refl)
            (λ e. refl) refl)
        (λ e. refl) refl
