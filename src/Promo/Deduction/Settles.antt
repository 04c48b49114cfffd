-- ===== src/Promo/Deduction/Settles.antt =====
-- Every way out of `DataToBeDeductedCalculation` either sends the worker one request, or gives up
-- the in-progress entry, or fails and changes neither.
use promo_collection.Prelude.{
  String, ◌≡◌, refl, ◌-◌, ◌⊎◌, inl, inr, true, some, [], ◌∷◌, ◌++◌, Bool-cases,
}
use promo_collection.Runtime.{Outcome, ok, err, panic, ◌>>=◌, restating, restate_error}
use promo_collection.Runtime.Returns.{Returns, Returns-or_fail, Returns-restating, Ends-value}
use promo_collection.Runtime.Keeps.{
  Ends, Ends-frame, Ends-bind, Ends-pure, Ends-if, Keeps-restating,
}
use promo_collection.Runtime.Strconv.{itoa}
use promo_collection.Promo.Schema.{Loans, UnpaidLoans, PromoEventMessage, PublishToWorkerMsgFormat}
use promo_collection.Promo.Deps.{Deps}
use promo_collection.Promo.Repos.{publish_message, marshalled, delete_entry}
use promo_collection.Promo.Laws.{Seen, Observes, Applied}
use promo_collection.Promo.Frames
use promo_collection.Promo.Deduction

module _ {S F B : Type 0} (d : Deps S F B) (k : String) where
  -- `u` is `v` with one more request, which is the encoding of a message about the subscriber.
  abbrev pub Requested : Seen B → Seen B → Type 0
  Requested v u =
      (m : PublishToWorkerMsgFormat F) × (b : B) × (d.worker_codec.marshal m ≡ some b)
      × (m.msisdn ≡ k)
      × (u ≡ (v.0, v.1 ++ (b ∷ [])))

  abbrev pub Settled : Seen B → Outcome (Unit {0}) → Seen B → Type 0
  Settled v (ok a) u = (u ≡ (v.0 - 1, v.1)) ⊎ Requested v u
  Settled v (err e) u = u ≡ v
  Settled v panic u = u ≡ v

  module _ {view : S → Seen B} (o : Observes d k view) where
    abbrev Sent : PublishToWorkerMsgFormat F → Seen B → Outcome String → Seen B → Type 0
    Sent m v (ok a) u = (b : B) × (d.worker_codec.marshal m ≡ some b) × (u ≡ (v.0, v.1 ++ (b ∷ [])))
    Sent m v (err e) u = u ≡ v
    Sent m v panic u = u ≡ v

    restated-Sent :
        (m : PublishToWorkerMsgFormat F) (v : Seen B) (b : B) (t : String) (r : Outcome String)
        (u : Seen B)
        → d.worker_codec.marshal m ≡ some b
        → Applied (λ w. (w.0, w.1 ++ (b ∷ []))) v r u
        → Sent m v (restate_error t r) u
    restated-Sent m v b t (ok a) u e h = (b, e, h)
    restated-Sent m v b t (err x) u e h = h
    restated-Sent m v b t panic u e h = h

    send-Sent :
        (m : PublishToWorkerMsgFormat F) (v : Seen B) (b : B) (t : String)
        → d.worker_codec.marshal m ≡ some b
        → Ends view v (restating t (d.worker_topic.send b)) (Sent m v)
    unfolding ◌>>=◌
    send-Sent m v b t e = record {
      from = λ s w.
          restated-Sent m v b t (d.worker_topic.send b s).0 (view (d.worker_topic.send b s).1) e
            (rw w at (o.sent b s));
    }

    encoded :
        (x : PublishToWorkerMsgFormat F)
        → Returns (λ b. d.worker_codec.marshal x ≡ some b) (marshalled {S = S} d.worker_codec x)
    unfolding marshalled
    encoded x = Returns-or_fail _ _ (λ a e. e)

    publish-Sent :
        (m : PublishToWorkerMsgFormat F) (v : Seen B)
        → Ends view v (publish_message d.worker_codec d.worker_topic m) (Sent m v)
    unfolding publish_message
    publish-Sent m v =
        Ends-value _ _ (Keeps-restating _ _ (Frames.marshalled-Keeps _ _))
          (Returns-restating _ _ (encoded m)) (λ b e. send-Sent m v b _ e) (λ e. refl) refl

    publish_request-Settled :
        (trace : String) (payload : PromoEventMessage) (amount : F) (l : Loans F) (u : UnpaidLoans)
        (kind : String) (v : Seen B)
        → itoa payload.msisdn ≡ k
        → Ends view v (Deduction.publish_request d trace payload amount l u kind) (Settled v)
    unfolding Deduction.publish_request Deduction.worker_message
    publish_request-Settled trace payload amount l u kind v h =
        Ends-frame _ _ (Frames.loan_ageing-Keeps d o.quiet _)
          (λ ageing.
            Ends-bind (Sent (Deduction.worker_message d trace payload amount l u kind ageing) v) _ _
              (publish-Sent _ v) (λ a w x. Ends-pure tt (inr (_, x.0, x.1, h, x.2))) (λ e w x. x)
              (λ w x. x))
          (λ e. refl) refl

    pub delete_entry-Ends :
        (v : Seen B) → Ends view v (delete_entry d k) (λ r u. (r ≡ ok tt) × (u ≡ (v.0 - 1, v.1)))
    unfolding delete_entry
    delete_entry-Ends v = record { from = λ s e. rw e at (o.deleted s) }

    skip_collection-Settled :
        (payload : PromoEventMessage) (v : Seen B)
        → itoa payload.msisdn ≡ k
        → Ends view v (Deduction.skip_collection d true payload) (Settled v)
    unfolding Deduction.skip_collection
    skip_collection-Settled payload v h = record {
      from = λ s e. let (r, u) = (delete_entry-Ends v).from s e in rw (h, r) (inl u);
    }

    partial_or_skip-Settled :
        (trace : String) (payload : PromoEventMessage) (p : Deduction.DeductionParams F)
        (l : Loans F) (u : UnpaidLoans) (v : Seen B)
        → itoa payload.msisdn ≡ k
        → Ends view v
            (Deduction.handle_partial_or_skip_collection d true trace payload p l u)
            (Settled v)
    unfolding Deduction.handle_partial_or_skip_collection
    partial_or_skip-Settled trace payload p l u v h =
        Ends-if _ _ _ (publish_request-Settled trace payload _ l u _ v h)
          (skip_collection-Settled payload v h)

    -- The calculation settles the case, if the amount is not above what is owed.
    pub data_to_be_deducted_calculation-Settled :
        (trace : String) (payload : PromoEventMessage) (p : Deduction.DeductionParams F)
        (l : Loans F) (u : UnpaidLoans) (v : Seen B)
        → itoa payload.msisdn ≡ k
        → let outstanding = d.float.mul p.loan_unpaid_amount p.conversion_rate in
          (d.float.eq p.deductable_data_amount outstanding ≡ true)
            ⊎ (d.float.lt p.deductable_data_amount outstanding ≡ true)
          → Ends view v
              (Deduction.data_to_be_deducted_calculation d true trace payload p l u)
              (Settled v)
    unfolding Deduction.data_to_be_deducted_calculation Deduction.handle_full_collection
    data_to_be_deducted_calculation-Settled trace payload p l u v h c =
        let full = publish_request-Settled trace payload p.deductable_data_amount l u _ v h in
        elim (Bool-cases (
          d.float.eq p.deductable_data_amount
            (d.float.mul p.loan_unpaid_amount p.conversion_rate))) [
              | inl same ↦ rw same full
              | inr other ↦ elim c [
                | inl same ↦ rw same full
                | inr below ↦ rw (other, below) (partial_or_skip-Settled trace payload p l u v h)
              ]
            ]
