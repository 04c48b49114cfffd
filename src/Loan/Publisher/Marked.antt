-- ===== src/Loan/Publisher/Marked.antt =====
-- An availment is marked as published exactly if its message was delivered.
use promo_collection.Prelude.{◌==◌, true, ◌≡◌, refl, String, ◌⊎◌, inl, inr, List, [], ◌∷◌, ◌++◌}
use promo_collection.Runtime.{Error}
use promo_collection.Runtime.Attempts.{Delivers, Attempted, Delivers-after, attempt-Attempted}
use promo_collection.Runtime.Runs.{Gives, Marks, Runs}
use promo_collection.Runtime.Runs.Calls.{Runs-pure, Runs-bind, Runs-called}
use promo_collection.Loan.Deps.{Deps, StatusReport}
use promo_collection.Loan.Repos.{mark_published_to_kafka}
use promo_collection.Loan.Publisher

pub data PublishEvent : Type 0 where
  -- a message was delivered to Kafka
  delivered : PublishEvent
  -- the availment of the report was to be marked as published
  marked : PublishEvent

module _ {S F B : Type 0} (d : Deps S F B) {view : S → List PublishEvent}
    (now_quiet : Gives view d.now (λ t. Unit))
    (publish_delivers : (t : String) → Delivers view (d.publish_kafka t) delivered)
    (r : StatusReport F)
    (update_shown : Marks view
      (d.availments.update_one
        (λ a. a.id == r.availment.id)
        (λ a. record a { published_to_kafka = true }))
      (marked ∷ [])) where
  mark-Runs :
      (x : (Unit {0}) ⊎ Error) (es : List PublishEvent)
      → Attempted delivered x es
      → Runs view
          (Publisher.mark_published d r x)
          (λ u fs. (es ++ fs ≡ []) ⊎ (es ++ fs ≡ delivered ∷ marked ∷ []))
  unfolding mark_published_to_kafka
  mark-Runs (inl u) es h = rw h (Runs-called _ _ update_shown (λ x. Runs-pure tt (inr refl)))
  mark-Runs (inr e) es h = rw h (Runs-pure tt (inl refl))

  publish-Delivers :
      (name : String) (price : F)
      → Delivers view (Publisher.publish_availment_status_to_kafka d r name price) delivered
  unfolding Publisher.publish_availment_status_to_kafka
  publish-Delivers name price = Delivers-after _ _ now_quiet (λ t. publish_delivers _)

  -- Where a message that Kafka takes shows and one that it refuses does not, and the update that sets
  -- publishedToKafka of the availment with the report's id shows: the goroutine returns. It has
  -- delivered a message and then asked for that update, or neither.
  pub run_publish_status-Marked :
      (name : String) (price : F)
      → Runs view
          (Publisher.run_publish_status d r name price)
          (λ u es. (es ≡ []) ⊎ (es ≡ delivered ∷ marked ∷ []))
  unfolding Publisher.run_publish_status
  run_publish_status-Marked name price =
      Runs-bind (Attempted delivered) _ _ (attempt-Attempted _ (publish-Delivers name price))
        (λ x es h. mark-Runs x es h)
